-- ===== src/Port.antt =====
-- `Base_Port` of components/home/library/classes: a terminal of a device function, with its output
-- driver or its button, and the activation flags.
pub mod Laws
use n1cpu.Base.{
  ℕ, Bool, false, not, ◌&&◌, Option, none, some, String, if◌then◌else◌, List, true, ◌∷◌, [],
}
use n1cpu.Core.PortType.{
  PortType, port_inport, port_inpuls, port_sensor, port_fire, port_water, port_gas, port_emergency,
  is_outport, is_emergency,
}
use n1cpu.Button.{Button, ButtonEvent, press_down, press_up, long_press_start}
use n1cpu.Out.{
  Hal, OutDev, World, outport_call, emit, to_bool, of_bool, iot_out_set_level, iot_out_get_level,
  iot_out_set_toggle,
}

pub record Port : Type 0 where
  pub name : String
  pub id : ℕ
  pub type : PortType
  pub status : Bool
  pub virtual_port : Bool
  pub outport : Option OutDev
  pub inport : Option Button
  pub active : Bool
  pub user_active : Bool
  pub alarm : Bool

-- The events that ports listen to, compared.
abbrev event_eq : ButtonEvent → ButtonEvent → Bool
event_eq press_down press_down = true
event_eq press_up press_up = true
event_eq long_press_start long_press_start = true
event_eq _ _ = false

abbrev out_disable : Bool → Option OutDev → Option OutDev
out_disable d none = none
out_disable d (some out) = some (record out { disable = d })

abbrev button_disable : Bool → Option Button → Option Button
button_disable d none = none
button_disable d (some btn) = some (record btn { disable = d })

unfoldable pub set_active_admin : Bool → Port → Port
set_active_admin dr p = record p {
  active = dr;
  outport = out_disable (not dr) p.outport;
  inport = button_disable (not dr) p.inport;
}

unfoldable pub set_active : Bool → Port → Port
unfolding set_active_admin
set_active dr p = if is_emergency p.type && not dr then p else set_active_admin dr p

abbrev pub set_user_active : Bool → Port → Port
set_user_active dr p = record p { user_active = dr }

abbrev pub set_alarm : Bool → Port → Port
set_alarm al p = record p { alarm = al }

-- The pointer to `inportscall`, which ports put on their buttons: a pointer to a function is a number.
abbrev inportscall : ℕ
inportscall = 1

abbrev listen_out : ℕ → Option OutDev → Option OutDev
listen_out self none = none
listen_out self (some out) = some (record out { cb = true; usr_data = self })

-- `iot_button_register_cb(inport, event, &inportscall, this)` for the events of the list.
abbrev hook : List ButtonEvent → (ButtonEvent → Option ℕ) → ButtonEvent → Option ℕ
hook [] cb ev = cb ev
hook (e ∷ es) cb ev = if event_eq e ev then some inportscall else hook es cb ev

abbrev hook_button : ℕ → List ButtonEvent → Button → Button
hook_button self [] btn = btn
hook_button self (e ∷ es) btn = record btn { cb = hook (e ∷ es) btn.cb; usr_data = self }

abbrev listen_button : ℕ → List ButtonEvent → Option Button → Option Button
listen_button self evs none = none
listen_button self evs (some btn) = some (hook_button self evs btn)

-- The events that a port of a type listens to on its button.
abbrev heard_events : PortType → List ButtonEvent
heard_events port_inport = press_down ∷ press_up ∷ long_press_start ∷ []
heard_events port_sensor = press_down ∷ press_up ∷ long_press_start ∷ []
heard_events port_fire = press_down ∷ press_up ∷ long_press_start ∷ []
heard_events port_water = press_down ∷ press_up ∷ long_press_start ∷ []
heard_events port_gas = press_down ∷ press_up ∷ long_press_start ∷ []
heard_events port_emergency = press_down ∷ press_up ∷ long_press_start ∷ []
heard_events port_inpuls = press_up ∷ long_press_start ∷ []
heard_events _ = []

-- `set_port_type`; `self` is the address of the port.
unfoldable set_port_type : ℕ → PortType → Port → Port × Bool
set_port_type self tp p =
    let p' = record p { type = tp } in
    if p.virtual_port
    then (p', false)
    else if is_outport tp
    then (record p' { outport = listen_out self p.outport }, true)
    else (record p' { inport = listen_button self (heard_events tp) p.inport }, true)

module _ {Hw : Type 0} where
  -- A call of `outportscall` is an effect: it tells the function of the port of ACTION_OUTPUT, which
  -- every function class ignores.
  abbrev outportscall : ℕ → World Hw → World Hw
  outportscall usr = emit (outport_call usr)

  module _ (hal : Hal Hw) where
    write_out : Bool → Port → Option OutDev → World Hw → Port × Bool × World Hw
    unfolding iot_out_set_level
    write_out st p none w = (record p { status = st }, st, w)
    write_out st p (some out) w =
        let (ret, w') = iot_out_set_level hal (some out) (of_bool st) w in
        (record p { status = to_bool ret }, to_bool ret, outportscall out.usr_data w')

    -- Returns the port, the `status` that the method returns, and the world.
    unfoldable pub set_status : Bool → Port → World Hw → Port × Bool × World Hw
    unfolding write_out
    set_status st p w =
        if p.active && is_outport p.type then write_out st p p.outport w else (p, p.status, w)

    toggle_out : Port → Option OutDev → World Hw → Port × Bool × World Hw
    unfolding iot_out_set_toggle
    toggle_out p none w = (p, p.status, w)
    toggle_out p (some out) w =
        let (ret, w') = iot_out_set_toggle hal (some out) w in
        (record p { status = to_bool ret }, to_bool ret, w')

    unfoldable pub set_toggle : Port → World Hw → Port × Bool × World Hw
    unfolding toggle_out
    set_toggle p w =
        if p.active && is_outport p.type then toggle_out p p.outport w else (p, p.status, w)

    unfoldable pub get_hardware_status : Port → World Hw → Port × Bool
    unfolding iot_out_get_level
    get_hardware_status p w =
        let level = iot_out_get_level hal p.outport w in
        if is_outport p.type then (record p { status = level }, level) else (p, false)
