-- ===== src/Lamp.antt =====
-- components/home/library/lamp/lamp.cpp and lamp.h: a lamp with wall switches and sensors, that can go
-- off by itself, seconds after a sensor or minutes after a command.
pub mod Outcome
pub mod Fire
use text.Mathlib.Text.{◌==◌ as str_eq}
use n1cpu.Base.{
  ℕ, ◌-◌, ◌*◌, ◌/◌, ◌%◌, Bool, true, false, not, ◌&&◌, ◌||◌, ◌==◌, ltb, List, [], ◌∷◌, String,
  if◌then◌else◌,
}
use n1cpu.Core.{Status}
use n1cpu.Core.PortType.{PortType, port_inport, port_inpuls, port_sensor, is_virtual}
use n1cpu.Button.{ButtonEvent, press_down, press_up}
use n1cpu.Port.{Port}
use n1cpu.Out.{Hal, World}
use n1cpu.Func.{
  Func, Timer, no_timer, stopped, once, stop, start_periodic, local_set_status, write_status,
  notify, command, create as create_func,
}
use n1cpu.Func.Ports.{write_ports, toggle_ports, write_first_out, is_some_outport, any_port}
use n1cpu.Func.Relay.{remote_status, scenario, bool_ne}

pub record Lamp (Hw : Type 0) : Type 0 where
  pub fn : Func Hw
  pub open fn use *
  pub qtimer : Timer
  pub xtimer : Timer

-- The bits of `global`: an emergency lamp, a welcome lamp.
abbrev pub is_emergency : ℕ → Bool
is_emergency g = g % 2 == 1

abbrev is_welcome : ℕ → Bool
is_welcome g = g / 2 % 2 == 1

-- `esp_timer_start_once` on a timer that `tim_stop` has just stopped, which is no error.
abbrev restart_once : ℕ → Timer → Timer
restart_once us no_timer = no_timer
restart_once us t = once us

module _ {Hw : Type 0} where
  unfoldable create : ℕ → Bool → Status → World Hw → Lamp Hw
  create id cb stored w = record {
    fn = create_func false id cb stored w;
    qtimer = no_timer;
    xtimer = no_timer;
  }

  unfoldable pub remote_set_status : Status → Bool → Lamp Hw → Lamp Hw
  unfolding remote_status
  remote_set_status stat callback_call l =
      let chg =
        bool_ne l.status.stat stat.stat
        || bool_ne l.fn.active stat.active
        || not (l.status.counter == stat.counter) in
      record l { fn = remote_status chg stat callback_call l.fn }

  abbrev tim_stop : Lamp Hw → Lamp Hw
  tim_stop l = record l { qtimer = stop l.qtimer }

  -- Called after `tim_stop` only.
  abbrev tim_start : Lamp Hw → Lamp Hw
  tim_start l = record l { qtimer = restart_once (l.timer * 1000000) l.qtimer }

  abbrev xtim_stop : Lamp Hw → Lamp Hw
  xtim_stop l = record l { xtimer = stop l.xtimer }

  abbrev xtim_start : Lamp Hw → Lamp Hw
  xtim_start l = record l { xtimer = start_periodic 60000000 l.xtimer }

  module _ (hal : Hal Hw) where
    -- The loop of `func_callback` over the output ports, with its calls on the timer.
    write_outputs : Bool → Lamp Hw → Lamp Hw
    write_outputs st l =
        let (ps, ret, w) = write_ports hal any_port st l.status.stat l.ports l.world in
        let new = record l.status { stat = ret } in
        tim_stop (record l { fn = record l.fn { ports = ps; world = w; status = new } })

    toggle_outputs : Lamp Hw → Lamp Hw
    toggle_outputs l =
        let (ps, ret, w) = toggle_ports hal l.status.stat l.ports l.world in
        let new = record l.status { stat = ret } in
        tim_stop (record l { fn = record l.fn { ports = ps; world = w; status = new } })

    -- Does the loop act on an output port?
    abbrev acts : Port → ButtonEvent → Bool
    acts prt evt = acts_on prt.status prt.type evt
      where
        acts_on : Bool → PortType → ButtonEvent → Bool
        acts_on st port_inport press_down = true
        acts_on st port_inport press_up = true
        acts_on st port_inpuls press_up = true
        acts_on st port_sensor press_down = st
        acts_on _ _ _ = false

    callback_ports : PortType → ButtonEvent → Lamp Hw → Lamp Hw
    callback_ports port_inport press_down l = write_outputs true l
    callback_ports port_inport press_up l = write_outputs false l
    callback_ports port_inpuls press_up l = toggle_outputs l
    callback_ports port_sensor press_down l = tim_start (write_outputs true l)
    callback_ports _ _ l = l

    -- `change`: the status is stored without a countdown, and told.
    unfoldable pub changed : Lamp Hw → Lamp Hw
    changed l =
        let f = local_set_status (record l.status { counter = 0 }) true l.fn in
        record (xtim_stop l) { fn = notify f.status f }

    -- `prt` is the port of the button, `evt` the event that the button holds.
    unfoldable pub func_callback : Port → ButtonEvent → Lamp Hw → Lamp Hw
    unfolding callback_ports write_outputs toggle_outputs changed
    func_callback prt evt l =
        let l' = changed (callback_ports prt.type evt l) in
        if l.fn.active && is_some_outport l.ports && acts prt evt then l' else l

    -- `if (!status.stat) {xtim_stop(); status.counter=0;}` and `if (status.counter>0 && status.stat)
    -- xtim_start();`, on a lamp that holds the new status.
    unfoldable pub count : Lamp Hw → Lamp Hw
    count l =
        let zero_count = record l.status { counter = 0 } in
        if not l.status.stat
        then record (xtim_stop l) { fn = record l.fn { status = zero_count } }
        else if ltb 0 l.status.counter
        then xtim_start l
        else l

    -- The outputs and the disk.
    unfoldable pub light : Lamp Hw → Lamp Hw
    light l =
        let st = if l.fn.active then l.status.stat else false in
        let (ps, ret, w) = write_ports hal any_port st st l.ports l.world in
        let new = record l.status { stat = st } in
        record l { fn = write_status (record l.fn { ports = ps; world = w; status = new }) }

    unfoldable pub set_status : Status → Lamp Hw → Lamp Hw
    set_status stat l =
        let l' = light (count (record l { fn = local_set_status stat false l.fn })) in
        if l.virtual_device
        then record l { fn = command stat l.fn }
        else record l' { fn = notify l'.status l'.fn }

    unfoldable pub fire : Bool → Lamp Hw → Lamp Hw
    fire stat l =
        let calm = record l.status { counter = 0 } in
        let alarmed = record calm { stat = is_emergency l.global } in
        let saved = record l.fn { main_temp_status = calm; status = alarmed } in
        let back = record l.fn { status = l.main_temp_status } in
        if stat
        then set_status alarmed (record (xtim_stop l) { fn = saved })
        else set_status l.main_temp_status (record (xtim_stop l) { fn = back })

    unfoldable senaryo : String → Lamp Hw → Lamp Hw
    senaryo par l =
        let to = λ (b : Bool) (m : Lamp Hw).
          let new = record m.status { stat = b } in
          set_status new (record m { fn = record m.fn { status = new } }) in
        let l1 = if str_eq par "on" then to true l else l in
        if str_eq par "off" then to false l1 else l1

    -- All outputs off; the status follows the last of them.
    unfoldable pub all_off : Status → Lamp Hw → Lamp Hw
    all_off stat l =
        let (ps, ret, w) = write_ports hal any_port false stat.stat l.ports l.world in
        let f = record l.fn { ports = ps; world = w } in
        record l { fn = local_set_status (record stat { stat = ret }) true f }

    -- The timer of the countdown runs out.
    unfoldable xtim_callback : Lamp Hw → Lamp Hw
    xtim_callback l =
        let stat = record l.status { counter = l.status.counter - 1 } in
        let change = ltb 0 l.status.counter in
        let counted = if change then record l { fn = local_set_status stat true l.fn } else l in
        let off =
          if change || is_some_outport l.ports then all_off stat (xtim_stop l) else xtim_stop l in
        let l' = if stat.counter == 0 then off else counted in
        record l' { fn = notify l'.status l'.fn }

    -- The timer of the sensor runs out.
    unfoldable pub lamp_tim_callback : Lamp Hw → Lamp Hw
    lamp_tim_callback l =
        let rested = record l { qtimer = stopped } in
        let l' = if is_some_outport l.ports then all_off l.status rested else rested in
        record l' { fn = notify l'.status l'.fn }

    -- The loop of `set_sensor` over the ports; `set_status` changes no port's name or type.
    sensor_ports : String → Status → List Port → Lamp Hw → Lamp Hw
    sensor_ports name stat [] l = l
    sensor_ports name stat (p ∷ ps) l =
        sensor_ports name stat ps
          (if is_virtual p.type && str_eq p.name name then set_status stat l else l)

    unfoldable pub set_sensor : String → Status → Lamp Hw → Lamp Hw
    unfolding sensor_ports
    set_sensor name stat l = if l.virtual_device then l else sensor_ports name stat l.ports l

    -- `stored` is what `disk.read_status` brings.
    unfoldable init : Status → Lamp Hw → Lamp Hw
    init stored l =
        let zero_count = record l.status { counter = 0 } in
        let st = record stored { active = true } in
        let (ps, w) = write_first_out hal st.stat l.ports l.world in
        let wait = if l.timer == 0 then 30 else l.timer in
        let f = record l.fn { status = st; ports = ps; world = w } in
        if l.virtual_device
        then record l { fn = record l.fn { status = zero_count } }
        else if is_welcome l.global
        then record { fn = record f { timer = wait }; qtimer = stopped; xtimer = stopped }
        else record l { fn = f; xtimer = stopped }
