-- ===== src/Curtain.antt =====
-- components/home/library/curtain/curtain.cpp and curtain.h: a curtain or shutter with an UP and a
-- DOWN relay, moved for a time by its wall switch or by a command.
-- `temp_status` holds a `cur_status_t` cast from a byte, so it is a number. `fault` tells that an
-- ESP_ERROR_CHECK failed, which resets the processor.
pub mod Motor
pub mod Interlock
pub mod Steps
pub mod Calls
pub mod Travel
pub mod Alarm
use n1cpu.Func.{
  create as create_func, no_timer, Func, Timer, stopped, once, stop, local_set_status, write_status,
  notify, command,
}
use n1cpu.Out.{World, Hal}
use text.Mathlib.Text.{◌==◌ as str_eq}
use n1cpu.Base.{
  ℕ, ◌*◌, Bool, true, false, not, ◌&&◌, ◌||◌, ◌==◌, ltb, List, [], ◌∷◌, String, if◌then◌else◌,
}
use n1cpu.Core.{Status}
use n1cpu.Core.PortType.{PortType, port_virtual, port_inport, is_outport, is_inport, is_virtual}
use n1cpu.Button.{ButtonEvent, press_down, press_up, long_press_start}
use n1cpu.Port.{Port}
use n1cpu.Func.Ports.{write_ports, any_port}
use n1cpu.Func.Relay.{bool_ne, remote_status}

pub data MotorStatus : Type 0 where
  motor_stop motor_down motor_up : MotorStatus

pub data BtnStat : Type 0 where
  curbtn_unknown curbtn_short curbtn_long : BtnStat

-- `cur_status_t`.
abbrev pub cur_closed : ℕ
cur_closed = 0

abbrev pub cur_half_closed : ℕ
cur_half_closed = 1

abbrev pub cur_opened : ℕ
cur_opened = 2

abbrev pub cur_process : ℕ
cur_process = 3

abbrev pub cur_unknown : ℕ
cur_unknown = 4

pub record Curtain (Hw : Type 0) : Type 0 where
  pub fn : Func Hw
  pub open fn use *
  pub temp_status : ℕ
  pub motor : MotorStatus
  pub buton_durumu : BtnStat
  pub eskitip : Bool
  pub qtimer : Timer
  pub fault : Bool

abbrev pub has_name : String → Port → Bool
has_name name p = str_eq p.name name

abbrev pub is_stopped : MotorStatus → Bool
is_stopped motor_stop = true
is_stopped _ = false

abbrev pub is_long : BtnStat → Bool
is_long curbtn_long = true
is_long _ = false

-- `esp_timer_start_once` is an error while the timer runs or before it is created.
abbrev can_start : Timer → Bool
can_start stopped = true
can_start _ = false

abbrev pub fix_counter : ℕ → ℕ
fix_counter n = if n == 0 || ltb 60 n then 10 else n

module _ {Hw : Type 0} where
  -- The timer handle is left unset until `init` creates the timer; nothing calls before.
  unfoldable pub create : ℕ → Bool → Status → World Hw → Curtain Hw
  create id cb stored w = record {
    fn = create_func false id cb stored w;
    temp_status = cur_unknown;
    motor = motor_stop;
    buton_durumu = curbtn_unknown;
    eskitip = false;
    qtimer = no_timer;
    fault = false;
  }

  unfoldable pub tim_stop : Curtain Hw → Curtain Hw
  tim_stop c = record c { qtimer = stop c.qtimer }

  unfoldable pub tim_start : Curtain Hw → Curtain Hw
  tim_start c =
      let n = fix_counter c.status.counter in
      let c' = record c { fn = record c.fn { status = record c.status { counter = n } } } in
      if can_start c.qtimer
      then record c' { qtimer = once (n * 1700000) }
      else record c' { fault = true }

  -- `temp_status=CUR_UNKNOWN; motor=MOTOR_STOP; tim_stop()`.
  unfoldable pub halt : Curtain Hw → Curtain Hw
  halt c = record (tim_stop c) { motor = motor_stop; temp_status = cur_unknown }

  -- The start of a movement by the input `name`.
  unfoldable pub depart : String → Curtain Hw → Curtain Hw
  depart name c =
      let up = if str_eq name "UP" then motor_up else c.motor in
      let m = if str_eq name "DOWN" then motor_down else up in
      tim_start (tim_stop (record c { temp_status = c.status.status; motor = m }))

  -- The start of a movement by a command, whose status is stored in `c`.
  unfoldable pub launch : Curtain Hw → Curtain Hw
  launch c =
      let c' = tim_start (tim_stop c) in
      let temp = c'.status.status in
      let down = if temp == cur_closed then motor_down else c'.motor in
      let going = record c'.status { status = cur_process } in
      record c' {
        fn = record c'.fn { status = going };
        temp_status = temp;
        motor = if temp == cur_opened then motor_up else down;
      }

  -- `local_set_status(stat, true)`.
  abbrev pub store : Status → Curtain Hw → Curtain Hw
  store stat c = record c { fn = local_set_status stat true c.fn }

  -- The end of a movement: the status that it was for is stored.
  unfoldable pub arrive : Curtain Hw → Curtain Hw
  arrive c =
      let done = store (record c.status { status = c.temp_status }) c in
      record done { temp_status = cur_unknown; motor = motor_stop }

  unfoldable pub remote_set_status : Status → Bool → Curtain Hw → Curtain Hw
  unfolding remote_status
  remote_set_status stat callback_call c =
      let chg =
        not (c.status.status == stat.status)
        || bool_ne c.status.active c.fn.active
        || not (c.status.counter == stat.counter) in
      record c { fn = remote_status chg stat callback_call c.fn }

  module _ (hal : Hal Hw) where
    unfoldable pub motor_ports : MotorStatus → Func Hw → List Port × Bool × World Hw
    motor_ports motor_stop f = write_ports hal any_port false false f.ports f.world
    motor_ports motor_up f = write_ports hal (has_name "UP") true true f.ports f.world
    motor_ports motor_down f = write_ports hal (has_name "DOWN") true true f.ports f.world

    unfoldable pub motor_action : Bool → Curtain Hw → Curtain Hw
    motor_action callback c =
        let (ps, ret, w) = motor_ports c.motor c.fn in
        let f = record c.fn { ports = ps; world = w } in
        record c { fn = if callback then notify c.status f else f }

    -- BUTTON_PRESS_DOWN on the port named `name`.
    unfoldable pub on_press_down : String → Curtain Hw → Curtain Hw
    on_press_down name c =
        if not (is_stopped c.motor)
        then store (record c.status { status = cur_half_closed }) (motor_action true (halt c))
        else store (record c.status { status = cur_process }) (motor_action true (depart name c))

    -- BUTTON_PRESS_UP.
    unfoldable pub on_press_up : Curtain Hw → Curtain Hw
    on_press_up c =
        let halted = halt (record c { buton_durumu = curbtn_unknown }) in
        if is_long c.buton_durumu || c.eskitip
        then store (record c.status { status = cur_half_closed }) (motor_action true halted)
        else c

    -- `func_callback` for an input, by the event that the button holds.
    unfoldable pub func_callback : String → ButtonEvent → Curtain Hw → Curtain Hw
    func_callback name long_press_start c = record c { buton_durumu = curbtn_long }
    func_callback name press_down c = on_press_down name c
    func_callback name press_up c = on_press_up c
    func_callback name _ c = c

    -- The timer runs out.
    unfoldable pub cur_tim_callback : Curtain Hw → Curtain Hw
    cur_tim_callback c =
        let rested = record c { qtimer = stopped } in
        if c.temp_status == cur_unknown then rested else motor_action true (arrive rested)

    -- The part of `set_status` that moves or halts the motor.
    unfoldable pub move : Curtain Hw → Curtain Hw
    move c =
        let half = record c.status { status = cur_half_closed } in
        let halted = halt (record c { fn = record c.fn { status = half } }) in
        if c.temp_status == cur_unknown
        then (if c.status.status == cur_closed || c.status.status == cur_opened
            then motor_action false (launch c)
            else c)
        else motor_action false halted

    unfoldable pub set_status : Status → Curtain Hw → Curtain Hw
    set_status stat c =
        let c' = move (store stat c) in
        let f = write_status c'.fn in
        if c.virtual_device
        then record c { fn = command stat c.fn }
        else record c' { fn = notify f.status f }

    -- The loop of `set_sensor` over the ports; `set_status` changes no port's name or type.
    sensor_ports : String → ℕ → List Port → Curtain Hw → Curtain Hw
    sensor_ports name st [] c = c
    sensor_ports name st (p ∷ ps) c = sensor_ports name st ps (
        if is_virtual p.type && str_eq p.name name
        then set_status (record c.status { status = st }) c
        else c)

    unfoldable pub set_sensor : String → Status → Curtain Hw → Curtain Hw
    unfolding sensor_ports
    set_sensor name stat c = if c.virtual_device then c else sensor_ports name stat.status c.ports c

    unfoldable pub fire : Bool → Curtain Hw → Curtain Hw
    fire stat c =
        let opened = record c.status { status = cur_opened } in
        let saved = record c.fn { main_temp_status = c.status; status = opened } in
        let back = record c { fn = record c.fn { status = c.main_temp_status } } in
        if stat
        then motor_action true (record c { fn = saved; motor = motor_up })
        else set_status back.status back

    unfoldable pub senaryo : String → Curtain Hw → Curtain Hw
    senaryo par c =
        let to = λ (st : ℕ) (d : Curtain Hw).
          let new = record d.status { status = st } in
          set_status new (record d { fn = record d.fn { status = new } }) in
        let c1 = if str_eq par "on" then to cur_opened c else c in
        if str_eq par "off" then to cur_closed c1 else c1

    unfoldable init : Curtain Hw → Curtain Hw
    init c =
        let st = record c.status { stat = true; status = cur_closed } in
        let c1 =
          motor_action false
            (record c { fn = record c.fn { status = st }; motor = motor_stop; qtimer = stopped }) in
        let fixed = record c1.status { counter = fix_counter c1.status.counter } in
        if c.virtual_device then c else record c1 { fn = record c1.fn { status = fixed } }

-- `role_change` and `anahtar_change` swap the names of the ports of one kind: what is not UP
-- becomes UP.
swap_name : Port → Port
swap_name p = record p { name = if str_eq p.name "UP" then "DOWN" else "UP" }

swap_names : (Port → Bool) → List Port → List Port
unfolding swap_name
swap_names test [] = []
swap_names test (p ∷ ps) = (if test p then swap_name p else p) ∷ swap_names test ps

module _ {Hw : Type 0} where
  unfoldable pub role_change : Curtain Hw → Curtain Hw
  unfolding swap_names
  role_change c = record c {
    fn = record c.fn { ports = swap_names (λ p. is_outport p.type) c.ports };
  }

  unfoldable pub anahtar_change : Curtain Hw → Curtain Hw
  unfolding swap_names
  anahtar_change c = record c {
    fn = record c.fn { ports = swap_names (λ p. is_inport p.type) c.ports };
  }
