-- ===== src/Piston.antt =====
-- components/home/library/piston/piston.cpp and piston.h: a piston with a relay UP, a relay DOWN and
-- a relay MOTOR for its pump. The task that moves the piston closes it first and waits two
-- seconds, while the timer of the movement already runs. The class keeps the
-- state of a curtain, and the methods that do not write outputs have the text of curtain.cpp.
pub mod Motor
pub mod Cycle
use text.Mathlib.Text.{◌==◌ as str_eq}
use n1cpu.Base.{
  ℕ, Bool, true, false, not, ◌&&◌, ◌||◌, ◌==◌, List, String, if◌then◌else◌, ◌∷◌, [], ◌+◌, leb, ◌++◌,
}
use n1cpu.Core.{Status}
use n1cpu.Core.PortType.{is_outport}
use n1cpu.Button.{ButtonEvent, press_down, press_up, long_press_start}
use n1cpu.Port.{Port}
use n1cpu.Out.{Hal, World}
use n1cpu.Func.{stopped, write_status, notify, command, Timer, once}
use n1cpu.Func.Ports.{write_ports, any_port}
use n1cpu.Curtain
use n1cpu.Curtain.{
  Curtain, MotorStatus, motor_stop, motor_down, motor_up, curbtn_unknown, curbtn_long, cur_closed,
  cur_half_closed, cur_opened, cur_process, cur_unknown, has_name, is_stopped, is_long, fix_counter,
  halt, depart, launch, store, arrive,
}

abbrev pub Piston : Type 0 → Type 0
Piston Hw = Curtain Hw

abbrev is_up : MotorStatus → Bool
is_up motor_up = true
is_up _ = false

-- The microseconds that `motor_action` waits: two seconds after each relay MOTOR.
unfoldable pub pause : List Port → ℕ
pause [] = 0
pause (p ∷ ps) = (if is_outport p.type && has_name "MOTOR" p then 2000000 else 0) + pause ps

-- A timer that runs ends within some microseconds. That the rest of its time is shorter after the
-- pauses is not kept, since nothing reads it.
unfoldable pub ends_within : Timer → ℕ → Bool
ends_within (once us) n = leb us n
ends_within _ n = false

module _ {Hw : Type 0} where
  unfoldable create : ℕ → Bool → Status → World Hw → Piston Hw
  create id cb stored w = Curtain.create id cb stored w

  unfoldable pub remote_set_status : Status → Bool → Piston Hw → Piston Hw
  remote_set_status stat callback_call c = Curtain.remote_set_status stat callback_call c

  -- Piston::fire has an empty body.
  abbrev fire : Bool → Piston Hw → Piston Hw
  fire stat c = c

  module _ (hal : Hal Hw) where
    -- `motor_action` of a stopped motor: all relays are opened.
    unfoldable pub stop_action : Bool → Piston Hw → Piston Hw
    stop_action callback c =
        let (ps, ret, w) = write_ports hal any_port false false c.ports c.world in
        let f = record c.fn { ports = ps; world = w } in
        record c { fn = if callback then notify c.status f else f }

    -- The timer runs out. The motor is stopped before `motor_action` is called.
    unfoldable pub cur_tim_callback : Piston Hw → Piston Hw
    unfolding stop_action
    cur_tim_callback c =
        let rested = record c { qtimer = stopped } in
        if c.temp_status == cur_unknown then rested else stop_action true (arrive rested)

    -- The relays MOTOR and the pauses after them, in which the timer may run out. A piston has one pump: of
    -- several relays MOTOR all are closed before the end of the timer is looked at, while the code
    -- closes each after the pause of the one before.
    unfoldable pub pump : Piston Hw → Piston Hw
    unfolding pause ends_within cur_tim_callback
    pump c =
        let (ps, ret, w) = write_ports hal (has_name "MOTOR") true true c.ports c.world in
        let c' = record c { fn = record c.fn { ports = ps; world = w } } in
        if ends_within c.qtimer (pause c.ports) then cur_tim_callback c' else c'

    -- The relays of the direction, after the pauses. The loop reads the motor state at each port: if the
    -- motor was stopped in a pause, the first port is still taken for that direction, and the others are
    -- opened.
    unfoldable pub point : String → Bool → List Port → World Hw → List Port × World Hw
    point name false ps w =
        let (ps', ret, w') = write_ports hal (has_name name) true true ps w in (ps', w')
    point name true [] w = ([], w)
    point name true (p ∷ ps) w =
        let (q, ret, w1) = write_ports hal (has_name name) true true (p ∷ []) w in
        let (qs, ret', w2) = write_ports hal any_port false false ps w1 in (q ++ qs, w2)

    unfoldable pub direct : String → Bool → Piston Hw → Piston Hw
    unfolding pump point
    direct name callback c =
        let c' = pump c in
        let (ps, w) = point name (is_stopped c'.motor) c'.ports c'.world in
        let f = record c'.fn { ports = ps; world = w } in
        record c' { fn = if callback then notify c'.status f else f }

    unfoldable pub motor_action : Bool → Piston Hw → Piston Hw
    unfolding stop_action direct
    motor_action callback c =
        if is_stopped c.motor
        then stop_action callback c
        else direct (if is_up c.motor then "UP" else "DOWN") callback c

    -- BUTTON_PRESS_DOWN on the port named `name`.
    on_press_down : String → Piston Hw → Piston Hw
    on_press_down name c =
        if not (is_stopped c.motor)
        then store (record c.status { status = cur_half_closed }) (motor_action true (halt c))
        else store (record c.status { status = cur_process }) (motor_action true (depart name c))

    -- BUTTON_PRESS_UP.
    on_press_up : Piston Hw → Piston Hw
    on_press_up c =
        let halted = halt (record c { buton_durumu = curbtn_unknown }) in
        if is_long c.buton_durumu || c.eskitip
        then store (record c.status { status = cur_half_closed }) (motor_action true halted)
        else c

    -- `func_callback` for an input, by the event that the button holds.
    unfoldable func_callback : String → ButtonEvent → Piston Hw → Piston Hw
    unfolding on_press_down on_press_up
    func_callback name long_press_start c = record c { buton_durumu = curbtn_long }
    func_callback name press_down c = on_press_down name c
    func_callback name press_up c = on_press_up c
    func_callback name _ c = c

    -- The part of `set_status` that moves or halts the motor.
    unfoldable pub move : Piston Hw → Piston Hw
    move c =
        let half = record c.status { status = cur_half_closed } in
        let halted = halt (record c { fn = record c.fn { status = half } }) in
        if c.temp_status == cur_unknown
        then (if c.status.status == cur_closed || c.status.status == cur_opened
            then motor_action false (launch c)
            else c)
        else motor_action false halted

    unfoldable pub set_status : Status → Piston Hw → Piston Hw
    set_status stat c =
        let c' = move (store stat c) in
        let f = write_status c'.fn in
        if c.virtual_device
        then record c { fn = command stat c.fn }
        else record c' { fn = notify f.status f }

    unfoldable pub senaryo : String → Piston Hw → Piston Hw
    senaryo par c =
        let to = λ (st : ℕ) (d : Piston Hw).
          let new = record d.status { status = st } in
          set_status new (record d { fn = record d.fn { status = new } }) in
        let c1 = if str_eq par "on" then to cur_opened c else c in
        if str_eq par "off" then to cur_closed c1 else c1

    unfoldable init : Piston Hw → Piston Hw
    init c =
        let st = record c.status { stat = true; status = cur_closed } in
        let c1 =
          motor_action false
            (record c { fn = record c.fn { status = st }; motor = motor_stop; qtimer = stopped }) in
        let fixed = record c1.status { counter = fix_counter c1.status.counter } in
        if c.virtual_device then c else record c1 { fn = record c1.fn { status = fixed } }

  unfoldable role_change : Piston Hw → Piston Hw
  role_change c = Curtain.role_change c

  unfoldable anahtar_change : Piston Hw → Piston Hw
  anahtar_change c = Curtain.anahtar_change c
