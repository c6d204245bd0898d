-- ===== src/Security.antt =====
-- components/home/library/security/security.cpp and security.h: the burglar alarm, which also passes
-- on the alarms of fire, gas, water and emergency terminals. `fault` tells that an ESP_ERROR_CHECK
-- failed, which resets the processor. The delay of 0.1 s before the event is posted is left out.
pub mod Arming
pub mod Alarm
use n1cpu.Func.{
  create as create_func, no_timer, Func, Timer, stopped, once, stop, local_set_status, write_status,
  notify, command,
}
use n1cpu.Out.{World, Hal, emit, security_event, home_event}
use n1cpu.Base.{
  ℕ, Bool, true, false, not, ◌&&◌, ◌||◌, ◌==◌, ◌*◌, Option, none, some, List, [], ◌∷◌,
  if◌then◌else◌,
}
use n1cpu.Core.{
  Status, water_event, gas_event, fire_event, emergency_event, home_door_open, home_door_close,
}
use n1cpu.Core.PortType.{
  PortType, port_inport, port_inpuls, port_outport, port_sensor, port_virtual, port_fire,
  port_water, port_gas, port_emergency, is_outport, is_emergency,
}
use n1cpu.Button.{ButtonEvent, press_down, press_up}
use n1cpu.Port.{
  Port, set_active, set_active_admin, set_alarm, set_status as set_port, get_hardware_status,
}
use n1cpu.Func.Ports.{write_ports, any_port}
use n1cpu.Func.Relay.{bool_ne, remote_status}

-- `security_status_t`.
abbrev pub sec_closed : ℕ
sec_closed = 0

abbrev pub sec_process : ℕ
sec_process = 1

abbrev pub sec_opened : ℕ
sec_opened = 2

abbrev pub sec_alarm : ℕ
sec_alarm = 4

abbrev sec_stop : ℕ
sec_stop = 5

pub record Security (Hw : Type 0) : Type 0 where
  pub fn : Func Hw
  pub open fn use *
  pub qtimer : Timer
  pub fault : Bool

-- The values of `port_type_t`.
abbrev type_number : PortType → ℕ
type_number port_inport = 1
type_number port_inpuls = 2
type_number port_outport = 3
type_number port_sensor = 4
type_number port_virtual = 5
type_number port_fire = 6
type_number port_water = 7
type_number port_gas = 8
type_number port_emergency = 9
type_number _ = 0

abbrev pub find_id : ℕ → List Port → Option Port
find_id id [] = none
find_id id (p ∷ ps) = if p.id == id then some p else find_id id ps

-- The port that gave the alarm is switched off and marked.
abbrev pub raise : Port → Port
raise p = set_alarm true (set_active_admin false p)

pub raise_id : ℕ → List Port → List Port
raise_id id [] = []
raise_id id (p ∷ ps) = if p.id == id then raise p ∷ ps else p ∷ raise_id id ps

abbrev is_press : ButtonEvent → Bool
is_press press_down = true
is_press press_up = true
is_press _ = false

abbrev pub user_enabled : Port → Bool
user_enabled p = p.user_active

-- One port in the loop of `alarm_open`.
unfoldable pub open_port : Port → Port
open_port p =
    let p' = set_alarm false p in
    if not (is_outport p.type) && p.user_active then set_active true p' else p'

unfoldable pub open_ports : List Port → List Port
open_ports [] = []
open_ports (p ∷ ps) = open_port p ∷ open_ports ps

-- The activation of one port in the loop of `alarm_close`.
unfoldable pub close_active : Port → Port
close_active p =
    let p1 = if p.user_active then set_active true p else set_active false p in
    set_alarm false (if is_emergency p.type then set_active true p1 else p1)

module _ {Hw : Type 0} where
  -- `esp_event_post` to SECURITY_EVENTS, by the type of the port.
  unfoldable pub post : PortType → World Hw → World Hw
  post port_water w = emit (security_event water_event) w
  post port_gas w = emit (security_event gas_event) w
  post port_fire w = emit (security_event fire_event) w
  post port_emergency w = emit (security_event emergency_event) w
  post _ w = w

  unfoldable create : ℕ → Bool → Status → World Hw → Security Hw
  create id cb stored w = record {
    fn = create_func false id cb stored w;
    qtimer = no_timer;
    fault = false;
  }

  unfoldable pub tim_stop : Security Hw → Security Hw
  tim_stop s = record s { qtimer = stop s.qtimer }

  unfoldable pub tim_start : Security Hw → Security Hw
  tim_start s =
      let ten = record s.fn { timer = 10 } in
      elim s.qtimer [
        | no_timer ↦ s
        | stopped ↦ record s { fn = ten; qtimer = once (10 * 1000000) }
        | _ ↦ record s { fn = ten; fault = true }
      ]

  unfoldable pub alarm_open : Security Hw → Security Hw
  alarm_open s =
      let opened = record s.status { status = sec_opened } in
      let f = write_status (record s.fn { status = opened; ports = open_ports s.ports }) in
      let f' = notify f.status f in
      record s { fn = record f' { world = emit (home_event home_door_close) f'.world } }

  -- The timer runs out.
  unfoldable pub tim_callback : Security Hw → Security Hw
  tim_callback s = alarm_open (record s { qtimer = stopped })

  unfoldable pub remote_set_status : Status → Bool → Security Hw → Security Hw
  remote_set_status stat callback_call s =
      let chg =
        bool_ne s.status.stat stat.stat
        || bool_ne s.status.active s.fn.active
        || not (s.status.status == stat.status) in
      record s { fn = remote_status chg stat callback_call s.fn }

  -- Security::fire has an empty body.
  abbrev fire : Bool → Security Hw → Security Hw
  fire stat s = s

  module _ (hal : Hal Hw) where
    -- The loop of `cikis_port_active`, the exit ports.
    unfoldable pub cikis_port_active : Func Hw → Func Hw
    cikis_port_active f =
        let (ps, ret, w) = write_ports hal user_enabled true true f.ports f.world in
        record f { ports = ps; world = w }

    -- The alarm of the port `prt`, whose number is `id`, but for the event.
    unfoldable pub sound : ℕ → Port → Security Hw → Func Hw
    sound id prt s =
        let f = cikis_port_active (record s.fn { ports = raise_id id s.ports }) in
        let stat = record s.status {
          status = sec_alarm;
          ircom = prt.name;
          color = type_number prt.type;
        } in
        let f' = local_set_status stat true f in notify f'.status f'

    -- `id` is that of the port whose button calls, `evt` the event that the button holds.
    unfoldable pub func_callback : ℕ → ButtonEvent → Security Hw → Security Hw
    func_callback id evt s = elim (find_id id s.ports) [
      | none ↦ s
      | some prt ↦
          let acc = s.status.status == sec_opened || is_emergency prt.type in
          let f = sound id prt s in
          if acc && prt.user_active && is_press evt
          then record s { fn = record f { world = post prt.type f.world } }
          else s
    ]

    unfoldable pub alarm_stop : Security Hw → Security Hw
    alarm_stop s =
        let (ps, ret, w) = write_ports hal any_port false false s.ports s.world in
        let stat = record s.status { status = sec_stop } in
        record s { fn = write_status (record s.fn { status = stat; ports = ps; world = w }) }

    -- `set_port` does nothing on an input port.
    unfoldable pub close_ports : List Port → World Hw → List Port × World Hw
    close_ports [] w = ([], w)
    close_ports (p ∷ ps) w =
        let (p', ret, w') = if is_outport p.type then set_port hal false p w else (p, false, w) in
        let (ps', w'') = close_ports ps w' in (close_active p' ∷ ps', w'')

    unfoldable pub alarm_close : Security Hw → Security Hw
    alarm_close s =
        let (ps, w) = close_ports s.ports s.world in
        let stat = record s.status { status = sec_closed } in
        let f = write_status (record s.fn { status = stat; ports = ps; world = w }) in
        record s { fn = record f { world = emit (home_event home_door_open) f.world } }

    abbrev with_status : (Status → Status) → Security Hw → Security Hw
    with_status g s = record s { fn = record s.fn { status = g s.fn.status } }

    abbrev report : Security Hw → Security Hw
    report s = record s { fn = notify (write_status s.fn).status (write_status s.fn) }

    -- The tests of `set_status` on `status.status`, of which at most one holds: CLOSED, PROCESS and
    -- OPENED leave a status that the tests after them refuse, and STOP has returned before.
    unfoldable pub turn : Security Hw → Security Hw
    turn s =
        let closed = with_status (λ st. record st { ircom = "" }) (alarm_close (tim_stop s)) in
        let cancelled = with_status (λ st. record st { status = sec_closed }) (tim_stop s) in
        let arming =
          with_status (λ st. record st { ircom = ""; color = 0; status = sec_process })
            (tim_start s) in
        if s.status.status == sec_closed
        then report closed
        else if s.status.status == sec_process
        then report cancelled
        else if s.status.status == sec_opened
        then report arming
        else s

    unfoldable pub set_status : Status → Security Hw → Security Hw
    set_status stat s =
        if s.virtual_device
        then record s { fn = command stat s.fn }
        else if stat.status == sec_stop
        then alarm_stop s
        else turn (record s { fn = local_set_status stat false s.fn })

    -- The first output port gives the state, and the loop breaks; the input ports before it lose
    -- their alarm.
    init_ports : Bool → List Port → World Hw → List Port × Bool
    init_ports st [] w = ([], st)
    init_ports st (p ∷ ps) w =
        let (p', level) = get_hardware_status hal p w in
        let (ps', st') = init_ports st ps w in
        if is_outport p.type then (p' ∷ ps, level) else (set_alarm level p' ∷ ps', st')

    unfoldable init : Security Hw → Security Hw
    unfolding init_ports
    init s =
        let wait = if s.timer == 0 then 10 else s.timer in
        let (ps, st) = init_ports s.status.stat s.ports s.world in
        if s.virtual_device then s else record s {
          fn = record s.fn { timer = wait; ports = ps; status = record s.status { stat = st } };
          qtimer = stopped;
        }
