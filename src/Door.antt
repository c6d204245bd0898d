-- ===== src/Door.antt =====
-- components/home/library/kapi/kapi.cpp: a door lock with one relay to lock and one to unlock.
pub mod Lock
use n1cpu.Func.{
  create as create_func, no_timer, Func, Timer, local_set_status, start_once, stop, command, notify,
  stopped, write_status,
}
use n1cpu.Out.{World, Hal}
use text.Mathlib.Text.{◌==◌ as str_eq}
use n1cpu.Base.{ℕ, Bool, true, false, not, ◌&&◌, ◌||◌, ◌*◌, ◌==◌, String, if◌then◌else◌, ltb}
use n1cpu.Core.{home_door_open, home_door_close, Status, HomeEvent}
use n1cpu.Port.{Port}
use n1cpu.Func.Relay.{remote_status, bool_ne}
use n1cpu.Func.Ports.{write_ports}

pub record Door (Hw : Type 0) : Type 0 where
  pub fn : Func Hw
  pub open fn use *
  pub qtimer : Timer

abbrev pub has_name : String → Port → Bool
has_name name p = str_eq p.name name

-- The relay that a state asks for.
abbrev pub relay_name : Bool → String
relay_name true = "ON"
relay_name false = "OFF"

module _ {Hw : Type 0} where
  unfoldable create : ℕ → Bool → Status → World Hw → Door Hw
  create id cb stored w = record { fn = create_func true id cb stored w; qtimer = no_timer }

  unfoldable pub remote_set_status : Status → Bool → Door Hw → Door Hw
  unfolding remote_status
  remote_set_status stat callback_call d =
      let chg =
        bool_ne d.status.stat stat.stat
        || bool_ne d.status.active stat.active
        || not (d.status.status == stat.status) in
      record d { fn = remote_status chg stat callback_call d.fn }

  abbrev tim_stop : Door Hw → Door Hw
  tim_stop d = record d { qtimer = stop d.qtimer }

  abbrev tim_start : Door Hw → Door Hw
  tim_start d = record d { qtimer = start_once (d.timer * 1000000) d.qtimer }

  module _ (hal : Hal Hw) where
    unfoldable pub status_change : Status → Door Hw → Door Hw
    status_change st d =
        let (ps, ret, w) =
          write_ports hal (has_name (relay_name st.stat)) true true d.ports d.world in
        let new = record d.status { status = 1 } in
        let f = write_status (record d.fn { ports = ps; status = new; world = w }) in
        record d { fn = notify f.status f }

    unfoldable pub set_status : Status → Door Hw → Door Hw
    set_status stat d =
        let d' = record d { fn = local_set_status stat false d.fn } in
        if d.virtual_device
        then record d { fn = command stat d.fn }
        else tim_start (status_change stat d')

    -- The timer runs out: the relay of the current state is released.
    unfoldable pub tim_callback : Door Hw → Door Hw
    tim_callback d =
        let ss = record d.status { status = 0 } in
        let (ps, ret, w) =
          write_ports hal (has_name (relay_name d.status.stat)) false false d.ports d.world in
        let f = local_set_status ss true (record d.fn { ports = ps; world = w }) in
        record d { fn = notify ss f; qtimer = stopped }

    unfoldable door_event : HomeEvent → Door Hw → Door Hw
    door_event home_door_open d = set_status (record d.status { stat = true }) d
    door_event home_door_close d = set_status (record d.status { stat = false }) d

    -- On a fire alarm the lock is opened.
    unfoldable fire : Bool → Door Hw → Door Hw
    fire stat d =
        let d' = record d { fn = record d.fn { status = record d.status { stat = false } } } in
        if stat then set_status d'.status d' else d

    unfoldable senaryo : String → Door Hw → Door Hw
    senaryo par d =
        let off = record d { fn = record d.fn { status = record d.status { stat = false } } } in
        let d1 = if str_eq par "on" then set_status off.status off else d in
        let on = record d1 { fn = record d1.fn { status = record d1.status { stat = true } } } in
        if str_eq par "off" then set_status on.status on else d1

    unfoldable init : Door Hw → Door Hw
    init d =
        let wait = if ltb d.timer 2 then 2 else d.timer in
        if d.virtual_device
        then d
        else record d { fn = record d.fn { timer = wait }; qtimer = stopped }
