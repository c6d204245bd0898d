-- ===== src/Socket.antt =====
-- components/home/library/priz/priz.cpp and priz.h: a switched socket that can go off by itself some
-- minutes later.
pub mod Countdown
use n1cpu.Base.{ℕ, ◌-◌, Bool, true, false, not, ◌&&◌, ◌||◌, ◌==◌, ltb, String, if◌then◌else◌}
use text.Mathlib.Text.{◌==◌ as str_eq}
use n1cpu.Core.{Status}
use n1cpu.Out.{Hal, World}
use n1cpu.Func.{
  Func, Timer, no_timer, stopped, stop, start_periodic, local_set_status, notify,
  create as create_func,
}
use n1cpu.Func.Ports.{write_ports, any_port, read_first_out, is_some_outport}
use n1cpu.Func.Relay.{relay_status, remote_status, bool_ne}

pub record Socket (Hw : Type 0) : Type 0 where
  pub fn : Func Hw
  pub open fn use *
  pub qtimer : Timer

-- A minute, in microseconds.
abbrev pub minute : ℕ
minute = 60000000

module _ {Hw : Type 0} where
  unfoldable create : ℕ → Bool → Status → World Hw → Socket Hw
  create id cb stored w = record {
    fn = create_func false id cb (record stored { counter = 0 }) w;
    qtimer = no_timer;
  }

  unfoldable pub remote_set_status : Status → Bool → Socket Hw → Socket Hw
  unfolding remote_status
  remote_set_status stat callback_call s =
      let chg =
        bool_ne s.status.stat stat.stat
        || bool_ne s.status.active s.fn.active
        || not (s.status.counter == stat.counter) in
      record s { fn = remote_status chg stat callback_call s.fn }

  abbrev tim_stop : Socket Hw → Socket Hw
  tim_stop s = record s { qtimer = stop s.qtimer }

  abbrev tim_start : Socket Hw → Socket Hw
  tim_start s = record s { qtimer = start_periodic minute s.qtimer }

  module _ (hal : Hal Hw) where
    -- The loop starts the timer at every output port; after the first one it runs already.
    unfoldable pub set_status : Status → Socket Hw → Socket Hw
    set_status stat s =
        let s' = record s { fn = relay_status hal stat s.fn } in
        if not s.virtual_device && ltb 0 stat.counter && is_some_outport s.ports
        then tim_start s'
        else s'

    unfoldable pub priz_tim_callback : Socket Hw → Socket Hw
    priz_tim_callback s =
        let stat = record s.status { counter = s.status.counter - 1 } in
        let (ps, st, w) = write_ports hal any_port false stat.stat s.ports s.world in
        let off =
          local_set_status (record stat { stat = st }) true
            (record s.fn { ports = ps; world = w }) in
        let on = local_set_status stat true s.fn in
        if stat.counter == 0
        then record (tim_stop s) { fn = notify off.status off }
        else record s { fn = notify on.status on }

    unfoldable fire : Bool → Socket Hw → Socket Hw
    fire stat s =
        let f = s.fn in
        let off = record f.status { stat = false } in
        let alarmed =
          tim_stop (record s { fn = record f { main_temp_status = f.status; status = off } }) in
        let back = record s { fn = record f { status = f.main_temp_status } } in
        if stat then set_status off alarmed else set_status f.main_temp_status back

    unfoldable senaryo : String → Socket Hw → Socket Hw
    senaryo par s =
        let to = λ (b : Bool) (t : Socket Hw).
          let new = record t.status { stat = b } in
          set_status new (record t { fn = record t.fn { status = new } }) in
        let s1 = if str_eq par "on" then to true s else s in
        if str_eq par "off" then to false s1 else s1

    unfoldable init : Socket Hw → Socket Hw
    init s =
        let (ps, st) = read_first_out hal s.status.stat s.ports s.world in
        let zero_count = record s.status { counter = 0 } in
        let f = record s.fn { status = zero_count } in
        if s.virtual_device then record s { fn = f } else record s {
          fn = record f { ports = ps; status = record zero_count { stat = st } };
          qtimer = stopped;
        }
