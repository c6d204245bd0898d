-- ===== src/Piston/Cycle.antt =====
-- A whole movement of the piston that a command starts and its timer ends.
use n1cpu.Base.{
  ℕ, true, false, ◌≡◌, ◌≢◌, ◌⊎◌, ◌==◌, subst, sym, ap, ◌∙◌, arith, if◌then◌else◌, refl, ◌<◌, ◌*◌,
}
use n1cpu.Core.{Status}
use n1cpu.Out.{Hal, IsHal}
use n1cpu.Port.Laws.{level}
use n1cpu.Func.{notify, write_status, local_set_status, is_running, no_timer, stopped, once}
use n1cpu.Func.Ports.{any_port}
use n1cpu.Func.Laws.{Ready, driven}
use n1cpu.Curtain.{
  MotorStatus, motor_down, motor_up, cur_closed, cur_opened, cur_process, cur_unknown, launch,
  tim_start, tim_stop, store, arrive, motor_stop, fix_counter,
}
use n1cpu.Piston.{
  Piston, motor_action, set_status, move, cur_tim_callback, stop_action, ends_within, pause,
}
use n1cpu.Piston.Motor.{
  motor_action-quick, quick, written, quick-SameRest, quick-driven, quick_lem, reaches,
  driven-reaches,
}

abbrev heading : Status → MotorStatus
heading stat = if stat.status == cur_opened then motor_up else motor_down

module _ {Hw : Type 0} (hal : Hal Hw) where
  launch_lem :
      (stat : Status) (c : Piston Hw) (e : ℕ)
      → c.qtimer ≢ no_timer
      → (stat.status ≡ cur_closed) ⊎ (stat.status ≡ cur_opened)
      → ((launch (store stat c)).ports ≡ c.ports)
        × (level hal e (launch (store stat c)).world ≡ level hal e c.world)
        × ((launch (store stat c)).temp_status ≡ stat.status)
        × ((launch (store stat c)).motor ≡ heading stat)
        × (is_running (launch (store stat c)).qtimer ≡ true)
        × ((launch (store stat c)).status.status ≡ cur_process)
        × ((launch (store stat c)).qtimer ≡ once (fix_counter stat.counter * 1700000))
  unfolding launch tim_start tim_stop write_status local_set_status
  launch_lem stat c e q o = ground arith

  -- What `set_status` does after the motor has been set going.
  set_status_lem :
      (stat : Status) (c : Piston Hw)
      → c.virtual_device ≡ false
      → c.temp_status ≡ cur_unknown
      → (stat.status ≡ cur_closed) ⊎ (stat.status ≡ cur_opened)
      → let d = motor_action hal false (launch (store stat c)) in
        ((set_status hal stat c).motor ≡ d.motor)
        × ((set_status hal stat c).temp_status ≡ d.temp_status)
        × ((set_status hal stat c).qtimer ≡ d.qtimer)
        × ((set_status hal stat c).status ≡ d.status)
        × ((set_status hal stat c).ports ≡ d.ports)
        × ((set_status hal stat c).world.hw ≡ d.world.hw)
  unfolding set_status move notify write_status local_set_status
  set_status_lem stat c v t o = ground arith

  -- The timer of a movement outlasts the pauses of `motor_action`.
  outlasts :
      (stat : Status) (c : Piston Hw) (e : ℕ)
      → c.qtimer ≢ no_timer
      → (stat.status ≡ cur_closed) ⊎ (stat.status ≡ cur_opened)
      → pause c.ports < fix_counter stat.counter * 1700000
      → ends_within (launch (store stat c)).qtimer (pause (launch (store stat c)).ports) ≡ false
  unfolding ends_within
  outlasts stat c e q o p = let l = launch_lem stat c e q o in rw (l.0, l.6) ground arith

  cur_tim_callback-quick :
      (c : Piston Hw)
      → c.temp_status ≢ cur_unknown
      → cur_tim_callback hal c ≡ quick hal true (arrive (record c { qtimer = stopped }))
  unfolding cur_tim_callback stop_action quick written arrive
  cur_tim_callback-quick c k = ground arith

  module _ (laws : IsHal hal) where
    launched :
        (stat : Status) (c : Piston Hw) (e : ℕ)
        → c.qtimer ≢ no_timer
        → (stat.status ≡ cur_closed) ⊎ (stat.status ≡ cur_opened)
        → Ready c.ports
        → (level hal e (quick hal false (launch (store stat c))).world
            ≡ (if driven (reaches (heading stat)) e c.ports then true else level hal e c.world))
          × (driven any_port e (quick hal false (launch (store stat c))).ports
              ≡ driven any_port e c.ports)
          × Ready (quick hal false (launch (store stat c))).ports
    launched stat c e q o r =
        let d = launch (store stat c) in
        let l = launch_lem stat c e q o in
        let m = quick_lem hal laws false d e (subst Ready (sym l.0) r) in
        (
          ground (arith, l, m.0),
          quick-driven hal false d any_port e (λ p s. refl) ∙ ap (driven any_port e) l.0,
          m.1,
        )

    -- The end of the timer, after a movement for a known status.
    ended :
        (c : Piston Hw) (e : ℕ)
        → c.temp_status ≢ cur_unknown
        → Ready c.ports
        → (level hal e (cur_tim_callback hal c).world
            ≡ (if driven any_port e c.ports then false else level hal e c.world))
          × ((cur_tim_callback hal c).motor ≡ motor_stop)
          × ((cur_tim_callback hal c).status.status ≡ c.temp_status)
    unfolding arrive write_status local_set_status
    ended c e k r =
        let d = arrive (record c { qtimer = stopped }) in
        let m = quick_lem hal laws true d e r in
        ground (arith, cur_tim_callback-quick c k, quick-SameRest hal true d, m.0)

    record Ordered (stat : Status) (e : ℕ) (c d : Piston Hw) : Type 0 where
      known : d.temp_status ≢ cur_unknown
      aimed : d.temp_status ≡ stat.status
      heads : d.motor ≡ heading stat
      timed : is_running d.qtimer ≡ true
      going : d.status.status ≡ cur_process
      reached :
          level hal e d.world
          ≡ (if driven (reaches (heading stat)) e c.ports then true else level hal e c.world)
      same : driven any_port e d.ports ≡ driven any_port e c.ports
      ready : Ready d.ports

    launched-Ordered :
        (stat : Status) (c : Piston Hw) (e : ℕ)
        → c.qtimer ≢ no_timer
        → (stat.status ≡ cur_closed) ⊎ (stat.status ≡ cur_opened)
        → Ready c.ports
        → Ordered stat e c (quick hal false (launch (store stat c)))
    launched-Ordered stat c e q o r =
        let m = launched stat c e q o r in
        let l = launch_lem stat c e q o in
        let s = quick-SameRest hal false (launch (store stat c)) in
        record {
          known = ground (arith, l, s);
          aimed = ground (arith, l, s);
          heads = ground (arith, l, s);
          timed = ground (arith, l, s);
          going = ground (arith, l, s);
          reached = m.0;
          same = m.1;
          ready = m.2;
        }

    -- The parts that the rest of `set_status` does not touch.
    ordered :
        (stat : Status) (c : Piston Hw) (e : ℕ)
        → c.qtimer ≢ no_timer
        → c.virtual_device ≡ false
        → c.temp_status ≡ cur_unknown
        → (stat.status ≡ cur_closed) ⊎ (stat.status ≡ cur_opened)
        → pause c.ports < fix_counter stat.counter * 1700000
        → Ready c.ports
        → Ordered stat e c (set_status hal stat c)
    ordered stat c e q v t o p r =
        let d = launch (store stat c) in
        let same = motor_action-quick hal false d (outlasts stat c e q o p) in
        let m = subst (Ordered stat e c) (sym same) (launched-Ordered stat c e q o r) in
        let s = set_status_lem stat c v t o in
        record {
          known = ground (arith, m.known, s);
          aimed = ground (arith, m.aimed, s);
          heads = ground (arith, m.heads, s);
          timed = ground (arith, m.timed, s);
          going = ground (arith, m.going, s);
          reached = ground (arith, m.reached, s);
          same = ap (driven any_port e) s.4 ∙ m.same;
          ready = subst Ready (sym s.4) m.ready;
        }

    -- A real piston whose timer is created, whose output ports are ready and that stands still
    -- (`temp_status` is PIS_UNKNOWN), on a command to open or to close whose movement takes longer than the
    -- pauses, two seconds for each relay MOTOR, switches on the outputs of its MOTOR relays and of the
    -- relays of that direction, and no other output changes; its timer runs and its status is `process`.
    -- When the timer ends, the outputs of all its relays are off and the others as they were, the motor is
    -- stopped and the status is the one asked for.
    pub pump_cycle :
        (stat : Status) (c : Piston Hw) (e : ℕ)
        → c.qtimer ≢ no_timer
        → c.virtual_device ≡ false
        → c.temp_status ≡ cur_unknown
        → (stat.status ≡ cur_closed) ⊎ (stat.status ≡ cur_opened)
        → pause c.ports < fix_counter stat.counter * 1700000
        → Ready c.ports
        → (level hal e (set_status hal stat c).world
            ≡ (if driven (reaches (heading stat)) e c.ports then true else level hal e c.world))
          × ((set_status hal stat c).motor ≡ heading stat)
          × (is_running (set_status hal stat c).qtimer ≡ true)
          × ((set_status hal stat c).status.status ≡ cur_process)
          × (level hal e (cur_tim_callback hal (set_status hal stat c)).world
              ≡ (if driven any_port e c.ports then false else level hal e c.world))
          × ((cur_tim_callback hal (set_status hal stat c)).motor ≡ motor_stop)
          × ((cur_tim_callback hal (set_status hal stat c)).status.status ≡ stat.status)
    pump_cycle stat c e q v t o p r =
        let l = ordered stat c e q v t o p r in
        let b = ended (set_status hal stat c) e l.known l.ready in
        (
          l.reached,
          l.heads,
          l.timed,
          l.going,
          ground (arith, b.0, l.reached, l.same, driven-reaches (heading stat) e c.ports),
          b.1,
          b.2 ∙ l.aimed,
        )
