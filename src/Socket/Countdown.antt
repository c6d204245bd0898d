-- ===== src/Socket/Countdown.antt =====
-- The countdown of the socket.
use n1cpu.Base.{
  ap, sym, subst, ◌∙◌, ℕ, zero, suc, ◌-◌, ◌≤◌, ◌<◌, true, false, ◌≡◌, ◌∙◌, arith, refl,
  if◌then◌else◌, subst, sym,
}
use n1cpu.Core.{Status}
use n1cpu.Out.{Hal, IsHal, to_bool}
use n1cpu.Port.Laws.{level}
use n1cpu.Func.{stopped, periodic, local_set_status, notify, write_status}
use n1cpu.Func.Ports.{any_port, is_some_outport}
use n1cpu.Func.Laws.{driven, Ready, write_ports_lem}
use n1cpu.Func.Relay.Laws.{IsLive, relay_status-Switched}
use n1cpu.Socket.{Socket, minute, set_status, priz_tim_callback, relay_status}

-- The timer runs out so many times.
abbrev pub minutes : {Hw : Type 0} → Hal Hw → ℕ → Socket Hw → Socket Hw
minutes hal zero s = s
minutes hal (suc n) s = minutes hal n (priz_tim_callback hal s)

module _ {Hw : Type 0} (hal : Hal Hw) where
  tick_on :
      (s : Socket Hw)
      → 1 < s.status.counter
      → let t = priz_tim_callback hal s in
        (t.status.counter ≡ s.status.counter - 1)
        × (t.ports ≡ s.ports)
        × (t.world.hw ≡ s.world.hw)
        × (t.qtimer ≡ s.qtimer)
  unfolding priz_tim_callback local_set_status notify write_status
  tick_on s h = ground arith

  module _ (laws : IsHal hal) where
    tick_off :
        (s : Socket Hw) (e : ℕ)
        → s.status.counter ≤ 1
        → Ready s.ports
        → s.qtimer ≡ periodic minute
        → let t = priz_tim_callback hal s in
          (t.status.counter ≡ 0)
          × (level hal e t.world
              ≡ (if driven any_port e s.ports then false else level hal e s.world))
          × (t.qtimer ≡ stopped)
    unfolding priz_tim_callback local_set_status notify write_status
    tick_off s e h r q =
        ground (arith, write_ports_lem hal laws e any_port false s.status.stat s.ports s.world r)

  minutes_on :
      (k : ℕ) (s : Socket Hw)
      → k < s.status.counter
      → let t = minutes hal k s in
        (t.status.counter ≡ s.status.counter - k)
        × (t.ports ≡ s.ports)
        × (t.world.hw ≡ s.world.hw)
        × (t.qtimer ≡ s.qtimer)
  minutes_on zero s h = ground arith
  minutes_on (suc k) s h =
      let (c, p, w, q) = tick_on s (omega arith) in
      let (c', p', w', q') = minutes_on k (priz_tim_callback hal s) (omega arith) in
      (omega arith, p' ∙ p, w' ∙ w, q' ∙ q)

  module _ (laws : IsHal hal) where
    minutes_off :
        (n : ℕ) (s : Socket Hw) (e : ℕ)
        → s.status.counter ≡ suc n
        → Ready s.ports
        → s.qtimer ≡ periodic minute
        → let t = minutes hal (suc n) s in
          (t.status.counter ≡ 0)
          × (level hal e t.world
              ≡ (if driven any_port e s.ports then false else level hal e s.world))
          × (t.qtimer ≡ stopped)
    minutes_off zero s e h r q = tick_off laws s e (omega arith) r q
    minutes_off (suc n) s e h r q =
        let (c, p, w, q') = tick_on s (omega arith) in
        let s' = priz_tim_callback hal s in
        let (c', l', t') = minutes_off n s' e (omega arith) (subst Ready (sym p) r) (q' ∙ q) in
        (c', l' ∙ rw (p, w) refl, t')

    minutes_all :
        (n : ℕ) (s : Socket Hw) (e : ℕ)
        → 0 < n
        → s.status.counter ≡ n
        → Ready s.ports
        → s.qtimer ≡ periodic minute
        → let t = minutes hal n s in
          (t.status.counter ≡ 0)
          × (level hal e t.world
              ≡ (if driven any_port e s.ports then false else level hal e s.world))
          × (t.qtimer ≡ stopped)
    minutes_all zero s e h c r q = ground arith
    minutes_all (suc n) s e h c r q = minutes_off n s e c r q

    set_status_lem :
        (stat : Status) (s : Socket Hw)
        → s.virtual_device ≡ false
        → s.qtimer ≡ stopped
        → is_some_outport s.ports ≡ true
        → 0 < stat.counter
        → ((set_status hal stat s).fn ≡ relay_status hal stat s.fn)
          × ((set_status hal stat s).qtimer ≡ periodic minute)
    unfolding set_status
    set_status_lem stat s v q o c = ground arith

    -- A live socket, with an output and its timer at rest, that is switched on for some minutes, is on
    -- at every output, and no other output changes, for as many minutes less one; the counter in the
    -- status falls by one each minute. The last minute opens the outputs and stops the timer, with
    -- the counter at 0.
    pub countdown :
        (stat : Status) (s : Socket Hw) (k : ℕ)
        → IsLive s.fn
        → s.qtimer ≡ stopped
        → is_some_outport s.ports ≡ true
        → stat.stat ≡ true
        → k < stat.counter
        → let t = minutes hal k (set_status hal stat s) in
          let over = minutes hal stat.counter (set_status hal stat s) in
          (t.status.counter ≡ stat.counter - k)
          × ((e : ℕ)
              → level hal e t.world
                ≡ (if driven any_port e s.ports then true else level hal e s.world))
          × (over.status.counter ≡ 0)
          × ((e : ℕ)
              → level hal e over.world
                ≡ (if driven any_port e s.ports then false else level hal e s.world))
          × (over.qtimer ≡ stopped)
    countdown stat s k v q o on h =
        let (f, q1) = set_status_lem stat s v.local q o (omega arith) in
        let done = relay_status-Switched hal laws stat s.fn v in
        let s1 = set_status hal stat s in
        let count = ap (λ g. g.status.counter) f ∙ ap (λ st. st.counter) done.stored in
        let ready = subst Ready (sym (ap (λ g. g.ports) f)) done.live.ready in
        let (c, p, w, q2) = minutes_on k s1 (omega (arith, count)) in
        let off = λ (e : ℕ). minutes_all stat.counter s1 e (omega arith) count ready q1 in
        let lit = λ (e : ℕ). ap (λ g. level hal e g.world) f ∙ done.levels e in
        let same = λ (e : ℕ). ap (λ g. driven any_port e g.ports) f ∙ done.same_handles e in
        (
          c ∙ ap (λ n. n - k) count,
          λ e. ap (λ h'. to_bool (hal.get_level e h')) w ∙ ground (arith, lit e),
          (off 0).0,
          λ e. ground (arith, off e, lit e, same e),
          (off 0).2,
        )

    set_status_zero :
        (stat : Status) (s : Socket Hw)
        → s.qtimer ≡ periodic minute
        → stat.counter ≡ 0
        → ((set_status hal stat s).fn ≡ relay_status hal stat s.fn)
          × ((set_status hal stat s).qtimer ≡ periodic minute)
    unfolding set_status
    set_status_zero stat s q c = ground arith

    -- A live socket whose countdown runs and that is then switched on without one goes off at every
    -- output when the timer next runs out: the command does not stop the timer.
    pub on_for_good_cut :
        (stat : Status) (s : Socket Hw) (e : ℕ)
        → IsLive s.fn
        → s.qtimer ≡ periodic minute
        → stat.counter ≡ 0
        → driven any_port e s.ports ≡ true
        → let t = set_status hal stat s in
          (level hal e t.world ≡ stat.stat) × (level hal e (priz_tim_callback hal t).world ≡ false)
    on_for_good_cut stat s e v q c d =
        let done = relay_status-Switched hal laws stat s.fn v in
        let (f, q') = set_status_zero stat s q c in
        let s1 = set_status hal stat s in
        let ready = subst Ready (sym (ap (λ g. g.ports) f)) done.live.ready in
        let count = ap (λ g. g.status.counter) f ∙ ap (λ st. st.counter) done.stored in
        let same = ap (λ g. driven any_port e g.ports) f ∙ done.same_handles e in
        (
          ap (λ g. level hal e g.world) f ∙ ground (arith, done.levels e),
          ground (arith, tick_off laws s1 e (omega (arith, count)) ready q', same),
        )
