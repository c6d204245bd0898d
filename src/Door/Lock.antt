-- ===== src/Door/Lock.antt =====
-- The door lock: what one command does, and what two commands in a row do.
use n1cpu.Base.{ℕ, ◌*◌, Bool, true, false, not, String, ◌≡◌, refl, arith, if◌then◌else◌}
use n1cpu.Core.{Status}
use n1cpu.Out.{Hal, IsHal}
use n1cpu.Port.Laws.{level}
use n1cpu.Func.{stopped, once, start_once, local_set_status, notify, write_status}
use n1cpu.Func.Laws.{driven, write_ports_lem, write_ports-Ready, write_ports-driven}
use n1cpu.Func.Relay.Laws.{IsLive}
use n1cpu.Door.{Door, has_name, relay_name, set_status, status_change, tim_callback}

module _ {Hw : Type 0} (hal : Hal Hw) (laws : IsHal hal) where
  -- From `d` to `d'` the outputs of the relay `name` went to `st`, and no other changed.
  record Wrote (name : String) (st : Bool) (d d' : Door Hw) : Type 0 where
    live : IsLive d'.fn
    levels :
        (e : ℕ)
        → level hal e d'.world
          ≡ (if driven (has_name name) e d.ports then st else level hal e d.world)
    same_handles :
        (e : ℕ) (other : String)
        → driven (has_name other) e d'.ports ≡ driven (has_name other) e d.ports

  set_status-Wrote :
      (stat : Status) (d : Door Hw)
      → IsLive d.fn
      → let d' = set_status hal stat d in
        Wrote (relay_name stat.stat) true d d'
        × (d'.status.stat ≡ stat.stat)
        × (d'.qtimer ≡ start_once (d.timer * 1000000) d.qtimer)
  unfolding set_status status_change local_set_status write_status notify
  set_status-Wrote stat d v =
      let name = relay_name stat.stat in
      (
        record {
          live = record {
            local = ground (arith, v.local);
            ready = ground (
              arith,
              write_ports-Ready hal laws (has_name name) true true d.ports d.world v.ready,
            );
          };
          levels = λ e.
              ground (
                arith,
                write_ports_lem hal laws e (has_name name) true true d.ports d.world v.ready,
              );
          same_handles = λ e other. ground (
            arith,
            write_ports-driven hal (has_name other) (has_name name) e true true d.ports d.world
                (λ p s. refl),
          );
        },
        ground arith,
        ground arith,
      )

  tim_callback-Wrote :
      (d : Door Hw)
      → IsLive d.fn
      → Wrote (relay_name d.status.stat) false d (tim_callback hal d)
        × ((tim_callback hal d).qtimer ≡ stopped)
        × ((tim_callback hal d).status.status ≡ 0)
  unfolding tim_callback local_set_status write_status notify
  tim_callback-Wrote d v =
      let name = relay_name d.status.stat in
      (
        record {
          live = record {
            local = ground (arith, v.local);
            ready = ground (
              arith,
              write_ports-Ready hal laws (has_name name) false false d.ports d.world v.ready,
            );
          };
          levels = λ e. ground (
            arith,
            write_ports_lem hal laws e (has_name name) false false d.ports d.world v.ready,
          );
          same_handles = λ e other. ground (
            arith,
            write_ports-driven hal (has_name other) (has_name name) e false false d.ports d.world
                (λ p s. refl),
          );
        },
        ground arith,
        ground arith,
      )

  -- One command to a local door, whose outputs are enabled and wired and whose timer rests, closes
  -- the relay of that command and starts the timer; when it runs out the relay opens again. No
  -- other output changes at either time.
  pub set_status_pulse :
      (stat : Status) (d : Door Hw)
      → IsLive d.fn
      → d.qtimer ≡ stopped
      → let sent = set_status hal stat d in
        let over = tim_callback hal sent in
        let mine = λ (e : ℕ). driven (has_name (relay_name stat.stat)) e d.ports in
        (sent.qtimer ≡ once (d.timer * 1000000))
        × ((e : ℕ) → level hal e sent.world ≡ (if mine e then true else level hal e d.world))
        × ((e : ℕ) → level hal e over.world ≡ (if mine e then false else level hal e d.world))
        × (over.qtimer ≡ stopped)
        × (over.status.status ≡ 0)
  set_status_pulse stat d v rests =
      let (sent, kept, timed) = set_status-Wrote stat d v in
      let d1 = set_status hal stat d in
      let (over, quiet, done) = tim_callback-Wrote d1 sent.live in
      (
        ground arith,
        sent.levels,
        λ e.
            ground
              (arith, sent.levels e, over.levels e, sent.same_handles e (relay_name stat.stat)),
        quiet,
        done,
      )

  -- A second, opposite command before the timer has run out leaves the relay of the first one
  -- closed for good: the timer runs out, releases only the relay of the second, and rests.
  pub set_status_stuck :
      (first second : Status) (d : Door Hw) (e : ℕ)
      → IsLive d.fn
      → second.stat ≡ not first.stat
      → driven (has_name (relay_name first.stat)) e d.ports ≡ true
      → driven (has_name (relay_name second.stat)) e d.ports ≡ false
      → let over = tim_callback hal (set_status hal second (set_status hal first d)) in
        (level hal e over.world ≡ true) × (over.qtimer ≡ stopped)
  set_status_stuck first second d e v opposite mine other =
      let d1 = set_status hal first d in
      let d2 = set_status hal second d1 in
      let (w1, k1, t1) = set_status-Wrote first d v in
      let (w2, k2, t2) = set_status-Wrote second d1 w1.live in
      let (w3, t3, s3) = tim_callback-Wrote d2 w2.live in
      (
        ground (
          arith,
          w1.levels e,
          w2.levels e,
          w3.levels e,
          w1.same_handles e (relay_name second.stat),
          w2.same_handles e (relay_name second.stat),
        ),
        t3,
      )
