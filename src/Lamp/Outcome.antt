-- ===== src/Lamp/Outcome.antt =====
-- What a status set on a lamp does.
use n1cpu.Base.{refl, ℕ, Bool, true, false, ◌≡◌, arith, if◌then◌else◌, ◌&&◌, not, ltb}
use n1cpu.Core.{Status}
use n1cpu.Out.{Hal, IsHal}
use n1cpu.Port.Laws.{level}
use n1cpu.Func.{Timer, stop, start_periodic, local_set_status, write_status, notify}
use n1cpu.Func.Ports.{any_port}
use n1cpu.Func.Laws.{driven, write_ports_lem, write_ports-Ready, write_ports-driven}
use n1cpu.Func.Relay.Laws.{IsLive}
use n1cpu.Lamp.{Lamp, count, light, set_status}

-- The status that the lamp stores, and what it does to the timer of the countdown.
abbrev accepted : Bool → Status → Status
accepted active stat = record stat {
  first = true;
  stat = active && stat.stat;
  counter = if stat.stat then stat.counter else 0;
}

abbrev counting : Status → Timer → Timer
counting stat t =
    if not stat.stat then stop t else if ltb 0 stat.counter then start_periodic 60000000 t else t

module _ {Hw : Type 0} (hal : Hal Hw) (laws : IsHal hal) where
  -- The outcome of setting `stat` on the lamp `l`.
  pub record Lit (stat : Status) (l l' : Lamp Hw) : Type 0 where
    pub stored : l'.status ≡ accepted l.fn.active stat
    pub levels :
        (e : ℕ)
        → level hal e l'.world
          ≡ (if driven any_port e l.ports then l.fn.active && stat.stat else level hal e l.world)
    pub same_handles : (e : ℕ) → driven any_port e l'.ports ≡ driven any_port e l.ports
    pub live : IsLive l'.fn
    pub kept_main : l'.main_temp_status ≡ l.main_temp_status
    pub same_active : l'.fn.active ≡ l.fn.active
    pub same_timer : l'.qtimer ≡ l.qtimer
    pub countdown : l'.xtimer ≡ counting stat l.xtimer

  pub set_status-Lit :
      (stat : Status) (l : Lamp Hw) → IsLive l.fn → Lit stat l (set_status hal stat l)
  unfolding set_status light count local_set_status write_status notify
  set_status-Lit stat l v =
      let st = if l.fn.active then stat.stat else false in
      record {
        stored = ground (arith, v.local);
        levels = λ e.
            ground
              (arith, v.local, write_ports_lem hal laws e any_port st st l.ports l.world v.ready);
        same_handles = λ e. ground (
          arith,
          v.local,
          write_ports-driven hal any_port any_port e st st l.ports l.world (λ p s. refl),
        );
        live = record {
          local = ground (arith, v.local);
          ready =
              ground
                (arith, v.local, write_ports-Ready hal laws any_port st st l.ports l.world v.ready);
        };
        kept_main = ground (arith, v.local);
        same_active = ground (arith, v.local);
        same_timer = ground (arith, v.local);
        countdown = ground (arith, v.local);
      }
