-- ===== src/Lamp/Fire.antt =====
-- A fire alarm and its end at a lamp.
use n1cpu.Base.{ℕ, true, false, ◌≡◌, arith, if◌then◌else◌}
use n1cpu.Core.{Status}
use n1cpu.Out.{Hal, IsHal}
use n1cpu.Port.Laws.{level}
use n1cpu.Func.{is_running, stop}
use n1cpu.Func.Ports.{any_port}
use n1cpu.Func.Laws.{driven}
use n1cpu.Func.Relay.Laws.{IsLive}
use n1cpu.Lamp.{Lamp, is_emergency, fire}
use n1cpu.Lamp.Outcome.{set_status-Lit}

module _ {Hw : Type 0} (hal : Hal Hw) (laws : IsHal hal) where
  -- The lamp at the moment of the alarm, and the status that it is set to.
  abbrev alarm_status : Lamp Hw → Status
  alarm_status l = record l.status { counter = 0; stat = is_emergency l.global }

  abbrev at_alarm : Lamp Hw → Lamp Hw
  at_alarm l = record l {
    fn = record l.fn {
      main_temp_status = record l.status { counter = 0 };
      status = alarm_status l;
    };
    xtimer = stop l.xtimer;
  }

  -- The lamp at the end of the alarm.
  abbrev at_end : Lamp Hw → Lamp Hw
  at_end l = record l { fn = record l.fn { status = l.main_temp_status }; xtimer = stop l.xtimer }

  -- A fire alarm at a live and active lamp brings every output that it drives to whether it is an
  -- emergency lamp, and its end brings them back to the state from before. No other output changes,
  -- and the status is the one from before, but without its countdown, whose timer does not run: a lamp
  -- that was on for some minutes is on for good.
  pub fire_restores_lamp :
      (l : Lamp Hw) (e : ℕ)
      → IsLive l.fn
      → l.fn.active ≡ true
      → let a = fire hal true l in
        let b = fire hal false a in
        (level hal e a.world
          ≡ (if driven any_port e l.ports then is_emergency l.global else level hal e l.world))
        × (level hal e b.world
            ≡ (if driven any_port e l.ports then l.status.stat else level hal e l.world))
        × (b.status ≡ record l.status { first = true; counter = 0 })
        × (is_running b.xtimer ≡ false)
  unfolding fire
  fire_restores_lamp l e v act =
      let a = fire hal true l in
      let on =
        set_status-Lit hal laws (alarm_status l) (at_alarm l)
          (record { local = v.local; ready = v.ready }) in
      let off =
        set_status-Lit hal laws a.main_temp_status (at_end a)
          (record { local = on.live.local; ready = on.live.ready }) in
      (
        ground (arith, on.levels e, act),
        ground (
          arith,
          on.levels e,
          on.same_handles e,
          on.kept_main,
          on.same_active,
          off.levels e,
          act,
        ),
        ground (arith, off.stored, on.kept_main, on.same_active, act),
        ground (arith, off.countdown, on.kept_main),
      )
