-- ===== src/WaterMeter/Alarm.antt =====
-- A water alarm at the motorised valve.
use n1cpu.Base.{ℕ, true, false, ◌≡◌, arith, if◌then◌else◌, not, ◌&&◌}
use n1cpu.Out.{Hal, IsHal}
use n1cpu.Port.Laws.{level}
use n1cpu.Func.{stopped, start_once, is_running, local_set_status, write_status, notify}
use n1cpu.Func.Ports.{any_port}
use n1cpu.Func.Laws.{driven, write_ports_lem}
use n1cpu.Func.Relay.Laws.{IsLive}
use n1cpu.WaterMeter.{
  MWater, has_name, alarm_handler, set_stat, set_status, status_on, drive, timer_callback,
}

module _ {Hw : Type 0} (hal : Hal Hw) (laws : IsHal hal) where
  -- A water alarm at a live valve stores and reports the status on. If the timer of an earlier
  -- command does not run, it closes the relays ON, changes no other output and starts the timer for
  -- 25 seconds, if it is created. If it runs, the alarm changes no output and leaves the timer.
  pub alarm_handler_lem :
      (m : MWater Hw) (e : ℕ)
      → IsLive m.fn
      → let m' = alarm_handler hal m in
        (m'.status.stat ≡ true)
        × (level hal e m'.world ≡ (
            if not (is_running m.qtimer) && driven (has_name "ON") e m.ports
            then true
            else level hal e m.world))
        × (m'.qtimer ≡ start_once 25000000 m.qtimer)
  unfolding alarm_handler set_stat set_status status_on drive local_set_status write_status notify
  alarm_handler_lem m e v =
      ground (
        arith,
        v.local,
        write_ports_lem hal laws e (has_name "ON") true true m.ports m.world v.ready,
      )

  -- When the timer runs out on a live valve, it stops, every output is opened and no other changes,
  -- and the status says that nothing moves.
  pub timer_callback_lem :
      (m : MWater Hw) (e : ℕ)
      → IsLive m.fn
      → let m' = timer_callback hal m in
        (level hal e m'.world ≡ (if driven any_port e m.ports then false else level hal e m.world))
        × (m'.qtimer ≡ stopped)
        × (m'.status.status ≡ 0)
  unfolding timer_callback notify
  timer_callback_lem m e v =
      ground (arith, write_ports_lem hal laws e any_port false false m.ports m.world v.ready)
