-- ===== src/Gas/Fire.antt =====
-- The gas valve over a fire alarm.
use n1cpu.Base.{ℕ, true, false, ◌≡◌, arith, if◌then◌else◌}
use n1cpu.Out.{Hal, IsHal}
use n1cpu.Port.Laws.{level}
use n1cpu.Func.{Func}
use n1cpu.Func.Ports.{any_port}
use n1cpu.Func.Laws.{driven}
use n1cpu.Func.Relay.Laws.{IsLive, relay_status-Switched}
use n1cpu.Gas.{set_status, fire}

-- For a local valve whose output ports are enabled and wired: a fire alarm closes it, at every
-- output it drives, and the end of the alarm brings back the state from before at every output,
-- with no other output touched, and stores that state again.
pub fire_restores :
    {Hw : Type 0} (hal : Hal Hw) (f : Func Hw)
    → IsHal hal
    → IsLive f
    → let alarmed = fire hal true f in
      let over = fire hal false alarmed in
      ((e : ℕ)
        → level hal e alarmed.world
          ≡ (if driven any_port e f.ports then false else level hal e f.world))
      × ((e : ℕ)
          → level hal e over.world
            ≡ (if driven any_port e f.ports then f.status.stat else level hal e f.world))
      × (over.status ≡ record f.status { first = true })
unfolding fire set_status
fire_restores hal f laws live =
    let saved = record f { main_temp_status = f.status } in
    let off = record f.status { stat = false } in
    let closed =
      relay_status-Switched hal laws off saved
        (record { local = live.local; ready = live.ready }) in
    let alarmed = fire hal true f in
    let back = record alarmed { status = alarmed.main_temp_status } in
    let opened =
      relay_status-Switched hal laws back.status back
        (record { local = closed.live.local; ready = closed.live.ready }) in
    (
      λ e. ground (arith, closed.levels e),
      λ e.
          ground (arith, closed.levels e, opened.levels e, closed.same_handles e, closed.kept_main),
      ground (arith, opened.stored, closed.kept_main),
    )
