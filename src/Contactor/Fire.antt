-- ===== src/Contactor/Fire.antt =====
-- The contactor over a fire alarm.
use n1cpu.Base.{ℕ, ◌*◌, true, false, ◌≡◌, arith, if◌then◌else◌}
use n1cpu.Out.{Hal, IsHal}
use n1cpu.Port.Laws.{level}
use n1cpu.Func.{stopped, once}
use n1cpu.Func.Ports.{any_port}
use n1cpu.Func.Laws.{driven}
use n1cpu.Func.Relay.Laws.{IsLive, relay_status-Switched}
use n1cpu.Contactor.{Contactor, set_status, fire, tim_callback}

-- A fire alarm leaves a local contactor, whose output ports are enabled and wired and whose timer
-- rests, as it is and starts the timer; when that runs out every output is opened, and the end of
-- the alarm brings the state from before back, stored and at every output.
pub fire_delays :
    {Hw : Type 0} (hal : Hal Hw) (c : Contactor Hw)
    → IsHal hal
    → IsLive c.fn
    → c.qtimer ≡ stopped
    → let alarmed = fire hal true c in
      let opened = tim_callback hal alarmed in
      let over = fire hal false opened in
      ((alarmed.qtimer ≡ once (c.timer * 1000000)) × (alarmed.world ≡ c.world))
      × ((e : ℕ)
          → level hal e opened.world
            ≡ (if driven any_port e c.ports then false else level hal e c.world))
      × ((e : ℕ)
          → level hal e over.world
            ≡ (if driven any_port e c.ports then c.status.stat else level hal e c.world))
      × (over.status ≡ record c.status { first = true })
unfolding fire set_status tim_callback
fire_delays hal c laws live rests =
    let saved = record c.fn { main_temp_status = c.status } in
    let off = record c.status { stat = false } in
    let opened =
      relay_status-Switched hal laws off saved
        (record { local = live.local; ready = live.ready }) in
    let c2 = tim_callback hal (fire hal true c) in
    let back = record c2.fn { status = c2.main_temp_status } in
    let closed =
      relay_status-Switched hal laws back.status back
        (record { local = opened.live.local; ready = opened.live.ready }) in
    (
      ground arith,
      λ e. ground (arith, opened.levels e),
      λ e.
          ground (arith, opened.levels e, closed.levels e, opened.same_handles e, opened.kept_main),
      ground (arith, closed.stored, opened.kept_main),
    )

-- An alarm that ends before the timer has run out stops the timer, and no output changes that was
-- at the contactor's state.
pub fire_cancelled :
    {Hw : Type 0} (hal : Hal Hw) (c : Contactor Hw)
    → IsHal hal
    → IsLive c.fn
    → c.qtimer ≡ stopped
    → let over = fire hal false (fire hal true c) in
      (over.qtimer ≡ stopped)
      × (over.status ≡ record c.status { first = true })
      × ((e : ℕ)
          → (driven any_port e c.ports ≡ true → level hal e c.world ≡ c.status.stat)
          → level hal e over.world ≡ level hal e c.world)
unfolding fire set_status
fire_cancelled hal c laws live rests =
    let saved = record c.fn { main_temp_status = c.status } in
    let closed =
      relay_status-Switched hal laws c.status saved
        (record { local = live.local; ready = live.ready }) in
    (ground arith, ground (arith, closed.stored), λ e same. ground (arith, closed.levels e, same))
