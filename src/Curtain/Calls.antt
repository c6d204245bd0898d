-- ===== src/Curtain/Calls.antt =====
-- The calls that a curtain receives, in any order, and the interlock of its relays over them. Not
-- among the calls: `fire`, `init`, and the swaps of the ports' names.
use n1cpu.Base.{
  [], ◌∷◌, List, String, ℕ, Bool, true, false, ◌≡◌, ◌≢◌, arith, if◌then◌else◌, if-case,
}
use n1cpu.Core.{Status}
use n1cpu.Button.{ButtonEvent}
use n1cpu.Out.{Hal, IsHal, to_bool}
use n1cpu.Func.{is_running}
use n1cpu.Func.Laws.{driven}
use n1cpu.Func.Ports.{any_port}
use n1cpu.Curtain.{
  Curtain, cur_unknown, func_callback, cur_tim_callback, set_status, remote_set_status, senaryo,
  has_name, motor_stop, motor_down, motor_up,
}
use n1cpu.Curtain.Interlock.{Inv}
use n1cpu.Curtain.Steps.{
  func_callback-Inv, cur_tim_callback-Inv, set_status-Inv, remote_set_status-Inv, senaryo-Inv,
}

-- A call of a method of the curtain, or the end of its timer, if that runs.
pub data Call : Type 0 where
  input_event : String → ButtonEvent → Call
  timer_end : Call
  order : Status → Call
  remote : Status → Bool → Call
  scene : String → Call

-- No call brings the status `CUR_UNKNOWN`.
unfoldable pub IsKnown : Call → Type 0
IsKnown (order stat) = stat.status ≢ cur_unknown
IsKnown (remote stat cb) = stat.status ≢ cur_unknown
IsKnown _ = true ≡ true

unfoldable pub AllKnown : List Call → Type 0
AllKnown [] = true ≡ true
AllKnown (e ∷ es) = IsKnown e × AllKnown es

module _ {Hw : Type 0} (hal : Hal Hw) where
  unfoldable pub step : Call → Curtain Hw → Curtain Hw
  step (input_event name ev) c = func_callback hal name ev c
  step timer_end c = if is_running c.qtimer then cur_tim_callback hal c else c
  step (order stat) c = set_status hal stat c
  step (remote stat cb) c = remote_set_status stat cb c
  step (scene par) c = senaryo hal par c

  unfoldable pub run : List Call → Curtain Hw → Curtain Hw
  run [] c = c
  run (e ∷ es) c = run es (step e c)

  module _ (laws : IsHal hal) where
    step-Inv : (e : Call) (c : Curtain Hw) → IsKnown e → Inv hal c → Inv hal (step e c)
    unfolding step IsKnown
    step-Inv (input_event name ev) c k i = func_callback-Inv hal laws name ev c i
    step-Inv timer_end c k i =
        if-case (Inv hal) (is_running c.qtimer) _ c (λ h. cur_tim_callback-Inv hal laws c i)
          (λ h. i)
    step-Inv (order stat) c k i = set_status-Inv hal laws stat c k i
    step-Inv (remote stat cb) c k i = remote_set_status-Inv hal laws stat cb c k i
    step-Inv (scene par) c k i = senaryo-Inv hal laws par c i

    run-Inv : (es : List Call) (c : Curtain Hw) → AllKnown es → Inv hal c → Inv hal (run es c)
    unfolding run AllKnown
    run-Inv [] c k i = i
    run-Inv (e ∷ es) c k i = run-Inv es (step e c) k.1 (step-Inv e c k.0 i)

    -- However a curtain that satisfies `Inv` is called, by its wall switch, by commands, by other
    -- devices, by scenarios and by its timer, as long as no call brings the status CUR_UNKNOWN, no
    -- UP relay and DOWN relay are closed at once after the calls.
    pub run_never_both :
        (es : List Call) (c : Curtain Hw)
        → AllKnown es
        → Inv hal c
        → (up down : ℕ) → driven (has_name "UP") up (run es c).ports ≡ true
        → driven (has_name "DOWN") down (run es c).ports ≡ true
        → to_bool (hal.get_level up (run es c).world.hw) ≡ true
        → to_bool (hal.get_level down (run es c).world.hw) ≡ false
    run_never_both es c k i up down u d on =
        let j = run-Inv es c k i in
        ground (
          arith,
          λ (h : (run es c).motor ≢ motor_down). j.quiet.no_down h down d,
          λ (h : (run es c).motor ≢ motor_up). j.quiet.no_up h up u,
        )

    -- After such calls of a curtain that satisfies `Inv`, none bringing the status CUR_UNKNOWN,
    -- an output that any relay of the curtain drives is on only while the timer that ends the
    -- movement runs, and the motor's state then is not MOTOR_STOP; and no call made a timer
    -- function fail.
    pub run_timed :
        (es : List Call) (c : Curtain Hw)
        → AllKnown es
        → Inv hal c
        → (e : ℕ) → driven any_port e (run es c).ports ≡ true
        → to_bool (hal.get_level e (run es c).world.hw) ≡ true
        → (is_running (run es c).qtimer ≡ true)
          × ((run es c).motor ≢ motor_stop)
          × ((run es c).fault ≡ false)
    run_timed es c k i e d on =
        let j = run-Inv es c k i in
        let moving : (run es c).motor ≢ motor_stop = λ m. ground (arith, j.quiet.at_rest m e d) in
        (j.timed moving, moving, j.no_fault)
