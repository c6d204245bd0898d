-- ===== src/Curtain/Alarm.antt =====
-- What a fire alarm and its end do to a curtain that was closed.
use n1cpu.Base.{refl, subst, sym, if◌then◌else◌, ℕ, false, ◌≡◌, arith, true, ◌∙◌, ap}
use n1cpu.Core.{Status}
use n1cpu.Out.{Hal, IsHal, to_bool}
use n1cpu.Func.{local_set_status, write_status, notify}
use n1cpu.Curtain.{
  Curtain, cur_unknown, set_status, move, cur_closed, motor_action, launch, store, fire,
  local_set_status, tim_start, tim_stop, has_name, cur_opened, motor_up,
}
use n1cpu.Curtain.Motor.{motor_action-SameRest, motor_action_lem, motor_action-driven}
use n1cpu.Curtain.Interlock.{Inv, IsWired}
use n1cpu.Func.Laws.{driven, Ready}

module _ {Hw : Type 0} (hal : Hal Hw) where
  -- The relays before the last step of `fire false`.
  set_status_world :
      (stat : Status) (c : Curtain Hw) (e : ℕ)
      → c.virtual_device ≡ false
      → c.temp_status ≡ cur_unknown
      → stat.status ≡ cur_closed
      → (set_status hal stat c).world.hw ≡ (motor_action hal false (launch (store stat c))).world.hw
  unfolding set_status move notify write_status local_set_status
  set_status_world stat c e v t o =
      ground (arith, motor_action-SameRest hal false (launch (store stat c)))

  launch_ports : (c : Curtain Hw) → (launch c).ports ≡ c.ports
  unfolding launch tim_start tim_stop
  launch_ports c = ground arith

  -- A closing command on a real curtain at rest closes its DOWN relays and leaves the rest.
  close_lem :
      (laws : IsHal hal) (stat : Status) (c : Curtain Hw) (e : ℕ)
      → Ready c.ports
      → c.virtual_device ≡ false
      → c.temp_status ≡ cur_unknown
      → stat.status ≡ cur_closed
      → to_bool (hal.get_level e (set_status hal stat c).world.hw) ≡ (
          if driven (has_name "DOWN") e c.ports then true else to_bool (hal.get_level e c.world.hw))
  unfolding launch tim_start tim_stop local_set_status write_status
  close_lem laws stat c e r v t o =
      ap (λ h. to_bool (hal.get_level e h)) (set_status_world stat c e v t o)
      ∙ ground (
        arith,
        motor_action_lem hal laws false (launch (store stat c)) e
            (subst Ready (sym (launch_ports (store stat c))) r),
      )

  -- The curtain as `fire true` has it before the motor, and as `fire false` restores it.
  alarmed : Curtain Hw → Curtain Hw
  alarmed c =
      let opened = record c.status { status = cur_opened } in
      record c {
        fn = record c.fn { main_temp_status = c.status; status = opened };
        motor = motor_up;
      }

  restored : Curtain Hw → Curtain Hw
  restored c =
      let c1 = motor_action hal true (alarmed c) in
      record c1 { fn = record c1.fn { status = c1.main_temp_status } }

  fire_lem :
      (laws : IsHal hal) (c : Curtain Hw) (e : ℕ)
      → IsWired c.ports
      → c.virtual_device ≡ false
      → c.temp_status ≡ cur_unknown
      → c.status.status ≡ cur_closed
      → to_bool (hal.get_level e (fire hal false (fire hal true c)).world.hw) ≡ (
          if driven (has_name "DOWN") e c.ports
          then true
          else (if driven (has_name "UP") e c.ports
              then true
              else to_bool (hal.get_level e c.world.hw)))
  unfolding fire alarmed restored
  fire_lem laws c e w v t o =
      let same = motor_action-SameRest hal true (alarmed c) in
      let first = motor_action_lem hal laws true (alarmed c) e w.ready in
      let down = motor_action-driven hal true (alarmed c) (has_name "DOWN") e (λ p s. refl) in
      close_lem laws (restored c).status (restored c) e first.1 (ground (arith, same))
        (ground (arith, same)) (ground (arith, same))
      ∙ ground (arith, first, down)

  -- A fire alarm and its end, on a real curtain that satisfies `Inv`, is at rest and closed,
  -- leave its UP relays and its DOWN relays closed at once.
  pub fire_both_on :
      (laws : IsHal hal) (c : Curtain Hw)
      → Inv hal c
      → c.virtual_device ≡ false
      → c.temp_status ≡ cur_unknown
      → c.status.status ≡ cur_closed
      → (up down : ℕ) → driven (has_name "UP") up c.ports ≡ true
      → driven (has_name "DOWN") down c.ports ≡ true
      → (to_bool (hal.get_level up (fire hal false (fire hal true c)).world.hw) ≡ true)
        × (to_bool (hal.get_level down (fire hal false (fire hal true c)).world.hw) ≡ true)
  unfolding fire
  fire_both_on laws c i v t o up down u d = (
    fire_lem laws c up i.wired v t o ∙ grind (arith, i.wired.apart up u),
    fire_lem laws c down i.wired v t o ∙ ground arith,
  )
