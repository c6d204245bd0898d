-- ===== src/Curtain/Interlock.antt =====
-- The relays UP and DOWN are never closed together, and the motor never runs without its timer:
-- the invariant behind that, and how each step of the motor keeps it.
use n1cpu.Base.{ℕ, Bool, true, false, ◌≡◌, ◌≢◌, refl, arith, List, subst, sym}
use n1cpu.Out.{Hal, IsHal, to_bool}
use n1cpu.Port.{Port}
use n1cpu.Func.{no_timer, is_running}
use n1cpu.Func.Ports.{any_port}
use n1cpu.Func.Laws.{Ready, driven}
use n1cpu.Curtain.{
  Curtain, MotorStatus, motor_stop, motor_down, motor_up, has_name, motor_action, cur_unknown,
}
use n1cpu.Curtain.Motor.{motor_action-SameRest, motor_action-driven, motor_action_lem}

-- No output drives an UP and a DOWN relay at once.
pub record IsWired (ps : List Port) : Type 0 where
  pub ready : Ready ps
  pub apart : (e : ℕ) → driven (has_name "UP") e ps ≡ true → driven (has_name "DOWN") e ps ≡ false
  pub up_any : (e : ℕ) → driven (has_name "UP") e ps ≡ true → driven any_port e ps ≡ true
  pub down_any : (e : ℕ) → driven (has_name "DOWN") e ps ≡ true → driven any_port e ps ≡ true

module _ {Hw : Type 0} (hal : Hal Hw) where
  -- The relays that the state of the motor does not call for are open.
  pub record IsQuiet (m : MotorStatus) (ps : List Port) (hw : Hw) : Type 0 where
    pub at_rest :
        m ≡ motor_stop
        → (e : ℕ) → driven any_port e ps ≡ true
        → to_bool (hal.get_level e hw) ≡ false
    pub no_down :
        m ≢ motor_down
        → (e : ℕ) → driven (has_name "DOWN") e ps ≡ true
        → to_bool (hal.get_level e hw) ≡ false
    pub no_up :
        m ≢ motor_up
        → (e : ℕ) → driven (has_name "UP") e ps ≡ true
        → to_bool (hal.get_level e hw) ≡ false

  pub record Inv (c : Curtain Hw) : Type 0 where
    pub wired : IsWired c.ports
    pub quiet : IsQuiet c.motor c.ports c.world.hw
    pub idle : c.temp_status ≡ cur_unknown → c.motor ≡ motor_stop
    pub timed : c.motor ≢ motor_stop → is_running c.qtimer ≡ true
    pub created : c.qtimer ≢ no_timer
    pub known : c.status.status ≢ cur_unknown
    pub no_fault : c.fault ≡ false

  module _ (laws : IsHal hal) where
    motor_action-IsWired :
        (cb : Bool) (c : Curtain Hw) → IsWired c.ports → IsWired (motor_action hal cb c).ports
    motor_action-IsWired cb c v = record {
      ready = (motor_action_lem hal laws cb c 0 v.ready).1;
      apart = λ e. ground (
        arith,
        motor_action-driven hal cb c (has_name "UP") e (λ p s. refl),
        motor_action-driven hal cb c (has_name "DOWN") e (λ p s. refl),
        v.apart e,
      );
      up_any = λ e. ground (
        arith,
        motor_action-driven hal cb c (has_name "UP") e (λ p s. refl),
        motor_action-driven hal cb c any_port e (λ p s. refl),
        v.up_any e,
      );
      down_any = λ e. ground (
        arith,
        motor_action-driven hal cb c (has_name "DOWN") e (λ p s. refl),
        motor_action-driven hal cb c any_port e (λ p s. refl),
        v.down_any e,
      );
    }

    -- Before: the motor state is set and the relays are as they were for `old`, which is the same
    -- or at rest, or the new one is at rest.
    motor_action-IsQuiet :
        (cb : Bool) (old : MotorStatus) (c : Curtain Hw)
        → IsWired c.ports
        → IsQuiet old c.ports c.world.hw
        → (c.motor ≢ motor_stop → old ≡ motor_stop)
        → IsQuiet c.motor (motor_action hal cb c).ports (motor_action hal cb c).world.hw
    motor_action-IsQuiet cb old c v q fresh = record {
      at_rest = λ m e d. ground (
        arith,
        motor_action_lem hal laws cb c e v.ready,
        motor_action-driven hal cb c any_port e (λ p s. refl),
      );
      no_down = λ m e d. ground (
        arith,
        motor_action_lem hal laws cb c e v.ready,
        motor_action-driven hal cb c (has_name "DOWN") e (λ p s. refl),
        v.apart e,
        v.down_any e,
        λ (h : old ≡ motor_stop). q.at_rest h e,
        λ (h : old ≢ motor_down). q.no_down h e,
      );
      no_up = λ m e d. ground (
        arith,
        motor_action_lem hal laws cb c e v.ready,
        motor_action-driven hal cb c (has_name "UP") e (λ p s. refl),
        v.apart e,
        v.up_any e,
        λ (h : old ≡ motor_stop). q.at_rest h e,
        λ (h : old ≢ motor_up). q.no_up h e,
      );
    }

    -- A step that sets the motor and its timer and then calls `motor_action` keeps the invariant.
    pub motor_action-Inv :
        (cb : Bool) (old : MotorStatus) (c : Curtain Hw)
        → IsWired c.ports
        → IsQuiet old c.ports c.world.hw
        → (c.motor ≢ motor_stop → old ≡ motor_stop)
        → (c.temp_status ≡ cur_unknown → c.motor ≡ motor_stop)
        → (c.motor ≢ motor_stop → is_running c.qtimer ≡ true)
        → c.qtimer ≢ no_timer
        → c.status.status ≢ cur_unknown
        → c.fault ≡ false
        → Inv (motor_action hal cb c)
    motor_action-Inv cb old c v q fresh idle timed created known no_fault =
        let same = motor_action-SameRest hal cb c in
        record {
          wired = motor_action-IsWired cb c v;
          quiet =
              subst (λ m. IsQuiet m (motor_action hal cb c).ports (motor_action hal cb c).world.hw)
                (sym same.same_motor) (motor_action-IsQuiet cb old c v q fresh);
          idle = grind (arith, idle, same.same_temp, same.same_motor);
          timed = grind (arith, timed, same.same_timer, same.same_motor);
          created = grind (arith, created, same.same_timer);
          known = grind (arith, known, same.same_status);
          no_fault = grind (arith, no_fault, same.same_fault);
        }
