-- ===== src/Piston/Motor.antt =====
-- What `Piston::motor_action` does to the relays, and what it leaves alone.
use n1cpu.Base.{
  ℕ, Bool, true, false, ◌||◌, ◌≡◌, arith, if◌then◌else◌, ◌∙◌, refl, String, List, [], ◌∷◌, inl, ◌⊎◌,
  inr,
}
use n1cpu.Out.{Hal, IsHal, World}
use n1cpu.Port.{Port}
use n1cpu.Port.Laws.{level}
use n1cpu.Func.{Func, notify}
use n1cpu.Func.Ports.{any_port, write_ports}
use n1cpu.Func.Laws.{Ready, driven, write_ports_lem, write_ports-Ready, write_ports-driven}
use n1cpu.Curtain.{MotorStatus, motor_stop, motor_down, motor_up, has_name}
use n1cpu.Curtain.Motor.{SameRest}
use n1cpu.Piston.{Piston, pump, point, direct, stop_action, motor_action, ends_within, pause}

-- The outputs that a motor state writes, and the level that it writes.
abbrev pub reaches : MotorStatus → Port → Bool
reaches motor_stop p = any_port p
reaches motor_up p = has_name "UP" p || has_name "MOTOR" p
reaches motor_down p = has_name "DOWN" p || has_name "MOTOR" p

abbrev pub is_moving : MotorStatus → Bool
is_moving motor_stop = false
is_moving _ = true

-- A handle is reached by one of two tests when a port is reached by the first or by the second.
driven_or :
    (s t : Port → Bool) (e : ℕ) (ps : List Port)
    → driven (λ p. s p || t p) e ps ≡ (driven s e ps || driven t e ps)
driven_or s t e [] = refl
driven_or s t e (p ∷ ps) = ground (arith, driven_or s t e ps)

-- What a motor state writes is among all the outputs.
pub driven-reaches :
    (m : MotorStatus) (e : ℕ) (ps : List Port)
    → driven (reaches m) e ps ≡ true
    → driven any_port e ps ≡ true
driven-reaches m e [] h = h
driven-reaches m e (p ∷ ps) h = ground (arith, driven-reaches m e ps)

motor_cases : (m : MotorStatus) → (m ≡ motor_stop) ⊎ ((m ≡ motor_up) ⊎ (m ≡ motor_down))
motor_cases motor_stop = inl refl
motor_cases motor_up = inr (inl refl)
motor_cases motor_down = inr (inr refl)

module _ {Hw : Type 0} (hal : Hal Hw) where
  -- `motor_action` when the timer does not run out in its pauses.
  unfoldable pub pumped : String → Func Hw → List Port × World Hw
  pumped name f =
      let (ps, ret, w) = write_ports hal (has_name "MOTOR") true true f.ports f.world in
      let (ps', ret', w') = write_ports hal (has_name name) true true ps w in (ps', w')

  unfoldable pub written : MotorStatus → Func Hw → List Port × World Hw
  written motor_stop f =
      let (ps, ret, w) = write_ports hal any_port false false f.ports f.world in (ps, w)
  written motor_up f = pumped "UP" f
  written motor_down f = pumped "DOWN" f

  unfoldable pub quick : Bool → Piston Hw → Piston Hw
  quick callback c =
      let (ps, w) = written c.motor c.fn in
      let f = record c.fn { ports = ps; world = w } in
      record c { fn = if callback then notify c.status f else f }

  pub motor_action-quick :
      (cb : Bool) (c : Piston Hw)
      → ends_within c.qtimer (pause c.ports) ≡ false
      → motor_action hal cb c ≡ quick cb c
  unfolding motor_action quick written pumped direct pump point stop_action
  motor_action-quick cb c h = elim (motor_cases c.motor) [
    | inl e ↦ rw (e)
    | inr (inl e) ↦ rw (e, h)
    | inr (inr e) ↦ rw (e, h)
  ]

  pub quick-SameRest : (cb : Bool) (c : Piston Hw) → SameRest hal c (quick cb c)
  unfolding quick notify
  quick-SameRest cb c = ground arith

  pumped-driven :
      (name : String) (f : Func Hw) (keep : Port → Bool) (e : ℕ)
      → ((p : Port) (s : Bool) → keep (record p { status = s }) ≡ keep p)
      → driven keep e (pumped name f).0 ≡ driven keep e f.ports
  unfolding pumped
  pumped-driven name f keep e stable =
      let (ps, ret, w) = write_ports hal (has_name "MOTOR") true true f.ports f.world in
      write_ports-driven hal keep (has_name name) e true true ps w stable
      ∙ write_ports-driven hal keep (has_name "MOTOR") e true true f.ports f.world stable

  written-driven :
      (m : MotorStatus) (f : Func Hw) (keep : Port → Bool) (e : ℕ)
      → ((p : Port) (s : Bool) → keep (record p { status = s }) ≡ keep p)
      → driven keep e (written m f).0 ≡ driven keep e f.ports
  unfolding written
  written-driven motor_stop f keep e stable =
      write_ports-driven hal keep any_port e false false f.ports f.world stable
  written-driven motor_up f keep e stable = pumped-driven "UP" f keep e stable
  written-driven motor_down f keep e stable = pumped-driven "DOWN" f keep e stable

  pub quick-driven :
      (cb : Bool) (c : Piston Hw) (keep : Port → Bool) (e : ℕ)
      → ((p : Port) (s : Bool) → keep (record p { status = s }) ≡ keep p)
      → driven keep e (quick cb c).ports ≡ driven keep e c.ports
  unfolding quick notify
  quick-driven cb c keep e stable = ground (arith, written-driven c.motor c.fn keep e stable)

  module _ (laws : IsHal hal) where
    pumped_lem :
        (name : String) (f : Func Hw) (e : ℕ)
        → Ready f.ports
        → (level hal e (pumped name f).1 ≡ (
            if driven (λ p. has_name name p || has_name "MOTOR" p) e f.ports
            then true
            else level hal e f.world))
          × Ready (pumped name f).0
    unfolding pumped
    pumped_lem name f e r =
        let (ps, ret, w) = write_ports hal (has_name "MOTOR") true true f.ports f.world in
        let m = has_name "MOTOR" in
        let r' = (write_ports-Ready hal laws m true true f.ports f.world r).0 in
        (
          ground (
            arith,
            driven_or (has_name name) m e f.ports,
            write_ports-driven hal (has_name name) m e true true f.ports f.world (λ p s. refl),
            write_ports_lem hal laws e m true true f.ports f.world r,
            write_ports_lem hal laws e (has_name name) true true ps w r',
          ),
          (write_ports-Ready hal laws (has_name name) true true ps w r').0,
        )

    written_lem :
        (m : MotorStatus) (f : Func Hw) (e : ℕ)
        → Ready f.ports
        → (level hal e (written m f).1
            ≡ (if driven (reaches m) e f.ports then is_moving m else level hal e f.world))
          × Ready (written m f).0
    unfolding written
    written_lem motor_stop f e r = (
      write_ports_lem hal laws e any_port false false f.ports f.world r,
      (write_ports-Ready hal laws any_port false false f.ports f.world r).0,
    )
    written_lem motor_up f e r = pumped_lem "UP" f e r
    written_lem motor_down f e r = pumped_lem "DOWN" f e r

    pub quick_lem :
        (cb : Bool) (c : Piston Hw) (e : ℕ)
        → Ready c.ports
        → (level hal e (quick cb c).world ≡ (
            if driven (reaches c.motor) e c.ports then is_moving c.motor else level hal e c.world))
          × Ready (quick cb c).ports
    unfolding quick notify
    quick_lem cb c e r = ground (arith, written_lem c.motor c.fn e r)
