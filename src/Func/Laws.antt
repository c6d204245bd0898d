-- ===== src/Func/Laws.antt =====
-- What the loops over the ports do to the hardware.
use n1cpu.Base.{
  ℕ, Bool, true, false, ◌&&◌, ◌||◌, List, [], ◌∷◌, ◌≡◌, refl, if◌then◌else◌, arith, Bool-cases, inl,
  inr,
}
use n1cpu.Core.PortType.{is_outport}
use n1cpu.Out.{Hal, IsHal, OutDev, World}
use n1cpu.Port.{Port, set_status}
use n1cpu.Port.Laws.{Drives, handles, level, set_status_lem, set_status-handles, set_status-stable}
use n1cpu.Func.Ports.{is_some_outport, any_port, relay_ports, write_ports}

-- Every output port of the list is enabled and has a driver.
abbrev pub Ready : List Port → Type 0
Ready [] = Unit {0}
Ready (p ∷ ps) = (is_outport p.type ≡ true → (out : OutDev) × Drives out p) × Ready ps

-- Does one of the output ports that pass the test write to the handle `e`?
abbrev pub driven : (Port → Bool) → ℕ → List Port → Bool
driven test e [] = false
driven test e (p ∷ ps) = (test p && handles e p) || driven test e ps

-- Is there an output port that passes the test?
abbrev chosen : (Port → Bool) → List Port → Bool
chosen test [] = false
chosen test (p ∷ ps) = (is_outport p.type && test p) || chosen test ps

pub chosen-any_port : (ps : List Port) → chosen any_port ps ≡ is_some_outport ps
chosen-any_port [] = refl
chosen-any_port (p ∷ ps) = ground (arith, chosen-any_port ps)

module _ {Hw : Type 0} (hal : Hal Hw) where
  -- A write changes neither a port's handle nor its type.
  pub relay_ports-driven :
      (e : ℕ) (st : Bool) (ps : List Port) (w : World Hw)
      → driven any_port e (relay_ports hal st ps w).0 ≡ driven any_port e ps
  unfolding relay_ports
  relay_ports-driven e st [] w = refl
  relay_ports-driven e st (p ∷ ps) w =
      let (p', st', w') = set_status hal st p w in
      ground (
        arith,
        set_status-handles hal e st p w,
        relay_ports-driven e st ps w,
        relay_ports-driven e st' ps w',
      )

  -- For a test that does not look at the state of a port.
  pub write_ports-driven :
      (keep test : Port → Bool) (e : ℕ) (st acc : Bool) (ps : List Port) (w : World Hw)
      → ((p : Port) (s : Bool) → keep (record p { status = s }) ≡ keep p)
      → driven keep e (write_ports hal test st acc ps w).0 ≡ driven keep e ps
  unfolding write_ports
  write_ports-driven keep test e st acc [] w stable = refl
  write_ports-driven keep test e st acc (p ∷ ps) w stable =
      let (p', acc', w') = set_status hal st p w in
      ground (
        arith,
        set_status-handles hal e st p w,
        set_status-stable hal keep st p w stable,
        write_ports-driven keep test e st acc ps w stable,
        write_ports-driven keep test e st acc' ps w' stable,
      )

  -- A write leaves the output ports what they are.
  pub write_ports-is_some_outport :
      (test : Port → Bool) (st acc : Bool) (ps : List Port) (w : World Hw)
      → is_some_outport (write_ports hal test st acc ps w).0 ≡ is_some_outport ps
  unfolding write_ports
  write_ports-is_some_outport test st acc [] w = refl
  write_ports-is_some_outport test st acc (p ∷ ps) w =
      let (p', acc', w') = set_status hal st p w in
      ground (
        arith,
        set_status-stable hal (λ (q : Port). is_outport q.type) st p w (λ q s. refl),
        write_ports-is_some_outport test st acc ps w,
        write_ports-is_some_outport test st acc' ps w',
      )

module _ {Hw : Type 0} (hal : Hal Hw) (laws : IsHal hal) where
  pub relay_ports_lem :
      (e : ℕ) (st : Bool) (ps : List Port) (w : World Hw)
      → Ready ps
      → ((relay_ports hal st ps w).1 ≡ st)
        × (level hal e (relay_ports hal st ps w).2
            ≡ (if driven any_port e ps then st else level hal e w))
        × Ready (relay_ports hal st ps w).0
  unfolding relay_ports
  relay_ports_lem e st [] w r = (refl, refl, tt)
  relay_ports_lem e st (p ∷ ps) w r = elim (Bool-cases (is_outport p.type)) [
    | inl t ↦
        let (out, d) = r.0 t in
        let w' = (set_status hal st p w).2 in
        ground (arith, set_status_lem hal laws e st p w out t d, relay_ports_lem e st ps w' r.1)
    | inr t ↦ ground (arith, relay_ports_lem e st ps w r.1)
  ]

  pub write_ports_lem :
      (e : ℕ) (test : Port → Bool) (st acc : Bool) (ps : List Port) (w : World Hw)
      → Ready ps
      → level hal e (write_ports hal test st acc ps w).2
        ≡ (if driven test e ps then st else level hal e w)
  unfolding write_ports
  write_ports_lem e test st acc [] w r = refl
  write_ports_lem e test st acc (p ∷ ps) w r = elim (Bool-cases (is_outport p.type)) [
    | inl t ↦
        let (out, d) = r.0 t in
        let (p', acc', w') = set_status hal st p w in
        ground (
          arith,
          set_status_lem hal laws e st p w out t d,
          write_ports_lem e test st acc ps w r.1,
          write_ports_lem e test st acc' ps w' r.1,
        )
    | inr t ↦ ground (arith, write_ports_lem e test st acc ps w r.1)
  ]

  -- The ports stay ready, and the last result is the level written if any port took it.
  pub write_ports-Ready :
      (test : Port → Bool) (st acc : Bool) (ps : List Port) (w : World Hw)
      → Ready ps
      → Ready (write_ports hal test st acc ps w).0
        × ((write_ports hal test st acc ps w).1 ≡ (if chosen test ps then st else acc))
  unfolding write_ports
  write_ports-Ready test st acc [] w r = (tt, refl)
  write_ports-Ready test st acc (p ∷ ps) w r = elim (Bool-cases (is_outport p.type)) [
    | inl t ↦
        let (out, d) = r.0 t in
        let (p', acc', w') = set_status hal st p w in
        ground (
          arith,
          set_status_lem hal laws 0 st p w out t d,
          write_ports-Ready test st acc ps w r.1,
          write_ports-Ready test st acc' ps w' r.1,
        )
    | inr t ↦ ground (arith, write_ports-Ready test st acc ps w r.1)
  ]
