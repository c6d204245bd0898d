-- ===== src/Port/Laws.antt =====
-- What a write to one port, or to all output ports of a function, does to the hardware.
use n1cpu.Base.{
  ℕ, Bool, true, false, ◌&&◌, Option, none, some, ◌≡◌, ◌==◌, if◌then◌else◌, arith, ap, ◌∙◌,
}
use n1cpu.Core.PortType.{is_outport}
use n1cpu.Out.{Hal, IsHal, OutDev, World, to_bool, of_bool}
use n1cpu.Port.{Port, set_status}

-- The output port `p` is enabled and has the driver `out`.
pub record Drives (out : OutDev) (p : Port) : Type 0 where
  pub enabled : p.active ≡ true
  pub wired : p.outport ≡ some out
  pub ready : out.disable ≡ false

-- Does the port write to the handle `e`?
abbrev out_handles : ℕ → Option OutDev → Bool
out_handles e none = false
out_handles e (some out) = out.hardware_data == e

abbrev pub handles : ℕ → Port → Bool
handles e p = is_outport p.type && out_handles e p.outport

module _ {Hw : Type 0} (hal : Hal Hw) where
  abbrev pub level : ℕ → World Hw → Bool
  level e w = to_bool (hal.get_level e w.hw)

  pub set_status_off :
      (st : Bool) (p : Port) (w : World Hw)
      → is_outport p.type ≡ false
      → set_status hal st p w ≡ (p, p.status, w)
  unfolding set_status
  set_status_off st p w t = ground arith

  pub set_status-handles :
      (e : ℕ) (st : Bool) (p : Port) (w : World Hw)
      → handles e (set_status hal st p w).0 ≡ handles e p
  unfolding set_status
  set_status-handles e st p w = ground arith

  set_status_fields :
      (st : Bool) (p : Port) (w : World Hw)
      → (set_status hal st p w).0 ≡ record p { status = (set_status hal st p w).0.status }
  unfolding set_status
  set_status_fields st p w = ground arith

  pub set_status-stable :
      (keep : Port → Bool) (st : Bool) (p : Port) (w : World Hw)
      → ((q : Port) (s : Bool) → keep (record q { status = s }) ≡ keep q)
      → keep (set_status hal st p w).0 ≡ keep p
  set_status-stable keep st p w stable =
      ap keep (set_status_fields st p w) ∙ stable p (set_status hal st p w).0.status

  module _ (laws : IsHal hal) where
    pub set_status_lem :
        (e : ℕ) (st : Bool) (p : Port) (w : World Hw) (out : OutDev)
        → is_outport p.type ≡ true
        → Drives out p
        → ((set_status hal st p w).0 ≡ record p { status = st })
          × ((set_status hal st p w).1 ≡ st)
          × (level e (set_status hal st p w).2 ≡ (if handles e p then st else level e w))
    unfolding set_status
    set_status_lem e st p w out t d = ground (
      arith,
      laws.set_returns out.hardware_data (of_bool st) w.hw,
      laws.get-set e out.hardware_data (of_bool st) w.hw,
    )
