-- ===== src/System/Lamps.antt =====
-- A message to all lamps, from its loop over the functions to the outputs.
use n1cpu.Base.{
  ℕ, Bool, true, false, ◌||◌, some, List, [], ◌∷◌, String, if◌then◌else◌, ◌==◌, leb, ◌≡◌, refl,
  arith, ◌⊎◌,
}
use n1cpu.Out.{Hal, IsHal, World}
use n1cpu.Port.Laws.{level}
use n1cpu.Func.Ports.{any_port}
use n1cpu.Func.Laws.{driven}
use n1cpu.Func.Relay.Laws.{IsLive}
use n1cpu.Lamp.Outcome.{set_status-Lit}
use n1cpu.Air.{Float}
use n1cpu.System.{BaseFunction, visit, base, in_world, lamp, set_status}
use n1cpu.System.Messages.{all, all_one}

module _ {Hw : Type 0} where
  -- Is a lamp among the functions that drives the output `e`?
  abbrev lights : ℕ → BaseFunction Hw → Bool
  lights e (lamp l) = driven any_port e l.ports
  lights e _ = false

  abbrev pub lit_by : ℕ → List (BaseFunction Hw) → Bool
  lit_by e [] = false
  lit_by e (b ∷ bs) = lights e b || lit_by e bs

  -- The lamp is active, real, and its output ports are ready.
  abbrev Usable : BaseFunction Hw → Type 0
  Usable (lamp l) = IsLive l.fn × (l.fn.active ≡ true)
  Usable _ = true ≡ true

  abbrev pub AllUsable : List (BaseFunction Hw) → Type 0
  AllUsable [] = true ≡ true
  AllUsable (b ∷ bs) = Usable b × AllUsable bs

  module _ (fl : Float) (hal : Hal Hw) (strlen : String → ℕ) (laws : IsHal hal) where
    -- One turn of the loop.
    turn_lem :
        (e ack : ℕ) (b : BaseFunction Hw) (w : World Hw)
        → (ack ≡ 0) ⊎ (ack ≡ 1)
        → Usable b
        → level hal e (base (all_one fl hal strlen "lamp" ack (in_world w b))).world
          ≡ (if lights e b then ack == 1 else level hal e w)
    unfolding all_one set_status
    turn_lem e ack (lamp l) w a u =
        let here = record l { fn = record l.fn { world = w } } in
        let stat = record l.status { stat = ack == 1 } in
        let v : IsLive here.fn = record { local = u.0.local; ready = u.0.ready } in
        let s = set_status-Lit hal laws stat here v in ground (arith, s.levels e, u.1)
    turn_lem e ack _ w a u = refl

    loop_lem :
        (e ack : ℕ) (bs : List (BaseFunction Hw)) (w : World Hw)
        → (ack ≡ 0) ⊎ (ack ≡ 1)
        → AllUsable bs
        → level hal e (visit (all_one fl hal strlen "lamp" ack) bs w).1
          ≡ (if lit_by e bs then ack == 1 else level hal e w)
    unfolding visit
    loop_lem e ack [] w a u = refl
    loop_lem e ack (b ∷ bs) w a u =
        let w' = (base (all_one fl hal strlen "lamp" ack (in_world w b))).world in
        ground (arith, turn_lem e ack b w a u.0, loop_lem e ack bs w' a u.1)

    -- The message `all` for the device "lamp" with `ack` 0 or 1, at functions whose lamps are
    -- active, real and have ready output ports: the outputs that a lamp drives are off for 0 and on
    -- for 1, and no other output changes, whatever the other functions are.
    pub all_lamps :
        (e ack : ℕ) (bs : List (BaseFunction Hw)) (w : World Hw)
        → leb (strlen "lamp") 19 ≡ true
        → (ack ≡ 0) ⊎ (ack ≡ 1)
        → AllUsable bs
        → level hal e (all fl hal strlen (some "lamp") (some ack) bs w).1
          ≡ (if lit_by e bs then ack == 1 else level hal e w)
    unfolding all
    all_lamps e ack bs w n a u = ground (arith, loop_lem e ack bs w a u)
