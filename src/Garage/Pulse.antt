-- ===== src/Garage/Pulse.antt =====
-- A push on the button of the garage door, or of the lift, is a pulse.
use n1cpu.Base.{
  ℕ, ◌*◌, Bool, true, false, List, [], ◌∷◌, ◌≡◌, refl, arith, if◌then◌else◌, ◌∙◌, ap, Option, none,
  some,
}
use n1cpu.Core.{Status}
use n1cpu.Out.{Hal, IsHal}
use n1cpu.Port.Laws.{level}
use n1cpu.Func.{Func, stopped, once, local_set_status, notify, write_status, start_once}
use n1cpu.Func.Ports.{any_port}
use n1cpu.Func.Laws.{driven, write_ports_lem, write_ports-Ready, write_ports-driven}
use n1cpu.Func.Relay.Laws.{IsLive}
use n1cpu.Garage.{Garage, set_status, status_change, tim_callback}

abbrev pub presses : {Hw : Type 0} → Hal Hw → List Status → Garage Hw → Garage Hw
presses hal [] g = g
presses hal (stat ∷ stats) g = presses hal stats (set_status hal stat g)

module _ {Hw : Type 0} (hal : Hal Hw) where
  local_keeps :
      (stat : Status) (f : Func Hw)
      → let f' = local_set_status stat false f in
        (f'.virtual_device ≡ f.virtual_device)
        × (f'.ports ≡ f.ports)
        × (f'.world ≡ f.world)
        × (f'.timer ≡ f.timer)
  unfolding local_set_status
  local_keeps stat f = (refl, refl, refl, refl)

  status_change_outcome :
      (st : Bool) (g : Garage Hw)
      → ((status_change hal st g).qtimer ≡ g.qtimer)
        × ((status_change hal st g).status.status ≡ (if st then 1 else 0))
  unfolding status_change write_status notify
  status_change_outcome st g = ground arith

  set_status_local :
      (stat : Status) (g : Garage Hw)
      → g.virtual_device ≡ false
      → let g' = record g { fn = local_set_status (record stat { stat = true }) false g.fn } in
        let g1 = status_change hal true g' in
        set_status hal stat g ≡ record g1 { qtimer = start_once (g1.timer * 1000000) g1.qtimer }
  unfolding set_status
  set_status_local stat g e = ground arith

module _ {Hw : Type 0} (hal : Hal Hw) (laws : IsHal hal) where
  -- The level that a driven output is to have, or none if it has not been written yet.
  abbrev wanted : Option Bool → Bool → Bool
  wanted none before = before
  wanted (some st) before = st

  -- `g` is what `g0` has become while its outputs are to be at `st`.
  record At (st : Option Bool) (g0 g : Garage Hw) : Type 0 where
    live : IsLive g.fn
    levels :
        (e : ℕ)
        → level hal e g.world ≡ (
            if driven any_port e g0.ports
            then wanted st (level hal e g0.world)
            else level hal e g0.world)
    same_handles : (e : ℕ) → driven any_port e g.ports ≡ driven any_port e g0.ports
    same_time : g.timer ≡ g0.timer

  status_change-At :
      (st : Bool) (old : Option Bool) (g0 g : Garage Hw)
      → At old g0 g
      → At (some st) g0 (status_change hal st g)
  unfolding status_change local_set_status write_status notify
  status_change-At st old g0 g v = record {
    live = record {
      local = ground (arith, v.live.local);
      ready =
          ground (arith, write_ports-Ready hal laws any_port st st g.ports g.world v.live.ready);
    };
    levels = λ e. ground (
      arith,
      write_ports_lem hal laws e any_port st st g.ports g.world v.live.ready,
      v.levels e,
      v.same_handles e,
    );
    same_handles = λ e. ground (
      arith,
      write_ports-driven hal any_port any_port e st st g.ports g.world (λ p s. refl),
      v.same_handles e,
    );
    same_time = ground (arith, v.same_time);
  }

  At-live :
      (st : Option Bool) (g0 g g' : Garage Hw)
      → At st g0 g
      → g'.virtual_device ≡ g.virtual_device
      → g'.ports ≡ g.ports
      → g'.world ≡ g.world
      → g'.timer ≡ g.timer
      → At st g0 g'
  At-live st g0 g g' v a b c d = record {
    live = record { local = ground (arith, v.live.local); ready = rw b v.live.ready };
    levels = λ e. rw c (v.levels e);
    same_handles = λ e. rw b (v.same_handles e);
    same_time = d ∙ v.same_time;
  }

  press-At :
      (stat : Status) (old : Option Bool) (g0 g : Garage Hw)
      → At old g0 g
      → At (some true) g0 (set_status hal stat g)
        × ((set_status hal stat g).qtimer ≡ start_once (g0.timer * 1000000) g.qtimer)
  press-At stat old g0 g v =
      let g' = record g { fn = local_set_status (record stat { stat = true }) false g.fn } in
      let g1 = status_change hal true g' in
      let g2 = record g1 { qtimer = start_once (g1.timer * 1000000) g1.qtimer } in
      let before =
        At-live old g0 g g' v (local_keeps hal (record stat { stat = true }) g.fn).0
          (local_keeps hal (record stat { stat = true }) g.fn).1
          (local_keeps hal (record stat { stat = true }) g.fn).2
          (local_keeps hal (record stat { stat = true }) g.fn).3 in
      let moved = status_change-At true old g0 g' before in
      simp (set_status_local hal stat g v.live.local) (
        At-live (some true) g0 g1 g2 moved refl refl refl refl,
        ground (arith, moved.same_time, status_change_outcome hal true g'),
      )

  presses-At :
      (stats : List Status) (g0 g : Garage Hw)
      → At (some true) g0 g
      → g.qtimer ≡ once (g0.timer * 1000000)
      → At (some true) g0 (presses hal stats g)
        × ((presses hal stats g).qtimer ≡ once (g0.timer * 1000000))
  presses-At [] g0 g v q = (v, q)
  presses-At (stat ∷ stats) g0 g v q =
      let (v', q') = press-At stat (some true) g0 g v in
      presses-At stats g0 (set_status hal stat g) v' (q' ∙ ap (start_once (g0.timer * 1000000)) q)

  -- One or more presses, on a local function whose outputs are enabled and wired and whose timer
  -- rests, close every output it drives and no other, and start the timer once: later presses do
  -- not prolong it. When it runs out the outputs open, the state is 0 again and the timer rests.
  pub presses_pulse :
      (stat : Status) (stats : List Status) (g : Garage Hw)
      → IsLive g.fn
      → g.qtimer ≡ stopped
      → let pushed = presses hal (stat ∷ stats) g in
        let over = tim_callback hal pushed in
        (pushed.qtimer ≡ once (g.timer * 1000000))
        × ((e : ℕ)
            → level hal e pushed.world
              ≡ (if driven any_port e g.ports then true else level hal e g.world))
        × ((e : ℕ)
            → level hal e over.world
              ≡ (if driven any_port e g.ports then false else level hal e g.world))
        × (over.status.status ≡ 0)
        × (over.qtimer ≡ stopped)
  unfolding tim_callback
  presses_pulse stat stats g live rests =
      let start : At none g g = record {
        live = live;
        levels = λ e. ground arith;
        same_handles = λ e. refl;
        same_time = refl;
      } in
      let (v1, q1) = press-At stat none g g start in
      let (v, q) =
        presses-At stats g (set_status hal stat g) v1
          (q1 ∙ ap (start_once (g.timer * 1000000)) rests) in
      let pushed = presses hal (stat ∷ stats) g in
      let rested = record pushed { qtimer = stopped } in
      let opened =
        status_change-At false (some true) g rested
          (At-live (some true) g pushed rested v refl refl refl refl) in
      (
        q,
        v.levels,
        opened.levels,
        (status_change_outcome hal false rested).1,
        (status_change_outcome hal false rested).0,
      )
