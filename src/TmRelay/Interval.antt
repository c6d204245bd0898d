-- ===== src/TmRelay/Interval.antt =====
-- The interval of the timed relay.
use n1cpu.Base.{
  ℕ, ◌*◌, ◌<◌, Bool, true, false, ◌==◌, ==_iff, ◌≡◌, ◌↔◌, not, arith, ltb, refl, ap, sym, ◌∙◌,
  all_below, all_below_lem,
}
use n1cpu.Func.{Timer, stopped, periodic}
use n1cpu.TmRelay.{TmRelay, interval, tim_start}

abbrev minutes : ℕ → ℕ
minutes timer = timer * 60000000

abbrev bool_eq : Bool → Bool → Bool
bool_eq true b = b
bool_eq false b = not b

fits : ℕ → Bool
unfolding interval
fits timer = bool_eq (interval timer == minutes timer) (ltb timer 36)

fits_below : all_below 256 fits ≡ true
unfolding fits
fits_below = refl

interval_fits : (timer : ℕ) → timer < 256 → (interval timer ≡ minutes timer) ↔ (timer < 36)
unfolding fits
interval_fits timer l =
    ground
      (arith, ==_iff (interval timer) (minutes timer), all_below_lem 256 fits timer fits_below l)

abbrev period : Timer → ℕ
period (periodic us) = us
period _ = 0

-- The timer of a local relay, once created, runs at the interval that the configuration gives in
-- minutes, a byte, exactly if that is less than 36.
pub tim_start_minutes :
    {Hw : Type 0} (t : TmRelay Hw)
    → t.timer < 256
    → t.qtimer ≡ stopped
    → ((tim_start t).qtimer ≡ periodic (t.timer * 60000000)) ↔ (t.timer < 36)
unfolding tim_start
tim_start_minutes t l q =
    let (out, back) = interval_fits t.timer l in
    let runs : (tim_start t).qtimer ≡ periodic (interval t.timer) = ground (arith, q) in
    (λ h. out (ap period (sym runs ∙ h)), λ h. runs ∙ ap periodic (back h))
