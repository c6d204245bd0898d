-- ===== src/Terminals/Apart.antt =====
-- No two terminals share a pin.
use n1cpu.Base.{
  ℕ, ◌<◌, Bool, true, false, ◌&&◌, ◌||◌, not, Option, none, some, ◌==◌, ==_iff, leb, ltb, ◌≡◌, refl,
  ap, ◌∙◌, sym, arith, if◌then◌else◌, all_below, all_below_lem,
}
use n1cpu.Terminals.{out_pin_convert, in_pin_convert, rev_out_pin_convert}

-- A terminal: an output or an input, with its number.
pub data Terminal : Type 0 where
  output input : ℕ → Terminal

abbrev number : Terminal → ℕ
number (output n) = n
number (input n) = n

abbrev pin_of : Terminal → Option (ℕ × ℕ)
pin_of (output n) = out_pin_convert n
pin_of (input n) = in_pin_convert n

abbrev clash : Option (ℕ × ℕ) → Option (ℕ × ℕ) → Bool
clash (some x) (some y) = (x.0 == y.0) && (x.1 == y.1)
clash _ _ = false

clash_self : (x : ℕ × ℕ) → clash (some x) (some x) ≡ true
clash_self x = ground (arith, ==_iff x.0 x.0, ==_iff x.1 x.1)

pairs_below : (ℕ → ℕ → Bool) → Bool
pairs_below test = all_below 256 (λ p. all_below 256 (test p))

pairs_below_lem :
    (test : ℕ → ℕ → Bool) (p q : ℕ) → pairs_below test ≡ true → p < 256 → q < 256 → test p q ≡ true
unfolding pairs_below
pairs_below_lem test p q h lp lq =
    all_below_lem 256 (test p) q (all_below_lem 256 (λ p. all_below 256 (test p)) p h lp) lq

-- Numbers with the same pin under a table are the same.
abbrev differ : (ℕ → Option (ℕ × ℕ)) → ℕ → ℕ → Bool
differ table p q = (p == q) || not (clash (table p) (table q))

outs_apart : pairs_below (differ out_pin_convert) ≡ true
unfolding pairs_below out_pin_convert
outs_apart = refl

ins_apart : pairs_below (differ in_pin_convert) ≡ true
unfolding pairs_below in_pin_convert
ins_apart = refl

abbrev out_in : ℕ → ℕ → Bool
out_in p q = not (clash (out_pin_convert p) (in_pin_convert q))

kinds_apart : pairs_below out_in ≡ true
unfolding pairs_below out_pin_convert in_pin_convert
kinds_apart = refl

-- Two terminals whose numbers fit a byte and that have the same pin of the same expander are the same
-- terminal.
pub pin_of_injective :
    (s t : Terminal) (x : ℕ × ℕ)
    → number s < 256
    → number t < 256
    → pin_of s ≡ some x
    → pin_of t ≡ some x
    → s ≡ t
pin_of_injective (output p) (output q) x lp lq a b = ap output (
    ground (
      arith,
      pairs_below_lem (differ out_pin_convert) p q outs_apart lp lq,
      clash_self x,
      a,
      b,
      ==_iff p q,
    ))
pin_of_injective (input p) (input q) x lp lq a b = ap input (
    ground (
      arith,
      pairs_below_lem (differ in_pin_convert) p q ins_apart lp lq,
      clash_self x,
      a,
      b,
      ==_iff p q,
    ))
pin_of_injective (output p) (input q) x lp lq a b =
    ground (arith, pairs_below_lem out_in p q kinds_apart lp lq, clash_self x, a, b)
pin_of_injective (input p) (output q) x lp lq a b =
    ground (arith, pairs_below_lem out_in q p kinds_apart lq lp, clash_self x, a, b)

back : ℕ → Option (ℕ × ℕ) → Bool
back pin none = (pin == 0) || ltb 15 pin
back pin (some x) = rev_out_pin_convert x.0 x.1 == (if leb pin 12 then pin else 0)

back_below : all_below 256 (λ p. back p (out_pin_convert p)) ≡ true
unfolding back rev_out_pin_convert out_pin_convert
back_below = refl

-- An output terminal whose number fits a byte and that has a pin is found from that pin by
-- `rev_out_pin_convert` if its number is at most 12, and else 0 is found.
pub rev_out_pin_convert-out_pin_convert :
    (pin : ℕ) (x : ℕ × ℕ)
    → pin < 256
    → out_pin_convert pin ≡ some x
    → rev_out_pin_convert x.0 x.1 ≡ (if leb pin 12 then pin else 0)
unfolding back
rev_out_pin_convert-out_pin_convert pin x l h =
    let found = rev_out_pin_convert x.0 x.1 in
    (==_iff found (if leb pin 12 then pin else 0)).0
      (ap (back pin) (sym h) ∙ all_below_lem 256 (λ p. back p (out_pin_convert p)) pin back_below l)
