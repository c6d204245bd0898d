-- ===== src/Out/Expander/Bits.antt =====
-- The bits of the bytes that the expander driver makes, by evaluation over all of them.
use n1cpu.Base.{
  ℕ, ◌<◌, ◌%◌, Bool, true, false, ◌&&◌, ◌||◌, not, ◌==◌, ltb, ltb→lt, bit_or, all_below,
  all_below_lem, ◌≡◌, refl, if◌then◌else◌, arith,
}
use n1cpu.Out.Expander.{clear_bit, set_bit, has_bit, new_byte}

same : Bool → Bool → Bool
same true b = b
same false b = not b

same_lem : (a b : Bool) → same a b ≡ true → a ≡ b
unfolding same
same_lem true b h = ground arith
same_lem false b h = ground arith

both : (a b : Bool) → (a && b) ≡ true → (a ≡ true) × (b ≡ true)
both true b h = (refl, h)
both false b h = ground arith

or_bit : ℕ → ℕ → ℕ → Bool
unfolding same
or_bit q v r = same (has_bit (bit_or v r % 256) q) (has_bit v q || has_bit r q)

or_bits : all_below 8 (λ q. all_below 256 (λ v. all_below 256 (or_bit q v))) ≡ true
unfolding or_bit
or_bits = refl

changed_bit : ℕ → ℕ → ℕ → Bool
unfolding same
changed_bit q p v =
    same (has_bit (clear_bit v p) q) (not (p == q) && has_bit v q)
    && (same (has_bit (set_bit v p) q) ((p == q) || has_bit v q)
        && (ltb (clear_bit v p) 256 && ltb (set_bit v p) 256))

changed_bits : all_below 8 (λ q. all_below 8 (λ p. all_below 256 (changed_bit q p))) ≡ true
unfolding changed_bit
changed_bits = refl

or_bit_lem :
    (q v r : ℕ)
    → q < 8
    → v < 256
    → r < 256
    → has_bit (bit_or v r % 256) q ≡ (has_bit v q || has_bit r q)
unfolding or_bit
or_bit_lem q v r lq lv lr =
    let at_q =
      all_below_lem 8 (λ q. all_below 256 (λ v. all_below 256 (or_bit q v))) q or_bits lq in
    let at_v = all_below_lem 256 (λ v. all_below 256 (or_bit q v)) v at_q lv in
    same_lem (has_bit (bit_or v r % 256) q) (has_bit v q || has_bit r q)
      (all_below_lem 256 (or_bit q v) r at_v lr)

changed_bit_lem :
    (q p v : ℕ)
    → q < 8
    → p < 8
    → v < 256
    → (has_bit (clear_bit v p) q ≡ (not (p == q) && has_bit v q))
      × (has_bit (set_bit v p) q ≡ ((p == q) || has_bit v q))
      × (clear_bit v p < 256)
      × (set_bit v p < 256)
unfolding changed_bit
changed_bit_lem q p v lq lp lv =
    let at_q =
      all_below_lem 8 (λ q. all_below 8 (λ p. all_below 256 (changed_bit q p))) q changed_bits lq in
    let at_p = all_below_lem 8 (λ p. all_below 256 (changed_bit q p)) p at_q lp in
    let t = all_below_lem 256 (changed_bit q p) v at_p lv in
    let cleared = same (has_bit (clear_bit v p) q) (not (p == q) && has_bit v q) in
    let set = same (has_bit (set_bit v p) q) ((p == q) || has_bit v q) in
    let bounds = ltb (clear_bit v p) 256 && ltb (set_bit v p) 256 in
    let (c, rest) = both cleared (set && bounds) t in
    let (s, b) = both set bounds rest in
    let (lc, ls) = both (ltb (clear_bit v p) 256) (ltb (set_bit v p) 256) b in
    (
      same_lem (has_bit (clear_bit v p) q) (not (p == q) && has_bit v q) c,
      same_lem (has_bit (set_bit v p) q) ((p == q) || has_bit v q) s,
      ltb→lt (clear_bit v p) 256 lc,
      ltb→lt (set_bit v p) 256 ls,
    )

-- The bit `q` of the byte that a write of `val` to the pin `p` makes.
pub new_byte-has_bit :
    (q p val v r : ℕ)
    → q < 8
    → p < 8
    → v < 256
    → r < 256
    → has_bit (new_byte r p val v) q
      ≡ (if p == q then not (val == 0) || has_bit r q else has_bit v q || has_bit r q)
new_byte-has_bit q p val v r lq lp lv lr =
    let (cleared, set, lc, ls) = changed_bit_lem q p v lq lp lv in
    ground (
      arith,
      cleared,
      set,
      or_bit_lem q (clear_bit v p) r lq lc lr,
      or_bit_lem q (set_bit v p) r lq ls lr,
    )

no_bits : all_below 8 (λ q. not (has_bit 0 q)) ≡ true
no_bits = refl

pub has_bit-zero : (q : ℕ) → q < 8 → has_bit 0 q ≡ false
has_bit-zero q l = ground (arith, all_below_lem 8 (λ q. not (has_bit 0 q)) q no_bits l)
