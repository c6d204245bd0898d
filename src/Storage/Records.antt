-- ===== src/Storage/Records.antt =====
-- Records of a file are read back as they were written, and a write of one leaves the others.
use native.Mathlib.Nat.{mul-le-mul_right}
use n1cpu.Base.{
  ℕ, zero, suc, ◌+◌, ◌*◌, ◌≤◌, ◌<◌, true, false, ◌==◌, ltb, some, List, [], ◌∷◌, ◌++◌, length, take,
  drop, String, ◌≡◌, ◌≢◌, refl, ap, sym, ◌∙◌, arith, if◌then◌else◌, Bool-cases, inl, inr, subst,
  length-take, ◌-◌, append-nil,
}
use text.Mathlib.TextPositions.{eq_refl}
use n1cpu.Rs485.Buffers.{take_past, drop_past}
use n1cpu.Storage.{
  Files, FileSystem, read_at, read_file, fetch, write_at, write_file, patch, set_file,
}

drop_nil : (m : ℕ) → [] ≡ drop {A = ℕ} m []
drop_nil zero = refl
drop_nil (suc m) = refl

drop_more : (m k : ℕ) (xs : List ℕ) → drop k (drop m xs) ≡ drop (m + k) xs
drop_more zero k xs = ap (λ j. drop j xs) (omega arith)
drop_more (suc m) zero [] = drop_nil (suc m + 0)
drop_more (suc m) (suc k) [] =
    let e : suc (m + suc k) ≡ suc m + suc k = omega arith in ap (λ j. drop {A = ℕ} j []) e
drop_more (suc m) k (x ∷ xs) =
    let e : suc (m + k) ≡ suc m + k = omega arith in drop_more m k xs ∙ ap (λ j. drop j (x ∷ xs)) e

take-drop : (o : ℕ) (xs : List ℕ) → take o xs ++ drop o xs ≡ xs
take-drop zero xs = refl
take-drop (suc o) [] = refl
take-drop (suc o) (x ∷ xs) = ap (◌∷◌ x) (take-drop o xs)

within : (a n : ℕ) (p z : List ℕ) → a + n ≤ length p → take n (drop a (p ++ z)) ≡ take n (drop a p)
within zero zero p z h = refl
within zero (suc n) [] z h = ground arith
within zero (suc n) (x ∷ p) z h = ap (◌∷◌ x) (within zero n p z (omega arith))
within (suc a) n [] z h = ground arith
within (suc a) n (x ∷ p) z h = within a n p z (omega arith)

length_taken : (o : ℕ) (buf : List ℕ) → o ≤ length buf → length (take o buf) ≡ o
length_taken o buf h = omega (arith, length-take o buf)

module _ (o : ℕ) (xs buf : List ℕ) (h : o ≤ length buf) where
  -- The bytes of `buf` with `xs` at the place `o`.
  over : List ℕ
  over = take o buf ++ (xs ++ drop (o + length xs) buf)

  there : take (length xs) (drop o over) ≡ xs
  unfolding over
  there =
      let P = take o buf in
      let Z = xs ++ drop (o + length xs) buf in
      let at : length P + 0 ≡ o = omega (arith, length_taken o buf h) in
      ap (λ j. take (length xs) (drop j (P ++ Z))) (sym at)
      ∙ (ap (take (length xs)) (drop_past 0 P Z) ∙ take_past xs (drop (o + length xs) buf))

  before : (a n : ℕ) → a + n ≤ o → take n (drop a over) ≡ take n (drop a buf)
  unfolding over
  before a n l =
      let P = take o buf in
      let l' : a + n ≤ length P = omega (arith, length_taken o buf h) in
      within a n P (xs ++ drop (o + length xs) buf) l'
      ∙ (sym (within a n P (drop o buf) l') ∙ ap (λ q. take n (drop a q)) (take-drop o buf))

  past : (a : ℕ) → o + length xs ≤ a → drop a over ≡ drop a buf
  unfolding over
  past a l =
      let P = take o buf in
      let R = drop (o + length xs) buf in
      let k = a - (o + length xs) in
      let lp = length_taken o buf h in
      let at : a ≡ length P + (length xs + k) = omega (arith, lp) in
      let back : (o + length xs) + k ≡ a = omega arith in
      ap (λ j. drop j (P ++ (xs ++ R))) at
      ∙ (drop_past (length xs + k) P (xs ++ R)
          ∙ (drop_past k xs R ∙ (drop_more (o + length xs) k buf ∙ ap (λ j. drop j buf) back)))

drop_all : (xs : List ℕ) → drop (length xs) xs ≡ []
drop_all [] = refl
drop_all (x ∷ xs) = drop_all xs

-- Two records of one size do not overlap.
apart : (s i j : ℕ) → i < j → i * s + s ≤ j * s
apart s i j h =
    let e : i * s + s ≡ (i + 1) * s = omega arith in
    subst (λ k. k ≤ j * s) (sym e) (mul-le-mul_right s (omega (arith, h)))

-- The record `j` of a file after a write of the record `i`.
module _ (flg old buf : List ℕ) (i j : ℕ) (l : length flg ≡ length old)
    (h : i * length flg ≤ length buf) where
  new : List ℕ
  new = over (i * length flg) flg buf h

  same : j ≡ i → read_at (j * length old) old new ≡ flg
  unfolding read_at new
  same e =
      let at : j * length old ≡ i * length flg =
        ap (λ k. k * length old) e ∙ ap (λ k. i * k) (sym l) in
      let got : take (length old) (drop (j * length old) new) ≡ flg =
        ap (λ k. take k (drop (j * length old) new)) (sym l)
        ∙ (ap (λ k. take (length flg) (drop k new)) at ∙ there (i * length flg) flg buf h) in
      ap (λ q. q ++ drop (length q) old) got
      ∙ (ap (λ k. flg ++ drop k old) l ∙ (ap (λ q. flg ++ q) (drop_all old) ∙ append-nil flg))

  others : j ≢ i → read_at (j * length old) old new ≡ read_at (j * length old) old buf
  unfolding read_at new
  others n =
      let o = i * length flg in
      let on : i * length old ≡ o = ap (λ k. i * k) (sym l) in
      let got : take (length old) (drop (j * length old) new)
          ≡ take (length old) (drop (j * length old) buf) =
        elim (Bool-cases (ltb j i)) [
          | inl e ↦ before o flg buf h (j * length old) (length old) (
              subst (λ k. j * length old + length old ≤ k) on
                (apart (length old) j i (ground arith)))
          | inr e ↦ ap (take (length old)) (
              past o flg buf h (j * length old) (
                subst (λ k. k ≤ j * length old) (ap (λ k. i * k + k) (sym l))
                  (apart (length old) i j (ground arith))))
        ] in
      ap (λ q. q ++ drop (length q) old) got

-- Where a file is there and can be written, a record that starts within it is written, and after that reads
-- back as it was written, while every other record of the same size reads as before.
pub read_file-write_file :
    (sys : FileSystem) (name : String) (flg old : List ℕ) (i j : ℕ) (fs : Files) (buf : List ℕ)
    → fs name ≡ some buf
    → sys.writable name ≡ true
    → length flg ≡ length old
    → i * length flg ≤ length buf
    → let (ok, after) = write_file sys name flg i fs in
      (ok ≡ true)
      × (read_file sys name old j after
          ≡ (if j == i then (true, flg) else read_file sys name old j fs))
unfolding write_file patch write_at read_file fetch over new
read_file-write_file sys name flg old i j fs buf e w l h =
    let after : Files = set_file name (new flg old buf i j l h) fs in
    let fits : ltb (length buf) (i * length flg) ≡ false = ground arith in
    let written : write_file sys name flg i fs ≡ (true, after) = ground (arith, e, w, fits) in
    let now : read_file sys name old j after
        ≡ (true, read_at (j * length old) old (new flg old buf i j l h)) =
      ground (arith, eq_refl name, w) in
    let then_ : read_file sys name old j fs ≡ (true, read_at (j * length old) old buf) =
      ground (arith, e, w) in
    (
      ap (λ q. q.0) written,
      ap (λ q. read_file sys name old j q.1) written
          ∙ (now ∙ elim (Bool-cases (j == i)) [
            | inl q ↦ ground (arith, same flg old buf i j l h (ground arith))
            | inr q ↦ ground (arith, then_, others flg old buf i j l h (ground arith))
          ]),
    )
