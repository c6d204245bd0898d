-- ===== src/Rs485/Buffers.antt =====
-- Lemmas on the receiver's buffer and on its test for the last packet.
use native.Mathlib.Numerals.{unary_clauses}
use n1cpu.Base.{
  all_below, all_below_lem, sym, append_assoc, length, replicate, drop, take, ◌++◌, ap, ◌∷◌, ℕ,
  zero, suc, ◌+◌, ◌-◌, ◌*◌, ◌%◌, ◌^◌, ◌≤◌, ◌<◌, Bool, true, false, ◌||◌, not, some, List, [], ◌∷◌,
  ◌++◌, ◌≡◌, refl, arith, ap, ◌∙◌, if◌then◌else◌, ◌==◌, ltb, leb, length, take, drop, replicate,
  append_assoc,
}
use n1cpu.Rs485.{Paket, Receiver, paket_decode, is_full, memcpy, fresh, put}

-- Up to 31 packets, the last one alone is the full one.
agrees : ℕ → ℕ → Bool
agrees t c = if is_full t c then t == c else not (t == c)

agrees_below : all_below 32 (λ t. all_below 32 (agrees t)) ≡ true
unfolding agrees
agrees_below = refl

take_nil : (n : ℕ) → take {A = ℕ} n [] ≡ []
take_nil zero = refl
take_nil (suc n) = refl

pub take_more : (m n : ℕ) (xs : List ℕ) → take m xs ++ take n (drop m xs) ≡ take (m + n) xs
take_more zero n xs = ap (λ k. take k xs) (omega arith)
take_more (suc m) n [] = simp (take_nil n, take_nil (suc m + n)) refl
take_more (suc m) n (x ∷ xs) =
    let e : suc (m + n) ≡ suc m + n = omega arith in
    ap (◌∷◌ x) (take_more m n xs) ∙ ap (λ j. take j (x ∷ xs)) e

pub take_past : (xs ys : List ℕ) → take (length xs) (xs ++ ys) ≡ xs
take_past [] ys = refl
take_past (x ∷ xs) ys = ap (◌∷◌ x) (take_past xs ys)

pub drop_past : (k : ℕ) (xs ys : List ℕ) → drop (length xs + k) (xs ++ ys) ≡ drop k ys
drop_past k [] ys = ap (λ j. drop j ys) (omega arith)
drop_past k (x ∷ xs) ys =
    let e : suc (length xs) + k ≡ suc (length xs + k) = omega arith in
    ap (λ j. drop j (x ∷ (xs ++ ys))) e ∙ drop_past k xs ys

drop_zeros : (k m : ℕ) → drop {A = ℕ} k (replicate m 0) ≡ replicate (m - k) 0
drop_zeros zero m = let e : m ≡ m - 0 = omega arith in ap (λ k. replicate k 0) e
drop_zeros (suc k) zero = let e : 0 ≡ 0 - suc k = omega arith in ap (λ j. replicate {A = ℕ} j 0) e
drop_zeros (suc k) (suc m) = simp unary_clauses (drop_zeros k m)

pub memcpy_lem :
    (p xs : List ℕ) (m : ℕ)
    → memcpy (length p) xs (p ++ replicate m 0) ≡ (p ++ xs) ++ replicate (m - length xs) 0
memcpy_lem p xs m =
    rw
      (
        take_past p (replicate m 0),
        drop_past (length xs) p (replicate m 0),
        drop_zeros (length xs) m,
      )
      (sym (append_assoc p xs (replicate (m - length xs) 0)))

pub take_all : (n : ℕ) (xs : List ℕ) → length xs ≤ n → take n xs ≡ xs
take_all zero [] h = refl
take_all zero (x ∷ xs) h = ground arith
take_all (suc n) [] h = refl
take_all (suc n) (x ∷ xs) h = ap (◌∷◌ x) (take_all n xs (omega arith))

pub take_twice : (n : ℕ) (xs : List ℕ) → take n (take n xs) ≡ take n xs
take_twice zero xs = refl
take_twice (suc n) [] = refl
take_twice (suc n) (x ∷ xs) = ap (◌∷◌ x) (take_twice n xs)

pub decode_held :
    (p : Paket) (r : Receiver) (buf : List ℕ)
    → (fresh p r).paket_buffer ≡ some buf
    → ((paket_decode p r).1 ≡ is_full p.total_pk p.current_pk)
      × ((paket_decode p r).0.paket_buffer
          ≡ some (memcpy ((p.current_pk - 1) * 50) (take p.data_len p.payload) buf))
unfolding paket_decode put
decode_held p r buf h =
    (ap (λ b. (put b p (fresh p r)).1) h, ap (λ b. (put b p (fresh p r)).0.paket_buffer) h)

pub is_full_lem : (n c : ℕ) → n ≤ 31 → c ≤ 31 → is_full n c ≡ (n == c)
unfolding agrees
is_full_lem n c a b = ground (
  arith,
  all_below_lem 32 (agrees n) c
      (all_below_lem 32 (λ t. all_below 32 (agrees t)) n agrees_below (omega arith)) (omega arith),
)

beyond : ℕ → Bool
beyond t = ltb t 32 || leb (2 ^ 32) (2 ^ t)

beyond_below : all_below 256 beyond ≡ true
unfolding beyond
beyond_below = refl

pub is_full_beyond : (n c : ℕ) → 32 ≤ n → n < 256 → is_full n c ≡ false
unfolding beyond
is_full_beyond n c a b =
    let big : 2 ^ 32 ≤ 2 ^ n = ground (arith, all_below_lem 256 beyond n beyond_below b) in
    let small : (2 ^ c) % 2 ^ 32 < 2 ^ 32 = omega arith in ground arith
