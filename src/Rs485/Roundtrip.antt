-- ===== src/Rs485/Roundtrip.antt =====
-- A message of at most 31 packets arrives as it was sent.
use n1cpu.Base.{
  sym, length, replicate, drop, take, ◌++◌, ap, ◌∷◌, ℕ, zero, suc, ◌+◌, ◌-◌, ◌*◌, ◌%◌, ◌≤◌, ◌<◌,
  Bool, true, false, some, List, [], ◌≡◌, refl, arith, ◌∙◌, if◌then◌else◌, ◌==◌, ltb, length-take,
  Bool-cases, inl, inr, ◌⊎◌, subst, length-append, Option-cases,
}
use n1cpu.Rs485.{
  Paket, Receiver, paket, pakets, pakets_from, paket_decode, decode_all, is_full, memcpy,
  paket_sayisi, fresh, put,
}
use n1cpu.Rs485.Buffers.{
  take_more, memcpy_lem, take_all, take_twice, decode_held, is_full_lem, is_full_beyond,
}

-- What the receiver holds after the packets before the index `i` of a message of `n` packets.
Holds : List ℕ → ℕ → ℕ → Receiver → Type 0
Holds message n i r =
    (i ≡ 0) ⊎ (r.paket_buffer ≡ some (take (i * 50) message ++ replicate (n * 50 + 2 - i * 50) 0))

-- The answers to `k` packets that end a message.
abbrev pub answers : ℕ → List Bool
answers zero = []
answers (suc zero) = true ∷ []
answers (suc (suc k)) = false ∷ answers (suc k)

-- The bytes in the packet of the index `i`.
part : List ℕ → ℕ → ℕ
part message i = if ltb (length message) (i * 50 + 50) then length message - i * 50 else 50

paket_lem :
    (message : List ℕ) (n i : ℕ)
    → length message ≤ 1550
    → i ≤ 31
    → i * 50 ≤ length message
    → paket message n i ≡ record {
      total_pk = n;
      current_pk = i + 1;
      data_len = part message i;
      payload = take (part message i) (drop (i * 50) message);
    }
unfolding paket part
paket_lem message n i a b c =
    let e1 : length message % 65536 ≡ length message = omega arith in
    let e2 : (i * 50) % 65536 ≡ i * 50 = omega arith in
    let e3 : (i + 1) % 256 ≡ i + 1 = omega arith in
    let e4 : (if ltb (length message) (i * 50 + 50) then (length message - i * 50) % 256 else 50)
        ≡ part message i =
      ground arith in
    rw (e1, e2, e3, e4) refl

part_lem :
    (message : List ℕ) (i : ℕ)
    → i * 50 ≤ length message
    → take (i * 50) message ++ take (part message i) (drop (i * 50) message)
      ≡ take ((i + 1) * 50) message
unfolding part
part_lem message i h =
    take_more (i * 50) (part message i) message
    ∙ elim (Bool-cases (ltb (length message) (i * 50 + 50))) [
      | inl e ↦
          take_all (i * 50 + part message i) message (ground arith)
          ∙ sym (take_all ((i + 1) * 50) message (ground arith))
      | inr e ↦
          let e' : i * 50 + part message i ≡ (i + 1) * 50 = ground arith in
          ap (λ j. take j message) e'
    ]

Holds_lem :
    (message : List ℕ) (n i : ℕ) (r : Receiver) (p : Paket)
    → Holds message n i r
    → p.current_pk ≡ i + 1
    → p.total_pk ≡ n
    → (fresh p r).paket_buffer ≡ some (take (i * 50) message ++ replicate (n * 50 + 2 - i * 50) 0)
unfolding Holds
Holds_lem message n i r p h c t = elim (h) [
  | inl z ↦
      subst
        (λ j.
          (fresh p r).paket_buffer
          ≡ some (take (j * 50) message ++ replicate (n * 50 + 2 - j * 50) 0))
        (sym z) (ground arith)
  | inr b ↦ elim (Bool-cases (p.current_pk == 1)) [
    | inl e ↦
        let z : i ≡ 0 = ground arith in
        subst
          (λ j.
            (fresh p r).paket_buffer
            ≡ some (take (j * 50) message ++ replicate (n * 50 + 2 - j * 50) 0))
          (sym z) (ground arith)
    | inr e ↦ ground arith
  ]
]

copied :
    (message : List ℕ) (n i : ℕ)
    → i * 50 ≤ length message
    → length message ≤ n * 50
    → memcpy
        (i * 50)
        (take (part message i) (drop (i * 50) message))
        (take (i * 50) message ++ replicate (n * 50 + 2 - i * 50) 0)
      ≡ take ((i + 1) * 50) message
        ++ replicate (n * 50 + 2 - length (take ((i + 1) * 50) message)) 0
copied message n i h a =
    let X = take (part message i) (drop (i * 50) message) in
    let P = take (i * 50) message in
    let m = n * 50 + 2 - i * 50 in
    let lp : length P ≡ i * 50 = omega (arith, length-take (i * 50) message) in
    let joined = part_lem message i h in
    let lx : length P + length X ≡ length (take ((i + 1) * 50) message) =
      sym (length-append P X) ∙ ap length joined in
    let count : m - length X ≡ n * 50 + 2 - length (take ((i + 1) * 50) message) = omega arith in
    subst (λ o. memcpy o X (P ++ replicate m 0) ≡ (P ++ X) ++ replicate (m - length X) 0) lp
      (memcpy_lem P X m)
    ∙ (ap (λ q. q ++ replicate (m - length X) 0) joined
        ∙ ap (λ k. take ((i + 1) * 50) message ++ replicate k 0) count)

decode_step :
    (message : List ℕ) (n i : ℕ) (r : Receiver)
    → length message ≤ n * 50
    → n * 50 < length message + 50
    → n ≤ 31
    → i < n
    → Holds message n i r
    → ((paket_decode (paket message n i) r).1 ≡ (n == i + 1))
      × ((paket_decode (paket message n i) r).0.paket_buffer
          ≡ some (
              take ((i + 1) * 50) message
              ++ replicate (n * 50 + 2 - length (take ((i + 1) * 50) message)) 0))
unfolding Holds paket paket_decode
decode_step message n i r a b c l h =
    let size = length message in
    let small : i * 50 ≤ size = omega arith in
    let p = paket message n i in
    let e = paket_lem message n i (omega arith) (omega arith) small in
    let held = Holds_lem message n i r p h (ap (λ q. q.current_pk) e) (ap (λ q. q.total_pk) e) in
    let (full, got) =
      decode_held p r (take (i * 50) message ++ replicate (n * 50 + 2 - i * 50) 0) held in
    let back : i + 1 - 1 ≡ i = omega arith in
    (
      full ∙ (ap (λ q. is_full q.total_pk q.current_pk) e ∙ is_full_lem n (i + 1) c (omega arith)),
      got
          ∙ ap (some) (
              ap
                (λ q.
                  memcpy ((q.current_pk - 1) * 50) (take q.data_len q.payload)
                    (take (i * 50) message ++ replicate (n * 50 + 2 - i * 50) 0))
                e
              ∙ (rw (back, take_twice (part message i) (drop (i * 50) message))
                  (copied message n i small a))),
    )

decode_run :
    (message : List ℕ) (n k i : ℕ) (r : Receiver)
    → length message ≤ n * 50
    → n * 50 < length message + 50
    → n ≤ 31
    → i + suc k ≡ n
    → Holds message n i r
    → let (r', fulls) = decode_all (pakets_from message n (suc k) i) r in
      (fulls ≡ answers (suc k))
      × (r'.paket_buffer ≡ some (message ++ replicate (n * 50 + 2 - length message) 0))
unfolding Holds decode_all pakets_from
decode_run message n zero i r a b c l h =
    let step = decode_step message n i r a b c (omega arith) h in
    let last : (n == i + 1) ≡ true = ground arith in
    let all = take_all ((i + 1) * 50) message (omega arith) in
    (
      ap (λ q. q ∷ []) (step.0 ∙ last),
      step.1 ∙ ap (λ q. some (q ++ replicate (n * 50 + 2 - length q) 0)) all,
    )
decode_run message n (suc k) i r a b c l h =
    let (r1, full) = paket_decode (paket message n i) r in
    let step = decode_step message n i r a b c (omega arith) h in
    let more : (n == i + 1) ≡ false = ground arith in
    let reached : length (take ((i + 1) * 50) message) ≡ (i + 1) * 50 =
      omega (arith, length-take ((i + 1) * 50) message) in
    let held =
      step.1
      ∙ ap (λ j. some (take ((i + 1) * 50) message ++ replicate (n * 50 + 2 - j) 0)) reached in
    let (fulls, got) = decode_run message n k (i + 1) r1 a b c (omega arith) (inr held) in
    (
      ap (λ q. q ∷ (decode_all (pakets_from message n (suc k) (i + 1)) r1).1) (step.0 ∙ more)
          ∙ ap (λ q. false ∷ q) fulls,
      got,
    )

length-pakets_from : (message : List ℕ) (n k i : ℕ) → length (pakets_from message n k i) ≡ k
unfolding pakets_from
length-pakets_from message n zero i = refl
length-pakets_from message n (suc k) i = ap suc (length-pakets_from message n k (i + 1))

decode_start :
    (message : List ℕ) (n k : ℕ) (r : Receiver)
    → k ≡ n
    → 0 < n
    → length message ≤ n * 50
    → n * 50 < length message + 50
    → n ≤ 31
    → let (r', fulls) = decode_all (pakets_from message n k 0) r in
      (fulls ≡ answers k)
      × (r'.paket_buffer ≡ some (message ++ replicate (n * 50 + 2 - length message) 0))
unfolding Holds
decode_start message n zero r e h a b c = ground arith
decode_start message n (suc k) r e h a b c =
    decode_run message n k 0 r a b c (omega arith) (inl refl)

bounds :
    (size : ℕ)
    → 0 < size
    → size ≤ 1550
    → (0 < paket_sayisi size)
      × (size ≤ paket_sayisi size * 50)
      × (paket_sayisi size * 50 < size + 50)
      × (paket_sayisi size ≤ 31)
bounds size h l = elim (Bool-cases (size % 50 == 0)) [ inl e ↦ ground arith | inr e ↦ ground arith ]

-- The number of packets, without the wrap-around.
count_lem :
    (size : ℕ)
    → 0 < size
    → size ≤ 1550
    → let n = paket_sayisi (size % 65536) in
      (0 < n) × (size ≤ n * 50) × (n * 50 < size + 50) × (n ≤ 31)
count_lem size h l = let e : size % 65536 ≡ size = omega arith in rw e (bounds size h l)

pub length-pakets :
    (message : List ℕ) → 0 < length message → length message ≤ 1550 → 0 < length (pakets message)
unfolding pakets
length-pakets message h l =
    let n = paket_sayisi (length message % 65536) in
    subst (λ k. 0 < k) (sym (length-pakets_from message n n 0)) (count_lem (length message) h l).0

-- A message of at least one byte and at most 31 packets, that is 1550 bytes, is cut into packets that
-- a receiver, whatever it holds before, puts together: the last packet, and none before it, completes
-- the message, and the buffer then holds its bytes, with zeros after them.
pub decode_all-pakets :
    (message : List ℕ) (r : Receiver)
    → 0 < length message
    → length message ≤ 1550
    → let (r', fulls) = decode_all (pakets message) r in
      (fulls ≡ answers (length (pakets message)))
      × ((z : ℕ) × (0 < z) × (r'.paket_buffer ≡ some (message ++ replicate z 0)))
unfolding pakets
decode_all-pakets message r h l =
    let n = paket_sayisi (length message % 65536) in
    let (some_one, enough, tight, few) = count_lem (length message) h l in
    let (fulls, got) = decode_start message n n r refl some_one enough tight few in
    (
      fulls ∙ ap answers (sym (length-pakets_from message n n 0)),
      (n * 50 + 2 - length message, omega arith, got),
    )

-- No packet of a message of 32 packets or more completes it, whatever the receiver holds.
pub paket_decode_long :
    (p : Paket) (r : Receiver) → 32 ≤ p.total_pk → p.total_pk < 256 → (paket_decode p r).1 ≡ false
unfolding paket_decode put
paket_decode_long p r a b = elim (Option-cases (fresh p r).paket_buffer) [
  | inl e ↦ ap (λ b'. (put b' p (fresh p r)).1) e
  | inr (buf, e) ↦ (decode_held p r buf e).0 ∙ is_full_beyond p.total_pk p.current_pk a b
]
