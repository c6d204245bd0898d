-- ===== src/EspNow/Roundtrip.antt =====
-- A message that is cut into packets arrives as it was sent, whatever other senders' packets come between.
use n1cpu.Base.{
  ℕ, zero, suc, ◌+◌, ◌-◌, ◌*◌, ◌%◌, ◌≤◌, ◌<◌, true, false, ◌&&◌, ◌==◌, ltb, Option, none, some,
  List, [], ◌∷◌, ◌++◌, length, take, drop, replicate, ◌≡◌, ◌≢◌, refl, ap, sym, ◌∙◌, arith,
  if◌then◌else◌, Bool-cases, inl, inr, subst, length-take, length-append,
}
use n1cpu.Rs485.{memcpy}
use n1cpu.Rs485.Buffers.{take_more, memcpy_lem, take_all, is_full_lem}
use n1cpu.EspNow.{
  sound, Data, Place, Radio, Delivered, data_broadcast, data_unicast, place_of, filled, full, call,
  run, is_normal, copied,
}
use n1cpu.EspNow.Apart.{heard_from, of_sender, place_for, alone, Numbered, Unique, run_apart}
use n1cpu.EspNow.Send.{data_prepare, pakets_from, data_pakets, paket_sayisi}

-- The packets that the task puts into a place of the sender `b`.
abbrev pub pakets_of : ℕ → List Data → List Data
pakets_of b [] = []
pakets_of b (p ∷ ps) =
    if is_normal p.type && p.sender == b then p ∷ pakets_of b ps else pakets_of b ps

heard_from-pakets_of :
    (b : ℕ) (ps : List Data) (o : Option Place) (log : List Delivered)
    → heard_from b ps o log ≡ heard_from b (pakets_of b ps) o log
heard_from-pakets_of b [] o log = refl
heard_from-pakets_of b (p ∷ ps) o log = elim (Bool-cases (is_normal p.type && p.sender == b)) [
  | inl e ↦
      ground (arith, heard_from-pakets_of b ps (alone p o) (call p (some (place_for p o)) ++ log))
  | inr e ↦ ground (arith, heard_from-pakets_of b ps o log)
]

-- The bytes from the position `at` on that a packet holds.
part : List ℕ → ℕ → ℕ
part message at = if ltb (length message) (at + 190) then length message - at else 190

part_lem :
    (message : List ℕ) (at : ℕ)
    → at ≤ length message
    → take at message ++ take (part message at) (drop at message) ≡ take (at + 190) message
unfolding part
part_lem message at h =
    take_more at (part message at) message ∙ elim (Bool-cases (ltb (length message) (at + 190))) [
      | inl e ↦
          take_all (at + part message at) message (ground arith)
          ∙ sym (take_all (at + 190) message (ground arith))
      | inr e ↦
          let e' : at + part message at ≡ at + 190 = ground arith in ap (λ j. take j message) e'
    ]

-- What the buffer holds of a message after its first `at` bytes.
abbrev buffer_at : List ℕ → ℕ → List ℕ
buffer_at message at =
    take at message ++ replicate (length message + 2 - length (take at message)) 0

copied_lem :
    (message : List ℕ) (at : ℕ)
    → at ≤ length message
    → memcpy at (take (part message at) (drop at message)) (buffer_at message at)
      ≡ buffer_at message (at + 190)
copied_lem message at h =
    let X = take (part message at) (drop at message) in
    let P = take at message in
    let m = length message + 2 - length P in
    let lp : length P ≡ at = omega (arith, length-take at message) in
    let joined = part_lem message at h in
    let lx : length P + length X ≡ length (take (at + 190) message) =
      sym (length-append P X) ∙ ap length joined in
    let count : m - length X ≡ length message + 2 - length (take (at + 190) message) =
      omega arith in
    subst (λ o. memcpy o X (P ++ replicate m 0) ≡ (P ++ X) ++ replicate (m - length X) 0) lp
      (memcpy_lem P X m)
    ∙ (ap (λ q. q ++ replicate (m - length X) 0) joined
        ∙ ap (λ k. take (at + 190) message ++ replicate k 0) count)

-- A packet of a message: what `data_prepare` makes, without the wrap-arounds.
abbrev packet : ℕ → ℕ → List ℕ → ℕ → ℕ → Data
packet b id message n w = record {
  type = if id == 255 then data_broadcast else data_unicast;
  sender = b;
  receiver = id;
  total_pk = n;
  current_pk = w + 1;
  total_len = length message;
  payload = take (part message (w * 190)) (drop (w * 190) message);
}

data_prepare_lem :
    (b id : ℕ) (message : List ℕ) (w : ℕ)
    → length message ≤ 5890
    → w ≤ 31
    → w * 190 ≤ length message
    → data_prepare b id message w ≡ packet b id message (paket_sayisi (length message)) w
unfolding data_prepare part
data_prepare_lem b id message w a c h =
    let e1 : length message % 65536 ≡ length message = omega arith in
    let e2 : (w * 190) % 65536 ≡ w * 190 = omega arith in
    let e3 : (w + 1) % 256 ≡ w + 1 = omega arith in
    let e4 : (if ltb (length message) (w * 190 + 190)
          then (length message - w * 190) % 256
          else 190)
        ≡ part message (w * 190) =
      ground arith in
    rw (e1, e2, e3, e4) refl

module _ (b id : ℕ) (message : List ℕ) (n : ℕ) where
  abbrev nth : ℕ → Data
  nth w = packet b id message n w

  filled_lem :
      (w : ℕ) (s : Place)
      → w * 190 ≤ length message
      → s.buffer ≡ some (buffer_at message (w * 190))
      → (filled (nth w) s).buffer ≡ some (buffer_at message ((w + 1) * 190))
  filled_lem w s h e =
      let back : w + 1 - 1 ≡ w = omega arith in
      let on : w * 190 + 190 ≡ (w + 1) * 190 = omega arith in
      ap (copied (nth w)) e
      ∙ ap some (
          ap (λ j. memcpy (j * 190) (nth w).payload (buffer_at message (w * 190))) back
          ∙ (copied_lem message (w * 190) h ∙ ap (buffer_at message) on))

  normal : (w : ℕ) → (is_normal (nth w).type && (nth w).sender == b) ≡ true
  normal w = elim (Bool-cases (id == 255)) [ inl e ↦ ground (arith, e) | inr e ↦ ground (arith, e) ]

  -- The call with the whole message.
  abbrev pub told : Delivered
  told = record { broadcast = id == 255; text = some (message ++ (0 ∷ 0 ∷ [])); from = b }

  packets : ℕ → ℕ → List Data
  packets zero w = []
  packets (suc k) w = nth w ∷ packets k (w + 1)

  heard_packets :
      (k w : ℕ) (o : Option Place) (log : List Delivered)
      → length message ≤ n * 190
      → n * 190 < length message + 190
      → n ≤ 31
      → w + suc k ≡ n
      → (place_for (nth w) o).buffer ≡ some (buffer_at message (w * 190))
      → heard_from b (packets (suc k) w) o log ≡ told ∷ log
  unfolding packets
  heard_packets zero w o log x y z l h =
      let last : full (nth w) ≡ true = ground (arith, is_full_lem n (w + 1) z (omega arith)) in
      let got = filled_lem w (place_for (nth w) o) (omega arith) h in
      let whole : take ((w + 1) * 190) message ≡ message =
        take_all ((w + 1) * 190) message (omega arith) in
      let two : length message + 2 - length message ≡ 2 = omega arith in
      let text : buffer_at message ((w + 1) * 190) ≡ message ++ (0 ∷ 0 ∷ []) =
        ap (λ q. q ++ replicate (length message + 2 - length q) 0) whole
        ∙ ap (λ j. message ++ replicate j 0) two in
      ground (arith, last, normal w, got ∙ ap some text)
  heard_packets (suc k) w o log x y z l h =
      let more : full (nth w) ≡ false = ground (arith, is_full_lem n (w + 1) z (omega arith)) in
      let s = filled (nth w) (place_for (nth w) o) in
      let got = filled_lem w (place_for (nth w) o) (omega arith) h in
      let rest = heard_packets k (w + 1) (some s) log x y z (omega arith) got in
      ground (arith, more, normal w, rest)

  pakets_from_lem :
      (k w : ℕ)
      → n ≡ paket_sayisi (length message)
      → length message ≤ 5890
      → n * 190 < length message + 190
      → n ≤ 31
      → w + k ≡ n
      → pakets_from b id message k w ≡ packets k w
  unfolding packets pakets_from
  pakets_from_lem zero w e x y z l = refl
  pakets_from_lem (suc k) w e x y z l =
      ap (λ p. p ∷ pakets_from b id message k (w + 1))
        (data_prepare_lem b id message w x (omega arith) (omega arith)
          ∙ ap (λ m. packet b id message m w) (sym e))
      ∙ ap (λ ps. nth w ∷ ps) (pakets_from_lem k (w + 1) e x y z (omega arith))

bounds :
    (size : ℕ)
    → 0 < size
    → size ≤ 5890
    → let n = paket_sayisi size in (0 < n) × (size ≤ n * 190) × (n * 190 < size + 190) × (n ≤ 31)
bounds size h l = elim (Bool-cases (size % 190 == 0)) [
  | inl e ↦ ground arith
  | inr e ↦ ground arith
]

heard_message :
    (b id : ℕ) (message : List ℕ) (log : List Delivered)
    → 0 < length message
    → length message ≤ 5890
    → heard_from b (data_pakets b id message) none log
      ≡ told b id message (paket_sayisi (length message)) ∷ log
unfolding data_pakets
heard_message b id message log h l =
    let n = paket_sayisi (length message) in
    let (some_one, enough, tight, few) = bounds (length message) h l in
    let k = n - 1 in
    let all : suc k ≡ n = omega arith in
    let small : length message % 65536 ≡ length message = omega arith in
    let start : length message + 2 ≡ length message + 2 - 0 = omega arith in
    ap (λ j. heard_from b (pakets_from b id message (paket_sayisi j) 0) none log) small
    ∙ (ap (λ ps. heard_from b ps none log)
          (pakets_from_lem b id message n n 0 refl l tight few (omega arith)
            ∙ ap (λ j. packets b id message n j 0) (sym all))
        ∙ heard_packets b id message n k 0 none log enough tight few (omega arith)
            (ap (λ j. some (replicate j 0)) start))

-- If the packets that a sender without a place sends are, in their order, those of a message of 1 to 5890
-- bytes, and packets of any other senders come in between, none of them with the number 0, and if the task
-- runs on and no packet is copied outside its buffer, then one call is made for that sender: with the bytes of
-- the message and two zeros, as a broadcast if it is sent to 255.
pub message_arrives :
    (b id : ℕ) (message : List ℕ) (ps : List Data) (r : Radio)
    → b ≢ 0
    → 0 < length message
    → length message ≤ 5890
    → Numbered ps
    → Unique r.paket
    → place_of b r.paket ≡ none
    → pakets_of b ps ≡ data_pakets b id message
    → sound (run ps r) ≡ true
    → of_sender b (run ps r).delivered
      ≡ record { broadcast = id == 255; text = some (message ++ (0 ∷ 0 ∷ [])); from = b }
        ∷ of_sender b r.delivered
message_arrives b id message ps r y h l num u free same go =
    let log = of_sender b r.delivered in
    run_apart b ps r y num u go
    ∙ (heard_from-pakets_of b ps (place_of b r.paket) log
        ∙ (ap (λ o. heard_from b (pakets_of b ps) o log) free
            ∙ (ap (λ qs. heard_from b qs none log) same ∙ heard_message b id message log h l)))
