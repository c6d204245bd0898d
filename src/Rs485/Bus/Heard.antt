-- ===== src/Rs485/Bus/Heard.antt =====
-- A message on the line, from the sender's packets to the callbacks of the devices that hear it.
use n1cpu.Base.{
  ℕ, suc, ◌%◌, ◌≤◌, ◌<◌, Bool, true, false, ◌&&◌, ◌||◌, ◌==◌, Option, some, List, [], ◌∷◌, ◌++◌,
  map, length, replicate, ◌≡◌, refl, ap, sym, ◌∙◌, arith, if◌then◌else◌, Bool-cases, inl, inr,
}
use n1cpu.Rs485.{Paket, paket_decode, decode_all, pakets}
use n1cpu.Rs485.Roundtrip.{answers, decode_all-pakets, length-pakets}
use n1cpu.Rs485.Bus.{
  Frame, Delivery, Node, paket_normal, rs485_broadcast, on_pattern, call_back, frames, hear,
  is_whole,
}

-- Is the frame for the device, or for all?
abbrev for_it : ℕ → Node → Bool
for_it to n = to == n.device_id || to == rs485_broadcast

abbrev listens : ℕ → Node → Bool
listens to n = if to == rs485_broadcast then n.has_broadcast_callback else n.has_callback

abbrev framed : ℕ → ℕ → ℕ → Paket → Frame
framed me to counter p = record {
  sender = me;
  receiver = to;
  paket_type = paket_normal;
  id = counter % 256;
  paket = p;
}

abbrev pub called : ℕ → ℕ → Option (List ℕ) → Delivery
called me to text = record { broadcast = to == rs485_broadcast; text = text; from = me }

-- What the device is after the frames.
abbrev taken : List Frame → Node → Node
taken [] n = n
taken (f ∷ fs) n = taken fs (on_pattern f n)

abbrev pub all_whole : (Frame → List ℕ) → List Frame → Bool
all_whole header [] = true
all_whole header (f ∷ fs) = is_whole header f && all_whole header fs

hear_lem :
    (header : Frame → List ℕ) (fs : List Frame) (n : Node)
    → all_whole header fs ≡ true
    → hear header fs n ≡ some (taken fs n)
unfolding hear
hear_lem header [] n h = refl
hear_lem header (f ∷ fs) n h = elim (Bool-cases (is_whole header f)) [
  | inl e ↦ ground (arith, e, hear_lem header fs (on_pattern f n))
  | inr e ↦ absurd (ground (arith, e))
]

module _ (me to counter : ℕ) where
  -- One frame for a device that listens.
  frame_lem :
      (p : Paket) (n : Node)
      → for_it to n ≡ true
      → listens to n ≡ true
      → let n' = on_pattern (framed me to counter p) n in
        let (r, full) = paket_decode p n.receiver in
        (n'.receiver ≡ r)
        × (n'.delivered ≡ (if full then called me to r.paket_buffer ∷ n.delivered else n.delivered))
        × (n'.device_id ≡ n.device_id)
        × (listens to n' ≡ true)
  unfolding on_pattern call_back
  frame_lem p n f l = ground arith

  frames_lem :
      (p : Paket) (ps : List Paket) (n : Node)
      → for_it to n ≡ true
      → listens to n ≡ true
      → (decode_all (p ∷ ps) n.receiver).1 ≡ answers (suc (length ps))
      → (taken (map (framed me to counter) (p ∷ ps)) n).delivered
        ≡ called me to (decode_all (p ∷ ps) n.receiver).0.paket_buffer ∷ n.delivered
  unfolding decode_all
  frames_lem p [] n f l h = ground (arith, frame_lem p n f l)
  frames_lem p (q ∷ ps) n f l h =
      let n' = on_pattern (framed me to counter p) n in
      let g = frame_lem p n f l in
      let r = (paket_decode p n.receiver).0 in
      let more : (paket_decode p n.receiver).1 ≡ false = ground (arith, h) in
      let rest : (decode_all (q ∷ ps) r).1 ≡ answers (suc (length ps)) = ground (arith, h) in
      let rest' : (decode_all (q ∷ ps) n'.receiver).1 ≡ answers (suc (length ps)) =
        ap (λ x. (decode_all (q ∷ ps) x).1) g.0 ∙ rest in
      let i = frames_lem q ps n' (ap (λ d. to == d || to == rs485_broadcast) g.2 ∙ f) g.3 rest' in
      let same : n'.delivered ≡ n.delivered = ground (arith, g.1, more) in
      i
      ∙ (ap (λ x. called me to (decode_all (q ∷ ps) x).0.paket_buffer ∷ n'.delivered) g.0
          ∙ ap (λ ds. called me to (decode_all (q ∷ ps) r).0.paket_buffer ∷ ds) same)

  -- A frame for another device.
  other_lem :
      (p : Paket) (n : Node) → for_it to n ≡ false → on_pattern (framed me to counter p) n ≡ n
  unfolding on_pattern
  other_lem p n f = ground arith

  others_lem :
      (ps : List Paket) (n : Node)
      → for_it to n ≡ false
      → taken (map (framed me to counter) ps) n ≡ n
  others_lem [] n f = refl
  others_lem (p ∷ ps) n f = ground (arith, other_lem p n f, others_lem ps n f)

  -- A list of packets that complete one message.
  heard :
      (ps : List Paket) (n : Node)
      → 0 < length ps
      → for_it to n ≡ true
      → listens to n ≡ true
      → (decode_all ps n.receiver).1 ≡ answers (length ps)
      → (taken (map (framed me to counter) ps) n).delivered
        ≡ called me to (decode_all ps n.receiver).0.paket_buffer ∷ n.delivered
  heard [] n z f l h = absurd (ground arith)
  heard (p ∷ ps) n z f l h = frames_lem p ps n f l h

-- A message of at least one byte and at most 31 packets, sent by `me` to the number `to`, in none of whose
-- frames `##` stands before the end, and heard as a whole by a device that has a callback for it: if the number
-- is the device's or that of a broadcast, its callback, or for a broadcast the one for broadcasts, is called
-- once, with the message, zeros after it, and the sender; otherwise the device calls nothing.
pub message_heard :
    (header : Frame → List ℕ) (me to counter : ℕ) (message : List ℕ) (n : Node)
    → 0 < length message
    → length message ≤ 1550
    → listens to n ≡ true
    → all_whole header (frames me to counter message) ≡ true
    → (n' : Node) × (z : ℕ) × (hear header (frames me to counter message) n ≡ some n')
      × (n'.delivered ≡ (
          if for_it to n
          then called me to (some (message ++ replicate z 0)) ∷ n.delivered
          else n.delivered))
      × (0 < z)
unfolding frames
message_heard header me to counter message n h b l w =
    let fs = frames me to counter message in
    let (fulls, (z, more, got)) = decode_all-pakets message n.receiver h b in
    let text = called me to (some (message ++ replicate z 0)) ∷ n.delivered in
    let back =
      λ (b : Bool) (e : for_it to n ≡ b). sym (ap (λ q. if q then text else n.delivered) e) in
    elim (Bool-cases (for_it to n)) [
      | inl f ↦ (
        taken fs n,
        z,
        hear_lem header fs n w,
        heard me to counter (pakets message) n (length-pakets message h b) f l fulls
            ∙ (ap (λ t. called me to t ∷ n.delivered) got ∙ back true f),
        more,
      )
      | inr f ↦ (
        taken fs n,
        z,
        hear_lem header fs n w,
        ap (λ m. m.delivered) (others_lem me to counter (pakets message) n f) ∙ back false f,
        more,
      )
    ]
