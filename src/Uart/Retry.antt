-- ===== src/Uart/Retry.antt =====
-- What the result of `Sender` says of the acknowledgements, and when a message gets through.
use n1cpu.Base.{
  ℕ, ◌+◌, Bool, true, false, ◌&&◌, ◌||◌, ◌==◌, some, List, [], ◌∷◌, ◌≡◌, refl, arith, length,
  if◌then◌else◌,
}
use n1cpu.Rs485.{Paket, pakets}
use n1cpu.Rs485.Sender.{Return, ret_ok, Line}
use n1cpu.Uart.{Sending, send_loop, send_pakets, sender}

abbrev pub is_ok : Return → Bool
is_ok ret_ok = true
is_ok _ = false

-- The write of the number `k` is taken whole and acknowledged.
abbrev gets_through : Line → ℕ → Bool
gets_through line k = line.written k && line.acked k

-- Is there an acknowledged write of the packet `j`?
abbrev heard : ℕ → List (ℕ × Bool) → Bool
heard j [] = false
heard j ((i, ok) ∷ log) = (i == j && ok) || heard j log

abbrev pub all_heard : List Paket → List (ℕ × Bool) → Bool
all_heard [] log = true
all_heard (p ∷ ps) log = heard p.current_pk log && all_heard ps log

module _ (line : Line) where
  wrote : Paket → Sending → Sending
  wrote p s = record s { log = (p.current_pk, gets_through line (length s.log)) ∷ s.log }

  -- The outcome of one packet.
  tried : Paket → Sending → Sending
  unfolding wrote
  tried p s =
      let k = length s.log in
      let s3 = wrote p (wrote p (wrote p s)) in
      if gets_through line k
      then wrote p s
      else if gets_through line (k + 1)
      then wrote p (wrote p s)
      else if gets_through line (k + 2)
      then s3
      else record (wrote p s3) { send_paket_error = true }

  send_loop_lem : (p : Paket) (s : Sending) → send_loop line 4 0 p s ≡ some (tried p s)
  unfolding send_loop tried wrote
  send_loop_lem p s = ground arith

module _ (line : Line) where
  tried_fine :
      (p : Paket) (s : Sending)
      → (gets_through line (length s.log)
          || gets_through line (length s.log + 1)
          || gets_through line (length s.log + 2))
        ≡ true
      → s.send_paket_error ≡ false
      → (tried line p s).send_paket_error ≡ false
  unfolding tried wrote
  tried_fine p s h e = ground arith

  send_pakets_reach :
      (ps : List Paket) (s : Sending)
      → ((k : ℕ)
          → (gets_through line k || gets_through line (k + 1) || gets_through line (k + 2)) ≡ true)
      → s.send_paket_error ≡ false
      → (s' : Sending) × (send_pakets line ps s ≡ some s') × (s'.send_paket_error ≡ false)
  unfolding send_pakets
  send_pakets_reach [] s h e = (s, refl, e)
  send_pakets_reach (p ∷ ps) s h e =
      let fine = tried_fine p s (h (length s.log)) e in
      let (s', g, f) = send_pakets_reach ps (tried line p s) h fine in
      (s', ground (arith, send_loop_lem line p s, fine, g), f)

-- If of any three writes in a row one is taken and acknowledged, every message is sent with RET_OK.
pub sender_reaches :
    (line : Line) (in_time : Bool) (message : List ℕ)
    → ((k : ℕ)
        → (gets_through line k || gets_through line (k + 1) || gets_through line (k + 2)) ≡ true)
    → (log : List (ℕ × Bool)) × (sender line in_time false message ≡ some (ret_ok, log))
unfolding sender
sender_reaches line in_time message h =
    let (s, e, f) =
      send_pakets_reach line (pakets message) (record { send_paket_error = false; log = [] }) h
        refl in
    (s.log, ground (arith, e, f))
