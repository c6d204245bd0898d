-- ===== src/Rs485/Sender/Outcome.antt =====
-- The sender ends, and what it says.
use n1cpu.Base.{
  Bool-cases, inl, inr, Option-cases, ℕ, zero, suc, ◌+◌, ◌*◌, ◌≤◌, Bool, true, false, not, Option,
  none, some, List, [], ◌∷◌, ◌==◌, ◌≡◌, ltb, length, arith, refl,
}
use n1cpu.Rs485.{Paket, pakets}
use n1cpu.Rs485.Sender.{
  Return, ret_ok, ret_busy, Line, Sending, send_loop, send_paket, send_pakets, sender, outcome,
}

-- A result with at most `b` writes in all.
abbrev Within : ℕ → Option Sending → Type 0
Within b none = true ≡ false
Within b (some s') = length s'.log ≤ b

module _ (line : Line) (wants : Bool) where
  send_loop-Within :
      (n c : ℕ) (p : Paket) (s : Sending)
      → 4 ≤ n + c
      → c ≤ 3
      → Within (length s.log + n) (send_loop line wants n c p s)
  unfolding send_loop
  send_loop-Within zero c p s h l = absurd (omega arith)
  send_loop-Within (suc n) c p s h l =
      let s' : Sending = record s { log = p.current_pk ∷ s.log } in
      elim (Bool-cases (ltb 3 (c + 1))) [
        | inl e ↦ ground arith
        | inr e ↦ ground (arith, send_loop-Within n (c + 1) p s' (omega arith) (ground arith))
      ]

  send_paket-Within :
      (p : Paket) (s : Sending) → Within (length s.log + 4) (send_paket line wants p s)
  unfolding send_paket
  send_paket-Within p s = send_loop-Within 4 0 p s (omega arith) (omega arith)

  send_pakets_ends :
      (ps : List Paket) (s : Sending)
      → (s' : Sending) × (send_pakets line wants ps s ≡ some s')
        × (length s'.log ≤ length s.log + length ps * 4)
  unfolding send_pakets
  send_pakets_ends [] s = (s, refl, omega arith)
  send_pakets_ends (p ∷ ps) s = elim (Option-cases (send_paket line wants p s)) [
    | inl e ↦ absurd (ground (arith, send_paket-Within p s, e))
    | inr (s1, e) ↦
        let (s', f, l) = send_pakets_ends ps s1 in
        (s', ground (arith, e, f), ground (arith, send_paket-Within p s, e, l))
  ]

-- Whatever the line does, `Sender` returns, after at most four writes for each packet of the message.
pub sender_ends :
    (line : Line) (busy : Bool) (receiver : ℕ) (message : List ℕ)
    → (ret : Return) × (log : List ℕ) × (sender line busy receiver message ≡ some (ret, log))
      × (length log ≤ length (pakets message) * 4)
unfolding sender
sender_ends line true receiver message = (ret_busy, [], refl, omega arith)
sender_ends line false receiver message =
    let (s, e, l) =
      send_pakets_ends line (not (receiver == 255)) (pakets message)
        (record { send_paket_error = false; log = [] }) in
    (outcome s, s.log, ground (arith, e), omega (arith, l))

-- The packets' numbers, put before `log` one after the other.
abbrev pub each_once : List Paket → List ℕ → List ℕ
each_once [] log = log
each_once (p ∷ ps) log = each_once ps (p.current_pk ∷ log)

module _ (line : Line) (wants : Bool) where
  send_paket_once :
      (p : Paket) (s : Sending)
      → ((k : ℕ) → line.written k ≡ true)
      → send_paket line wants p s ≡ some (record s { log = p.current_pk ∷ s.log })
  unfolding send_paket send_loop
  send_paket_once p s h = ground (arith, h (length s.log))

  send_pakets_once :
      (ps : List Paket) (s : Sending)
      → ((k : ℕ) → line.written k ≡ true)
      → send_pakets line wants ps s ≡ some (record s { log = each_once ps s.log })
  unfolding send_pakets
  send_pakets_once [] s h = refl
  send_pakets_once (p ∷ ps) s h = ground (
    arith,
    send_paket_once p s h,
    send_pakets_once ps (record s { log = p.current_pk ∷ s.log }) h,
  )

-- If the driver takes every byte, `Sender` on a line that is not busy writes every packet of the message
-- exactly once, in order, and says that all is well, whether any packet is acknowledged or not.
pub sender_deaf :
    (line : Line) (receiver : ℕ) (message : List ℕ)
    → ((k : ℕ) → line.written k ≡ true)
    → sender line false receiver message ≡ some (ret_ok, each_once (pakets message) [])
unfolding sender
sender_deaf line receiver message h = ground (
  arith,
  send_pakets_once line (not (receiver == 255)) (pakets message)
      (record { send_paket_error = false; log = [] }) h,
)
