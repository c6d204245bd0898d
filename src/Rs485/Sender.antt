-- ===== src/Rs485/Sender.antt =====
-- components/home/library/rs485/rs485.cpp: the writing of a packet with its repetitions, and
-- `Sender`, which hands a message to the sender task and waits for it. How the line behaves is an
-- input. That `_Sender` waits for at most two seconds is left out.
pub mod Outcome
use n1cpu.Base.{
  ℕ, zero, suc, ◌+◌, Bool, true, false, not, ◌&&◌, Option, none, some, List, [], ◌∷◌, ◌==◌, ltb,
  length, if◌then◌else◌,
}
use n1cpu.Rs485.{Paket, pakets}

-- `return_type_t`.
pub data Return : Type 0 where
  ret_ok ret_no_ack ret_timeout ret_collesion ret_no_client ret_hardware_error : Return
  ret_busy ret_response : Return

-- For the number of a write: does the driver take all its bytes, and does an acknowledgement come
-- within a second?
pub record Line : Type 0 where
  pub written : ℕ → Bool
  pub acked : ℕ → Bool

-- The member `send_paket_error`, and the numbers of the packets that were written, newest first.
pub record Sending : Type 0 where
  pub send_paket_error : Bool
  pub log : List ℕ

-- The end of a turn of the loop: after the fourth one the error is set.
abbrev give_up : Bool → Sending → Sending
give_up fourth s = if fourth then record s { send_paket_error = true } else s

-- The loop `while(sended)` for one packet, on fuel; `wants` tells that the packet is no broadcast.
-- Without an acknowledgement the loop is left by `break`.
unfoldable pub send_loop : Line → Bool → ℕ → ℕ → Paket → Sending → Option Sending
send_loop line wants zero send_counter p s = none
send_loop line wants (suc n) send_counter p s =
    let k = length s.log in
    let fourth = ltb 3 (send_counter + 1) in
    let s' = record s { log = p.current_pk ∷ s.log } in
    let rest = send_loop line wants n (send_counter + 1) p s' in
    if not (line.written k)
    then (if fourth then some (give_up fourth s') else rest)
    else if wants && not (line.acked k)
    then some s'
    else some (give_up fourth s')

-- Four turns for each packet.
unfoldable pub send_paket : Line → Bool → Paket → Sending → Option Sending
send_paket line wants p s = send_loop line wants 4 0 p s

unfoldable pub send_pakets : Line → Bool → List Paket → Sending → Option Sending
send_pakets line wants [] s = some s
send_pakets line wants (p ∷ ps) s = elim (send_paket line wants p s) [
  | none ↦ none
  | some s' ↦ send_pakets line wants ps s'
]

-- `_Sender`.
abbrev pub outcome : Sending → Return
outcome s = if s.send_paket_error then ret_hardware_error else ret_ok

-- `Sender`, with the numbers of the packets written; `none` if the loop were not to end.
unfoldable pub sender : Line → Bool → ℕ → List ℕ → Option (Return × List ℕ)
sender line busy receiver message =
    let start : Sending = record { send_paket_error = false; log = [] } in
    let sent = send_pakets line (not (receiver == 255)) (pakets message) start in
    if busy
    then some (ret_busy, [])
    else elim sent [ none ↦ none | some s ↦ some (outcome s, s.log) ]

-- `ping`: was the request written, and did a PONG come within a second?
abbrev ping : Bool → Bool → Bool
ping written pong = written && pong
