-- ===== src/Uart.antt =====
-- components/home/library/uart/uart.cpp: the line to CPU1. Messages are cut into packets as those of
-- rs485.cpp are, whose text the code repeats; an acknowledgement is a pulse on a pin. How the line
-- behaves is an input, and so is whether a message is done in the two seconds that `_Sender` waits for. That a
-- device waits for its callback for at most one second is left out.
pub mod Retry
pub mod Watch
pub mod Pings
pub mod Events
use n1cpu.Base.{
  ℕ, zero, suc, ◌+◌, ◌-◌, ◌*◌, ◌^◌, ◌%◌, Bool, true, false, not, ◌&&◌, Option, none, some, List, [],
  ◌∷◌, ◌==◌, ltb, length, take, if◌then◌else◌,
}
use n1cpu.Rs485.{Paket, Receiver, pakets, paket_size, memcpy, is_full, fresh}
use n1cpu.Rs485.Sender.{Return, ret_ok, ret_busy, ret_hardware_error, Line}

-- The part of `paket_decode` that needs a buffer: the header mask is cleared when the message is full.
unfoldable pub put : Option (List ℕ) → Paket → Receiver → Receiver × Bool
put none p r = (r, false)
put (some buf) p r =
    let full = is_full p.total_pk p.current_pk in
    (
      record {
        paket_buffer =
            some (memcpy ((p.current_pk - 1) * paket_size) (take p.data_len p.payload) buf);
        paket_length = (r.paket_length + p.data_len) % 65536;
        paket_header = if full then 0 else (2 ^ p.current_pk) % 2 ^ 32;
      },
      full,
    )

-- A buffer whose message is not complete is not freed before a new one is taken.
unfoldable pub paket_decode : Paket → Receiver → Receiver × Bool
paket_decode p r = put (fresh p r).paket_buffer p (fresh p r)

-- The writes of packets, newest first: the number of the packet, and whether it was acknowledged.
pub record Sending : Type 0 where
  pub send_paket_error : Bool
  pub log : List (ℕ × Bool)

-- The loop `while(sended)` for one packet, on fuel: the fourth turn ends it with an error, whatever it
-- brings.
unfoldable pub send_loop : Line → ℕ → ℕ → Paket → Sending → Option Sending
send_loop line zero send_counter p s = none
send_loop line (suc n) send_counter p s =
    let k = length s.log in
    let ok = line.written k && line.acked k in
    let s' = record s { log = (p.current_pk, ok) ∷ s.log } in
    let rest = send_loop line n (send_counter + 1) p s' in
    if ltb 3 (send_counter + 1)
    then some (record s' { send_paket_error = true })
    else if ok
    then some s'
    else rest

-- The packets, until one fails.
unfoldable pub send_pakets : Line → List Paket → Sending → Option Sending
send_pakets line [] s = some s
send_pakets line (p ∷ ps) s = elim (send_loop line 4 0 p s) [
  | none ↦ none
  | some s' ↦ let rest = send_pakets line ps s' in if s'.send_paket_error then some s' else rest
]

abbrev pub outcome : Sending → Return
outcome s = if s.send_paket_error then ret_hardware_error else ret_ok

-- `Sender`; `none` if the loop were not to end. `in_time` tells whether it ends before `_Sender` stops waiting,
-- which otherwise looks at `send_paket_error` while that is still 0.
unfoldable pub sender : Line → Bool → Bool → List ℕ → Option (Return × List (ℕ × Bool))
sender line in_time busy message =
    let start : Sending = record { send_paket_error = false; log = [] } in
    let sent = send_pakets line (pakets message) start in
    if busy
    then some (ret_busy, [])
    else elim sent [ none ↦ none | some s ↦ some (if in_time then outcome s else ret_ok, s.log) ]
