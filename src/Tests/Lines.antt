-- ===== src/Tests/Lines.antt =====
-- The theorems on the packets of the serial line at a message of two packets and a packet of a longer
-- one.
use n1cpu.Base.{
  true, some, refl, ℕ, false, none, List, [], ◌≡◌, replicate, length, arith, true, some,
}
use n1cpu.Rs485.{Paket, Receiver, pakets, decode_all, paket_decode}
use n1cpu.Rs485.Sender.{Line, ret_ok, sender}
use n1cpu.Rs485.Sender.Outcome.{sender_deaf, each_once}
use n1cpu.Rs485.Roundtrip.{answers, decode_all-pakets, paket_decode_long}

abbrev pub sixty : List ℕ
sixty = replicate 60 65

abbrev pub idle : Receiver
idle = record { paket_buffer = none; paket_length = 0; paket_header = 0 }

decode_all-pakets_example : (decode_all (pakets sixty) idle).1 ≡ answers (length (pakets sixty))
decode_all-pakets_example = (decode_all-pakets sixty idle (ground arith) (ground arith)).0

abbrev last : Paket
last = record { total_pk = 40; current_pk = 40; data_len = 0; payload = [] }

paket_decode_long_example : (paket_decode last idle).1 ≡ false
paket_decode_long_example = paket_decode_long last idle (ground arith) (ground arith)

-- A line that takes every byte and never brings an acknowledgement.
abbrev deaf : Line
deaf = record { written = λ k. true; acked = λ k. false }

-- A line that takes nothing.
abbrev dead : Line
dead = record { written = λ k. false; acked = λ k. false }

sender_deaf_example : sender deaf false 7 sixty ≡ some (ret_ok, each_once (pakets sixty) [])
sender_deaf_example = sender_deaf deaf 7 sixty (λ k. refl)
