-- ===== src/Tests/Radios.antt =====
-- The theorems on the messages over ESP-NOW.
use n1cpu.Base.{ℕ, true, false, some, List, [], ◌∷◌, ◌++◌, replicate, ◌≡◌, ◌+◌, refl, arith, ◌==◌}
use n1cpu.EspNow.{
  overruns, Data, Radio, claimed, freed, run, receive, put_into, has_place, place_of, findfreepk,
  at_place,
}
use n1cpu.EspNow.Apart.{of_sender, run_full, Numbered, Unique, count}
use n1cpu.EspNow.Roundtrip.{message_arrives}
use n1cpu.EspNow.Send.{Driver, data_pakets, data_prepare, pakets_from, send, send_exact}

abbrev two_hundred : List ℕ
two_hundred = replicate 200 7

-- A packet of the device 4 comes between the two of the device 3.
abbrev mixed : List Data
mixed =
    data_prepare 3 9 two_hundred 0
    ∷ data_prepare 4 9 (1 ∷ 2 ∷ []) 0
    ∷ data_prepare 3 9 two_hundred 1
    ∷ []

abbrev quiet : Radio
quiet = record { paket = replicate 5 freed; ended = false; overrun = false; delivered = [] }

mixed-Numbered : Numbered mixed
unfolding data_prepare
mixed-Numbered = (ground arith, (ground arith, (ground arith, refl)))

quiet-Unique : Unique quiet.paket
unfolding Unique count
quiet-Unique id h = ground arith

message_arrives_example :
    of_sender 3 (run mixed quiet).delivered
    ≡ record { broadcast = false; text = some (two_hundred ++ (0 ∷ 0 ∷ [])); from = 3 } ∷ []
unfolding overruns run receive put_into has_place place_of findfreepk at_place data_prepare
    data_pakets pakets_from
message_arrives_example =
    message_arrives 3 9 two_hundred mixed quiet (ground arith) (ground arith) (ground arith)
      mixed-Numbered quiet-Unique refl refl refl

abbrev busy : Radio
busy = record quiet {
  paket = claimed 1 400 ∷ claimed 2 400 ∷ claimed 3 400 ∷ claimed 4 400 ∷ claimed 5 400 ∷ [];
}

run_full_example : (run (data_prepare 6 9 two_hundred 0 ∷ mixed) busy).delivered ≡ []
unfolding data_prepare has_place
run_full_example = run_full (data_prepare 6 9 two_hundred 0) mixed busy refl refl refl

-- The first packet is acknowledged at its third turn, the second at its fourth.
abbrev driver : Driver
driver = record { taken = λ w k. true; acked = λ w k. k == w + 2 }

send_exact_example : send driver true two_hundred ≡ some (0 ∷ 1 ∷ [], false)
send_exact_example = send_exact driver two_hundred
