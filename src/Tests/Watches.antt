-- ===== src/Tests/Watches.antt =====
-- The theorems on the line to the other processor and on the devices of the serial line.
use n1cpu.Base.{
  ℕ, ◌<◌, true, false, some, List, [], ◌∷◌, ◌++◌, replicate, ◌≡◌, refl, arith, ◌==◌, ◌%◌,
}
use n1cpu.Rs485.{pakets, pakets_from, paket}
use n1cpu.Rs485.Bus.{Frame, has_pattern, Node, frames, hear}
use n1cpu.Rs485.Bus.Heard.{message_heard, called}
use n1cpu.Rs485.Sender.{Line}
use n1cpu.Uart.{sender}
use n1cpu.Uart.Watch.{Watch, WatchEvent, pong_timer_end, ping_timer_end, ping_from, watch, run}
use n1cpu.Uart.Pings.{next_ping}
use n1cpu.Tests.Lines.{sixty, idle}

abbrev node : Node
node = record {
  device_id = 7;
  receiver = idle;
  paket_sender = 0;
  paket_receiver = 0;
  ack_ok = false;
  ping_ok = false;
  has_callback = true;
  has_broadcast_callback = true;
  written = [];
  delivered = [];
}

-- The bytes of a header on a compiler that gives the flags one byte.
abbrev header : Frame → List ℕ
header f =
    f.sender ∷ f.receiver ∷ 16 ∷ f.paket.total_pk ∷ f.paket.current_pk ∷ f.id ∷ f.paket.data_len
    ∷ []

message_heard_example :
    (n' : Node) × (z : ℕ) × (hear header (frames 3 7 0 sixty) node ≡ some n')
    × (n'.delivered ≡ called 3 7 (some (sixty ++ replicate z 0)) ∷ [])
    × (0 < z)
unfolding frames pakets pakets_from paket has_pattern
message_heard_example =
    message_heard header 3 7 0 sixty node (ground arith) (ground arith) refl refl

-- Every third write is acknowledged.
abbrev noisy : Line
noisy = record { written = λ k. true; acked = λ k. k % 3 == 2 }

abbrev fresh_watch : Watch
fresh_watch = record {
  ping_device = 1;
  pong_device = 1;
  ping_error_counter = 0;
  pong_error_counter = 0;
  pong_resets = [];
  ping_resets = [];
  has_pong_callback = false;
  has_ping_callback = true;
}

abbrev failing : List WatchEvent
failing =
    ping_timer_end true
    ∷ ping_timer_end false
    ∷ ping_timer_end false
    ∷ pong_timer_end
    ∷ ping_timer_end false
    ∷ ping_from 2
    ∷ ping_timer_end false
    ∷ ping_timer_end false
    ∷ []

next_ping_example :
    (watch (ping_timer_end false) (run failing fresh_watch)).ping_resets
    ≡ 6 ∷ (run failing fresh_watch).ping_resets
next_ping_example = next_ping failing fresh_watch false refl refl
