-- ===== src/Rs485/Bus.antt =====
-- components/home/library/rs485/rs485.cpp: the devices on the serial line, `_event_task` with what it
-- answers and `_callback_task`. A frame is a header with the bytes after it, and ends with `##`, where the UART
-- finds that pattern; the events are those that the driver of the ESP-IDF posts. The bytes of a header are a
-- parameter, since the compiler lays out its bit fields. That a device waits
-- for its callback for at most a second is left out.
pub mod Heard
use n1cpu.Base.{
  ℕ, ◌%◌, Bool, true, false, ◌&&◌, ◌||◌, ◌==◌, Option, none, some, not, ◌++◌, List, [], ◌∷◌, map,
  if◌then◌else◌,
}
use n1cpu.Rs485.{Paket, Receiver, paket_decode, pakets}

-- The members of `RS485_paket_type_t` that rs485.cpp uses.
pub data PaketType : Type 0 where
  paket_normal paket_ping paket_pong : PaketType

abbrev is_normal : PaketType → Bool
is_normal paket_normal = true
is_normal _ = false

abbrev pub is_ping : PaketType → Bool
is_ping paket_ping = true
is_ping _ = false

abbrev pub is_pong : PaketType → Bool
is_pong paket_pong = true
is_pong _ = false

abbrev rs485_broadcast : ℕ
rs485_broadcast = 255

pub record Frame : Type 0 where
  pub sender : ℕ
  pub receiver : ℕ
  pub paket_type : PaketType
  pub id : ℕ
  pub paket : Paket

-- A call of `broadcast_callback` or of `callback`.
pub record Delivery : Type 0 where
  pub broadcast : Bool
  pub text : Option (List ℕ)
  pub from : ℕ

-- What a device keeps, what it has written and what it has been called with, newest first.
pub record Node : Type 0 where
  pub device_id : ℕ
  pub receiver : Receiver
  pub paket_sender : ℕ
  pub paket_receiver : ℕ
  pub ack_ok : Bool
  pub ping_ok : Bool
  pub has_callback : Bool
  pub has_broadcast_callback : Bool
  pub written : List Frame
  pub delivered : List Delivery

-- `uart_event_t`: data that is at least, or less than, a header; a pattern without a position, at the
-- position 0, or after a frame; and the rest.
pub data LineEvent : Type 0 where
  uart_data : Frame → LineEvent
  uart_data_short : LineEvent
  uart_fifo_ovf uart_buffer_full : LineEvent
  uart_break uart_parity_err uart_frame_err : LineEvent
  pattern_lost pattern_empty : LineEvent
  pattern_det : Frame → LineEvent

abbrev answer : ℕ → Frame → Frame
answer me f = record f { receiver = f.sender; sender = me }

-- UART_DATA.
unfoldable pub on_data : Frame → Node → Node
on_data f n =
    let mine = f.receiver == n.device_id in
    let n1 = if mine && is_normal f.paket_type then record n { ack_ok = true } else n in
    let n2 = if mine && is_pong f.paket_type then record n1 { ping_ok = true } else n1 in
    let pong = record (answer n.device_id f) { paket_type = paket_pong } in
    if mine && is_ping f.paket_type then record n2 { written = pong ∷ n2.written } else n2

-- `_callback_task`, once it is let go.
unfoldable pub call_back : Node → Node
call_back n =
    let all = n.paket_receiver == rs485_broadcast in
    let call : Delivery = record {
      broadcast = all;
      text = n.receiver.paket_buffer;
      from = n.paket_sender;
    } in
    if (if all then n.has_broadcast_callback else n.has_callback)
    then record n { delivered = call ∷ n.delivered }
    else n

-- UART_PATTERN_DET after a frame: a packet for the device is answered with its header, and one for it or
-- for all is put into the buffer.
unfoldable pub on_pattern : Frame → Node → Node
on_pattern f n =
    let mine = f.receiver == n.device_id in
    let n1 = if mine then record n { written = answer n.device_id f ∷ n.written } else n in
    let (r, full) = paket_decode f.paket n.receiver in
    let n2 = record n1 { receiver = r } in
    if mine || f.receiver == rs485_broadcast
    then (if full
        then call_back (record n2 { paket_sender = f.sender; paket_receiver = f.receiver })
        else n2)
    else n1

-- One turn of `_event_task`; the Boolean tells whether it drops the input and the events that wait.
unfoldable event_task : LineEvent → Node → Node × Bool
event_task (uart_data f) n = (on_data f n, false)
event_task uart_fifo_ovf n = (n, true)
event_task uart_buffer_full n = (n, true)
event_task (pattern_det f) n = (on_pattern f n, false)
event_task _ n = (n, false)

-- The frames that `_sender_task` makes of a message.
unfoldable pub frames : ℕ → ℕ → ℕ → List ℕ → List Frame
frames me to counter message =
    map
      (λ (p : Paket). record {
        sender = me;
        receiver = to;
        paket_type = paket_normal;
        id = counter % 256;
        paket = p;
      })
      (pakets message)

-- Do two characters '#' stand next to each other?
unfoldable pub has_pattern : List ℕ → Bool
has_pattern [] = false
has_pattern (x ∷ []) = false
has_pattern (x ∷ y ∷ xs) = (x == 35 && y == 35) || has_pattern (y ∷ xs)

module _ (header : Frame → List ℕ) where
  -- The UART finds the pattern at the end of the frame and not before it.
  abbrev pub is_whole : Frame → Bool
  is_whole f = not (has_pattern (header f ++ (0 ∷ (f.paket.payload ++ (35 ∷ [])))))

  -- A device that hears the frames one after the other. What it makes of one that is cut at an earlier `##`,
  -- and of the rest of it, is left open.
  unfoldable pub hear : List Frame → Node → Option Node
  hear [] n = some n
  hear (f ∷ fs) n = let rest = hear fs (on_pattern f n) in if is_whole f then rest else none
