-- ===== src/Uart/Events.antt =====
-- components/home/library/uart/uart.cpp: `_event_task`, with the callback of `_callback_task`. A frame is
-- a header with the bytes after it; the events are those that the driver of the ESP-IDF posts.
use n1cpu.Base.{ℕ, suc, Bool, true, false, ◌&&◌, ◌==◌, Option, List, [], ◌∷◌, if◌then◌else◌}
use n1cpu.Rs485.{Receiver}
use n1cpu.Rs485.Bus.{
  Frame, LineEvent, uart_data, uart_fifo_ovf, uart_buffer_full, pattern_det, paket_pong, is_ping,
  is_pong,
}
use n1cpu.Uart.{paket_decode}
use n1cpu.Uart.Watch.{Watch, on_ping}

-- What the line keeps; `pulses` counts the pulses on the pin ATX, `ping_restarts` the restarts of the
-- timer of the pings; the answers and the messages handed to the callback, newest first.
pub record Link : Type 0 where
  pub device_id : ℕ
  pub receiver : Receiver
  pub watch : Watch
  pub ping_stat : Bool
  pub has_callback : Bool
  pub paket_sender : ℕ
  pub pulses : ℕ
  pub ping_restarts : ℕ
  pub written : List Frame
  pub delivered : List (Option (List ℕ))

-- The answer to a ping: a header without bytes.
abbrev pong : Frame → Frame
pong f = record {
  sender = f.receiver;
  receiver = f.sender;
  paket_type = paket_pong;
  id = f.id;
  paket = record { total_pk = 1; current_pk = 1; data_len = 0; payload = [] };
}

-- UART_DATA of exactly a header; a pong is not looked at for its receiver.
unfoldable pub on_data : Frame → Link → Link
on_data f l =
    let l1 =
      if is_ping f.paket_type && f.receiver == l.device_id
      then record l { watch = on_ping f.sender l.watch; written = pong f ∷ l.written }
      else l in
    if is_pong f.paket_type then record l1 { ping_stat = true } else l1

-- UART_PATTERN_DET after a frame: it is acknowledged by a pulse and decoded, whoever it is for.
unfoldable pub on_pattern : Frame → Link → Link
on_pattern f l =
    let (r, full) = paket_decode f.paket l.receiver in
    let restarts =
      if f.sender == l.watch.ping_device then suc l.ping_restarts else l.ping_restarts in
    let l1 = record l { receiver = r; pulses = suc l.pulses; ping_restarts = restarts } in
    let l2 = record l1 { paket_sender = f.sender } in
    if full
    then (if l.has_callback then record l2 { delivered = r.paket_buffer ∷ l.delivered } else l2)
    else l1

-- One turn of `_event_task`; the Boolean tells whether it drops the input and the events that wait.
-- Data that is longer than a header is left for the pattern, with which it ends.
unfoldable event_task : Bool → LineEvent → Link → Link × Bool
event_task longer (uart_data f) l = (if longer then l else on_data f l, false)
event_task longer uart_fifo_ovf l = (l, true)
event_task longer uart_buffer_full l = (l, true)
event_task longer (pattern_det f) l = (on_pattern f l, false)
event_task longer _ l = (l, false)
