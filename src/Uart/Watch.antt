-- ===== src/Uart/Watch.antt =====
-- components/home/library/uart/uart.cpp: the two watches on the other processor. `ping_timer_callback`
-- pings it and counts the failures; `pong_timer_callback` counts the times that nothing came from it. A
-- count of more than five calls the reset callback, at each further time. The counts are bytes.
use n1cpu.Base.{ℕ, ◌+◌, ◌%◌, Bool, ◌&&◌, ◌||◌, ◌==◌, ltb, List, [], ◌∷◌, if◌then◌else◌}

-- The counts, and the calls of `pong_reset_callback` and of `ping_reset_callback` with their argument,
-- newest first, if these are set. Nothing calls `pong_start`, which sets the former.
pub record Watch : Type 0 where
  pub ping_device : ℕ
  pub pong_device : ℕ
  pub ping_error_counter : ℕ
  pub pong_error_counter : ℕ
  pub pong_resets : List ℕ
  pub ping_resets : List ℕ
  pub has_pong_callback : Bool
  pub has_ping_callback : Bool

-- `ping`: it is not made while the line is busy, and then counts as answered.
unfoldable pub ping : Bool → Bool → Bool → Bool
ping busy written pong = busy || (written && pong)

unfoldable pub ping_timer_callback : Bool → Watch → Watch
ping_timer_callback answered w =
    let n = (w.ping_error_counter + 1) % 256 in
    let w' = record w { ping_error_counter = n } in
    if answered
    then record w { ping_error_counter = 0 }
    else if ltb 5 n && w.has_ping_callback
    then record w' { ping_resets = n ∷ w.ping_resets }
    else w'

-- The restart of the timer of the pings itself has no effect on the counts.
unfoldable pub pong_timer_restart : Watch → Watch
pong_timer_restart w = record w { pong_error_counter = 0 }

unfoldable pub pong_timer_callback : Watch → Watch
pong_timer_callback w =
    let n = (w.pong_error_counter + 1) % 256 in
    let w' = record w { pong_error_counter = n } in
    if ltb 5 n && w.has_pong_callback then record w' { pong_resets = n ∷ w.pong_resets } else w'

-- `UART_DATA` with a ping for this device, from `sender`.
unfoldable pub on_ping : ℕ → Watch → Watch
unfolding pong_timer_restart
on_ping sender w = if w.pong_device == sender then pong_timer_restart w else w

-- What happens to the watches: the ends of the two timers, with the fate of the ping, and a ping from a
-- device.
pub data WatchEvent : Type 0 where
  pong_timer_end : WatchEvent
  ping_timer_end : Bool → WatchEvent
  ping_from : ℕ → WatchEvent

unfoldable pub watch : WatchEvent → Watch → Watch
watch pong_timer_end w = pong_timer_callback w
watch (ping_timer_end answered) w = ping_timer_callback answered w
watch (ping_from sender) w = on_ping sender w

unfoldable pub run : List WatchEvent → Watch → Watch
run [] w = w
run (e ∷ es) w = run es (watch e w)
