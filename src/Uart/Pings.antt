-- ===== src/Uart/Pings.antt =====
-- When the other processor is reset for its pings that fail.
use n1cpu.Base.{ℕ, ◌+◌, ◌%◌, Bool, true, ltb, List, [], ◌∷◌, ◌≡◌, refl, arith, if◌then◌else◌}
use n1cpu.Uart.Watch.{
  Watch, WatchEvent, pong_timer_end, ping_timer_end, ping_from, watch, run, pong_timer_callback,
  ping_timer_callback, on_ping, pong_timer_restart,
}

-- The pings since the last one that was answered, over the events and `n` before them.
abbrev pub unanswered : List WatchEvent → ℕ → ℕ
unanswered [] n = n
unanswered (pong_timer_end ∷ es) n = unanswered es n
unanswered (ping_timer_end a ∷ es) n = unanswered es (if a then 0 else n + 1)
unanswered (ping_from d ∷ es) n = unanswered es n

counts :
    (es : List WatchEvent) (w : Watch) (n : ℕ)
    → w.ping_error_counter ≡ n % 256
    → ((run es w).ping_error_counter ≡ unanswered es n % 256)
      × ((run es w).has_ping_callback ≡ w.has_ping_callback)
unfolding run watch pong_timer_callback ping_timer_callback on_ping pong_timer_restart
counts [] w n h = (h, refl)
counts (pong_timer_end ∷ es) w n h =
    ground (arith, counts es (pong_timer_callback w) n (ground arith))
counts (ping_timer_end a ∷ es) w n h =
    ground (arith, counts es (ping_timer_callback a w) (if a then 0 else n + 1) (ground arith))
counts (ping_from d ∷ es) w n h = ground (arith, counts es (on_ping d w) n (ground arith))

-- With a reset callback, from a count of 0 and after any events of the two watches, a ping that fails calls
-- the callback exactly when the number of pings that failed since the last answered one, this one included,
-- is more than five as a byte, and with that number; a ping that is answered calls nothing.
pub next_ping :
    (es : List WatchEvent) (w : Watch) (answered : Bool)
    → w.ping_error_counter ≡ 0
    → w.has_ping_callback ≡ true
    → let n = (unanswered es 0 + 1) % 256 in
      let before = (run es w).ping_resets in
      (watch (ping_timer_end answered) (run es w)).ping_resets
      ≡ (if answered then before else if ltb 5 n then n ∷ before else before)
unfolding watch ping_timer_callback
next_ping es w answered h c = ground (arith, counts es w 0 (ground arith))
