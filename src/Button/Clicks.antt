-- ===== src/Button/Clicks.antt =====
-- Clicks and long presses: the callbacks of iot_button.c for whole gestures.
use n1cpu.Base.{
  ℕ, zero, suc, ◌+◌, ◌%◌, ◌≤◌, ◌<◌, ◌≡◌, refl, sym, ◌∙◌, ◌≢◌, ◌⊎◌, inl, inr, List, [], ◌∷◌, ◌++◌,
  arith, replicate, some, false, ap,
}
use n1cpu.Button.{
  ButtonEvent, press_down, press_up, single_click, long_press_start, long_press_hold, Button, Call,
  sample, switch_state, button_handler, button_callback_call, run,
}
use n1cpu.Button.Debounce.{run-append, IsAtRest, burst}

-- Enabled, with a callback for every event.
pub record Hears (f : ButtonEvent → ℕ) (b : Button) : Type 0 where
  pub enabled : b.disable ≡ false
  pub told : (ev : ButtonEvent) → b.cb ev ≡ some (f ev)

abbrev pub causes : List Call → List ButtonEvent
causes [] = []
causes (c ∷ cs) = c.cause ∷ causes cs

causes-append : (xs ys : List Call) → causes (xs ++ ys) ≡ causes xs ++ causes ys
causes-append [] ys = refl
causes-append (x ∷ xs) ys = ap (◌∷◌ x.cause) (causes-append xs ys)

-- The run `reads` takes `b` to `b'` and reports the events `evs`.
record Leads (reads : List ℕ) (b b' : Button) (evs : List ButtonEvent) : Type 0 where
  final : (run reads b).0 ≡ b'
  heard : causes (run reads b).1 ≡ evs

Leads-append :
    {xs ys : List ℕ} {b b' b'' : Button} {es fs : List ButtonEvent}
    → Leads xs b b' es
    → Leads ys b' b'' fs
    → Leads (xs ++ ys) b b'' (es ++ fs)
Leads-append {xs} {ys} {b} p q = ground (
  arith,
  run-append xs ys b,
  causes-append (run xs b).1 (run ys (run xs b).0).1,
  p.final,
  p.heard,
  q.final,
  q.heard,
)

-- Between the presses: the tick count may still rise to `t` before the state times out.
abbrev Waits : ℕ → Button → Type 0
Waits t b =
    ((b.state ≡ 1) × (b.button_level ≡ b.active_level) × (t ≤ 50))
    ⊎ ((b.state ≡ 2) × (b.button_level ≢ b.active_level) × (t ≤ 18))

wait_even :
    (b : Button)
    → Waits (b.ticks + 1) b
    → button_handler b.button_level b ≡ (record b { ticks = b.ticks + 1; debounce_cnt = 0 }, [])
unfolding button_handler sample switch_state
wait_even b w = ground arith

wait_odd :
    (read : ℕ) (b : Button)
    → Waits (b.ticks + 1) b
    → read ≢ b.button_level
    → b.debounce_cnt < 4
    → button_handler read b
      ≡ (record b { ticks = b.ticks + 1; debounce_cnt = b.debounce_cnt + 1 }, [])
unfolding button_handler sample switch_state
wait_odd read b w r c = ground arith

pause_even :
    (n : ℕ) (b : Button)
    → Waits (b.ticks + n) b
    → b.debounce_cnt ≡ 0
    → run (replicate n b.button_level) b ≡ (record b { ticks = b.ticks + n }, [])
unfolding run
pause_even zero b w c = ground arith
pause_even (suc n) b w c =
    rw (wait_even b (ground arith))
      (ground (arith, pause_even n (record b { ticks = b.ticks + 1; debounce_cnt = 0 })))

pause_odd :
    (n read : ℕ) (b : Button)
    → Waits (b.ticks + n) b
    → read ≢ b.button_level
    → b.debounce_cnt + n < 5
    → run (replicate n read) b
      ≡ (record b { ticks = b.ticks + n; debounce_cnt = b.debounce_cnt + n }, [])
unfolding run
pause_odd zero read b w r c = ground arith
pause_odd (suc n) read b w r c = rw (wait_odd read b (ground arith) r (omega arith)) (
    ground (
      arith,
      pause_odd n read (record b { ticks = b.ticks + 1; debounce_cnt = b.debounce_cnt + 1 }),
    ))

abbrev is_down : Button → Button
is_down b = record b {
  debounce_cnt = 0;
  button_level = b.active_level;
  event = press_down;
  ticks = 0;
  repeat = 1;
  state = 1;
}

abbrev is_released : ℕ → Button → Button
is_released level b = record b {
  debounce_cnt = 0;
  button_level = level;
  event = press_up;
  ticks = 0;
  state = 2;
}

module _ {f : ButtonEvent → ℕ} (b : Button) (hears : Hears f b) where
  flip_down :
      b.state ≡ 0
      → b.debounce_cnt ≡ 4
      → b.active_level < 2
      → b.active_level ≢ b.button_level
      → Leads (b.active_level ∷ []) b (is_down b) (press_down ∷ [])
  unfolding run button_handler sample switch_state button_callback_call
  flip_down s c a n = ground (arith, hears.told press_down)

  flip_up :
      (level : ℕ)
      → b.state ≡ 1
      → b.button_level ≡ b.active_level
      → b.debounce_cnt ≡ 4
      → level < 2
      → level ≢ b.button_level
      → Leads (level ∷ []) b (is_released level b) (press_up ∷ [])
  unfolding run button_handler sample switch_state button_callback_call
  flip_up level s l c a n = ground (arith, hears.told press_up)

  time_out :
      b.state ≡ 2
      → b.repeat ≡ 1
      → b.button_level ≢ b.active_level
      → b.ticks ≡ 18
      → Leads
          (b.button_level ∷ [])
          b
          (record b { ticks = 19; debounce_cnt = 0; event = single_click; state = 0 })
          (single_click ∷ [])
  unfolding run button_handler sample switch_state button_callback_call
  time_out s r l t = ground (arith, hears.told single_click)

  long_start :
      b.state ≡ 1
      → b.button_level ≡ b.active_level
      → b.ticks ≡ 50
      → Leads
          (b.button_level ∷ [])
          b
          (record b { ticks = 51; debounce_cnt = 0; event = long_press_start; state = 5 })
          (long_press_start ∷ [])
  unfolding run button_handler sample switch_state button_callback_call
  long_start s l t = ground (arith, hears.told long_press_start)

  hold_step :
      b.state ≡ 5
      → b.button_level ≡ b.active_level
      → Leads
          (b.button_level ∷ [])
          b
          (record b { ticks = (b.ticks + 1) % 65536; debounce_cnt = 0; event = long_press_hold })
          (long_press_hold ∷ [])
  unfolding run button_handler sample switch_state button_callback_call
  hold_step s l = ground (arith, hears.told long_press_hold)

Leads-nil : {reads : List ℕ} {b b' : Button} → run reads b ≡ (b', []) → Leads reads b b' []
Leads-nil e = record { final = ap (λ r. r.0) e; heard = ap (λ r. causes r.1) e }

Hears-keep :
    {f : ButtonEvent → ℕ} (b b' : Button)
    → b'.disable ≡ b.disable
    → b'.cb ≡ b.cb
    → Hears f b
    → Hears f b'
Hears-keep b b' e c h = record {
  enabled = e ∙ h.enabled;
  told = λ ev. ap (λ cb. cb ev) c ∙ h.told ev;
}

holds :
    {f : ButtonEvent → ℕ} (j : ℕ) (b : Button)
    → Hears f b
    → b.state ≡ 5
    → b.button_level ≡ b.active_level
    → Leads
        (replicate j b.button_level)
        b
        (run (replicate j b.button_level) b).0
        (replicate j long_press_hold)
unfolding run
holds zero b h s l = Leads-nil refl
holds (suc j) b h s l =
    let b' = record b {
      ticks = (b.ticks + 1) % 65536;
      debounce_cnt = 0;
      event = long_press_hold;
    } in
    let later = holds j b' (Hears-keep b b' refl refl h) s l in
    record { final = refl; heard = (Leads-append (hold_step b h s l) later).heard }

module _ {f : ButtonEvent → ℕ} (b : Button) (hears : Hears f b) (rest : IsAtRest b)
    (bit : b.active_level < 2) where
  press : Leads (replicate 5 b.active_level) b (is_down b) (press_down ∷ [])
  press =
      Leads-append {xs = replicate 4 b.active_level} {ys = b.active_level ∷ []}
        (Leads-nil (
          burst 4 b.active_level b rest.idle rest.open_contact rest.quiet
            (λ e. rest.open_contact (sym e)) (ground arith)))
        (flip_down (record b { debounce_cnt = b.debounce_cnt + 4 })
          (record { enabled = hears.enabled; told = hears.told }) rest.idle (ground arith) bit
          (λ e. rest.open_contact (sym e)))

  -- Of a button at rest, enabled, with a callback for every event and with levels that are 0 or 1,
  -- the contact closes for 5 + k samples, k at most 46, and opens: reported are a press, a release
  -- and, once the pause of 1.8 s is over, a single click; the button is idle again, at the level from
  -- before.
  pub run_click :
      (k : ℕ)
      → k ≤ 46
      → b.button_level < 2
      → let reads =
          replicate 5 b.active_level
          ++ (replicate k b.active_level
              ++ (replicate 5 b.button_level ++ replicate 19 b.button_level)) in
        (causes (run reads b).1 ≡ press_down ∷ press_up ∷ single_click ∷ [])
        × ((run reads b).0.state ≡ 0)
        × ((run reads b).0.button_level ≡ b.button_level)
  run_click k h bit' =
      let level = b.button_level in
      let open_contact = rest.open_contact in
      let b1 = is_down b in
      let b2 = record b1 { ticks = 0 + k } in
      let b3 = record b2 { ticks = 0 + k + 4; debounce_cnt = 0 + 4 } in
      let b4 = is_released level b3 in
      let b5 = record b4 { ticks = 0 + 18 } in
      let hears' = λ (b' : Button) (e : b'.disable ≡ b.disable) (c : b'.cb ≡ b.cb).
        Hears-keep b b' e c hears in
      let gesture = Leads-append press (
        Leads-append (Leads-nil (pause_even k b1 (inl (refl, refl, omega arith)) refl)) (
          Leads-append
            (Leads-append
              (Leads-nil
                (pause_odd 4 level b2 (inl (refl, refl, omega arith)) open_contact (omega arith)))
              (flip_up b3 (hears' b3 refl refl) level refl refl refl bit' open_contact))
            (Leads-append
              (Leads-nil (pause_even 18 b4 (inr (refl, open_contact, omega arith)) refl))
              (time_out b5 (hears' b5 refl refl) refl refl open_contact refl)))) in
      (gesture.heard, ap (λ b'. b'.state) gesture.final, ap (λ b'. b'.button_level) gesture.final)

  -- A button at rest, enabled, with a callback for every event and an active level of 0 or 1, that is
  -- held for 56 samples and j more, reports one press, one start of a long press and one hold for
  -- every further sample.
  pub run_long_press :
      (j : ℕ)
      → let reads =
          replicate 5 b.active_level
          ++ (replicate 51 b.active_level ++ replicate j b.active_level) in
        causes (run reads b).1 ≡ press_down ∷ long_press_start ∷ replicate j long_press_hold
  run_long_press j =
      let b1 = is_down b in
      let b2 = record b1 { ticks = 0 + 50 } in
      let b3 = record b2 { ticks = 51; debounce_cnt = 0; event = long_press_start; state = 5 } in
      let started = Leads-append press (
        Leads-append
          (Leads-append (Leads-nil (pause_even 50 b1 (inl (refl, refl, omega arith)) refl))
            (long_start b2 (Hears-keep b b2 refl refl hears) refl refl refl))
          (holds j b3 (Hears-keep b b3 refl refl hears) refl refl)) in
      started.heard
