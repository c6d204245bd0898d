-- ===== src/Button/Trace.antt =====
-- Presses and releases alternate: what iot_button.c reports over any run of the timer.
use n1cpu.Base.{
  ℕ, zero, suc, ◌+◌, ◌≡◌, refl, subst, Bool, true, false, some, List, [], ◌∷◌, ◌++◌, arith,
  if◌then◌else◌,
}
use n1cpu.Button.{
  ButtonEvent, press_down, press_up, Button, Call, sample, switch_state, button_handler,
  button_callback_call, run,
}

abbrev pub is_down : ButtonEvent → Bool
is_down press_down = true
is_down _ = false

abbrev pub is_up : ButtonEvent → Bool
is_up press_up = true
is_up _ = false

-- How many of the calls were made for an event of a kind.
abbrev pub tally : (ButtonEvent → Bool) → List Call → ℕ
tally is [] = 0
tally is (c ∷ cs) = (if is c.cause then 1 else 0) + tally is cs

tally-append :
    (is : ButtonEvent → Bool) (xs ys : List Call) → tally is (xs ++ ys) ≡ tally is xs + tally is ys
tally-append is [] ys = omega arith
tally-append is (x ∷ xs) ys = omega (arith, tally-append is xs ys)

-- The states in which the button counts as held down.
abbrev pub pressed : ℕ → ℕ
pressed zero = 0
pressed (suc zero) = 1
pressed (suc (suc zero)) = 0
pressed (suc (suc (suc zero))) = 1
pressed (suc (suc (suc (suc zero)))) = 0
pressed (suc (suc (suc (suc (suc zero))))) = 1
pressed (suc (suc (suc (suc (suc (suc n)))))) = 0

-- A button that is enabled and has callbacks for presses and releases.
pub record Listens (f g : ℕ) (b : Button) : Type 0 where
  pub enabled : b.disable ≡ false
  pub on_down : b.cb press_down ≡ some f
  pub on_up : b.cb press_up ≡ some g

sample-Listens : (f g read : ℕ) (b : Button) → Listens f g b → Listens f g (sample read b)
unfolding sample
sample-Listens f g read b l = ground arith

sample-state : (read : ℕ) (b : Button) → (sample read b).state ≡ b.state
unfolding sample
sample-state read b = ground arith

switch_state-Listens : (f g s : ℕ) (b : Button) → Listens f g b → Listens f g (switch_state s b).0
unfolding switch_state
switch_state-Listens f g zero b l = ground arith
switch_state-Listens f g (suc zero) b l = ground arith
switch_state-Listens f g (suc (suc zero)) b l = ground arith
switch_state-Listens f g (suc (suc (suc zero))) b l = ground arith
switch_state-Listens f g (suc (suc (suc (suc zero)))) b l = ground arith
switch_state-Listens f g (suc (suc (suc (suc (suc zero))))) b l = ground arith
switch_state-Listens f g (suc (suc (suc (suc (suc (suc n)))))) b l = ground arith

Balanced : ℕ → Button × List Call → Type 0
Balanced before (b, calls) =
    pressed before + tally is_down calls ≡ pressed b.state + tally is_up calls

switch_state-Balanced :
    (f g s : ℕ) (b : Button) → b.state ≡ s → Listens f g b → Balanced s (switch_state s b)
unfolding switch_state Balanced button_callback_call
switch_state-Balanced f g zero b e l = ground arith
switch_state-Balanced f g (suc zero) b e l = ground arith
switch_state-Balanced f g (suc (suc zero)) b e l = ground arith
switch_state-Balanced f g (suc (suc (suc zero))) b e l = ground arith
switch_state-Balanced f g (suc (suc (suc (suc zero)))) b e l = ground arith
switch_state-Balanced f g (suc (suc (suc (suc (suc zero))))) b e l = ground arith
switch_state-Balanced f g (suc (suc (suc (suc (suc (suc n)))))) b e l = ground arith

handler-Balanced :
    (f g read : ℕ) (b : Button) → Listens f g b → Balanced b.state (button_handler read b)
unfolding button_handler
handler-Balanced f g read b l =
    let b' = sample read b in
    subst (λ s. Balanced s (switch_state b'.state b')) (sample-state read b)
      (switch_state-Balanced f g b'.state b' refl (sample-Listens f g read b l))

handler-Listens :
    (f g read : ℕ) (b : Button) → Listens f g b → Listens f g (button_handler read b).0
unfolding button_handler
handler-Listens f g read b l =
    switch_state-Listens f g (sample read b).state (sample read b) (sample-Listens f g read b l)

-- Over any run of ticks, of a button that is enabled and has callbacks for both events, the
-- presses reported and the releases reported differ by exactly what the state says: together with
-- the press that was held at the start, the presses number the releases plus the press still held.
pub run-presses_balance :
    (f g : ℕ) (reads : List ℕ) (b : Button)
    → Listens f g b
    → pressed b.state + tally is_down (run reads b).1
      ≡ pressed (run reads b).0.state + tally is_up (run reads b).1
unfolding run Balanced
run-presses_balance f g [] b l = refl
run-presses_balance f g (read ∷ reads) b l =
    let (b', calls) = button_handler read b in
    let rest = (run reads b').1 in
    omega (
      arith,
      handler-Balanced f g read b l,
      run-presses_balance f g reads b' (handler-Listens f g read b l),
      tally-append is_down calls rest,
      tally-append is_up calls rest,
    )
