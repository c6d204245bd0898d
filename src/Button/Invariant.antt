-- ===== src/Button/Invariant.antt =====
-- What holds of a button between two ticks of the driver in iot_button.c.
use n1cpu.Base.{ℕ, zero, suc, ◌≤◌, ◌<◌, ◌≡◌, refl, ◌⊎◌, List, [], ◌∷◌, arith}
use n1cpu.Button.{Button, sample, switch_state, button_handler, run}

pub record IsValid (b : Button) : Type 0 where
  pub known : (b.state ≡ 0) ⊎ (b.state ≡ 1) ⊎ (b.state ≡ 2) ⊎ (b.state ≡ 3) ⊎ (b.state ≡ 5)
  pub settling : b.debounce_cnt < 5
  pub one_bit : b.button_level < 2
  pub short_press : b.state ≡ 1 → b.ticks ≤ 50
  pub short_pause : b.state ≡ 2 → b.ticks ≤ 18

-- What the sample leaves of it: the counters may stand one tick further.
record IsSampled (b : Button) : Type 0 where
  known : (b.state ≡ 0) ⊎ (b.state ≡ 1) ⊎ (b.state ≡ 2) ⊎ (b.state ≡ 3) ⊎ (b.state ≡ 5)
  settling : b.debounce_cnt < 5
  one_bit : b.button_level < 2

sample-IsSampled : (read : ℕ) (b : Button) → IsValid b → IsSampled (sample read b)
unfolding sample
sample-IsSampled read b v = ground arith

switch_state-IsValid :
    (s : ℕ) (b : Button) → b.state ≡ s → IsSampled b → IsValid (switch_state s b).0
unfolding switch_state
switch_state-IsValid zero b e v = ground arith
switch_state-IsValid (suc zero) b e v = ground arith
switch_state-IsValid (suc (suc zero)) b e v = ground arith
switch_state-IsValid (suc (suc (suc zero))) b e v = ground arith
switch_state-IsValid (suc (suc (suc (suc zero)))) b e v = ground arith
switch_state-IsValid (suc (suc (suc (suc (suc zero))))) b e v = ground arith
switch_state-IsValid (suc (suc (suc (suc (suc (suc n)))))) b e v = ground arith

pub button_handler-IsValid : (read : ℕ) (b : Button) → IsValid b → IsValid (button_handler read b).0
unfolding button_handler
button_handler-IsValid read b v =
    switch_state-IsValid (sample read b).state (sample read b) refl (sample-IsSampled read b v)

-- Whatever the hardware reads, tick after tick, the button stays in one of the five states of the
-- switch, its debounce counter below five, its level one bit, and its two timeouts in bounds: at
-- most 50 ticks in the first press and at most 18 between two presses.
pub run-IsValid : (reads : List ℕ) (b : Button) → IsValid b → IsValid (run reads b).0
unfolding run
run-IsValid [] b v = v
run-IsValid (read ∷ reads) b v =
    run-IsValid reads (button_handler read b).0 (button_handler-IsValid read b v)
