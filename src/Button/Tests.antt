-- ===== src/Button/Tests.antt =====
-- The theorems on the button at one that is wired to ground and has a callback for every event.
use n1cpu.Base.{List, ◌+◌, ℕ, false, some, [], ◌∷◌, ◌++◌, ◌≡◌, refl, replicate, arith}
use n1cpu.Button.{Button, press_down, press_up, single_click, none_press, run}
use n1cpu.Button.Invariant.{IsValid, run-IsValid}
use n1cpu.Button.Trace.{pressed, tally, is_down, is_up, run-presses_balance}
use n1cpu.Button.Debounce.{IsAtRest}
use n1cpu.Button.Clicks.{Hears, run_click, causes}

abbrev button : Button
button = record {
  ticks = 0;
  repeat = 0;
  event = none_press;
  state = 0;
  debounce_cnt = 0;
  active_level = 0;
  button_level = 1;
  usr_data = 9;
  cb = λ ev. some 1;
  disable = false;
}

button-IsAtRest : IsAtRest button
button-IsAtRest = record {
  idle = refl;
  open_contact = λ h. ground arith;
  steady = refl;
  quiet = refl;
}

button-Hears : Hears (λ ev. 1) button
button-Hears = record { enabled = refl; told = λ ev. refl }

run-IsValid_example : IsValid (run (0 ∷ 0 ∷ 1 ∷ []) button).0
run-IsValid_example = run-IsValid (0 ∷ 0 ∷ 1 ∷ []) button (ground arith)

run_click_example :
    causes (run (replicate 5 0 ++ (replicate 4 0 ++ (replicate 5 1 ++ replicate 19 1))) button).1
    ≡ press_down ∷ press_up ∷ single_click ∷ []
run_click_example =
    (run_click button button-Hears button-IsAtRest (ground arith) 4 (ground arith) (ground arith)).0

abbrev bounce : List ℕ
bounce = 0 ∷ 0 ∷ 0 ∷ 0 ∷ 0 ∷ []

run-presses_balance_example :
    pressed 0 + tally is_down (run bounce button).1
    ≡ pressed (run bounce button).0.state + tally is_up (run bounce button).1
run-presses_balance_example =
    run-presses_balance 1 1 bounce button (record { enabled = refl; on_down = refl; on_up = refl })
