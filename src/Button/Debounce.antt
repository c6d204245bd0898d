-- ===== src/Button/Debounce.antt =====
-- Contact bounce is filtered: what a short burst of odd samples does in iot_button.c.
use n1cpu.Base.{
  ℕ, zero, suc, ◌+◌, ◌<◌, ◌≡◌, refl, ◌≢◌, List, [], ◌∷◌, ◌++◌, arith, replicate, append_assoc,
}
use n1cpu.Button.{none_press, Button, sample, switch_state, button_handler, run}

pub run-append :
    (xs ys : List ℕ) (b : Button)
    → run (xs ++ ys) b ≡ ((run ys (run xs b).0).0, (run xs b).1 ++ (run ys (run xs b).0).1)
unfolding run
run-append [] ys b = refl
run-append (x ∷ xs) ys b =
    let (b', calls) = button_handler x b in
    ground (arith, run-append xs ys b', append_assoc calls (run xs b').1 (run ys (run xs b').0).1)

-- A button at rest: idle, its level the inactive one.
pub record IsAtRest (b : Button) : Type 0 where
  pub idle : b.state ≡ 0
  pub open_contact : b.button_level ≢ b.active_level
  pub steady : b.debounce_cnt ≡ 0
  pub quiet : b.event ≡ none_press

odd_sample :
    (read : ℕ) (b : Button)
    → b.state ≡ 0
    → b.button_level ≢ b.active_level
    → b.event ≡ none_press
    → read ≢ b.button_level
    → b.debounce_cnt < 4
    → button_handler read b ≡ (record b { debounce_cnt = b.debounce_cnt + 1 }, [])
unfolding button_handler sample switch_state
odd_sample read b s o q r c = ground arith

even_sample :
    (b : Button)
    → b.state ≡ 0
    → b.button_level ≢ b.active_level
    → b.event ≡ none_press
    → button_handler b.button_level b ≡ (record b { debounce_cnt = 0 }, [])
unfolding button_handler sample switch_state
even_sample b s o q = ground arith

pub burst :
    (n read : ℕ) (b : Button)
    → b.state ≡ 0
    → b.button_level ≢ b.active_level
    → b.event ≡ none_press
    → read ≢ b.button_level
    → b.debounce_cnt + n < 5
    → run (replicate n read) b ≡ (record b { debounce_cnt = b.debounce_cnt + n }, [])
unfolding run
burst zero read b s o q r c = ground arith
burst (suc n) read b s o q r c =
    rw (odd_sample read b s o q r (omega arith))
      (ground (arith, burst n read (record b { debounce_cnt = b.debounce_cnt + 1 })))

-- Fewer than five odd samples in a row, followed by a good one, leave a button at rest exactly as
-- it was, and no callback is made.
pub run_glitch :
    (n read : ℕ) (b : Button)
    → IsAtRest b
    → read ≢ b.button_level
    → n < 5
    → run (replicate n read ++ b.button_level ∷ []) b ≡ (b, [])
unfolding run
run_glitch n read b rest r h =
    let b' = record b { debounce_cnt = b.debounce_cnt + n } in
    rw
      (
        run-append (replicate n read) (b.button_level ∷ []) b,
        burst n read b rest.idle rest.open_contact rest.quiet r (ground arith),
      )
      (ground (arith, even_sample b'))
