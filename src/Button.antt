-- ===== src/Button.antt =====
-- components/home/library/button/iot_button.c: the debounced push-button driver.
-- A `Button` is the `button_dev_t` of the source; its bit fields are kept at their width by
-- `% 8` and `% 2`. A callback pointer is a number, `none` where it is NULL, and a handler returns
-- the callbacks that it made, in order, with what each can read of the button.
pub mod Invariant
pub mod Trace
pub mod Debounce
pub mod Clicks
mod Tests
use n1cpu.Base.{
  ℕ, zero, suc, ◌+◌, ◌%◌, Bool, Option, none, some, List, [], ◌∷◌, ◌++◌, ltb, leb, ◌==◌,
  if◌then◌else◌,
}

pub data ButtonEvent : Type 0 where
  press_down press_up press_repeat single_click double_click : ButtonEvent
  long_press_start long_press_hold all_event none_press : ButtonEvent

pub record Button : Type 0 where
  pub ticks : ℕ
  pub repeat : ℕ
  pub event : ButtonEvent
  pub state : ℕ
  pub debounce_cnt : ℕ
  pub active_level : ℕ
  pub button_level : ℕ
  pub usr_data : ℕ
  pub cb : ButtonEvent → Option ℕ
  pub disable : Bool

-- A call `cb[slot](btn, usr_data)`: the pointer, the two things that it is handed, and the event
-- for which the driver made it.
pub record Call : Type 0 where
  pub callback : ℕ
  pub usr : ℕ
  pub seen : ButtonEvent
  pub cause : ButtonEvent

abbrev debounce_ticks : ℕ
debounce_ticks = 5

abbrev short_ticks : ℕ
short_ticks = 18

abbrev long_ticks : ℕ
long_ticks = 50

call_slot : Option ℕ → Button → ButtonEvent → List Call → List Call
call_slot none b ev other = other
call_slot (some f) b ev other =
    record { callback = f; usr = b.usr_data; seen = b.event; cause = ev } ∷ []

unfoldable pub button_callback_call : Button → ButtonEvent → List Call
unfolding call_slot
button_callback_call b ev =
    if b.disable then [] else call_slot (b.cb ev) b ev (call_slot (b.cb all_event) b ev [])

-- `btn->event = ev; button_callback_call(btn, ev)`.
unfoldable fire : Button → ButtonEvent → Button × List Call
fire b ev = let b' = record b { event = ev } in (b', button_callback_call b' ev)

-- The ticks counter and the debounce of one sample.
unfoldable pub sample : ℕ → Button → Button
sample read b =
    let ticks' = if ltb 0 b.state then (b.ticks + 1) % 65536 else b.ticks in
    let cnt = (b.debounce_cnt + 1) % 8 in
    if read == b.button_level
    then record b { ticks = ticks'; debounce_cnt = 0 }
    else if leb debounce_ticks cnt
    then record b { ticks = ticks'; button_level = read % 2; debounce_cnt = 0 }
    else record b { ticks = ticks'; debounce_cnt = cnt }

abbrev is_active : Button → Bool
is_active b = b.button_level == b.active_level

-- `case 0`, idle.
state_idle : Button → Button × List Call
unfolding fire
state_idle b =
    let (b', calls) = fire b press_down in
    if is_active b
    then (record b' { ticks = 0; repeat = 1; state = 1 }, calls)
    else (record b { event = none_press }, [])

-- `case 1`, first press.
state_pressed : Button → Button × List Call
unfolding fire
state_pressed b =
    let (up, up_calls) = fire b press_up in
    let (long, long_calls) = fire b long_press_start in
    if is_active b
    then (if ltb long_ticks b.ticks then (record long { state = 5 }, long_calls) else (b, []))
    else (record up { ticks = 0; state = 2 }, up_calls)

-- `case 2`, released, waiting for another press.
state_released : Button → Button × List Call
unfolding fire
state_released b =
    let (down, down_calls) = fire b press_down in
    let again = record down { repeat = (down.repeat + 1) % 256 } in
    let (single, single_calls) = fire b single_click in
    let (double, double_calls) = fire b double_click in
    if is_active b
    then (
      record again { ticks = 0; state = 3 },
      down_calls ++ button_callback_call again press_repeat,
    )
    else if ltb short_ticks b.ticks
    then (if b.repeat == 1
        then (record single { state = 0 }, single_calls)
        else if b.repeat == 2
        then (record double { state = 0 }, double_calls)
        else (record b { state = 0 }, []))
    else (b, [])

-- `case 3`, pressed again.
state_repeat : Button → Button × List Call
unfolding fire
state_repeat b =
    let (up, up_calls) = fire b press_up in
    if is_active b
    then (b, [])
    else if ltb b.ticks short_ticks
    then (record up { ticks = 0; state = 2 }, up_calls)
    else (record up { state = 0 }, up_calls)

-- `case 5`, held.
state_held : Button → Button × List Call
unfolding fire
state_held b =
    let (up, up_calls) = fire b press_up in
    if is_active b then fire b long_press_hold else (record up { state = 0 }, up_calls)

-- The `switch`; the states 4, 6 and 7 of the bit field have no case.
unfoldable pub switch_state : ℕ → Button → Button × List Call
unfolding state_idle state_pressed state_released state_repeat state_held
switch_state zero b = state_idle b
switch_state (suc zero) b = state_pressed b
switch_state (suc (suc zero)) b = state_released b
switch_state (suc (suc (suc zero))) b = state_repeat b
switch_state (suc (suc (suc (suc zero)))) b = (b, [])
switch_state (suc (suc (suc (suc (suc zero))))) b = state_held b
switch_state (suc (suc (suc (suc (suc (suc n)))))) b = (b, [])

-- One tick of the driver for one button, whose hardware reads `read`.
unfoldable pub button_handler : ℕ → Button → Button × List Call
button_handler read b = let b' = sample read b in switch_state b'.state b'

-- A run of the periodic timer: one sample each tick.
pub run : List ℕ → Button → Button × List Call
run [] b = (b, [])
run (read ∷ reads) b =
    let (b', calls) = button_handler read b in
    let (b'', rest) = run reads b' in (b'', calls ++ rest)
