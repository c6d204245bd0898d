-- ===== src/Tests/Boards.antt =====
-- The theorems on the expander and the terminals at concrete ones.
use n1cpu.Base.{
  Bool, false, not, ◌&&◌, ◌||◌, ltb, bit_or, bit_and, all_below, all_below_lem, Bool-cases, inl,
  inr, subst, ◌*◌, ◌<◌, ℕ, ◌/◌, ◌%◌, true, Option, none, some, refl, ◌≡◌, ◌==◌, arith,
  if◌then◌else◌,
}
use n1cpu.Out.{IsHal, to_bool}
use n1cpu.Out.Expander.{I2c, OutConfig, expander_hal, has_bit}
use n1cpu.Out.Expander.Laws.{IsMemory, IsBus, AreOutputs, expander_hal-IsHal, set_level_misread}

-- The contacts at the pins 6 and 7 of each device, and the bytes written.
abbrev Board : Type 0
Board = ℕ × (ℕ → ℕ)

abbrev inputs : ℕ → ℕ
inputs d = 192

-- What a device reads: its output pins as written, the others from the contacts.
abbrev seen : ℕ → ℕ → ℕ
seen contacts v = bit_or (bit_and v 63) (contacts % 4 * 64)

abbrev bus : I2c Board
bus = record {
  read = λ d h. some (seen h.0 (h.1 d % 256));
  write = λ d v h. (h.0, λ e. if d == e then v else h.1 e);
}

agree : ℕ → ℕ → ℕ → Bool
agree c v q =
    let as_written = if has_bit v q then has_bit (seen c v) q else not (has_bit (seen c v) q) in
    ltb (seen c v) 256 && (has_bit 192 q || as_written)

agree_below : all_below 4 (λ c. all_below 256 (λ v. all_below 8 (agree c v))) ≡ true
unfolding agree
agree_below = refl

agree_lem : (c v q : ℕ) → v < 256 → q < 8 → agree c v q ≡ true
unfolding agree
agree_lem c v q l k =
    let at_c =
      all_below_lem 4 (λ c. all_below 256 (λ v. all_below 8 (agree c v))) (c % 4) agree_below
        (omega arith) in
    let at_v = all_below_lem 256 (λ v. all_below 8 (agree (c % 4) v)) v at_c l in
    let e : c % 4 % 4 ≡ c % 4 = omega arith in
    subst
      (λ n.
        let r = bit_or (bit_and v 63) (n * 64) in
        (ltb r 256 && (has_bit 192 q || (if has_bit v q then has_bit r q else not (has_bit r q))))
        ≡ true)
      e (all_below_lem 8 (agree (c % 4) v) q at_v k)

seen_lem :
    (c v q : ℕ) → v < 256 → q < 8 → has_bit 192 q ≡ false → has_bit (seen c v) q ≡ has_bit v q
unfolding agree
seen_lem c v q l k o = ground (arith, agree_lem c v q l k, o)

seen_bound : (c v : ℕ) → v < 256 → seen c v < 256
unfolding agree
seen_bound c v l = ground (arith, agree_lem c v 0 l (omega arith))

bus-IsBus : IsBus bus inputs
bus-IsBus = record {
  memory = record {
    read_write = λ e d v q h l k o.
        let small : v % 256 ≡ v = omega arith in
        elim (Bool-cases (d == e)) [
          | inl t ↦ ground (arith, t, small, seen_lem h.0 v q l k o)
          | inr t ↦ ground (arith, t)
        ];
  };
  answers = λ d h. (seen h.0 (h.1 d % 256), refl, seen_bound h.0 (h.1 d % 256) (omega arith));
}

-- Six outputs on each device.
abbrev configs : ℕ → OutConfig
configs e = record { pin_num = e % 6; device = e / 6; reverse = 0 }

low_pins : all_below 6 (λ q. not (has_bit 192 q)) ≡ true
low_pins = refl

configs-AreOutputs : AreOutputs inputs configs
configs-AreOutputs = record {
  pins = λ e. omega arith;
  masks = λ d. omega arith;
  outs = λ e.
      ground (arith, all_below_lem 6 (λ q. not (has_bit 192 q)) (e % 6) low_pins (omega arith));
  apart = λ e d s t. omega arith;
}

expander_hal-IsHal_example : IsHal (expander_hal bus inputs configs)
expander_hal-IsHal_example = expander_hal-IsHal bus inputs bus-IsBus configs configs-AreOutputs

-- A bus on which a device answers only after it has been written.
abbrev mute : I2c (ℕ → Option ℕ)
mute = record { read = λ d h. h d; write = λ d v h e. if d == e then some v else h e }

mute-IsMemory : IsMemory mute inputs
mute-IsMemory = record { read_write = λ e d v q h l k o. ground arith }

set_level_misread_example :
    to_bool (
      (expander_hal mute inputs configs).get_level 2
        ((expander_hal mute inputs configs).set_level 1 0 (λ d. none)).1)
    ≡ true
set_level_misread_example =
    set_level_misread mute inputs mute-IsMemory configs 2 1 0 (λ d. none) configs-AreOutputs refl
      (λ e. omega (arith, e)) refl
