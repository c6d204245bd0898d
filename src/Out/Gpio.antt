-- ===== src/Out/Gpio.antt =====
-- components/home/library/out/out_gpio.c: the output driver of a GPIO pin. The pins are reached by
-- `gpio_set_level` and `gpio_get_level` of the ESP-IDF, which are parameters here.
use n1cpu.Base.{ℕ, not, if◌then◌else◌, ◌==◌, ◌≡◌, arith}
use n1cpu.Out.{Hal, IsHal, to_bool, of_bool}

pub record Pins (Hw : Type 0) : Type 0 where
  pub gpio_set_level : ℕ → ℕ → Hw → Hw
  pub gpio_get_level : ℕ → Hw → ℕ

-- A pin of mode INPUT_OUTPUT reads 1 after a level other than 0 and 0 after 0, and no other pin
-- changes.
pub record IsPins {Hw : Type 0} (pins : Pins Hw) : Type 0 where
  pub get-set :
      (e d l : ℕ) (h : Hw)
      → pins.gpio_get_level e (pins.gpio_set_level d l h)
        ≡ (if d == e then of_bool (to_bool l) else pins.gpio_get_level e h)

module _ {Hw : Type 0} (pins : Pins Hw) where
  unfoldable pub out_gpio_get_level : ℕ → Hw → ℕ
  out_gpio_get_level gpio_num h = pins.gpio_get_level gpio_num h

  unfoldable pub out_gpio_set_level : ℕ → ℕ → Hw → ℕ × Hw
  out_gpio_set_level gpio_num level h = (level, pins.gpio_set_level gpio_num level h)

  unfoldable out_gpio_toggle_level : ℕ → Hw → ℕ × Hw
  unfolding out_gpio_get_level
  out_gpio_toggle_level gpio_num h =
      let level = out_gpio_get_level gpio_num h in
      let flipped = of_bool (not (to_bool level)) in
      (flipped, pins.gpio_set_level gpio_num flipped h)

  -- The three pointers that `iot_out_create` sets for a GPIO output.
  unfoldable pub gpio_hal : Hal Hw
  unfolding out_gpio_set_level out_gpio_get_level out_gpio_toggle_level
  gpio_hal = record {
    set_level = out_gpio_set_level;
    get_level = out_gpio_get_level;
    toggle_level = out_gpio_toggle_level;
  }

-- Where the pins behave, the driver is one: a set or a toggle of an output returns the level that
-- the output then has, every other output keeps its own.
pub gpio_hal-IsHal : {Hw : Type 0} (pins : Pins Hw) → IsPins pins → IsHal (gpio_hal pins)
unfolding gpio_hal
gpio_hal-IsHal pins laws = record {
  set_returns = λ d l h. ground arith;
  get-set = λ e d l h. ground (arith, laws.get-set e d l h);
  toggle_returns = λ d h. ground arith;
  get-toggle = λ e d h.
      ground (arith, laws.get-set e d (of_bool (not (to_bool (pins.gpio_get_level d h)))) h);
}
