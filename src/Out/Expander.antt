-- ===== src/Out/Expander.antt =====
-- components/home/library/pcf/ice_pcf8574.c, out/out_8574.c and button/button_8574.c: eight pins behind
-- a PCF8574, whose byte is read and written over I2C. The transfers of i2cdev.c are parameters. A byte
-- that cannot be read is `none`, and what a write returns is ignored by the callers.
pub mod Bits
pub mod Laws
use n1cpu.Base.{
  ℕ, ◌-◌, ◌^◌, ◌%◌, Bool, true, false, not, Option, none, some, ◌==◌, ltb, if◌then◌else◌, bit_and,
  bit_or,
}
use n1cpu.Out.{Hal, of_bool, to_bool}

pub record I2c (Hw : Type 0) : Type 0 where
  pub read : ℕ → Hw → Option ℕ
  pub write : ℕ → ℕ → Hw → Hw

-- `out_8574_config_t`; a device is a number.
pub record OutConfig : Type 0 where
  pub pin_num : ℕ
  pub device : ℕ
  pub reverse : ℕ

-- `dt &= ~(1 << pin)` and `dt |= (1 << pin)` on a byte, and `(dt & (1 << pin)) > 0`.
abbrev pub clear_bit : ℕ → ℕ → ℕ
clear_bit dt pin = bit_and dt (2 ^ 32 - 1 - 2 ^ pin) % 256

abbrev pub set_bit : ℕ → ℕ → ℕ
set_bit dt pin = bit_or dt (2 ^ pin) % 256

abbrev pub has_bit : ℕ → ℕ → Bool
has_bit dt pin = ltb 0 (bit_and dt (2 ^ pin))

-- `pcf8574_set_direction`, on the mask `reg` of a device's input pins.
unfoldable pcf8574_set_direction : ℕ → ℕ → ℕ → ℕ
pcf8574_set_direction pin dir reg = if dir == 0 then clear_bit reg pin else set_bit reg pin

-- `uint8_t dt=0; pcf8574_port_read(dev,&dt);`, whose result is not looked at.
abbrev pub byte_of : Option ℕ → ℕ
byte_of none = 0
byte_of (some v) = v

-- `!n`.
abbrev pub c_not : ℕ → ℕ
c_not n = of_bool (not (to_bool n))

-- `if (cfg->reverse==1) aa=!aa;`.
abbrev pub flip : ℕ → ℕ → ℕ
flip reverse aa = if reverse == 1 then c_not aa else aa

-- The byte that `pcf8574_pin_write` makes of the one that was read.
abbrev pub new_byte : ℕ → ℕ → ℕ → ℕ → ℕ
new_byte reg pin val dt = bit_or (if val == 0 then clear_bit dt pin else set_bit dt pin) reg % 256

module _ {Hw : Type 0} (i2c : I2c Hw) where
  unfoldable pub pcf8574_port_read : ℕ → Hw → ℕ
  pcf8574_port_read dev h = byte_of (i2c.read dev h)

  -- `aa`, the byte with the input pins set, is computed and not used.
  unfoldable pcf8574_port_write : ℕ → ℕ → Hw → Hw
  pcf8574_port_write dev val h = i2c.write dev val h

  unfoldable pub pcf8574_pin_write : (ℕ → ℕ) → ℕ → ℕ → ℕ → Hw → Hw
  unfolding pcf8574_port_read
  pcf8574_pin_write reg dev pin val h =
      i2c.write dev (new_byte (reg dev) pin val (pcf8574_port_read dev h)) h

  unfoldable pub pcf8574_pin_read : ℕ → ℕ → Hw → ℕ
  unfolding pcf8574_port_read
  pcf8574_pin_read dev pin h = of_bool (has_bit (pcf8574_port_read dev h) pin)

  -- A push button: its pin becomes an input, and is pulled up.
  unfoldable button_8574_init : (ℕ → ℕ) → ℕ → ℕ → Hw → (ℕ → ℕ) × Hw
  unfolding pcf8574_pin_write
  button_8574_init reg dev pin h =
      let reg' = λ (d : ℕ). if d == dev then set_bit (reg d) pin else reg d in
      (reg', pcf8574_pin_write reg' dev pin 1 h)

  unfoldable button_8574_get_key_level : ℕ → ℕ → Hw → ℕ
  unfolding pcf8574_port_read
  button_8574_get_key_level dev pin h = of_bool (has_bit (pcf8574_port_read dev h) pin)

  -- An output is on while its pin is low, unless it is reversed.
  unfoldable pub out_read : OutConfig → Hw → ℕ
  unfolding pcf8574_pin_read
  out_read cfg h = c_not (flip cfg.reverse (pcf8574_pin_read cfg.device cfg.pin_num h))

  module _ (reg : ℕ → ℕ) where
    unfoldable pub out_write : ℕ → OutConfig → Hw → Hw
    unfolding pcf8574_pin_write
    out_write level cfg h =
        pcf8574_pin_write reg cfg.device cfg.pin_num (c_not (flip cfg.reverse level)) h

    -- `hardware` points to the configuration of an output; here it is a number that `configs` gives
    -- the configuration of.
    module _ (configs : ℕ → OutConfig) where
      unfoldable out_8574_get_level : ℕ → Hw → ℕ
      unfolding out_read
      out_8574_get_level hardware h = out_read (configs hardware) h

      unfoldable out_8574_set_level : ℕ → ℕ → Hw → ℕ × Hw
      unfolding out_read out_write
      out_8574_set_level hardware level h =
          let h' = out_write level (configs hardware) h in (out_read (configs hardware) h', h')

      unfoldable out_8574_toggle_level : ℕ → Hw → ℕ × Hw
      unfolding out_read out_write
      out_8574_toggle_level hardware h =
          let level = out_read (configs hardware) h in
          (c_not level, out_write (c_not level) (configs hardware) h)

      -- The three pointers that `iot_out_create` sets for an output of an expander.
      unfoldable pub expander_hal : Hal Hw
      unfolding out_8574_set_level out_8574_get_level out_8574_toggle_level
      expander_hal = record {
        set_level = out_8574_set_level;
        get_level = out_8574_get_level;
        toggle_level = out_8574_toggle_level;
      }
