-- ===== src/Out/Expander/Laws.antt =====
-- The expander as an output driver, where the bus works, and a write after a read that fails.
use n1cpu.Base.{
  ℕ, ◌<◌, false, not, ◌&&◌, none, some, ◌==◌, ==_iff, ◌≡◌, ◌≢◌, arith, if◌then◌else◌, Bool-cases,
  inl, inr,
}
use n1cpu.Out.{IsHal, to_bool}
use n1cpu.Out.Expander.{
  I2c, byte_of, OutConfig, has_bit, new_byte, c_not, flip, pcf8574_port_read, pcf8574_pin_read,
  pcf8574_pin_write, out_read, out_write, expander_hal,
}
use n1cpu.Out.Expander.Bits.{new_byte-has_bit, has_bit-zero}

-- The pins of a device that are not inputs (`reg` is the mask of its inputs) read the level that was written
-- to them last, and a write to another device changes none of them. What an input reads is left open.
pub record IsMemory {Hw : Type 0} (i2c : I2c Hw) (reg : ℕ → ℕ) : Type 0 where
  pub read_write :
      (e d v q : ℕ) (h : Hw)
      → v < 256
      → q < 8
      → has_bit (reg e) q ≡ false
      → has_bit (byte_of (i2c.read e (i2c.write d v h))) q
        ≡ (if d == e then has_bit v q else has_bit (byte_of (i2c.read e h)) q)

-- A bus on which every device answers whenever it is read.
pub record IsBus {Hw : Type 0} (i2c : I2c Hw) (reg : ℕ → ℕ) : Type 0 where
  pub memory : IsMemory i2c reg
  pub answers : (d : ℕ) (h : Hw) → (v : ℕ) × (i2c.read d h ≡ some v) × (v < 256)

-- The outputs stand on pins of their own, none of them an input.
pub record AreOutputs (reg : ℕ → ℕ) (configs : ℕ → OutConfig) : Type 0 where
  pub pins : (e : ℕ) → (configs e).pin_num < 8
  pub masks : (d : ℕ) → reg d < 256
  pub outs : (e : ℕ) → has_bit (reg (configs e).device) (configs e).pin_num ≡ false
  pub apart :
      (e d : ℕ)
      → (configs e).device ≡ (configs d).device
      → (configs e).pin_num ≡ (configs d).pin_num
      → e ≡ d

module _ {Hw : Type 0} (i2c : I2c Hw) (reg : ℕ → ℕ) (bus : IsBus i2c reg) where
  -- A pin reads what was last written to it, and no other output pin changes.
  pin_read-pin_write :
      (d' p' d p val : ℕ) (h : Hw)
      → p' < 8
      → p < 8
      → ((d : ℕ) → reg d < 256)
      → has_bit (reg d') p' ≡ false
      → to_bool (pcf8574_pin_read i2c d' p' (pcf8574_pin_write i2c reg d p val h))
        ≡ (if (d == d') && (p == p') then to_bool val else to_bool (pcf8574_pin_read i2c d' p' h))
  unfolding pcf8574_pin_read pcf8574_pin_write pcf8574_port_read
  pin_read-pin_write d' p' d p val h lp' lp lr out =
      let (v, e, l) = bus.answers d h in
      ground (
        arith,
        e,
        bus.memory.read_write d' d (new_byte (reg d) p val v) p' h (omega arith) lp' out,
        new_byte-has_bit p' p val v (reg d) lp' lp l (lr d),
        ==_iff d d',
        out,
      )

  module _ (configs : ℕ → OutConfig) (are : AreOutputs reg configs) where
    read-write :
        (e d level : ℕ) (h : Hw)
        → to_bool (out_read i2c (configs e) (out_write i2c reg level (configs d) h))
          ≡ (if d == e then to_bool level else to_bool (out_read i2c (configs e) h))
    unfolding out_read out_write
    read-write e d level h =
        let a = configs e in
        let b = configs d in
        let written =
          pin_read-pin_write a.device a.pin_num b.device b.pin_num (c_not (flip b.reverse level)) h
            (are.pins e) (are.pins d) are.masks (are.outs e) in
        elim (Bool-cases (d == e)) [
          | inl same ↦ ground (arith, written, ==_iff d e, ==_iff b.device a.device)
          | inr other ↦
              ground (
                arith,
                written,
                are.apart d e,
                ==_iff b.device a.device,
                ==_iff b.pin_num a.pin_num,
              )
        ]

    -- Where every device answers, the output pins read as they were written, and the outputs stand on pins
    -- of their own, apart from the inputs of the devices, the driver keeps the contract of an output
    -- driver, reversed outputs included: a set or a toggle of an output returns the level that it then
    -- has, and every other output keeps its own.
    pub expander_hal-IsHal : IsHal (expander_hal i2c reg configs)
    unfolding expander_hal
    expander_hal-IsHal = record {
      set_returns = λ d l h. ground (arith, read-write d d l h);
      get-set = λ e d l h. ground (arith, read-write e d l h);
      toggle_returns = λ d h. ground arith;
      get-toggle = λ e d h. ground (arith, read-write e d (c_not (out_read i2c (configs d) h)) h);
    }

module _ {Hw : Type 0} (i2c : I2c Hw) (reg : ℕ → ℕ) (memory : IsMemory i2c reg) where
  failed_byte :
      (q p val d : ℕ) (h : Hw)
      → q < 8
      → p < 8
      → p ≢ q
      → ((d : ℕ) → reg d < 256)
      → has_bit (reg d) q ≡ false
      → i2c.read d h ≡ none
      → to_bool (pcf8574_pin_read i2c d q (pcf8574_pin_write i2c reg d p val h)) ≡ false
  unfolding pcf8574_pin_read pcf8574_pin_write pcf8574_port_read
  failed_byte q p val d h lq lp ne lr out fails = ground (
    arith,
    fails,
    memory.read_write d d (new_byte (reg d) p val 0) q h (omega arith) lq out,
    new_byte-has_bit q p val 0 (reg d) lq lp (omega arith) (lr d),
    has_bit-zero q lq,
    out,
    ne,
  )

  -- Where output pins read as they were written: when the byte of an expander cannot be read while one of
  -- its outputs is set, every other output of that expander is written too: the ones that are not reversed
  -- go on, the reversed ones off.
  pub set_level_misread :
      (configs : ℕ → OutConfig) (e d level : ℕ) (h : Hw)
      → AreOutputs reg configs
      → (configs e).device ≡ (configs d).device
      → (configs d).pin_num ≢ (configs e).pin_num
      → i2c.read (configs d).device h ≡ none
      → let h' = ((expander_hal i2c reg configs).set_level d level h).1 in
        to_bool ((expander_hal i2c reg configs).get_level e h') ≡ not ((configs e).reverse == 1)
  unfolding expander_hal out_read out_write
  set_level_misread configs e d level h are same ne fails =
      let a = configs e in
      let b = configs d in
      ground (
        arith,
        same,
        failed_byte a.pin_num b.pin_num (c_not (flip b.reverse level)) b.device h (are.pins e)
            (are.pins d) ne are.masks (ground (arith, are.outs e, same)) fails,
      )
