-- ===== src/Termostat.antt =====
-- components/home/library/termostat/termostat.cpp, pcf/i2c_gateway.c: a thermostat behind the gateway on the
-- I2C bus. The transfers and the mutex of i2cdev.c and the library's `atoi` are parameters; `atoi` is 0 for
-- a text of no positive number, which the source treats alike. `read_send` and the timer
-- of `ter_tim_callback`, which nothing calls or starts, are left out.
pub mod Readings
use n1cpu.Base.{
  ℕ, zero, suc, ◌+◌, ◌/◌, ◌%◌, Bool, true, false, not, ◌&&◌, ◌||◌, ◌==◌, ltb, Option, none, some,
  List, [], ◌∷◌, ◌++◌, take, drop, String, if◌then◌else◌,
}

pub record I2cDev (W : Type 0) : Type 0 where
  pub take_mutex : W → Bool × W
  pub give_mutex : W → Bool × W
  -- The bytes sent and the number of bytes to read.
  pub read : List ℕ → ℕ → W → Option (List ℕ) × W
  pub write : List ℕ → W → Bool × W
  pub atoi : List ℕ → ℕ

-- The message E_REQ of `local_send`, `ter_tim_callback`.
pub record Request : Type 0 where
  pub temp : ℕ
  pub stemp : ℕ
  pub irval : String

-- `sent` holds the calls of `callback`, newest first.
pub record Termostat (W : Type 0) : Type 0 where
  pub name : String
  pub id : ℕ
  pub temp : ℕ
  pub set : ℕ
  pub error : ℕ
  pub read_s : Bool
  pub sent : List Request
  pub world : W

-- `%02d` of a byte.
abbrev pub two_digits : ℕ → List ℕ
two_digits n =
    if ltb n 100
    then (48 + n / 10) ∷ (48 + n % 10) ∷ []
    else (48 + n / 100) ∷ (48 + n / 10 % 10) ∷ (48 + n % 10) ∷ []

-- The four bytes of the commands '31', '32' and '34'.
abbrev pub command : ℕ → ℕ → List ℕ
command c id = take 4 (51 ∷ c ∷ two_digits id)

-- `memcpy(tmp,dt+4,2)`.
abbrev pub digits : List ℕ → List ℕ
digits dt = take 2 (drop 4 dt)

abbrev pub request : {W : Type 0} → Termostat W → Request
request t = record { temp = t.temp; stemp = t.set; irval = t.name }

unfoldable pub local_send : {W : Type 0} → Termostat W → Termostat W
local_send t = record t { sent = request t ∷ t.sent }

-- What one turn of `at_read_task` does with the two readings.
unfoldable pub report : {W : Type 0} → ℕ → ℕ → Termostat W → Termostat W
report ttemp tset t =
    if ltb 0 ttemp && ltb 0 tset && (not (ttemp == t.temp) || not (tset == t.set))
    then local_send (record t { set = tset; temp = ttemp })
    else t

module _ {W : Type 0} (i2c : I2cDev W) where
  unfoldable pub gateway_read : List ℕ → ℕ → W → Option (List ℕ) × W
  gateway_read out vallen w =
      let (taken, w1) = i2c.take_mutex w in
      let (ret, w2) = i2c.read out vallen w1 in
      let (given, w3) = i2c.give_mutex w2 in
      if not taken then (none, w1) else if given then (ret, w3) else (none, w3)

  unfoldable pub gateway_write : List ℕ → W → Bool × W
  gateway_write val w =
      let (taken, w1) = i2c.take_mutex w in
      let (ret, w2) = i2c.write val w1 in
      let (given, w3) = i2c.give_mutex w2 in if not taken then (false, w1) else (given && ret, w3)

  -- The three writes of the command '34'.
  unfoldable pub write_thrice : List ℕ → W → Bool × W
  write_thrice cm w =
      let (ok1, w1) = gateway_write cm w in
      let (ok2, w2) = gateway_write cm w1 in
      let (ok3, w3) = gateway_write cm w2 in
      if ok1 then (true, w1) else if ok2 then (true, w2) else (ok3, w3)

  unfoldable pub read_twice : List ℕ → W → Option (List ℕ) × W
  read_twice cm w =
      let (dt1, w1) = gateway_read cm 6 w in
      let (dt2, w2) = gateway_read cm 6 w1 in
      elim dt1 [ some dt ↦ (some dt, w1) | none ↦ (dt2, w2) ]

  -- `atoi(tmp)` in a byte.
  abbrev pub reading : List ℕ → ℕ
  reading dt = i2c.atoi (digits dt) % 256

  -- The readings of the temperature and of the setting; 0 stands for the flag that was not set.
  unfoldable pub read_both : ℕ → W → ℕ × ℕ × W
  read_both id w =
      let (dt, w1) = read_twice (command 49 id) w in
      let (st, w2) = read_twice (command 50 id) w1 in
      elim dt [
        | none ↦ (0, 0, w1)
        | some d ↦ elim st [ none ↦ (reading d, 0, w2) | some s ↦ (reading d, reading s, w2) ]
      ]

  -- One turn of `at_read_task` after its semaphore, while no other thermostat is read.
  unfoldable pub at_read : Termostat W → Termostat W
  at_read t =
      let (ok, w1) = if t.read_s then write_thrice (command 52 t.id) t.world else (true, t.world) in
      let asked = record t { read_s = true; world = w1 } in
      let (ttemp, tset, w2) = read_both t.id w1 in
      if ok then report ttemp tset (record asked { world = w2 }) else asked

  -- The setting as the byte that the source makes of it.
  unfoldable pub set_set_temp : ℕ → Termostat W → Termostat W
  set_set_temp temp t =
      let (ok, w) =
        gateway_write (take 6 (51 ∷ 51 ∷ (two_digits t.id ++ two_digits temp))) t.world in
      record t { world = w }

  -- The same with the flag `int_en`, which all thermostats share: does the task of another one read now?
  unfoldable pub wake : Bool → Termostat W → Termostat W
  wake int_en t = if int_en then t else at_read t
