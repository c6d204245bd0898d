-- ===== src/Termostat/Readings.antt =====
-- What the readings of a thermostat can be, and that a turn of the task takes over what the gateway says.
use n1cpu.Base.{
  ℕ, ◌<◌, ◌%◌, Bool, true, false, ◌&&◌, ◌==◌, ◌≡◌, ◌≢◌, arith, List, ◌∷◌, none, some, Option-cases,
  inl, inr, ap, ◌∙◌, if◌then◌else◌, ◌⊎◌, Bool-cases, ltb, not,
}
use n1cpu.Termostat.{
  Termostat, I2cDev, at_read, report, local_send, command, digits, two_digits, gateway_read,
  read_twice, read_both, reading, write_thrice, request, gateway_write,
}

-- The answers of the gateway for the thermostat `id` in the states `at`, in which it is at `temp` and set to
-- `set`. A transfer may fail at any time; all transfers but a new setting lead to such a state again.
pub record IsGateway {W : Type 0} (i2c : I2cDev W) (id temp set : ℕ) (at : W → Bool) : Type 0 where
  pub atoi_digits : (n : ℕ) → n < 100 → i2c.atoi (two_digits n) ≡ n
  pub temp_answer :
      (w : W) (d : List ℕ)
      → at w ≡ true
      → (i2c.read (command 49 id) 6 w).0 ≡ some d
      → digits d ≡ two_digits temp
  pub set_answer :
      (w : W) (d : List ℕ)
      → at w ≡ true
      → (i2c.read (command 50 id) 6 w).0 ≡ some d
      → digits d ≡ two_digits set
  pub taken : (w : W) → at w ≡ true → at (i2c.take_mutex w).1 ≡ true
  pub given : (w : W) → at w ≡ true → at (i2c.give_mutex w).1 ≡ true
  pub was_read : (cm : List ℕ) (n : ℕ) (w : W) → at w ≡ true → at (i2c.read cm n w).1 ≡ true
  pub asked : (w : W) → at w ≡ true → at (i2c.write (command 52 id) w).1 ≡ true

module _ {W : Type 0} (i2c : I2cDev W) where
  gateway_read-some :
      (cm : List ℕ) (w : W) (d : List ℕ)
      → (gateway_read i2c cm 6 w).0 ≡ some d
      → (w' : W) × ((i2c.read cm 6 w').0 ≡ some d)
  unfolding gateway_read
  gateway_read-some cm w d e = ((i2c.take_mutex w).1, ground (arith, e))

  read_twice-some :
      (cm : List ℕ) (w : W) (d : List ℕ)
      → (read_twice i2c cm w).0 ≡ some d
      → (w' : W) × ((i2c.read cm 6 w').0 ≡ some d)
  unfolding read_twice
  read_twice-some cm w d e = elim (Option-cases (gateway_read i2c cm 6 w).0) [
    | inl n ↦ gateway_read-some cm (gateway_read i2c cm 6 w).1 d (ground (arith, e, n))
    | inr (d', s) ↦ gateway_read-some cm w d (ground (arith, e, s))
  ]

-- What a turn of the task does that takes over values.
pub record Taken {W : Type 0} (i2c : I2cDev W) (t t' : Termostat W) : Type 0 where
  pub temp_bytes : List ℕ
  pub temp_state : W
  pub temp_read : (i2c.read (command 49 t.id) 6 temp_state).0 ≡ some temp_bytes
  pub temp_taken : t'.temp ≡ reading i2c temp_bytes
  pub set_bytes : List ℕ
  pub set_state : W
  pub set_read : (i2c.read (command 50 t.id) 6 set_state).0 ≡ some set_bytes
  pub set_taken : t'.set ≡ reading i2c set_bytes
  pub positive : (0 < t'.temp) × (0 < t'.set)
  pub new : (t'.temp == t.temp && t'.set == t.set) ≡ false
  pub told : t'.sent ≡ request t' ∷ t.sent

-- A turn of the task, whatever the bus does, leaves the values and makes no request, or it takes over both
-- from bytes that a read of the temperature and a read of the setting have brought, both above 0 and not both
-- as before, and makes one request, with them.
pub at_read-Taken :
    {W : Type 0} (i2c : I2cDev W) (t : Termostat W)
    → let t' = at_read i2c t in
      ((t'.temp ≡ t.temp) × (t'.set ≡ t.set) × (t'.sent ≡ t.sent)) ⊎ Taken i2c t t'
unfolding at_read report local_send read_both
at_read-Taken i2c t =
    let asked = if t.read_s then write_thrice i2c (command 52 t.id) t.world else (true, t.world) in
    let w = asked.1 in
    let w1 = (read_twice i2c (command 49 t.id) w).1 in
    elim (Bool-cases asked.0) [
      | inr ok ↦ inl (ground (arith, ok))
      | inl ok ↦ elim (Option-cases (read_twice i2c (command 49 t.id) w).0) [
        | inl e ↦ inl (ground (arith, ok, e))
        | inr (d, e) ↦ elim (Option-cases (read_twice i2c (command 50 t.id) w1).0) [
          | inl f ↦ inl (ground (arith, ok, e, f))
          | inr (s, f) ↦
              let a = reading i2c d in
              let b = reading i2c s in
              let same = a == t.temp && b == t.set in
              elim (Bool-cases (ltb 0 a && ltb 0 b && not same)) [
                | inr n ↦ inl (ground (arith, ok, e, f, n))
                | inl y ↦
                    let (w2, g) = read_twice-some i2c (command 49 t.id) w d e in
                    let (w3, h) = read_twice-some i2c (command 50 t.id) w1 s f in
                    inr (record {
                      temp_bytes = d;
                      temp_state = w2;
                      temp_read = g;
                      temp_taken = ground (arith, ok, e, f, y);
                      set_bytes = s;
                      set_state = w3;
                      set_read = h;
                      set_taken = ground (arith, ok, e, f, y);
                      positive = ground (arith, ok, e, f, y);
                      new = ground (arith, ok, e, f, y);
                      told = ground (arith, ok, e, f, y);
                    })
              ]
        ]
      ]
    ]

module _ {W : Type 0} (i2c : I2cDev W) (id temp set : ℕ) (at : W → Bool)
    (g : IsGateway i2c id temp set at) where
  at_gateway_read : (cm : List ℕ) (w : W) → at w ≡ true → at (gateway_read i2c cm 6 w).1 ≡ true
  unfolding gateway_read
  at_gateway_read cm w h =
      let a = g.taken w h in
      let b = g.was_read cm 6 (i2c.take_mutex w).1 a in
      ground (arith, a, g.given (i2c.read cm 6 (i2c.take_mutex w).1).1 b)

  at_gateway_write : (w : W) → at w ≡ true → at (gateway_write i2c (command 52 id) w).1 ≡ true
  unfolding gateway_write
  at_gateway_write w h =
      let a = g.taken w h in
      let b = g.asked (i2c.take_mutex w).1 a in
      ground (arith, a, g.given (i2c.write (command 52 id) (i2c.take_mutex w).1).1 b)

  at_write_thrice : (w : W) → at w ≡ true → at (write_thrice i2c (command 52 id) w).1 ≡ true
  unfolding write_thrice
  at_write_thrice w h =
      let w1 = (gateway_write i2c (command 52 id) w).1 in
      let w2 = (gateway_write i2c (command 52 id) w1).1 in
      let a = at_gateway_write w h in
      let b = at_gateway_write w1 a in ground (arith, a, b, at_gateway_write w2 b)

  at_read_twice : (cm : List ℕ) (w : W) → at w ≡ true → at (read_twice i2c cm w).1 ≡ true
  unfolding read_twice
  at_read_twice cm w h =
      let a = at_gateway_read cm w h in
      let b = at_gateway_read cm (gateway_read i2c cm 6 w).1 a in
      elim (Option-cases (gateway_read i2c cm 6 w).0) [
        | inl n ↦ ground (arith, a, b, n)
        | inr (d, n) ↦ ground (arith, a, b, n)
      ]

  gateway_read_at :
      (cm : List ℕ) (n : ℕ)
      → ((w : W) (d : List ℕ)
          → at w ≡ true
          → (i2c.read cm 6 w).0 ≡ some d
          → digits d ≡ two_digits n)
      → (w : W) (d : List ℕ) → at w ≡ true
      → (gateway_read i2c cm 6 w).0 ≡ some d
      → digits d ≡ two_digits n
  unfolding gateway_read
  gateway_read_at cm n says w d h e = says (i2c.take_mutex w).1 d (g.taken w h) (ground (arith, e))

  answered :
      (cm : List ℕ) (n : ℕ)
      → n < 100
      → ((w : W) (d : List ℕ)
          → at w ≡ true
          → (i2c.read cm 6 w).0 ≡ some d
          → digits d ≡ two_digits n)
      → (w : W) (d : List ℕ) → at w ≡ true
      → (read_twice i2c cm w).0 ≡ some d
      → reading i2c d ≡ n
  unfolding read_twice
  answered cm n l says w d h e =
      let got : digits d ≡ two_digits n = elim (Option-cases (gateway_read i2c cm 6 w).0) [
        | inl f ↦
            gateway_read_at cm n says (gateway_read i2c cm 6 w).1 d (at_gateway_read cm w h)
              (ground (arith, e, f))
        | inr (d', f) ↦ gateway_read_at cm n says w d h (ground (arith, e, f))
      ] in
      ap (λ q. i2c.atoi q % 256) got ∙ omega (arith, g.atoi_digits n l)

-- If the gateway is and stays at two values, and one of three writes and one of two reads always gets through,
-- one turn of the task takes over both, and calls back with them exactly if one of them is new.
pub at_read_lem :
    {W : Type 0} (i2c : I2cDev W) (temp set : ℕ) (at : W → Bool) (t : Termostat W)
    → IsGateway i2c t.id temp set at
    → at t.world ≡ true
    → temp < 100
    → set < 100
    → 0 < temp
    → 0 < set
    → ((cm : List ℕ) (w : W) → (write_thrice i2c cm w).0 ≡ true)
    → ((cm : List ℕ) (w : W) → (read_twice i2c cm w).0 ≢ none)
    → let t' = at_read i2c t in
      let same = t.temp == temp && t.set == set in
      (t'.temp ≡ temp) × (t'.set ≡ set) × (t'.sent ≡ (if same then t.sent else request t' ∷ t.sent))
unfolding at_read report local_send read_both
at_read_lem i2c temp set at t g start l m p q written heard =
    let cm = command 52 t.id in
    let asked = if t.read_s then write_thrice i2c cm t.world else (true, t.world) in
    let w = asked.1 in
    let w1 = (read_twice i2c (command 49 t.id) w).1 in
    let here : at w ≡ true =
      ground (arith, start, at_write_thrice i2c t.id temp set at g t.world start) in
    let later = at_read_twice i2c t.id temp set at g (command 49 t.id) w here in
    let ok : asked.0 ≡ true = ground (arith, written cm t.world) in
    elim (Option-cases (read_twice i2c (command 49 t.id) w).0) [
      | inl e ↦ absurd (heard (command 49 t.id) w e)
      | inr (d, e) ↦ elim (Option-cases (read_twice i2c (command 50 t.id) w1).0) [
        | inl f ↦ absurd (heard (command 50 t.id) w1 f)
        | inr (s, f) ↦
            let a =
              answered i2c t.id temp set at g (command 49 t.id) temp l g.temp_answer w d here e in
            let b =
              answered i2c t.id temp set at g (command 50 t.id) set m g.set_answer w1 s later f in
            ground (arith, a, b, e, f, ok)
      ]
    ]
