-- ===== src/Tests/Gateway.antt =====
-- The theorems on the thermostats behind the gateway, with one at 21 degrees that is set to 23.
use n1cpu.Base.{
  ℕ, ◌+◌, ◌*◌, ◌-◌, ◌<◌, Bool, true, false, ◌==◌, none, some, List, [], ◌∷◌, ◌≡◌, refl, arith,
  if◌then◌else◌, ◌≢◌, ap, ◌∙◌, ◌⊎◌,
}
use n1cpu.Termostat.{
  I2cDev, Termostat, at_read, gateway_read, gateway_write, write_thrice, read_twice, two_digits,
  command, digits,
}
use n1cpu.Termostat.Readings.{IsGateway, Taken, at_read-Taken, at_read_lem}

-- The setting, and a count: every other transfer fails.
abbrev Gate : Type 0
Gate = ℕ × ℕ

abbrev next : ℕ → ℕ
next n = if n == 1 then 0 else n + 1

abbrev to_number : List ℕ → ℕ
to_number (a ∷ b ∷ cs) = (a - 48) * 10 + (b - 48)
to_number cs = 0

abbrev reply : ℕ → List ℕ → List ℕ
reply set (a ∷ c ∷ cs) = 51 ∷ c ∷ 48 ∷ 53 ∷ (if c == 49 then 50 ∷ 49 ∷ [] else two_digits set)
reply set cm = cm

-- The command '33' gives a new setting.
abbrev obeyed : ℕ → List ℕ → ℕ
obeyed set (a ∷ c ∷ d ∷ e ∷ xs) = if c == 51 then to_number xs else set
obeyed set cm = set

abbrev bus : I2cDev Gate
bus = record {
  take_mutex = λ w. (true, w);
  give_mutex = λ w. (true, w);
  read = λ out n w. (if w.1 == 1 then none else some (reply w.0 out), (w.0, next w.1));
  write = λ val w. (if w.1 == 1 then false else true, (obeyed w.0 val, next w.1));
  atoi = to_number;
}

two_digits-to_number : (n : ℕ) → n < 100 → to_number (two_digits n) ≡ n
two_digits-to_number n h = ground arith

is_answer : (n : ℕ) (x d : List ℕ) → (if n == 1 then none else some x) ≡ some d → d ≡ x
is_answer n x d e = ground arith

abbrev at_23 : Gate → Bool
at_23 w = w.0 == 23

bus-IsGateway : IsGateway bus 5 21 23 at_23
bus-IsGateway = record {
  atoi_digits = two_digits-to_number;
  temp_answer = λ w d h e. ap digits (is_answer w.1 (reply w.0 (command 49 5)) d e);
  set_answer = λ w d h e.
      let s : w.0 ≡ 23 = ground arith in
      ap digits (is_answer w.1 (reply w.0 (command 50 5)) d e)
      ∙ ap (λ n. digits (reply n (command 50 5))) s;
  taken = λ w h. h;
  given = λ w h. h;
  was_read = λ cm n w h. h;
  asked = λ w h. h;
}

abbrev unread : Termostat Gate
unread = record {
  name = "salon";
  id = 5;
  temp = 0;
  set = 0;
  error = 0;
  read_s = true;
  sent = [];
  world = (23, 1);
}

at_read-Taken_example :
    (((at_read bus unread).temp ≡ 0)
      × ((at_read bus unread).set ≡ 0)
      × ((at_read bus unread).sent ≡ []))
    ⊎ Taken bus unread (at_read bus unread)
at_read-Taken_example = at_read-Taken bus unread

written : (cm : List ℕ) (w : Gate) → (write_thrice bus cm w).0 ≡ true
unfolding write_thrice gateway_write
written cm w = ground arith

heard : (cm : List ℕ) (w : Gate) → (read_twice bus cm w).0 ≢ none
unfolding read_twice gateway_read
heard cm w = ground arith

at_read_lem_example :
    ((at_read bus unread).temp ≡ 21)
    × ((at_read bus unread).set ≡ 23)
    × ((at_read bus unread).sent
        ≡ record {
          temp = (at_read bus unread).temp;
          stemp = (at_read bus unread).set;
          irval = (at_read bus unread).name;
        }
          ∷ [])
at_read_lem_example =
    at_read_lem bus 21 23 at_23 unread bus-IsGateway refl (ground arith) (ground arith)
      (ground arith) (ground arith) written heard
