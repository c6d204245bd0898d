-- ===== src/Air/Bits.antt =====
-- The byte `int_st` and its bit fields.
use n1cpu.Base.{ℕ, ◌<◌, ◌==◌, ◌≡◌, refl, arith, all_below_lem, ==_iff}
use n1cpu.Air.{AirStatus, of_int_st, int_st}

-- Every byte is what its bit fields make.
pub int_st-of_int_st : (n : ℕ) → n < 256 → int_st (of_int_st n) ≡ n
unfolding int_st of_int_st
int_st-of_int_st n h =
    (==_iff (int_st (of_int_st n)) n).0
      (all_below_lem 256 (λ k. int_st (of_int_st k) == k) n refl h)

pub of_int_st-int_st : (s : AirStatus) → s.bos < 4 → of_int_st (int_st s) ≡ s
unfolding int_st of_int_st
of_int_st-int_st s h = ground arith
