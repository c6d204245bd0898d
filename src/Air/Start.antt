-- ===== src/Air/Start.antt =====
-- The limits of the configuration, and the first start.
use n1cpu.Base.{ℕ, ◌%◌, ◌<◌, Bool, false, ◌≡◌, ◌↔◌, ◌⊎◌, arith}
use n1cpu.Core.{Status}
use n1cpu.Out.{World}
use n1cpu.Func.{write_status}
use n1cpu.Air.{Float, create, configured, durum_to_status, int_st}

-- The limits leave a range exactly when the maximum of the configuration is above the minimum or the
-- minimum, 18 in place of 0, is below 30.
pub configured_range :
    (global timer : ℕ)
    → ((configured global timer).min_temp < (configured global timer).max_temp)
      ↔ ((global % 32 < timer % 128) ⊎ (global % 32 < 30))
configured_range global timer = ground arith

-- A thermostat without a stored status starts with both temperatures 0, not with the ones that
-- it is given.
pub create_zero :
    {Hw : Type 0} (fl : Float) (id : ℕ) (cb : Bool) (stored : Status) (w : World Hw)
    → stored.first ≡ false
    → ((create fl id cb stored w).status.temp ≡ fl.of_byte 0)
      × ((create fl id cb stored w).status.set_temp ≡ fl.of_byte 0)
      × ((create fl id cb stored w).status.counter ≡ 8)
unfolding create durum_to_status write_status int_st
create_zero fl id cb stored w h = ground arith
