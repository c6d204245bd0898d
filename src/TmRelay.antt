-- ===== src/TmRelay.antt =====
-- components/home/library/tmrole/tmrole.cpp and tmrole.h: a relay that is closed for a moment at
-- regular intervals, to reset what hangs on it.
pub mod Interval
use n1cpu.Base.{ℕ, ◌+◌, ◌-◌, ◌*◌, ◌%◌, ◌^◌, Bool, true, false, ◌==◌, ltb, String, if◌then◌else◌}
use text.Mathlib.Text.{◌==◌ as str_eq}
use n1cpu.Core.{Status}
use n1cpu.Out.{Hal, World}
use n1cpu.Func.{Func, Timer, no_timer, stopped, stop, start_periodic, create as create_func}
use n1cpu.Func.Relay.{switch_relays, remote_status, bool_ne}

pub record TmRelay (Hw : Type 0) : Type 0 where
  pub fn : Func Hw
  pub open fn use *
  pub qtimer : Timer

-- `timer * (1000*1000)*60` is a product of 32-bit integers, which is then taken as 64 bits without
-- sign. An overflow of the product is undefined; here it wraps.
unfoldable pub interval : ℕ → ℕ
interval timer =
    let product = timer * 1000000 * 60 % 2 ^ 32 in
    if ltb product (2 ^ 31) then product else 2 ^ 64 - (2 ^ 32 - product)

module _ {Hw : Type 0} where
  unfoldable create : ℕ → Bool → Status → World Hw → TmRelay Hw
  create id cb stored w = record { fn = create_func true id cb stored w; qtimer = no_timer }

  unfoldable pub remote_set_status : Status → Bool → TmRelay Hw → TmRelay Hw
  unfolding remote_status
  remote_set_status stat callback_call t = record t {
    fn = remote_status (bool_ne t.status.stat stat.stat) stat callback_call t.fn;
  }

  abbrev tim_stop : TmRelay Hw → TmRelay Hw
  tim_stop t = record t { qtimer = stop t.qtimer }

  unfoldable pub tim_start : TmRelay Hw → TmRelay Hw
  tim_start t = record t { qtimer = start_periodic (interval t.timer) t.qtimer }

  -- TmRelay::fire has an empty body.
  abbrev fire : Bool → TmRelay Hw → TmRelay Hw
  fire stat t = t

  module _ (hal : Hal Hw) where
    -- Neither callback is called.
    unfoldable pub set_status : Status → TmRelay Hw → TmRelay Hw
    set_status stat t =
        if t.virtual_device then t else record t { fn = switch_relays hal stat t.fn }

    -- `status.stat = st; set_status(status)`.
    unfoldable set_stat : Bool → TmRelay Hw → TmRelay Hw
    set_stat st t =
        let new = record t.status { stat = st } in
        set_status new (record t { fn = record t.fn { status = new } })

    unfoldable senaryo : String → TmRelay Hw → TmRelay Hw
    senaryo par t =
        let t1 = if str_eq par "on" then set_stat true t else t in
        let t2 = if str_eq par "off" then set_stat false t1 else t1 in
        if str_eq par "RESET" then set_stat false (set_stat true t2) else t2

    -- The timer runs out; `ss` keeps the status from before but for `stat`.
    unfoldable tim_callback : TmRelay Hw → TmRelay Hw
    tim_callback t =
        set_status (record t.status { stat = false })
          (set_status (record t.status { stat = true }) t)

    unfoldable init : TmRelay Hw → TmRelay Hw
    init t =
        let created = record t { qtimer = stopped } in
        let running = if ltb 0 t.timer then tim_start created else created in
        if t.virtual_device then t else set_stat false running
