-- ===== src/WaterMeter.antt =====
-- components/home/library/mwater/mwater.cpp and mwater.h: a motorised water valve with a relay ON and
-- a relay OFF, each driven for some seconds.
pub mod Alarm
use text.Mathlib.Text.{◌==◌ as str_eq}
use n1cpu.Base.{ℕ, ◌*◌, Bool, true, false, not, ◌||◌, ◌==◌, String, if◌then◌else◌, ltb}
use n1cpu.Core.{Status}
use n1cpu.Port.{Port}
use n1cpu.Out.{Hal, World}
use n1cpu.Func.{
  Func, Timer, no_timer, stopped, start_once, is_running, local_set_status, write_status, notify,
  command, create as create_func,
}
use n1cpu.Func.Ports.{write_ports, any_port}
use n1cpu.Func.Relay.{remote_status, bool_ne}

pub record MWater (Hw : Type 0) : Type 0 where
  pub fn : Func Hw
  pub open fn use *
  pub qtimer : Timer

abbrev pub has_name : String → Port → Bool
has_name name p = str_eq p.name name

module _ {Hw : Type 0} where
  unfoldable create : ℕ → Bool → Status → World Hw → MWater Hw
  create id cb stored w = record { fn = create_func true id cb stored w; qtimer = no_timer }

  unfoldable pub remote_set_status : Status → Bool → MWater Hw → MWater Hw
  unfolding remote_status
  remote_set_status stat callback_call m =
      let chg =
        bool_ne m.status.stat stat.stat
        || bool_ne m.status.active stat.active
        || not (m.status.status == stat.status) in
      record m { fn = remote_status chg stat callback_call m.fn }

  -- Called while the timer does not run, so that the start is no error.
  abbrev tim_start : ℕ → MWater Hw → MWater Hw
  tim_start tm m = record m { qtimer = start_once (tm * 1000000) m.qtimer }

  -- MWater::fire has an empty body.
  abbrev fire : Bool → MWater Hw → MWater Hw
  fire stat m = m

  module _ (hal : Hal Hw) where
    -- The relay `name` is closed for `tm` seconds.
    unfoldable pub drive : String → ℕ → MWater Hw → MWater Hw
    drive name tm m =
        let (ps, ret, w) = write_ports hal (has_name name) true true m.ports m.world in
        let new = record m.status { status = 1 } in
        let m' = record m { fn = record m.fn { ports = ps; world = w; status = new } } in
        if is_running m.qtimer then m else tim_start tm m'

    unfoldable pub status_on : MWater Hw → MWater Hw
    status_on m = drive "ON" 25 m

    unfoldable pub status_off : MWater Hw → MWater Hw
    status_off m = drive "OFF" 15 m

    unfoldable pub set_status : Status → MWater Hw → MWater Hw
    set_status stat m =
        let m1 = record m { fn = local_set_status stat false m.fn } in
        let m2 = if stat.stat then status_on m1 else status_off m1 in
        let f = write_status m2.fn in
        if m.virtual_device
        then record m { fn = command stat m.fn }
        else record m2 { fn = notify f.status f }

    -- The timer runs out.
    unfoldable pub timer_callback : MWater Hw → MWater Hw
    timer_callback m =
        let (ps, ret, w) = write_ports hal any_port false false m.ports m.world in
        let new = record m.status { status = 0 } in
        let f = record m.fn { ports = ps; world = w; status = new } in
        record m { fn = notify f.status f; qtimer = stopped }

    -- `status.stat = st; set_status(status)`.
    unfoldable pub set_stat : Bool → MWater Hw → MWater Hw
    set_stat st m =
        let new = record m.status { stat = st } in
        set_status new (record m { fn = record m.fn { status = new } })

    unfoldable water_stop : MWater Hw → MWater Hw
    unfolding set_stat
    water_stop m = set_stat true m

    -- WATER_EVENT.
    unfoldable pub alarm_handler : MWater Hw → MWater Hw
    unfolding water_stop
    alarm_handler m = water_stop m

    unfoldable senaryo : String → MWater Hw → MWater Hw
    unfolding set_stat
    senaryo par m =
        let m1 = if str_eq par "on" then set_stat true m else m in
        if str_eq par "off" then set_stat false m1 else m1

    unfoldable init : MWater Hw → MWater Hw
    init m =
        let tm = if m.timer == 0 || ltb 60 m.timer then 10 else m.timer in
        let f = record m.fn { timer = tm; status = record m.status { status = 0 } } in
        if m.virtual_device then m else record m { fn = f; qtimer = stopped }
