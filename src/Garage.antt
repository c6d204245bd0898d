-- ===== src/Garage.antt =====
-- components/home/library/garage/garage.cpp and, word for word the same class, asansor/asansor.cpp:
-- a push on the button of a garage door or a lift, by relays that close for some seconds.
pub mod Pulse
use n1cpu.Func.{
  create as create_func, no_timer, Func, Timer, local_set_status, start_once, stop, stopped,
  command, write_status, notify,
}
use n1cpu.Out.{World, Hal}
use n1cpu.Base.{ℕ, Bool, true, false, not, ◌&&◌, ◌||◌, ◌*◌, ◌==◌, String, if◌then◌else◌}
use n1cpu.Core.{Status}
use n1cpu.Func.Relay.{remote_status, bool_ne}
use n1cpu.Func.Ports.{write_ports, any_port}

pub record Garage (Hw : Type 0) : Type 0 where
  pub fn : Func Hw
  pub open fn use *
  pub qtimer : Timer

module _ {Hw : Type 0} where
  unfoldable pub create : ℕ → Bool → Status → World Hw → Garage Hw
  create id cb stored w = record { fn = create_func true id cb stored w; qtimer = no_timer }

  unfoldable pub remote_set_status : Status → Bool → Garage Hw → Garage Hw
  unfolding remote_status
  remote_set_status stat callback_call g =
      let chg = bool_ne g.status.stat stat.stat || bool_ne g.status.active stat.active in
      record g { fn = remote_status chg stat callback_call g.fn }

  abbrev pub tim_stop : Garage Hw → Garage Hw
  tim_stop g = record g { qtimer = stop g.qtimer }

  abbrev pub tim_start : Garage Hw → Garage Hw
  tim_start g = record g { qtimer = start_once (g.timer * 1000000) g.qtimer }

  -- Garage::fire and Garage::senaryo have empty bodies.
  abbrev pub fire : Bool → Garage Hw → Garage Hw
  fire stat g = g

  abbrev pub senaryo : String → Garage Hw → Garage Hw
  senaryo par g = g

  module _ (hal : Hal Hw) where
    unfoldable pub status_change : Bool → Garage Hw → Garage Hw
    status_change st g =
        let (ps, ret, w) = write_ports hal any_port st st g.ports g.world in
        let new = record g.status { status = if st then 1 else 0 } in
        let f = write_status (record g.fn { ports = ps; status = new; world = w }) in
        record g { fn = notify f.status f }

    unfoldable pub set_status : Status → Garage Hw → Garage Hw
    set_status stat g =
        let on = record stat { stat = true } in
        let g' = record g { fn = local_set_status on false g.fn } in
        if g.virtual_device
        then record g { fn = command stat g.fn }
        else tim_start (status_change true g')

    -- The timer runs out.
    unfoldable pub tim_callback : Garage Hw → Garage Hw
    tim_callback g = status_change false (record g { qtimer = stopped })

    unfoldable pub init : Garage Hw → Garage Hw
    init g =
        let wait = if g.timer == 0 then 3 else g.timer in
        if g.virtual_device
        then g
        else record g { fn = record g.fn { timer = wait }; qtimer = stopped }
