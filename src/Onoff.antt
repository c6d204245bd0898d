-- ===== src/Onoff.antt =====
-- components/home/library/onoff/onoff.cpp: a group of relays with wall switches.
pub mod Switch
use n1cpu.Func.{create as create_func, Func, local_set_status, notify}
use n1cpu.Out.{World, Hal}
use n1cpu.Base.{ℕ, Bool, true, false, ◌||◌, String, if◌then◌else◌, List}
use n1cpu.Core.{Status}
use n1cpu.Core.PortType.{PortType, port_inport, port_inpuls}
use n1cpu.Button.{ButtonEvent, press_down, press_up}
use n1cpu.Func.Ports.{write_ports, toggle_ports, is_some_outport, write_first_out, any_port}
use n1cpu.Func.Relay.{bool_ne, remote_status, relay_status, scenario}
use n1cpu.Port.{Port}

module _ {Hw : Type 0} where
  unfoldable create : ℕ → Bool → Status → World Hw → Func Hw
  create id cb stored w = create_func false id cb stored w

  unfoldable pub remote_set_status : Status → Bool → Func Hw → Func Hw
  unfolding remote_status
  remote_set_status stat callback_call f =
      remote_status (bool_ne f.status.stat stat.stat || bool_ne f.status.active stat.active) stat
        callback_call f

  -- Onoff::fire has an empty body.
  abbrev fire : Bool → Func Hw → Func Hw
  fire stat f = f

  module _ (hal : Hal Hw) where
    -- The loop of `func_callback` over the output ports, by the type of the port that was pressed.
    callback_ports : PortType → ButtonEvent → Func Hw → List Port × Bool × World Hw
    callback_ports port_inport press_down f =
        write_ports hal any_port true f.status.stat f.ports f.world
    callback_ports port_inport press_up f =
        write_ports hal any_port false f.status.stat f.ports f.world
    callback_ports port_inpuls press_up f = toggle_ports hal f.status.stat f.ports f.world
    callback_ports _ _ f = (f.ports, f.status.stat, f.world)

    -- `change`: did the loop assign?
    changes : PortType → ButtonEvent → List Port → Bool
    changes port_inport press_down ps = is_some_outport ps
    changes port_inport press_up ps = is_some_outport ps
    changes port_inpuls press_up ps = is_some_outport ps
    changes _ _ ps = false

    -- `prt` is the port of the button, `evt` the event that the button holds.
    unfoldable pub func_callback : Port → ButtonEvent → Func Hw → Func Hw
    unfolding callback_ports changes
    func_callback prt evt f =
        let (ps, st, w) = callback_ports prt.type evt f in
        let stat = record f.status { stat = st } in
        let f' = local_set_status stat true (record f { ports = ps; world = w }) in
        if changes prt.type evt f.ports then notify f'.status f' else f

    unfoldable pub set_status : Status → Func Hw → Func Hw
    set_status stat f = relay_status hal stat f

    unfoldable senaryo : String → Func Hw → Func Hw
    senaryo par f = scenario set_status par f

    -- `stored` is what `disk.read_status` brings.
    unfoldable init : Status → Func Hw → Func Hw
    init stored f =
        let (ps, w) = write_first_out hal stored.stat f.ports f.world in
        if f.virtual_device then f else record f { status = stored; ports = ps; world = w }
