-- ===== src/Onoff/Switch.antt =====
-- The relay group and its wall switch.
use n1cpu.Func.Laws.{chosen-any_port, driven, Ready, write_ports_lem, write_ports-Ready}
use n1cpu.Base.{ℕ, Bool, true, false, ◌≡◌, ◌⊎◌, arith, if◌then◌else◌}
use n1cpu.Core.PortType.{port_inport}
use n1cpu.Button.{ButtonEvent, press_down, press_up}
use n1cpu.Port.{Port}
use n1cpu.Port.Laws.{level}
use n1cpu.Out.{Hal, IsHal}
use n1cpu.Func.{local_set_status, write_status, notify, Func}
use n1cpu.Func.Ports.{any_port, is_some_outport}
use n1cpu.Onoff.{func_callback}

abbrev is_down : ButtonEvent → Bool
is_down press_down = true
is_down _ = false

-- A press at an input port of type PORT_INPORT closes every output of the group, if all are enabled
-- and wired and there is one, and a release opens them; no other output changes, and the status says
-- what the outputs are.
pub func_callback_follows :
    {Hw : Type 0} (hal : Hal Hw) (prt : Port) (evt : ButtonEvent) (f : Func Hw)
    → IsHal hal
    → Ready f.ports
    → is_some_outport f.ports ≡ true
    → prt.type ≡ port_inport
    → (evt ≡ press_down) ⊎ (evt ≡ press_up)
    → let g = func_callback hal prt evt f in
      ((e : ℕ)
        → level hal e g.world
          ≡ (if driven any_port e f.ports then is_down evt else level hal e f.world))
      × (g.status.stat ≡ is_down evt)
unfolding func_callback local_set_status write_status notify
func_callback_follows hal prt evt f laws r some t ev = (
  λ e. ground (
    arith,
    write_ports_lem hal laws e any_port true f.status.stat f.ports f.world r,
    write_ports_lem hal laws e any_port false f.status.stat f.ports f.world r,
  ),
  ground (
    arith,
    chosen-any_port f.ports,
    write_ports-Ready hal laws any_port true f.status.stat f.ports f.world r,
    write_ports-Ready hal laws any_port false f.status.stat f.ports f.world r,
  ),
)
