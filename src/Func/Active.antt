-- ===== src/Func/Active.antt =====
-- A function that is switched off drives nothing.
use n1cpu.Base.{Bool, false, List, [], ◌∷◌, ◌≡◌, arith, refl}
use n1cpu.Core.{Status}
use n1cpu.Port.{Port, set_status, set_active as set_active_port, set_active_admin}
use n1cpu.Out.{Hal, World}
use n1cpu.Func.{Func, set_active, activate_all, local_set_status, write_status, notify, command}
use n1cpu.Func.Ports.{relay_ports}
use n1cpu.Func.Relay.{relay_status, switch_relays}

module _ {Hw : Type 0} (hal : Hal Hw) where
  relay_ports_silent :
      (st : Bool) (ps : List Port) (w : World Hw)
      → (relay_ports hal st (activate_all false ps) w).2 ≡ w
  unfolding relay_ports set_status set_active_port set_active_admin
  relay_ports_silent st [] w = refl
  relay_ports_silent st (p ∷ ps) w =
      ground (arith, relay_ports_silent st ps w, relay_ports_silent p.status ps w)

  -- After `set_active(false)` a status set on a relay function changes no hardware: the output ports
  -- refuse it.
  pub set_active_silences :
      (stat : Status) (f : Func Hw)
      → (relay_status hal stat (set_active false f)).world.hw ≡ f.world.hw
  unfolding relay_status switch_relays set_active local_set_status write_status notify command
  set_active_silences stat f = ground (arith, relay_ports_silent stat.stat f.ports f.world)
