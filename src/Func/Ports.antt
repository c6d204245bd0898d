-- ===== src/Func/Ports.antt =====
-- The loops over the ports of a function that several classes share: each class of
-- components/home/library has its own copy of them.
use n1cpu.Base.{Bool, List, [], ◌∷◌, if◌then◌else◌, false, true, ◌&&◌, ◌||◌}
use n1cpu.Core.PortType.{is_outport}
use n1cpu.Out.{Hal, World}
use n1cpu.Port.{Port, set_status, get_hardware_status, set_toggle}

module _ {Hw : Type 0} (hal : Hal Hw) where
  relay_port : Bool → Port → World Hw → Port × Bool × World Hw
  relay_port st p w = if is_outport p.type then set_status hal st p w else (p, st, w)

  -- `if (target->type == PORT_OUTPORT) stat = target->set_status(stat);` over all ports: each port
  -- is given what the one before it returned.
  unfoldable pub relay_ports : Bool → List Port → World Hw → List Port × Bool × World Hw
  unfolding relay_port
  relay_ports st [] w = ([], st, w)
  relay_ports st (p ∷ ps) w =
      let (p', st', w') = relay_port st p w in
      let (ps', st'', w'') = relay_ports st' ps w' in (p' ∷ ps', st'', w'')

  write_port : (Port → Bool) → Bool → Bool → Port → World Hw → Port × Bool × World Hw
  write_port test st acc p w =
      if is_outport p.type && test p then set_status hal st p w else (p, acc, w)

  -- `if (target->type == PORT_OUTPORT && test) acc = target->set_status(st);` over all ports: each
  -- port is given `st`, and the last call's result is returned.
  unfoldable pub write_ports :
      (Port → Bool) → Bool → Bool → List Port → World Hw → List Port × Bool × World Hw
  unfolding write_port
  write_ports test st acc [] w = ([], acc, w)
  write_ports test st acc (p ∷ ps) w =
      let (p', acc', w') = write_port test st acc p w in
      let (ps', acc'', w'') = write_ports test st acc' ps w' in (p' ∷ ps', acc'', w'')

  -- `if (target->type == PORT_OUTPORT) stat = target->set_toggle();` over all ports.
  unfoldable pub toggle_ports : Bool → List Port → World Hw → List Port × Bool × World Hw
  toggle_ports st [] w = ([], st, w)
  toggle_ports st (p ∷ ps) w =
      let (p', st', w') = if is_outport p.type then set_toggle hal p w else (p, st, w) in
      let (ps', st'', w'') = toggle_ports st' ps w' in (p' ∷ ps', st'', w'')

  -- The first output port: its hardware level becomes the state, and the loop breaks.
  unfoldable pub read_first_out : Bool → List Port → World Hw → List Port × Bool
  read_first_out st [] w = ([], st)
  read_first_out st (p ∷ ps) w =
      let (p', level) = get_hardware_status hal p w in
      let (ps', st') = read_first_out st ps w in
      if is_outport p.type then (p' ∷ ps, level) else (p ∷ ps', st')

  -- The first output port is set to `st`, and the loop breaks.
  unfoldable pub write_first_out : Bool → List Port → World Hw → List Port × World Hw
  write_first_out st [] w = ([], w)
  write_first_out st (p ∷ ps) w =
      let (p', ret, w') = set_status hal st p w in
      let (ps', w'') = write_first_out st ps w in
      if is_outport p.type then (p' ∷ ps, w') else (p ∷ ps', w'')

abbrev pub is_some_outport : List Port → Bool
is_some_outport [] = false
is_some_outport (p ∷ ps) = is_outport p.type || is_some_outport ps

abbrev pub any_port : Port → Bool
any_port p = true
