-- ===== src/Gas.antt =====
-- components/home/library/gas/gas.cpp: the gas valve, which closes on a fire alarm.
pub mod Fire
use n1cpu.Func.{create as create_func, no_timer, Func}
use n1cpu.Out.{World, Hal}
use n1cpu.Base.{ℕ, Bool, true, false, not, ◌&&◌, ◌||◌, ◌*◌, ◌==◌, String, if◌then◌else◌}
use n1cpu.Core.{Status}
use n1cpu.Func.Relay.{relay_status, remote_status, scenario, bool_ne}
use n1cpu.Func.Ports.{read_first_out}

module _ {Hw : Type 0} where
  unfoldable create : ℕ → Bool → Status → World Hw → Func Hw
  create id cb stored w = create_func false id cb stored w

  unfoldable pub remote_set_status : Status → Bool → Func Hw → Func Hw
  unfolding remote_status
  remote_set_status stat callback_call f =
      remote_status (bool_ne f.status.stat stat.stat || bool_ne f.status.active f.active) stat
        callback_call f

  module _ (hal : Hal Hw) where
    unfoldable pub set_status : Status → Func Hw → Func Hw
    unfolding relay_status
    set_status stat f = relay_status hal stat f

    unfoldable pub fire : Bool → Func Hw → Func Hw
    fire stat f =
        let saved = record f { main_temp_status = f.status } in
        let back = record f { status = f.main_temp_status } in
        if stat
        then set_status (record saved.status { stat = false }) saved
        else set_status back.status back

    unfoldable senaryo : String → Func Hw → Func Hw
    unfolding scenario
    senaryo par f = scenario set_status par f

    unfoldable init : Func Hw → Func Hw
    init f =
        let (ps, st) = read_first_out hal f.status.stat f.ports f.world in
        if f.virtual_device
        then f
        else record f { ports = ps; status = record f.status { stat = st } }
