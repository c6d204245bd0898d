-- ===== src/Func/Relay.antt =====
-- The methods that the classes over plain relays repeat: `set_status`, `remote_set_status` and
-- `senaryo` of onoff.cpp, gas.cpp, water.cpp, kontaktor.cpp and, in part, tmrole.cpp.
use text.Mathlib.Text.{◌==◌ as str_eq}
pub mod Laws
use n1cpu.Base.{Bool, true, false, not, String, if◌then◌else◌}
use n1cpu.Core.{Status}
use n1cpu.Out.{Hal}
use n1cpu.Func.{Func, local_set_status, write_status, notify, command}
use n1cpu.Func.Ports.{relay_ports}

abbrev pub bool_ne : Bool → Bool → Bool
bool_ne true b = not b
bool_ne false b = b

module _ {Hw : Type 0} where
  -- The body of `remote_set_status` after its test for a change.
  unfoldable pub remote_status : Bool → Status → Bool → Func Hw → Func Hw
  remote_status chg stat callback_call f =
      let f' = local_set_status stat true f in
      if chg then (if callback_call then notify f'.status f' else f') else f

  -- The scenarios `on` and `off`, over a `set_status`.
  unfoldable pub scenario : (Status → Func Hw → Func Hw) → String → Func Hw → Func Hw
  scenario set par f =
      let on = record f.status { stat = true } in
      let f1 = if str_eq par "on" then set on (record f { status = on }) else f in
      let off = record f1.status { stat = false } in
      if str_eq par "off" then set off (record f1 { status = off }) else f1

  module _ (hal : Hal Hw) where
    -- The local branch without the last report: the ports and the disk.
    unfoldable pub switch_relays : Status → Func Hw → Func Hw
    switch_relays stat f =
        let f' = local_set_status stat false f in
        let (ps, st, w) = relay_ports hal f'.status.stat f'.ports f'.world in
        write_status (record f' { ports = ps; status = record f'.status { stat = st }; world = w })

    unfoldable pub relay_status : Status → Func Hw → Func Hw
    unfolding switch_relays
    relay_status stat f =
        let f' = switch_relays stat f in
        if f.virtual_device then command stat f else notify f'.status f'
