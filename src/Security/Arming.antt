-- ===== src/Security/Arming.antt =====
-- Arming and disarming the burglar alarm.
use n1cpu.Base.{subst, sym, ◌*◌, true, false, List, [], ◌∷◌, ◌≡◌, arith, refl}
use n1cpu.Core.{Status}
use n1cpu.Core.PortType.{is_outport}
use n1cpu.Port.{Port, set_active, set_active_admin}
use n1cpu.Out.{Hal}
use n1cpu.Func.{stopped, once, local_set_status, write_status, notify}
use n1cpu.Security.{
  Security, set_status, turn, tim_start, tim_stop, tim_callback, alarm_open, open_port, open_ports,
  sec_closed, sec_process, sec_opened,
}

-- Armed: no port is marked, and every input that the user has not disabled is active.
pub IsArmed : List Port → Type 0
IsArmed [] = true ≡ true
IsArmed (p ∷ ps) =
    ((p.alarm ≡ false) × (is_outport p.type ≡ false → p.user_active ≡ true → p.active ≡ true))
    × IsArmed ps

open_ports-IsArmed : (ps : List Port) → IsArmed (open_ports ps)
unfolding IsArmed open_ports open_port set_active set_active_admin
open_ports-IsArmed [] = refl
open_ports-IsArmed (p ∷ ps) = (ground arith, open_ports-IsArmed ps)

module _ {Hw : Type 0} (hal : Hal Hw) where
  tim_callback_lem :
      (s : Security Hw)
      → ((tim_callback s).ports ≡ open_ports s.ports)
        × ((tim_callback s).status.status ≡ sec_opened)
  unfolding tim_callback alarm_open write_status notify
  tim_callback_lem s = ground arith

  -- A command to arm a real alarm system whose timer is at rest sets the status to `process` and the
  -- timer to ten seconds, and leaves the ports; when the timer ends, the status is `opened`, no port
  -- is marked, and every input that the user has not disabled is active.
  pub set_status_arms :
      (stat : Status) (s : Security Hw)
      → s.virtual_device ≡ false
      → s.qtimer ≡ stopped
      → stat.status ≡ sec_opened
      → let waiting = set_status hal stat s in
        let armed = tim_callback waiting in
        (waiting.status.status ≡ sec_process)
        × (waiting.qtimer ≡ once (10 * 1000000))
        × (waiting.ports ≡ s.ports)
        × (armed.status.status ≡ sec_opened)
        × IsArmed armed.ports
  unfolding set_status turn tim_start local_set_status write_status notify
  set_status_arms stat s v q o =
      let waiting = set_status hal stat s in
      (
        ground arith,
        ground arith,
        ground arith,
        (tim_callback_lem waiting).1,
        subst IsArmed (sym (tim_callback_lem waiting).0) (open_ports-IsArmed waiting.ports),
      )

  -- A command to cancel, before the ten seconds are over, stops the timer and sets the status to
  -- `closed`, with the ports as they were before the arming.
  pub arming_cancelled :
      (stat cancel : Status) (s : Security Hw)
      → s.virtual_device ≡ false
      → s.qtimer ≡ stopped
      → stat.status ≡ sec_opened
      → cancel.status ≡ sec_process
      → let over = set_status hal cancel (set_status hal stat s) in
        (over.status.status ≡ sec_closed)
        × (over.qtimer ≡ stopped)
        × (over.ports ≡ s.ports)
        × (over.fault ≡ s.fault)
  unfolding set_status turn tim_start tim_stop local_set_status write_status notify
  arming_cancelled stat cancel s v q o k = ground arith

  -- A second command to arm, before the ten seconds are over, is a failed ESP_ERROR_CHECK.
  pub arming_twice_fails :
      (stat again : Status) (s : Security Hw)
      → s.virtual_device ≡ false
      → s.qtimer ≡ stopped
      → stat.status ≡ sec_opened
      → again.status ≡ sec_opened
      → (set_status hal again (set_status hal stat s)).fault ≡ true
  unfolding set_status turn tim_start local_set_status write_status notify
  arming_twice_fails stat again s v q o k = ground arith
