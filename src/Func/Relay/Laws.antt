-- ===== src/Func/Relay/Laws.antt =====
-- What a switched relay function does to the hardware, the disk and its listeners.
use n1cpu.Base.{ℕ, true, false, ◌≡◌, arith, if◌then◌else◌}
use n1cpu.Core.{Status}
use n1cpu.Out.{Hal, IsHal}
use n1cpu.Port.Laws.{level}
use n1cpu.Func.{Func, local_set_status, notify}
use n1cpu.Func.Ports.{any_port}
use n1cpu.Func.Laws.{Ready, driven, relay_ports_lem, relay_ports-driven}
use n1cpu.Func.Relay.{switch_relays, relay_status}

-- A local function whose output ports are enabled and wired.
pub record IsLive {Hw : Type 0} (f : Func Hw) : Type 0 where
  pub local : f.virtual_device ≡ false
  pub ready : Ready f.ports

module _ {Hw : Type 0} (hal : Hal Hw) (laws : IsHal hal) where
  -- The outcome of switching `f` to `stat`: the new state, the level of every handle, what the
  -- rest of the system is told last, and what stays.
  pub record Switched (stat : Status) (f g : Func Hw) : Type 0 where
    pub stored : g.status ≡ record stat { first = true }
    pub levels :
        (e : ℕ)
        → level hal e g.world
          ≡ (if driven any_port e f.ports then stat.stat else level hal e f.world)
    pub same_handles : (e : ℕ) → driven any_port e g.ports ≡ driven any_port e f.ports
    pub live : IsLive g
    pub kept_main : g.main_temp_status ≡ f.main_temp_status

  -- Setting the status of a local function whose output ports are enabled and wired stores that
  -- status, brings every output it drives to `stat.stat` and leaves every other as it was, and keeps
  -- the ports' handles, the function's liveness and the status saved for an alarm.
  pub relay_status-Switched :
      (stat : Status) (f : Func Hw) → IsLive f → Switched stat f (relay_status hal stat f)
  unfolding relay_status switch_relays local_set_status notify
  relay_status-Switched stat f v = record {
    stored = ground (arith, relay_ports_lem hal laws 0 stat.stat f.ports f.world);
    levels = λ e. ground (arith, relay_ports_lem hal laws e stat.stat f.ports f.world);
    same_handles = λ e. ground (arith, relay_ports-driven hal e stat.stat f.ports f.world);
    live = record {
      local = ground arith;
      ready = ground (arith, relay_ports_lem hal laws 0 stat.stat f.ports f.world);
    };
    kept_main = ground arith;
  }
