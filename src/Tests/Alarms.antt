-- ===== src/Tests/Alarms.antt =====
-- The theorems on the alarm system at one with a siren, a door contact and a gas sensor.
use n1cpu.Base.{ℕ, ◌*◌, true, false, none, [], ◌∷◌, ◌≡◌, inl, refl, arith}
use n1cpu.Core.PortType.{PortType, port_sensor, port_gas, port_water}
use n1cpu.Button.{press_down}
use n1cpu.Port.{Port}
use n1cpu.Port.Laws.{level}
use n1cpu.Func.{stopped, once}
use n1cpu.Func.Laws.{Ready}
use n1cpu.Security.{Security, set_status, func_callback}
use n1cpu.Security.Arming.{set_status_arms}
use n1cpu.Security.Alarm.{func_callback_alarm}
use n1cpu.House.{House, press}
use n1cpu.House.Water.{press_shuts}
use n1cpu.Tests.{Memory, hal, relay, rest, func, laws, out}

abbrev input : PortType → ℕ → Port
input tp id = record (relay "IN" id) { type = tp; outport = none }

abbrev guard : Security Memory
guard = record {
  fn = func (relay "SIREN" 3 ∷ input port_sensor 4 ∷ input port_gas 5 ∷ []);
  qtimer = stopped;
  fault = false;
}

guard-Ready : Ready guard.ports
guard-Ready = (
  λ t. (out 3, record { enabled = refl; wired = refl; ready = refl }),
  (λ t. ground arith, (λ t. ground arith, tt)),
)

set_status_arms_example :
    (set_status hal (record rest { status = 2 }) guard).qtimer ≡ once (10 * 1000000)
set_status_arms_example = (set_status_arms hal (record rest { status = 2 }) guard refl refl refl).1

-- The gas sensor, while the system is not armed, and the door contact.
func_callback_alarm_example : level hal 3 (func_callback hal 5 press_down guard).world ≡ true
func_callback_alarm_example =
    (func_callback_alarm hal laws 5 press_down guard (input port_gas 5) refl refl refl (inl refl)
        (inl refl) guard-Ready).2
      3

-- A valve with a relay ON at the handle 6, and a water sensor.
abbrev house : House Memory
house = record {
  security = record guard { fn = func (relay "SIREN" 3 ∷ input port_water 5 ∷ []) };
  meters = record { fn = func (relay "ON" 6 ∷ []); qtimer = stopped } ∷ [];
  world = guard.world;
}

press_shuts_example : level hal 6 (press hal 5 press_down house).world ≡ true
press_shuts_example =
    press_shuts hal laws 5 press_down house (input port_water 5) 6 refl refl refl (inl refl)
      (inl refl)
      (λ t. (out 3, record { enabled = refl; wired = refl; ready = refl }), (λ t. ground arith, tt))
      (
        record {
          local = refl;
          ready = (λ t. (out 6, record { enabled = refl; wired = refl; ready = refl }), tt);
        },
        refl,
        tt,
      )
