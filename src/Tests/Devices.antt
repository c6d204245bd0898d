-- ===== src/Tests/Devices.antt =====
-- The theorems on the drivers and the relay classes at concrete functions.
use n1cpu.Base.{true, false, [], ◌∷◌, refl, ◌≡◌, arith, ℕ, none}
use n1cpu.Core.PortType.{port_inport}
use n1cpu.Port.Laws.{level}
use n1cpu.Func.{stopped, periodic}
use n1cpu.Gas.{fire as gas_fire}
use n1cpu.Gas.Fire.{fire_restores}
use n1cpu.Func.Relay.Laws.{IsLive}
use n1cpu.Contactor.{Contactor}
use n1cpu.Garage.{Garage}
use n1cpu.Garage.Pulse.{presses, presses_pulse}
use n1cpu.Door.{Door, set_status as door_set, tim_callback as door_end}
use n1cpu.Door.Lock.{set_status_pulse}
use n1cpu.Core.{Status}
use n1cpu.Socket.{Socket, minute, set_status as socket_set}
use n1cpu.Socket.Countdown.{minutes, countdown}
use n1cpu.Port.{Port}
use n1cpu.Tests.{Memory, hal, relay, rest, func, valve, valve-IsLive, laws, out}

fire_restores_example :
    (gas_fire hal false (gas_fire hal true valve)).status ≡ record rest { first = true }
fire_restores_example = (fire_restores hal valve laws valve-IsLive).2

abbrev contactor : Contactor Memory
contactor = record { fn = valve; qtimer = stopped }

abbrev garage : Garage Memory
garage = record { fn = valve; qtimer = stopped }

-- Three presses.
presses_pulse_example : level hal 3 (presses hal (rest ∷ rest ∷ rest ∷ []) garage).world ≡ true
presses_pulse_example =
    (presses_pulse hal laws rest (rest ∷ rest ∷ []) garage valve-IsLive refl).1 3

abbrev door : Door Memory
door = record { fn = func (relay "ON" 3 ∷ relay "OFF" 4 ∷ []); qtimer = stopped }

door-IsLive : IsLive door.fn
door-IsLive = record {
  local = refl;
  ready = (
    λ t. (out 3, record { enabled = refl; wired = refl; ready = refl }),
    (λ t. (out 4, record { enabled = refl; wired = refl; ready = refl }), tt),
  );
}

set_status_pulse_example : level hal 3 (door_end hal (door_set hal rest door)).world ≡ false
set_status_pulse_example = (set_status_pulse hal laws rest door door-IsLive refl).2 3

abbrev socket : Socket Memory
socket = record { fn = valve; qtimer = stopped }

abbrev three_minutes : Status
three_minutes = record rest { counter = 3 }

countdown_example : (minutes hal 2 (socket_set hal three_minutes socket)).status.counter ≡ 1
countdown_example =
    (countdown hal laws three_minutes socket 2 valve-IsLive refl refl refl (ground arith)).0

abbrev counting : Socket Memory
counting = record { fn = valve; qtimer = periodic minute }

abbrev relay_in : ℕ → Port
relay_in id = record (relay "IN" id) { type = port_inport; outport = none }
