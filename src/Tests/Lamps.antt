-- ===== src/Tests/Lamps.antt =====
-- The theorems on the lamp, the timed relay and the motorised valve at concrete functions.
use n1cpu.Base.{true}
use n1cpu.Core.PortType.{port_sensor}
use n1cpu.Port.{Port}
use n1cpu.Func.{stopped, once, periodic}
use n1cpu.Lamp.{Lamp}
use n1cpu.TmRelay.{TmRelay}
use n1cpu.WaterMeter.{MWater}
use n1cpu.Tests.{Memory, relay, valve}

abbrev lamp : Lamp Memory
lamp = record { fn = valve; qtimer = stopped; xtimer = periodic 60000000 }

abbrev sensor : Port
sensor = record (relay "sensor" 5) { type = port_sensor; status = true }

abbrev half_hour : TmRelay Memory
half_hour = record { fn = record valve { timer = 30 }; qtimer = stopped }

abbrev opening : MWater Memory
opening = record { fn = valve; qtimer = once 15000000 }
