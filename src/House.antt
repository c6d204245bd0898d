-- ===== src/House.antt =====
-- The events of the alarm system (esp_event_post in security.cpp) and the only functions that listen to
-- them, the motorised water valves (esp_event_handler_instance_register in mwater.cpp), over one world.
-- No function listens to the events of gas, fire and emergency inputs.
pub mod Water
use n1cpu.Base.{ℕ, Option, none, some, List, [], ◌∷◌}
use n1cpu.Core.{SecurityEvent, water_event}
use n1cpu.Button.{ButtonEvent}
use n1cpu.Out.{Hal, World, Effect, security_event}
use n1cpu.Security
use n1cpu.Security.{Security}
use n1cpu.WaterMeter.{MWater, alarm_handler}

pub record House (Hw : Type 0) : Type 0 where
  pub security : Security Hw
  pub meters : List (MWater Hw)
  pub world : World Hw

-- The newest effect, if it is an event of the alarm system: its callback posts at most one, and last.
abbrev pub newest : List Effect → Option SecurityEvent
newest (security_event e ∷ log) = some e
newest _ = none

module _ {Hw : Type 0} where
  abbrev pub security_in : World Hw → Security Hw → Security Hw
  security_in w s = record s { fn = record s.fn { world = w } }

  abbrev pub meter_in : World Hw → MWater Hw → MWater Hw
  meter_in w m = record m { fn = record m.fn { world = w } }

  abbrev pub quiet : World Hw → World Hw
  quiet w = record w { log = [] }

  module _ (hal : Hal Hw) where
    -- The handlers of WATER_EVENT, one after the other.
    unfoldable pub water_alarm : List (MWater Hw) → World Hw → List (MWater Hw) × World Hw
    water_alarm [] w = ([], w)
    water_alarm (m ∷ ms) w =
        let m' = alarm_handler hal (meter_in w m) in
        let (ms', w') = water_alarm ms m'.world in (m' ∷ ms', w')

    unfoldable pub deliver :
        Option SecurityEvent → List (MWater Hw) → World Hw → List (MWater Hw) × World Hw
    unfolding water_alarm
    deliver (some water_event) ms w = water_alarm ms w
    deliver _ ms w = (ms, w)

    -- An event at the terminal `id` of the alarm system, and the delivery of what it posts.
    unfoldable pub press : ℕ → ButtonEvent → House Hw → House Hw
    unfolding deliver
    press id evt h =
        let s = Security.func_callback hal id evt (security_in (quiet h.world) h.security) in
        let (ms, w) = deliver (newest s.world.log) h.meters s.world in
        record { security = s; meters = ms; world = w }
