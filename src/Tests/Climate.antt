-- ===== src/Tests/Climate.antt =====
-- The theorems on the thermostat function, in whole degrees.
use n1cpu.Base.{true, false, ◌≡◌}
use n1cpu.Port.Laws.{level}
use n1cpu.Air.{Air, set_status, no_durum, configured}
use n1cpu.Air.Control.{set_status_regulates}
use n1cpu.Tests.Messages.{whole}
use n1cpu.Tests.{Memory, hal, rest, valve, valve-IsLive, laws}

abbrev heater : Air Memory
heater = record {
  fn = valve;
  durum = no_durum;
  durum_temp = 20;
  durum_set_temp = 22;
  run_stat = configured 18 30;
  send_gateway = false;
}

set_status_regulates_example :
    level hal 3
      (set_status whole hal (record rest { counter = 8; temp = 20; set_temp = 22 }) heater).world
    ≡ true
set_status_regulates_example =
    set_status_regulates whole hal laws (record rest { counter = 8; temp = 20; set_temp = 22 })
      heater 3 valve-IsLive
