-- ===== src/System/Report.antt =====
-- The status that a function reports (its ConvertStatus, whose object is the item "durum" of a message)
-- and what arrives with the functions of other devices that stand for it (E_REQ).
-- An item of a Boolean is always there; a number of `home_status_t` is one of its bytes.
use n1cpu.Base.{
  ℕ, ◌<◌, ◌*◌, ◌+◌, Bool, true, false, ◌||◌, not, some, none, String, if◌then◌else◌, ◌==◌, ltb, ◌≡◌,
  arith,
}
use n1cpu.Core.{Status}
use n1cpu.Func.{no_status, local_set_status, write_status, notify}
use n1cpu.Func.Relay.{remote_status}
use n1cpu.Air.{Air, Float, durum_to_status}
use n1cpu.Air
use n1cpu.Onoff
use n1cpu.Gas
use n1cpu.Water
use n1cpu.Contactor
use n1cpu.Garage
use n1cpu.Lift
use n1cpu.Door
use n1cpu.Curtain
use n1cpu.Piston
use n1cpu.Security
use n1cpu.Socket
use n1cpu.Lamp.{Lamp}
use n1cpu.Lamp
use n1cpu.TmRelay
use n1cpu.WaterMeter
use n1cpu.System.{
  BaseFunction, base, remote_set_status, onoff, gas, water, cont, gara, elev, door, cur, pis, sec,
  priz, lamp, tmrelay, mwater, air,
}
use n1cpu.System.Json.{Durum, json_to_status}

abbrev nothing_said : Durum
nothing_said = record {
  stat = none;
  temp = none;
  stemp = none;
  color = none;
  status = none;
  ircom = none;
  irval = none;
  coun = none;
  act = none;
}

-- "stat" and "act".
abbrev said_switch : Status → Durum
said_switch stt = record nothing_said { stat = some stt.stat; act = some stt.active }

-- "stat", "act" and "status".
abbrev said_place : Status → Durum
said_place stt = record (said_switch stt) { status = some stt.status }

-- "stat", "act" and "coun", which is left out when it is 0.
abbrev said_countdown : Status → Durum
said_countdown stt = record (said_switch stt) {
  coun = if ltb 0 stt.counter then some stt.counter else none;
}

-- "status", "act" and "coun".
abbrev said_travel : Status → Durum
said_travel stt = record nothing_said {
  status = some stt.status;
  act = some stt.active;
  coun = some stt.counter;
}

-- The alarm system, in the block of flats `blok`; its item "counter" is one that nothing reads.
abbrev said_alarm : ℕ → Status → Durum
said_alarm blok stt =
    if stt.status == 4
    then record (said_place stt) {
      color = some stt.color;
      ircom = some stt.ircom;
      irval = some "alarm";
      temp = some blok;
    }
    else said_place stt

-- The thermostat: its ConvertStatus also leaves it as `durum_to_status` does, of which only `counter` is
-- read here: the status that it
-- prints was copied before.
abbrev said_air : {Hw : Type 0} → Float → Air Hw → Status → Durum
said_air fl a stt = record (said_place stt) {
  coun = some (durum_to_status a).status.counter;
  color = some (a.run_stat.max_temp * 256 + a.run_stat.min_temp);
  temp = some (fl.printed stt.temp);
  stemp = some (fl.printed stt.set_temp);
}

module _ {Hw : Type 0} where
  -- The classes that report no "stat", and those that store every change of "status".
  abbrev travels : BaseFunction Hw → Bool
  travels (cur f) = true
  travels (pis f) = true
  travels _ = false

  abbrev places : BaseFunction Hw → Bool
  places (cur f) = true
  places (pis f) = true
  places (door f) = true
  places (sec f) = true
  places (mwater f) = true
  places _ = false

module _ {Hw : Type 0} (fl : Float) (blok : ℕ) where
  unfoldable pub convert_status : BaseFunction Hw → Status → Durum
  convert_status (onoff f) stt = said_switch stt
  convert_status (gas f) stt = said_switch stt
  convert_status (water f) stt = said_switch stt
  convert_status (cont f) stt = record nothing_said { stat = some stt.stat }
  convert_status (gara f) stt = said_place stt
  convert_status (elev f) stt = said_place stt
  convert_status (door f) stt = said_place stt
  convert_status (cur f) stt = said_travel stt
  convert_status (pis f) stt = said_travel stt
  convert_status (sec f) stt = said_alarm blok stt
  convert_status (priz f) stt = said_countdown stt
  convert_status (lamp f) stt = said_countdown stt
  convert_status (tmrelay f) stt = record nothing_said { stat = some stt.stat }
  convert_status (mwater f) stt = said_place stt
  convert_status (air f) stt = said_air fl f stt

  module _ (strlen : String → ℕ) where
    -- The function `b` after the report of a status `stt` by the function that it stands for.
    unfoldable pub reported : Status → BaseFunction Hw → BaseFunction Hw
    reported stt b =
        let new = json_to_status strlen (some (convert_status b stt)) no_status (base b).status in
        remote_set_status fl new b

    -- After the report of a status, whose `status` is a byte, a function of another device has its
    -- `stat`, unless it is a curtain or a piston, which keep theirs; and a curtain, a piston, a door,
    -- an alarm system and a water meter have its `status`.
    pub report_reaches :
        (stt : Status) (b : BaseFunction Hw)
        → stt.status < 256
        → ((base (reported stt b)).status.stat
            ≡ (if travels b then (base b).status.stat else stt.stat))
          × ((not (places b) || (base (reported stt b)).status.status == stt.status) ≡ true)
    unfolding reported convert_status remote_set_status json_to_status remote_status
        local_set_status write_status notify Onoff.remote_set_status Gas.remote_set_status
        Water.remote_set_status Contactor.remote_set_status Garage.remote_set_status
        Lift.remote_set_status Door.remote_set_status Curtain.remote_set_status
        Piston.remote_set_status Security.remote_set_status Socket.remote_set_status
        Lamp.remote_set_status TmRelay.remote_set_status WaterMeter.remote_set_status
        Air.remote_set_status
    report_reaches stt (onoff f) h = ground arith
    report_reaches stt (gas f) h = ground arith
    report_reaches stt (water f) h = ground arith
    report_reaches stt (cont f) h = ground arith
    report_reaches stt (gara f) h = ground arith
    report_reaches stt (elev f) h = ground arith
    report_reaches stt (door f) h = ground arith
    report_reaches stt (cur f) h = ground arith
    report_reaches stt (pis f) h = ground arith
    report_reaches stt (sec f) h = ground arith
    report_reaches stt (priz f) h = ground arith
    report_reaches stt (lamp f) h = ground arith
    report_reaches stt (tmrelay f) h = ground arith
    report_reaches stt (mwater f) h = ground arith
    report_reaches stt (air f) h = ground arith
