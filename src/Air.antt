-- ===== src/Air.antt =====
-- components/home/library/air/air.cpp and air.h: the thermostat function, which drives its output ports
-- by the temperature that a sensor reports. The temperatures are floats, seen through the comparisons
-- that the code makes of them, the conversion of a byte, and the text with two digits that is parsed
-- again. The message of a scenario comes as the values of its items.
pub mod Bits
pub mod Control
pub mod Start
use text.Mathlib.Text.{◌==◌ as str_eq}
use n1cpu.Base.{
  ℕ, ◌+◌, ◌*◌, ◌/◌, ◌%◌, Bool, true, false, not, ◌&&◌, ◌||◌, ◌==◌, leb, Option, none, some, List,
  [], ◌∷◌, String, if◌then◌else◌,
}
use n1cpu.Core.{Status}
use n1cpu.Core.PortType.{is_virtual}
use n1cpu.Out.{World, Hal, of_bool, to_bool}
use n1cpu.Port.{Port}
use n1cpu.Func.{Func, base_function, first_status, local_set_status, write_status, notify, command}
use n1cpu.Func.Ports.{write_ports, any_port, is_some_outport}
use n1cpu.Func.Relay.{bool_ne, remote_status}

pub record Float : Type 0 where
  pub le : ℕ → ℕ → Bool
  pub lt : ℕ → ℕ → Bool
  pub eq : ℕ → ℕ → Bool
  pub of_byte : ℕ → ℕ
  pub printed : ℕ → ℕ

-- `air_status_t`, a byte as bit fields from the lowest bit on.
pub record AirStatus : Type 0 where
  pub isitma_sogutma : Bool
  pub auto_manuel : Bool
  pub motor_aktif_pasif : Bool
  pub start_stop : Bool
  pub role_durumu : Bool
  pub gece_gunduz : Bool
  pub bos : ℕ

unfoldable pub of_int_st : ℕ → AirStatus
of_int_st n = record {
  isitma_sogutma = to_bool (n % 2);
  auto_manuel = to_bool (n / 2 % 2);
  motor_aktif_pasif = to_bool (n / 4 % 2);
  start_stop = to_bool (n / 8 % 2);
  role_durumu = to_bool (n / 16 % 2);
  gece_gunduz = to_bool (n / 32 % 2);
  bos = n / 64 % 4;
}

unfoldable pub int_st : AirStatus → ℕ
int_st s =
    of_bool s.isitma_sogutma
    + of_bool s.auto_manuel * 2
    + of_bool s.motor_aktif_pasif * 4
    + of_bool s.start_stop * 8
    + of_bool s.role_durumu * 16
    + of_bool s.gece_gunduz * 32
    + s.bos * 64

-- `run_status_t`, without the two members that nothing uses. `run_mod`, `mod` there, is true for
-- cooling.
pub record RunStatus : Type 0 where
  pub user : Bool
  pub max_temp : ℕ
  pub min_temp : ℕ
  pub run_mod : Bool

-- `durum` is an `air_t`.
pub record Air (Hw : Type 0) : Type 0 where
  pub fn : Func Hw
  pub open fn use *
  pub durum : AirStatus
  pub durum_temp : ℕ
  pub durum_set_temp : ℕ
  pub run_stat : RunStatus
  pub send_gateway : Bool

abbrev pub no_durum : AirStatus
no_durum = record {
  isitma_sogutma = false;
  auto_manuel = false;
  motor_aktif_pasif = false;
  start_stop = false;
  role_durumu = false;
  gece_gunduz = false;
  bos = 0;
}

-- The limits and the modes from the two bytes of the configuration.
abbrev pub configured : ℕ → ℕ → RunStatus
configured global timer =
    let low = if global % 32 == 0 then 18 else global % 32 in
    record {
      min_temp = low;
      run_mod = to_bool (global / 128 % 2);
      max_temp = if leb (timer % 128) low then 30 else timer % 128;
      user = to_bool (timer / 128 % 2);
    }

module _ {Hw : Type 0} where
  unfoldable pub status_to_durum : Air Hw → Air Hw
  status_to_durum a =
      let fixed = record a.durum {
        auto_manuel = false;
        isitma_sogutma = a.run_stat.run_mod;
        start_stop = true;
      } in
      record a {
        durum = if a.run_stat.user then fixed else of_int_st a.status.counter;
        durum_temp = a.status.temp;
        durum_set_temp = a.status.set_temp;
      }

  unfoldable pub durum_to_status : Air Hw → Air Hw
  durum_to_status a =
      let st = record a.status {
        counter = int_st a.durum;
        temp = a.durum_temp;
        set_temp = a.durum_set_temp;
        status = of_bool a.durum.role_durumu;
      } in
      record a { fn = record a.fn { status = st } }

  module _ (fl : Float) where
    -- On the first start `durum` is still all zeros when `durum_to_status` reads it.
    unfoldable pub create : ℕ → Bool → Status → World Hw → Air Hw
    unfolding durum_to_status
    create id cb stored w =
        let f = base_function id cb stored w in
        let blank : Air Hw = record {
          fn = f;
          durum = no_durum;
          durum_temp = fl.of_byte 0;
          durum_set_temp = fl.of_byte 0;
          run_stat = record { user = false; max_temp = 0; min_temp = 0; run_mod = false };
          send_gateway = false;
        } in
        let st = record (first_status true) { set_temp = fl.of_byte 25; temp = fl.of_byte 26 } in
        let started = record blank {
          fn = record f { status = st };
          durum = record no_durum { start_stop = true };
        } in
        let made = durum_to_status started in
        let a = if stored.first then blank else record made { fn = write_status made.fn } in
        record a { fn = record a.fn { active = a.status.active } }

    -- `role` and `change` of `temp_action`, through its tests one after the other.
    abbrev auto_heat : Air Hw → Bool × Bool
    auto_heat a = (not (fl.le a.durum_set_temp a.durum_temp), true)

    abbrev auto_cool : Air Hw → Bool × Bool
    auto_cool a =
        if fl.lt (fl.of_byte 0) a.durum_temp
        then (not (fl.le a.durum_temp a.durum_set_temp), true)
        else (false, false)

    abbrev manual : Air Hw → Bool × Bool
    manual a =
        let out =
          fl.lt a.durum_temp (fl.of_byte a.run_stat.min_temp)
          || fl.lt (fl.of_byte a.run_stat.max_temp) a.durum_temp in
        (if out then false else a.durum.motor_aktif_pasif, true)

    unfoldable pub role : Air Hw → Bool × Bool
    role a =
        let chosen =
          if a.durum.auto_manuel
          then manual a
          else if a.run_stat.run_mod
          then auto_cool a
          else auto_heat a in
        if a.durum.start_stop then chosen else (false, true)

    module _ (hal : Hal Hw) where
      unfoldable pub drive : Bool → Air Hw → Air Hw
      drive on a =
          let (ps, ret, w) = write_ports hal any_port on a.durum.role_durumu a.ports a.world in
          record a {
            fn = record a.fn { ports = ps; world = w };
            durum = record a.durum { role_durumu = ret };
          }

      unfoldable pub temp_action : Bool → Air Hw → Air Hw
      temp_action send a =
          let a1 = status_to_durum a in
          let a2 = if (role a1).1 then drive (role a1).0 a1 else a1 in
          let told = durum_to_status a2 in
          if send && a2.has_function_callback
          then record told { fn = notify told.status told.fn }
          else a2

      -- The part of `set_status` before `temp_action`.
      unfoldable pub accept : Status → Air Hw → Air Hw
      accept stat a =
          let st = record a.status {
            counter = stat.counter;
            temp = stat.temp;
            set_temp = stat.set_temp;
          } in
          let a1 = status_to_durum (record a { fn = record a.fn { status = st } }) in
          let chg = not (fl.eq stat.set_temp a.durum_set_temp) in
          record a1 { fn = write_status a1.fn; send_gateway = if chg then true else a.send_gateway }

      unfoldable pub set_status : Status → Air Hw → Air Hw
      set_status stat a =
          let a1 = temp_action false (accept stat a) in
          if a.virtual_device
          then record a { fn = command stat a.fn }
          else record a1 { fn = notify a1.status a1.fn }

      -- The loop of `set_sensor`; `set_status` changes no port's name or type.
      air_sensor_ports : String → Status → List Port → Air Hw → Air Hw
      air_sensor_ports name stat [] a = a
      air_sensor_ports name stat (p ∷ ps) a =
          let ss = record a.status { temp = stat.temp; set_temp = stat.set_temp } in
          air_sensor_ports name stat ps
            (if is_virtual p.type && str_eq p.name name then set_status ss a else a)

      unfoldable pub set_sensor : String → Status → Air Hw → Air Hw
      unfolding air_sensor_ports
      set_sensor name stat a = if a.virtual_device then a else air_sensor_ports name stat a.ports a

      unfoldable pub fire : Bool → Air Hw → Air Hw
      fire stat a =
          let f = record a.fn { main_temp_status = a.status } in
          let (ps, ret, w) = write_ports hal any_port false false a.ports a.world in
          let st = if is_some_outport a.ports then of_bool ret else a.status.status in
          let back = a.main_temp_status in
          let (ps', ret', w') =
            write_ports hal any_port (to_bool back.status) false a.ports a.world in
          if stat
          then record a {
            fn = record f { status = record a.status { status = st }; ports = ps; world = w };
          }
          else record a { fn = record a.fn { status = back; ports = ps'; world = w' } }

      -- A text that is no JSON is `none`.
      unfoldable senaryo : Option (Option ℕ × Option Bool) → Air Hw → Air Hw
      senaryo none a = a
      senaryo (some (temp, stat)) a =
          let st = record a.status {
            temp = elim temp [ none ↦ a.status.temp | some t ↦ t ];
            stat = elim stat [ none ↦ a.status.stat | some b ↦ b ];
          } in
          set_status st (record a { fn = record a.fn { status = st } })

      unfoldable pub init : Air Hw → Air Hw
      init a =
          let run = configured a.global a.timer in
          let st = record a.status { color = run.max_temp * 256 + run.min_temp } in
          if a.virtual_device
          then a
          else temp_action true
              (status_to_durum (record a { run_stat = run; fn = record a.fn { status = st } }))

    unfoldable pub remote_set_status : Status → Bool → Air Hw → Air Hw
    remote_set_status stat callback_call a =
        let chg =
          bool_ne a.status.active stat.active
          || bool_ne a.status.stat stat.stat
          || not (a.status.counter == stat.counter)
          || not (fl.eq a.status.set_temp stat.set_temp) in
        record a { fn = remote_status chg stat callback_call a.fn }
