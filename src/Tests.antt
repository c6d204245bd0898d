-- ===== src/Tests.antt =====
-- The concrete functions of the tests: relays on GPIO pins that are cells of a memory.
mod Devices
mod Curtains
mod Alarms
mod Lines
mod Network
mod Lamps
mod Boards
mod Messages
mod Climate
mod Watches
mod Radios
mod Gateway
mod Disk
mod Sockets
use n1cpu.Base.{
  ℕ, true, false, List, [], ◌∷◌, none, some, String, refl, if◌then◌else◌, ◌==◌, ◌≡◌, inl, arith,
}
use n1cpu.Core.{Status}
use n1cpu.Core.PortType.{
  port_type_convert, port_type_string, port_water, port_type_convert-port_type_string, port_outport,
}
use n1cpu.Button.{press_down}
use n1cpu.Out.{Hal, IsHal, OutDev, to_bool, of_bool, iot_out_set_level}
use n1cpu.Out.Gpio.{Pins, IsPins, gpio_hal, gpio_hal-IsHal, out_gpio_get_level, out_gpio_set_level}
use n1cpu.Port.{Port, set_status as port_write}
use n1cpu.Port.Laws.{level}
use n1cpu.Func.{Func, stopped, is_running, notify, local_set_status, write_status}
use n1cpu.Gas.{fire as gas_fire}
use n1cpu.Gas.Fire.{fire_restores}
use n1cpu.Func.Relay.Laws.{IsLive, Switched, relay_status-Switched}
use n1cpu.Func.Relay.{relay_status}
use n1cpu.Contactor.{Contactor, fire as contactor_fire, tim_callback as contactor_end}
use n1cpu.Contactor.Fire.{fire_delays, fire_cancelled}
use n1cpu.Garage.{Garage}
use n1cpu.Garage.Pulse.{presses, presses_pulse}
use n1cpu.Door.{Door, set_status as door_set, tim_callback as door_end}
use n1cpu.Door.Lock.{set_status_pulse, set_status_stuck}
use n1cpu.Func.Ports.{write_ports}
use n1cpu.Curtain.{
  on_press_down, depart, tim_stop, tim_start, motor_action, motor_ports, Curtain, cur_unknown,
  motor_stop, curbtn_unknown, set_status, cur_tim_callback, func_callback, fire,
}
use n1cpu.Curtain.Calls.{step, IsKnown, Call, input_event, AllKnown, run, run_never_both, run_timed}
use n1cpu.Curtain.Interlock.{Inv}
use n1cpu.Curtain.Travel.{order_arrives, press_forgets}
use n1cpu.Curtain.Alarm.{fire_both_on}

abbrev pub Memory : Type 0
Memory = ℕ → ℕ

abbrev pub cells : Pins Memory
cells = record {
  gpio_set_level = λ d l h e. if d == e then of_bool (to_bool l) else h e;
  gpio_get_level = λ e h. h e;
}

cells-IsPins : IsPins cells
cells-IsPins = record { get-set = λ e d l h. refl }

abbrev pub hal : Hal Memory
hal = gpio_hal cells

abbrev pub relay : String → ℕ → Port
relay name pin = record {
  name = name;
  id = pin;
  type = port_outport;
  status = false;
  virtual_port = false;
  outport = some (record { hardware_data = pin; usr_data = pin; cb = true; disable = false });
  inport = none;
  active = true;
  user_active = true;
  alarm = false;
}

abbrev pub rest : Status
rest = record {
  stat = true;
  temp = 0;
  set_temp = 0;
  color = 0;
  status = 0;
  ircom = "";
  irval = "";
  counter = 20;
  active = true;
  first = false;
}

abbrev pub func : List Port → Func Memory
func ps = record {
  device_id = 7;
  register_id = 0;
  register_device_id = 0;
  active = true;
  virtual_device = false;
  registered = true;
  timer = 3;
  global = 0;
  has_function_callback = true;
  has_command_callback = true;
  status = rest;
  main_temp_status = rest;
  ports = ps;
  port_count = 2;
  reg_tim = stopped;
  world = record { hw = λ e. 0; log = [] };
}

abbrev pub valve : Func Memory
valve = func (relay "ON" 3 ∷ [])

pub valve-IsLive : IsLive valve
valve-IsLive = record {
  local = refl;
  ready = (
    λ t. (
      record { hardware_data = 3; usr_data = 3; cb = true; disable = false },
      record { enabled = refl; wired = refl; ready = refl },
    ),
    tt,
  );
}

pub laws : IsHal hal
laws = gpio_hal-IsHal cells cells-IsPins

abbrev pub out : ℕ → OutDev
out pin = record { hardware_data = pin; usr_data = pin; cb = true; disable = false }
