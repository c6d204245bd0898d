-- ===== src/Func.antt =====
-- `Base_Function` of components/home/library/classes/classes.h: the state that every device
-- function has, with the world that it acts on, and its own methods. A callback pointer is a flag
-- (set or NULL); calling it is an effect.
pub mod Ports
pub mod Laws
pub mod Relay
pub mod Active
use text.Mathlib.Text.{◌==◌ as str_eq}
use n1cpu.Base.{ℕ, ◌+◌, ◌%◌, ◌*◌, Bool, true, false, List, [], ◌∷◌, String, if◌then◌else◌}
use n1cpu.Core.{Status}
use n1cpu.Out.{World, Effect, function_callback, command_callback, status_written, emit}
use n1cpu.Port.{Port, set_active as set_active_port}

-- An `esp_timer_handle_t`: NULL, created and not running, or running for the given microseconds.
pub data Timer : Type 0 where
  no_timer stopped : Timer
  once periodic : ℕ → Timer

abbrev pub is_running : Timer → Bool
is_running (once us) = true
is_running (periodic us) = true
is_running _ = false

-- `if (esp_timer_is_active(t)) esp_timer_stop(t)`.
abbrev pub stop : Timer → Timer
stop no_timer = no_timer
stop _ = stopped

-- `if (t!=NULL) if (!esp_timer_is_active(t)) esp_timer_start_once(t, us)`, which cannot fail.
abbrev pub start_once : ℕ → Timer → Timer
start_once us stopped = once us
start_once us t = t

-- The same with `esp_timer_start_periodic`.
abbrev pub start_periodic : ℕ → Timer → Timer
start_periodic us stopped = periodic us
start_periodic us t = t

pub record Func (Hw : Type 0) : Type 0 where
  pub device_id : ℕ
  pub register_id : ℕ
  pub register_device_id : ℕ
  pub active : Bool
  pub virtual_device : Bool
  pub registered : Bool
  pub timer : ℕ
  pub global : ℕ
  pub has_function_callback : Bool
  pub has_command_callback : Bool
  pub status : Status
  pub main_temp_status : Status
  pub ports : List Port
  pub port_count : ℕ
  pub reg_tim : Timer
  pub world : World Hw

-- All bytes zero but the flags `stat`, `active` and `first`.
abbrev pub first_status : Bool → Status
first_status stat = record {
  stat = stat;
  temp = 0;
  set_temp = 0;
  color = 0;
  status = 0;
  ircom = "";
  irval = "";
  counter = 0;
  active = true;
  first = true;
}

abbrev pub no_status : Status
no_status = record (first_status false) { active = false; first = false }

abbrev has_name : String → List Port → Bool
has_name name [] = false
has_name name (p ∷ ps) = if str_eq p.name name then true else has_name name ps

abbrev pub activate_all : Bool → List Port → List Port
activate_all dr [] = []
activate_all dr (p ∷ ps) = set_active_port dr p ∷ activate_all dr ps

module _ {Hw : Type 0} where
  unfoldable add_port : Port → Func Hw → Func Hw
  add_port dev f =
      let count = (f.port_count + 1) % 256 in
      record f { port_count = count; ports = record dev { id = count } ∷ f.ports }

  unfoldable find_port : String → Func Hw → Bool
  find_port name f = has_name name f.ports

  unfoldable pub set_active : Bool → Func Hw → Func Hw
  set_active drm f = record f { active = drm; ports = activate_all drm f.ports }

  unfoldable pub write_status : Func Hw → Func Hw
  write_status f = record f { world = emit (status_written f.device_id f.status) f.world }

  unfoldable pub local_set_status : Status → Bool → Func Hw → Func Hw
  unfolding write_status
  local_set_status stat write f =
      let f' = record f { status = record stat { first = true } } in
      if write then write_status f' else f'

  -- `if (function_callback!=NULL) function_callback(this, stat)`.
  unfoldable pub notify : Status → Func Hw → Func Hw
  notify stat f =
      if f.has_function_callback
      then record f { world = emit (function_callback stat) f.world }
      else f

  -- `if (command_callback!=NULL) command_callback(this, stat)`.
  unfoldable pub command : Status → Func Hw → Func Hw
  command stat f =
      if f.has_command_callback
      then record f { world = emit (command_callback stat) f.world }
      else f

  -- `Base_Function::Base_Function`; `stored` is what `disk.read_status` brings, `cb` tells whether
  -- the callback is set.
  abbrev pub base_function : ℕ → Bool → Status → World Hw → Func Hw
  base_function id cb stored w = record {
    device_id = id;
    register_id = 0;
    register_device_id = 0;
    active = true;
    virtual_device = false;
    registered = false;
    timer = 0;
    global = 0;
    has_function_callback = cb;
    has_command_callback = false;
    status = stored;
    main_temp_status = no_status;
    ports = [];
    port_count = 0;
    reg_tim = stopped;
    world = w;
  }

  -- What the constructors of the classes share, for the `stat` that each starts with.
  unfoldable pub create : Bool → ℕ → Bool → Status → World Hw → Func Hw
  unfolding write_status
  create stat id cb stored w =
      let f = base_function id cb stored w in
      if stored.first then f else write_status (record f { status = first_status stat })

  unfoldable function_start_register : Func Hw → Func Hw
  function_start_register f = record f {
    register_id = 0;
    registered = false;
    reg_tim = periodic (f.device_id * 1000000);
  }

  unfoldable function_set_register : ℕ → ℕ → Func Hw → Func Hw
  function_set_register id dev f = record f {
    reg_tim = stop f.reg_tim;
    register_id = id;
    register_device_id = dev;
    registered = true;
  }
