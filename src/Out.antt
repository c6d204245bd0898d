-- ===== src/Out.antt =====
-- components/home/library/out/iot_out.c: the output driver. The three `hal_*` pointers of a device
-- stand for either of two drivers, GPIO and expander: here they are the argument `hal`, over a
-- hardware state `Hw`, and a device's `hardware_data` is a number.
pub mod Gpio
pub mod Expander
use n1cpu.Base.{ℕ, Bool, true, false, not, Option, none, some, List, ◌∷◌, ◌==◌, if◌then◌else◌, ◌≡◌}
use n1cpu.Core.{Status, SecurityEvent, HomeEvent}

pub record Hal (Hw : Type 0) : Type 0 where
  pub set_level : ℕ → ℕ → Hw → ℕ × Hw
  pub get_level : ℕ → Hw → ℕ
  pub toggle_level : ℕ → Hw → ℕ × Hw

-- What the rest of the program lets the world see, newest first.
pub data Effect : Type 0 where
  outport_call : ℕ → Effect
  function_callback command_callback : Status → Effect
  status_written : ℕ → Status → Effect
  security_event : SecurityEvent → Effect
  home_event : HomeEvent → Effect

pub record World (Hw : Type 0) : Type 0 where
  pub hw : Hw
  pub log : List Effect

-- `out_dev_t`; `cb` tells whether the callback is set, which is always `outportscall`.
pub record OutDev : Type 0 where
  pub hardware_data : ℕ
  pub usr_data : ℕ
  pub cb : Bool
  pub disable : Bool

abbrev pub to_bool : ℕ → Bool
to_bool n = if n == 0 then false else true

abbrev pub of_bool : Bool → ℕ
of_bool true = 1
of_bool false = 0

module _ {Hw : Type 0} where
  abbrev pub emit : Effect → World Hw → World Hw
  emit e w = record w { log = e ∷ w.log }

  -- `if (out->cb!=NULL) out->cb(out, out->usr_data)`.
  unfoldable call_back : OutDev → World Hw → World Hw
  call_back out w = if out.cb then emit (outport_call out.usr_data) w else w

  module _ (hal : Hal Hw) where
    unfoldable pub iot_out_set_level : Option OutDev → ℕ → World Hw → ℕ × World Hw
    unfolding call_back
    iot_out_set_level none level w = (0, w)
    iot_out_set_level (some out) level w =
        let (ret, hw') = hal.set_level out.hardware_data level w.hw in
        if out.disable then (255, w) else (ret, call_back out (record w { hw = hw' }))

    unfoldable pub iot_out_get_level : Option OutDev → World Hw → Bool
    iot_out_get_level none w = false
    iot_out_get_level (some out) w = to_bool (hal.get_level out.hardware_data w.hw)

    unfoldable pub iot_out_set_toggle : Option OutDev → World Hw → ℕ × World Hw
    unfolding call_back
    iot_out_set_toggle none w = (0, w)
    iot_out_set_toggle (some out) w =
        let (ret, hw') = hal.toggle_level out.hardware_data w.hw in
        if out.disable then (255, w) else (ret, call_back out (record w { hw = hw' }))

-- What the callers rely on: a handle is a cell of its own that holds what was last written to it.
module _ {Hw : Type 0} where
  pub record IsHal (hal : Hal Hw) : Type 0 where
    pub set_returns : (d l : ℕ) (h : Hw) → to_bool (hal.set_level d l h).0 ≡ to_bool l
    pub get-set :
        (e d l : ℕ) (h : Hw)
        → to_bool (hal.get_level e (hal.set_level d l h).1)
          ≡ (if d == e then to_bool l else to_bool (hal.get_level e h))
    pub toggle_returns :
        (d : ℕ) (h : Hw) → to_bool (hal.toggle_level d h).0 ≡ not (to_bool (hal.get_level d h))
    pub get-toggle :
        (e d : ℕ) (h : Hw)
        → to_bool (hal.get_level e (hal.toggle_level d h).1)
          ≡ (if d == e then not (to_bool (hal.get_level d h)) else to_bool (hal.get_level e h))
