-- ===== src/House/Water.antt =====
-- From a water sensor to the valves.
use n1cpu.Base.{
  ℕ, Bool, true, false, ◌&&◌, ◌||◌, none, some, List, [], ◌∷◌, ◌≡◌, ◌⊎◌, refl, ap, ◌∙◌, arith,
  if◌then◌else◌,
}
use n1cpu.Core.PortType.{
  PortType, port_water, port_gas, port_fire, port_emergency, is_outport, is_emergency,
}
use n1cpu.Button.{ButtonEvent, press_down, press_up}
use n1cpu.Port.{Port}
use n1cpu.Port.Laws.{level}
use n1cpu.Out.{Hal, IsHal, World}
use n1cpu.Func.{stopped, local_set_status, write_status, notify}
use n1cpu.Func.Laws.{driven, Ready}
use n1cpu.Func.Relay.Laws.{IsLive}
use n1cpu.Security.{Security, sec_opened, find_id, user_enabled, post, sound}
use n1cpu.Security.Alarm.{func_callback_lem, sound_lem}
use n1cpu.WaterMeter.{MWater, has_name, alarm_handler}
use n1cpu.WaterMeter.Alarm.{alarm_handler_lem}
use n1cpu.House.{House, newest, security_in, meter_in, quiet, water_alarm, deliver, press}

abbrev pub is_water : PortType → Bool
is_water port_water = true
is_water _ = false

module _ {Hw : Type 0} where
  -- Does a valve have a relay ON at the handle `e`?
  abbrev pub shut_by : ℕ → List (MWater Hw) → Bool
  shut_by e [] = false
  shut_by e (m ∷ ms) = driven (has_name "ON") e m.ports || shut_by e ms

  -- Every valve is live and at rest.
  abbrev pub AtRest : List (MWater Hw) → Type 0
  AtRest [] = Unit {0}
  AtRest (m ∷ ms) = IsLive m.fn × (m.qtimer ≡ stopped) × AtRest ms

  module _ (hal : Hal Hw) (laws : IsHal hal) where
    water_alarm_lem :
        (e : ℕ) (ms : List (MWater Hw)) (w : World Hw)
        → AtRest ms
        → level hal e (water_alarm hal ms w).1 ≡ (if shut_by e ms then true else level hal e w)
    unfolding water_alarm
    water_alarm_lem e [] w r = refl
    water_alarm_lem e (m ∷ ms) w (v, q, r) =
        let live : IsLive (meter_in w m).fn = record { local = v.local; ready = v.ready } in
        ground (
          arith,
          q,
          alarm_handler_lem hal laws (meter_in w m) e live,
          water_alarm_lem e ms (alarm_handler hal (meter_in w m)).world r,
        )

    newest-sound :
        (id : ℕ) (prt : Port) (s : Security Hw) → newest (sound hal id prt s).world.log ≡ none
    unfolding sound local_set_status write_status notify
    newest-sound id prt s = ground arith

    deliver_lem :
        (e : ℕ) (tp : PortType) (ms : List (MWater Hw)) (w : World Hw)
        → newest w.log ≡ none
        → AtRest ms
        → level hal e (deliver hal (newest (post tp w).log) ms (post tp w)).1
          ≡ (if is_water tp && shut_by e ms then true else level hal e w)
    unfolding deliver post
    deliver_lem e port_water ms w n r = water_alarm_lem e ms (post port_water w) r
    deliver_lem e port_gas ms w n r = refl
    deliver_lem e port_fire ms w n r = refl
    deliver_lem e port_emergency ms w n r = refl
    deliver_lem e _ ms w n r = ground (arith, n)

    -- A press or a release at an input of the alarm system that the user has not disabled, while the
    -- system is armed or at an emergency input, turns on every output of the system that the user has
    -- not disabled, and, at a water input, every ON relay of the valves, which are taken to be live and
    -- at rest. No other output of the house changes: an input of gas, fire or emergency reaches no
    -- valve. The outputs of the system are taken to be enabled and wired.
    pub press_shuts :
        (id : ℕ) (evt : ButtonEvent) (h : House Hw) (prt : Port) (e : ℕ)
        → find_id id h.security.ports ≡ some prt
        → is_outport prt.type ≡ false
        → prt.user_active ≡ true
        → (evt ≡ press_down) ⊎ (evt ≡ press_up)
        → (is_emergency prt.type ≡ true) ⊎ (h.security.status.status ≡ sec_opened)
        → Ready h.security.ports
        → AtRest h.meters
        → level hal e (press hal id evt h).world ≡ (
            if (is_water prt.type && shut_by e h.meters) || driven user_enabled e h.security.ports
            then true
            else level hal e h.world)
    unfolding press
    press_shuts id evt h prt e f o u ev acc r rest =
        let s = security_in (quiet h.world) h.security in
        let call = func_callback_lem hal laws id evt s prt f u ev acc in
        let (st, name, lit) = sound_lem hal laws id s prt f o r in
        let w = (sound hal id prt s).world in
        ap (λ g. level hal e (deliver hal (newest g.world.log) h.meters g.world).1) call
        ∙ (deliver_lem e prt.type h.meters w (newest-sound id prt s) rest ∙ ground (arith, lit e))
