-- ===== src/Security/Alarm.antt =====
-- What an event at a port of the alarm system does.
use n1cpu.Base.{
  ◌≢◌, ap, ◌∙◌, sym, subst, ℕ, Bool, true, false, ◌||◌, ◌==◌, List, [], ◌∷◌, ◌≡◌, ◌⊎◌, arith, refl,
  some, if◌then◌else◌, Bool-cases, inl, inr,
}
use n1cpu.Func.{local_set_status, write_status, notify, is_running}
use n1cpu.Core.PortType.{PortType, port_water, port_gas, port_fire, port_emergency}
use n1cpu.Port.{Port, set_active_admin, set_active, set_status as set_port}
use n1cpu.Func.Laws.{Ready, driven, write_ports_lem}
use n1cpu.Security.{
  set_status, sound, raise, raise_id, Hal, close_active, find_id, close_ports, post, PortType,
  func_callback, is_emergency, is_outport, cikis_port_active, turn, local_set_status, tim_stop,
  alarm_close, write_status, notify, ButtonEvent, Status, any_port, Security, press_down,
  sec_closed, press_up, sec_opened, sec_alarm, user_enabled,
}
use n1cpu.Out.{IsHal, World, to_bool}
use n1cpu.Port.Laws.{level, set_status_lem}

raise-driven :
    (test : Port → Bool) (e id : ℕ) (ps : List Port)
    → ((p : Port) → test (raise p) ≡ test p)
    → Ready ps
    → (driven test e (raise_id id ps) ≡ driven test e ps)
unfolding raise_id set_active_admin
raise-driven test e id [] same r = refl
raise-driven test e id (p ∷ ps) same r = ground (arith, raise-driven test e id ps same r.1, same p)

raise-Ready :
    (id : ℕ) (ps : List Port) (prt : Port)
    → find_id id ps ≡ some prt
    → is_outport prt.type ≡ false
    → Ready ps
    → Ready (raise_id id ps)
unfolding raise_id set_active_admin
raise-Ready id [] prt f o r = tt
raise-Ready id (p ∷ ps) prt f o r = elim (Bool-cases (p.id == id)) [
  | inl t ↦ ground arith
  | inr t ↦ ground (arith, raise-Ready id ps prt)
]

-- Disarmed: no port is marked, the emergency inputs are active, and the others are as the user has
-- them.
pub IsDisarmed : List Port → Type 0
IsDisarmed [] = true ≡ true
IsDisarmed (p ∷ ps) =
    ((p.alarm ≡ false) × (p.active ≡ (is_emergency p.type || p.user_active))) × IsDisarmed ps

close_active_lem :
    (p : Port)
    → ((close_active p).alarm ≡ false)
      × ((close_active p).active
          ≡ (is_emergency (close_active p).type || (close_active p).user_active))
unfolding close_active set_active set_active_admin
close_active_lem p = ground arith

module _ {Hw : Type 0} (hal : Hal Hw) where
  post_lem : (tp : PortType) (w : World Hw) → (post tp w).hw ≡ w.hw
  unfolding post
  post_lem port_water w = refl
  post_lem port_gas w = refl
  post_lem port_fire w = refl
  post_lem port_emergency w = refl
  post_lem _ w = refl

  close_ports-IsDisarmed : (ps : List Port) (w : World Hw) → IsDisarmed (close_ports hal ps w).0
  unfolding close_ports IsDisarmed
  close_ports-IsDisarmed [] w = refl
  close_ports-IsDisarmed (p ∷ ps) w =
      let (p', ret, w') = if is_outport p.type then set_port hal false p w else (p, false, w) in
      (close_active_lem p', close_ports-IsDisarmed ps w')

  -- While the system is not armed, an event at an input that is no emergency input changes nothing.
  pub func_callback_ignored :
      (id : ℕ) (evt : ButtonEvent) (s : Security Hw) (prt : Port)
      → find_id id s.ports ≡ some prt
      → is_emergency prt.type ≡ false
      → s.status.status ≢ sec_opened
      → func_callback hal id evt s ≡ s
  unfolding func_callback
  func_callback_ignored id evt s prt f e n = ground arith

  module _ (laws : IsHal hal) where
    close_ports_lem :
        (e : ℕ) (ps : List Port) (w : World Hw)
        → Ready ps
        → level hal e (close_ports hal ps w).1
          ≡ (if driven any_port e ps then false else level hal e w)
    unfolding close_ports
    close_ports_lem e [] w r = refl
    close_ports_lem e (p ∷ ps) w r = elim (Bool-cases (is_outport p.type)) [
      | inl t ↦
          let (out, d) = r.0 t in
          let w' = (set_port hal false p w).2 in
          ground (arith, set_status_lem hal laws e false p w out t d, close_ports_lem e ps w' r.1)
      | inr t ↦ ground (arith, close_ports_lem e ps w r.1)
    ]

    pub sound_lem :
        (id : ℕ) (s : Security Hw) (prt : Port)
        → find_id id s.ports ≡ some prt
        → is_outport prt.type ≡ false
        → Ready s.ports
        → ((sound hal id prt s).status.status ≡ sec_alarm)
          × ((sound hal id prt s).status.ircom ≡ prt.name)
          × ((e : ℕ)
              → level hal e (sound hal id prt s).world
                ≡ (if driven user_enabled e s.ports then true else level hal e s.world))
    unfolding sound cikis_port_active local_set_status write_status notify set_active_admin
    sound_lem id s prt f o r = (
      ground arith,
      ground arith,
      λ e. ground (
        arith,
        write_ports_lem hal laws e user_enabled true true (raise_id id s.ports) s.world
            (raise-Ready id s.ports prt f o r),
        raise-driven user_enabled e id s.ports (λ p. refl) r,
      ),
    )

    pub func_callback_lem :
        (id : ℕ) (evt : ButtonEvent) (s : Security Hw) (prt : Port)
        → find_id id s.ports ≡ some prt
        → prt.user_active ≡ true
        → (evt ≡ press_down) ⊎ (evt ≡ press_up)
        → (is_emergency prt.type ≡ true) ⊎ (s.status.status ≡ sec_opened)
        → (func_callback hal id evt s).fn
          ≡ record (sound hal id prt s) { world = post prt.type (sound hal id prt s).world }
    unfolding func_callback
    func_callback_lem id evt s prt f u ev acc = ground arith

    -- A press or a release at an input that the user has not disabled, of a system that is armed or
    -- at an emergency input, gives the alarm: the status is `alarm` with the name of the port, and
    -- every output that the user has not disabled is on, no other changed. The outputs are taken to
    -- be enabled and wired.
    pub func_callback_alarm :
        (id : ℕ) (evt : ButtonEvent) (s : Security Hw) (prt : Port)
        → find_id id s.ports ≡ some prt
        → is_outport prt.type ≡ false
        → prt.user_active ≡ true
        → (evt ≡ press_down) ⊎ (evt ≡ press_up)
        → (is_emergency prt.type ≡ true) ⊎ (s.status.status ≡ sec_opened)
        → Ready s.ports
        → let t = func_callback hal id evt s in
          (t.status.status ≡ sec_alarm)
          × (t.status.ircom ≡ prt.name)
          × ((e : ℕ)
              → level hal e t.world
                ≡ (if driven user_enabled e s.ports then true else level hal e s.world))
    func_callback_alarm id evt s prt f o u ev acc r =
        let (st, name, lit) = sound_lem id s prt f o r in
        let call = func_callback_lem id evt s prt f u ev acc in
        let w = (sound hal id prt s).world in
        (
          ap (λ g. g.status.status) call ∙ st,
          ap (λ g. g.status.ircom) call ∙ name,
          λ e.
              ap (λ g. level hal e g.world) call
              ∙ (ap (λ h. to_bool (hal.get_level e h)) (post_lem prt.type w) ∙ lit e),
        )

    disarm_lem :
        (stat : Status) (s : Security Hw)
        → s.virtual_device ≡ false
        → stat.status ≡ sec_closed
        → let t = set_status hal stat s in
          (t.status.status ≡ sec_closed)
          × (is_running t.qtimer ≡ false)
          × (t.ports ≡ (close_ports hal s.ports s.world).0)
          × (t.world.hw ≡ (close_ports hal s.ports s.world).1.hw)
    unfolding set_status turn tim_stop alarm_close local_set_status write_status notify
    disarm_lem stat s v c = ground arith

    -- A command to disarm a real alarm system, whose outputs are enabled and wired, stops its timer,
    -- opens its outputs and touches no other, sets the status to `closed`, and leaves no port marked,
    -- the emergency inputs active and the other ports as the user has them.
    pub set_status_disarms :
        (stat : Status) (s : Security Hw)
        → s.virtual_device ≡ false
        → stat.status ≡ sec_closed
        → Ready s.ports
        → let t = set_status hal stat s in
          (t.status.status ≡ sec_closed)
          × (is_running t.qtimer ≡ false)
          × IsDisarmed t.ports
          × ((e : ℕ)
              → level hal e t.world
                ≡ (if driven any_port e s.ports then false else level hal e s.world))
    set_status_disarms stat s v c r =
        let (closed, quiet, same, hw) = disarm_lem stat s v c in
        (
          closed,
          quiet,
          subst IsDisarmed (sym same) (close_ports-IsDisarmed s.ports s.world),
          λ e. ap (λ h. to_bool (hal.get_level e h)) hw ∙ close_ports_lem e s.ports s.world r,
        )
