-- ===== src/Curtain/Steps.antt =====
-- Each method of the curtain keeps the invariant of its relays.
use text.Mathlib.Text.{◌==◌ as str_eq}
use n1cpu.Base.{
  String, ℕ, ◌||◌, ◌==◌, Bool, true, false, ◌≡◌, ◌≢◌, refl, arith, String, subst, sym, if-case, not,
}
use n1cpu.Core.{Status}
use n1cpu.Curtain.{
  remote_set_status, senaryo, on_press_down, store, tim_start, tim_stop, is_stopped, depart, halt,
  on_press_up, is_long, curbtn_long, curbtn_unknown, launch, move, cur_closed, cur_opened, arrive,
  Curtain, cur_unknown, func_callback, motor_stop, cur_tim_callback, motor_action, set_status,
}
use n1cpu.Func.Relay.{remote_status}
use n1cpu.Button.{ButtonEvent, press_down, press_up, long_press_start}
use n1cpu.Curtain.Interlock.{IsQuiet, Inv, IsWired, motor_action-Inv}
use n1cpu.Out.{Hal, IsHal}
use n1cpu.Func.{local_set_status, is_running, write_status, no_timer, notify, command}

module _ {Hw : Type 0} (hal : Hal Hw) where
  -- Ports and hardware alone decide on the relays.
  same-Inv :
      (c d : Curtain Hw)
      → Inv hal c
      → d.ports ≡ c.ports
      → d.world.hw ≡ c.world.hw
      → d.motor ≡ c.motor
      → d.temp_status ≡ c.temp_status
      → d.qtimer ≡ c.qtimer
      → d.fault ≡ c.fault
      → d.status.status ≢ cur_unknown
      → Inv hal d
  same-Inv c d i ps hw m t q f k = record {
    wired = subst IsWired (sym ps) i.wired;
    quiet =
        subst (λ x. IsQuiet hal d.motor d.ports x) (sym hw)
          (subst (λ x. IsQuiet hal d.motor x c.world.hw) (sym ps)
            (subst (λ x. IsQuiet hal x c.ports c.world.hw) (sym m) i.quiet));
    idle = grind (arith, i.idle);
    timed = grind (arith, i.timed);
    created = grind (arith, i.created);
    known = k;
    no_fault = grind (arith, i.no_fault);
  }

  store-Inv :
      (stat : Status) (c : Curtain Hw)
      → stat.status ≢ cur_unknown
      → Inv hal c
      → Inv hal (store stat c)
  unfolding local_set_status write_status
  store-Inv stat c k i = same-Inv c (store stat c) i refl refl refl refl refl refl k

  module _ (laws : IsHal hal) where
    rest-Inv :
        (cb : Bool) (c d : Curtain Hw)
        → Inv hal c
        → d.ports ≡ c.ports
        → d.world.hw ≡ c.world.hw
        → d.motor ≡ motor_stop
        → d.qtimer ≢ no_timer
        → d.status.status ≢ cur_unknown
        → d.fault ≡ c.fault
        → Inv hal (motor_action hal cb d)
    rest-Inv cb c d i ps hw m q k f =
        motor_action-Inv hal laws cb c.motor d (subst IsWired (sym ps) i.wired)
          (subst (λ x. IsQuiet hal c.motor d.ports x) (sym hw)
            (subst (λ x. IsQuiet hal c.motor x c.world.hw) (sym ps) i.quiet))
          (λ n. grind (arith, n)) (λ _. m) (λ n. grind (arith, n)) q k (grind arith)

    start-Inv :
        (cb : Bool) (c d : Curtain Hw)
        → Inv hal c
        → c.motor ≡ motor_stop
        → d.ports ≡ c.ports
        → d.world.hw ≡ c.world.hw
        → is_running d.qtimer ≡ true
        → d.temp_status ≢ cur_unknown
        → d.status.status ≢ cur_unknown
        → d.fault ≡ c.fault
        → Inv hal (motor_action hal cb d)
    start-Inv cb c d i m ps hw q t k f =
        motor_action-Inv hal laws cb c.motor d (subst IsWired (sym ps) i.wired)
          (subst (λ x. IsQuiet hal c.motor d.ports x) (sym hw)
            (subst (λ x. IsQuiet hal c.motor x c.world.hw) (sym ps) i.quiet))
          (λ _. m) (λ n. grind arith) (λ _. q) (grind arith) k (grind arith)

    depart-Inv :
        (name : String) (c : Curtain Hw)
        → Inv hal c
        → c.motor ≡ motor_stop
        → Inv hal (motor_action hal true (depart name c))
    unfolding depart tim_start tim_stop
    depart-Inv name c i m =
        start-Inv true c (depart name c) i m (ground (arith, i.created)) (ground (arith, i.created))
          (ground (arith, i.created)) (λ h. ground (arith, i.known)) (λ h. ground (arith, i.known))
          (ground (arith, i.created))

    halt-Inv :
        (cb : Bool) (c d : Curtain Hw)
        → Inv hal c
        → d.ports ≡ c.ports
        → d.world.hw ≡ c.world.hw
        → d.qtimer ≢ no_timer
        → d.status.status ≢ cur_unknown
        → d.fault ≡ c.fault
        → Inv hal (motor_action hal cb (halt d))
    unfolding halt tim_stop
    halt-Inv cb c d i ps hw q k f = rest-Inv cb c (halt d) i ps hw refl (λ n. ground arith) k f

    on_press_down-Inv :
        (name : String) (c : Curtain Hw) → Inv hal c → Inv hal (on_press_down hal name c)
    unfolding on_press_down
    on_press_down-Inv name c i =
        if-case (Inv hal) (not (is_stopped c.motor)) _ _
          (λ m.
            store-Inv _ _ (λ h. ground arith)
              (halt-Inv true c c i refl refl i.created i.known refl))
          (λ m. store-Inv _ _ (λ h. ground arith) (depart-Inv name c i (ground arith)))

    on_press_up-Inv : (c : Curtain Hw) → Inv hal c → Inv hal (on_press_up hal c)
    unfolding on_press_up
    on_press_up-Inv c i =
        if-case (Inv hal) (is_long c.buton_durumu || c.eskitip) _ _
          (λ m.
            store-Inv _ _ (λ h. ground arith)
              (halt-Inv true c (record c { buton_durumu = curbtn_unknown }) i refl refl i.created
                i.known refl))
          (λ m. i)

    pub func_callback-Inv :
        (name : String) (ev : ButtonEvent) (c : Curtain Hw)
        → Inv hal c
        → Inv hal (func_callback hal name ev c)
    unfolding func_callback
    func_callback-Inv name long_press_start c i =
        same-Inv c (record c { buton_durumu = curbtn_long }) i refl refl refl refl refl refl i.known
    func_callback-Inv name press_down c i = on_press_down-Inv name c i
    func_callback-Inv name press_up c i = on_press_up-Inv c i
    func_callback-Inv name _ c i = i

    pub cur_tim_callback-Inv : (c : Curtain Hw) → Inv hal c → Inv hal (cur_tim_callback hal c)
    unfolding cur_tim_callback arrive local_set_status write_status
    cur_tim_callback-Inv c i =
        if-case (Inv hal) (c.temp_status == cur_unknown) _ _
          (λ t. record {
            wired = i.wired;
            quiet = i.quiet;
            idle = i.idle;
            timed = λ n. grind (arith, i.idle, n);
            created = λ h. ground arith;
            known = i.known;
            no_fault = i.no_fault;
          })
          (λ t. rest-Inv true c _ i refl refl refl (λ h. ground arith) (λ h. ground arith) refl)

    launch-Inv :
        (c : Curtain Hw)
        → Inv hal c
        → c.motor ≡ motor_stop
        → Inv hal (motor_action hal false (launch c))
    unfolding launch tim_start tim_stop
    launch-Inv c i m =
        start-Inv false c (launch c) i m (ground (arith, i.created)) (ground (arith, i.created))
          (ground (arith, i.created)) (λ h. ground (arith, i.known)) (λ h. ground (arith, i.known))
          (ground (arith, i.created))

    move-Inv : (c : Curtain Hw) → Inv hal c → Inv hal (move hal c)
    unfolding move
    move-Inv c i =
        if-case (Inv hal) (c.temp_status == cur_unknown) _ _
          (λ t.
            if-case (Inv hal) (c.status.status == cur_closed || c.status.status == cur_opened) _ _
              (λ s. launch-Inv c i (i.idle (ground arith))) (λ s. i))
          (λ t. halt-Inv false c _ i refl refl i.created (λ h. ground arith) refl)

    notify-Inv :
        (stat : Status) (c : Curtain Hw) → Inv hal c → Inv hal (record c { fn = notify stat c.fn })
    unfolding notify
    notify-Inv stat c i =
        same-Inv c _ i (ground arith) (ground arith) refl refl refl refl
          (λ h. ground (arith, i.known))

    command-Inv :
        (stat : Status) (c : Curtain Hw) → Inv hal c → Inv hal (record c { fn = command stat c.fn })
    unfolding command
    command-Inv stat c i =
        same-Inv c _ i (ground arith) (ground arith) refl refl refl refl
          (λ h. ground (arith, i.known))

    write_status-Inv : (c : Curtain Hw) → Inv hal c → Inv hal (record c { fn = write_status c.fn })
    unfolding write_status
    write_status-Inv c i = same-Inv c _ i refl refl refl refl refl refl i.known

    pub set_status-Inv :
        (stat : Status) (c : Curtain Hw)
        → stat.status ≢ cur_unknown
        → Inv hal c
        → Inv hal (set_status hal stat c)
    unfolding set_status
    set_status-Inv stat c k i =
        let c' = move hal (store stat c) in
        let i' = move-Inv (store stat c) (store-Inv stat c k i) in
        let i2 = write_status-Inv c' i' in
        if-case (Inv hal) c.virtual_device _ _ (λ v. command-Inv stat c i)
          (λ v. notify-Inv (write_status c'.fn).status (record c' { fn = write_status c'.fn }) i2)

    pub remote_set_status-Inv :
        (stat : Status) (cb : Bool) (c : Curtain Hw)
        → stat.status ≢ cur_unknown
        → Inv hal c
        → Inv hal (remote_set_status stat cb c)
    unfolding remote_set_status remote_status local_set_status write_status notify
    remote_set_status-Inv stat cb c k i =
        same-Inv c _ i (ground arith) (ground arith) refl refl refl refl
          (λ h. ground (arith, i.known))

    order-Inv :
        (st : ℕ) (c : Curtain Hw)
        → st ≢ cur_unknown
        → Inv hal c
        → Inv hal (
            set_status hal
              (record c.status { status = st })
              (record c { fn = record c.fn { status = record c.status { status = st } } }))
    order-Inv st c k i = set_status-Inv _ _ k (same-Inv c _ i refl refl refl refl refl refl k)

    pub senaryo-Inv : (par : String) (c : Curtain Hw) → Inv hal c → Inv hal (senaryo hal par c)
    unfolding senaryo
    senaryo-Inv par c i =
        let on =
          if-case (Inv hal) (str_eq par "on") _ c
            (λ h. order-Inv cur_opened c (λ h. ground arith) i) (λ h. i) in
        if-case (Inv hal) (str_eq par "off") _ _
          (λ h. order-Inv cur_closed _ (λ h. ground arith) on) (λ h. on)
