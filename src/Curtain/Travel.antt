-- ===== src/Curtain/Travel.antt =====
-- What a whole movement of the curtain ends in: by a command, and by its wall switch.
use n1cpu.Base.{◌==◌, true, false, String, ◌≡◌, ◌⊎◌, arith, if◌then◌else◌, ◌∙◌, ◌≢◌}
use n1cpu.Core.{Status}
use n1cpu.Button.{press_down}
use n1cpu.Out.{Hal}
use n1cpu.Func.{notify, write_status, local_set_status, is_running}
use n1cpu.Curtain.{
  Curtain, func_callback, set_status, move, on_press_down, cur_tim_callback, depart, launch,
  tim_start, tim_stop, cur_unknown, motor_stop, cur_closed, cur_opened, cur_process, motor_up,
  motor_down, store, arrive, stopped, no_timer,
}
use n1cpu.Curtain.Motor.{motor_action-SameRest}
use n1cpu.Curtain.Interlock.{Inv}

module _ {Hw : Type 0} (hal : Hal Hw) where
  tim_callback_lem :
      (c : Curtain Hw)
      → c.temp_status ≢ cur_unknown
      → ((cur_tim_callback hal c).status.status ≡ c.temp_status)
        × ((cur_tim_callback hal c).motor ≡ motor_stop)
  unfolding cur_tim_callback arrive local_set_status write_status
  tim_callback_lem c t =
      ground (arith, motor_action-SameRest hal true (arrive (record c { qtimer = stopped })))

  order_lem :
      (stat : Status) (c : Curtain Hw)
      → c.qtimer ≢ no_timer
      → c.virtual_device ≡ false
      → c.temp_status ≡ cur_unknown
      → (stat.status ≡ cur_closed) ⊎ (stat.status ≡ cur_opened)
      → ((set_status hal stat c).status.status ≡ cur_process)
        × ((set_status hal stat c).temp_status ≡ stat.status)
        × (is_running (set_status hal stat c).qtimer ≡ true)
        × ((set_status hal stat c).motor
            ≡ (if stat.status == cur_opened then motor_up else motor_down))
  unfolding set_status move launch tim_start tim_stop notify write_status local_set_status
  order_lem stat c q v t o = ground (arith, motor_action-SameRest hal false (launch (store stat c)))

  -- A real curtain whose timer is created, that stands still (`temp_status` is CUR_UNKNOWN) and
  -- is told to close or to open runs its motor in that direction, with the timer set and the
  -- status `process`; when the timer ends, the motor is stopped and the status is the one that
  -- was asked for.
  pub order_arrives :
      (stat : Status) (c : Curtain Hw)
      → c.qtimer ≢ no_timer
      → c.virtual_device ≡ false
      → c.temp_status ≡ cur_unknown
      → (stat.status ≡ cur_closed) ⊎ (stat.status ≡ cur_opened)
      → ((set_status hal stat c).status.status ≡ cur_process)
        × ((set_status hal stat c).motor
            ≡ (if stat.status == cur_opened then motor_up else motor_down))
        × (is_running (set_status hal stat c).qtimer ≡ true)
        × ((cur_tim_callback hal (set_status hal stat c)).status.status ≡ stat.status)
        × ((cur_tim_callback hal (set_status hal stat c)).motor ≡ motor_stop)
  order_arrives stat c q v t o =
      let l = order_lem stat c q v t o in
      let r = tim_callback_lem (set_status hal stat c) (λ h. ground arith) in
      (l.0, l.3, l.2, r.0 ∙ l.1, r.1)

  press_lem :
      (name : String) (c : Curtain Hw)
      → c.motor ≡ motor_stop
      → (func_callback hal name press_down c).temp_status ≡ c.status.status
  unfolding func_callback on_press_down depart tim_start tim_stop local_set_status write_status
  press_lem name c m = ground (arith, motor_action-SameRest hal true (depart name c))

  -- A curtain that satisfies `Inv`, stands still and is moved by its wall switch, up or down,
  -- until the timer ends, has the status that it had before.
  pub press_forgets :
      (name : String) (c : Curtain Hw)
      → Inv hal c
      → c.motor ≡ motor_stop
      → (cur_tim_callback hal (func_callback hal name press_down c)).status.status ≡ c.status.status
  press_forgets name c i m =
      let l = press_lem name c m in
      (tim_callback_lem (func_callback hal name press_down c) (λ h. ground (arith, i.known))).0 ∙ l
