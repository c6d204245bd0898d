-- ===== src/Tests/Curtains.antt =====
-- The theorems on the curtain at one with an UP and a DOWN relay, and on the piston at one with a
-- MOTOR and a DOWN relay.
use n1cpu.Base.{inl, true, false, List, [], ◌∷◌, refl, ◌≡◌, arith, ◌<◌, ◌*◌}
use n1cpu.Button.{press_down}
use n1cpu.Out.Gpio.{gpio_hal, out_gpio_get_level, out_gpio_set_level}
use n1cpu.Port.Laws.{level}
use n1cpu.Func.{stopped, is_running, notify, local_set_status, write_status}
use n1cpu.Func.Ports.{write_ports}
use n1cpu.Port.{set_status as port_write}
use n1cpu.Out.{iot_out_set_level}
use n1cpu.Curtain.{
  on_press_down, depart, tim_stop, tim_start, motor_action, motor_ports, Curtain, cur_unknown,
  motor_stop, curbtn_unknown, func_callback, fire, fix_counter,
}
use n1cpu.Curtain.Calls.{step, IsKnown, Call, input_event, AllKnown, run, run_never_both, run_timed}
use n1cpu.Curtain.Interlock.{Inv}
use n1cpu.Curtain.Alarm.{fire_both_on}
use n1cpu.Tests.{Memory, hal, relay, func, laws, out, rest}
use n1cpu.Func.Laws.{Ready}
use n1cpu.Piston.{Piston, set_status as piston_set, pause}
use n1cpu.Piston.Cycle.{pump_cycle}

abbrev pub curtain : Curtain Memory
curtain = record {
  fn = func (relay "UP" 3 ∷ relay "DOWN" 4 ∷ []);
  temp_status = cur_unknown;
  motor = motor_stop;
  buton_durumu = curbtn_unknown;
  eskitip = false;
  qtimer = stopped;
  fault = false;
}

curtain-Inv : Inv hal curtain
unfolding gpio_hal out_gpio_get_level
curtain-Inv = record {
  wired = record {
    ready = (
      λ t. (out 3, record { enabled = refl; wired = refl; ready = refl }),
      (λ t. (out 4, record { enabled = refl; wired = refl; ready = refl }), tt),
    );
    apart = λ e h. ground arith;
    up_any = λ e h. ground arith;
    down_any = λ e h. ground arith;
  };
  quiet = record { at_rest = λ m e h. refl; no_down = λ m e h. refl; no_up = λ m e h. refl };
  idle = λ h. refl;
  timed = λ h. ground arith;
  created = λ h. ground arith;
  known = λ h. ground arith;
  no_fault = refl;
}

abbrev calls : List Call
calls = input_event "UP" press_down ∷ []

calls-AllKnown : AllKnown calls
unfolding AllKnown IsKnown
calls-AllKnown = (refl, refl)

run_never_both_example : level hal 4 (run hal calls curtain).world ≡ false
unfolding run step func_callback on_press_down depart tim_stop tim_start motor_action motor_ports
    write_ports port_write iot_out_set_level notify local_set_status write_status gpio_hal
    out_gpio_get_level out_gpio_set_level
run_never_both_example =
    run_never_both hal laws calls curtain calls-AllKnown curtain-Inv 3 4 refl refl refl

run_timed_example : is_running (run hal calls curtain).qtimer ≡ true
unfolding run step func_callback on_press_down depart tim_stop tim_start motor_action motor_ports
    write_ports port_write iot_out_set_level notify local_set_status write_status gpio_hal
    out_gpio_get_level out_gpio_set_level
run_timed_example = (run_timed hal laws calls curtain calls-AllKnown curtain-Inv 3 refl refl).0

fire_both_on_example :
    (level hal 3 (fire hal false (fire hal true curtain)).world ≡ true)
    × (level hal 4 (fire hal false (fire hal true curtain)).world ≡ true)
fire_both_on_example = fire_both_on hal laws curtain curtain-Inv refl refl refl 3 4 refl refl

abbrev piston : Piston Memory
piston = record curtain { fn = func (relay "MOTOR" 5 ∷ relay "DOWN" 4 ∷ []) }

piston-Ready : Ready piston.ports
piston-Ready = (
  λ t. (out 5, record { enabled = refl; wired = refl; ready = refl }),
  (λ t. (out 4, record { enabled = refl; wired = refl; ready = refl }), tt),
)

piston_outlasts : pause piston.ports < fix_counter rest.counter * 1700000
unfolding pause
piston_outlasts = ground arith

pump_cycle_example : level hal 5 (piston_set hal rest piston).world ≡ true
pump_cycle_example =
    (pump_cycle hal laws rest piston 5 curtain-Inv.created refl refl (inl refl) piston_outlasts
      piston-Ready).0
