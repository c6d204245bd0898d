-- ===== src/Curtain/Motor.antt =====
-- What `motor_action` does to the relays, and what it leaves alone.
use n1cpu.Base.{ℕ, Bool, true, false, ◌≡◌, arith, if◌then◌else◌}
use n1cpu.Out.{Hal, IsHal}
use n1cpu.Port.{Port}
use n1cpu.Port.Laws.{level}
use n1cpu.Func.{Func, notify}
use n1cpu.Func.Ports.{any_port}
use n1cpu.Func.Laws.{Ready, driven, write_ports_lem, write_ports-Ready, write_ports-driven}
use n1cpu.Curtain.{
  Curtain, MotorStatus, motor_stop, motor_down, motor_up, has_name, motor_ports, motor_action,
}

-- The outputs that a motor state writes, and the level that it writes.
abbrev aims : MotorStatus → Port → Bool
aims motor_stop = any_port
aims motor_up = has_name "UP"
aims motor_down = has_name "DOWN"

abbrev aim_level : MotorStatus → Bool
aim_level motor_stop = false
aim_level _ = true

module _ {Hw : Type 0} (hal : Hal Hw) where
  -- All but the ports and the world.
  pub record SameRest (c d : Curtain Hw) : Type 0 where
    pub same_motor : d.motor ≡ c.motor
    pub same_temp : d.temp_status ≡ c.temp_status
    pub same_timer : d.qtimer ≡ c.qtimer
    pub same_fault : d.fault ≡ c.fault
    pub same_status : d.status ≡ c.status
    pub same_main : d.main_temp_status ≡ c.main_temp_status
    pub same_virtual : d.virtual_device ≡ c.virtual_device

  pub motor_action-SameRest : (cb : Bool) (c : Curtain Hw) → SameRest c (motor_action hal cb c)
  unfolding motor_action notify
  motor_action-SameRest cb c = ground arith

  motor_ports-driven :
      (m : MotorStatus) (f : Func Hw) (keep : Port → Bool) (e : ℕ)
      → ((p : Port) (s : Bool) → keep (record p { status = s }) ≡ keep p)
      → driven keep e (motor_ports hal m f).0 ≡ driven keep e f.ports
  unfolding motor_ports
  motor_ports-driven motor_stop f keep e stable =
      write_ports-driven hal keep any_port e false false f.ports f.world stable
  motor_ports-driven motor_up f keep e stable =
      write_ports-driven hal keep (has_name "UP") e true true f.ports f.world stable
  motor_ports-driven motor_down f keep e stable =
      write_ports-driven hal keep (has_name "DOWN") e true true f.ports f.world stable

  pub motor_action-driven :
      (cb : Bool) (c : Curtain Hw) (keep : Port → Bool) (e : ℕ)
      → ((p : Port) (s : Bool) → keep (record p { status = s }) ≡ keep p)
      → driven keep e (motor_action hal cb c).ports ≡ driven keep e c.ports
  unfolding motor_action notify
  motor_action-driven cb c keep e stable =
      ground (arith, motor_ports-driven c.motor c.fn keep e stable)

  module _ (laws : IsHal hal) where
    motor_ports_lem :
        (m : MotorStatus) (f : Func Hw) (e : ℕ)
        → Ready f.ports
        → (level hal e (motor_ports hal m f).2
            ≡ (if driven (aims m) e f.ports then aim_level m else level hal e f.world))
          × Ready (motor_ports hal m f).0
    unfolding motor_ports
    motor_ports_lem motor_stop f e r = (
      write_ports_lem hal laws e any_port false false f.ports f.world r,
      (write_ports-Ready hal laws any_port false false f.ports f.world r).0,
    )
    motor_ports_lem motor_up f e r = (
      write_ports_lem hal laws e (has_name "UP") true true f.ports f.world r,
      (write_ports-Ready hal laws (has_name "UP") true true f.ports f.world r).0,
    )
    motor_ports_lem motor_down f e r = (
      write_ports_lem hal laws e (has_name "DOWN") true true f.ports f.world r,
      (write_ports-Ready hal laws (has_name "DOWN") true true f.ports f.world r).0,
    )

    pub motor_action_lem :
        (cb : Bool) (c : Curtain Hw) (e : ℕ)
        → Ready c.ports
        → (level hal e (motor_action hal cb c).world
            ≡ (if driven (aims c.motor) e c.ports then aim_level c.motor else level hal e c.world))
          × Ready (motor_action hal cb c).ports
    unfolding motor_action notify
    motor_action_lem cb c e r = ground (arith, motor_ports_lem c.motor c.fn e r)
