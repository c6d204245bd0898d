-- ===== src/Core/PortType.antt =====
-- `port_type_t`, `port_type_convert` and `port_type_string` of core.h and core.cpp.
use text.Mathlib.Text.{◌==◌}
use n1cpu.Base.{◌≡◌, refl, Bool, String, if◌then◌else◌}

pub data PortType : Type 0 where
  port_nc port_inport port_inpuls port_outport port_sensor : PortType
  port_virtual port_fire port_water port_gas port_emergency : PortType

unfoldable pub port_type_convert : String → PortType
port_type_convert aa =
    if aa == "PORT_NC"
    then port_nc
    else if aa == "PORT_INPORT"
    then port_inport
    else if aa == "PORT_INPULS"
    then port_inpuls
    else if aa == "PORT_OUTPORT"
    then port_outport
    else if aa == "PORT_FIRE"
    then port_fire
    else if aa == "PORT_WATER"
    then port_water
    else if aa == "PORT_GAS"
    then port_gas
    else if aa == "PORT_EMERGENCY"
    then port_emergency
    else if aa == "PORT_SENSOR"
    then port_sensor
    else if aa == "PORT_VIRTUAL"
    then port_virtual
    else port_nc

unfoldable pub port_type_string : PortType → String
port_type_string port_nc = "PORT_NC"
port_type_string port_inport = "PORT_INPORT"
port_type_string port_inpuls = "PORT_INPULS"
port_type_string port_outport = "PORT_OUTPORT"
port_type_string port_fire = "PORT_FIRE"
port_type_string port_water = "PORT_WATER"
port_type_string port_gas = "PORT_GAS"
port_type_string port_emergency = "PORT_EMERGENCY"
port_type_string port_sensor = "PORT_SENSOR"
port_type_string port_virtual = "PORT_VIRTUAL"

-- Every port type is read back from its name.
pub port_type_convert-port_type_string :
    (tp : PortType) → port_type_convert (port_type_string tp) ≡ tp
unfolding port_type_convert port_type_string
port_type_convert-port_type_string port_nc = refl
port_type_convert-port_type_string port_inport = refl
port_type_convert-port_type_string _ = refl

-- Tests on the constructors.
abbrev pub is_outport : PortType → Bool
is_outport port_outport = Bool.true
is_outport _ = Bool.false

abbrev pub is_emergency : PortType → Bool
is_emergency port_fire = Bool.true
is_emergency port_gas = Bool.true
is_emergency port_emergency = Bool.true
is_emergency port_water = Bool.true
is_emergency _ = Bool.false

abbrev pub is_virtual : PortType → Bool
is_virtual port_virtual = Bool.true
is_virtual _ = Bool.false

abbrev pub is_inport : PortType → Bool
is_inport port_inport = Bool.true
is_inport _ = Bool.false
