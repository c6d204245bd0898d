-- ===== src/Core.antt =====
-- components/home/library/core: the enumerations and the status record that all parts share
-- (core.h), and the port types as text (core.cpp).
pub mod PortType
use n1cpu.Base.{ℕ, Bool, String}

pub data PortAction : Type 0 where
  action_input action_output : PortAction

pub data SecurityEvent : Type 0 where
  water_event gas_event fire_event emergency_event : SecurityEvent

pub data HomeEvent : Type 0 where
  home_door_open home_door_close : HomeEvent

pub data Transmisyon : Type 0 where
  tr_none tr_udp tr_serial tr_espnow tr_local tr_gateway tr_pjon : Transmisyon

-- `home_status_t`. The two floats are only copied: they stand as their bit patterns. The integer
-- fields are bytes, `color` 64 bits wide; the two `uint8_t[32]` hold texts.
pub record Status : Type 0 where
  pub stat : Bool
  pub temp : ℕ
  pub set_temp : ℕ
  pub color : ℕ
  pub status : ℕ
  pub ircom : String
  pub irval : String
  pub counter : ℕ
  pub active : Bool
  pub first : Bool
