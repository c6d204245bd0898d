-- ===== src/Registry.antt =====
-- components/home/library/cihazlar/cihazlar.cpp: the registry of the devices of the network, a linked
-- list with the newest device first, and the messages of main/broadcastcallback.cpp,
-- main/coapcallback.cpp and main/event.cpp that keep it.
pub mod Refines
pub mod Stale
use text.Mathlib.Text.{◌==◌ as str_eq}
use Prim.Native.String.{◌++◌ as append, slice}
use n1cpu.Base.{
  ℕ, ◌+◌, ◌/◌, ◌%◌, Bool, true, false, not, ◌&&◌, Option, none, some, List, [], ◌∷◌, String,
  if◌then◌else◌, ◌==◌, length, map,
}
use n1cpu.Core.{Transmisyon, tr_udp, tr_serial, tr_espnow}

-- `device_register_t`; a `socket` of -1 is `none`.
pub record Device : Type 0 where
  pub device_id : ℕ
  pub ip : ℕ
  pub transmisyon : Transmisyon
  pub active : ℕ
  pub oldactive : ℕ
  pub function_count : ℕ
  pub mac : String
  pub socket : Option ℕ

abbrev pub has_mac : String → Device → Bool
has_mac mac d = str_eq mac d.mac

abbrev has_id : ℕ → Device → Bool
has_id id d = id == d.device_id

abbrev pub on_socket : ℕ → Option ℕ → Bool
on_socket soket none = false
on_socket soket (some s) = soket == s

abbrev pub has_socket : ℕ → Device → Bool
has_socket soket d = on_socket soket d.socket

-- The loop of the three `cihazbul` functions.
unfoldable pub first : (Device → Bool) → List Device → Option Device
first test [] = none
first test (d ∷ ds) = if test d then some d else first test ds

-- The assignments that a caller makes through the pointer that such a loop has found.
unfoldable pub assign : (Device → Bool) → (Device → Device) → List Device → List Device
assign test g [] = []
assign test g (d ∷ ds) = if test d then g d ∷ ds else d ∷ assign test g ds

unfoldable pub cihazbul : String → List Device → Option Device
cihazbul mac ds = first (has_mac mac) ds

unfoldable pub cihazbul_id : ℕ → List Device → Option Device
cihazbul_id id ds = first (has_id id) ds

-- The parameter is a byte.
unfoldable pub cihazbul_soket : ℕ → List Device → Option Device
cihazbul_soket soket ds = first (has_socket (soket % 256)) ds

abbrev pub set_transmisyon : Transmisyon → Device → Device
set_transmisyon trns d = record d { transmisyon = trns }

abbrev pub yeni : String → ℕ → Transmisyon → Device
yeni mac id trns = record {
  device_id = id;
  ip = 0;
  transmisyon = trns;
  active = 0;
  oldactive = 0;
  function_count = 0;
  mac = mac;
  socket = none;
}

-- `cihaz_ekle(mac, trns)`: the device with that address is the first one with it afterwards.
unfoldable pub cihaz_ekle : String → Transmisyon → List Device → List Device
unfolding cihazbul
cihaz_ekle mac trns ds = elim (cihazbul mac ds) [
  | none ↦ yeni mac 0 trns ∷ ds
  | some d ↦ assign (has_mac mac) (set_transmisyon trns) ds
]

-- A decimal digit.
abbrev digit : ℕ → String
digit n = slice "0123456789" n (n + 1)

-- `sprintf(mac, "%012d", id)` for a byte.
abbrev pub mac_of : ℕ → String
mac_of id =
    append "000000000" (append (digit (id / 100)) (append (digit (id / 10 % 10)) (digit (id % 10))))

-- `cihaz_ekle(id, trns)`.
unfoldable pub cihaz_ekle_id : ℕ → Transmisyon → List Device → List Device
unfolding cihazbul_id
cihaz_ekle_id id trns ds = elim (cihazbul_id id ds) [
  | none ↦ yeni (mac_of id) id trns ∷ ds
  | some d ↦ assign (has_id id) (set_transmisyon trns) ds
]

-- `_cihaz_sil`: the first device with the address is unlinked.
unfoldable pub cihaz_sil : String → List Device → List Device
cihaz_sil mac [] = []
cihaz_sil mac (d ∷ ds) = if str_eq mac d.mac then ds else d ∷ cihaz_sil mac ds

unfoldable cihaz_say : List Device → ℕ
cihaz_say ds = length ds % 256

abbrev pub set_ip : ℕ → Device → Device
set_ip ip d = record d { ip = ip }

-- `update_ip`; the Boolean is `ESP_OK`.
unfoldable pub update_ip : String → ℕ → List Device → List Device × Bool
unfolding cihazbul
update_ip mac ip ds = elim (cihazbul mac ds) [
  | none ↦ (ds, false)
  | some d ↦ (assign (has_mac mac) (set_ip ip) ds, true)
]

abbrev cihaz_bosalt : List Device → List Device
cihaz_bosalt ds = []

abbrev is_serial : Transmisyon → Bool
is_serial tr_serial = true
is_serial _ = false

abbrev is_espnow : Transmisyon → Bool
is_espnow tr_espnow = true
is_espnow _ = false

abbrev mark : Bool → Device → Device
mark true d = record d { active = 1; oldactive = 0 }
mark false d = record d { active = 0; oldactive = (d.oldactive + 1) % 256 }

-- One device in a round of the task `garbage`; `ping` and `espnow_ping` tell which devices answer to
-- `RS485::ping` and to `EspNOW_ping`.
unfoldable pub ping_device : (ℕ → Bool) → (ℕ → Bool) → Device → Device
ping_device ping espnow_ping d =
    if is_serial d.transmisyon
    then mark (ping d.device_id) d
    else if is_espnow d.transmisyon && not (d.device_id == 255)
    then mark (espnow_ping d.device_id) d
    else d

-- A round of the task `garbage`; `status` is set by `start`.
unfoldable pub garbage : Bool → (ℕ → Bool) → (ℕ → Bool) → List Device → List Device
garbage status ping espnow_ping ds = if status then map (ping_device ping espnow_ping) ds else ds

-- What a message `sinfo`, `sinfo_ack` or `I_ACK` says of its sender.
pub record Info : Type 0 where
  pub mac : String
  pub ip : ℕ
  pub fcount : ℕ
  pub id : ℕ

abbrev pub fill : Info → Device → Device
fill i d = record d { device_id = i.id; ip = i.ip; function_count = i.fcount }

-- The answer to a broadcast `sinfo`.
unfoldable pub sinfo : Info → Transmisyon → List Device → List Device
unfolding cihazbul
sinfo i trns ds = elim (cihazbul i.mac ds) [
  | none ↦ assign (has_mac i.mac) (fill i) (cihaz_ekle i.mac trns ds)
  | some d ↦ assign (has_mac i.mac) (λ d. set_transmisyon trns (fill i d)) ds
]

-- A sender whose address is unknown is entered under its number.
unfoldable pub enter : Info → Transmisyon → List Device → List Device
enter i trns ds = assign (has_id i.id) (fill i) (cihaz_ekle_id i.id trns ds)

unfoldable pub sinfo_ack : Info → Transmisyon → List Device → List Device
unfolding cihazbul cihazbul_id
sinfo_ack i trns ds = elim (cihazbul i.mac ds) [
  | none ↦ elim (cihazbul_id i.id ds) [ none ↦ enter i trns ds | some d ↦ ds ]
  | some d ↦ assign (has_mac i.mac) (λ d. set_transmisyon trns (fill i d)) ds
]

unfoldable pub i_ack : Info → Transmisyon → List Device → List Device
unfolding cihazbul cihazbul_id
i_ack i trns ds = elim (cihazbul i.mac ds) [
  | none ↦ elim (cihazbul_id i.id ds) [
    | none ↦ enter i trns ds
    | some d ↦ assign (has_id i.id) (λ d. record d { ip = i.ip; function_count = i.fcount }) ds
  ]
  | some d ↦ assign (has_mac i.mac) (fill i) ds
]

-- The requests by address: a station joins or leaves (`all_event`), its address is assigned, a
-- `sinfo` arrives, a round of pings is made, and the registry is emptied.
pub data Request : Type 0 where
  joins leaves : String → Request
  has_ip : String → ℕ → Request
  tells : Info → Transmisyon → Request
  pings : Bool → (ℕ → Bool) → (ℕ → Bool) → Request
  empties : Request

unfoldable pub handle : Request → List Device → List Device
handle (joins mac) ds = cihaz_ekle mac tr_udp ds
handle (leaves mac) ds = cihaz_sil mac ds
handle (has_ip mac ip) ds = (update_ip mac ip ds).0
handle (tells i trns) ds = sinfo i trns ds
handle (pings status ping espnow_ping) ds = garbage status ping espnow_ping ds
handle empties ds = cihaz_bosalt ds

abbrev pub run : List Request → List Device → List Device
run [] ds = ds
run (r ∷ rs) ds = run rs (handle r ds)
