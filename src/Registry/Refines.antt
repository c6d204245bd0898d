-- ===== src/Registry/Refines.antt =====
-- The registry against a function from addresses to devices.
use text.Mathlib.Text.{◌==◌ as str_eq}
use text.Mathlib.TextEquality.{eq_iff}
use n1cpu.Base.{
  ℕ, Bool, Option, none, some, List, [], ◌∷◌, String, if◌then◌else◌, ◌≡◌, refl, arith, map, if-case,
  Option-cases, option-case, inl, inr,
}
use n1cpu.Core.{Transmisyon, tr_udp}
use n1cpu.Registry.{
  Device, has_mac, first, assign, cihazbul, set_transmisyon, yeni, cihaz_ekle, cihaz_sil, set_ip,
  update_ip, Info, fill, sinfo, Request, joins, leaves, has_ip, tells, empties, handle, run, pings,
  ping_device, garbage,
}

-- The abstract registry: what is known of an address.
abbrev Known : Type 0
Known = String → Option Device

abbrev known : Option Device → Device → Device
known none d = d
known (some d') d = d'

-- The entry of `mac` becomes `o`.
abbrev update : String → Option Device → Known → Known
update mac o f m = if str_eq mac m then o else f m

abbrev change : (Device → Device) → Option Device → Option Device
change g none = none
change g (some d) = some (g d)

-- A request on the abstract registry.
abbrev after : Request → Known → Known
after (joins mac) f =
    update mac (some (set_transmisyon tr_udp (known (f mac) (yeni mac 0 tr_udp)))) f
after (leaves mac) f = update mac none f
after (has_ip mac ip) f = update mac (change (set_ip ip) (f mac)) f
after (tells i trns) f =
    update i.mac (some (set_transmisyon trns (fill i (known (f i.mac) (yeni i.mac 0 trns))))) f
after (pings status ping espnow_ping) f =
    λ m. if status then change (ping_device ping espnow_ping) (f m) else f m
after empties f = λ m. none

abbrev pub replay : List Request → Known → Known
replay [] f = f
replay (r ∷ rs) f = replay rs (after r f)

-- No two devices have the same address.
abbrev IsUnique : List Device → Type 0
IsUnique [] = Unit {0}
IsUnique (d ∷ ds) = (cihazbul d.mac ds ≡ none) × IsUnique ds

module _ (mac m : String) where
  -- `g` keeps a device's address.
  find-assign :
      (g : Device → Device) (ds : List Device)
      → ((d : Device) → (g d).mac ≡ d.mac)
      → cihazbul m (assign (has_mac mac) g ds)
        ≡ (if str_eq mac m then change g (cihazbul mac ds) else cihazbul m ds)
  unfolding cihazbul first assign
  find-assign g [] k = ground arith
  find-assign g (d ∷ ds) k =
      ground (arith, eq_iff mac m, eq_iff mac d.mac, eq_iff m d.mac, k d, find-assign g ds k)

  find-ekle :
      (trns : Transmisyon) (ds : List Device)
      → cihazbul m (cihaz_ekle mac trns ds) ≡ (
          if str_eq mac m
          then some (set_transmisyon trns (known (cihazbul mac ds) (yeni mac 0 trns)))
          else cihazbul m ds)
  unfolding cihaz_ekle cihazbul first
  find-ekle trns ds = elim (Option-cases (cihazbul mac ds)) [
    | inl e ↦ ground (arith, eq_iff mac m, eq_iff m mac)
    | inr (d, e) ↦ ground (arith, find-assign (set_transmisyon trns) ds (λ d. refl))
  ]

  find-sil :
      (ds : List Device)
      → IsUnique ds
      → cihazbul m (cihaz_sil mac ds) ≡ (if str_eq mac m then none else cihazbul m ds)
  unfolding cihazbul first cihaz_sil
  find-sil [] u = ground arith
  find-sil (d ∷ ds) u =
      ground (arith, eq_iff mac m, eq_iff mac d.mac, eq_iff m d.mac, find-sil ds u.1)

  find-update_ip :
      (ip : ℕ) (ds : List Device)
      → cihazbul m (update_ip mac ip ds).0
        ≡ (if str_eq mac m then change (set_ip ip) (cihazbul mac ds) else cihazbul m ds)
  unfolding update_ip cihazbul
  find-update_ip ip ds = elim (Option-cases (cihazbul mac ds)) [
    | inl e ↦ ground (arith, eq_iff mac m)
    | inr (d, e) ↦ ground (arith, find-assign (set_ip ip) ds (λ d. refl))
  ]

  find-sinfo :
      (i : Info) (trns : Transmisyon) (ds : List Device)
      → i.mac ≡ mac
      → cihazbul m (sinfo i trns ds) ≡ (
          if str_eq mac m
          then some (set_transmisyon trns (fill i (known (cihazbul mac ds) (yeni mac 0 trns))))
          else cihazbul m ds)
  unfolding sinfo cihaz_ekle cihazbul first assign
  find-sinfo i trns ds h = elim (Option-cases (cihazbul mac ds)) [
    | inl e ↦ ground (
      arith,
      eq_iff mac mac,
      eq_iff mac m,
      find-assign (fill i) (cihaz_ekle mac trns ds) (λ d. refl),
      find-ekle trns ds,
    )
    | inr (d, e) ↦ ground (arith, find-assign (λ d. set_transmisyon trns (fill i d)) ds (λ d. refl))
  ]

  miss-assign :
      (g : Device → Device) (ds : List Device)
      → ((d : Device) → (g d).mac ≡ d.mac)
      → cihazbul m ds ≡ none
      → cihazbul m (assign (has_mac mac) g ds) ≡ none
  unfolding cihazbul first assign
  miss-assign g [] k n = n
  miss-assign g (d ∷ ds) k n = ground (arith, k d, miss-assign g ds k)

  miss-sil : (ds : List Device) → cihazbul m ds ≡ none → cihazbul m (cihaz_sil mac ds) ≡ none
  unfolding cihazbul first cihaz_sil
  miss-sil [] n = n
  miss-sil (d ∷ ds) n = ground (arith, miss-sil ds)

module _ (mac : String) where
  assign-IsUnique :
      (g : Device → Device) (ds : List Device)
      → ((d : Device) → (g d).mac ≡ d.mac)
      → IsUnique ds
      → IsUnique (assign (has_mac mac) g ds)
  unfolding assign
  assign-IsUnique g [] k u = u
  assign-IsUnique g (d ∷ ds) k u =
      ground (arith, k d, miss-assign mac d.mac g ds k u.0, assign-IsUnique g ds k u.1)

  sil-IsUnique : (ds : List Device) → IsUnique ds → IsUnique (cihaz_sil mac ds)
  unfolding cihaz_sil
  sil-IsUnique [] u = u
  sil-IsUnique (d ∷ ds) u = ground (arith, miss-sil mac d.mac ds u.0, sil-IsUnique ds u.1)

  ekle-IsUnique :
      (trns : Transmisyon) (ds : List Device) → IsUnique ds → IsUnique (cihaz_ekle mac trns ds)
  unfolding cihaz_ekle
  ekle-IsUnique trns ds u =
      option-case IsUnique (cihazbul mac ds) _ _ (λ e. (e, u))
        (λ d. assign-IsUnique (set_transmisyon trns) ds (λ d. refl) u)

  update_ip-IsUnique : (ip : ℕ) (ds : List Device) → IsUnique ds → IsUnique (update_ip mac ip ds).0
  unfolding update_ip
  update_ip-IsUnique ip ds u =
      option-case (λ (r : List Device × Bool). IsUnique r.0) (cihazbul mac ds) _ _ (λ e. u)
        (λ d. assign-IsUnique (set_ip ip) ds (λ d. refl) u)

sinfo-IsUnique :
    (i : Info) (trns : Transmisyon) (ds : List Device) → IsUnique ds → IsUnique (sinfo i trns ds)
unfolding sinfo
sinfo-IsUnique i trns ds u =
    option-case IsUnique (cihazbul i.mac ds) _ _
      (λ e.
        assign-IsUnique i.mac (fill i) (cihaz_ekle i.mac trns ds) (λ d. refl)
          (ekle-IsUnique i.mac trns ds u))
      (λ d. assign-IsUnique i.mac (λ d. set_transmisyon trns (fill i d)) ds (λ d. refl) u)

ping_device-mac :
    (ping espnow_ping : ℕ → Bool) (d : Device) → (ping_device ping espnow_ping d).mac ≡ d.mac
unfolding ping_device
ping_device-mac ping espnow_ping d = ground arith

find-map :
    (m : String) (g : Device → Device) (ds : List Device)
    → ((d : Device) → (g d).mac ≡ d.mac)
    → cihazbul m (map g ds) ≡ change g (cihazbul m ds)
unfolding cihazbul first
find-map m g [] k = refl
find-map m g (d ∷ ds) k = ground (arith, k d, find-map m g ds k)

map-IsUnique :
    (g : Device → Device) (ds : List Device)
    → ((d : Device) → (g d).mac ≡ d.mac)
    → IsUnique ds
    → IsUnique (map g ds)
map-IsUnique g [] k u = u
map-IsUnique g (d ∷ ds) k u = ground (arith, k d, find-map d.mac g ds k, map-IsUnique g ds k u.1)

pub handle-IsUnique : (r : Request) (ds : List Device) → IsUnique ds → IsUnique (handle r ds)
unfolding handle garbage
handle-IsUnique (joins mac) ds u = ekle-IsUnique mac tr_udp ds u
handle-IsUnique (leaves mac) ds u = sil-IsUnique mac ds u
handle-IsUnique (has_ip mac ip) ds u = update_ip-IsUnique mac ip ds u
handle-IsUnique (tells i trns) ds u = sinfo-IsUnique i trns ds u
handle-IsUnique (pings status ping espnow_ping) ds u =
    if-case IsUnique status _ _
      (λ t. map-IsUnique (ping_device ping espnow_ping) ds (ping_device-mac ping espnow_ping) u)
      (λ e. u)
handle-IsUnique empties ds u = tt

handle-after :
    (r : Request) (ds : List Device) (f : Known)
    → IsUnique ds
    → ((m : String) → cihazbul m ds ≡ f m)
    → (m : String) → cihazbul m (handle r ds) ≡ after r f m
unfolding handle garbage cihazbul first
handle-after (joins mac) ds f u h m = ground (arith, find-ekle mac m tr_udp ds, h mac, h m)
handle-after (leaves mac) ds f u h m = ground (arith, find-sil mac m ds u, h m)
handle-after (has_ip mac ip) ds f u h m = ground (arith, find-update_ip mac m ip ds, h mac, h m)
handle-after (tells i trns) ds f u h m =
    ground (arith, find-sinfo i.mac m i trns ds refl, h i.mac, h m)
handle-after (pings status ping espnow_ping) ds f u h m =
    ground
      (arith, find-map m (ping_device ping espnow_ping) ds (ping_device-mac ping espnow_ping), h m)
handle-after empties ds f u h m = refl

-- Over any requests, a registry whose addresses differ has differing addresses at the end, and tells
-- of each address what a function from addresses to devices tells on which the same requests are
-- carried out: a join or a `sinfo` sets the entry of its address, a leave removes it, a new IP address
-- changes it if there is one, a round of pings marks every entry by its answer, and nothing else
-- changes.
pub run_refines :
    (rs : List Request) (ds : List Device) (f : Known)
    → IsUnique ds
    → ((m : String) → cihazbul m ds ≡ f m)
    → IsUnique (run rs ds) × ((m : String) → cihazbul m (run rs ds) ≡ replay rs f m)
run_refines [] ds f u h = (u, h)
run_refines (r ∷ rs) ds f u h =
    run_refines rs (handle r ds) (after r f) (handle-IsUnique r ds u) (handle-after r ds f u h)
