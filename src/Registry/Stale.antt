-- ===== src/Registry/Stale.antt =====
-- `sinfo_ack` of main/coapcallback.cpp from a device that the registry does not know.
use text.Mathlib.TextEquality.{eq_iff}
use n1cpu.Base.{ℕ, none, List, ◌∷◌, ◌≡◌, ◌≢◌, arith, sym, subst, ==_iff}
use n1cpu.Core.{Transmisyon}
use n1cpu.Registry.{
  Device, Info, cihazbul, cihazbul_id, cihaz_ekle_id, first, assign, enter, sinfo_ack, i_ack, fill,
  yeni, mac_of,
}

-- What the first message leaves.
abbrev entered : Info → Transmisyon → Device
entered i trns = fill i (yeni (mac_of i.id) i.id trns)

sinfo_ack_enters :
    (i : Info) (trns : Transmisyon) (ds : List Device)
    → cihazbul i.mac ds ≡ none
    → cihazbul_id i.id ds ≡ none
    → sinfo_ack i trns ds ≡ entered i trns ∷ ds
unfolding sinfo_ack enter cihaz_ekle_id assign cihazbul cihazbul_id
sinfo_ack_enters i trns ds m n = ground arith

module _ (i : Info) (trns trns' : Transmisyon) (ip : ℕ) (ds : List Device) where
  abbrev KnownAs : List Device → Type 0
  KnownAs es =
      (cihazbul i.mac es ≡ none)
      × (sinfo_ack (record i { ip = ip }) trns' es ≡ es)
      × (i_ack (record i { ip = ip }) trns' es ≡ record (entered i trns) { ip = ip } ∷ ds)

  KnownAs_lem : cihazbul i.mac ds ≡ none → i.mac ≢ mac_of i.id → KnownAs (entered i trns ∷ ds)
  unfolding sinfo_ack i_ack cihazbul cihazbul_id first assign
  KnownAs_lem m ne = ground (arith, eq_iff i.mac (mac_of i.id), ==_iff i.id i.id)

-- A `sinfo_ack` whose address and number the registry does not know enters its sender under the
-- text of its number, if that is not its address: the sender is not found by its address afterwards, a
-- second `sinfo_ack` of the same sender, with whatever IP address and transmission, changes nothing,
-- and an `I_ACK` changes its IP address.
pub sinfo_ack_stale :
    (i : Info) (trns trns' : Transmisyon) (ip : ℕ) (ds : List Device)
    → cihazbul i.mac ds ≡ none
    → cihazbul_id i.id ds ≡ none
    → i.mac ≢ mac_of i.id
    → let es = sinfo_ack i trns ds in
      (cihazbul i.mac es ≡ none)
      × (sinfo_ack (record i { ip = ip }) trns' es ≡ es)
      × (i_ack (record i { ip = ip }) trns' es ≡ record (entered i trns) { ip = ip } ∷ ds)
sinfo_ack_stale i trns trns' ip ds m n ne =
    subst (KnownAs i trns trns' ip ds) (sym (sinfo_ack_enters i trns ds m n))
      (KnownAs_lem i trns trns' ip ds m ne)
