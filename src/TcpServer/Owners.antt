-- ===== src/TcpServer/Owners.antt =====
-- When every message finds the device of its connection.
use text.Mathlib.TextPositions.{eq_refl}
use n1cpu.Base.{
  ℕ, Bool, true, false, ◌&&◌, ◌||◌, Option, none, some, List, [], ◌∷◌, ◌≡◌, refl, ◌∙◌, arith,
  Bool-cases, Option-cases, inl, inr, String, ltb, not, ◌%◌,
}
use n1cpu.Registry.{
  Device, cihazbul, cihazbul_soket, cihaz_ekle, assign, has_mac, has_socket, first,
}
use n1cpu.TcpServer.{
  Turn, turn, others, Server, Accepted, Received, no_one, failed, connection, try_receive, place,
  on_line, register, accept, message, call, hear, serve, round, run,
}

-- Is there a device on the socket?
abbrev pub known : ℕ → List Device → Bool
known fd [] = false
known fd (d ∷ ds) = has_socket fd d || known fd ds

-- Every connection belongs to a device, and the number of its socket is a byte.
abbrev pub all_known : List (Option ℕ) → List Device → Bool
all_known [] ds = true
all_known (none ∷ ss) ds = all_known ss ds
all_known (some fd ∷ ss) ds = ltb fd 256 && known fd ds && all_known ss ds

abbrev pub uses : ℕ → Option Device → Bool
uses fd none = false
uses fd (some d) = has_socket fd d

abbrev pub one_uses : List (Option ℕ) → Option Device → Bool
one_uses [] o = false
one_uses (none ∷ ss) o = one_uses ss o
one_uses (some fd ∷ ss) o = uses fd o || one_uses ss o

-- The connection of a device that has one already, or with a number above a byte.
abbrev pub clashes : Accepted → Server → Bool
clashes (connection fd ip mac ok) s = not (ltb fd 256) || one_uses s.sock (cihazbul mac s.devices)
clashes _ s = false

known-soket :
    (fd : ℕ) (ds : List Device)
    → ltb fd 256 ≡ true
    → known fd ds ≡ true
    → (d : Device) × (cihazbul_soket fd ds ≡ some d)
unfolding cihazbul_soket first
known-soket fd [] b h = ground arith
known-soket fd (d ∷ ds) b h =
    let e : fd % 256 ≡ fd = ground arith in
    elim (Bool-cases (has_socket fd d)) [
      | inl f ↦ (d, ground (arith, e, f))
      | inr f ↦
          let (d', g) = known-soket fd ds b (ground (arith, f)) in (d', ground (arith, e, f, g))
    ]

module _ (fd ip : ℕ) (mac : String) where
  known-assign :
      (g : ℕ) (ds : List Device)
      → known g ds ≡ true
      → uses g (first (has_mac mac) ds) ≡ false
      → known g (assign (has_mac mac) (on_line fd ip) ds) ≡ true
  unfolding first assign
  known-assign g [] h u = h
  known-assign g (d ∷ ds) h u = ground (arith, known-assign g ds)

  assigned :
      (d : Device) (ds : List Device)
      → first (has_mac mac) ds ≡ some d
      → known fd (assign (has_mac mac) (on_line fd ip) ds) ≡ true
  unfolding first assign
  assigned d [] h = ground arith
  assigned d (d' ∷ ds) h = ground (arith, assigned d ds)

  known-register :
      (g : ℕ) (ds : List Device)
      → known g ds ≡ true
      → uses g (cihazbul mac ds) ≡ false
      → known g (register fd ip mac ds) ≡ true
  unfolding register cihazbul cihaz_ekle assign
  known-register g ds h u = elim (Option-cases (first (has_mac mac) ds)) [
    | inl e ↦ ground (arith, e, h, eq_refl mac)
    | inr (d, e) ↦ ground (arith, e, known-assign g ds h u)
  ]

  registered : (ds : List Device) → known fd (register fd ip mac ds) ≡ true
  unfolding register cihazbul cihaz_ekle assign
  registered ds = elim (Option-cases (first (has_mac mac) ds)) [
    | inl e ↦ ground (arith, e, eq_refl mac)
    | inr (d, e) ↦ ground (arith, e, assigned d ds e)
  ]

  all_known-register :
      (ss : List (Option ℕ)) (ds : List Device)
      → all_known ss ds ≡ true
      → one_uses ss (cihazbul mac ds) ≡ false
      → all_known ss (register fd ip mac ds) ≡ true
  all_known-register [] ds h u = refl
  all_known-register (none ∷ ss) ds h u = all_known-register ss ds h u
  all_known-register (some g ∷ ss) ds h u =
      ground (arith, known-register g ds, all_known-register ss ds)

  all_known-place :
      (ss : List (Option ℕ)) (ds : List Device)
      → ltb fd 256 ≡ true
      → known fd ds ≡ true
      → all_known ss ds ≡ true
      → all_known (place fd ss) ds ≡ true
  unfolding place
  all_known-place [] ds b k h = refl
  all_known-place (none ∷ ss) ds b k h = ground (arith, b, k, h)
  all_known-place (some g ∷ ss) ds b k h = ground (arith, all_known-place ss ds b k)

accepted :
    (a : Accepted) (s : Server)
    → all_known s.sock s.devices ≡ true
    → clashes a s ≡ false
    → (all_known (accept a s).sock (accept a s).devices ≡ true) × ((accept a s).crashed ≡ s.crashed)
unfolding accept
accepted no_one s h c = (h, refl)
accepted failed s h c = ground (arith, h)
accepted (connection fd ip mac ok) s h c =
    let ds = register fd ip mac s.devices in
    let byte : ltb fd 256 ≡ true = ground arith in
    let free : one_uses s.sock (cihazbul mac s.devices) ≡ false = ground arith in
    let all =
      all_known-place fd ip mac s.sock ds byte (registered fd ip mac s.devices)
        (all_known-register fd ip mac s.sock s.devices h free) in
    ground (arith, h, all)

module _ (reply : List ℕ → ℕ → List ℕ) where
  hear_lem :
      (fd : ℕ) (got : Option (List ℕ)) (s : Server)
      → ltb fd 256 ≡ true
      → known fd s.devices ≡ true
      → ((hear reply fd got s).crashed ≡ s.crashed) × ((hear reply fd got s).devices ≡ s.devices)
  unfolding hear call
  hear_lem fd none s b k = (refl, refl)
  hear_lem fd (some xs) s b k =
      let (d, e) = known-soket fd s.devices b k in
      elim (Option-cases (message xs)) [
        | inl f ↦ ground (arith, f)
        | inr (text, f) ↦ ground (arith, f, e)
      ]

  serve_lem :
      (recv : ℕ → Received) (ss : List (Option ℕ)) (s : Server)
      → all_known ss s.devices ≡ true
      → s.crashed ≡ false
      → let (ss', s') = serve reply recv ss s in
        (s'.crashed ≡ false) × (s'.devices ≡ s.devices) × (all_known ss' s.devices ≡ true)
  unfolding serve
  serve_lem recv [] s h c = (c, refl, refl)
  serve_lem recv (none ∷ ss) s h c = serve_lem recv ss s h c
  serve_lem recv (some fd ∷ ss) s h c =
      let got = try_receive (recv fd) in
      let k : known fd s.devices ≡ true = ground arith in
      let b : ltb fd 256 ≡ true = ground arith in
      let (same, kept_devices) = hear_lem fd got s b k in
      let rest =
        serve_lem recv ss (hear reply fd got s) (ground (arith, h, kept_devices)) (same ∙ c) in
      elim (Option-cases got) [
        | inl e ↦ ground (arith, e, same, kept_devices, rest, c, h)
        | inr (xs, e) ↦ ground (arith, e, same, kept_devices, rest, c, h)
      ]

  round_lem :
      (a : Accepted) (recv : ℕ → Received) (s : Server)
      → all_known s.sock s.devices ≡ true
      → s.crashed ≡ false
      → clashes a s ≡ false
      → let s' = round reply a recv s in
        (all_known s'.sock s'.devices ≡ true) × (s'.crashed ≡ false)
  unfolding round
  round_lem a recv s h c k =
      let s1 = accept a s in
      let (all, same) = accepted a s h k in
      let served = serve_lem recv s1.sock s1 all (same ∙ c) in ground (arith, served, c)

-- Over the turns no device connects that has a connection already, the numbers of the sockets are bytes, and no
-- task takes a device with a connection out of the registry, or its socket.
abbrev pub NoClash : (List ℕ → ℕ → List ℕ) → List Turn → Server → Type 0
NoClash reply [] s = true ≡ true
NoClash reply (turn a recv ∷ ts) s = (clashes a s ≡ false) × NoClash reply ts (round reply a recv s)
NoClash reply (others change ∷ ts) s =
    (all_known s.sock (change s.devices) ≡ true)
    × NoClash reply ts (record s { devices = change s.devices })

-- If every connection belongs to a device, and over some turns of the loop and changes of the registry by other
-- tasks no device connects that has a connection already, none that has one is taken out of the registry,
-- and the numbers of the sockets stay below 256, then no message comes on a connection without a device, for
-- which the server would follow a NULL pointer, and every connection belongs to a device after them.
pub run_safe :
    (reply : List ℕ → ℕ → List ℕ) (ts : List Turn) (s : Server)
    → all_known s.sock s.devices ≡ true
    → s.crashed ≡ false
    → NoClash reply ts s
    → ((run reply ts s).crashed ≡ false)
      × (all_known (run reply ts s).sock (run reply ts s).devices ≡ true)
unfolding run
run_safe reply [] s h c k = (c, h)
run_safe reply (turn a recv ∷ ts) s h c (k, ks) =
    let (h', c') = round_lem reply a recv s h c k in
    run_safe reply ts (round reply a recv s) h' c' ks
run_safe reply (others change ∷ ts) s h c (k, ks) =
    run_safe reply ts (record s { devices = change s.devices }) k c ks
