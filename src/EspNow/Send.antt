-- ===== src/EspNow/Send.antt =====
-- `_send` of wifi_now.cpp: a message goes out packet by packet, each repeated until it is acknowledged.
-- A message is text, and holds no zero byte. For each packet and turn the driver says whether
-- `esp_now_send` takes the packet, and whether the acknowledgement comes in five seconds.
use n1cpu.Base.{
  ℕ, zero, suc, ◌+◌, ◌-◌, ◌*◌, ◌/◌, ◌%◌, Bool, true, false, not, ◌&&◌, ◌||◌, ◌==◌, ltb, Option,
  none, some, List, [], ◌∷◌, length, take, drop, ◌≡◌, refl, ap, arith, if◌then◌else◌, Option-cases,
  inl, inr,
}
use n1cpu.EspNow.{data_broadcast, data_unicast, Data, npaket_size}

pub record Driver : Type 0 where
  pub taken : ℕ → ℕ → Bool
  pub acked : ℕ → ℕ → Bool

abbrev pub paket_sayisi : ℕ → ℕ
paket_sayisi size = (size / npaket_size + (if size % npaket_size == 0 then 0 else 1)) % 256

-- The packet of the index `w` of a message that the device `dev_id` sends to `id`.
unfoldable pub data_prepare : ℕ → ℕ → List ℕ → ℕ → Data
data_prepare dev_id id message w =
    let size = length message % 65536 in
    let start = (w * npaket_size) % 65536 in
    let uzn = if ltb size (start + npaket_size) then (size - start) % 256 else npaket_size in
    record {
      type = if id == 255 then data_broadcast else data_unicast;
      sender = dev_id;
      receiver = id;
      total_pk = paket_sayisi size;
      current_pk = (w + 1) % 256;
      total_len = size;
      payload = take uzn (drop start message);
    }

-- `k` packets from the index `w` on.
unfoldable pub pakets_from : ℕ → ℕ → List ℕ → ℕ → ℕ → List Data
pakets_from dev_id id message zero w = []
pakets_from dev_id id message (suc k) w =
    data_prepare dev_id id message w ∷ pakets_from dev_id id message k (w + 1)

unfoldable pub data_pakets : ℕ → ℕ → List ℕ → List Data
data_pakets dev_id id message =
    pakets_from dev_id id message (paket_sayisi (length message % 65536)) 0

-- The turns of the loop for the packet `w`, as many as the first number allows, from `cnt` on: the value
-- of `cnt` after the loop.
unfoldable pub tries : Driver → ℕ → ℕ → ℕ → Option ℕ
tries d w zero cnt = none
tries d w (suc turns) cnt =
    let rest = tries d w turns (cnt + 1) in
    if not (d.taken w cnt)
    then some 10
    else if d.acked w cnt || ltb 3 cnt
    then some (cnt + 1)
    else rest

-- The packets from the index `w` on: those that were given to the loop, in their order, and whether all
-- of them ended with `cnt` at most 3. The first that does not ends the message.
unfoldable pub send_pakets : Driver → ℕ → ℕ → Option (List ℕ × Bool)
send_pakets d zero w = some ([], true)
send_pakets d (suc k) w =
    let rest = send_pakets d k (w + 1) in
    elim (tries d w 5 0) [
      | none ↦ none
      | some cnt ↦
          if ltb 3 cnt
          then some (w ∷ [], false)
          else elim rest [ none ↦ none | some (ws, ok) ↦ some (w ∷ ws, ok) ]
    ]

-- `_send`, to a device that `cihazbul` finds or not; true for ESP_OK.
unfoldable pub send : Driver → Bool → List ℕ → Option (List ℕ × Bool)
send d known message =
    if known then send_pakets d (paket_sayisi (length message % 65536)) 0 else some ([], false)

-- The packet `w` is acknowledged at one of the first three turns, and taken at every turn up to it.
abbrev pub early : Driver → ℕ → Bool
early d w =
    d.taken w 0 && (d.acked w 0 || (d.taken w 1 && (d.acked w 1 || (d.taken w 2 && d.acked w 2))))

abbrev pub all_early : Driver → ℕ → ℕ → Bool
all_early d zero w = true
all_early d (suc k) w = early d w && all_early d k (w + 1)

-- The packets up to the first that is not acknowledged early, that one included.
abbrev pub until : Driver → ℕ → ℕ → List ℕ
until d zero w = []
until d (suc k) w = w ∷ (if early d w then until d k (w + 1) else [])

abbrev late : Option ℕ → Option Bool
late none = none
late (some cnt) = some (ltb 3 cnt)

tries_lem : (d : Driver) (w : ℕ) → late (tries d w 5 0) ≡ some (not (early d w))
unfolding tries
tries_lem d w = ground arith

send_pakets_lem : (d : Driver) (k w : ℕ) → send_pakets d k w ≡ some (until d k w, all_early d k w)
unfolding send_pakets
send_pakets_lem d zero w = refl
send_pakets_lem d (suc k) w = elim (Option-cases (tries d w 5 0)) [
  | inl e ↦ absurd (ground (arith, ap late e, tries_lem d w))
  | inr (cnt, e) ↦ ground (arith, e, ap late e, tries_lem d w, send_pakets_lem d k (w + 1))
]

-- For every driver, `_send` to a known device comes to an end. It returns ESP_OK exactly if each packet is
-- taken and acknowledged within its first three turns; the packets go out in order, and the first that is
-- not acknowledged by then is the last.
pub send_exact :
    (d : Driver) (message : List ℕ)
    → let n = paket_sayisi (length message % 65536) in
      send d true message ≡ some (until d n 0, all_early d n 0)
unfolding send
send_exact d message = send_pakets_lem d (paket_sayisi (length message % 65536)) 0
