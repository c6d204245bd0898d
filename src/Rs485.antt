-- ===== src/Rs485.antt =====
-- components/home/library/rs485/rs485.cpp: how a message is cut into packets, the loop of
-- `_sender_task`, and how packets are put together, `paket_decode`. The writing is in the child
-- Sender, and the devices on the line in the child Bus.
pub mod Buffers
pub mod Roundtrip
pub mod Sender
pub mod Bus
use n1cpu.Base.{
  ℕ, zero, suc, ◌+◌, ◌-◌, ◌*◌, ◌/◌, ◌%◌, ◌^◌, Bool, true, false, Option, none, some, List, [], ◌∷◌,
  ◌++◌, if◌then◌else◌, ◌==◌, ltb, length, take, drop, replicate,
}

abbrev pub paket_size : ℕ
paket_size = 50

-- The fields of `RS485_header_t` that the loop sets for each packet, and the bytes after them.
pub record Paket : Type 0 where
  pub total_pk : ℕ
  pub current_pk : ℕ
  pub data_len : ℕ
  pub payload : List ℕ

abbrev pub paket_sayisi : ℕ → ℕ
paket_sayisi size = (size / paket_size + (if size % paket_size == 0 then 0 else 1)) % 256

-- The packet of the index `i`.
unfoldable pub paket : List ℕ → ℕ → ℕ → Paket
paket message total i =
    let size = length message % 65536 in
    let start = (i * paket_size) % 65536 in
    let uzn = if ltb size (start + paket_size) then (size - start) % 256 else paket_size in
    record {
      total_pk = total;
      current_pk = (i + 1) % 256;
      data_len = uzn;
      payload = take uzn (drop start message);
    }

-- `k` packets from the index `i` on.
unfoldable pub pakets_from : List ℕ → ℕ → ℕ → ℕ → List Paket
pakets_from message total zero i = []
pakets_from message total (suc k) i = paket message total i ∷ pakets_from message total k (i + 1)

unfoldable pub pakets : List ℕ → List Paket
pakets message = let n = paket_sayisi (length message % 65536) in pakets_from message n n 0

-- The members `paket_buffer`, `paket_length` and `paket_header`.
pub record Receiver : Type 0 where
  pub paket_buffer : Option (List ℕ)
  pub paket_length : ℕ
  pub paket_header : ℕ

-- `memcpy` into a buffer; a copy past its end is undefined in the source.
abbrev pub memcpy : ℕ → List ℕ → List ℕ → List ℕ
memcpy off xs buf = take off buf ++ (xs ++ drop (off + length xs) buf)

-- `pow(2,total)==paket_header`, after `paket_header = (1ULL<<current)` in 32 bits.
abbrev pub is_full : ℕ → ℕ → Bool
is_full total current = 2 ^ total == (2 ^ current) % 2 ^ 32

abbrev pub fresh : Paket → Receiver → Receiver
fresh p r =
    if p.current_pk == 1
    then record r {
      paket_buffer = some (replicate (p.total_pk * paket_size + 2) 0);
      paket_length = 0;
    }
    else r

-- The part of `paket_decode` that needs a buffer.
unfoldable pub put : Option (List ℕ) → Paket → Receiver → Receiver × Bool
put none p r = (r, false)
put (some buf) p r = (
  record {
    paket_buffer = some (memcpy ((p.current_pk - 1) * paket_size) (take p.data_len p.payload) buf);
    paket_length = (r.paket_length + p.data_len) % 65536;
    paket_header = (2 ^ p.current_pk) % 2 ^ 32;
  },
  is_full p.total_pk p.current_pk,
)

unfoldable pub paket_decode : Paket → Receiver → Receiver × Bool
paket_decode p r = put (fresh p r).paket_buffer p (fresh p r)

-- The packets of one message as they come in, with the answers of `paket_decode`.
unfoldable pub decode_all : List Paket → Receiver → Receiver × List Bool
decode_all [] r = (r, [])
decode_all (p ∷ ps) r =
    let (r', full) = paket_decode p r in let (r'', rest) = decode_all ps r' in (r'', full ∷ rest)
