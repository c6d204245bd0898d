-- ===== src/EspNow.antt =====
-- components/home/library/wifi_now/wifi_now.cpp: messages over ESP-NOW, cut into packets (the child Send) and
-- put together in five places, one for each sender. The packets received are those that pass the check sum,
-- in the order in which they leave the queue.
pub mod Apart
pub mod Send
pub mod Roundtrip
use n1cpu.Base.{
  ℕ, zero, suc, ◌+◌, ◌-◌, ◌*◌, ◌/◌, ◌%◌, ◌^◌, Bool, true, false, not, ◌&&◌, ◌||◌, ◌==◌, ltb, Option,
  none, some, List, [], ◌∷◌, length, take, drop, ◌++◌, replicate, if◌then◌else◌,
}
use n1cpu.Rs485.{memcpy, is_full}

abbrev pub npaket_size : ℕ
npaket_size = 190

-- The data types of a packet that are not DATA_PING or DATA_PONG are treated alike.
pub data DataType : Type 0 where
  data_broadcast data_unicast data_ping data_pong : DataType

abbrev pub is_normal : DataType → Bool
is_normal data_ping = false
is_normal data_pong = false
is_normal _ = true

-- `data_t`.
pub record Data : Type 0 where
  pub type : DataType
  pub sender : ℕ
  pub receiver : ℕ
  pub total_pk : ℕ
  pub current_pk : ℕ
  pub total_len : ℕ
  pub payload : List ℕ

-- `receive_pk_t`; `buffer` is `data` there, and a NULL pointer `none`.
pub record Place : Type 0 where
  pub id : ℕ
  pub header : ℕ
  pub buffer : Option (List ℕ)

-- A call of `broadcast_callback` or of `main_callback`.
pub record Delivered : Type 0 where
  pub broadcast : Bool
  pub text : Option (List ℕ)
  pub from : ℕ

-- The five places, whether `receive_task` has returned, whether a packet was copied outside its buffer, after
-- which the source has no meaning and the model stands still, and the calls, newest first.
pub record Radio : Type 0 where
  pub paket : List Place
  pub ended : Bool
  pub overrun : Bool
  pub delivered : List Delivered

-- `findpk(id) != 255`.
unfoldable pub has_place : ℕ → List Place → Bool
has_place id [] = false
has_place id (s ∷ ss) = s.id == id || has_place id ss

-- What is done with the place that `findpk(id)` finds.
unfoldable pub at_place : ℕ → (Place → Place) → List Place → List Place
at_place id g [] = []
at_place id g (s ∷ ss) = if s.id == id then g s ∷ ss else s ∷ at_place id g ss

unfoldable pub place_of : ℕ → List Place → Option Place
place_of id [] = none
place_of id (s ∷ ss) = if s.id == id then some s else place_of id ss

abbrev pub claimed : ℕ → ℕ → Place
claimed id tlen = record { id = id; header = 0; buffer = some (replicate (tlen + 2) 0) }

-- `findfreepk`, which returns 255 without a free place.
unfoldable pub findfreepk : ℕ → ℕ → List Place → Option (List Place)
findfreepk id tlen ss = if has_place 0 ss then some (at_place 0 (λ s. claimed id tlen) ss) else none

-- The copy of a packet that stays in the buffer.
abbrev pub copied : Data → Option (List ℕ) → Option (List ℕ)
copied p none = none
copied p (some buf) = some (memcpy ((p.current_pk - 1) * npaket_size) p.payload buf)

-- A packet put into its place, which is freed if the packet completes the message.
abbrev pub filled : Data → Place → Place
filled p s = record s { buffer = copied p s.buffer; header = (2 ^ p.current_pk) % 2 ^ 32 }

abbrev pub freed : Place
freed = record { id = 0; header = 0; buffer = none }

abbrev pub full : Data → Bool
full p = is_full p.total_pk p.current_pk

abbrev pub after : Data → Place → Place
after p s = if full p then freed else filled p s

abbrev pub call : Data → Option Place → List Delivered
call p none = []
call p (some s) =
    if full p
    then record { broadcast = p.receiver == 255; text = (filled p s).buffer; from = p.sender } ∷ []
    else []

abbrev pub found : Data → List Place → Option (List Place)
found p ss = if has_place p.sender ss then some ss else findfreepk p.sender p.total_len ss

-- The copy would go to a NULL pointer, or in front of the buffer or past its end.
unfoldable pub overruns : Data → Option Place → Bool
overruns p none = false
overruns p (some s) = elim (s.buffer) [
  | none ↦ true
  | some buf ↦
      p.current_pk == 0 || ltb (length buf) ((p.current_pk - 1) * npaket_size + length p.payload)
]

-- A normal packet, with places in which there is one for it; the callbacks are set.
unfoldable pub put_into : Data → Radio → Option (List Place) → Radio
put_into p r none = record r { ended = true }
put_into p r (some ss) =
    if overruns p (place_of p.sender ss) then record r { overrun = true } else record r {
      paket = at_place p.sender (after p) ss;
      delivered = call p (place_of p.sender ss) ++ r.delivered;
    }

-- One turn of `receive_task`. A ping or a pong fills no place; the answer to a ping is not modelled.
unfoldable pub receive : Data → Radio → Radio
receive p r =
    if r.ended || r.overrun || not (is_normal p.type) then r else put_into p r (found p r.paket)

unfoldable pub run : List Data → Radio → Radio
run [] r = r
run (p ∷ ps) r = run ps (receive p r)

-- The task runs, and no copy has gone outside its buffer.
abbrev pub sound : Radio → Bool
sound r = not r.ended && not r.overrun
