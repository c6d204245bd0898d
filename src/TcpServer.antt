-- ===== src/TcpServer.antt =====
-- components/home/library/tcpserver/tcpserver.cpp: the connections of the devices. What the sockets answer is an
-- input, and so is what the callback replies to a message. A message is text: it holds no zero byte. The
-- callback is set; what it and the other tasks do to the registry is an input as well.
pub mod Owners
use n1cpu.Base.{
  ℕ, zero, suc, ◌+◌, ◌-◌, Bool, true, false, not, ◌&&◌, ◌||◌, ◌==◌, ltb, Option, none, some, List,
  [], ◌∷◌, ◌++◌, length, replicate, String, if◌then◌else◌,
}
use n1cpu.Core.{tr_udp}
use n1cpu.Registry.{Device, cihazbul, cihazbul_soket, cihaz_ekle, assign, has_mac}

abbrev pub max_socks : ℕ
max_socks = 29

-- `sock`, with `none` for INVALID_SOCK; the registry; the calls of `callback` and the replies that go out,
-- newest first; and whether a NULL pointer was followed.
pub record Server : Type 0 where
  pub sock : List (Option ℕ)
  pub devices : List Device
  pub calls : List (List ℕ × ℕ)
  pub replies : List (ℕ × List ℕ)
  pub crashed : Bool

-- What `accept` answers, with the text that `get_sta_mac` leaves in its buffer, an address or, if it finds
-- none, whatever stood there, and whether `fcntl` succeeds.
pub data Accepted : Type 0 where
  no_one failed : Accepted
  connection : ℕ → ℕ → String → Bool → Accepted

-- What `recv` answers: bytes, none of them if the other side has closed; EAGAIN; or an error.
pub data Received : Type 0 where
  bytes : List ℕ → Received
  again broken : Received

-- `none` for a negative length.
abbrev pub try_receive : Received → Option (List ℕ)
try_receive (bytes xs) = some xs
try_receive again = some []
try_receive broken = none

unfoldable pub has_free : List (Option ℕ) → Bool
has_free [] = false
has_free (none ∷ ss) = true
has_free (some fd ∷ ss) = has_free ss

-- The first free place.
unfoldable pub place : ℕ → List (Option ℕ) → List (Option ℕ)
place fd [] = []
place fd (none ∷ ss) = some fd ∷ ss
place fd (some g ∷ ss) = some g ∷ place fd ss

-- The label `error`, and the jump to the start of the task.
abbrev pub reopen : Server → Server
reopen s = record s { sock = replicate max_socks none }

abbrev pub on_line : ℕ → ℕ → Device → Device
on_line fd ip d = record d { socket = some fd; ip = ip }

unfoldable pub register : ℕ → ℕ → String → List Device → List Device
register fd ip mac ds = elim (cihazbul mac ds) [
  | none ↦ assign (has_mac mac) (on_line fd ip) (cihaz_ekle mac tr_udp ds)
  | some d ↦ assign (has_mac mac) (on_line fd ip) ds
]

unfoldable pub accept : Accepted → Server → Server
accept no_one s = s
accept failed s = if has_free s.sock then reopen s else s
accept (connection fd ip mac ok) s =
    let s' = record s { sock = place fd s.sock; devices = register fd ip mac s.devices } in
    if not (has_free s.sock) then s else if ok then s' else reopen s'

-- The text before the character '&' that ends a message.
unfoldable pub message : List ℕ → Option (List ℕ)
message [] = none
message (x ∷ []) = if x == 38 then some [] else none
message (x ∷ y ∷ xs) = elim (message (y ∷ xs)) [ none ↦ none | some ys ↦ some (x ∷ ys) ]

-- The place after what was received.
abbrev pub kept : ℕ → Option (List ℕ) → Option ℕ
kept fd none = none
kept fd (some xs) = some fd

-- A turn of the loop, or what another task or the callback makes of the registry between two turns.
pub data Turn : Type 0 where
  turn : Accepted → (ℕ → Received) → Turn
  others : (List Device → List Device) → Turn

module _ (reply : List ℕ → ℕ → List ℕ) where
  unfoldable pub call : ℕ → List ℕ → Server → Server
  call fd text s = elim (cihazbul_soket fd s.devices) [
    | none ↦ record s { crashed = true }
    | some bag ↦
        let res = reply text bag.device_id in
        record s {
          calls = (text, bag.device_id) ∷ s.calls;
          replies = if ltb 2 (length res) then (fd, res ++ 38 ∷ []) ∷ s.replies else s.replies;
        }
  ]

  -- What comes on the socket `fd`, but for the closing of it.
  unfoldable pub hear : ℕ → Option (List ℕ) → Server → Server
  hear fd none s = s
  hear fd (some xs) s = elim (message xs) [ none ↦ s | some text ↦ call fd text s ]

  -- The places from the one on that stands first in the list, and the server.
  unfoldable pub serve : (ℕ → Received) → List (Option ℕ) → Server → List (Option ℕ) × Server
  serve recv [] s = ([], s)
  serve recv (none ∷ ss) s = let (rest, s') = serve recv ss s in (none ∷ rest, s')
  serve recv (some fd ∷ ss) s =
      let got = try_receive (recv fd) in
      let heard = hear fd got s in
      let (rest, s') = serve recv ss heard in
      if heard.crashed then (some fd ∷ ss, heard) else (kept fd got ∷ rest, s')

  -- One turn of the loop of `tcp_server_task`.
  unfoldable pub round : Accepted → (ℕ → Received) → Server → Server
  round a recv s =
      let s1 = accept a s in
      let (ss, s2) = serve recv s1.sock s1 in if s.crashed then s else record s2 { sock = ss }

  unfoldable pub run : List Turn → Server → Server
  run [] s = s
  run (turn a recv ∷ ts) s = run ts (round a recv s)
  run (others change ∷ ts) s = run ts (record s { devices = change s.devices })
