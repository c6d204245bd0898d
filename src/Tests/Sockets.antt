-- ===== src/Tests/Sockets.antt =====
-- The theorems on the connections, with a device that joins and sends, and a server without a free place.
use n1cpu.Base.{ℕ, true, false, Option, none, List, [], ◌∷◌, replicate, ◌≡◌, refl}
use n1cpu.Registry.{yeni, cihazbul, cihazbul_soket, cihaz_ekle, assign, first}
use n1cpu.Core.{tr_udp}
use n1cpu.TcpServer.{
  Turn, turn, others, Server, Received, no_one, connection, bytes, has_free, place, register,
  accept, message, call, hear, serve, round, run,
}
use n1cpu.TcpServer.Owners.{all_known, run_safe}

abbrev server : List (Option ℕ) → Server
server ss = record { sock = ss; devices = []; calls = []; replies = []; crashed = false }

abbrev silent : ℕ → Received
silent fd = bytes []

-- The text "abc&".
abbrev says : ℕ → Received
says fd = bytes (97 ∷ 98 ∷ 99 ∷ 38 ∷ [])

abbrev echo : List ℕ → ℕ → List ℕ
echo text id = text

abbrev rounds : List Turn
rounds =
    turn (connection 54 1 "24a1" true) says
    ∷ others (λ ds. yeni "24a3" 9 tr_udp ∷ ds)
    ∷ turn (connection 55 2 "24a2" true) says
    ∷ turn no_one silent
    ∷ []

run_safe_example :
    ((run echo rounds (server (replicate 29 none))).crashed ≡ false)
    × (all_known
          (run echo rounds (server (replicate 29 none))).sock
          (run echo rounds (server (replicate 29 none))).devices
        ≡ true)
unfolding run round accept register place has_free serve hear call message cihazbul cihazbul_soket
    cihaz_ekle assign first
run_safe_example =
    run_safe echo rounds (server (replicate 29 none)) refl refl (refl, (refl, (refl, (refl, refl))))
