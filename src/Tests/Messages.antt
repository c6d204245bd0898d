-- ===== src/Tests/Messages.antt =====
-- The theorems on messages, at a device with a lamp and a switch.
use n1cpu.Air.{Float}
use n1cpu.Base.{leb, ltb, ◌==◌, ℕ, true, List, [], ◌∷◌, String, refl, ◌≡◌, inr, some, arith}
use n1cpu.Port.Laws.{level}
use n1cpu.Func.{stopped, periodic}
use n1cpu.Lamp.{Lamp}
use n1cpu.System.{BaseFunction, base, lamp, onoff, cur}
use n1cpu.System.Messages.{all}
use n1cpu.System.Lamps.{AllUsable, all_lamps}
use n1cpu.System.Report.{reported, report_reaches}
use n1cpu.Tests.Curtains.{curtain}
use n1cpu.Tests.{Memory, hal, rest, func, relay, valve, valve-IsLive, laws}

abbrev lit : Lamp Memory
lit = record { fn = valve; qtimer = stopped; xtimer = periodic 60000000 }

abbrev functions : List (BaseFunction Memory)
functions = onoff (func (relay "ON" 5 ∷ [])) ∷ lamp lit ∷ []

functions-AllUsable : AllUsable functions
functions-AllUsable = (refl, ((valve-IsLive, refl), refl))

-- Whole degrees.
abbrev pub whole : Float
whole = record { le = leb; lt = ltb; eq = λ a b. a == b; of_byte = λ n. n; printed = λ n. n }

-- For the texts of the tests.
abbrev strlen : String → ℕ
strlen s = 4

all_lamps_example :
    level hal 3 (all whole hal strlen (some "lamp") (some 1) functions valve.world).1 ≡ true
all_lamps_example =
    all_lamps whole hal strlen laws 3 1 functions valve.world refl (inr refl) functions-AllUsable

report_reaches_example :
    (base (reported whole 1 strlen (record rest { status = 2 }) (cur curtain))).status.stat ≡ true
report_reaches_example =
    (report_reaches whole 1 strlen (record rest { status = 2 }) (cur curtain) (omega arith)).0
