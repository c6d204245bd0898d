-- ===== src/Tests/Network.antt =====
-- The theorems on the registries at concrete devices.
use Prim.Native.String.{len}
use n1cpu.Base.{ℕ, true, false, List, [], ◌∷◌, none, refl, ◌≡◌, arith}
use n1cpu.Core.{tr_serial, tr_espnow, tr_none}
use n1cpu.Registry.{Info, Request, joins, leaves, tells, has_ip, pings, run, cihazbul, first}
use n1cpu.Registry.Refines.{run_refines, replay}
use n1cpu.Functions.{
  FunctionReg, Functions, Config, Request as Registration, restart, functions_remote_register,
  find_register, is_class, register_new, read_functions, add_function,
}
use n1cpu.Functions.Restart.{started, registers, restart_restores, register-IsLost, IsLost}

abbrev info : Info
info = record { mac = "A0B1C2D3E4F5"; ip = 77; fcount = 2; id = 5 }

abbrev requests : List Request
requests =
    joins "A0B1C2D3E4F5"
    ∷ tells info tr_espnow
    ∷ joins "000102030405"
    ∷ pings true (λ id. false) (λ id. true)
    ∷ leaves "000102030405"
    ∷ has_ip "A0B1C2D3E4F5" 80
    ∷ []

run_refines_example :
    cihazbul "A0B1C2D3E4F5" (run requests []) ≡ replay requests (λ m. none) "A0B1C2D3E4F5"
unfolding cihazbul first
run_refines_example = (run_refines requests [] (λ m. none) tt (λ m. refl)).1 "A0B1C2D3E4F5"

abbrev no_reg : FunctionReg
no_reg = record {
  name = "";
  auname = "";
  device_id = 0;
  register_id = 0;
  register_device_id = 0;
  prg_loc = 0;
  transmisyon = tr_none;
}

abbrev configs : List Config
configs =
    record { name = "lamp"; uname = "hall"; loc = 1; timer = 30; global = 2 }
    ∷ record { name = "gas"; uname = "gas"; loc = 2; timer = 0; global = 0 }
    ∷ []

abbrev request : ℕ → Registration
request rid = record {
  name = "cur";
  auname = "curtain";
  sender = 5;
  rid = rid;
  loc = 3;
  yer = tr_serial;
}

restart_restores_example :
    (restart len 0 configs
        (registers len (request 1 ∷ request 2 ∷ []) (started len configs (λ i. no_reg))).file
      ≡ (registers len (request 1 ∷ request 2 ∷ []) (started len configs (λ i. no_reg))).table)
    × ((registers len (request 1 ∷ request 2 ∷ []) (started len configs (λ i. no_reg))).overrun
        ≡ false)
unfolding find_register functions_remote_register register_new read_functions add_function is_class
restart_restores_example =
    restart_restores len 0 configs (λ i. no_reg) (request 1 ∷ request 2 ∷ []) (ground arith)
      (λ i. refl) (refl, (refl, tt)) (omega arith) refl refl

abbrev full : Functions
full = record {
  table = record { functions = []; counter = 49; overrun = false };
  file = λ i. no_reg;
}

register-IsLost_example :
    IsLost len 0 configs (request 1) full (functions_remote_register len (request 1) full)
unfolding find_register is_class
register-IsLost_example =
    register-IsLost len 0 configs (request 1) full refl refl refl (omega arith) (omega arith)
