-- ===== src/Functions.antt =====
-- main/lib/functions/functions.cpp: the list of the functions of the device, newest first, the
-- registration of functions of other devices, and the file that keeps the registrations
-- over a restart (main/config.cpp).
pub mod Restart
use text.Mathlib.Text.{◌==◌ as str_eq}
use n1cpu.Base.{
  ℕ, zero, suc, ◌+◌, ◌%◌, Bool, true, false, ◌&&◌, ◌||◌, Option, none, some, List, [], ◌∷◌, String,
  if◌then◌else◌, ◌==◌, ltb, length, not,
}
use n1cpu.Core.{Transmisyon, tr_none, tr_local}

-- What the list keeps of a function: `genel`, and what `Base_Function` has of the configuration. The
-- state of its class is in the modules of the classes.
pub record Entry : Type 0 where
  pub name : String
  pub uname : String
  pub device_id : ℕ
  pub register_id : ℕ
  pub register_device_id : ℕ
  pub virtual_device : Bool
  pub location : Transmisyon
  pub prg_loc : ℕ
  pub timer : ℕ
  pub global : ℕ
  pub has_command_callback : Bool

-- `function_reg_t`, a record of the file.
pub record FunctionReg : Type 0 where
  pub name : String
  pub auname : String
  pub device_id : ℕ
  pub register_id : ℕ
  pub register_device_id : ℕ
  pub prg_loc : ℕ
  pub transmisyon : Transmisyon

-- `function_head_handle` and `Function_Counter`, and whether a text was copied past the end of its field, after
-- which nothing that is said of the table need be so.
pub record Table : Type 0 where
  pub functions : List Entry
  pub counter : ℕ
  pub overrun : Bool

-- The table and the file: the record at every number.
pub record Functions : Type 0 where
  pub table : Table
  pub open table use *
  pub file : ℕ → FunctionReg

abbrev pub nothing : Table
nothing = record { functions = []; counter = 0; overrun = false }

-- The names that `add_function` has a class for. Each class stores the same text in `genel.name`.
abbrev class_names : List String
class_names =
    "lamp" ∷ "priz" ∷ "cont" ∷ "onoff" ∷ "cur" ∷ "air" ∷ "sec" ∷ "water" ∷ "mwater" ∷ "gas"
    ∷ "tmrelay" ∷ "elev" ∷ "pis" ∷ "door" ∷ "gara" ∷ []

abbrev among : String → List String → Bool
among name [] = false
among name (n ∷ ns) = str_eq name n || among name ns

unfoldable pub is_class : String → Bool
is_class name = among name class_names

-- The function of a class before its caller fills it in.
abbrev pub blank : String → String → ℕ → ℕ → Entry
blank name uname id loc = record {
  name = name;
  uname = uname;
  device_id = id;
  register_id = 0;
  register_device_id = 0;
  virtual_device = false;
  location = tr_none;
  prg_loc = loc;
  timer = 0;
  global = 0;
  has_command_callback = false;
}

-- A text with its final zero fits into one of the fields of 20 bytes, `uname`, `name` and `auname`.
abbrev pub fits : (String → ℕ) → String → Bool
fits strlen text = ltb (strlen text) 20

-- `add_function` with the assignments that its caller makes to the new function, and whether there
-- is a class of that name. The number is the next one, whatever `a_id` says.
unfoldable pub add_function :
    (String → ℕ) → String → String → ℕ → (Entry → Entry) → Table → Table × Bool
add_function strlen name uname loc set t =
    let id = (t.counter + 1) % 256 in
    if is_class name
    then (
      record {
        functions = set (blank name uname id loc) ∷ t.functions;
        counter = id;
        overrun = t.overrun || not (fits strlen uname);
      },
      true,
    )
    else (t, false)

unfoldable pub find_register : ℕ → ℕ → List Entry → Option Entry
find_register sender rid [] = none
find_register sender rid (f ∷ fs) =
    if f.register_device_id == sender && f.register_id == rid
    then some f
    else find_register sender rid fs

unfoldable pub function_find : ℕ → List Entry → Option Entry
function_find id [] = none
function_find id (f ∷ fs) = if f.device_id == id then some f else function_find id fs

unfoldable function_find_name : String → List Entry → Option Entry
function_find_name name [] = none
function_find_name name (f ∷ fs) = if str_eq f.name name then some f else function_find_name name fs

unfoldable function_count : List Entry → ℕ
function_count fs = length fs % 256

-- `qq->prg_loc = loc` for the function that `find_register` finds.
unfoldable pub relocate : ℕ → ℕ → ℕ → List Entry → List Entry
relocate sender rid loc [] = []
relocate sender rid loc (f ∷ fs) =
    if f.register_device_id == sender && f.register_id == rid
    then record f { prg_loc = loc } ∷ fs
    else f ∷ relocate sender rid loc fs

-- What both registrations make of a new function.
abbrev pub as_remote : ℕ → ℕ → Transmisyon → Entry → Entry
as_remote sender rid yer f = record f {
  register_id = rid;
  register_device_id = sender;
  virtual_device = true;
  location = yer;
  timer = 0;
  global = 0;
  has_command_callback = true;
}

-- `write_file` of one record.
abbrev pub write_record : ℕ → FunctionReg → (ℕ → FunctionReg) → ℕ → FunctionReg
write_record k r file i = if k == i then r else file i

-- A message `R_REQ`: the arguments of `functions_remote_register`.
pub record Request : Type 0 where
  pub name : String
  pub auname : String
  pub sender : ℕ
  pub rid : ℕ
  pub loc : ℕ
  pub yer : Transmisyon

abbrev pub reg_of : Request → ℕ → FunctionReg
reg_of r id = record {
  name = r.name;
  auname = r.auname;
  device_id = id;
  register_id = r.rid;
  register_device_id = r.sender;
  prg_loc = r.loc;
  transmisyon = r.yer;
}

-- A request of a function that the table has already.
register_again : (String → ℕ) → Request → Entry → Functions → Functions × ℕ
register_again strlen r f s = (
  record {
    table = record s.table {
      functions = relocate r.sender r.rid r.loc s.functions;
      overrun = s.overrun || not (fits strlen r.name) || not (fits strlen r.auname);
    };
    file = write_record f.device_id (reg_of r f.device_id) s.file;
  },
  f.device_id,
)

unfoldable pub register_new : (String → ℕ) → Request → Functions → Functions × ℕ
register_new strlen r s =
    let (t, ok) =
      add_function strlen r.name r.auname r.loc (as_remote r.sender r.rid r.yer) s.table in
    if ok
    then (
      record { table = t; file = write_record t.counter (reg_of r t.counter) s.file },
      t.counter,
    )
    else (s, 255)

-- Returns the number that `R_ACK` reports.
unfoldable pub functions_remote_register : (String → ℕ) → Request → Functions → Functions × ℕ
unfolding register_again register_new
functions_remote_register strlen r s = elim (find_register r.sender r.rid s.functions) [
  | none ↦ register_new strlen r s
  | some f ↦ register_again strlen r f s
]

re_register_new : (String → ℕ) → FunctionReg → Table → Table
re_register_new strlen old t =
    (add_function strlen old.name old.auname old.prg_loc
      (as_remote old.register_device_id old.register_id old.transmisyon) t).0

-- `function_remote_re_register`.
unfoldable pub function_remote_re_register : (String → ℕ) → FunctionReg → Table → Table
unfolding re_register_new
function_remote_re_register strlen old t =
    elim (find_register old.register_device_id old.register_id t.functions) [
      | none ↦ re_register_new strlen old t
      | some f ↦ record t {
        functions = relocate old.register_device_id old.register_id old.prg_loc t.functions;
      }
    ]

-- A function of the device itself, from the configuration file.
pub record Config : Type 0 where
  pub name : String
  pub uname : String
  pub loc : ℕ
  pub timer : ℕ
  pub global : ℕ

-- The loop of `Read_functions` over the configuration.
unfoldable pub read_functions : (String → ℕ) → List Config → Table → Table
read_functions strlen [] t = t
read_functions strlen (c ∷ cs) t =
    read_functions strlen cs
      (add_function strlen c.name c.uname c.loc
        (λ (f : Entry). record f { timer = c.timer; global = c.global; location = tr_local }) t).0

-- The first `n` turns of the loop of `config` over the file.
unfoldable pub re_register_all : (String → ℕ) → ℕ → (ℕ → FunctionReg) → Table → Table
re_register_all strlen zero file t = t
re_register_all strlen (suc n) file t =
    let t' = re_register_all strlen n file t in
    if ltb 0 (file n).device_id then function_remote_re_register strlen (file n) t' else t'

abbrev pub max_device : ℕ
max_device = 50

-- The table after a restart, with the `start_value` of the configuration. At 3, which a refresh of the device
-- sets, the file is not read.
unfoldable pub restart : (String → ℕ) → ℕ → List Config → (ℕ → FunctionReg) → Table
restart strlen start_value cs file =
    let own = read_functions strlen cs nothing in
    if start_value == 3 then own else re_register_all strlen max_device file own
