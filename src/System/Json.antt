-- ===== src/System/Json.antt =====
-- components/home/library/jsontool/jsontool.cpp: the reading of single values of a parsed object, and
-- of the status in a message. An object is the values of the items that it has; the parser is cJSON's.
-- A number is the item's `valueint`, not negative; `strlen` is that of C.
use n1cpu.Base.{ℕ, ◌%◌, Bool, Option, none, some, String, leb, if◌then◌else◌}
use n1cpu.Core.{Status}

-- The object "durum". The values of "temp" and "stemp" are floats, which are only copied.
pub record Durum : Type 0 where
  pub stat : Option Bool
  pub temp : Option ℕ
  pub stemp : Option ℕ
  pub color : Option ℕ
  pub status : Option ℕ
  pub ircom : Option String
  pub irval : Option String
  pub coun : Option ℕ
  pub act : Option Bool

-- A value that is there, or the one that was.
abbrev pub given : {A : Type 0} → Option A → A → A
given (some x) old = x
given none old = old

-- Into a byte.
abbrev pub json_getint : Option ℕ → ℕ → ℕ
json_getint (some n) old = n % 256
json_getint none old = old

module _ (strlen : String → ℕ) where
  abbrev pub json_getstring : ℕ → Option String → Option String
  json_getstring len (some s) = if leb (strlen s) len then some s else none
  json_getstring len none = none

  unfoldable pub json_to_status : Option Durum → Status → Status → Status
  json_to_status none stat old = stat
  json_to_status (some d) stat old = record {
    stat = given d.stat old.stat;
    temp = given d.temp old.temp;
    set_temp = given d.stemp old.set_temp;
    color = given d.color old.color;
    status = json_getint d.status old.status;
    ircom = given (json_getstring 31 d.ircom) old.ircom;
    irval = given (json_getstring 31 d.irval) old.irval;
    counter = json_getint d.coun old.counter;
    active = given d.act old.active;
    first = stat.first;
  }
