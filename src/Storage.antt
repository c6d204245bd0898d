-- ===== src/Storage.antt =====
-- components/home/library/storage/storage.cpp: the files of records on the file system. A file is the list of
-- its bytes. Which files can be opened for writing, and what a write past the end of a file leaves between,
-- are parameters: they are the file system's.
pub mod Records
pub mod Start
use text.Mathlib.Text.{◌==◌ as str_eq}
use n1cpu.Base.{
  ℕ, zero, suc, ◌+◌, ◌*◌, ◌%◌, Bool, true, false, not, ◌&&◌, ◌==◌, ltb, Option, none, some, List,
  [], ◌∷◌, ◌++◌, length, take, drop, replicate, String, if◌then◌else◌,
}
use n1cpu.Functions.{max_device}

abbrev pub max_function : ℕ
max_function = 100

abbrev pub status_file : String
status_file = "/config/status.bin"

abbrev pub function_file : String
function_file = "/config/function.bin"

abbrev pub Files : Type 0
Files = String → Option (List ℕ)

pub record FileSystem : Type 0 where
  -- `fopen` with "r+", "w" or "a" succeeds, on a file that is there.
  pub writable : String → Bool
  -- A write of bytes at a place behind the end of a file.
  pub beyond : ℕ → List ℕ → List ℕ → List ℕ

abbrev pub set_file : String → List ℕ → Files → Files
set_file name bytes fs other = if str_eq other name then some bytes else fs other

-- `fread` into a structure that holds `old`.
unfoldable pub read_at : ℕ → List ℕ → List ℕ → List ℕ
read_at off old buf = let got = take (length old) (drop off buf) in got ++ drop (length got) old

-- `stat` and its size: a file that is there and is not empty.
unfoldable pub file_search : String → Files → Bool
file_search name fs = elim (fs name) [ none ↦ false | some buf ↦ not (length buf == 0) ]

unfoldable pub file_size : String → Files → ℕ
file_size name fs = elim (fs name) [ none ↦ 0 | some buf ↦ length buf ]

module _ (sys : FileSystem) where
  -- `fseek` and `fwrite` on the bytes of a file.
  unfoldable pub write_at : ℕ → List ℕ → List ℕ → List ℕ
  write_at off bytes buf =
      if ltb (length buf) off
      then sys.beyond off bytes buf
      else take off buf ++ (bytes ++ drop (off + length bytes) buf)

  -- A file that is opened with "r+", written at a place and closed.
  unfoldable pub patch : String → ℕ → List ℕ → Files → Bool × Files
  patch name off bytes fs = elim (fs name) [
    | none ↦ (false, fs)
    | some buf ↦
        if sys.writable name then (true, set_file name (write_at off bytes buf) fs) else (false, fs)
  ]

  -- What is opened with "r+" and read into a structure that holds `old`.
  unfoldable pub fetch : String → ℕ → List ℕ → Files → Bool × List ℕ
  fetch name off old fs = elim (fs name) [
    | none ↦ (false, old)
    | some buf ↦ if sys.writable name then (true, read_at off old buf) else (false, old)
  ]

  unfoldable pub read_file : String → List ℕ → ℕ → Files → Bool × List ℕ
  read_file name old obj_num fs = fetch name (obj_num * length old) old fs

  unfoldable pub read_status : List ℕ → ℕ → Files → Bool × List ℕ
  read_status old obj_num fs = fetch status_file ((obj_num * length old) % 65536) old fs

  unfoldable pub write_file : String → List ℕ → ℕ → Files → Bool × Files
  write_file name flg obj_num fs = patch name (obj_num * length flg) flg fs

  unfoldable pub write_status : List ℕ → ℕ → Files → Bool × Files
  write_status stat obj_num fs = patch status_file ((obj_num * length stat) % 65536) stat fs

  -- Its size is that of `function_reg_t`.
  unfoldable pub function_file_format : ℕ → Files → Bool × Files
  function_file_format size fs = patch function_file 0 (replicate (size * max_device) 0) fs

  -- A file that is opened with "w": it is there and empty.
  unfoldable pub emptied : String → List ℕ → Files → Bool × Files
  emptied name bytes fs = if sys.writable name then (true, set_file name bytes fs) else (false, fs)

  -- Its size is that of `home_status_t`.
  unfoldable pub status_file_format : ℕ → Files → Bool × Files
  status_file_format size fs = emptied status_file (replicate (size * max_function) 0) fs

  unfoldable pub file_empty : String → Files → Bool × Files
  file_empty name fs = if file_search name fs then emptied name [] fs else (false, fs)

  unfoldable pub file_create : String → ℕ → Files → Bool × Files
  file_create name size fs = emptied name (write_at size (replicate (size * max_device) 0) []) fs

  unfoldable pub file_control : String → Files → Bool × Files
  file_control name fs = if file_search name fs then (true, fs) else emptied name [] fs

  unfoldable pub write_log : String → List ℕ → Files → Files
  write_log name text fs =
      let old : List ℕ = elim (fs name) [ none ↦ [] | some buf ↦ buf ] in
      if sys.writable name then set_file name (old ++ text) fs else fs

  -- `init` after the file system is mounted, with the sizes of `home_status_t` and `function_reg_t`.
  unfoldable pub init : ℕ → ℕ → Files → Bool × Files
  init stat_size reg_size fs =
      let (ok1, f1) = file_control status_file fs in
      let f2 =
        if file_size status_file f1 == stat_size * max_function
        then f1
        else (status_file_format stat_size f1).1 in
      let (ok3, f3) = file_control function_file f2 in
      if not ok3
      then (false, f3)
      else if file_size function_file f3 == 0
      then (true, (function_file_format reg_size f3).1)
      else (true, f3)
