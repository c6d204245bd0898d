-- ===== src/Tests/Disk.antt =====
-- The theorems on the files of records, on a disk with one file of twelve bytes.
use n1cpu.Base.{
  ◌-◌, true, none, some, [], ◌∷◌, ◌++◌, replicate, length, ◌≡◌, refl, arith, if◌then◌else◌,
}
use text.Mathlib.Text.{◌==◌ as str_eq}
use n1cpu.Storage.{
  FileSystem, Files, write_file, read_file, init, status_file, function_file, file_search,
  file_size,
}
use n1cpu.Storage.Records.{read_file-write_file}
use n1cpu.Storage.Start.{init_lem}

abbrev disk : FileSystem
disk = record {
  writable = λ name. true;
  beyond = λ off bytes buf. buf ++ (replicate (off - length buf) 0 ++ bytes);
}

abbrev files : Files
files = λ name. if str_eq name "log" then some (replicate 12 1) else none

read_file-write_file_example :
    ((write_file disk "log" (5 ∷ 6 ∷ 7 ∷ []) 2 files).0 ≡ true)
    × (read_file disk "log" (0 ∷ 0 ∷ 0 ∷ []) 2 (write_file disk "log" (5 ∷ 6 ∷ 7 ∷ []) 2 files).1
        ≡ (true, 5 ∷ 6 ∷ 7 ∷ []))
read_file-write_file_example =
    read_file-write_file disk "log" (5 ∷ 6 ∷ 7 ∷ []) (0 ∷ 0 ∷ 0 ∷ []) 2 2 files (replicate 12 1)
      refl refl refl (ground arith)

init_lem_example :
    ((init disk 2 3 files).0 ≡ true)
    × ((init disk 2 3 files).1 status_file ≡ some (replicate 200 0))
    × ((init disk 2 3 files).1 function_file ≡ some (replicate 150 0))
unfolding file_search file_size
init_lem_example = init_lem disk refl refl 2 3 files (ground arith)
