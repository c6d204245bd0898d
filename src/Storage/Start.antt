-- ===== src/Storage/Start.antt =====
-- What the start of the program makes of the two files of records.
use n1cpu.Base.{
  ℕ, zero, suc, ◌+◌, ◌*◌, ◌<◌, true, false, not, ◌==◌, Option, none, some, List, [], ◌++◌, length,
  drop, replicate, ◌≡◌, refl, ap, ◌∙◌, arith, if◌then◌else◌, Option-cases, inl, inr, append-nil,
}
use n1cpu.Functions.{max_device}
use n1cpu.Storage.{
  Files, FileSystem, file_search, file_size, file_control, status_file_format, function_file_format,
  emptied, patch, write_at, init, status_file, function_file, max_function,
}

module _ (sys : FileSystem) (w : sys.writable status_file ≡ true)
    (v : sys.writable function_file ≡ true) where
  -- The two files after a step.
  abbrev both : Files → Option (List ℕ) × Option (List ℕ)
  both f = (f status_file, f function_file)

  status_lem :
      (size : ℕ) (fs : Files)
      → let f1 = (file_control sys status_file fs).1 in
        let f2 =
          if file_size status_file f1 == size * max_function
          then f1
          else (status_file_format sys size f1).1 in
        0 < size
        → both f2 ≡ (
          if file_size status_file fs == size * max_function
              then fs status_file
              else some (replicate (size * max_function) 0),
          fs function_file,
        )
  unfolding file_control file_search file_size status_file_format emptied
  status_lem size fs p = elim (Option-cases (fs status_file)) [
    | inl e ↦ ground (arith, e, w)
    | inr (buf, e) ↦ ground (arith, e, w)
  ]

  write_empty : (xs : List ℕ) → write_at sys 0 xs [] ≡ xs
  unfolding write_at
  write_empty xs = ap (λ q. xs ++ q) (drop_empty (0 + length xs)) ∙ append-nil xs
    where
      drop_empty : (m : ℕ) → drop {A = ℕ} m [] ≡ []
      drop_empty zero = refl
      drop_empty (suc m) = refl

  function_lem :
      (size : ℕ) (fs : Files)
      → let (ok, f3) = file_control sys function_file fs in
        let f4 =
          if file_size function_file f3 == 0 then (function_file_format sys size f3).1 else f3 in
        (ok ≡ true)
        × (both f4 ≡ (
          fs status_file,
          if file_search function_file fs
              then fs function_file
              else some (replicate (size * max_device) 0),
        ))
  unfolding file_control file_search file_size function_file_format emptied patch
  function_lem size fs = elim (Option-cases (fs function_file)) [
    | inl e ↦ ground (arith, e, v, write_empty (replicate (size * max_device) 0))
    | inr (buf, e) ↦ ground (arith, e, v, write_empty (replicate (size * max_device) 0))
  ]

  found_lem :
      (f g : Files)
      → f function_file ≡ g function_file
      → file_search function_file f ≡ file_search function_file g
  unfolding file_search
  found_lem f g e = ap (λ o. elim (o) [ none ↦ false | some buf ↦ not (length buf == 0) ]) e

  -- Where both files can be opened for writing, the start succeeds, whatever is on the disk. A file of statuses
  -- that has the length of 100 of them is kept, and any other becomes zeros of that length; a file of
  -- registrations that is there and not empty is kept, whatever its length, and else 50 empty ones are made.
  pub init_lem :
      (stat_size reg_size : ℕ) (fs : Files)
      → 0 < stat_size
      → let (ok, after) = init sys stat_size reg_size fs in
        (ok ≡ true)
        × (after status_file ≡ (
            if file_size status_file fs == stat_size * max_function
            then fs status_file
            else some (replicate (stat_size * max_function) 0)))
        × (after function_file ≡ (
            if file_search function_file fs
            then fs function_file
            else some (replicate (reg_size * max_device) 0)))
  unfolding init
  init_lem stat_size reg_size fs p =
      let f1 = (file_control sys status_file fs).1 in
      let f2 : Files =
        if file_size status_file f1 == stat_size * max_function
        then f1
        else (status_file_format sys stat_size f1).1 in
      let first = status_lem stat_size fs p in
      let (ok, later) = function_lem reg_size f2 in
      let there : file_search function_file f2 ≡ file_search function_file fs =
        found_lem f2 fs (ap (λ q. q.1) first) in
      (
        ground (arith, ok),
        ground (arith, ok, ap (λ q. q.0) later, ap (λ q. q.0) first),
        ground (arith, ok, ap (λ q. q.1) later, ap (λ q. q.1) first, there),
      )
