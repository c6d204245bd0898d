-- ===== src/Functions/Restart.antt =====
-- The table before and after a restart.
use n1cpu.Core.{tr_local}
use n1cpu.Base.{
  String, ◌&&◌, ◌==◌, ◌≢◌, if◌then◌else◌, subst, ◌%◌, ℕ, zero, suc, ◌+◌, ◌-◌, ◌≤◌, ◌<◌, Bool, true,
  false, none, some, List, [], ◌∷◌, ◌≡◌, refl, sym, ap, ◌∙◌, arith, length, Bool-cases, inl, inr,
}
use n1cpu.Functions.{
  fits, Entry, FunctionReg, Table, Functions, Request, Config, nothing, is_class, blank,
  add_function, as_remote, find_register, function_find, write_record, reg_of,
  functions_remote_register, register_new, function_remote_re_register, re_register_new,
  read_functions, re_register_all, max_device, restart,
}

module _ (strlen : String → ℕ) where
  abbrev File : Type 0
  File = ℕ → FunctionReg

  re_register_all_agree :
      (n : ℕ) (file file' : File) (t : Table)
      → ((i : ℕ) → i < n → file i ≡ file' i)
      → re_register_all strlen n file t ≡ re_register_all strlen n file' t
  unfolding re_register_all
  re_register_all_agree zero file file' t h = refl
  re_register_all_agree (suc n) file file' t h = ground (
    arith,
    h n (omega arith),
    re_register_all_agree n file file' t (λ (i : ℕ) (l : i < n). h i (omega arith)),
  )

  re_register_all_rest :
      (k n : ℕ) (file : File) (t : Table)
      → ((i : ℕ) → n ≤ i → (file i).device_id ≡ 0)
      → re_register_all strlen (k + n) file t ≡ re_register_all strlen n file t
  unfolding re_register_all
  re_register_all_rest zero n file t h = ap (λ m. re_register_all strlen m file t) (omega arith)
  re_register_all_rest (suc k) n file t h =
      let e : suc k + n ≡ suc (k + n) = omega arith in
      ap (λ m. re_register_all strlen m file t) e
      ∙ ground (arith, h (k + n) (omega arith), re_register_all_rest k n file t h)

  re_register_all_step :
      (n : ℕ) (file : File) (t t' : Table)
      → re_register_all strlen n file t ≡ t'
      → 0 < (file n).device_id
      → re_register_all strlen (suc n) file t ≡ function_remote_re_register strlen (file n) t'
  unfolding re_register_all
  re_register_all_step n file t t' h l = ground (arith, h)

  -- The records up to the last number bring back the table from the configuration, and there are no
  -- others.
  pub record IsKept (cs : List Config) (s : Functions) : Type 0 where
    pub same :
        re_register_all strlen (suc s.counter) s.file (read_functions strlen cs nothing) ≡ s.table
    pub rest : (i : ℕ) → s.counter < i → (s.file i).device_id ≡ 0

  module _ (r : Request) (s : Functions) where
    -- The new function.
    abbrev added : Table × Bool
    added = add_function strlen r.name r.auname r.loc (as_remote r.sender r.rid r.yer) s.table

    abbrev saved : Functions
    saved = record {
      table = added.0;
      file = write_record (suc s.counter) (reg_of r (suc s.counter)) s.file;
    }

    register_first :
        s.counter < 255
        → find_register r.sender r.rid s.functions ≡ none
        → is_class r.name ≡ true
        → (functions_remote_register strlen r s ≡ (saved, suc s.counter))
          × (saved.counter ≡ suc s.counter)
    unfolding functions_remote_register register_new add_function
    register_first l n c =
        let e : (s.counter + 1) % 256 ≡ suc s.counter = omega arith in ground (arith, e)

    register_unknown :
        find_register r.sender r.rid s.functions ≡ none
        → is_class r.name ≡ false
        → functions_remote_register strlen r s ≡ (s, 255)
    unfolding functions_remote_register register_new add_function
    register_unknown n c = ground arith

    re_register_saved :
        find_register r.sender r.rid s.functions ≡ none
        → function_remote_re_register strlen (reg_of r (suc s.counter)) s.table ≡ added.0
    unfolding function_remote_re_register re_register_new
    re_register_saved n = ground arith

  module _ (cs : List Config) (r : Request) (s : Functions) where
    saved-IsKept :
        find_register r.sender r.rid s.functions ≡ none
        → (saved r s).counter ≡ suc s.counter
        → IsKept cs s
        → IsKept cs (saved r s)
    saved-IsKept n e k =
        let file = (saved r s).file in
        let t = read_functions strlen cs nothing in
        let agree : re_register_all strlen (suc s.counter) s.file t
            ≡ re_register_all strlen (suc s.counter) file t =
          re_register_all_agree (suc s.counter) s.file file t (λ i l. ground arith) in
        let here : file (suc s.counter) ≡ reg_of r (suc s.counter) = ground arith in
        record {
          same =
              ap (λ n. re_register_all strlen (suc n) file t) e
              ∙ re_register_all_step (suc s.counter) file t s.table (sym agree ∙ k.same)
                  (ground arith)
              ∙ ap (λ q. function_remote_re_register strlen q s.table) here
              ∙ re_register_saved r s n;
          rest = λ i l. ground (arith, k.rest i (omega (arith, e)));
        }

    register-IsKept :
        s.counter < 255
        → find_register r.sender r.rid s.functions ≡ none
        → IsKept cs s
        → IsKept cs (functions_remote_register strlen r s).0
          × ((functions_remote_register strlen r s).0.counter ≤ suc s.counter)
    register-IsKept l n k = elim (Bool-cases (is_class r.name)) [
      | inl c ↦
          let (e, g) = register_first r s l n c in
          let step = ap (λ (p : Functions × ℕ). p.0) e in
          (
            subst (IsKept cs) (sym step) (saved-IsKept n g k),
            omega (arith, ap (λ (q : Functions). q.counter) step, g),
          )
      | inr c ↦
          let step = ap (λ (p : Functions × ℕ). p.0) (register_unknown r s n c) in
          (subst (IsKept cs) (sym step) k, omega (arith, ap (λ (q : Functions). q.counter) step))
    ]

  pub registers : List Request → Functions → Functions
  registers [] s = s
  registers (r ∷ rs) s = registers rs (functions_remote_register strlen r s).0

  -- No request asks for a function that the table has already.
  abbrev AllNew : List Request → Functions → Type 0
  AllNew [] s = Unit {0}
  AllNew (r ∷ rs) s =
      (find_register r.sender r.rid s.functions ≡ none)
      × AllNew rs (functions_remote_register strlen r s).0

  registers-IsKept :
      (cs : List Config) (rs : List Request) (s : Functions)
      → AllNew rs s
      → s.counter + length rs < 255
      → IsKept cs s
      → IsKept cs (registers rs s) × ((registers rs s).counter ≤ s.counter + length rs)
  unfolding registers
  registers-IsKept cs [] s a l k = (k, omega arith)
  registers-IsKept cs (r ∷ rs) s a l k =
      let (k', b) = register-IsKept cs r s (omega arith) a.0 k in
      let (k'', c) =
        registers-IsKept cs rs (functions_remote_register strlen r s).0 a.1 (omega arith) k' in
      (k'', omega arith)

  IsKept-restart :
      (start_value : ℕ) (cs : List Config) (s : Functions)
      → start_value ≢ 3
      → IsKept cs s
      → s.counter < max_device
      → restart strlen start_value cs s.file ≡ s.table
  unfolding restart
  IsKept-restart start_value cs s v k l =
      let read : (start_value == 3) ≡ false = ground arith in
      let t = read_functions strlen cs nothing in
      let e : max_device ≡ (49 - s.counter) + suc s.counter = omega arith in
      ap (λ (q : Bool). if q then t else re_register_all strlen max_device s.file t) read
      ∙ ap (λ n. re_register_all strlen n s.file t) e
      ∙ re_register_all_rest (49 - s.counter) (suc s.counter) s.file t
          (λ i m. k.rest i (omega arith))
      ∙ k.same

  -- The device after its first start, with an empty file.
  abbrev pub started : List Config → File → Functions
  started cs file = record { table = read_functions strlen cs nothing; file = file }

  started-IsKept :
      (cs : List Config) (file : File)
      → ((i : ℕ) → (file i).device_id ≡ 0)
      → IsKept cs (started cs file)
  unfolding re_register_all
  started-IsKept cs file h =
      let t = read_functions strlen cs nothing in
      let e : suc t.counter ≡ suc t.counter + 0 = omega arith in
      record {
        same =
            ap (λ n. re_register_all strlen n file t) e
            ∙ re_register_all_rest (suc t.counter) 0 file t (λ i m. h i);
        rest = λ i l. h i;
      }

  -- The texts of the configuration, and of requests, fit into their fields.
  abbrev pub configs_fit : List Config → Bool
  configs_fit [] = true
  configs_fit (c ∷ cs) = fits strlen c.uname && configs_fit cs

  abbrev pub requests_fit : List Request → Bool
  requests_fit [] = true
  requests_fit (r ∷ rs) = fits strlen r.auname && requests_fit rs

  read_functions-overrun :
      (cs : List Config) (t : Table)
      → configs_fit cs ≡ true
      → t.overrun ≡ false
      → (read_functions strlen cs t).overrun ≡ false
  unfolding read_functions add_function
  read_functions-overrun [] t f h = h
  read_functions-overrun (c ∷ cs) t f h =
      let set =
        λ (e : Entry). record e { timer = c.timer; global = c.global; location = tr_local } in
      let t' = (add_function strlen c.name c.uname c.loc set t).0 in
      read_functions-overrun cs t' (ground arith) (ground arith)

  register-overrun :
      (r : Request) (s : Functions)
      → find_register r.sender r.rid s.functions ≡ none
      → fits strlen r.auname ≡ true
      → (functions_remote_register strlen r s).0.overrun ≡ s.overrun
  unfolding functions_remote_register register_new add_function
  register-overrun r s n f = ground arith

  registers-overrun :
      (rs : List Request) (s : Functions)
      → AllNew rs s
      → requests_fit rs ≡ true
      → (registers rs s).overrun ≡ s.overrun
  unfolding registers
  registers-overrun [] s a f = refl
  registers-overrun (r ∷ rs) s a f =
      registers-overrun rs (functions_remote_register strlen r s).0 a.1 (ground arith)
      ∙ register-overrun r s a.0 (ground arith)

  -- On a device that starts with an empty file, after requests to register functions of other devices,
  -- none of which it has at the time, with fewer than fifty functions in all, and with texts that fit into their
  -- fields of 20 bytes, no text has been copied past its field, and a restart, unless the device was refreshed
  -- (`start_value` 3), brings back exactly the functions that there were, with their numbers, in the same order.
  pub restart_restores :
      (start_value : ℕ) (cs : List Config) (file : File) (rs : List Request)
      → start_value ≢ 3
      → ((i : ℕ) → (file i).device_id ≡ 0)
      → AllNew rs (started cs file)
      → (started cs file).counter + length rs < max_device
      → configs_fit cs ≡ true
      → requests_fit rs ≡ true
      → let s = registers rs (started cs file) in
        (restart strlen start_value cs s.file ≡ s.table) × (s.overrun ≡ false)
  restart_restores start_value cs file rs v h a l f g =
      let (k, b) =
        registers-IsKept cs rs (started cs file) a (omega arith) (started-IsKept cs file h) in
      (
        IsKept-restart start_value cs (registers rs (started cs file)) v k (omega arith),
        registers-overrun rs (started cs file) a g ∙ read_functions-overrun cs nothing f refl,
      )

  -- The function is in the table under the number that was reported, but the file ends before it.
  abbrev pub IsLost : ℕ → List Config → Request → Functions → Functions × ℕ → Type 0
  IsLost start_value cs r s p =
      (p.1 ≡ suc s.counter)
      × ((f : Entry) × (function_find p.1 p.0.functions ≡ some f) × (f.register_id ≡ r.rid))
      × (restart strlen start_value cs p.0.file ≡ restart strlen start_value cs s.file)
      × (p.0.overrun ≡ s.overrun)

  find-saved :
      (r : Request) (s : Functions)
      → is_class r.name ≡ true
      → s.counter < 255
      → (f : Entry) × (function_find (suc s.counter) (saved r s).functions ≡ some f)
        × (f.register_id ≡ r.rid)
  unfolding add_function function_find
  find-saved r s c l =
      let e : (s.counter + 1) % 256 ≡ suc s.counter = omega arith in
      let f = as_remote r.sender r.rid r.yer (blank r.name r.auname (suc s.counter) r.loc) in
      (f, ground (arith, e), refl)

  -- A function of a known class, with a text that fits into its field of 20 bytes, that is registered when there
  -- are 49 functions or more, and fewer than 255, gets the next number and is found under it, and a restart, with
  -- any `start_value`, brings back what it would without that function.
  pub register-IsLost :
      (start_value : ℕ) (cs : List Config) (r : Request) (s : Functions)
      → find_register r.sender r.rid s.functions ≡ none
      → is_class r.name ≡ true
      → fits strlen r.auname ≡ true
      → 49 ≤ s.counter
      → s.counter < 255
      → IsLost start_value cs r s (functions_remote_register strlen r s)
  unfolding restart
  register-IsLost start_value cs r s n c f m l =
      let (e, g) = register_first r s l n c in
      let t = read_functions strlen cs nothing in
      let kept = ap (λ (q : Functions × ℕ). q.0.overrun) (sym e) ∙ register-overrun r s n f in
      subst (IsLost start_value cs r s) (sym e) (
        refl,
        find-saved r s c l,
        ap (λ (q : Table). if start_value == 3 then t else q)
            (re_register_all_agree max_device (saved r s).file s.file t (λ i b. ground arith)),
        kept,
      )
