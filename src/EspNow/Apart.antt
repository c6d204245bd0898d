-- ===== src/EspNow/Apart.antt =====
-- The messages of several senders at once, each put together as if it were alone.
use n1cpu.Base.{
  ℕ, ◌+◌, ◌≤◌, true, false, ◌&&◌, ◌==◌, Option, none, some, List, [], ◌∷◌, ◌++◌, ◌≡◌, ◌≢◌, refl, ap,
  sym, ◌∙◌, arith, if◌then◌else◌, Bool-cases, Option-cases, inl, inr, subst,
}
use n1cpu.EspNow.{
  sound, overruns, Data, Place, Radio, Delivered, has_place, at_place, place_of, claimed,
  findfreepk, filled, full, after, call, found, put_into, receive, run, is_normal,
}

-- How many places have the number.
unfoldable pub count : ℕ → List Place → ℕ
count id [] = 0
count id (s ∷ ss) = (if s.id == id then 1 else 0) + count id ss

-- No sender has two places.
unfoldable pub Unique : List Place → Type 0
unfolding count
Unique ss = (id : ℕ) → id ≢ 0 → count id ss ≤ 1

module _ (k n : ℕ) (g : Place → Place) (renames : (s : Place) → s.id ≡ k → (g s).id ≡ n) where
  count-at_place :
      (b : ℕ) (ss : List Place)
      → count b (at_place k g ss) + (if has_place k ss && b == k then 1 else 0)
        ≡ count b ss + (if has_place k ss && b == n then 1 else 0)
  unfolding count at_place has_place
  count-at_place b [] = refl
  count-at_place b (s ∷ ss) = ground (arith, renames s, count-at_place b ss)

  place_of_other :
      (b : ℕ) (ss : List Place) → b ≢ k → b ≢ n → place_of b (at_place k g ss) ≡ place_of b ss
  unfolding place_of at_place
  place_of_other b [] p q = refl
  place_of_other b (s ∷ ss) p q = ground (arith, renames s, place_of_other b ss p q)

  place_of_kept :
      (ss : List Place)
      → k ≡ n
      → place_of k (at_place k g ss) ≡ elim (place_of k ss) [ none ↦ none | some s ↦ some (g s) ]
  unfolding place_of at_place
  place_of_kept [] e = refl
  place_of_kept (s ∷ ss) e = ground (arith, renames s, place_of_kept ss e)

place_of-none : (b : ℕ) (ss : List Place) → count b ss ≡ 0 → place_of b ss ≡ none
unfolding count place_of
place_of-none b [] h = refl
place_of-none b (s ∷ ss) h = ground (arith, place_of-none b ss)

place_of-has_place :
    (b : ℕ) (ss : List Place) → has_place b ss ≡ false → (place_of b ss ≡ none) × (count b ss ≡ 0)
unfolding count place_of has_place
place_of-has_place b [] h = (refl, refl)
place_of-has_place b (s ∷ ss) h = ground (arith, place_of-has_place b ss)

-- A claimed place is the one that is found, if the sender had none.
place_of-claimed :
    (b tlen : ℕ) (ss : List Place)
    → b ≢ 0
    → has_place 0 ss ≡ true
    → has_place b ss ≡ false
    → place_of b (at_place 0 (λ s. claimed b tlen) ss) ≡ some (claimed b tlen)
unfolding place_of at_place has_place
place_of-claimed b tlen [] z h f = ground arith
place_of-claimed b tlen (s ∷ ss) z h f = ground (arith, place_of-claimed b tlen ss z)

-- The place of the packet's sender before the packet is put into it.
abbrev pub place_for : Data → Option Place → Place
place_for p none = claimed p.sender p.total_len
place_for p (some s) = s

-- The sender's place after the packet, as if no other sender were there.
abbrev pub alone : Data → Option Place → Option Place
alone p o = if full p then none else some (filled p (place_for p o))

-- The places `new` hold for each sender what `old` do, but for the sender of `p` the place `o`.
record Changed (p : Data) (old : List Place) (o : Option Place) (new : List Place) : Type 0 where
  its_place : place_of p.sender new ≡ o
  others : (b : ℕ) → b ≢ 0 → b ≢ p.sender → place_of b new ≡ place_of b old
  unique : Unique new

place_of-id : (b : ℕ) (ss : List Place) (s : Place) → place_of b ss ≡ some s → s.id ≡ b
unfolding place_of
place_of-id b [] s h = ground arith
place_of-id b (t ∷ ss) s h = ground (arith, place_of-id b ss s)

has_place-some :
    (b : ℕ) (ss : List Place) → has_place b ss ≡ true → (s : Place) × (place_of b ss ≡ some s)
unfolding place_of has_place
has_place-some b [] h = ground arith
has_place-some b (t ∷ ss) h = elim (Bool-cases (t.id == b)) [
  | inl e ↦ (t, ground arith)
  | inr e ↦ let (s, f) = has_place-some b ss (ground arith) in (s, ground (arith, f))
]

found_lem :
    (p : Data) (ss new : List Place)
    → p.sender ≢ 0
    → Unique ss
    → found p ss ≡ some new
    → Changed p ss (some (place_for p (place_of p.sender ss))) new
unfolding findfreepk Unique
found_lem p ss new z u h = elim (Bool-cases (has_place p.sender ss)) [
  | inl e ↦
      let (s, f) = has_place-some p.sender ss e in
      let same : ss ≡ new = ground arith in
      record {
        its_place = ground (arith, f, same);
        others = λ b y n. ap (place_of b) (sym same);
        unique = λ b y. ground (arith, u b y, same);
      }
  | inr e ↦ elim (Bool-cases (has_place 0 ss)) [
    | inl f ↦
        let g = λ (s : Place). claimed p.sender p.total_len in
        let same : at_place 0 g ss ≡ new = ground arith in
        let none_yet = place_of-has_place p.sender ss e in
        record {
          its_place =
              ap (place_of p.sender) (sym same)
              ∙ (place_of-claimed p.sender p.total_len ss z f e
                  ∙ ap (λ o. some (place_for p o)) (sym none_yet.0));
          others = λ b y n.
              ap (place_of b) (sym same) ∙ place_of_other 0 p.sender g (λ s q. refl) b ss y n;
          unique = λ b y. ground (
            arith,
            u b y,
            ap (count b) same,
            none_yet.1,
            count-at_place 0 p.sender g (λ s q. refl) b ss,
          );
        }
    | inr f ↦ absurd (ground arith)
  ]
]

held_lem : (b : ℕ) (ss : List Place) (s : Place) → place_of b ss ≡ some s → has_place b ss ≡ true
unfolding place_of has_place
held_lem b [] s h = ground arith
held_lem b (t ∷ ss) s h = ground (arith, held_lem b ss s)

put_lem :
    (p : Data) (ss new : List Place) (o : Option Place)
    → p.sender ≢ 0
    → Changed p ss (some (place_for p o)) new
    → Changed p ss (alone p o) (at_place p.sender (after p) new)
unfolding Unique
put_lem p ss new o z c = elim (Bool-cases (full p)) [
  | inl f ↦
      let renames : (s : Place) → s.id ≡ p.sender → (after p s).id ≡ 0 = λ s q. ground arith in
      let counts = λ (b : ℕ). count-at_place p.sender 0 (after p) renames b new in
      let held : has_place p.sender new ≡ true =
        held_lem p.sender new (place_for p o) c.its_place in
      let gone : count p.sender (at_place p.sender (after p) new) ≡ 0 =
        ground (arith, counts p.sender, c.unique p.sender z) in
      record {
        its_place = ground (arith, place_of-none p.sender (at_place p.sender (after p) new) gone);
        others = λ b y n. place_of_other p.sender 0 (after p) renames b new n y ∙ c.others b y n;
        unique = λ b y. ground (arith, counts b, c.unique b y);
      }
  | inr f ↦
      let held = place_of-id p.sender new (place_for p o) c.its_place in
      let renames : (s : Place) → s.id ≡ p.sender → (after p s).id ≡ p.sender =
        λ s q. ground arith in
      record {
        its_place =
            ground (arith, place_of_kept p.sender p.sender (after p) renames new refl, c.its_place);
        others =
            λ b y n. place_of_other p.sender p.sender (after p) renames b new n n ∙ c.others b y n;
        unique = λ b y.
            ground (arith, count-at_place p.sender p.sender (after p) renames b new, c.unique b y);
      }
]

-- The calls for the sender `b`.
abbrev pub of_sender : ℕ → List Delivered → List Delivered
of_sender b [] = []
of_sender b (d ∷ ds) = if d.from == b then d ∷ of_sender b ds else of_sender b ds

-- The calls for the packets of the sender `b` alone, newest first, after those of `log`.
abbrev pub heard_from : ℕ → List Data → Option Place → List Delivered → List Delivered
heard_from b [] o log = log
heard_from b (p ∷ ps) o log =
    let mine = heard_from b ps (alone p o) (call p (some (place_for p o)) ++ log) in
    let other = heard_from b ps o log in if is_normal p.type && p.sender == b then mine else other

-- Every packet has a sender's number.
abbrev pub Numbered : List Data → Type 0
Numbered [] = true ≡ true
Numbered (p ∷ ps) = (p.sender ≢ 0) × Numbered ps

run-sound : (ps : List Data) (r : Radio) → sound r ≡ false → sound (run ps r) ≡ false
unfolding run receive
run-sound [] r h = h
run-sound (p ∷ ps) r h = ground (arith, run-sound ps r h)

ended_keeps : (ps : List Data) (r : Radio) → sound r ≡ false → run ps r ≡ r
unfolding run receive
ended_keeps [] r h = refl
ended_keeps (p ∷ ps) r h = ground (arith, ended_keeps ps r h)

of_sender-call :
    (b : ℕ) (p : Data) (o : Option Place) (log : List Delivered)
    → of_sender b (call p o ++ log)
      ≡ (if p.sender == b then call p o ++ of_sender b log else of_sender b log)
of_sender-call b p none log = ground arith
of_sender-call b p (some s) log = ground arith

-- What a normal packet does, if the task goes on after it.
record Step (p : Data) (r : Radio) (new : Radio) : Type 0 where
  places : Changed p r.paket (alone p (place_of p.sender r.paket)) new.paket
  calls : new.delivered ≡ call p (some (place_for p (place_of p.sender r.paket))) ++ r.delivered

receive_lem :
    (p : Data) (r : Radio)
    → p.sender ≢ 0
    → Unique r.paket
    → sound r ≡ true
    → is_normal p.type ≡ true
    → sound (receive p r) ≡ true
    → Step p r (receive p r)
unfolding receive put_into
receive_lem p r z u e n go = elim (Option-cases (found p r.paket)) [
  | inl f ↦ absurd (ground (arith, f))
  | inr (new, f) ↦
      let o = place_of p.sender r.paket in
      let c = found_lem p r.paket new z u f in
      let fits : overruns p (place_of p.sender new) ≡ false = ground (arith, f) in
      let next : Radio = record r {
        paket = at_place p.sender (after p) new;
        delivered = call p (place_of p.sender new) ++ r.delivered;
      } in
      let same : next ≡ receive p r = ground (arith, f, fits) in
      let step : Step p r next = record {
        places = put_lem p r.paket new o z c;
        calls = ap (λ q. call p q ++ r.delivered) c.its_place;
      } in
      subst (Step p r) same step
]

-- The task that receives puts the packets of several senders into their places, and while it runs and copies
-- none outside its buffer, every sender's messages are delivered as if only that sender's packets had come.
pub run_apart :
    (b : ℕ) (ps : List Data) (r : Radio)
    → b ≢ 0
    → Numbered ps
    → Unique r.paket
    → sound (run ps r) ≡ true
    → of_sender b (run ps r).delivered
      ≡ heard_from b ps (place_of b r.paket) (of_sender b r.delivered)
unfolding run receive
run_apart b [] r y num u go = refl
run_apart b (p ∷ ps) r y (z, num) u go = elim (Bool-cases (sound r)) [
  | inr e ↦ absurd (ground (arith, run-sound (p ∷ ps) r e))
  | inl e ↦ elim (Bool-cases (is_normal p.type)) [
    | inr n ↦ ground (arith, run_apart b ps r y num u)
    | inl n ↦
        let next = receive p r in
        let runs : sound next ≡ true = ground (arith, run-sound ps next) in
        let step = receive_lem p r z u e n runs in
        let rest = run_apart b ps next y num step.places.unique go in
        let o = place_of p.sender r.paket in
        let said =
          ap (of_sender b) step.calls ∙ of_sender-call b p (some (place_for p o)) r.delivered in
        elim (Bool-cases (p.sender == b)) [
          | inl q ↦ ground (arith, rest, said, step.places.its_place)
          | inr q ↦ ground (arith, rest, said, step.places.others b y)
        ]
  ]
]

-- The task ends at a normal packet of a sender without a place when no place is free, and no call is made
-- for any packet after it.
pub run_full :
    (p : Data) (ps : List Data) (r : Radio)
    → is_normal p.type ≡ true
    → has_place p.sender r.paket ≡ false
    → has_place 0 r.paket ≡ false
    → (run (p ∷ ps) r).delivered ≡ r.delivered
unfolding run receive put_into findfreepk
run_full p ps r n h f = elim (Bool-cases (sound r)) [
  | inl e ↦ ground (arith, e, ended_keeps ps (record r { ended = true }) refl)
  | inr e ↦ ap (λ (q : Radio). q.delivered) (ended_keeps (p ∷ ps) r e)
]
