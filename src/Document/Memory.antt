-- ===== src/Document/Memory.antt =====
-- Collections and files in memory, which show that the promises of the ports can be met; the examples
-- run on them.
use ops_nexus.Prelude.{
  none, some, true, false, ok, [], ◌∷◌, refl, arith, eq_iff, Option, String, Bool, List, Exec, ◌≡◌,
  ◌∙◌, sym, ◌≢◌, inl, inr, Bool-cases, Option-cases, if◌then◌else◌, ◌==◌,
}
use ops_nexus.Storage.{Fault}
use ops_nexus.Document.Ports.{Collection, FileSystem, Entries, Changed, Found, Holds, Bytes}

module _ {A : Type 0} (id_of : A → String) where
  abbrev pub with_id : List A → Entries A
  with_id [] i = []
  with_id (a ∷ s) i = let rest = with_id s i in if id_of a == i then a ∷ rest else rest

  abbrev pub first : List A → Option A
  first [] = none
  first (a ∷ s) = some a

  -- The first entry of the identifier is replaced, or removed; and whether there was one.
  abbrev pub change_first : String → (A → Option A) → List A → Bool × List A
  change_first i f [] = (false, [])
  change_first i f (a ∷ s) =
      let rest = change_first i f s in
      if id_of a == i
      then (true, elim (f a) as (λ o. List A) [ none ↦ s | some b ↦ b ∷ s ])
      else (rest.0, a ∷ rest.1)

  abbrev pub change : String → (A → Option A) → Exec Fault (List A) Bool
  change i f s = let (b, s') = change_first i f s in (ok b, s')

  pub with_id-Holds : (i : String) (s : List A) (a : A) → Holds a (with_id s i) → id_of a ≡ i
  with_id-Holds i [] a h = absurd h
  with_id-Holds i (b ∷ s) a h = elim (Bool-cases (id_of b == i)) [
    | inl p ↦ elim (rw p at h) [
      | inl q ↦ rw (sym q) ((eq_iff (id_of b) i).0 p)
      | inr k ↦ with_id-Holds i s a k
    ]
    | inr p ↦ with_id-Holds i s a (rw p at h)
  ]

  pub first-Found : (xs : List A) → Found xs (ok (first xs))
  first-Found [] = refl
  first-Found (x ∷ xs) = inl refl

  skipped :
      (a : A) (s : List A) (i j : String)
      → (id_of a == i) ≡ true
      → (i == j) ≡ false
      → with_id (a ∷ s) j ≡ with_id s j
  skipped a s i j p q = ground (arith, eq_iff (id_of a) i, eq_iff (id_of a) j, eq_iff i j)

  removed :
      (a : A) (s : List A) (i : String) (f : A → Option A)
      → (id_of a == i) ≡ true
      → f a ≡ none
      → Changed (with_id (a ∷ s)) (with_id s) i f (ok true)
  removed a s i f p q = ((λ j n. sym (skipped a s i j p n)), rw p (inl (rw q refl)))

  replaced :
      (a b : A) (s : List A) (i : String) (f : A → Option A)
      → (id_of a == i) ≡ true
      → (id_of b == i) ≡ true
      → f a ≡ some b
      → Changed (with_id (a ∷ s)) (with_id (b ∷ s)) i f (ok true)
  replaced a b s i f p p' q =
      ((λ j n. skipped b s i j p' n ∙ sym (skipped a s i j p n)), rw (p, p') (inl (rw q refl)))

  behind :
      (a : A) (s s' : List A) (i : String) (f : A → Option A) (b : Bool)
      → (id_of a == i) ≡ false
      → Changed (with_id s) (with_id s') i f (ok b)
      → Changed (with_id (a ∷ s)) (with_id (a ∷ s')) i f (ok b)
  behind a s s' i f true p (others, c) = ((λ j n. rw (others j n) refl), rw p c)
  behind a s s' i f false p (nothing, same) = (rw p nothing, λ j. rw (same j) refl)

  pub change_first-Changed :
      (i : String) (f : A → Option A) (s : List A)
      → ((a b : A) → id_of a ≡ i → f a ≡ some b → id_of b ≡ i)
      → Changed (with_id s) (with_id (change_first i f s).1) i f (ok (change_first i f s).0)
  change_first-Changed i f [] h = (refl, λ j. refl)
  change_first-Changed i f (a ∷ s) h = elim (Bool-cases (id_of a == i)) [
    | inl p ↦ elim (Option-cases (f a)) [
      | inl q ↦ rw (p, q) (removed a s i f p q)
      | inr (b, q) ↦
          rw (p, q)
            (replaced a b s i f p ((eq_iff (id_of b) i).1 (h a b ((eq_iff (id_of a) i).0 p) q)) q)
    ]
    | inr p ↦ rw p (
        behind a s (change_first i f s).1 i f (change_first i f s).0 p
          (change_first-Changed i f s h))
  ]

  some_injective : {a b : A} → ◌≡◌ {A = Option A} (some a) (some b) → a ≡ b
  some_injective e = cc

  pub update-Changed :
      (i : String) (f : A → A) (s : List A)
      → ((a : A) → id_of a ≡ i → id_of (f a) ≡ i)
      → Changed
          (with_id s)
          (with_id (change_first i (λ a. some (f a)) s).1)
          i
          (λ a. some (f a))
          (ok (change_first i (λ a. some (f a)) s).0)
  update-Changed i f s h =
      change_first-Changed i (λ a. some (f a)) s (λ a b p q. rw (sym (some_injective q)) (h a p))

  pub delete-Changed :
      (i : String) (s : List A)
      → Changed
          (with_id s)
          (with_id (change_first i (λ a. none) s).1)
          i
          (λ a. none)
          (ok (change_first i (λ a. none) s).0)
  delete-Changed i s = change_first-Changed i (λ a. none) s (λ a b p q. absurd (none-some q))
    where
      none-some : {b : A} → ◌≢◌ {A = Option A} none (some b)
      none-some e = cc

  abbrev pub memory_collection : Collection A id_of
  memory_collection = record {
    Store = List A;
    entries = with_id;
    insert_one = λ a s. (ok tt, a ∷ s);
    find_one = λ i s. ok (first (with_id s i));
    update_one = λ i f. change i (λ a. some (f a));
    delete_one = λ i. change i (λ a. none);
    count = λ p s. ok 0;
    page = λ p skip limit s. ok [];
    insert_inserted = λ a s j. refl;
    find_found = λ i s. first-Found (with_id s i);
    entries_id = with_id-Holds;
    update_changed = λ i f s h. update-Changed i f s h;
    delete_changed = λ i s. delete-Changed i s;
  }

abbrev pub file_at : List (String × Option Bytes) → String → Option Bytes
file_at [] q = none
file_at ((p, b) ∷ s) q = let rest = file_at s q in if p == q then b else rest

pub file_here :
    (p : String) (b : Option Bytes) (s : List (String × Option Bytes)) → file_at ((p, b) ∷ s) p ≡ b
file_here p b s = ground (arith, eq_iff p p)

abbrev pub memory_files : FileSystem
memory_files = record {
  Store = List (String × Option Bytes);
  files = file_at;
  make_all = λ p s. (ok tt, s);
  write = λ p b s. (ok tt, (p, some b) ∷ s);
  remove = λ p s. (ok tt, (p, none) ∷ s);
  make_same = λ p s q. refl;
  write_only = λ p b s q h. rw h refl;
  write_ok = λ p b s h. file_here p (some b) s;
  remove_only = λ p s q h. rw h refl;
  remove_ok = λ p s h. file_here p none s;
}
