-- ===== src/Storage/Defs.antt =====
-- A table behind gorm and MySQL, and a repository over it, each as an interface: operations, and
-- what their documentation promises. Neither gorm nor MySQL is part of the repository.
use ops_nexus.Prelude.{
  String, ◌≡◌, ◌⊎◌, Option, some, none, Result, ok, err, Exec, ◌==◌, if◌then◌else◌,
}
use ops_nexus.Prelude.Time.{Time}

-- The content is the same before and after.
abbrev pub Same : {A : Type 0} → (String → Option A) → (String → Option A) → Type 0
Same before after = (j : String) → after j ≡ before j

-- The content differs at one key, where it is the given value.
abbrev pub Writes : {A : Type 0} → (String → Option A) → (String → Option A) → String → A → Type 0
Writes before after k a = (j : String) → after j ≡ (if k == j then some a else before j)

-- A write that succeeds has written; one that fails has written or changed nothing.
abbrev pub Written :
    {A E R : Type 0}
    → (String → Option A)
    → (String → Option A)
    → String
    → (Time → A)
    → Result E R
    → Type 0
Written before after k a (ok u) = (t : Time) × Writes before after k (a t)
Written before after k a (err e) = Same before after ⊎ ((t : Time) × Writes before after k (a t))

-- An insertion writes at a key that was free, or changes nothing.
abbrev pub Created :
    {A E R : Type 0} → (String → Option A) → (String → Option A) → String → A → Result E R → Type 0
Created before after k a (ok u) = (before k ≡ none) × Writes before after k a
Created before after k a (err e) = Same before after ⊎ ((before k ≡ none) × Writes before after k a)

-- What `First` gives: a row, `gorm.ErrRecordNotFound`, or another error.
pub data Fetch (A : Type 0) : Type 0 where
  found : A → Fetch A
  missing failed : Fetch A

abbrev pub Fetched : {A : Type 0} → Option A → Fetch A → Type 0
Fetched o (found a) = o ≡ some a
Fetched o missing = o ≡ none
Fetched o failed = Unit

-- The error of a statement, with no detail.
pub data Fault : Type 0 where
  fault : Fault

-- A table with a text as its primary key. `touch t r` is the row `r` with its `UpdatedAt` at `t`,
-- which `Save` sets by itself. Statements are atomic, and reads change no row. Keys are compared
-- as texts: the identifiers are UUIDs in lower case, which MySQL's collation does not confuse.
pub record Table (Row : Type 0) (key : Row → String) (touch : Time → Row → Row) : Type 1 where
  pub Store : Type 0
  pub rows : Store → String → Option Row
  pub first : String → Store → Fetch Row × Store
  pub create : Row → Exec Fault Store (Unit {0})
  pub save : Row → Exec Fault Store (Unit {0})
  pub rows_key : (k : String) (s : Store) (r : Row) → rows s k ≡ some r → key r ≡ k
  pub first_fetched : (k : String) (s : Store) → Fetched (rows s k) (first k s).0
  pub first_same : (k : String) (s : Store) → Same (rows s) (rows (first k s).1)
  pub create_created :
      (r : Row) (s : Store) → Created (rows s) (rows (create r s).1) (key r) r (create r s).0
  pub save_written :
      (r : Row) (s : Store)
      → Written (rows s) (rows (save r s).1) (key r) (λ t. touch t r) (save r s).0

-- A repository of entities with an identifier, as a service sees it: errors of `E`, of which
-- `not_found` is one. `kept a` is what the repository gives back of an entity `a` that it stored.
pub record Repository (E A : Type 0) (not_found : E) (key : A → String) (touch : Time → A → A)
    (kept : A → A) : Type 1 where
  pub Store : Type 0
  pub view : Store → String → Option A
  pub find : String → Exec E Store A
  pub create : A → Exec E Store (Unit {0})
  pub update : A → Exec E Store (Unit {0})
  pub view_key : (k : String) (s : Store) (a : A) → view s k ≡ some a → key a ≡ k
  pub find_ok : (k : String) (s : Store) (a : A) → (find k s).0 ≡ ok a → view s k ≡ some a
  pub find_none : (k : String) (s : Store) → (find k s).0 ≡ err not_found → view s k ≡ none
  pub find_same : (k : String) (s : Store) → Same (view s) (view (find k s).1)
  pub create_created :
      (a : A) (s : Store) → Created (view s) (view (create a s).1) (key a) (kept a) (create a s).0
  pub update_written :
      (a : A) (s : Store)
      → Written (view s) (view (update a s).1) (key a) (λ t. touch t (kept a)) (update a s).0

-- A repository that a service only adds to.
pub record Journal (E A : Type 0) (key : A → String) (kept : A → A) : Type 1 where
  pub Store : Type 0
  pub view : Store → String → Option A
  pub create : A → Exec E Store (Unit {0})
  pub create_created :
      (a : A) (s : Store) → Created (view s) (view (create a s).1) (key a) (kept a) (create a s).0
