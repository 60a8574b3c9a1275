-- ===== src/Storage/Writes.antt =====
-- What a write shows at its own key and at others.
use ops_nexus.Storage.{Repository}
use ops_nexus.Prelude.Time.{Time}
use ops_nexus.Prelude.{
  true, false, String, ◌≡◌, ◌≢◌, refl, ◌∙◌, ◌⊎◌, inl, inr, Option, some, none, Result, ok, err,
  ◌==◌, eq_iff, Bool, if◌then◌else◌, subst,
}
use ops_nexus.Storage.Defs.{Same, Writes, Written, Created, Repository}

module _ {A : Type 0} (before after : String → Option A) (k : String) where
  pub Writes-self : (a : A) → Writes before after k a → after k ≡ some a
  Writes-self a w = w k ∙ rw ((eq_iff k k).1 refl)

  pub Writes-other : (a : A) → Writes before after k a → (j : String) → k ≢ j → after j ≡ before j
  Writes-other a w j ne = w j ∙ other (k == j) refl
    where
      other : (b : Bool) → (k == j) ≡ b → (if b then some a else before j) ≡ before j
      other true e = absurd (ne ((eq_iff k j).0 e))
      other false e = refl

  -- A successful write is there.
  pub Written-ok :
      {E R : Type 0} (a : Time → A) (r : Result E R) {u : R}
      → r ≡ ok u
      → Written before after k a r
      → (t : Time) × (after k ≡ some (a t))
  Written-ok a (ok u) e (t, w) = (t, Writes-self (a t) w)
  Written-ok a (err x) e w = cc

  -- A successful insertion found its key free, and is there.
  pub Created-ok :
      {E R : Type 0} (a : A) (r : Result E R) {u : R}
      → r ≡ ok u
      → Created before after k a r
      → (before k ≡ none) × (after k ≡ some a)
  Created-ok a (ok u) e (free, w) = (free, Writes-self a w)
  Created-ok a (err x) e w = cc

  -- An insertion is there, or has changed nothing.
  pub Created-or_Same :
      {E R : Type 0} (a : A) (r : Result E R)
      → Created before after k a r
      → (after k ≡ some a) ⊎ Same before after
  Created-or_Same a (ok u) (free, w) = inl (Writes-self a w)
  Created-or_Same a (err e) (inl same) = inr same
  Created-or_Same a (err e) (inr (free, w)) = inl (Writes-self a w)

module _ {E A : Type 0} {not_found : E} {key : A → String} {touch : Time → A → A} {kept : A → A}
    (R : Repository E A not_found key touch kept) where
  -- A successful `Update` is there, under the time stamp of the save.
  pub update_ok :
      (a : A) (s : R.Store) (k : String) {u : Unit {0}}
      → key a ≡ k
      → (R.update a s).0 ≡ ok u
      → (t : Time) × (R.view (R.update a s).1 k ≡ some (touch t (kept a)))
  update_ok a s k same e =
      subst (λ j. (t : Time) × (R.view (R.update a s).1 j ≡ some (touch t (kept a)))) same
        (Written-ok (R.view s) (R.view (R.update a s).1) (key a) (λ t. touch t (kept a))
          (R.update a s).0 e (R.update_written a s))

  -- A successful `Create` found its key free, and is there.
  pub create_ok :
      (a : A) (s : R.Store) {u : Unit {0}}
      → (R.create a s).0 ≡ ok u
      → (R.view s (key a) ≡ none) × (R.view (R.create a s).1 (key a) ≡ some (kept a))
  create_ok a s e =
      Created-ok (R.view s) (R.view (R.create a s).1) (key a) (kept a) (R.create a s).0 e
        (R.create_created a s)
