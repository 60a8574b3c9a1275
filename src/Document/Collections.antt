-- ===== src/Document/Collections.antt =====
-- What the promises of a MongoDB collection say of an identifier with one entry or none.
use ops_nexus.Prelude.{
  none, some, true, false, [], ◌∷◌, refl, arith, eq_iff, String, List, Bool, Result, ok, err, inl,
  inr, ◌≡◌, ◌⊎◌, ◌∙◌, subst, ap, relabel, ◌==◌,
}
use ops_nexus.Storage.{Fault}
use ops_nexus.Document.Domain.{Error, internal}
use ops_nexus.Document.Ports.{Inserted, Changed, OneChanged, Entries}

self_test : (t : String) → (t == t) ≡ true
self_test t = ground (arith, eq_iff t t)

ok_of : {A : Type 0} → A → Result Error A → A
ok_of a (ok b) = b
ok_of a (err e) = a

pub ok_injective : {A : Type 0} {a b : A} → ◌≡◌ {A = Result Error A} (ok a) (ok b) → a ≡ b
unfolding ok_of
ok_injective {A} {a} e = ap (ok_of a) e

module _ {A : Type 0} where
  -- What is inserted stands with its identifier.
  pub Inserted-there :
      (before after : Entries A) (i : String) (a : A) (r : Result Fault (Unit {0}))
      → Inserted before after i a r
      → relabel {F = Error} (λ x. internal) r ≡ ok tt
      → after i ≡ a ∷ before i
  Inserted-there before after i a (ok u) h q = h i ∙ rw (self_test i) refl
  Inserted-there before after i a (err x) h q = cc

  -- The one entry of an identifier is changed, or not where the call fails.
  pub Changed-one :
      (before after : Entries A) (i : String) (f : A → A) (x : A) (r : Result Fault Bool)
      → Changed before after i (λ a. some (f a)) r
      → before i ≡ x ∷ []
      → (y : A) × (after i ≡ y ∷ []) × ((y ≡ x) ⊎ (y ≡ f x))
  Changed-one before after i f x r h e = go r h
    where
      one :
          (xs ys : List A)
          → xs ≡ x ∷ []
          → OneChanged (λ a. some (f a)) xs ys
          → (y : A) × (ys ≡ y ∷ []) × ((y ≡ x) ⊎ (y ≡ f x))
      one xs ys p c = split ys (subst (λ zs. OneChanged (λ a. some (f a)) zs ys) p c)
        where
          split :
              (ys : List A)
              → OneChanged (λ a. some (f a)) (x ∷ []) ys
              → (y : A) × (ys ≡ y ∷ []) × ((y ≡ x) ⊎ (y ≡ f x))
          split ys (inl p) = (f x, p, inr refl)
          split ys (inr (zs, p, c)) = absurd c

      go :
          (r : Result Fault Bool)
          → Changed before after i (λ a. some (f a)) r
          → (y : A) × (after i ≡ y ∷ []) × ((y ≡ x) ⊎ (y ≡ f x))
      go (ok false) (nothing, same) = (x, same i ∙ e, inl refl)
      go (ok true) (others, c) = one (before i) (after i) e c
      go (err z) (inl same) = (x, same i ∙ e, inl refl)
      go (err z) (inr (others, c)) = one (before i) (after i) e c

  -- The one entry of an identifier is gone after a removal that says so.
  pub Changed-none :
      (before after : Entries A) (i : String) (x : A)
      → Changed before after i (λ a. none) (ok true)
      → before i ≡ x ∷ []
      → after i ≡ []
  Changed-none before after i x (others, c) e =
      split (after i) (subst (λ zs. OneChanged (λ a. none) zs (after i)) e c)
    where
      split : (ys : List A) → OneChanged (λ a. none) (x ∷ []) ys → ys ≡ []
      split ys (inl p) = p
      split ys (inr (zs, p, c)) = absurd c
