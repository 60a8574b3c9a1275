-- ===== src/Prelude/Calls.antt =====
-- Calls that may fail and that change a state. What was written before an error stays written,
-- so the state comes back beside the error too.

use mathlib.Core.Logic.{◌⊎◌, inl, inr}
use mathlib.Core.Path.{◌≡◌, refl}
use mathlib.Core.Bool.{Bool, true, false}

pub data Result {ℓ κ} (E : Type ℓ) (A : Type κ) : Type (ℓ ⊔ κ) where
  ok : A → Result E A
  err : E → Result E A

abbrev pub Exec : Type 0 → Type 0 → Type 0 → Type 0
Exec E S A = S → Result E A × S

abbrev pub continue : {E S A B : Type 0} → Result E A → (A → Exec E S B) → Exec E S B
continue (ok a) f s = f a s
continue (err e) f s = (err e, s)

infixl 5 ◌>>=◌ ◌>>◌
unfoldable pub ◌>>=◌ : {E S A B : Type 0} → Exec E S A → (A → Exec E S B) → Exec E S B
◌>>=◌ m f s = let (r, s') = m s in continue r f s'

abbrev pub ◌>>◌ : {E S A B : Type 0} → Exec E S A → Exec E S B → Exec E S B
m >> k = m >>= λ _. k

abbrev pub pure : {E S A : Type 0} → A → Exec E S A
pure a s = (ok a, s)

abbrev pub fail : {E S A : Type 0} → E → Exec E S A
fail e s = (err e, s)

-- `if test { return nil, err }`
abbrev pub refuse_if : {E S : Type 0} → Bool → E → Exec E S (Unit {0})
refuse_if b e s = (elim b [ true ↦ err e | false ↦ ok tt ], s)

-- `if err := …; err != nil { … }` where the code goes on whatever the error is
abbrev pub attempt : {E S A : Type 0} → Exec E S A → Exec E S (Result E A)
attempt m s = let (r, s') = m s in (ok r, s')

-- The error of a call replaced by another one.
abbrev pub relabel : {E F A : Type 0} → (E → F) → Result E A → Result F A
relabel f (ok a) = ok a
relabel f (err e) = err (f e)

abbrev pub map_err : {E F S A : Type 0} → (E → F) → Exec E S A → Exec F S A
map_err f m s = let (r, s') = m s in (relabel f r, s')

-- Inversion of a chain that succeeds: the first call did, and the chain is the rest of it.
pub bind_ok :
    {E S A B : Type 0} (m : Exec E S A) (f : A → Exec E S B) (s : S) {b : B}
    → ((m >>= f) s).0 ≡ ok b
    → (a : A) × ((m s).0 ≡ ok a) × ((m >>= f) s ≡ f a (m s).1)
unfolding ◌>>=◌
bind_ok {A} {B} m f s {b} e = go (m s).0 refl e
  where
    go :
        (r : Result _ A)
        → (m s).0 ≡ r
        → (continue r f (m s).1).0 ≡ ok b
        → (a : A) × ((m s).0 ≡ ok a) × (continue (m s).0 f (m s).1 ≡ f a (m s).1)
    go (ok a) p q = (a, p, rw p)
    go (err x) p q = cc

-- A chain whose first call succeeds, or fails.
pub bind_of_ok :
    {E S A B : Type 0} (m : Exec E S A) (f : A → Exec E S B) (s : S) {a : A}
    → (m s).0 ≡ ok a
    → (m >>= f) s ≡ f a (m s).1
unfolding ◌>>=◌
bind_of_ok m f s e = rw e

pub bind_of_err :
    {E S A B : Type 0} (m : Exec E S A) (f : A → Exec E S B) (s : S) {x : E}
    → (m s).0 ≡ err x
    → (m >>= f) s ≡ (err x, (m s).1)
unfolding ◌>>=◌
bind_of_err m f s e = rw e

pub pure_bind : {E S A B : Type 0} (a : A) (f : A → Exec E S B) (s : S) → (pure a >>= f) s ≡ f a s
unfolding ◌>>=◌
pure_bind a f s = refl

pub Result-cases {ℓ κ} :
    {E : Type ℓ} {A : Type κ} (r : Result E A) → ((a : A) × (r ≡ ok a)) ⊎ ((e : E) × (r ≡ err e))
Result-cases (ok a) = inl (a, refl)
Result-cases (err e) = inr (e, refl)
