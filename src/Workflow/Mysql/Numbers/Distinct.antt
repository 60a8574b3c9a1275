-- ===== src/Workflow/Mysql/Numbers/Distinct.antt =====
-- Calls of `NextCaseNumber` one after another, services/workflow-service/internal/adapters/mysql/
-- case_repository.go.
use Prim.Native.Char.{Char}
use ops_nexus.Prelude.{
  refl, ◌<◌, ◌^◌, false, ok, err, inl, inr, ℕ, String, Result, Bool, List, [], ◌∷◌, ◌+◌, ◌≡◌, ◌≢◌,
  ◌≤◌, ◌∙◌, sym, if◌then◌else◌, ◌==◌, eq_iff, arith,
}
use ops_nexus.Storage.{Table}
use ops_nexus.Workflow.Domain.{Error}
use ops_nexus.Workflow.Ports.{Numbered, next_count}
use ops_nexus.Workflow.Mysql.Numbers.{CounterRow, case_number, next_case_number, counters}
use ops_nexus.Workflow.Mysql.Numbers.Counting.{next_case_number-Numbered}
use ops_nexus.Workflow.Mysql.Numbers.Digits.{case_number_injective}

abbrev pub length : List String → ℕ
length [] = 0
length (k ∷ ks) = length ks + 1

-- A counter that does not wrap around goes up by one at most.
abbrev IsUp : ℕ → ℕ → Type 0
IsUp x y = (x ≤ y) × (y ≤ x + 1)

counted-IsUp :
    (b : Bool) (x y : ℕ) → x + 1 < 2 ^ 64 → y ≡ (if b then next_count x else x) → IsUp x y
counted-IsUp b x y h e = (ground arith, ground arith)

Numbered-IsUp :
    (collate : String → String) (number : String → ℕ → String) (before after : String → ℕ)
    (k : String) (r : Result Error String)
    → Numbered collate number before after k r
    → (j : String) → before j + 1 < 2 ^ 64
    → IsUp (before j) (after j)
Numbered-IsUp collate number before after k (ok n) (e, c) j h =
    counted-IsUp (collate k == collate j) _ _ h (c j)
Numbered-IsUp collate number before after k (err x) (inl same) j h =
    counted-IsUp false _ _ h (same j)
Numbered-IsUp collate number before after k (err x) (inr c) j h =
    counted-IsUp (collate k == collate j) _ _ h (c j)

next_small : (n : ℕ) → n + 1 < 2 ^ 64 → next_count n ≡ n + 1
next_small n h = omega (arith, h)

Numbered-ok :
    (collate : String → String) (number : String → ℕ → String) (before after : String → ℕ)
    (k n : String) (r : Result Error String)
    → Numbered collate number before after k r
    → r ≡ ok n
    → before k + 1 < 2 ^ 64
    → (n ≡ number k (before k + 1)) × (after k ≡ before k + 1)
Numbered-ok collate number before after k n (ok m) (e, c) q h = (
  cc (e, q, next_small (before k) h),
  c k ∙ rw ((eq_iff (collate k) (collate k)).1 refl) (next_small (before k) h),
)
Numbered-ok collate number before after k n (err x) h q b = cc

module _ (upper : Char → Char) (collate : String → String)
    (T : Table CounterRow (λ r. collate r.tenant_id) (λ t r. r)) where
  -- The store after calls for the given tenants.
  unfoldable pub call_all : List String → T.Store → T.Store
  call_all [] s = s
  call_all (k ∷ ks) s = call_all ks (next_case_number upper collate T k s).1

  call_all-bounds :
      (ks : List String) (s : T.Store) (j : String)
      → counters upper collate T s j + length ks < 2 ^ 64
      → (counters upper collate T s j ≤ counters upper collate T (call_all ks s) j)
        × (counters upper collate T (call_all ks s) j ≤ counters upper collate T s j + length ks)
  unfolding call_all
  call_all-bounds [] s j h = (omega arith, omega arith)
  call_all-bounds (k ∷ ks) s j h =
      let s1 = (next_case_number upper collate T k s).1 in
      let (up, by_one) =
        Numbered-IsUp collate (case_number upper collate) (counters upper collate T s)
          (counters upper collate T s1) k (next_case_number upper collate T k s).0
          (next_case_number-Numbered upper collate T k s) j (omega (arith, h)) in
      let (more, most) = call_all-bounds ks s1 j (omega (arith, h, up, by_one)) in
      (omega (arith, up, more), omega (arith, by_one, most))

  -- A number that a call gives for a tenant is not given again by a later call for it, whatever
  -- calls come in between, where each call is made when the one before has ended, and the counter
  -- with one more for each of the calls stays below 2^63.
  pub later_number_ne :
      (k a b : String) (ks : List String) (s : T.Store)
      → counters upper collate T s k + length ks + 2 < 2 ^ 63
      → (next_case_number upper collate T k s).0 ≡ ok a
      → (next_case_number upper collate T k
          (call_all ks (next_case_number upper collate T k s).1)).0
        ≡ ok b
      → a ≢ b
  later_number_ne k a b ks s bound p q e =
      let s1 : T.Store = (next_case_number upper collate T k s).1 in
      let s2 : T.Store = call_all ks s1 in
      let (given, counted) =
        Numbered-ok collate (case_number upper collate) (counters upper collate T s)
          (counters upper collate T s1) k a (next_case_number upper collate T k s).0
          (next_case_number-Numbered upper collate T k s) p (omega (arith, bound)) in
      let (grown, most) = call_all-bounds ks s1 k (omega (arith, bound, counted)) in
      let (later, counted_later) =
        Numbered-ok collate (case_number upper collate) (counters upper collate T s2)
          (counters upper collate T (next_case_number upper collate T k s2).1) k b
          (next_case_number upper collate T k s2).0 (next_case_number-Numbered upper collate T k s2)
          q (omega (arith, bound, most, counted)) in
      let same =
        case_number_injective upper collate k _ _ (omega (arith, bound))
          (omega (arith, bound, most, counted)) (sym given ∙ e ∙ later) in
      omega (arith, same, grown, counted)
