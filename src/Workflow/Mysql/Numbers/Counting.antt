-- ===== src/Workflow/Mysql/Numbers/Counting.antt =====
-- `NextCaseNumber` of services/workflow-service/internal/adapters/mysql/case_repository.go: the
-- counters that the case service is promised.
use ops_nexus.Prelude.{
  some, true, false, ok, err, refl, inl, inr, ℕ, String, Option, Result, Bool, ◌≡◌, ◌∙◌, sym, ap,
  subst, if◌then◌else◌, ◌==◌, eq_iff, ◌⊎◌,
}
use std.Path.{fun_ext}
use Prim.Native.Char.{Char}
use ops_nexus.Storage.{Table, Fetch, Fetched, found, missing, failed, Fault, Written, Created, Same}
use ops_nexus.Workflow.Domain.{Error}
use ops_nexus.Workflow.Ports.{CaseCounter, Numbered, Counted, next_count}
use ops_nexus.Workflow.Mysql.Numbers.{
  CounterRow, case_number, failing, count_up, next_case_number, counter_of, counters,
}

abbrev IsPut :
    (String → Option CounterRow) → (String → Option CounterRow) → String → CounterRow → Type 0
IsPut before after k r = (j : String) → after j ≡ (if k == j then some r else before j)

module _ (upper : Char → Char) (collate : String → String)
    (T : Table CounterRow (λ r. collate r.tenant_id) (λ t r. r)) where
  -- The counters of the tenants, by the rows of the keys.
  abbrev counts : (String → Option CounterRow) → String → ℕ
  counts rows tenant = counter_of upper collate T (rows (collate tenant))

  counted_if :
      (before : String → Option CounterRow) (k j : String) (r : CounterRow) (b : Bool)
      → (k == j) ≡ b
      → r.counter ≡ next_count (counter_of upper collate T (before k))
      → counter_of upper collate T (if b then some r else before j) ≡ (
          if b
          then next_count (counter_of upper collate T (before j))
          else counter_of upper collate T (before j))
  counted_if before k j r true q e =
      e ∙ ap (λ i. next_count (counter_of upper collate T (before i))) ((eq_iff k j).0 q)
  counted_if before k j r false q e = refl

  IsPut-Counted :
      (before after : String → Option CounterRow) (k : String) (r : CounterRow)
      → r.counter ≡ next_count (counts before k)
      → IsPut before after (collate k) r
      → Counted collate (counts before) (counts after) k
  IsPut-Counted before after k r e w j =
      ap (counter_of upper collate T) (w (collate j))
      ∙ counted_if before (collate k) (collate j) r (collate k == collate j) refl e

  Same-counts :
      (before after : String → Option CounterRow)
      → Same before after
      → (j : String) → counts after j ≡ counts before j
  Same-counts before after h j = ap (counter_of upper collate T) (h (collate j))

  -- A write of a row with the next number.
  abbrev IsStep :
      (String → Option CounterRow)
      → (String → Option CounterRow)
      → String
      → CounterRow
      → Result Fault (Unit {0})
      → Type 0
  IsStep before after k r (ok u) = IsPut before after k r
  IsStep before after k r (err e) = Same before after ⊎ IsPut before after k r

  Created-IsStep :
      (before after : String → Option CounterRow) (k : String) (r : CounterRow)
      (res : Result Fault (Unit {0}))
      → Created before after k r res
      → IsStep before after k r res
  Created-IsStep before after k r (ok u) (free, w) = w
  Created-IsStep before after k r (err e) (inl same) = inl same
  Created-IsStep before after k r (err e) (inr (free, w)) = inr w

  Written-IsStep :
      (before after : String → Option CounterRow) (k : String) (r : CounterRow)
      (res : Result Fault (Unit {0}))
      → Written before after k (λ t. r) res
      → IsStep before after k r res
  Written-IsStep before after k r (ok u) (t, w) = w
  Written-IsStep before after k r (err e) (inl same) = inl same
  Written-IsStep before after k r (err e) (inr (t, w)) = inr w

  abbrev IsCount :
      (String → Option CounterRow)
      → (String → Option CounterRow)
      → String
      → Result Error String
      → Type 0
  IsCount before after k res =
      Numbered collate (case_number upper collate) (counts before) (counts after) k res

  IsStep-IsCount :
      (before after : String → Option CounterRow) (k : String) (r : CounterRow)
      (res : Result Fault (Unit {0}))
      → r.counter ≡ next_count (counts before k)
      → IsStep before after (collate k) r res
      → IsCount before after k (failing upper collate T res (case_number upper collate k r.counter))
  IsStep-IsCount before after k r (ok u) e w =
      (ap (case_number upper collate k) e, IsPut-Counted before after k r e w)
  IsStep-IsCount before after k r (err f) e (inl same) = inl (Same-counts before after same)
  IsStep-IsCount before after k r (err f) e (inr w) = inr (IsPut-Counted before after k r e w)

  count_up-IsCount :
      (k : String) (row : Fetch CounterRow) (s : T.Store)
      → Fetched (T.rows s (collate k)) row
      → IsCount
          (T.rows s)
          (T.rows (count_up upper collate T k row s).1)
          k
          (count_up upper collate T k row s).0
  count_up-IsCount k missing s h =
      let r : CounterRow = record { tenant_id = k; counter = 1 } in
      IsStep-IsCount (T.rows s) (T.rows (T.create r s).1) k r (T.create r s).0
        (ap (λ o. next_count (counter_of upper collate T o)) (sym h))
        (Created-IsStep (T.rows s) (T.rows (T.create r s).1) (collate k) r (T.create r s).0
          (T.create_created r s))
  count_up-IsCount k (found m) s h =
      let r : CounterRow = record m { counter = next_count m.counter } in
      IsStep-IsCount (T.rows s) (T.rows (T.save r s).1) k r (T.save r s).0
        (ap (λ o. next_count (counter_of upper collate T o)) (sym h))
        (Written-IsStep (T.rows s) (T.rows (T.save r s).1) (collate k) r (T.save r s).0 (
          subst (λ i. Written (T.rows s) (T.rows (T.save r s).1) i (λ t. r) (T.save r s).0)
            (T.rows_key (collate k) s m h) (T.save_written r s)))
  count_up-IsCount k failed s h = inl (λ j. refl)

  -- A call of NextCaseNumber that answers gives the number after the tenant's counter, which it has
  -- then counted, and that of no tenant but those that collate alike; the count is that of an int64,
  -- which wraps around. A call that fails has counted likewise or changed no counter.
  pub next_case_number-Numbered :
      (tenant : String) (s : T.Store)
      → Numbered collate
          (case_number upper collate)
          (counters upper collate T s)
          (counters upper collate T (next_case_number upper collate T tenant s).1)
          tenant
          (next_case_number upper collate T tenant s).0
  unfolding next_case_number
  next_case_number-Numbered k s =
      let key = collate k in
      subst
        (λ rows.
          IsCount rows (T.rows (next_case_number upper collate T k s).1) k
            (next_case_number upper collate T k s).0)
        (fun_ext (λ j. T.first_same key s j))
        (count_up-IsCount k (T.first key s).0 (T.first key s).1 (
          subst (λ o. Fetched o (T.first key s).0) (sym (T.first_same key s key))
            (T.first_fetched key s)))

  -- The counter of `NewCaseRepository`.
  pub case_counter : CaseCounter
  case_counter = record {
    Store = T.Store;
    collate = collate;
    number = case_number upper collate;
    count = counters upper collate T;
    next = next_case_number upper collate T;
    next_numbered = next_case_number-Numbered;
  }
