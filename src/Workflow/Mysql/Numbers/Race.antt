-- ===== src/Workflow/Mysql/Numbers/Race.antt =====
-- Two calls of `NextCaseNumber` at once, services/workflow-service/internal/adapters/mysql/
-- case_repository.go. A transaction reads the counter with `First`, which locks no row, and then
-- writes it. A schedule says whose statement is next.
use Prim.Native.Char.{Char}
use ops_nexus.Prelude.{ok, err, refl, String, Option, Result, List, [], ◌∷◌, ◌≡◌, ◌∙◌, sym, subst}
use ops_nexus.Storage.{Table, Fetch, Fetched, found, missing, failed, Fault}
use ops_nexus.Workflow.Domain.{Error}
use ops_nexus.Workflow.Ports.{next_count}
use ops_nexus.Workflow.Mysql.Numbers.{CounterRow, case_number, failing, count_up, counter_of}

-- Where a transaction stands: before it has read, before it has written, at its end.
pub data Phase : Type 0 where
  reads : Phase
  writes : Fetch CounterRow → Phase
  ends : Result Error String → Phase

pub data Turn : Type 0 where
  one two : Turn

module _ (upper : Char → Char) (collate : String → String)
    (T : Table CounterRow (λ r. collate r.tenant_id) (λ t r. r)) (tenant : String) where
  -- The next statement of one transaction.
  unfoldable pub statement : Phase → T.Store → Phase × T.Store
  statement reads s = let (row, s') = T.first (collate tenant) s in (writes row, s')
  statement (writes row) s = let (r, s') = count_up upper collate T tenant row s in (ends r, s')
  statement (ends r) s = (ends r, s)

  pub record Both : Type 0 where
    pub left : Phase
    pub right : Phase
    pub store : T.Store

  unfoldable pub turn : Turn → Both → Both
  turn one b = let (p, s) = statement b.left b.store in record b { left = p; store = s }
  turn two b = let (p, s) = statement b.right b.store in record b { right = p; store = s }

  unfoldable pub turns : List Turn → Both → Both
  turns [] b = b
  turns (t ∷ ts) b = turns ts (turn t b)

  abbrev pub started : T.Store → Both
  started s = record { left = reads; right = reads; store = s }

  failing_number :
      (r : Result Fault (Unit {0})) (n m : String) → failing upper collate T r n ≡ ok m → m ≡ n
  failing_number (ok u) n m e = cc
  failing_number (err f) n m e = cc

  -- The number that a transaction gives for the row `o` that it has read.
  number_of : Option CounterRow → String
  number_of o = case_number upper collate tenant (next_count (counter_of upper collate T o))

  given :
      (o : Option CounterRow) (row : Fetch CounterRow) (s : T.Store) (n : String)
      → Fetched o row
      → (count_up upper collate T tenant row s).0 ≡ ok n
      → n ≡ number_of o
  unfolding number_of
  given o missing s n h e = rw h (failing_number _ _ n e)
  given o (found m) s n h e = rw h (failing_number _ _ n e)
  given o failed s n h e = cc

  -- A transaction that has read `o`, or the number of which is the one for `o`.
  HasRead : Option CounterRow → Phase → Type 0
  HasRead o reads = ⊥
  HasRead o (writes row) = Fetched o row
  HasRead o (ends r) = (n : String) → r ≡ ok n → n ≡ number_of o

  statement-HasRead :
      (o : Option CounterRow) (p : Phase) (s : T.Store) → HasRead o p → HasRead o (statement p s).0
  unfolding statement HasRead
  statement-HasRead o reads s h = absurd h
  statement-HasRead o (writes row) s h = λ n e. given o row s n h e
  statement-HasRead o (ends r) s h = h

  turns-HasRead :
      (o : Option CounterRow) (ts : List Turn) (b : Both)
      → HasRead o b.left
      → HasRead o b.right
      → HasRead o (turns ts b).left × HasRead o (turns ts b).right
  unfolding turns turn
  turns-HasRead o [] b l r = (l, r)
  turns-HasRead o (one ∷ ts) b l r =
      turns-HasRead o ts (turn one b) (statement-HasRead o b.left b.store l) r
  turns-HasRead o (two ∷ ts) b l r =
      turns-HasRead o ts (turn two b) l (statement-HasRead o b.right b.store r)

  -- Two calls that have both read before either writes, in whatever order they go on: if both
  -- answer, they give the same number.
  pub overlapping_calls_same :
      (s : T.Store) (ts : List Turn) (a b : String)
      → (turns (one ∷ two ∷ ts) (started s)).left ≡ ends (ok a)
      → (turns (one ∷ two ∷ ts) (started s)).right ≡ ends (ok b)
      → a ≡ b
  unfolding turns turn statement HasRead
  overlapping_calls_same s ts a b l r =
      let s1 : T.Store = (T.first (collate tenant) s).1 in
      let held =
        turns-HasRead (T.rows s (collate tenant)) ts (turn two (turn one (started s)))
          (T.first_fetched (collate tenant) s)
          (subst (λ o. Fetched o (T.first (collate tenant) s1).0)
            (T.first_same (collate tenant) s (collate tenant))
            (T.first_fetched (collate tenant) s1)) in
      subst (HasRead (T.rows s (collate tenant))) l held.0 a refl
      ∙ sym (subst (HasRead (T.rows s (collate tenant))) r held.1 b refl)
