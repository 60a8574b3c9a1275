-- ===== src/Workflow/Mysql/Numbers.antt =====
-- `NextCaseNumber` of services/workflow-service/internal/adapters/mysql/case_repository.go over the
-- table of the counters. `strings.ToUpper` maps `unicode.ToUpper` over the text, a parameter that
-- keeps the replacement character; the table is a parameter, and so is the collation of its key: the
-- tenant comes from a header, and the table finds the row of any tenant that collates alike. A counter
-- is the 64 bits of an int64.
pub mod Race
pub mod Counting
pub mod Digits
pub mod Distinct
mod Tests
use Prim.Native.Char.{Char, code}
use Prim.Native.String.{◌++◌, [], ◌∷◌}
use ops_nexus.Prelude.{
  ltb, ◌^◌, none, some, true, false, ok, err, refl, inl, inr, ℕ, zero, suc, String, Option, Result,
  Exec, Bool, ◌+◌, ◌-◌, ◌*◌, ◌/◌, ◌%◌, ◌&&◌, ◌≡◌, ◌≢◌, ◌∙◌, sym, ap, leb, if◌then◌else◌, ◌==◌,
}
use ops_nexus.Prelude.Time.{Time}
use ops_nexus.Storage.{Table, Fetch, found, missing, failed, Fault}
use ops_nexus.Workflow.Domain.{Error, internal}
use ops_nexus.Workflow.Ports.{next_count}

pub record CounterRow : Type 0 where
  pub tenant_id : String
  pub counter : ℕ

abbrev pub digit : ℕ → Char
digit d =
    if leb d 0
    then "0"
    else if leb d 1
    then "1"
    else if leb d 2
    then "2"
    else if leb d 3
    then "3"
    else if leb d 4
    then "4"
    else if leb d 5
    then "5"
    else if leb d 6
    then "6"
    else if leb d 7
    then "7"
    else if leb d 8
    then "8"
    else "9"

-- `%05d`: the digits of `n` before `acc`, at least `width` of them. The fuel is a bound of their
-- number; `width + n` is enough.
unfoldable pub padded : ℕ → ℕ → ℕ → String → String
padded zero width n acc = acc
padded (suc fuel) width n acc =
    let rest = padded fuel (width - 1) (n / 10) (digit (n % 10) ∷ acc) in
    if leb width 0 && leb n 0 then acc else rest

-- The bytes of a character in UTF-8.
abbrev pub utf8_size : Char → ℕ
utf8_size c =
    if ltb (code c) 128
    then 1
    else if ltb (code c) 2048
    then 2
    else if ltb (code c) 65536
    then 3
    else 4

-- A byte of a character that was cut, as `ToUpper` writes it.
unfoldable pub broken : ℕ → String
broken zero = []
broken (suc n) = "�" ∷ broken n

-- `tenantID[:5]`, or all of it where it is no longer, by bytes.
unfoldable pub prefix : ℕ → String → String
prefix n [] = []
prefix n (c ∷ s) =
    let rest = prefix (n - utf8_size c) s in if leb (utf8_size c) n then c ∷ rest else broken n

-- `%05d` of an int64 by its bits: whether it is at least 0, and the bits. The sign counts as a digit.
abbrev pub printed : Bool → ℕ → String
printed true n = padded (5 + n) 5 n []
printed false n = "-" ++ padded (4 + (2 ^ 64 - n)) 4 (2 ^ 64 - n) []

module _ (upper : Char → Char) (collate : String → String) where
  unfoldable pub to_upper : String → String
  to_upper [] = []
  to_upper (c ∷ s) = upper c ∷ to_upper s

  -- `fmt.Sprintf("CASE-%s-%05d", prefix, counter)`
  abbrev pub case_number : String → ℕ → String
  case_number tenant counter =
      "CASE-" ++ (to_upper (prefix 5 tenant) ++ ("-" ++ printed (ltb counter (2 ^ 63)) counter))

  module _ (T : Table CounterRow (λ r. collate r.tenant_id) (λ t r. r)) where
    abbrev pub failing : Result Fault (Unit {0}) → String → Result Error String
    failing (ok u) number = ok number
    failing (err e) number = err internal

    abbrev pub count_up : String → Fetch CounterRow → T.Store → Result Error String × T.Store
    count_up tenant missing s =
        let (r, s') = T.create (record { tenant_id = tenant; counter = 1 }) s in
        (failing r (case_number tenant 1), s')
    count_up tenant (found m) s =
        let (r, s') = T.save (record m { counter = next_count m.counter }) s in
        (failing r (case_number tenant (next_count m.counter)), s')
    count_up tenant failed s = (err internal, s)

    -- The transaction as one step.
    unfoldable pub next_case_number : String → Exec Error T.Store String
    next_case_number tenant s = let (row, s') = T.first (collate tenant) s in count_up tenant row s'

    abbrev pub counter_of : Option CounterRow → ℕ
    counter_of none = 0
    counter_of (some r) = r.counter

    abbrev pub counters : T.Store → String → ℕ
    counters s tenant = counter_of (T.rows s (collate tenant))
