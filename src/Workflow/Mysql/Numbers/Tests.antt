-- ===== src/Workflow/Mysql/Numbers/Tests.antt =====
-- The theorems on `NextCaseNumber` at concrete counters.
use Prim.Native.Char.{Char}
use ops_nexus.Workflow.Ports.{next_count}
use ops_nexus.Prelude.{◌^◌, ◌-◌, arith, refl, String, [], ◌∷◌, ◌≡◌, ◌≢◌, ◌==◌, if◌then◌else◌}
use ops_nexus.Storage.{Table}
use ops_nexus.Storage.Memory.{memory_table}
use ops_nexus.Workflow.Mysql.Numbers.{
  broken, CounterRow, case_number, next_case_number, counters, prefix, to_upper, padded,
}
use ops_nexus.Workflow.Mysql.Numbers.Counting.{next_case_number-Numbered}
use ops_nexus.Workflow.Mysql.Numbers.Distinct.{call_all, later_number_ne}
use ops_nexus.Workflow.Mysql.Numbers.Race.{one, two, turns, turn, statement, overlapping_calls_same}

abbrev same : Char → Char
same c = c

-- A collation that takes two of the tenants for the same.
abbrev alike : String → String
alike s = if s == "ACME" then "acme" else s

runs : case_number same alike "acme corp" 42 ≡ "CASE-acme -00042"
unfolding prefix to_upper padded broken
runs = refl

runs_long : case_number same alike "ab" 1234567 ≡ "CASE-ab-1234567"
unfolding prefix to_upper padded broken
runs_long = refl

-- The fifth byte is in the middle of a character.
runs_cut : case_number same alike "abcdéf" 1 ≡ "CASE-abcd�-00001"
unfolding prefix to_upper padded broken
runs_cut = refl

-- The counter has wrapped around.
runs_negative : case_number same alike "ab" (2 ^ 64 - 42) ≡ "CASE-ab--0042"
unfolding prefix to_upper padded broken
runs_negative = refl

abbrev table : Table CounterRow (λ r. alike r.tenant_id) (λ t r. r)
table = memory_table (λ r. alike r.tenant_id) (λ t r. r) 0 (λ t r. refl)

-- Two tenants, the second of which has numbered 41 cases.
abbrev store : table.Store
store =
    record { tenant_id = "acme"; counter = 7 } ∷ record { tenant_id = "globex"; counter = 41 } ∷ []

next_case_number-Numbered_example :
    ◌≡◌ {A = String} "CASE-globe-00042" "CASE-globe-00042"
    × ((j : String)
        → counters same alike table (next_case_number same alike table "globex" store).1 j ≡ (
            if "globex" == alike j
            then next_count (counters same alike table store j)
            else counters same alike table store j))
unfolding next_case_number prefix to_upper padded broken
next_case_number-Numbered_example = next_case_number-Numbered same alike table "globex" store

later_number_ne_example : ◌≢◌ {A = String} "CASE-acme-00008" "CASE-acme-00009"
unfolding next_case_number call_all prefix to_upper padded broken
later_number_ne_example =
    later_number_ne same alike table "acme" "CASE-acme-00008" "CASE-acme-00009" ("globex" ∷ [])
      store (omega arith) refl refl

overlapping_calls_same_example : ◌≡◌ {A = String} "CASE-acme-00008" "CASE-acme-00008"
unfolding turns turn statement prefix to_upper padded broken
overlapping_calls_same_example =
    overlapping_calls_same same alike table "acme" store (two ∷ one ∷ []) "CASE-acme-00008"
      "CASE-acme-00008" refl refl
