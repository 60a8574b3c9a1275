-- ===== src/Workflow/Mysql/Numbers/Digits.antt =====
-- The numbers that `NextCaseNumber` writes, services/workflow-service/internal/adapters/mysql/
-- case_repository.go: `%05d` loses nothing of the counter.
use Prim.Native.Char.{Char, code}
use Prim.Native.String.{[], ◌∷◌}
use text.Mathlib.TextLemmas.{append_cancel_left}
use ops_nexus.Prelude.{
  ltb, ◌^◌, true, false, refl, ℕ, zero, suc, String, Bool, ◌+◌, ◌-◌, ◌*◌, ◌/◌, ◌%◌, ◌≡◌, ◌∙◌, sym,
  ap, ◌<◌, ◌≤◌, if◌then◌else◌, leb, ◌&&◌, arith,
}
use ops_nexus.Workflow.Mysql.Numbers.{printed, padded, digit, case_number, to_upper, prefix}

-- The number that decimal digits stand for, behind those read so far.
unfoldable value : ℕ → String → ℕ
value n [] = n
value n (c ∷ s) = value (n * 10 + (code c - 48)) s

digit_value : (d : ℕ) → d < 10 → code (digit d) - 48 ≡ d
digit_value zero h = refl
digit_value (suc zero) h = refl
digit_value (suc (suc zero)) h = refl
digit_value (suc (suc (suc zero))) h = refl
digit_value (suc (suc (suc (suc zero)))) h = refl
digit_value (suc (suc (suc (suc (suc zero))))) h = refl
digit_value (suc (suc (suc (suc (suc (suc zero)))))) h = refl
digit_value (suc (suc (suc (suc (suc (suc (suc zero))))))) h = refl
digit_value (suc (suc (suc (suc (suc (suc (suc (suc zero)))))))) h = refl
digit_value (suc (suc (suc (suc (suc (suc (suc (suc (suc zero))))))))) h = refl
digit_value (suc (suc (suc (suc (suc (suc (suc (suc (suc (suc d)))))))))) h = absurd (omega arith)

last_digit : (n : ℕ) → (n / 10) * 10 + (code (digit (n % 10)) - 48) ≡ n
last_digit n = rw (digit_value (n % 10) (omega arith)) (omega arith)

value-if :
    (b : Bool) (n : ℕ) (acc rest : String)
    → (b ≡ true → n ≡ 0)
    → (b ≡ false → value 0 rest ≡ value n acc)
    → value 0 (if b then acc else rest) ≡ value n acc
value-if true n acc rest h r = ap (λ m. value m acc) (sym (h refl))
value-if false n acc rest h r = r refl

both_zero : (width n : ℕ) → (leb width 0 && leb n 0) ≡ true → n ≡ 0
both_zero width n e = ground arith

not_both :
    (fuel width n : ℕ)
    → (leb width 0 && leb n 0) ≡ false
    → width + n ≤ suc fuel
    → (width - 1) + n / 10 ≤ fuel
not_both fuel width n e h = ground arith

value-padded :
    (fuel width n : ℕ) (acc : String)
    → width + n ≤ fuel
    → value 0 (padded fuel width n acc) ≡ value n acc
unfolding value padded
value-padded zero width n acc h = ap {B = ℕ} (λ m. value m acc) (omega arith)
value-padded (suc fuel) width n acc h =
    value-if (leb width 0 && leb n 0) n acc _ (both_zero width n) (λ e.
      value-padded fuel (width - 1) (n / 10) (digit (n % 10) ∷ acc) (not_both fuel width n e h)
      ∙ ap (λ m. value m acc) (last_digit n))

padded_injective : (a b : ℕ) → padded (5 + a) 5 a [] ≡ padded (5 + b) 5 b [] → a ≡ b
unfolding value
padded_injective a b e =
    sym (value-padded (5 + a) 5 a [] (omega arith))
    ∙ ap (value 0) e
    ∙ value-padded (5 + b) 5 b [] (omega arith)

is_small : (n : ℕ) → n < 2 ^ 63 → ltb n (2 ^ 63) ≡ true
is_small n h = ground arith

-- Two counts below 2^63 that give one tenant the same number are the same.
pub case_number_injective :
    (upper : Char → Char) (collate : String → String) (tenant : String) (a b : ℕ)
    → a < 2 ^ 63
    → b < 2 ^ 63
    → case_number upper collate tenant a ≡ case_number upper collate tenant b
    → a ≡ b
case_number_injective upper collate tenant a b ha hb e = padded_injective a b (
    ap (λ t. printed t a) (sym (is_small a ha))
    ∙ append_cancel_left "-" _ _ (
        append_cancel_left (to_upper upper collate (prefix 5 tenant)) _ _
          (append_cancel_left "CASE-" _ _ e))
    ∙ ap (λ t. printed t b) (is_small b hb))
