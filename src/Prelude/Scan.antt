-- ===== src/Prelude/Scan.antt =====
-- What the http adapters use of Go's packages `fmt`, `strconv` and `strings` to read headers and
-- queries.
use Prim.Native.Nat.{ℕ, ◌+◌, ◌-◌, ◌*◌, ◌^◌}
use Prim.Native.Char.{code}
use Prim.Native.String.{String, [], ◌∷◌}
use mathlib.Core.Path.{◌≡◌, refl}
use mathlib.Core.Bool.{Bool, true, false, ◌&&◌, not}
use mathlib.Core.Option.{Option, none, some}
use ops_nexus.Prelude.Tests.{leb, ltb, if◌then◌else◌}
use ops_nexus.Prelude.Int.{ℤ, pos, negsuc}
use ops_nexus.Prelude.Text.{is_space}

same : ℕ → ℕ → Bool
same a b = leb a b && leb b a

is_digit : ℕ → Bool
is_digit c = leb 0x30 c && leb c 0x39

-- `strings.SplitN(s, " ", 2)`: the two parts, or nothing where there is no blank
unfoldable pub split_space : String → Option (String × String)
unfolding same
split_space [] = none
split_space (c ∷ s) =
    let rest = elim (split_space s) as (λ x. Option (String × String)) [
      | none ↦ none
      | some (a, b) ↦ some (c ∷ a, b)
    ] in
    if same (code c) 0x20 then some ("", s) else rest

-- The number of the digits that stand first, if there are any.
leading : ℕ → Bool → String → Option ℕ
unfolding is_digit
leading n seen [] = if seen then some n else none
leading n seen (c ∷ s) =
    let rest = leading (n * 10 + (code c - 0x30)) true s in
    let stop = if seen then some n else none in if is_digit (code c) then rest else stop

-- The number of a text of digits.
decimal : ℕ → Bool → String → Option ℕ
unfolding is_digit
decimal n seen [] = if seen then some n else none
decimal n seen (c ∷ s) =
    let rest = decimal (n * 10 + (code c - 0x30)) true s in if is_digit (code c) then rest else none

-- -n
negated : ℕ → ℤ
negated n = if ltb 0 n then negsuc (n - 1) else pos 0

-- Blanks but the end of a line.
skip_space : String → String
unfolding same is_space
skip_space [] = []
skip_space (c ∷ s) =
    let rest = skip_space s in if is_space (code c) && not (same (code c) 0xa) then rest else c ∷ s

-- `strconv.ParseInt(…, 10, 64)`
in_range : Bool → Option ℕ → Option ℤ
unfolding negated
in_range minus none = none
in_range true (some n) = if leb n (2 ^ 63) then some (negated n) else none
in_range false (some n) = if ltb n (2 ^ 63) then some (pos n) else none

signed : String → Option ℤ
unfolding same leading in_range
signed [] = none
signed (c ∷ s) =
    if same (code c) 0x2d
    then in_range true (leading 0 false s)
    else if same (code c) 0x2b
    then in_range false (leading 0 false s)
    else in_range false (leading 0 false (c ∷ s))

-- `fmt.Sscanf(s, "%d", &n)`, which leaves `n` as it is where this is `none`
unfoldable pub sscanf_int : String → Option ℤ
unfolding skip_space signed
sscanf_int s = signed (skip_space s)

saturated : Bool → Option ℕ → ℤ
unfolding negated
saturated minus none = pos 0
saturated true (some n) = if leb n (2 ^ 63) then negated n else negated (2 ^ 63)
saturated false (some n) = if ltb n (2 ^ 63) then pos n else pos (2 ^ 63 - 1)

-- `n, _ := strconv.Atoi(s)`: 0 for a text that is no number, and the nearest `int` for one that is
-- out of range
unfoldable pub atoi : String → ℤ
unfolding same decimal saturated
atoi [] = pos 0
atoi (c ∷ s) =
    if same (code c) 0x2d
    then saturated true (decimal 0 false s)
    else if same (code c) 0x2b
    then saturated false (decimal 0 false s)
    else saturated false (decimal 0 false (c ∷ s))

scan_runs : sscanf_int " -12abc" ≡ some (negsuc 11)
unfolding sscanf_int
scan_runs = refl

atoi_runs : atoi "12abc" ≡ pos 0
unfolding atoi
atoi_runs = refl

split_runs : split_space "Bearer a b" ≡ some ("Bearer", "a b")
unfolding split_space
split_runs = refl
