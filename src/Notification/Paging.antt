-- ===== src/Notification/Paging.antt =====
-- The pages of services/notification-service: `getPagination` of internal/adapters/http/handler.go,
-- and the `Manual pagination` of internal/adapters/dynamodb. Go's `int` has 64 bits and wraps around;
-- a slice out of range is a panic, which is `none`.
use ops_nexus.Prelude.{
  none, some, true, false, [], ◌∷◌, Option, List, Bool, ℕ, zero, suc, ◌+◌, ◌-◌, ◌*◌, ◌%◌, ◌^◌, leb,
  ltb, if◌then◌else◌, String, ◌||◌, ◌&&◌,
}
use ops_nexus.Prelude.Int.{ℤ, pos, negsuc, ltb_ℤ, bits, of_bits}
use ops_nexus.Prelude.Scan.{atoi}
pub mod Bounds

module _ {A : Type 0} where
  abbrev pub length : List A → ℕ
  length [] = 0
  length (x ∷ xs) = suc (length xs)

  abbrev pub take : ℕ → List A → List A
  take zero xs = []
  take (suc n) [] = []
  take (suc n) (x ∷ xs) = x ∷ take n xs

  abbrev pub drop : ℕ → List A → List A
  drop zero xs = xs
  drop (suc n) [] = []
  drop (suc n) (x ∷ xs) = drop n xs

  -- `xs[start:end]`
  pub slice : ℤ → ℤ → List A → Option (List A)
  slice (pos a) (pos b) xs =
      if leb a b && leb b (length xs) then some (take (b - a) (drop a xs)) else none
  slice (pos a) (negsuc b) xs = none
  slice (negsuc a) end xs = none

  -- `start := (page - 1) * limit; end := start + limit; …`
  pub paginate : ℤ → ℤ → List A → Option (List A)
  paginate page limit xs =
      let start = of_bits ((bits page + (2 ^ 64 - 1)) % 2 ^ 64 * bits limit % 2 ^ 64) in
      let end = of_bits ((bits start + bits limit) % 2 ^ 64) in
      let n = pos (length xs) in
      if ltb_ℤ start n then slice start (if ltb_ℤ n end then n else end) xs else some []

-- `getPagination`, of the texts of the query
pub pagination : String → String → ℤ × ℤ
pagination page limit =
    let p = atoi page in
    let l = atoi limit in
    (
      if ltb_ℤ p (pos 1) then pos 1 else p,
      if ltb_ℤ l (pos 1) || ltb_ℤ (pos 100) l then pos 20 else l,
    )
