-- ===== src/Notification/Paging/Bounds.antt =====
-- What a page is, and where the code panics.
use ops_nexus.Prelude.{
  [], ◌∷◌, refl, arith, List, ℕ, zero, suc, ◌-◌, ◌≡◌, ◌≤◌, ◌<◌, ◌+◌, ◌*◌, ◌%◌, ◌^◌, some, none,
  Bool-cases, inl, inr, Option, if◌then◌else◌,
}
use ops_nexus.Prelude.Int.{pos, negsuc, ltb_ℤ}
use ops_nexus.Notification.Paging.{length, take, drop, slice, paginate, of_bits, Option}

module _ {A : Type 0} where
  length-drop : (n : ℕ) (xs : List A) → length (drop n xs) ≡ length xs - n
  length-drop zero xs = omega arith
  length-drop (suc n) [] = omega arith
  length-drop (suc n) (x ∷ xs) = omega (arith, length-drop n xs)

  take_all : (n : ℕ) (xs : List A) → length xs ≤ n → take n xs ≡ xs
  take_all zero [] h = refl
  take_all zero (x ∷ xs) h = absurd (omega arith)
  take_all (suc n) [] h = refl
  take_all (suc n) (x ∷ xs) h = rw (take_all n xs (omega arith)) refl

  drop_all : (n : ℕ) (xs : List A) → length xs ≤ n → drop n xs ≡ []
  drop_all zero [] h = refl
  drop_all zero (x ∷ xs) h = absurd (omega arith)
  drop_all (suc n) [] h = refl
  drop_all (suc n) (x ∷ xs) h = drop_all n xs (omega arith)

  take_nothing : (n : ℕ) → ◌≡◌ {A = List A} (take n []) []
  take_nothing zero = refl
  take_nothing (suc n) = refl

  slice_within :
      (a b : ℕ) (xs : List A)
      → a ≤ b
      → b ≤ length xs
      → slice (pos a) (pos b) xs ≡ some (take (b - a) (drop a xs))
  unfolding slice
  slice_within a b xs h k = ground arith

  cut : (m l : ℕ) (xs : List A) → Option (List A)
  cut m l xs =
      let n = pos (length xs) in
      if ltb_ℤ (pos m) n
      then slice (pos m) (if ltb_ℤ n (pos (m + l)) then n else pos (m + l)) xs
      else some []

  cut_lem : (m l : ℕ) (xs : List A) → cut m l xs ≡ some (take l (drop m xs))
  unfolding cut
  cut_lem m l xs = elim (Bool-cases (ltb_ℤ (pos m) (pos (length xs)))) [
    | inl p ↦ elim (Bool-cases (ltb_ℤ (pos (length xs)) (pos (m + l)))) [
      | inl q ↦
          let h : m < length xs = ground (arith, p) in
          let k : length xs < m + l = ground (arith, q) in
          let rest = length-drop m xs in
          rw
            (
              p,
              q,
              slice_within m (length xs) xs (omega arith) (omega arith),
              take_all (length xs - m) (drop m xs) (omega arith),
              take_all l (drop m xs) (omega arith),
            )
            refl
      | inr q ↦
          let h : m < length xs = ground (arith, p) in
          let k : m + l ≤ length xs = ground (arith, q) in
          let e : m + l - m ≡ l = omega arith in
          rw (p, q, slice_within m (m + l) xs (omega arith) k, e) refl
    ]
    | inr p ↦
        let h : length xs ≤ m = ground (arith, p) in rw (p, drop_all m xs h, take_nothing l) refl
  ]

offset_small : (q : ℕ) → q < 2 ^ 63 → (suc q % 2 ^ 64 + (2 ^ 64 - 1)) % 2 ^ 64 ≡ q
offset_small q h = omega arith

small : (m : ℕ) → m < 2 ^ 63 → m % 2 ^ 64 ≡ m
small m h = omega arith

of_bits_small : (m : ℕ) → m < 2 ^ 63 → of_bits m ≡ pos m
of_bits_small m h = ground arith

of_bits_large : (m : ℕ) → 2 ^ 63 ≤ m → of_bits m ≡ negsuc (2 ^ 64 - 1 - m)
of_bits_large m h = ground arith

module _ {A : Type 0} where
  -- A page from 1 on, at whose end the items counted do not reach 2^63, has the items that stand after
  -- those of the earlier pages, as many as the limit at most.
  pub paginate_in_range :
      (q l : ℕ) (xs : List A)
      → q < 2 ^ 63
      → q * l + l < 2 ^ 63
      → paginate (pos (suc q)) (pos l) xs ≡ some (take l (drop (q * l) xs))
  unfolding paginate cut
  paginate_in_range q l xs h k =
      rw
        (
          offset_small q h,
          small l (omega (arith, k)),
          small (q * l) (omega (arith, k)),
          of_bits_small (q * l) (omega (arith, k)),
          small (q * l) (omega (arith, k)),
          small (q * l + l) k,
          of_bits_small (q * l + l) k,
        )
        (cut_lem (q * l) l xs)

  -- A page with a limit of at most 100 whose start, as a number of 64 bits, is at or above 2^63 is a
  -- slice from below 0: the code panics.
  pub paginate_panics :
      (q l : ℕ) (xs : List A)
      → q < 2 ^ 63 - 1
      → l ≤ 100
      → 2 ^ 63 ≤ q * l % 2 ^ 64
      → paginate (pos (suc q)) (pos l) xs ≡ none
  unfolding paginate slice
  paginate_panics q l xs h k b =
      rw (offset_small q (omega arith), small l (omega arith), of_bits_large (q * l % 2 ^ 64) b)
        (ground arith)
