-- ===== src/Notification/Memory.antt =====
-- Tables in memory, which show that the promises of `DynamoTable` can be met, and encodings; the
-- examples run on them. The newest write stands first.
use Prim.Native.String.{[], ◌∷◌}
use ops_nexus.Storage.{Fault}
use ops_nexus.Prelude.{
  sym, subst, Result, none, some, true, ok, [], ◌∷◌, refl, arith, eq_iff, Option, String, Bool,
  List, ℕ, zero, suc, ◌*◌, ◌/◌, ◌≡◌, ◌∙◌, ap, ◌≢◌, inl, inr, Bool-cases, if◌then◌else◌, ◌==◌, ◌&&◌,
}
use ops_nexus.Notification.Items.{Rfc3339, JsonMaps}
use ops_nexus.Notification.Ports.{DynamoTable, Items, Queried, or_blank}

module _ {A : Type 0} (tenant_of id_of : A → String) (blank : String → String → A) where
  abbrev pub Entries : Type 0
  Entries = List (String × String × Option A)

  abbrev pub lookup : Entries → Items A
  lookup [] u j = none
  lookup ((t, i, o) ∷ s) u j = let rest = lookup s u j in if t == u && i == j then o else rest

  abbrev pub keep : (A → Bool) → String → Option A → List A → List A
  keep p j none xs = xs
  keep p j (some x) xs = if id_of x == j && p x then x ∷ xs else xs

  abbrev pub select : Entries → String → (A → Bool) → Entries → List A
  select s t p [] = []
  select s t p ((u, j, o) ∷ rest) = keep p j (lookup s t j) (select s t p rest)

  both :
      (x : A) (p : A → Bool) (j : String)
      → (id_of x == j && p x) ≡ true
      → (id_of x ≡ j) × (p x ≡ true)
  both x p j e = ground (arith, eq_iff (id_of x) j)

  pub ok_injective : {B : Type 0} {a b : B} → ◌≡◌ {A = Result Fault B} (ok a) (ok b) → a ≡ b
  ok_injective e = cc

  keep-Queried :
      (s : Entries) (t : String) (p : A → Bool) (j : String) (o : Option A) (xs : List A)
      → lookup s t j ≡ o
      → Queried (lookup s) t id_of p xs
      → Queried (lookup s) t id_of p (keep p j o xs)
  keep-Queried s t p j none xs e h = h
  keep-Queried s t p j (some x) xs e h = elim (Bool-cases (id_of x == j && p x)) [
    | inl b ↦ rw b (let (q, z) = both x p j b in rw q e, (both x p j b).1, h)
    | inr b ↦ rw b h
  ]

  pub select-Queried :
      (s : Entries) (t : String) (p : A → Bool) (rest : Entries)
      → Queried (lookup s) t id_of p (select s t p rest)
  select-Queried s t p [] = tt
  select-Queried s t p ((u, j, o) ∷ rest) =
      keep-Queried s t p j (lookup s t j) (select s t p rest) refl (select-Queried s t p rest)

  abbrev pub memory_table : DynamoTable A tenant_of id_of blank
  memory_table = record {
    Store = Entries;
    items = lookup;
    seen = lookup;
    put = λ a s. (ok tt, (tenant_of a, id_of a, some a) ∷ s);
    get = λ t i s. ok (lookup s t i);
    query = λ t p s. ok (select s t p s);
    update = λ t i f s. (ok tt, (t, i, some (f (or_blank (blank t i) (lookup s t i)))) ∷ s);
    delete = λ t i s. (ok tt, (t, i, none) ∷ s);
    get_ok = λ t i s o e. ok_injective e;
    query_ok = λ t p s xs e.
        subst (λ ys. Queried (lookup s) t id_of p ys) (ok_injective e) (select-Queried s t p s);
    put_put = λ a s u j. refl;
    update_put = λ t i f s u j. refl;
    delete_put = λ t i s u j. refl;
  }

-- A text for a number.
abbrev pub ticks : ℕ → String
ticks zero = ""
ticks (suc n) = "i" ∷ ticks n

abbrev pub count : String → ℕ
count [] = 0
count (c ∷ s) = suc (count s)

pub count_ticks : (n : ℕ) → count (ticks n) ≡ n
count_ticks zero = refl
count_ticks (suc n) = ap suc (count_ticks n)

pub ticks-ne : (n m : ℕ) → n ≢ m → ticks n ≢ ticks m
ticks-ne n m h e = h (sym (count_ticks n) ∙ ap count e ∙ count_ticks m)

abbrev pub seconds : Rfc3339
seconds = record {
  format = λ t. ticks (t / 1000000000);
  parse = λ s. some (count s * 1000000000);
  parse_format = λ t. rw (count_ticks (t / 1000000000)) (ap some (omega arith));
}

-- Maps with one number. A whole number is read back as a decimal one.
pub data NumberMap : Type 0 where
  whole decimal : ℕ → NumberMap

abbrev pub written_map : NumberMap → String
written_map (whole n) = "{" ∷ ticks n
written_map (decimal n) = "{" ∷ ticks n

abbrev pub decimal_of : NumberMap → NumberMap
decimal_of (whole n) = decimal n
decimal_of (decimal n) = decimal n

abbrev pub read_map : String → Option NumberMap
read_map [] = none
read_map (c ∷ s) = some (decimal (count s))

abbrev text_of : Option String → String
text_of none = ""
text_of (some s) = s

pub read_written_map :
    (m : NumberMap) (s : String)
    → ◌≡◌ {A = Option String} (some (written_map m)) (some s)
    → read_map s ≡ some (decimal_of m)
read_written_map (whole n) s e =
    subst (λ t. read_map t ≡ some (decimal n)) (ap text_of e)
      (ap (λ k. some (decimal k)) (count_ticks n))
read_written_map (decimal n) s e =
    subst (λ t. read_map t ≡ some (decimal n)) (ap text_of e)
      (ap (λ k. some (decimal k)) (count_ticks n))

longer : (n : ℕ) → suc (count (ticks n)) ≢ 0
longer n e = omega (arith, e)

pub written_map-ne :
    (m : NumberMap) (s : String) → ◌≡◌ {A = Option String} (some (written_map m)) (some s) → s ≢ ""
written_map-ne (whole n) s e h = longer n (ap count (ap text_of e ∙ h))
written_map-ne (decimal n) s e h = longer n (ap count (ap text_of e ∙ h))

abbrev pub number_maps : JsonMaps
number_maps = record {
  Map = NumberMap;
  marshal = λ m. some (written_map m);
  unmarshal = read_map;
  as_read = decimal_of;
  unmarshal_marshal = read_written_map;
  marshal-ne = written_map-ne;
}
