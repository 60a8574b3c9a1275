-- ===== src/Notification/Queries.antt =====
-- What the lists of services/notification-service/internal/adapters/dynamodb answer, and where a
-- request makes them panic.
use ops_nexus.Prelude.{
  none, some, true, ok, err, [], ◌∷◌, refl, zero, suc, String, List, ℕ, ◌+◌, ◌*◌, ◌≤◌, ◌<◌, ◌-◌,
  ◌%◌, arith, ◌^◌, ◌≡◌, ap, ◌⊎◌, map, inl, inr, ◌>>=◌, Result-cases,
}
use ops_nexus.Prelude.Int.{pos}
use ops_nexus.Storage.World.{Env}
use ops_nexus.Notification.Domain.{AuditEvent, internal}
use ops_nexus.Notification.Items.{AuditItem, from_audit_item}
use ops_nexus.Notification.Ports.{Ports, World, Queried, AuditFilter}
use ops_nexus.Notification.Paging.{take, drop, length}
use ops_nexus.Notification.Paging.Bounds.{paginate_in_range, paginate_panics}
use ops_nexus.Notification.Repository.{page_of, page_with, page_with, matches, query}

abbrev pub AllOf : {A : Type 0} → (A → Type 0) → List A → Type 0
AllOf p [] = Unit
AllOf p (x ∷ xs) = p x × AllOf p xs

module _ {A : Type 0} (p : A → Type 0) where
  AllOf-take : (n : ℕ) (xs : List A) → AllOf p xs → AllOf p (take n xs)
  AllOf-take zero xs h = tt
  AllOf-take (suc n) [] h = tt
  AllOf-take (suc n) (x ∷ xs) (h, hs) = (h, AllOf-take n xs hs)

  AllOf-drop : (n : ℕ) (xs : List A) → AllOf p xs → AllOf p (drop n xs)
  AllOf-drop zero xs h = h
  AllOf-drop (suc n) [] h = tt
  AllOf-drop (suc n) (x ∷ xs) (h, hs) = AllOf-drop n xs hs

length-take : {A : Type 0} (n : ℕ) (xs : List A) → length (take n xs) ≤ n
length-take zero xs = omega arith
length-take (suc n) [] = omega arith
length-take (suc n) (x ∷ xs) = omega (arith, length-take n xs)

page_in_range :
    {A : Type 0} (q l : ℕ) (xs : List A)
    → q < 2 ^ 63
    → q * l + l < 2 ^ 63
    → page_of (pos (suc q)) (pos l) xs ≡ some (take l (drop (q * l) xs), length xs)
page_in_range q l xs h k = ap (page_with (length xs)) (paginate_in_range q l xs h k)

page_panics :
    {A : Type 0} (q l : ℕ) (xs : List A)
    → q < 2 ^ 63 - 1
    → l ≤ 100
    → 2 ^ 63 ≤ q * l % 2 ^ 64
    → page_of (pos (suc q)) (pos l) xs ≡ none
page_panics q l xs h k b = ap (page_with (length xs)) (paginate_panics q l xs h k b)

module _ (env : Env) (P : Ports) where
  -- An event that the table shows to a read for the tenant, and that passes the filter.
  abbrev pub IsAnswer : World P → String → AuditFilter → AuditEvent P.json.Map → Type 0
  IsAnswer w t f e =
      (item : AuditItem) × (P.events.seen w.event_store t item.id ≡ some item)
      × (matches env P f item ≡ true)
      × (e ≡ from_audit_item P.rfc P.json item)

  AllOf-Queried :
      (w : World P) (t : String) (f : AuditFilter) (xs : List AuditItem)
      → Queried (P.events.seen w.event_store) t (λ e. e.id) (matches env P f) xs
      → AllOf (IsAnswer w t f) (map (from_audit_item P.rfc P.json) xs)
  AllOf-Queried w t f [] h = tt
  AllOf-Queried w t f (x ∷ xs) (p, q, h) = ((x, p, q, refl), AllOf-Queried w t f xs h)

  -- A query of the audit events, for a page at whose end the items counted do not reach 2^63, fails
  -- with an error of the table or answers a page of at most the limit's number of events, each one
  -- read back from an item that the table shows for the tenant asked for and that passes the filter.
  pub query_isolated :
      (t : String) (f : AuditFilter) (q l : ℕ) (w : World P)
      → q < 2 ^ 63
      → q * l + l < 2 ^ 63
      → ((es : List (AuditEvent P.json.Map)) × (total : ℕ) × ((query env P t f
              (pos (suc q))
              (pos l)
              w).0
            ≡ ok (some (es, total)))
          × AllOf (IsAnswer w t f) es
          × (length es ≤ l))
        ⊎ ((query env P t f (pos (suc q)) (pos l) w).0 ≡ err internal)
  unfolding query ◌>>=◌
  query_isolated t f q l w h k =
      elim (Result-cases (P.events.query t (matches env P f) w.event_store)) [
        | inl (xs, p) ↦
            let all =
              AllOf-Queried w t f xs (P.events.query_ok t (matches env P f) w.event_store xs p) in
            let found = map (from_audit_item P.rfc P.json) xs in
            inl (
              take l (drop (q * l) found),
              length found,
              rw p (ap ok (page_in_range q l found h k)),
              AllOf-take (IsAnswer w t f) l _ (AllOf-drop (IsAnswer w t f) (q * l) found all),
              length-take l _,
            )
        | inr (x, p) ↦ inr (rw p refl)
      ]

  -- A query of the audit events with a limit of at most 100, which the handler sees to, for a page
  -- whose start, as a number of 64 bits, is at or above 2^63 panics, unless the table answers with an
  -- error.
  pub query_panics :
      (t : String) (f : AuditFilter) (q l : ℕ) (w : World P)
      → q < 2 ^ 63 - 1
      → l ≤ 100
      → 2 ^ 63 ≤ q * l % 2 ^ 64
      → ((query env P t f (pos (suc q)) (pos l) w).0 ≡ ok none)
        ⊎ ((query env P t f (pos (suc q)) (pos l) w).0 ≡ err internal)
  unfolding query ◌>>=◌
  query_panics t f q l w h k b =
      elim (Result-cases (P.events.query t (matches env P f) w.event_store)) [
        | inl (xs, p) ↦ inl (rw p (ap ok (page_panics q l _ h k b)))
        | inr (x, p) ↦ inr (rw p refl)
      ]
