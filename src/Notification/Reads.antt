-- ===== src/Notification/Reads.antt =====
-- What `MarkRead` and `MarkAllRead` of
-- services/notification-service/internal/adapters/dynamodb/notification_repository.go change.
use ops_nexus.Prelude.{
  some, true, false, ok, err, [], ◌∷◌, refl, arith, eq_iff, Result, Option, String, Bool, List, ◌≡◌,
  sym, ◌⊎◌, not, if◌then◌else◌, ◌==◌, ◌&&◌, inl, inr, ◌>>=◌, Result-cases,
}
use ops_nexus.Storage.{Fault}
use ops_nexus.Storage.World.{Env}
use ops_nexus.Notification.Items.{NotificationItem}
use ops_nexus.Notification.Ports.{Ports, World, Items, Put, Queried, or_blank, blank_notification}
use ops_nexus.Notification.Repository.{mark, mark_each, is_unread_of, mark_read, mark_all_read}
use ops_nexus.Notification.Kept.{same_keys}
use ops_nexus.Notification.Lifecycle.{item_at}

-- The item of a key `j` of the tenant `v` is as it was, or it was seen as an unread one of the user in
-- the tenant `t` and is marked as read, a blank one where it is no longer there.
abbrev pub SameOrMarked :
    String
    → String
    → String
    → String
    → Option NotificationItem
    → Option NotificationItem
    → Option NotificationItem
    → Type 0
SameOrMarked t u v j seen before after =
    (after ≡ before)
    ⊎ ((n : NotificationItem) × (at : String) × (v ≡ t)
        × (seen ≡ some n)
        × (n.user_id ≡ u)
        × (n.read ≡ false)
        × (after ≡ some (mark at (or_blank (blank_notification t j) before))))

unread :
    (u : String) (n : NotificationItem)
    → (n.user_id == u && not n.read) ≡ true
    → (n.user_id ≡ u) × (n.read ≡ false)
unread u n e = ground (arith, eq_iff n.user_id u)

-- The item that the loop is at is marked, whether the loop has marked it before or not.
marked_again :
    (t u j at : String) (n : NotificationItem) (seen before here : Option NotificationItem)
    → (n.user_id == u && not n.read) ≡ true
    → seen ≡ some n
    → SameOrMarked t u t j seen before here
    → SameOrMarked t u t j seen before (some (mark at (or_blank (blank_notification t j) here)))
marked_again t u j at n seen before here e s (inl same) =
    inr (n, at, refl, s, (unread u n e).0, (unread u n e).1, rw same refl)
marked_again t u j at n seen before here e s (inr (m, at', k, p, q, r, h)) =
    inr (m, at, k, p, q, r, rw h refl)

SameOrMarked-if :
    (b : Bool) (t u v j : String) (seen first o before : Option NotificationItem)
    → SameOrMarked t u v j seen first before
    → (b ≡ true → SameOrMarked t u v j seen first o)
    → SameOrMarked t u v j seen first (if b then o else before)
SameOrMarked-if true t u v j seen first o before a h = h refl
SameOrMarked-if false t u v j seen first o before a h = a

SameOrMarked-Put :
    {R : Type 0} (before after : Items NotificationItem) (t i v j u : String)
    (seen first o : Option NotificationItem) (r : Result Fault R)
    → Put before after t i o r
    → SameOrMarked t u v j seen first (before v j)
    → ((t == v && i == j) ≡ true → SameOrMarked t u v j seen first o)
    → SameOrMarked t u v j seen first (after v j)
SameOrMarked-Put before after t i v j u seen first o (ok x) h a b =
    rw (h v j) (SameOrMarked-if (t == v && i == j) t u v j seen first o (before v j) a b)
SameOrMarked-Put before after t i v j u seen first o (err e) (inl same) a b = rw (same v j) a
SameOrMarked-Put before after t i v j u seen first o (err e) (inr h) a b =
    rw (h v j) (SameOrMarked-if (t == v && i == j) t u v j seen first o (before v j) a b)

module _ (env : Env) (P : Ports) where
  mark_each-SameOrMarked :
      (seen first : Items NotificationItem) (t u : String) (xs : List NotificationItem)
      (w : World P)
      → Queried seen t (λ n. n.id) (is_unread_of env P u) xs
      → ((v j : String) → SameOrMarked t u v j (seen v j) (first v j) (item_at env P w v j))
      → (v j : String)
      → SameOrMarked t u v j (seen v j) (first v j) (item_at env P (mark_each env P t xs w).1 v j)
  unfolding mark_each mark_read ◌>>=◌
  mark_each-SameOrMarked seen first t u [] w q h v j = h v j
  mark_each-SameOrMarked seen first t u (x ∷ xs) w (p, e, q) h v j =
      mark_each-SameOrMarked seen first t u xs _ q
        (λ v' j'.
          SameOrMarked-Put _ _ t x.id v' j' u (seen v' j') (first v' j') _
            (P.notifications.update t x.id _ w.notification_store).0
            (P.notifications.update_put t x.id _ w.notification_store) (h v' j')
            (λ k.
              let (tv, ij) = same_keys t x.id v' j' k in
              let again =
                marked_again t u x.id (P.rfc.format (env.clock w.readings)) x (seen t x.id)
                  (first t x.id) (item_at env P w t x.id) e p (h t x.id) in
              rw (sym tv, sym ij) again))
        v j

  -- MarkAllRead, whatever it answers, leaves every item as it was, but for items of the tenant that
  -- its query saw as unread and the user's: of those it may have set the mark and the time of reading,
  -- and nothing else. The query may lag behind the table, so that an item that was dismissed meanwhile
  -- can be made again, blank but for its keys, the mark and the time.
  pub mark_all_read-SameOrMarked :
      (t u : String) (w : World P) (v j : String)
      → SameOrMarked t u v j
          (P.notifications.seen w.notification_store v j)
          (item_at env P w v j)
          (item_at env P (mark_all_read env P t u w).1 v j)
  unfolding mark_all_read ◌>>=◌
  mark_all_read-SameOrMarked t u w v j =
      elim (Result-cases (P.notifications.query t (is_unread_of env P u) w.notification_store)) [
        | inl (xs, p) ↦ rw p (
            mark_each-SameOrMarked (P.notifications.seen w.notification_store) (item_at env P w) t u
              xs w (P.notifications.query_ok t (is_unread_of env P u) w.notification_store xs p)
              (λ v' j'. inl refl) v j)
        | inr (x, p) ↦ rw p (inl refl)
      ]
