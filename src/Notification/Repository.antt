-- ===== src/Notification/Repository.antt =====
-- notification_repository.go and audit_repository.go of
-- services/notification-service/internal/adapters/dynamodb. An item of the tables is one that the
-- repositories wrote, so that it is read into its struct without an error. A list that panics is
-- `none`.
use ops_nexus.Prelude.{
  none, some, true, ok, [], ◌∷◌, Result, String, ℕ, List, Option, Exec, map_err, map, pure, fail,
  attempt, ◌>>=◌, ◌>>◌, not, Bool, ◌==◌, ◌&&◌, ◌+◌,
}
use ops_nexus.Prelude.Time.{Time}
use ops_nexus.Prelude.Int.{ℤ}
use ops_nexus.Storage.{Fault}
use ops_nexus.Storage.World.{Env}
use ops_nexus.Notification.Domain.{
  Error, Notification, AuditEvent, internal, notification_not_found, audit_event_not_found,
}
use ops_nexus.Notification.Items.{
  NotificationItem, AuditItem, to_notification_item, from_notification_item, to_audit_item,
  from_audit_item, omit_empty,
}
use ops_nexus.Notification.Ports.{Ports, World, AuditFilter}
use ops_nexus.Notification.Paging.{paginate, length}

abbrev pub same_or_unset : Option String → String → Bool
same_or_unset none s = true
same_or_unset (some v) s = s == v

-- A page and the number of all that were found; `none` is a panic.
abbrev pub page_with : {A : Type 0} → ℕ → Option (List A) → Option (List A × ℕ)
page_with total none = none
page_with total (some xs) = some (xs, total)

abbrev pub page_of : {A : Type 0} → ℤ → ℤ → List A → Option (List A × ℕ)
page_of page limit xs = page_with (length xs) (paginate page limit xs)

abbrev pub stored : NotificationItem → NotificationItem
stored item = record item { metadata = omit_empty item.metadata }

-- `SET #r = :r, readAt = :ra`
abbrev pub mark : String → NotificationItem → NotificationItem
mark at item = record item { read = true; read_at = some at }

abbrev pub found : {A B S : Type 0} → Error → (A → B) → Option A → Exec Error S B
found missing f none = fail missing
found missing f (some a) = pure (f a)

module _ (env : Env) (P : Ports) where
  abbrev pub Action : Type 0 → Type 0
  Action A = Exec Error (World P) A

  abbrev pub now : Action Time
  now w = (ok (env.clock w.readings), record w { readings = w.readings + 1 })

  abbrev pub new_id : Action String
  new_id w = (ok (env.uuid w.identifiers), record w { identifiers = w.identifiers + 1 })

  abbrev pub on_notifications : {A : Type 0} → Exec Fault P.notifications.Store A → Action A
  on_notifications m w =
      let (r, s) = map_err (λ e. internal) m w.notification_store in
      (r, record w { notification_store = s })

  abbrev pub on_events : {A : Type 0} → Exec Fault P.events.Store A → Action A
  on_events m w =
      let (r, s) = map_err (λ e. internal) m w.event_store in (r, record w { event_store = s })

  -- A read, which leaves the store as it is.
  abbrev pub reading : {A S : Type 0} → (S → Result Fault A) → Exec Fault S A
  reading f s = (f s, s)

  unfoldable pub create : Notification → Action (Unit {0})
  create n = on_notifications (P.notifications.put (stored (to_notification_item P.rfc n)))

  unfoldable pub find_by_id : String → String → Action Notification
  find_by_id t i = do
    item ← on_notifications (reading (P.notifications.get t i))
    found notification_not_found (from_notification_item P.rfc) item

  unfoldable pub list_by_user : String → String → ℤ → ℤ → Action (Option (List Notification × ℕ))
  list_by_user t u page limit = do
    items ← on_notifications (reading (P.notifications.query t (λ item. item.user_id == u)))
    pure (page_of page limit (map (from_notification_item P.rfc) items))

  unfoldable pub mark_read : String → String → Action (Unit {0})
  mark_read t i = do
    at ← now
    on_notifications (P.notifications.update t i (mark (P.rfc.format at)))

  -- The loop of `MarkAllRead`, which goes on after an error.
  unfoldable pub mark_each : String → List NotificationItem → Action (Unit {0})
  mark_each t [] = pure tt
  mark_each t (item ∷ items) = do attempt (mark_read t item.id); mark_each t items

  abbrev pub is_unread_of : String → NotificationItem → Bool
  is_unread_of u item = item.user_id == u && not item.read

  unfoldable pub mark_all_read : String → String → Action (Unit {0})
  mark_all_read t u = do
    items ← on_notifications (reading (P.notifications.query t (is_unread_of u)))
    mark_each t items

  unfoldable pub delete : String → String → Action (Unit {0})
  delete t i = on_notifications (P.notifications.delete t i)

  abbrev pub put_event : Option AuditItem → Action (Unit {0})
  put_event none = fail internal
  put_event (some item) = on_events (P.events.put item)

  unfoldable pub record_event : AuditEvent P.json.Map → Action (Unit {0})
  record_event e = put_event (to_audit_item P.rfc P.json e)

  unfoldable pub find_event : String → String → Action (AuditEvent P.json.Map)
  find_event t i = do
    item ← on_events (reading (P.events.get t i))
    found audit_event_not_found (from_audit_item P.rfc P.json) item

  abbrev pub from_or_before : Option Time → String → Bool
  from_or_before none s = true
  from_or_before (some t) s = P.text_le (P.rfc.format t) s

  abbrev pub to_or_after : Option Time → String → Bool
  to_or_after none s = true
  to_or_after (some t) s = P.text_le s (P.rfc.format t)

  -- The filter expression of `Query`.
  unfoldable pub matches : AuditFilter → AuditItem → Bool
  matches f item =
      same_or_unset f.actor_id item.actor_id
      && same_or_unset f.action item.action
      && same_or_unset f.resource item.resource
      && same_or_unset f.resource_id item.resource_id
      && from_or_before f.from item.timestamp
      && to_or_after f.to item.timestamp

  unfoldable pub query :
      String → AuditFilter → ℤ → ℤ → Action (Option (List (AuditEvent P.json.Map) × ℕ))
  query t f page limit = do
    items ← on_events (reading (P.events.query t (matches f)))
    pure (page_of page limit (map (from_audit_item P.rfc P.json) items))
