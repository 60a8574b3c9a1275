-- ===== src/Notification/Delivery.antt =====
-- What the operations of services/notification-service do to one notification.
use ops_nexus.Prelude.{
  some, true, ok, err, refl, arith, eq_iff, Result, String, List, ◌+◌, ◌≡◌, ◌∙◌, sym, ap, ◌==◌,
  ◌&&◌, ◌>>=◌, pure, bind_ok, relabel,
}
use ops_nexus.Storage.{Fault}
use ops_nexus.Storage.World.{Env}
use ops_nexus.Notification.Domain.{Error, Notification, internal}
use ops_nexus.Notification.Items.{
  NotificationItem, to_notification_item, from_notification_item, whole_seconds, parsed_format,
  omit_empty,
}
use ops_nexus.Notification.Ports.{Items, Put, Ports, World, SendNotificationRequest}
use ops_nexus.Notification.Repository.{Action, mark, stored}
use ops_nexus.Notification.Service.{send, new_notification}
use ops_nexus.Notification.Repository
use ops_nexus.Notification.Lifecycle.{item_at, Op, AllSpare, IsFresh, run, run_notices-Kept}
use ops_nexus.Notification.Kept.{Kept}

-- A notification as it is read back: whole seconds, and no empty map.
abbrev pub read_back : Notification → Notification
read_back n = record n { created_at = whole_seconds n.created_at; metadata = omit_empty n.metadata }

-- The notification `m` is what `n` is read back as, but that it may have been read.
abbrev pub IsReadBack : Notification → Notification → Type 0
IsReadBack n m = record m { read = n.read; read_at = n.read_at } ≡ read_back n

or_first : Notification → Result Error Notification → Notification
or_first n (ok m) = m
or_first n (err e) = n

module _ (env : Env) (P : Ports) where
  self_keys : (t i : String) → (t == t && i == i) ≡ true
  self_keys t i = ground (arith, eq_iff t t, eq_iff i i)

  ok_injective : {a b : Notification} → ◌≡◌ {A = Result Error Notification} (ok a) (ok b) → a ≡ b
  unfolding or_first
  ok_injective {a} e = ap (or_first a) e

  Put-ok :
      (a : NotificationItem) (before after : Items NotificationItem) (r : Result Fault (Unit {0}))
      → Put before after a.tenant_id a.id (some a) r
      → relabel (λ e. internal) r ≡ ok tt
      → after a.tenant_id a.id ≡ some a
  Put-ok a before after (ok u) h e = h a.tenant_id a.id ∙ rw (self_keys a.tenant_id a.id) refl
  Put-ok a before after (err x) h e = cc

  create_ok :
      (n : Notification) (w : World P)
      → (Repository.create env P n w).0 ≡ ok tt
      → item_at env P (Repository.create env P n w).1 n.tenant_id n.id
        ≡ some (stored (to_notification_item P.rfc n))
  unfolding Repository.create to_notification_item
  create_ok n w e =
      Put-ok (stored (to_notification_item P.rfc n)) _ _
        (P.notifications.put _ w.notification_store).0
        (P.notifications.put_put _ w.notification_store) e

  send_ok :
      (req : SendNotificationRequest) (w : World P) (n : Notification)
      → (send env P req w).0 ≡ ok n
      → (item_at env P (send env P req w).1 n.tenant_id n.id
          ≡ some (stored (to_notification_item P.rfc n)))
        × (n ≡ new_notification req (env.uuid w.identifiers) (env.clock w.readings))
  unfolding send ◌>>=◌
  send_ok req w n e =
      let made = new_notification req (env.uuid w.identifiers) (env.clock w.readings) in
      let w' = record w { identifiers = w.identifiers + 1; readings = w.readings + 1 } in
      let (u, p, q) = bind_ok (Repository.create env P made) (λ x. pure made) w' e in
      let same : n ≡ made = ok_injective (sym e ∙ ap (λ r. r.0) q) in
      (rw same (rw q (create_ok made w' p)), same)

  IsReadBack-Kept :
      (n : Notification) (m : NotificationItem)
      → Kept (stored (to_notification_item P.rfc n)) m
      → IsReadBack n (from_notification_item P.rfc m)
  unfolding to_notification_item from_notification_item
  IsReadBack-Kept n m k =
      rw
        (
          k.same_tenant,
          k.same_id,
          k.same_user,
          k.same_type,
          k.same_title,
          k.same_body,
          k.same_channel,
          k.same_metadata,
          k.same_creation,
          parsed_format P.rfc n.created_at,
        )
        refl

  -- A notification that was sent is in the table after any requests that do not dismiss it, failed
  -- ones included, as an item that is read back as what was sent, its time cut to whole seconds and an
  -- empty map dropped, but that it may have been read. The generator gives its identifier to no later
  -- notification.
  pub sent_then_stored :
      (req : SendNotificationRequest) (ops : List (Op P.json.Map)) (w : World P) (n : Notification)
      → (send env P req w).0 ≡ ok n
      → AllSpare env P n.tenant_id n.id ops
      → IsFresh env P n.tenant_id n.id (send env P req w).1
      → (n ≡ new_notification req (env.uuid w.identifiers) (env.clock w.readings))
        × ((m : NotificationItem) × (item_at env P
                (run env P ops (send env P req w).1)
                n.tenant_id
                n.id
              ≡ some m)
            × IsReadBack n (from_notification_item P.rfc m))
  sent_then_stored req ops w n e spared fresh =
      let (there, made) = send_ok req w n e in
      let (m, still, k) = run_notices-Kept env P n.tenant_id n.id ops _ _ spared fresh there in
      (made, (m, still, IsReadBack-Kept n m k))
