-- ===== src/Notification/Http/Tenants.antt =====
-- Which notifications a request to services/notification-service can change.
use ops_nexus.Prelude.{
  none, some, true, false, ok, err, refl, arith, eq_iff, Result, Option, String, Bool, ◌≡◌, ◌≢◌,
  ◌∙◌, ◌==◌, ◌&&◌, inl, inr, ◌>>=◌, continue, Option-cases, pure, Exec,
}
use ops_nexus.Storage.{Fault}
use ops_nexus.Storage.World.{Env}
use ops_nexus.Notification.Items.{NotificationItem, AuditItem}
use ops_nexus.Notification.Ports.{Ports, World, Items, Put, AuditFilter, RecordAuditRequest}
use ops_nexus.Notification.Repository
use ops_nexus.Notification.Service
use ops_nexus.Notification.Repository.{Action, on_events, on_notifications, found, put_event}
use ops_nexus.Notification.Domain.{Error}
use ops_nexus.Prelude.Int.{ℤ}
use ops_nexus.Notification.Lifecycle.{item_at}
use ops_nexus.Notification.Reads.{SameOrMarked, mark_all_read-SameOrMarked}
use ops_nexus.Notification.Http.{
  Route, Request, user_of, Decoder, serve, dispatch, tenant_of, get_health, get_notifications,
  post_notification, post_bulk, post_all_read, get_audit, post_audit, get_notice, post_read,
  delete_notice, get_event, mark_read, mark_all_read, dismiss_notification, get_notification,
  list_notifications, record_audit_event, get_audit_event, query_audit_events,
}

-- A route that sends no notification.
abbrev pub SendsNone : Route → Type 0
SendsNone get_health = Unit
SendsNone get_notifications = Unit
SendsNone post_notification = ⊥
SendsNone post_bulk = ⊥
SendsNone post_all_read = Unit
SendsNone (get_notice id) = Unit
SendsNone (post_read id) = Unit
SendsNone (delete_notice id) = Unit
SendsNone get_audit = Unit
SendsNone post_audit = Unit
SendsNone (get_event id) = Unit

other_key : (t i v j : String) → v ≢ t → (t == v && i == j) ≡ false
other_key t i v j ne = ground (arith, eq_iff t v)

Put-other :
    {R : Type 0} (before after : Items NotificationItem) (t i v j : String)
    (o : Option NotificationItem) (r : Result Fault R)
    → Put before after t i o r
    → v ≢ t
    → after v j ≡ before v j
Put-other before after t i v j o (ok x) h ne = h v j ∙ rw (other_key t i v j ne) refl
Put-other before after t i v j o (err e) (inl same) ne = same v j
Put-other before after t i v j o (err e) (inr h) ne = h v j ∙ rw (other_key t i v j ne) refl

SameOrMarked-other :
    {t u v : String} (j : String) {seen before after : Option NotificationItem}
    → SameOrMarked t u v j seen before after
    → v ≢ t
    → after ≡ before
SameOrMarked-other j (inl same) ne = same
SameOrMarked-other j (inr (n, at, e, a, b, c, d)) ne = absurd (ne e)

module _ (env : Env) (P : Ports) (json : Decoder P.json.Map) where
  module _ (v j : String) where
    -- A call that leaves the notification alone.
    record Still {A : Type 0} (m : Action env P A) : Type 0 where
      at : (w : World P) → item_at env P (m w).1 v j ≡ item_at env P w v j

    Still-bind :
        {A B : Type 0} (m : Action env P A) (f : A → Action env P B)
        → Still m
        → ((a : A) → Still (f a))
        → Still (m >>= f)
    unfolding ◌>>=◌
    Still-bind {A} {B} m f hm hf = record { at = λ w. go (m w).0 (m w).1 ∙ hm.at w }
      where
        go :
            (r : Result Error A) (w : World P)
            → item_at env P (continue r f w).1 v j ≡ item_at env P w v j
        go (ok a) w = (hf a).at w
        go (err e) w = refl

    Still-on_events : {A : Type 0} (m : Exec Fault P.events.Store A) → Still (on_events env P m)
    Still-on_events m = record { at = λ w. refl }

    Still-reading :
        {A : Type 0} (f : P.notifications.Store → Result Fault A)
        → Still (on_notifications env P (λ s. (f s, s)))
    Still-reading f = record { at = λ w. refl }

    Still-found : {A B : Type 0} (e : Error) (f : A → B) (o : Option A) → Still (found e f o)
    Still-found e f none = record { at = λ w. refl }
    Still-found e f (some a) = record { at = λ w. refl }

    Still-pure : {A : Type 0} (a : A) → Still (pure a)
    Still-pure a = record { at = λ w. refl }

    Still-put_event : (o : Option AuditItem) → Still (put_event env P o)
    Still-put_event none = record { at = λ w. refl }
    Still-put_event (some item) = Still-on_events _

    Still-find : (t i : String) → Still (Repository.find_by_id env P t i)
    unfolding Repository.find_by_id
    Still-find t i = Still-bind _ _ (Still-reading _) (λ o. Still-found _ _ o)

    Still-list :
        (t u : String) (page limit : ℤ) → Still (Repository.list_by_user env P t u page limit)
    unfolding Repository.list_by_user
    Still-list t u page limit = Still-bind _ _ (Still-reading _) (λ items. Still-pure _)

    Still-find_event : (t i : String) → Still (Repository.find_event env P t i)
    unfolding Repository.find_event
    Still-find_event t i = Still-bind _ _ (Still-on_events _) (λ o. Still-found _ _ o)

    Still-query :
        (t : String) (f : AuditFilter) (page limit : ℤ)
        → Still (Repository.query env P t f page limit)
    unfolding Repository.query
    Still-query t f page limit = Still-bind _ _ (Still-on_events _) (λ items. Still-pure _)

    Still-record : (req : RecordAuditRequest P.json.Map) → Still (Service.record_audit env P req)
    unfolding Service.record_audit Repository.record_event
    Still-record req =
        Still-bind _ _ (record { at = λ w. refl })
          λ id.
            Still-bind _ _ (record { at = λ w. refl })
              λ at. Still-bind _ _ (Still-put_event _) (λ u. Still-pure _)

    Still-record_audit :
        (r : Request) (w : World P)
        → item_at env P (record_audit_event env P json r w).1 v j ≡ item_at env P w v j
    unfolding record_audit_event
    Still-record_audit r w = elim (Option-cases (json.record_request r.body)) [
      | inl p ↦ rw p refl
      | inr (req, p) ↦ rw p ((Still-record _).at w)
    ]

  dispatch_other :
      (route : Route) (r : Request) (w : World P) (v j : String)
      → SendsNone route
      → v ≢ tenant_of r
      → item_at env P (dispatch env P json route r w).1 v j ≡ item_at env P w v j
  unfolding dispatch list_notifications get_notification mark_read mark_all_read
      dismiss_notification record_audit_event get_audit_event query_audit_events
      Repository.mark_read Repository.delete ◌>>=◌
  dispatch_other get_health r w v j h ne = refl
  dispatch_other get_notifications r w v j h ne = (Still-list v j _ _ _ _).at w
  dispatch_other post_notification r w v j h ne = absurd h
  dispatch_other post_bulk r w v j h ne = absurd h
  dispatch_other post_all_read r w v j h ne =
      SameOrMarked-other j (mark_all_read-SameOrMarked env P (tenant_of r) (user_of r) w v j) ne
  dispatch_other (get_notice id) r w v j h ne = (Still-find v j _ _).at w
  dispatch_other (post_read id) r w v j h ne =
      Put-other _ _ (tenant_of r) id v j _
        (P.notifications.update (tenant_of r) id _ w.notification_store).0
        (P.notifications.update_put (tenant_of r) id _ w.notification_store) ne
  dispatch_other (delete_notice id) r w v j h ne =
      Put-other _ _ (tenant_of r) id v j none
        (P.notifications.delete (tenant_of r) id w.notification_store).0
        (P.notifications.delete_put (tenant_of r) id w.notification_store) ne
  dispatch_other get_audit r w v j h ne = (Still-query v j _ _ _ _).at w
  dispatch_other post_audit r w v j h ne = Still-record_audit v j r w
  dispatch_other (get_event id) r w v j h ne = (Still-find_event v j _ _).at w

  -- A request that sends no notification changes, whatever it answers, no notification but those of
  -- the tenant that its header names.
  pub serve_other_tenants :
      (is_options : Bool) (route : Route) (r : Request) (w : World P) (v j : String)
      → SendsNone route
      → v ≢ tenant_of r
      → item_at env P (serve env P json is_options route r w).1 v j ≡ item_at env P w v j
  unfolding serve
  serve_other_tenants true route r w v j h ne = refl
  serve_other_tenants false route r w v j h ne = dispatch_other route r w v j h ne
