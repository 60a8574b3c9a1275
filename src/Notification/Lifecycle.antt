-- ===== src/Notification/Lifecycle.antt =====
-- What services/notification-service/internal/application keeps of a stored notification over any
-- sequence of requests.
use native.Mathlib.Nat.{le_trans}
use ops_nexus.Prelude.{
  none, some, true, false, ok, err, [], ◌∷◌, refl, arith, Exec, Result, Option, String, List, ℕ,
  ◌≤◌, ◌≡◌, ◌≢◌, ◌==◌, ◌&&◌, continue, ◌>>=◌, attempt, pure,
}
use ops_nexus.Prelude.Int.{ℤ}
use ops_nexus.Storage.{Fault}
use ops_nexus.Storage.World.{Env}
use ops_nexus.Notification.Domain.{Error, Notification}
use ops_nexus.Notification.Items.{NotificationItem, AuditItem, to_notification_item}
use ops_nexus.Notification.Ports.{
  Ports, World, AuditFilter, SendNotificationRequest, RecordAuditRequest, or_blank,
  blank_notification,
}
use ops_nexus.Notification.Repository.{
  Action, now, new_id, mark, mark_each, stored, found, on_notifications, on_events, put_event,
}
use ops_nexus.Notification.Repository
use ops_nexus.Notification.Service
use ops_nexus.Notification.Kept.{
  Kept, Kept-mark, KeptAt, KeptAt-same, KeptAt-trans, KeptAt-Put, same_keys,
}

-- The requests to the notification and the audit service.
pub data Op (JsonMap : Type 0) : Type 0 where
  send : SendNotificationRequest → Op JsonMap
  send_bulk : List SendNotificationRequest → Op JsonMap
  get_notification : String → String → Op JsonMap
  list_for_user : String → String → ℤ → ℤ → Op JsonMap
  mark_read : String → String → Op JsonMap
  mark_all_read : String → String → Op JsonMap
  dismiss : String → String → Op JsonMap
  record_audit : RecordAuditRequest JsonMap → Op JsonMap
  get_event : String → String → Op JsonMap
  query_events : String → AuditFilter → ℤ → ℤ → Op JsonMap

module _ (env : Env) (P : Ports) where
  -- The state after a request, whatever its answer.
  unfoldable pub execute : Op P.json.Map → World P → World P
  execute (send req) w = (Service.send env P req w).1
  execute (send_bulk reqs) w = (Service.send_bulk env P reqs w).1
  execute (get_notification t i) w = (Service.get_notification env P t i w).1
  execute (list_for_user t u page limit) w = (Service.list_for_user env P t u page limit w).1
  execute (mark_read t i) w = (Service.mark_read env P t i w).1
  execute (mark_all_read t u) w = (Service.mark_all_read env P t u w).1
  execute (dismiss t i) w = (Service.dismiss env P t i w).1
  execute (record_audit req) w = (Service.record_audit env P req w).1
  execute (get_event t i) w = (Service.get_event env P t i w).1
  execute (query_events t f page limit) w = (Service.query_events env P t f page limit w).1

  unfoldable pub run : List (Op P.json.Map) → World P → World P
  run [] w = w
  run (op ∷ ops) w = run ops (execute op w)

  abbrev pub item_at : World P → String → String → Option NotificationItem
  item_at w = P.notifications.items w.notification_store

  module _ (t i : String) where
    -- No later reading of the generator gives the identifier.
    abbrev pub IsFresh : World P → Type 0
    IsFresh w = (k : ℕ) → w.identifiers ≤ k → env.uuid k ≢ i

    -- No request dismisses the notification.
    abbrev pub Spares : Op P.json.Map → Type 0
    Spares (send req) = Unit
    Spares (send_bulk reqs) = Unit
    Spares (get_notification u j) = Unit
    Spares (list_for_user u j page limit) = Unit
    Spares (mark_read u j) = Unit
    Spares (mark_all_read u j) = Unit
    Spares (dismiss u j) = (u == t && j == i) ≡ false
    Spares (record_audit req) = Unit
    Spares (get_event u j) = Unit
    Spares (query_events u f page limit) = Unit

    unfoldable pub AllSpare : List (Op P.json.Map) → Type 0
    AllSpare [] = Unit
    AllSpare (op ∷ ops) = Spares op × AllSpare ops

    record Holds (w w' : World P) : Type 0 where
      kept : KeptAt (item_at w t i) (item_at w' t i)
      later : w.identifiers ≤ w'.identifiers

    Holds-refl : (w : World P) → Holds w w
    Holds-refl w = record { kept = KeptAt-same refl; later = omega arith }

    Holds-trans : {a b c : World P} → Holds a b → Holds b c → Holds a c
    Holds-trans f g = record { kept = KeptAt-trans f.kept g.kept; later = le_trans f.later g.later }

    IsFresh-Holds : {w w' : World P} → IsFresh w → Holds w w' → IsFresh w'
    IsFresh-Holds f h k le = f k (le_trans h.later le)

    record Safe {A : Type 0} (m : Action env P A) : Type 0 where
      at : (w : World P) → IsFresh w → Holds w (m w).1

    Safe-bind :
        {A B : Type 0} (m : Action env P A) (f : A → Action env P B)
        → Safe m
        → ((a : A) → Safe (f a))
        → Safe (m >>= f)
    unfolding ◌>>=◌
    Safe-bind {A} {B} m f hm hf = record {
      at = λ w fresh.
          Holds-trans (hm.at w fresh) (go (m w).0 (m w).1 (IsFresh-Holds fresh (hm.at w fresh)));
    }
      where
        go : (r : Result Error A) (w : World P) → IsFresh w → Holds w (continue r f w).1
        go (ok a) w fresh = (hf a).at w fresh
        go (err e) w fresh = Holds-refl w

    -- A call that leaves the notifications and the generator alone.
    Safe-still :
        {A : Type 0} (m : Action env P A)
        → ((w : World P) → item_at (m w).1 t i ≡ item_at w t i)
        → ((w : World P) → (m w).1.identifiers ≡ w.identifiers)
        → Safe m
    Safe-still m same ids = record {
      at = λ w fresh. record { kept = KeptAt-same (same w); later = omega (arith, ids w) };
    }

    Safe-attempt : {A : Type 0} (m : Action env P A) → Safe m → Safe (attempt m)
    Safe-attempt m h = record { at = λ w fresh. h.at w fresh }

    Safe-pure : {A : Type 0} (a : A) → Safe (pure a)
    Safe-pure a = Safe-still _ (λ w. refl) (λ w. refl)

    Safe-now : Safe (now env P)
    Safe-now = Safe-still _ (λ w. refl) (λ w. refl)

    Safe-new_id : Safe (new_id env P)
    Safe-new_id = record { at = λ w fresh. record { kept = KeptAt-same refl; later = omega arith } }

    Safe-read :
        {A : Type 0} (f : P.notifications.Store → Result Fault A)
        → Safe (on_notifications env P (λ s. (f s, s)))
    Safe-read f = Safe-still _ (λ w. refl) (λ w. refl)

    Safe-events : {A : Type 0} (m : Exec Fault P.events.Store A) → Safe (on_events env P m)
    Safe-events m = Safe-still _ (λ w. refl) (λ w. refl)

    Safe-found : {A B : Type 0} (e : Error) (f : A → B) (o : Option A) → Safe (found e f o)
    Safe-found e f none = Safe-still _ (λ w. refl) (λ w. refl)
    Safe-found e f (some a) = Safe-pure (f a)

    ruleset still = (Safe-pure, Safe-now, Safe-read, Safe-events, Safe-found, Safe-bind)

    marked :
        (u j : String) (s : P.notifications.Store) (at : String)
        → (u == t && j == i) ≡ true
        → KeptAt
            (P.notifications.items s t i)
            (some (mark at (or_blank (blank_notification u j) (P.notifications.items s u j))))
    marked u j s at e n p =
        let (q, r) = same_keys u j t i e in
        let there : P.notifications.items s u j ≡ some n = rw (q, r) p in
        (mark at n, rw there refl, Kept-mark at n)

    Safe-mark_read : (u j : String) → Safe (Repository.mark_read env P u j)
    unfolding Repository.mark_read
    Safe-mark_read u j = Safe-bind _ _ Safe-now λ at. record {
      at = λ w fresh. record {
        kept =
            KeptAt-Put _ _ u j t i _ (P.notifications.update u j _ w.notification_store).0
              (P.notifications.update_put u j _ w.notification_store)
              (marked u j w.notification_store (P.rfc.format at));
        later = omega arith;
      };
    }

    Safe-mark_each : (u : String) (items : List NotificationItem) → Safe (mark_each env P u items)
    unfolding mark_each
    Safe-mark_each u [] = Safe-pure tt
    Safe-mark_each u (item ∷ items) =
        Safe-bind _ _ (Safe-attempt _ (Safe-mark_read u item.id)) (λ r. Safe-mark_each u items)

    Safe-with_id :
        {B : Type 0} (f : String → Action env P B)
        → ((id : String) → id ≢ i → Safe (f id))
        → Safe (new_id env P >>= f)
    unfolding ◌>>=◌
    Safe-with_id f hf = record {
      at = λ w fresh.
          let first = Safe-new_id.at w fresh in
          Holds-trans first (
            (hf (env.uuid w.identifiers) (fresh w.identifiers (omega arith))).at _
              (IsFresh-Holds fresh first));
    }

    Safe-create : (n : Notification) → n.id ≢ i → Safe (Repository.create env P n)
    unfolding Repository.create to_notification_item
    Safe-create n ne = record {
      at = λ w fresh. record {
        kept =
            KeptAt-Put _ _ n.tenant_id n.id t i _ (P.notifications.put _ w.notification_store).0
              (P.notifications.put_put (stored (to_notification_item P.rfc n)) w.notification_store)
              (λ e. absurd (ne (same_keys n.tenant_id n.id t i e).1));
        later = omega arith;
      };
    }

    Safe-send : (req : SendNotificationRequest) → Safe (Service.send env P req)
    unfolding Service.send
    Safe-send req =
        Safe-with_id _
          λ id ne. Safe-bind _ _ Safe-now λ c. Safe-bind _ _ (Safe-create _ ne) (λ x. Safe-pure _)

    Safe-dismiss : (u j : String) → (u == t && j == i) ≡ false → Safe (Repository.delete env P u j)
    unfolding Repository.delete
    Safe-dismiss u j ne = record {
      at = λ w fresh. record {
        kept =
            KeptAt-Put _ _ u j t i none (P.notifications.delete u j w.notification_store).0
              (P.notifications.delete_put u j w.notification_store) (λ e. cc);
        later = omega arith;
      };
    }

    Safe-find : (u j : String) → Safe (Repository.find_by_id env P u j)
    unfolding Repository.find_by_id
    Safe-find u j = search still depth 8

    Safe-send_bulk : (reqs : List SendNotificationRequest) → Safe (Service.send_bulk env P reqs)
    unfolding Service.send_bulk
    Safe-send_bulk [] = Safe-pure tt
    Safe-send_bulk (req ∷ reqs) = Safe-bind _ _ (Safe-send req) (λ n. Safe-send_bulk reqs)

    Safe-put_event : (o : Option AuditItem) → Safe (put_event env P o)
    Safe-put_event none = Safe-still _ (λ w. refl) (λ w. refl)
    Safe-put_event (some item) = Safe-events _

    Safe-record : (req : RecordAuditRequest P.json.Map) → Safe (Service.record_audit env P req)
    unfolding Service.record_audit Repository.record_event
    Safe-record req =
        Safe-bind _ _ Safe-new_id
          λ id. Safe-bind _ _ Safe-now λ at. Safe-bind _ _ (Safe-put_event _) (λ x. Safe-pure _)

    Safe-mark_all : (u v : String) → Safe (Repository.mark_all_read env P u v)
    unfolding Repository.mark_all_read
    Safe-mark_all u v = Safe-bind _ _ (Safe-read _) (λ items. Safe-mark_each u items)

    Safe-list :
        (u v : String) (page limit : ℤ) → Safe (Repository.list_by_user env P u v page limit)
    unfolding Repository.list_by_user
    Safe-list u v page limit = search still depth 8

    Safe-find_event : (u j : String) → Safe (Repository.find_event env P u j)
    unfolding Repository.find_event
    Safe-find_event u j = search still depth 8

    Safe-query :
        (u : String) (f : AuditFilter) (page limit : ℤ)
        → Safe (Repository.query env P u f page limit)
    unfolding Repository.query
    Safe-query u f page limit = search still depth 8

    execute-Holds :
        (op : Op P.json.Map) (w : World P) → Spares op → IsFresh w → Holds w (execute op w)
    unfolding execute
    execute-Holds (send req) w h fresh = (Safe-send req).at w fresh
    execute-Holds (send_bulk reqs) w h fresh = (Safe-send_bulk reqs).at w fresh
    execute-Holds (get_notification u j) w h fresh = (Safe-find u j).at w fresh
    execute-Holds (list_for_user u v page limit) w h fresh = (Safe-list u v page limit).at w fresh
    execute-Holds (mark_read u j) w h fresh = (Safe-mark_read u j).at w fresh
    execute-Holds (mark_all_read u v) w h fresh = (Safe-mark_all u v).at w fresh
    execute-Holds (dismiss u j) w h fresh = (Safe-dismiss u j h).at w fresh
    execute-Holds (record_audit req) w h fresh = (Safe-record req).at w fresh
    execute-Holds (get_event u j) w h fresh = (Safe-find_event u j).at w fresh
    execute-Holds (query_events u f page limit) w h fresh = (Safe-query u f page limit).at w fresh

    run-Holds :
        (ops : List (Op P.json.Map)) (w : World P) → AllSpare ops → IsFresh w → Holds w (run ops w)
    unfolding run AllSpare
    run-Holds [] w h fresh = Holds-refl w
    run-Holds (op ∷ ops) w (h, hs) fresh =
        let first = execute-Holds op w h fresh in
        Holds-trans first (run-Holds ops (execute op w) hs (IsFresh-Holds fresh first))

    -- A notification that is stored is still there after any requests to the service, failed ones
    -- included, that do not dismiss it, with its content unchanged, and read if it was, where the
    -- generator gives its identifier to no later notification.
    pub run_notices-Kept :
        (ops : List (Op P.json.Map)) (w : World P) (n : NotificationItem)
        → AllSpare ops
        → IsFresh w
        → item_at w t i ≡ some n
        → (m : NotificationItem) × (item_at (run ops w) t i ≡ some m) × Kept n m
    run_notices-Kept ops w n h fresh p = (run-Holds ops w h fresh).kept n p
