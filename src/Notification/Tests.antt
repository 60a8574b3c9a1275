-- ===== src/Notification/Tests.antt =====
-- Runs of the notification service on tables in memory, and the theorems at them.
use ops_nexus.Prelude.{
  none, some, true, false, ok, err, [], ◌∷◌, refl, arith, String, List, ℕ, ◌≡◌, ◌≤◌, ◌+◌, ◌^◌, ◌⊎◌,
}
use ops_nexus.Prelude.Int.{pos}
use ops_nexus.Prelude.Text.{ne_of_test}
use ops_nexus.Storage.World.{Env}
use ops_nexus.Notification.Domain.{Notification, AuditEvent, internal}
use ops_nexus.Notification.Items.{
  NotificationItem, from_notification_item, to_notification_item, notification_roundtrip,
  audit_roundtrip, to_audit_item, AuditItem, from_audit_item, whole_seconds,
}
use ops_nexus.Notification.Ports.{
  Ports, World, SendNotificationRequest, blank_notification, blank_event, AuditFilter,
}
use ops_nexus.Notification.Memory.{
  memory_table, seconds, number_maps, NumberMap, whole, decimal, ticks, ticks-ne,
}
use ops_nexus.Notification.Lifecycle
use ops_nexus.Notification.Lifecycle.{IsFresh, AllSpare, run_notices-Kept, run, item_at, Op}
use ops_nexus.Notification.Delivery.{sent_then_stored, IsReadBack}
use ops_nexus.Notification.Http.{serve, post_all_read, Decoder, Request}
use ops_nexus.Notification.Http.Tenants.{serve_other_tenants}
use ops_nexus.Notification.Reads.{SameOrMarked, mark_all_read-SameOrMarked}
use ops_nexus.Notification.Queries.{AllOf, IsAnswer, query_isolated, query_panics}
use ops_nexus.Notification.Paging.{paginate, length}
use ops_nexus.Notification.Paging.Bounds.{paginate_in_range}
use ops_nexus.Notification.Service.{new_notification, send}
use ops_nexus.Notification.Kept.{Kept}
use ops_nexus.Notification.Repository
use ops_nexus.Notification.Repository.{stored, mark, mark_read, mark_each, mark_all_read, query}
use ops_nexus.Prelude.{◌>>=◌}

abbrev ports : Ports
ports = record {
  notifications = memory_table (λ n. n.tenant_id) (λ n. n.id) blank_notification;
  events = memory_table (λ e. e.tenant_id) (λ e. e.id) blank_event;
  rfc = seconds;
  json = number_maps;
  text_le = λ a b. true;
}

abbrev env : Env
env = record { clock = λ k. 3000000000; uuid = ticks }

abbrev start : World ports
start = record { notification_store = []; event_store = []; readings = 0; identifiers = 0 }

abbrev greeting : SendNotificationRequest
greeting = record {
  tenant_id = "acme";
  user_id = "ann";
  notification_type = "info";
  title = "Hello";
  body = "Welcome";
  channel = "in_app";
  metadata = some [];
}

abbrev sent : World ports
sent = (send env ports greeting start).1

abbrev later_requests : List (Op NumberMap)
later_requests =
    Lifecycle.mark_read "acme" ""
    ∷ Lifecycle.send greeting
    ∷ Lifecycle.dismiss "acme" "i"
    ∷ Lifecycle.mark_all_read "acme" "ann"
    ∷ []

first-IsFresh : IsFresh env ports "acme" "" sent
unfolding send Repository.create ◌>>=◌
first-IsFresh k le = ticks-ne k 0 (λ e. absurd (omega (arith, le, e)))

spared : AllSpare env ports "acme" "" later_requests
unfolding AllSpare
spared = (tt, (tt, (refl, (tt, tt))))

abbrev first : Notification
first = new_notification greeting "" 3000000000

send_runs : (send env ports greeting start).0 ≡ ok first
unfolding send Repository.create ◌>>=◌
send_runs = refl

sent_then_stored_example :
    (first ≡ new_notification greeting (ticks 0) 3000000000)
    × ((m : NotificationItem) × (item_at env ports (run env ports later_requests sent) "acme" ""
          ≡ some m)
        × IsReadBack first (from_notification_item seconds m))
sent_then_stored_example =
    sent_then_stored env ports greeting later_requests start first send_runs spared first-IsFresh

abbrev item : NotificationItem
item = stored (to_notification_item seconds first)

item_there : item_at env ports sent "acme" "" ≡ some item
unfolding send Repository.create to_notification_item ◌>>=◌
item_there = refl

run_notices-Kept_example :
    (m : NotificationItem) × (item_at env ports (run env ports later_requests sent) "acme" ""
      ≡ some m)
    × Kept item m
run_notices-Kept_example =
    run_notices-Kept env ports "acme" "" later_requests sent item spared first-IsFresh item_there

mark_all_read-SameOrMarked_example :
    SameOrMarked "acme" "ann" "acme" ""
      (ports.notifications.seen sent.notification_store "acme" "")
      (item_at env ports sent "acme" "")
      (item_at env ports (mark_all_read env ports "acme" "ann" sent).1 "acme" "")
mark_all_read-SameOrMarked_example =
    mark_all_read-SameOrMarked env ports "acme" "ann" sent "acme" ""

-- What the loop does there.
mark_all_read_runs :
    item_at env ports (mark_all_read env ports "acme" "ann" sent).1 "acme" ""
    ≡ some (mark "iii" item)
unfolding mark_all_read mark_each mark_read send Repository.create to_notification_item ◌>>=◌
mark_all_read_runs = refl

abbrev any_event : AuditFilter
any_event = record {
  actor_id = none;
  action = none;
  resource = none;
  resource_id = none;
  from = none;
  to = none;
}

abbrev letters : List String
letters = "a" ∷ "b" ∷ "c" ∷ []

paginate_in_range_example : paginate (pos 2) (pos 2) letters ≡ some ("c" ∷ [])
paginate_in_range_example = paginate_in_range 1 2 letters (omega arith) (omega arith)

query_isolated_example :
    ((es : List (AuditEvent NumberMap)) × (total : ℕ) × ((query env ports "acme" any_event
          (pos 1)
          (pos 20)
          start).0
        ≡ ok (some (es, total)))
      × AllOf (IsAnswer env ports start "acme" any_event) es
      × (length es ≤ 20))
    ⊎ ((query env ports "acme" any_event (pos 1) (pos 20) start).0 ≡ err internal)
query_isolated_example =
    query_isolated env ports "acme" any_event 0 20 start (omega arith) (omega arith)

query_panics_example :
    ((query env ports "acme" any_event (pos (2 ^ 62 + 1)) (pos 2) start).0 ≡ ok none)
    ⊎ ((query env ports "acme" any_event (pos (2 ^ 62 + 1)) (pos 2) start).0 ≡ err internal)
query_panics_example =
    query_panics env ports "acme" any_event (2 ^ 62) 2 start (omega arith) (omega arith)
      (omega arith)

notification_roundtrip_example :
    from_notification_item seconds (to_notification_item seconds first)
    ≡ record first { created_at = whole_seconds 3000000000; read_at = none }
notification_roundtrip_example = notification_roundtrip seconds first

abbrev login_event : AuditEvent NumberMap
login_event = record {
  id = "1";
  tenant_id = "acme";
  actor_id = "ann";
  actor_email = "ann@acme.test";
  action = "login";
  resource = "session";
  resource_id = "7";
  old_value = none;
  new_value = some (whole 2);
  ip_address = "10.0.0.1";
  user_agent = "test";
  timestamp = 3500000000;
}

abbrev login_item : AuditItem
login_item = record {
  tenant_id = "acme";
  id = "1";
  actor_id = "ann";
  actor_email = "ann@acme.test";
  action = "login";
  resource = "session";
  resource_id = "7";
  old_value = "";
  new_value = "{ii";
  ip_address = "10.0.0.1";
  user_agent = "test";
  timestamp = "iii";
}

login_written : to_audit_item seconds number_maps login_event ≡ some login_item
unfolding to_audit_item
login_written = refl

audit_roundtrip_example :
    from_audit_item seconds number_maps login_item
    ≡ record login_event { timestamp = 3000000000; new_value = some (decimal 2) }
audit_roundtrip_example = audit_roundtrip seconds number_maps login_event login_item login_written

abbrev decoder : Decoder NumberMap
decoder = record { send_request = λ s. none; send_requests = λ s. none; record_request = λ s. none }

abbrev of_zeta : Request
of_zeta = record {
  tenant_header = "zeta";
  user_header = "ann";
  page = "";
  limit = "";
  user = "";
  actor = "";
  action = "";
  resource = "";
  resource_id = "";
  body = "";
}

serve_other_tenants_example :
    item_at env ports (serve env ports decoder false post_all_read of_zeta sent).1 "acme" ""
    ≡ item_at env ports sent "acme" ""
serve_other_tenants_example =
    serve_other_tenants env ports decoder false post_all_read of_zeta sent "acme" "" tt
      (ne_of_test "acme" "zeta" refl)
