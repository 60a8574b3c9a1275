-- ===== src/Notification/Service.antt =====
-- services/notification-service/internal/application: notification_service.go and audit_service.go.
-- Logging is left out.
use ops_nexus.Prelude.{none, false, [], ◌∷◌, String, ℕ, List, Option, pure, ◌>>=◌, ◌>>◌}
use ops_nexus.Prelude.Time.{Time}
use ops_nexus.Prelude.Int.{ℤ}
use ops_nexus.Storage.World.{Env}
use ops_nexus.Notification.Domain.{Notification, AuditEvent}
use ops_nexus.Notification.Ports.{Ports, AuditFilter, SendNotificationRequest, RecordAuditRequest}
use ops_nexus.Notification.Repository.{Action, now, new_id}
use ops_nexus.Notification.Repository

-- The notification that `Send` makes.
abbrev pub new_notification : SendNotificationRequest → String → Time → Notification
new_notification req id created = record {
  id = id;
  tenant_id = req.tenant_id;
  user_id = req.user_id;
  notification_type = req.notification_type;
  title = req.title;
  body = req.body;
  channel = req.channel;
  read = false;
  read_at = none;
  metadata = req.metadata;
  created_at = created;
}

module _ (env : Env) (P : Ports) where
  unfoldable pub send : SendNotificationRequest → Action env P Notification
  send req = do
    id ← new_id env P
    created ← now env P
    Repository.create env P (new_notification req id created)
    pure (new_notification req id created)

  -- It stops at the first error, and what was sent before it stays sent.
  unfoldable pub send_bulk : List SendNotificationRequest → Action env P (Unit {0})
  send_bulk [] = pure tt
  send_bulk (req ∷ reqs) = do send req; send_bulk reqs

  abbrev pub get_notification : String → String → Action env P Notification
  get_notification t i = Repository.find_by_id env P t i

  abbrev pub list_for_user : String → String → ℤ → ℤ → Action env P (Option (List Notification × ℕ))
  list_for_user t u page limit = Repository.list_by_user env P t u page limit

  abbrev pub mark_read : String → String → Action env P (Unit {0})
  mark_read t i = Repository.mark_read env P t i

  abbrev pub mark_all_read : String → String → Action env P (Unit {0})
  mark_all_read t u = Repository.mark_all_read env P t u

  abbrev pub dismiss : String → String → Action env P (Unit {0})
  dismiss t i = Repository.delete env P t i

  unfoldable pub record_audit : RecordAuditRequest P.json.Map → Action env P (AuditEvent P.json.Map)
  record_audit req = do
    id ← new_id env P
    timestamp ← now env P
    let e : AuditEvent P.json.Map = record {
      id = id;
      tenant_id = req.tenant_id;
      actor_id = req.actor_id;
      actor_email = req.actor_email;
      action = req.action;
      resource = req.resource;
      resource_id = req.resource_id;
      old_value = req.old_value;
      new_value = req.new_value;
      ip_address = req.ip_address;
      user_agent = req.user_agent;
      timestamp = timestamp;
    }
    Repository.record_event env P e
    pure e

  abbrev pub get_event : String → String → Action env P (AuditEvent P.json.Map)
  get_event t i = Repository.find_event env P t i

  abbrev pub query_events :
      String → AuditFilter → ℤ → ℤ → Action env P (Option (List (AuditEvent P.json.Map) × ℕ))
  query_events t f page limit = Repository.query env P t f page limit
