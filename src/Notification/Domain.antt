-- ===== src/Notification/Domain.antt =====
-- services/notification-service/internal/domain.
use ops_nexus.Prelude.{String, Bool, Option, List}
use ops_nexus.Prelude.Time.{Time}

pub data Error : Type 0 where
  notification_not_found audit_event_not_found invalid_input internal : Error

abbrev pub NotificationType : Type 0
NotificationType = String

abbrev pub NotificationChannel : Type 0
NotificationChannel = String

-- `metadata` is a map, by its entries, that may be nil.
pub record Notification : Type 0 where
  pub id : String
  pub tenant_id : String
  pub user_id : String
  pub notification_type : NotificationType
  pub title : String
  pub body : String
  pub channel : NotificationChannel
  pub read : Bool
  pub read_at : Option Time
  pub metadata : Option (List (String × String))
  pub created_at : Time

-- `JsonMap` is `map[string]any`; a map that is nil is `none`.
pub record AuditEvent (JsonMap : Type 0) : Type 0 where
  pub id : String
  pub tenant_id : String
  pub actor_id : String
  pub actor_email : String
  pub action : String
  pub resource : String
  pub resource_id : String
  pub old_value : Option JsonMap
  pub new_value : Option JsonMap
  pub ip_address : String
  pub user_agent : String
  pub timestamp : Time
