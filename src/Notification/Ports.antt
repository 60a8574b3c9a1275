-- ===== src/Notification/Ports.antt =====
-- services/notification-service/internal/ports: the requests; and a DynamoDB table, which is not part
-- of the repository, by what its documentation promises.
use ops_nexus.Prelude.{
  none, some, true, false, ok, err, [], ◌∷◌, String, Bool, Option, List, ℕ, Exec, Result, ◌≡◌, ◌==◌,
  ◌&&◌, if◌then◌else◌, ◌⊎◌,
}
use ops_nexus.Prelude.Time.{Time}
use ops_nexus.Storage.{Fault}
use ops_nexus.Notification.Domain.{NotificationType, NotificationChannel}
use ops_nexus.Notification.Items.{NotificationItem, AuditItem, Rfc3339, JsonMaps}

pub record SendNotificationRequest : Type 0 where
  pub tenant_id : String
  pub user_id : String
  pub notification_type : NotificationType
  pub title : String
  pub body : String
  pub channel : NotificationChannel
  pub metadata : Option (List (String × String))

pub record RecordAuditRequest (JsonMap : Type 0) : Type 0 where
  pub tenant_id : String
  pub actor_id : String
  pub actor_email : String
  pub action : String
  pub resource : String
  pub resource_id : String
  pub old_value : Option JsonMap
  pub new_value : Option JsonMap
  pub ip_address : String
  pub user_agent : String

pub record AuditFilter : Type 0 where
  pub actor_id : Option String
  pub action : Option String
  pub resource : Option String
  pub resource_id : Option String
  pub from : Option Time
  pub to : Option Time

-- A table's content: an item for a tenant and an identifier.
abbrev pub Items : Type 0 → Type 0
Items A = String → String → Option A

abbrev pub Puts : {A : Type 0} → Items A → Items A → String → String → Option A → Type 0
Puts before after t i o = (u j : String) → after u j ≡ (if t == u && i == j then o else before u j)

abbrev pub SameItems : {A : Type 0} → Items A → Items A → Type 0
SameItems before after = (u j : String) → after u j ≡ before u j

-- A write that succeeds has written; one that fails has written or changed nothing.
abbrev pub Put :
    {A R : Type 0} → Items A → Items A → String → String → Option A → Result Fault R → Type 0
Put before after t i o (ok u) = Puts before after t i o
Put before after t i o (err e) = SameItems before after ⊎ Puts before after t i o

abbrev pub or_blank : {A : Type 0} → A → Option A → A
or_blank blank none = blank
or_blank blank (some a) = a

-- What `Query` returns: items that it sees of the tenant and that pass the filter. It need not be all of them, since
-- one call reads one megabyte at most.
abbrev pub Queried : {A : Type 0} → Items A → String → (A → String) → (A → Bool) → List A → Type 0
Queried items t id_of p [] = Unit
Queried items t id_of p (x ∷ xs) =
    (items t (id_of x) ≡ some x) × (p x ≡ true) × Queried items t id_of p xs

-- `update` changes the item of a key, and makes a blank one first where there is none. Reads are
-- eventually consistent, since none asks for `ConsistentRead`: they see items that may lag behind
-- those of the table, and no law ties the two.
pub record DynamoTable (A : Type 0) (tenant_of id_of : A → String) (blank : String → String → A)
    : Type 1 where
  pub Store : Type 0
  pub items : Store → Items A
  pub seen : Store → Items A
  pub put : A → Exec Fault Store (Unit {0})
  pub get : String → String → Store → Result Fault (Option A)
  pub query : String → (A → Bool) → Store → Result Fault (List A)
  pub update : String → String → (A → A) → Exec Fault Store (Unit {0})
  pub delete : String → String → Exec Fault Store (Unit {0})
  pub get_ok : (t i : String) (s : Store) (o : Option A) → get t i s ≡ ok o → seen s t i ≡ o
  pub query_ok :
      (t : String) (p : A → Bool) (s : Store) (xs : List A)
      → query t p s ≡ ok xs
      → Queried (seen s) t id_of p xs
  pub put_put :
      (a : A) (s : Store)
      → Put (items s) (items (put a s).1) (tenant_of a) (id_of a) (some a) (put a s).0
  pub update_put :
      (t i : String) (f : A → A) (s : Store)
      → Put
          (items s)
          (items (update t i f s).1)
          t
          i
          (some (f (or_blank (blank t i) (items s t i))))
          (update t i f s).0
  pub delete_put :
      (t i : String) (s : Store) → Put (items s) (items (delete t i s).1) t i none (delete t i s).0

-- An item with its keys alone, as it is read into a struct.
abbrev pub blank_notification : String → String → NotificationItem
blank_notification t i = record {
  tenant_id = t;
  id = i;
  user_id = "";
  notification_type = "";
  title = "";
  body = "";
  channel = "";
  read = false;
  read_at = none;
  metadata = none;
  created_at = "";
}

abbrev pub blank_event : String → String → AuditItem
blank_event t i = record {
  tenant_id = t;
  id = i;
  actor_id = "";
  actor_email = "";
  action = "";
  resource = "";
  resource_id = "";
  old_value = "";
  new_value = "";
  ip_address = "";
  user_agent = "";
  timestamp = "";
}

-- The two tables, and the encodings.
pub record Ports : Type 1 where
  pub notifications : DynamoTable NotificationItem (λ n. n.tenant_id) (λ n. n.id) blank_notification
  pub events : DynamoTable AuditItem (λ e. e.tenant_id) (λ e. e.id) blank_event
  pub rfc : Rfc3339
  pub json : JsonMaps
  -- `a <= b` of texts, as the table compares them
  pub text_le : String → String → Bool

pub record World (P : Ports) : Type 0 where
  pub notification_store : P.notifications.Store
  pub event_store : P.events.Store
  pub readings : ℕ
  pub identifiers : ℕ
