-- ===== src/Notification/Items.antt =====
-- The items of services/notification-service/internal/adapters/dynamodb and the conversions to and
-- from the domain. `time.RFC3339` and `encoding/json` are parameters.
use ops_nexus.Prelude.{
  none, some, refl, String, Bool, Option, List, ◌-◌, ◌%◌, ◌≡◌, ◌≢◌, ◌==◌, if◌then◌else◌, [], ◌∷◌,
  ap, ap₂, Option-cases, subst, inl, inr,
}
use ops_nexus.Prelude.Time.{Time}
use ops_nexus.Prelude.Text.{test_of_ne}
use ops_nexus.Notification.Domain.{Notification, AuditEvent}

-- The start of the second.
abbrev pub whole_seconds : Time → Time
whole_seconds t = t - t % 1000000000

-- `t.Format(time.RFC3339)` writes whole seconds, and `time.Parse` reads them back.
pub record Rfc3339 : Type 0 where
  pub format : Time → String
  pub parse : String → Option Time
  pub parse_format : (t : Time) → parse (format t) ≡ some (whole_seconds t)

-- `encoding/json` on `map[string]any`. What is read back of a map need not be the map: every number
-- becomes a float64, for one. `as_read` says what it becomes.
pub record JsonMaps : Type 1 where
  pub Map : Type 0
  pub marshal : Map → Option String
  pub unmarshal : String → Option Map
  pub as_read : Map → Map
  pub unmarshal_marshal :
      (m : Map) (s : String) → marshal m ≡ some s → unmarshal s ≡ some (as_read m)
  pub marshal-ne : (m : Map) (s : String) → marshal m ≡ some s → s ≢ ""

pub record NotificationItem : Type 0 where
  pub tenant_id : String
  pub id : String
  pub user_id : String
  pub notification_type : String
  pub title : String
  pub body : String
  pub channel : String
  pub read : Bool
  pub read_at : Option String
  pub metadata : Option (List (String × String))
  pub created_at : String

pub record AuditItem : Type 0 where
  pub tenant_id : String
  pub id : String
  pub actor_id : String
  pub actor_email : String
  pub action : String
  pub resource : String
  pub resource_id : String
  pub old_value : String
  pub new_value : String
  pub ip_address : String
  pub user_agent : String
  pub timestamp : String

-- `omitempty`: a map with no entries is not stored, and is nil when it is read.
abbrev pub omit_empty : Option (List (String × String)) → Option (List (String × String))
omit_empty none = none
omit_empty (some []) = none
omit_empty (some (x ∷ xs)) = some (x ∷ xs)

some_not_none : {item : AuditItem} → ◌≡◌ {A = Option AuditItem} none (some item) → ⊥
some_not_none e = cc

or_first : AuditItem → Option AuditItem → AuditItem
or_first i none = i
or_first i (some j) = j

some_injective : {i j : AuditItem} → ◌≡◌ {A = Option AuditItem} (some i) (some j) → i ≡ j
unfolding or_first
some_injective {i} e = ap (or_first i) e

module _ (rfc : Rfc3339) where
  abbrev pub format_option : Option Time → Option String
  format_option none = none
  format_option (some t) = some (rfc.format t)

  abbrev pub or_zero : Option Time → Time
  or_zero none = 0
  or_zero (some t) = t

  -- Go's zero time where the text is no time.
  abbrev pub parsed : String → Time
  parsed s = or_zero (rfc.parse s)

  abbrev pub parse_option : Option String → Option Time
  parse_option none = none
  parse_option (some s) = rfc.parse s

  -- `toNotificationItem`
  unfoldable pub to_notification_item : Notification → NotificationItem
  to_notification_item n = record {
    tenant_id = n.tenant_id;
    id = n.id;
    user_id = n.user_id;
    notification_type = n.notification_type;
    title = n.title;
    body = n.body;
    channel = n.channel;
    read = n.read;
    read_at = format_option n.read_at;
    metadata = n.metadata;
    created_at = rfc.format n.created_at;
  }

  -- `fromNotificationItem`
  unfoldable pub from_notification_item : NotificationItem → Notification
  from_notification_item item = record {
    id = item.id;
    tenant_id = item.tenant_id;
    user_id = item.user_id;
    notification_type = item.notification_type;
    title = item.title;
    body = item.body;
    channel = item.channel;
    read = item.read;
    read_at = parse_option item.read_at;
    metadata = item.metadata;
    created_at = parsed item.created_at;
  }

  abbrev pub whole_option : Option Time → Option Time
  whole_option none = none
  whole_option (some t) = some (whole_seconds t)

  parse_format_option : (o : Option Time) → parse_option (format_option o) ≡ whole_option o
  parse_format_option none = refl
  parse_format_option (some t) = rfc.parse_format t

  pub parsed_format : (t : Time) → parsed (rfc.format t) ≡ whole_seconds t
  parsed_format t = ap or_zero (rfc.parse_format t)

  -- A notification that is written as an item and read back is the same, with its times cut to
  -- whole seconds.
  pub notification_roundtrip :
      (n : Notification)
      → from_notification_item (to_notification_item n)
        ≡ record n { created_at = whole_seconds n.created_at; read_at = whole_option n.read_at }
  unfolding from_notification_item to_notification_item
  notification_roundtrip n =
      ap₂ (λ (c : Time) (r : Option Time). record n { created_at = c; read_at = r })
        (parsed_format n.created_at) (parse_format_option n.read_at)

  module _ (json : JsonMaps) where
    -- A value that is nil gives no text.
    abbrev pub marshal_value : Option json.Map → Option String
    marshal_value none = some ""
    marshal_value (some m) = json.marshal m

    -- `if s != "" { _ = json.Unmarshal(…) }`
    abbrev pub unmarshal_value : String → Option json.Map
    unmarshal_value s = if s == "" then none else json.unmarshal s

    abbrev pub audit_item : AuditEvent json.Map → String → String → AuditItem
    audit_item e old new = record {
      tenant_id = e.tenant_id;
      id = e.id;
      actor_id = e.actor_id;
      actor_email = e.actor_email;
      action = e.action;
      resource = e.resource;
      resource_id = e.resource_id;
      old_value = old;
      new_value = new;
      ip_address = e.ip_address;
      user_agent = e.user_agent;
      timestamp = rfc.format e.timestamp;
    }

    abbrev pub audit_item_of :
        AuditEvent json.Map → Option String → Option String → Option AuditItem
    audit_item_of e none new = none
    audit_item_of e (some old) none = none
    audit_item_of e (some old) (some new) = some (audit_item e old new)

    -- `toAuditItem`; `none` is its error
    unfoldable pub to_audit_item : AuditEvent json.Map → Option AuditItem
    to_audit_item e = audit_item_of e (marshal_value e.old_value) (marshal_value e.new_value)

    -- `fromAuditItem`
    unfoldable pub from_audit_item : AuditItem → AuditEvent json.Map
    from_audit_item item = record {
      id = item.id;
      tenant_id = item.tenant_id;
      actor_id = item.actor_id;
      actor_email = item.actor_email;
      action = item.action;
      resource = item.resource;
      resource_id = item.resource_id;
      old_value = unmarshal_value item.old_value;
      new_value = unmarshal_value item.new_value;
      ip_address = item.ip_address;
      user_agent = item.user_agent;
      timestamp = parsed item.timestamp;
    }

    abbrev pub value_as_read : Option json.Map → Option json.Map
    value_as_read none = none
    value_as_read (some m) = some (json.as_read m)

    -- What an event is read back as.
    abbrev pub event_as_read : AuditEvent json.Map → AuditEvent json.Map
    event_as_read e = record e {
      timestamp = whole_seconds e.timestamp;
      old_value = value_as_read e.old_value;
      new_value = value_as_read e.new_value;
    }

    value_roundtrip :
        (v : Option json.Map) (s : String)
        → marshal_value v ≡ some s
        → unmarshal_value s ≡ value_as_read v
    value_roundtrip none s e = let p : s ≡ "" = cc in rw p refl
    value_roundtrip (some m) s e =
        rw (test_of_ne s "" (json.marshal-ne m s e)) (json.unmarshal_marshal m s e)

    read_back :
        (e : AuditEvent json.Map) (old new : String)
        → marshal_value e.old_value ≡ some old
        → marshal_value e.new_value ≡ some new
        → from_audit_item (audit_item e old new) ≡ event_as_read e
    unfolding from_audit_item
    read_back e old new p q =
        rw
          (
            value_roundtrip e.old_value old p,
            value_roundtrip e.new_value new q,
            parsed_format e.timestamp,
          )
          refl

    item_of :
        (e : AuditEvent json.Map) (item : AuditItem) (old new : String)
        → marshal_value e.old_value ≡ some old
        → marshal_value e.new_value ≡ some new
        → some (audit_item e old new) ≡ some item
        → from_audit_item item ≡ event_as_read e
    item_of e item old new p q h =
        let same : audit_item e old new ≡ item = some_injective h in
        subst (λ i. from_audit_item i ≡ event_as_read e) same (read_back e old new p q)

    -- An audit event that is written as an item, where its values can be encoded, and read back is
    -- the same, with its time cut to whole seconds, a value that is nil still nil, and another value
    -- as encoding/json reads back what it wrote.
    pub audit_roundtrip :
        (e : AuditEvent json.Map) (item : AuditItem)
        → to_audit_item e ≡ some item
        → from_audit_item item ≡ event_as_read e
    unfolding to_audit_item
    audit_roundtrip e item h = elim (Option-cases (marshal_value e.old_value)) [
      | inl p ↦ absurd (some_not_none (rw p at h))
      | inr (old, p) ↦ elim (Option-cases (marshal_value e.new_value)) [
        | inl q ↦ absurd (some_not_none (rw (p, q) at h))
        | inr (new, q) ↦ item_of e item old new p q (rw (p, q) at h)
      ]
    ]
