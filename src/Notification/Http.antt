-- ===== src/Notification/Http.antt =====
-- services/notification-service/internal/adapters/http: handler.go, and CORSMiddleware and
-- NewRouter. How chi finds the route of a method and a path is not part of the repository: a request
-- comes with its route. Of a reply the model keeps the status and the values that are encoded, and
-- of an error that it has one. `encoding/json` decodes the body of a request: a parameter for each
-- struct, `none` where it fails. A panic is a reply of chi's `Recoverer`. Logging is left out.
pub mod Tenants
use ops_nexus.Prelude.{
  none, some, ok, err, String, ℕ, List, Option, Result, Bool, if◌then◌else◌, ◌==◌,
}
use ops_nexus.Prelude.Int.{ℤ}
use ops_nexus.Storage.World.{Env}
use ops_nexus.Notification.Domain.{
  Error, Notification, AuditEvent, notification_not_found, audit_event_not_found, invalid_input,
  internal,
}
use ops_nexus.Notification.Ports.{
  Ports, World, AuditFilter, SendNotificationRequest, RecordAuditRequest,
}
use ops_nexus.Notification.Paging.{pagination}
use ops_nexus.Notification.Repository.{Action}
use ops_nexus.Notification.Service

-- What a reply encodes.
pub data Content (JsonMap : Type 0) : Type 0 where
  failure nothing : Content JsonMap
  state : String → Content JsonMap
  notice : Notification → Content JsonMap
  notices : List Notification → ℕ → ℤ → ℤ → Content JsonMap
  event : AuditEvent JsonMap → Content JsonMap
  events : List (AuditEvent JsonMap) → ℕ → ℤ → ℤ → Content JsonMap

pub record Reply (JsonMap : Type 0) : Type 0 where
  pub status : ℕ
  pub content : Content JsonMap

pub record Decoder (JsonMap : Type 0) : Type 0 where
  pub send_request : String → Option SendNotificationRequest
  pub send_requests : String → Option (List SendNotificationRequest)
  pub record_request : String → Option (RecordAuditRequest JsonMap)

-- What the handlers read of a request; a header or a parameter that is missing is empty.
pub record Request : Type 0 where
  pub tenant_header : String
  pub user_header : String
  pub page : String
  pub limit : String
  pub user : String
  pub actor : String
  pub action : String
  pub resource : String
  pub resource_id : String
  pub body : String

abbrev pub or_text : String → String → String
or_text s other = if s == "" then other else s

-- `getTenantID` and `getUserID`
abbrev pub tenant_of : Request → String
tenant_of r = or_text r.tenant_header "default"

abbrev pub user_of : Request → String
user_of r = or_text r.user_header "anonymous"

-- `if v := r.URL.Query().Get(…); v != "" { … = &v }`
abbrev pub given : String → Option String
given v = if v == "" then none else some v

-- The routes of `NewRouter`; an argument is the parameter of the path. `/audit` and `/audit-events`
-- have the same handlers.
pub data Route : Type 0 where
  get_health get_notifications post_notification post_bulk post_all_read get_audit post_audit :
      Route
  get_notice post_read delete_notice get_event : String → Route

abbrev pub failed : {J : Type 0} → ℕ → Reply J
failed status = record { status = status; content = failure }

abbrev pub done : {J : Type 0} → ℕ → Content J → Reply J
done status content = record { status = status; content = content }

-- A reply where the service answers, and 500 for any error.
abbrev pub reply_to : {J A : Type 0} → (A → Reply J) → Result Error A → Reply J
reply_to f (ok a) = f a
reply_to f (err e) = failed 500

-- The same, with 404 for a notification, or an event, that is not found.
abbrev pub reply_to_notice : {J A : Type 0} → (A → Reply J) → Result Error A → Reply J
reply_to_notice f (ok a) = f a
reply_to_notice f (err notification_not_found) = failed 404
reply_to_notice f (err audit_event_not_found) = failed 500
reply_to_notice f (err invalid_input) = failed 500
reply_to_notice f (err internal) = failed 500

abbrev pub reply_to_event : {J A : Type 0} → (A → Reply J) → Result Error A → Reply J
reply_to_event f (ok a) = f a
reply_to_event f (err audit_event_not_found) = failed 404
reply_to_event f (err notification_not_found) = failed 500
reply_to_event f (err invalid_input) = failed 500
reply_to_event f (err internal) = failed 500

-- The page that a list answers; it is none where the code panics.
abbrev pub page_reply : {J A : Type 0} → (A → ℕ → Content J) → Option (A × ℕ) → Reply J
page_reply f none = done 500 nothing
page_reply f (some (xs, total)) = done 200 (f xs total)

module _ (env : Env) (P : Ports) (json : Decoder P.json.Map) where
  abbrev pub Handler : Type 0
  Handler = World P → Reply P.json.Map × World P

  abbrev pub answer : Reply P.json.Map → Handler
  answer r w = (r, w)

  -- A call of the service, and the reply to its result.
  abbrev pub call : {A : Type 0} → Action env P A → (Result Error A → Reply P.json.Map) → Handler
  call m f w = let (r, w') = m w in (f r, w')

  -- `if err := json.NewDecoder(r.Body).Decode(&req); err != nil { … }`
  abbrev pub decoded : {A : Type 0} → Option A → (A → Handler) → Handler
  decoded none f = answer (failed 400)
  decoded (some a) f = f a

  pub send_notification : Request → Handler
  send_notification r = decoded (json.send_request r.body) λ req.
      call (Service.send env P (record req { tenant_id = or_text req.tenant_id (tenant_of r) }))
        (reply_to (λ n. done 201 (notice n)))

  pub send_bulk_notifications : Request → Handler
  send_bulk_notifications r =
      decoded (json.send_requests r.body)
        λ reqs. call (Service.send_bulk env P reqs) (reply_to (λ u. done 201 (state "sent")))

  pub get_notification : String → Request → Handler
  get_notification id r =
      call (Service.get_notification env P (tenant_of r) id)
        (reply_to_notice (λ n. done 200 (notice n)))

  pub list_notifications : Request → Handler
  list_notifications r =
      let (page, limit) = pagination r.page r.limit in
      call (Service.list_for_user env P (tenant_of r) (or_text r.user (user_of r)) page limit)
        (reply_to (page_reply (λ xs total. notices xs total page limit)))

  pub mark_read : String → Request → Handler
  mark_read id r =
      call (Service.mark_read env P (tenant_of r) id)
        (reply_to_notice (λ u. done 200 (state "read")))

  pub mark_all_read : Request → Handler
  mark_all_read r =
      call (Service.mark_all_read env P (tenant_of r) (user_of r))
        (reply_to (λ u. done 200 (state "all read")))

  pub dismiss_notification : String → Request → Handler
  dismiss_notification id r =
      call (Service.dismiss env P (tenant_of r) id) (reply_to (λ u. done 200 (state "dismissed")))

  pub record_audit_event : Request → Handler
  record_audit_event r = decoded (json.record_request r.body) λ req.
      call
        (Service.record_audit env P
          (record req { tenant_id = or_text req.tenant_id (tenant_of r) }))
        (reply_to (λ e. done 201 (event e)))

  pub get_audit_event : String → Request → Handler
  get_audit_event id r =
      call (Service.get_event env P (tenant_of r) id) (reply_to_event (λ e. done 200 (event e)))

  abbrev pub filter_of : Request → AuditFilter
  filter_of r = record {
    actor_id = given r.actor;
    action = given r.action;
    resource = given r.resource;
    resource_id = given r.resource_id;
    from = none;
    to = none;
  }

  pub query_audit_events : Request → Handler
  query_audit_events r =
      let (page, limit) = pagination r.page r.limit in
      call (Service.query_events env P (tenant_of r) (filter_of r) page limit)
        (reply_to (page_reply (λ xs total. events xs total page limit)))

  unfoldable pub dispatch : Route → Request → Handler
  dispatch get_health r = answer (done 200 (state "ok"))
  dispatch get_notifications r = list_notifications r
  dispatch post_notification r = send_notification r
  dispatch post_bulk r = send_bulk_notifications r
  dispatch post_all_read r = mark_all_read r
  dispatch (get_notice id) r = get_notification id r
  dispatch (post_read id) r = mark_read id r
  dispatch (delete_notice id) r = dismiss_notification id r
  dispatch get_audit r = query_audit_events r
  dispatch post_audit r = record_audit_event r
  dispatch (get_event id) r = get_audit_event id r

  -- `CORSMiddleware` before the route
  pub serve : Bool → Route → Request → Handler
  serve is_options route r = if is_options then answer (done 204 nothing) else dispatch route r
