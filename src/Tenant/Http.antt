-- ===== src/Tenant/Http.antt =====
-- services/tenant-service/internal/adapters/http: the handlers of tenants in handler.go, RequestID,
-- CORS and TenantContext, and the routes of tenants of NewRouter. How chi finds the route of a method
-- and a path is not part of the repository: a request comes with its route. Of an error the model
-- keeps the status. `encoding/json` decodes the body of a request: a parameter for each struct,
-- `none` where it fails. Logging, `Recovery` and the compression are left out, and so are the
-- handlers of organizations, profiles and members.
pub mod Requests
mod Tests
use ops_nexus.Prelude.{
  none, some, ok, err, String, ℕ, List, Option, Result, Bool, if◌then◌else◌, ◌==◌, ◌+◌,
}
use ops_nexus.Prelude.Int.{ℤ, pos, ltb_ℤ}
use ops_nexus.Prelude.Scan.{atoi}
use ops_nexus.Storage.World.{Env}
use ops_nexus.Tenant.Domain.{
  Error, tenant_not_found, tenant_already_exists, slug_taken, organization_not_found,
  profile_not_found, invalid_input, internal, Tenant, TenantSettings,
}
use ops_nexus.Tenant.Ports.{Ports, World, CreateTenantRequest, UpdateTenantRequest}
use ops_nexus.Tenant.Service.{Action}
use ops_nexus.Tenant.Service

-- What a reply encodes.
pub data Content : Type 0 where
  failure nothing health deactivated configured : Content
  one_tenant : Tenant → Content
  tenants : List Tenant → ℕ → ℤ → ℤ → Content
  settings : TenantSettings → Content

pub record Reply : Type 0 where
  pub status : ℕ
  pub content : Content

abbrev pub done : ℕ → Content → Reply
done status content = record { status = status; content = content }

-- `handleDomainError`
unfoldable pub handle_domain_error : Error → Reply
handle_domain_error tenant_not_found = done 404 failure
handle_domain_error tenant_already_exists = done 409 failure
handle_domain_error slug_taken = done 409 failure
handle_domain_error organization_not_found = done 404 failure
handle_domain_error profile_not_found = done 404 failure
handle_domain_error invalid_input = done 400 failure
handle_domain_error internal = done 500 failure

-- The bodies.
pub record Decoder : Type 0 where
  pub create_tenant : String → Option CreateTenantRequest
  pub update_tenant : String → Option UpdateTenantRequest
  pub update_settings : String → Option TenantSettings

-- What is read of a request; a header or a parameter that is missing is empty.
pub record Request : Type 0 where
  pub request_header : String
  pub page : String
  pub limit : String
  pub body : String

-- The routes of `NewRouter`; an argument is the parameter of the path.
pub data Route : Type 0 where
  get_health get_tenants post_tenant : Route
  get_one put_tenant remove_tenant get_configuration put_configuration : String → Route

abbrev pub or_at_least_one : ℤ → String → ℤ
or_at_least_one default s = let n = atoi s in if ltb_ℤ n (pos 1) then default else n

abbrev pub reply_to : {A : Type 0} → (A → Reply) → Result Error A → Reply
reply_to f (ok a) = f a
reply_to f (err e) = handle_domain_error e

abbrev pub listed : ℤ → ℤ → Result Error (List Tenant × ℕ) → Reply
listed page limit (ok (ts, total)) = done 200 (tenants ts total page limit)
listed page limit (err e) = done 500 failure

module _ (env : Env) (P : Ports) (json : Decoder) where
  abbrev pub Handler : Type 0
  Handler = World P → Reply × World P

  abbrev pub answer : Reply → Handler
  answer r w = (r, w)

  -- A call of the service, and the reply to its result.
  abbrev pub call : {A : Type 0} → Action env P A → (A → Reply) → Handler
  call m f w = let (r, w') = m w in (reply_to f r, w')

  -- `if err := json.NewDecoder(r.Body).Decode(&body); err != nil { … }`
  abbrev pub decoded : {A : Type 0} → Option A → (A → Handler) → Handler
  decoded none f = answer (done 400 failure)
  decoded (some a) f = f a

  unfoldable pub create_tenant : Request → Handler
  create_tenant r =
      decoded (json.create_tenant r.body)
        λ req. call (Service.create_tenant env P req) (λ a. done 201 (one_tenant a))

  unfoldable pub list_tenants : Request → Handler
  list_tenants r w =
      let page = or_at_least_one (pos 1) r.page in
      let limit = or_at_least_one (pos 20) r.limit in
      let (res, w') = Service.list_tenants env P page limit w in (listed page limit res, w')

  unfoldable pub get_tenant : String → Handler
  get_tenant id = call (Service.get_tenant env P id) (λ a. done 200 (one_tenant a))

  unfoldable pub update_tenant : String → Request → Handler
  update_tenant id r =
      decoded (json.update_tenant r.body)
        λ req. call (Service.update_tenant env P id req) (λ a. done 200 (one_tenant a))

  unfoldable pub deactivate_tenant : String → Handler
  deactivate_tenant id = call (Service.deactivate_tenant env P id) (λ u. done 200 deactivated)

  unfoldable pub get_settings : String → Handler
  get_settings id = call (Service.get_settings env P id) (λ s. done 200 (settings s))

  unfoldable pub update_settings : String → Request → Handler
  update_settings id r =
      decoded (json.update_settings r.body)
        λ s. call (Service.update_settings env P id s) (λ u. done 200 configured)

  -- `TenantContext` lets every request pass; no handler of tenants reads its header.
  unfoldable pub dispatch : Route → Request → Handler
  dispatch get_health r = answer (done 200 health)
  dispatch get_tenants r = list_tenants r
  dispatch post_tenant r = create_tenant r
  dispatch (get_one id) r = get_tenant id
  dispatch (put_tenant id) r = update_tenant id r
  dispatch (remove_tenant id) r = deactivate_tenant id
  dispatch (get_configuration id) r = get_settings id
  dispatch (put_configuration id) r = update_settings id r

  -- `RequestID`: a new identifier where the header is empty.
  unfoldable pub request_id : Request → World P → World P
  request_id r w =
      if r.request_header == "" then record w { identifiers = w.identifiers + 1 } else w

  -- `CORS`, and the route.
  unfoldable pub serve : Bool → Route → Request → Handler
  serve is_options route r w =
      let w' = request_id r w in if is_options then (done 204 nothing, w') else dispatch route r w'
