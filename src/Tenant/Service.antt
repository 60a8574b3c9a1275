-- ===== src/Tenant/Service.antt =====
-- `tenantServiceImpl` of services/tenant-service/internal/application/tenant_service.go, one function
-- for each method. Logging has no effect on a result and is left out.
use ops_nexus.Prelude.Int.{ℤ, ltb_ℤ, pos}
use ops_nexus.Prelude.Time.{Time}
use ops_nexus.Storage.World.{Env}
use ops_nexus.Tenant.Domain.{
  Error, Tenant, TenantSettings, TenantPlan, invalid_input, tenant_not_found, slug_taken, plan_free,
  plan_pro, plan_enterprise, tenant_status_active,
}
use ops_nexus.Tenant.Ports.{Ports, World, CreateTenantRequest, UpdateTenantRequest}
use ops_nexus.Tenant.Slugs.{is_slug}
use ops_nexus.Prelude.{
  [], ◌∷◌, ◌>>=◌, ◌>>◌, none, some, true, false, ok, err, ℕ, Result, Option, String, List,
  if◌then◌else◌, Bool, Exec, ◌==◌, refuse_if, not, ◌+◌, ◌||◌, attempt, pure, or_else,
}

-- `maxUsersForPlan`
unfoldable pub max_users_for_plan : TenantPlan → ℤ
max_users_for_plan plan =
    if plan == plan_pro then pos 50 else if plan == plan_enterprise then pos 1000 else pos 10

-- `defaultFeatures`
pub default_features : TenantPlan → List (String × Bool)
default_features plan =
    let pro = plan == plan_pro in
    let all = plan == plan_enterprise in
    ("audit_logs", pro || all)
    ∷ ("sso", all)
    ∷ ("custom_roles", pro || all)
    ∷ ("api_access", true)
    ∷ ("email_alerts", true)
    ∷ ("advanced_reports", pro || all)
    ∷ []

-- `req.Name != nil && *req.Name == ""`
abbrev pub empty_name : Option String → Bool
empty_name none = false
empty_name (some s) = s == ""

-- The `if req.Plan != nil` block of `UpdateTenant`.
unfoldable pub replanned : Option TenantPlan → Tenant → Tenant
replanned none a = a
replanned (some plan) a = record a {
  plan = plan;
  max_users = max_users_for_plan plan;
  settings = record a.settings {
    max_users = max_users_for_plan plan;
    features = some (default_features plan);
  };
}

-- What `UpdateTenant` assigns.
unfoldable pub updated : Tenant → UpdateTenantRequest → Time → Tenant
updated a req t = record (replanned req.plan a) {
  name = or_else req.name a.name;
  status = or_else req.status a.status;
  updated_at = t;
}

-- What `UpdateSettings` assigns.
unfoldable pub configured : Tenant → TenantSettings → Time → Tenant
configured a settings t = record a {
  settings = settings;
  allowed_domains = settings.allowed_domains;
  updated_at = t;
}

-- The tenant that `CreateTenant` builds.
unfoldable pub drafted : String → CreateTenantRequest → TenantPlan → Time → Time → Tenant
drafted id req plan created at = record {
  id = id;
  name = req.name;
  slug = req.slug;
  plan = plan;
  status = tenant_status_active;
  settings = record {
    max_users = max_users_for_plan plan;
    allowed_domains = some [];
    features = some (default_features plan);
    notification_prefs = record {
      email_enabled = true;
      sms_enabled = false;
      in_app_enabled = true;
    };
  };
  max_users = max_users_for_plan plan;
  allowed_domains = some [];
  created_at = created;
  updated_at = at;
}

-- The two tests on what `FindBySlug` answers.
abbrev pub slug_free : Result Error Tenant → Result Error (Unit {0})
slug_free (ok a) = err slug_taken
slug_free (err tenant_not_found) = ok tt
slug_free (err e) = err e

pub clamp_page : ℤ → ℤ
clamp_page page = if ltb_ℤ page (pos 1) then pos 1 else page

pub clamp_limit : ℤ → ℤ
clamp_limit limit = if ltb_ℤ limit (pos 1) || ltb_ℤ (pos 100) limit then pos 20 else limit

module _ (env : Env) (P : Ports) where
  abbrev pub Action : Type 0 → Type 0
  Action A = Exec Error (World P) A

  abbrev pub now : Action Time
  now w = (ok (env.clock w.readings), record w { readings = w.readings + 1 })

  abbrev pub new_id : Action String
  new_id w = (ok (env.uuid w.identifiers), record w { identifiers = w.identifiers + 1 })

  -- A call of the repository.
  abbrev pub on_tenants : {A : Type 0} → Exec Error P.tenants.Store A → Action A
  on_tenants m w = let (r, s) = m w.tenant_store in (r, record w { tenant_store = s })

  abbrev pub lift : {A : Type 0} → Result Error A → Action A
  lift r w = (r, w)

  unfoldable pub create_tenant : CreateTenantRequest → Action Tenant
  create_tenant req = do
    refuse_if (req.name == "") invalid_input
    refuse_if (not (is_slug req.slug)) invalid_input
    existing ← attempt (on_tenants (P.find_by_slug req.slug))
    lift (slug_free existing)
    id ← new_id
    created ← now
    at ← now
    let a : Tenant = drafted id req (if req.plan == "" then plan_free else req.plan) created at
    on_tenants (P.tenants.create a)
    pure a

  unfoldable pub get_tenant : String → Action Tenant
  get_tenant id = on_tenants (P.tenants.find id)

  unfoldable pub update_tenant : String → UpdateTenantRequest → Action Tenant
  update_tenant id req = do
    a ← on_tenants (P.tenants.find id)
    refuse_if (empty_name req.name) invalid_input
    t ← now
    on_tenants (P.tenants.update (updated a req t))
    pure (updated a req t)

  unfoldable pub deactivate_tenant : String → Action (Unit {0})
  deactivate_tenant id = do a ← on_tenants (P.tenants.find id); on_tenants (P.deactivate id)

  unfoldable pub list_tenants : ℤ → ℤ → Action (List Tenant × ℕ)
  list_tenants page limit w = (P.list (clamp_page page) (clamp_limit limit) w.tenant_store, w)

  unfoldable pub get_settings : String → Action TenantSettings
  get_settings id = do a ← on_tenants (P.tenants.find id); pure a.settings

  unfoldable pub update_settings : String → TenantSettings → Action (Unit {0})
  update_settings id settings = do
    a ← on_tenants (P.tenants.find id)
    t ← now
    on_tenants (P.tenants.update (configured a settings t))
