-- ===== src/Tenant/Ports.antt =====
-- services/tenant-service/internal/ports: the requests on tenants, and `TenantRepository` with what
-- its rows keep (internal/adapters/mysql/tenant_repository.go).
use ops_nexus.Prelude.{
  [], none, some, true, false, Option, String, ℕ, Result, List, Exec, ◌≡◌, ◌==◌, if◌then◌else◌, ◌⊎◌,
}
use ops_nexus.Tenant.Domain.{
  Tenant, Error, TenantPlan, TenantStatus, tenant_not_found, tenant_status_inactive,
}
use ops_nexus.Prelude.Int.{ℤ}
use ops_nexus.Prelude.Time.{Time}
use ops_nexus.Storage.{Repository, Same}

pub record CreateTenantRequest : Type 0 where
  pub name : String
  pub slug : String
  pub plan : TenantPlan

pub record UpdateTenantRequest : Type 0 where
  pub name : Option String
  pub plan : Option TenantPlan
  pub status : Option TenantStatus

abbrev pub touch_tenant : Time → Tenant → Tenant
touch_tenant t a = record a { updated_at = t }

-- What `tenantModelToDomain` gives back of what `domainToTenantModel` wrote: the preferences of the
-- settings are not in the row, and their limit and domains are those of the tenant.
abbrev pub kept_tenant : Tenant → Tenant
kept_tenant a =
    let domains = some (elim a.allowed_domains [ none ↦ [] | some ds ↦ ds ]) in
    record a {
      allowed_domains = domains;
      settings = record {
        max_users = a.max_users;
        allowed_domains = domains;
        features = some (elim a.settings.features [ none ↦ [] | some fs ↦ fs ]);
        notification_prefs = record {
          email_enabled = true;
          sms_enabled = false;
          in_app_enabled = true;
        };
      };
    }

abbrev pub deactivate_at : Time → Option Tenant → Option Tenant
deactivate_at t none = none
deactivate_at t (some a) = some (record a { status = tenant_status_inactive; updated_at = t })

abbrev pub Deactivates : (String → Option Tenant) → (String → Option Tenant) → String → Type 0
Deactivates before after k =
    (t : Time) × ((j : String)
      → after j ≡ (if k == j then deactivate_at t (before j) else before j))

-- What `NewTenantService` is given.
pub record Ports : Type 1 where
  pub tenants : Repository Error Tenant tenant_not_found (λ a. a.id) touch_tenant kept_tenant
  pub find_by_slug : String → Exec Error tenants.Store Tenant
  pub find_by_slug_same :
      (k : String) (s : tenants.Store) → Same (tenants.view s) (tenants.view (find_by_slug k s).1)
  pub deactivate : String → Exec Error tenants.Store (Unit {0})
  pub deactivated :
      (k : String) (s : tenants.Store)
      → Same (tenants.view s) (tenants.view (deactivate k s).1)
        ⊎ Deactivates (tenants.view s) (tenants.view (deactivate k s).1) k
  pub list : ℤ → ℤ → tenants.Store → Result Error (List Tenant × ℕ)

pub record World (P : Ports) : Type 0 where
  pub tenant_store : P.tenants.Store
  pub readings : ℕ
  pub identifiers : ℕ
