-- ===== src/Tenant/Example.antt =====
-- Tenants in memory, on which the examples of the tenant service run.
use ops_nexus.Storage.{Repository}
use ops_nexus.Prelude.Time.{Time}
use ops_nexus.Storage.World.{Env}
use ops_nexus.Prelude.{
  none, some, ok, err, [], ◌∷◌, refl, sym, inl, String, List, ap, Result, ◌+◌, if◌then◌else◌, ltb,
  ◌==◌, Option,
}
use ops_nexus.Tenant.Domain.{Tenant, Error, internal, tenant_not_found}
use ops_nexus.Tenant.Ports.{
  Ports, World, kept_tenant, touch_tenant, CreateTenantRequest, UpdateTenantRequest,
}
use ops_nexus.Storage.Gorm.{Codec, repository}
use ops_nexus.Storage.Memory.{memory_table}

abbrev pub start : Time
start = 63000000000000000000

abbrev pub or_row : Tenant → Option Tenant → Tenant
or_row r none = r
or_row r (some a) = a

abbrev pub codec : Codec Tenant Tenant (λ a. a.id) touch_tenant kept_tenant (λ a. a.id) touch_tenant
codec = record {
  encode = kept_tenant;
  decode = λ a. some a;
  decode_key = λ r a e. sym (ap (λ o. (or_row r o).id) e);
  key_encode = λ a. refl;
  decode_encode = λ a. refl;
  decode_touch = λ t a. refl;
}

abbrev pub tenants : Repository Error Tenant tenant_not_found (λ a. a.id) touch_tenant kept_tenant
tenants =
    repository tenant_not_found internal (λ p. cc) codec
      (memory_table (λ a. a.id) touch_tenant start (λ t a. refl))

unfoldable pub by_slug : String → List Tenant → Result Error Tenant
by_slug slug [] = err tenant_not_found
by_slug slug (a ∷ s) = let rest = by_slug slug s in if a.slug == slug then ok a else rest

abbrev pub ports : Ports
unfolding repository
ports = record {
  tenants = tenants;
  find_by_slug = λ slug s. (by_slug slug s, s);
  find_by_slug_same = λ slug s j. refl;
  deactivate = λ id s. (err internal, s);
  deactivated = λ id s. inl (λ j. refl);
  list = λ page limit s. ok (s, 0);
}

abbrev pub env : Env
env = record { clock = λ n. start + n; uuid = λ n. if ltb n 1 then "a" else "b" }

abbrev pub initial : World ports
unfolding repository
initial = record { tenant_store = []; readings = 0; identifiers = 0 }

abbrev pub request : CreateTenantRequest
request = record { name = "Acme"; slug = "acme-2"; plan = "" }

abbrev pub upgrade : UpdateTenantRequest
upgrade = record { name = none; plan = some "pro"; status = none }
