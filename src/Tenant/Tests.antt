-- ===== src/Tenant/Tests.antt =====
-- Runs of the tenant service on tenants in memory.
use ops_nexus.Prelude.{ok, [], ◌∷◌, refl, ◌>>=◌, List, ◌+◌, ◌≡◌}
use ops_nexus.Tenant.Slugs.{is_slug, slug_rest}
use ops_nexus.Tenant.Service.{create_tenant, drafted}
use ops_nexus.Tenant.Lifecycle.{Op, create, update}
use ops_nexus.Storage.Gorm.{repository}
use ops_nexus.Tenant.Example.{ports, env, initial, request, upgrade, by_slug, start}

create_tenant_run :
    (create_tenant env ports request initial).0 ≡ ok (drafted "a" request "free" start (start + 1))
unfolding create_tenant ◌>>=◌ repository is_slug slug_rest by_slug
create_tenant_run = refl

abbrev requests : List Op
requests = create request ∷ create request ∷ update "a" upgrade ∷ []
