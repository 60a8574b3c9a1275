-- ===== src/Tenant/Lifecycle.antt =====
-- Every method of `tenantServiceImpl` over the whole store of tenants.
use ops_nexus.Prelude.Int.{ℤ}
use ops_nexus.Prelude.Time.{Time}
use ops_nexus.Storage.Evolution.{Life}
use ops_nexus.Storage.World.{Env}
use ops_nexus.Prelude.{[], ◌∷◌, String, List}
use ops_nexus.Tenant.Domain.{Tenant, TenantSettings}
use ops_nexus.Tenant.Ports.{Ports, World, CreateTenantRequest, UpdateTenantRequest}
use ops_nexus.Tenant.Service.{
  create_tenant, get_tenant, update_tenant, deactivate_tenant, list_tenants, get_settings,
  update_settings,
}
use ops_nexus.Tenant.Plans.{IsSound, Step, Step-refl, Step-trans}

abbrev pub tenant_life : (P : Ports) → Life Tenant (World P)
tenant_life P = record {
  view = λ w. P.tenants.view w.tenant_store;
  key = λ a. a.id;
  Begins = IsSound;
  Step = Step;
  step_refl = Step-refl;
  step_trans = λ a b c f g. Step-trans f g;
  begins_step = λ a b h f. f.stays_sound h;
  view_key = λ k w. P.tenants.view_key k w.tenant_store;
}

-- The requests to the tenant service.
pub data Op : Type 0 where
  create : CreateTenantRequest → Op
  get : String → Op
  update : String → UpdateTenantRequest → Op
  deactivate : String → Op
  list : ℤ → ℤ → Op
  settings : String → Op
  configure : String → TenantSettings → Op

module _ (env : Env) (P : Ports) where
  -- The state after a request, whatever its answer.
  unfoldable pub execute : Op → World P → World P
  execute (create req) w = (create_tenant env P req w).1
  execute (get id) w = (get_tenant env P id w).1
  execute (update id req) w = (update_tenant env P id req w).1
  execute (deactivate id) w = (deactivate_tenant env P id w).1
  execute (list page limit) w = (list_tenants env P page limit w).1
  execute (settings id) w = (get_settings env P id w).1
  execute (configure id s) w = (update_settings env P id s w).1

  pub run : List Op → World P → World P
  run [] w = w
  run (op ∷ ops) w = run ops (execute op w)
