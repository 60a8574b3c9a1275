-- ===== src/Tenant/Plans.antt =====
-- The life of a tenant over any requests to `tenantServiceImpl` of
-- services/tenant-service/internal/application/tenant_service.go.
use ops_nexus.Prelude.Text.{ne_of_test}
use ops_nexus.Prelude.Time.{Time}
use ops_nexus.Prelude.{none, some, false, refl, ◌∙◌, String, ◌≡◌, ◌≢◌, Option, ◌==◌, or_else}
use ops_nexus.Tenant.Domain.{Tenant, TenantSettings, tenant_status_inactive, TenantPlan}
use ops_nexus.Tenant.Ports.{CreateTenantRequest, UpdateTenantRequest, touch_tenant, kept_tenant}
use ops_nexus.Tenant.Service.{
  updated, configured, replanned, drafted, max_users_for_plan, empty_name,
}

-- A tenant has a name, and the number of users that its plan allows.
pub record IsSound (a : Tenant) : Type 0 where
  pub named : a.name ≢ ""
  pub planned : a.max_users ≡ max_users_for_plan a.plan

-- What an operation keeps of a tenant.
pub record Step (a a' : Tenant) : Type 0 where
  pub same_id : a'.id ≡ a.id
  pub same_slug : a'.slug ≡ a.slug
  pub same_created : a'.created_at ≡ a.created_at
  pub stays_sound : IsSound a → IsSound a'

pub Step-refl : (a : Tenant) → Step a a
Step-refl a = record { same_id = refl; same_slug = refl; same_created = refl; stays_sound = λ h. h }

pub Step-trans : {a b c : Tenant} → Step a b → Step b c → Step a c
Step-trans f g = record {
  same_id = g.same_id ∙ f.same_id;
  same_slug = g.same_slug ∙ f.same_slug;
  same_created = g.same_created ∙ f.same_created;
  stays_sound = λ h. g.stays_sound (f.stays_sound h);
}

-- Neither the time stamp of a save nor what the row leaves out matters.
pub Step-saved : (t : Time) {a a' : Tenant} → Step a a' → Step a (touch_tenant t (kept_tenant a'))
Step-saved t f = record {
  same_id = f.same_id;
  same_slug = f.same_slug;
  same_created = f.same_created;
  stays_sound =
      λ h. record { named = (f.stays_sound h).named; planned = (f.stays_sound h).planned };
}

pub Step-configured : (a : Tenant) (s : TenantSettings) (t : Time) → Step a (configured a s t)
unfolding configured
Step-configured a s t = record {
  same_id = refl;
  same_slug = refl;
  same_created = refl;
  stays_sound = λ h. record { named = h.named; planned = h.planned };
}

pub Step-inactive :
    (t : Time) (a : Tenant) → Step a (record a { status = tenant_status_inactive; updated_at = t })
Step-inactive t a = record {
  same_id = refl;
  same_slug = refl;
  same_created = refl;
  stays_sound = λ h. record { named = h.named; planned = h.planned };
}

replanned_keeps :
    (o : Option TenantPlan) (a : Tenant)
    → ((replanned o a).id ≡ a.id)
      × ((replanned o a).slug ≡ a.slug)
      × ((replanned o a).created_at ≡ a.created_at)
      × (a.max_users ≡ max_users_for_plan a.plan
          → (replanned o a).max_users ≡ max_users_for_plan (replanned o a).plan)
unfolding replanned
replanned_keeps none a = (refl, refl, refl, λ h. h)
replanned_keeps (some plan) a = (refl, refl, refl, λ h. refl)

renamed :
    (o : Option String) (name : String) → empty_name o ≡ false → name ≢ "" → or_else o name ≢ ""
renamed none name e h = h
renamed (some s) name e h = ne_of_test s "" e

pub Step-updated :
    (a : Tenant) (req : UpdateTenantRequest) (t : Time)
    → empty_name req.name ≡ false
    → Step a (updated a req t)
unfolding updated
Step-updated a req t e =
    let (same_id, same_slug, same_created, planned) = replanned_keeps req.plan a in
    record {
      same_id = same_id;
      same_slug = same_slug;
      same_created = same_created;
      stays_sound =
          λ h. record { named = renamed req.name a.name e h.named; planned = planned h.planned };
    }

pub IsSound-drafted :
    (id : String) (req : CreateTenantRequest) (plan : TenantPlan) (t t' : Time)
    → (req.name == "") ≡ false
    → IsSound (kept_tenant (drafted id req plan t t'))
unfolding drafted
IsSound-drafted id req plan t t' e = record { named = ne_of_test req.name "" e; planned = refl }
