-- ===== src/Tenant/Domain.antt =====
-- services/tenant-service/internal/domain. Of an error the model keeps the sentinel that `errors.Is`
-- finds behind its wrappings, or `internal` where there is none.
use ops_nexus.Prelude.{String, Bool, Option, List}
use ops_nexus.Prelude.Int.{ℤ}
use ops_nexus.Prelude.Time.{Time}

pub data Error : Type 0 where
  tenant_not_found tenant_already_exists slug_taken organization_not_found : Error
  profile_not_found invalid_input internal : Error

abbrev pub TenantStatus : Type 0
TenantStatus = String

abbrev pub tenant_status_active : TenantStatus
tenant_status_active = "active"

abbrev pub tenant_status_inactive : TenantStatus
tenant_status_inactive = "inactive"

abbrev pub TenantPlan : Type 0
TenantPlan = String

abbrev pub plan_free : TenantPlan
plan_free = "free"

abbrev pub plan_pro : TenantPlan
plan_pro = "pro"

abbrev pub plan_enterprise : TenantPlan
plan_enterprise = "enterprise"

pub record NotificationPreferences : Type 0 where
  pub email_enabled : Bool
  pub sms_enabled : Bool
  pub in_app_enabled : Bool

-- `features` is a map, by its entries, and `allowed_domains` a slice; either may be nil.
pub record TenantSettings : Type 0 where
  pub max_users : ℤ
  pub allowed_domains : Option (List String)
  pub features : Option (List (String × Bool))
  pub notification_prefs : NotificationPreferences

pub record Tenant : Type 0 where
  pub id : String
  pub name : String
  pub slug : String
  pub plan : TenantPlan
  pub status : TenantStatus
  pub settings : TenantSettings
  pub max_users : ℤ
  pub allowed_domains : Option (List String)
  pub created_at : Time
  pub updated_at : Time
