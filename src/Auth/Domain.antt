-- ===== src/Auth/Domain.antt =====
-- services/auth-service/internal/domain. Of an error the model keeps the sentinel that `errors.Is`
-- finds behind its wrappings, or `internal` where there is none.
use ops_nexus.Prelude.{String, Bool, true, false, ◌&&◌, ◌||◌, List, [], ◌∷◌, ◌==◌, if◌then◌else◌, ℕ}
use ops_nexus.Prelude.Time.{Time}

pub data Error : Type 0 where
  user_not_found user_already_exists invalid_credentials user_inactive : Error
  token_expired token_invalid token_revoked role_not_found permission_denied : Error
  invalid_input tenant_mismatch internal : Error

pub record Permission : Type 0 where
  pub id : String
  pub resource : String
  pub action : String

pub record Role : Type 0 where
  pub id : String
  pub tenant_id : String
  pub name : String
  pub description : String
  pub permissions : List Permission
  pub created_at : Time
  pub updated_at : Time

abbrev pub UserStatus : Type 0
UserStatus = String

abbrev pub status_active : UserStatus
status_active = "active"

abbrev pub status_inactive : UserStatus
status_inactive = "inactive"

abbrev pub status_suspended : UserStatus
status_suspended = "suspended"

pub record User : Type 0 where
  pub id : String
  pub tenant_id : String
  pub email : String
  pub password_hash : String
  pub first_name : String
  pub last_name : String
  pub status : UserStatus
  pub roles : List Role
  pub created_at : Time
  pub updated_at : Time

pub record RefreshToken : Type 0 where
  pub id : String
  pub user_id : String
  pub tenant_id : String
  pub token : String
  pub expires_at : Time
  pub revoked : Bool
  pub created_at : Time

pub record TokenPair : Type 0 where
  pub access_token : String
  pub refresh_token : String
  pub expires_in : ℕ
  pub token_type : String

-- `User.IsActive`
unfoldable pub is_active : User → Bool
is_active u = u.status == status_active

-- The loop of `User.HasRole`.
unfoldable pub has_role_in : List Role → String → Bool
has_role_in [] name = false
has_role_in (r ∷ rs) name = let rest = has_role_in rs name in if r.name == name then true else rest

-- `User.HasRole`
unfoldable pub has_role : User → String → Bool
has_role u name = has_role_in u.roles name

-- The inner loop of `User.HasPermission`.
unfoldable pub grants : List Permission → String → String → Bool
grants [] resource action = false
grants (p ∷ ps) resource action =
    let rest = grants ps resource action in
    if p.resource == resource && (p.action == action || p.action == "admin") then true else rest

-- The outer loop of `User.HasPermission`.
unfoldable pub has_permission_in : List Role → String → String → Bool
has_permission_in [] resource action = false
has_permission_in (r ∷ rs) resource action =
    let rest = has_permission_in rs resource action in
    if grants r.permissions resource action then true else rest

-- `User.HasPermission`
unfoldable pub has_permission : User → String → String → Bool
has_permission u resource action = has_permission_in u.roles resource action
