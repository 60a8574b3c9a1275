-- ===== src/Auth/Service.antt =====
-- services/auth-service/internal/application/auth_service.go, one function for each method. Logging
-- has no effect on a result and is left out.
use Prim.Native.String.{◌++◌}
use ops_nexus.Prelude.Text.{to_lower, trim_space}
use ops_nexus.Auth.Ports.{
  Ports, Claims, RawClaims, World, RegisterRequest, LoginRequest, AccessClaims,
}
use ops_nexus.Prelude.Int.{ℤ, ltb_ℤ, pos}
use ops_nexus.Prelude.Time.{Time, add_duration, after, hours}
use ops_nexus.Storage.World.{Env}
use ops_nexus.Auth.Domain.{
  RefreshToken, Error, Role, User, internal, user_not_found, TokenPair, status_active,
  role_not_found, token_revoked, invalid_input, token_invalid, is_active, invalid_credentials,
  token_expired, tenant_mismatch, status_inactive, user_inactive, status_suspended,
  user_already_exists,
}
use ops_nexus.Prelude.{
  ◌>>=◌, ◌>>◌, none, some, true, false, ok, err, [], ◌∷◌, ℕ, Result, Option, String, List,
  if◌then◌else◌, Bool, ◌/◌, ◌*◌, Exec, ◌==◌, ◌-◌, ◌%◌, refuse_if, not, ◌+◌, map_err, fail, ◌||◌,
  ◌&&◌, ◌^◌, attempt, pure,
}

-- `time.Duration(minutes) * time.Minute` and `time.Duration(hours) * time.Hour`, in nanoseconds
abbrev pub minutes : ℕ → ℕ
minutes m = m * 60000000000 % 2 ^ 64

-- `t.Unix()`; Go's zero time lies 62135596800 seconds before the epoch
unfoldable pub unix : Time → ℕ
unix t = t / 1000000000 - 62135596800

-- The `roleNames` of `generateAccessToken`.
unfoldable pub role_names : List Role → List String
role_names [] = []
role_names (r ∷ rs) = r.name ∷ role_names rs

-- The loop of `ValidateToken` over `claims["roles"]`.
unfoldable pub texts : List (Option String) → List String
texts [] = []
texts (none ∷ xs) = texts xs
texts (some x ∷ xs) = x ∷ texts xs

-- `s, _ := claims[…].(string)`
abbrev or_empty : Option String → String
or_empty none = ""
or_empty (some s) = s

abbrev texts_of : Option (List (Option String)) → List String
texts_of none = []
texts_of (some xs) = texts xs

-- The error of a call replaced by a sentinel.
abbrev pub instead : {S A : Type 0} → Error → Exec Error S A → Exec Error S A
instead e = map_err (λ x. e)

abbrev is_ok : {E A : Type 0} → Result E A → Bool
is_ok (ok a) = true
is_ok (err e) = false

-- `RefreshToken.IsValid` at the clock reading `t`
unfoldable pub is_live : RefreshToken → Time → Bool
is_live token t = not token.revoked && after token.expires_at t

-- The `switch` of `UpdateUserStatus`.
unfoldable pub known_status : String → Bool
known_status s = s == status_active || s == status_inactive || s == status_suspended

unfoldable pub clamp_page : ℤ → ℤ
clamp_page page = if ltb_ℤ page (pos 1) then pos 1 else page

unfoldable pub clamp_limit : ℤ → ℤ
clamp_limit limit = if ltb_ℤ limit (pos 1) || ltb_ℤ (pos 100) limit then pos 20 else limit

module _ (env : Env) (P : Ports) where
  abbrev pub Action : Type 0 → Type 0
  Action A = Exec Error (World P) A

  abbrev pub now : Action Time
  now w = (ok (env.clock w.readings), record w { readings = w.readings + 1 })

  abbrev pub new_id : Action String
  new_id w = (ok (env.uuid w.identifiers), record w { identifiers = w.identifiers + 1 })

  -- A call of the user or the role repository.
  abbrev pub on_users : {A : Type 0} → Exec Error P.Users A → Action A
  on_users m w = let (r, s) = m w.users in (r, record w { users = s })

  abbrev pub on_tokens : {A : Type 0} → Exec Error P.tokens.Store A → Action A
  on_tokens m w = let (r, s) = m w.token_store in (r, record w { token_store = s })

  abbrev pub lift : {A : Type 0} → Result Error A → Action A
  lift r w = (r, w)

  -- `strings.ToLower(strings.TrimSpace(email))`
  abbrev pub normal : String → String
  normal email = to_lower P.lower (trim_space email)

  abbrev hashed : Option String → Result Error String
  hashed none = err internal
  hashed (some h) = ok h

  unfoldable pub register : RegisterRequest → Action User
  register req = do
    refuse_if (req.email == "" || req.password == "" || req.first_name == "" || req.last_name == "")
        invalid_input
    refuse_if (req.tenant_id == "") invalid_input
    existing ← attempt (on_users (P.find_by_tenant_and_email req.tenant_id req.email))
    refuse_if (is_ok existing) user_already_exists
    hash ← lift (hashed (P.hash req.password))
    id ← new_id
    created ← now
    updated ← now
    let user : User = record {
      id = id;
      tenant_id = req.tenant_id;
      email = normal req.email;
      password_hash = hash;
      first_name = req.first_name;
      last_name = req.last_name;
      status = status_active;
      roles = [];
      created_at = created;
      updated_at = updated;
    }
    on_users (P.create_user user)
    pure user

  unfoldable pub access_claims : User → Time → AccessClaims
  access_claims user t = record {
    sub = user.id;
    tid = user.tenant_id;
    email = user.email;
    roles = role_names user.roles;
    iss = "opsnexus-auth";
    iat = unix t;
    exp = unix (add_duration t (minutes P.access_minutes));
  }

  unfoldable pub generate_access_token : User → Action String
  generate_access_token user = do t ← now; lift (P.jwt.sign (access_claims user t))

  abbrev token_pair : String → String → TokenPair
  token_pair access refresh = record {
    access_token = access;
    refresh_token = refresh;
    expires_in = P.access_minutes * 60;
    token_type = "Bearer";
  }

  unfoldable pub login : LoginRequest → Action TokenPair
  login req = do
    refuse_if (req.email == "" || req.password == "") invalid_input
    user ← instead invalid_credentials (on_users (P.find_by_email (normal req.email)))
    refuse_if (not (P.compare_hash user.password_hash req.password)) invalid_credentials
    refuse_if (not (is_active user)) user_inactive
    access ← generate_access_token user
    first ← new_id
    second ← new_id
    id ← new_id
    expires ← now
    created ← now
    let refresh : String = first ++ "-" ++ second
    let token : RefreshToken = record {
      id = id;
      user_id = user.id;
      tenant_id = user.tenant_id;
      token = refresh;
      expires_at = add_duration expires (hours P.refresh_hours);
      revoked = false;
      created_at = created;
    }
    on_tokens (P.tokens.create token)
    pure (token_pair access refresh)

  -- The `if !stored.IsValid()` block; the clock is read for a token that is not revoked.
  unfoldable pub check_live : RefreshToken → Action (Unit {0})
  check_live stored =
      if stored.revoked
      then fail token_revoked
      else (do t ← now; refuse_if (not (is_live stored t)) token_expired)

  unfoldable pub refresh_token : String → Action TokenPair
  refresh_token token = do
    refuse_if (token == "") invalid_input
    stored ← instead token_invalid (on_tokens (P.tokens.find token))
    check_live stored
    user ← instead user_not_found (on_users (P.find_user stored.user_id))
    refuse_if (not (is_active user)) user_inactive
    access ← generate_access_token user
    pure (token_pair access token)

  unfoldable pub logout : String → Action (Unit {0})
  logout token = do refuse_if (token == "") invalid_input; on_tokens (P.tokens.revoke token)

  abbrev claims_of : Option RawClaims → Result Error Claims
  claims_of none = err token_invalid
  claims_of (some c) = ok (record {
    user_id = or_empty c.sub;
    tenant_id = or_empty c.tid;
    email = or_empty c.email;
    roles = texts_of c.roles;
  })

  -- The JWT library reads the clock for the expiry.
  unfoldable pub validate_token : String → Action Claims
  validate_token access = do t ← now; lift (claims_of (P.jwt.parse (unix t) access))

  unfoldable pub get_current_user : String → Action User
  get_current_user id = on_users (P.find_user id)

  unfoldable pub assign_role : String → String → Action (Unit {0})
  assign_role user_id role_id = do
    user ← instead user_not_found (on_users (P.find_user user_id))
    role ← instead role_not_found (on_users (P.find_role role_id))
    refuse_if (not (user.tenant_id == role.tenant_id)) tenant_mismatch
    on_users (P.assign_role user_id role_id)

  unfoldable pub list_users : String → ℤ → ℤ → Action (List User × ℕ)
  list_users tenant page limit =
      on_users (P.list_users tenant (clamp_page page) (clamp_limit limit))

  unfoldable pub update_user_status : String → String → Action (Unit {0})
  update_user_status user_id status = do
    user ← on_users (P.find_user user_id)
    refuse_if (not (known_status status)) invalid_input
    t ← now
    on_users (P.update_user (record user { status = status; updated_at = t }))
