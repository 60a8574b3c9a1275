-- ===== src/Auth/Http.antt =====
-- services/auth-service/internal/adapters/http: the handlers of handler.go. Of a reply the model
-- keeps the status, the code of an error and the values that are encoded, and leaves out the
-- message of an error and the layout of a time. `encoding/json` decodes the body of a request: a
-- parameter for each struct, `none` where it fails.
use ops_nexus.Prelude.Time.{Time}
use ops_nexus.Storage.World.{Env}
use ops_nexus.Prelude.{
  ◌>>=◌, none, some, true, false, ok, err, [], ◌∷◌, refl, Result, String, ℕ, List, Option,
  if◌then◌else◌, ◌==◌,
}
use ops_nexus.Prelude.Int.{ℤ, pos}
use ops_nexus.Prelude.Scan.{sscanf_int}
use ops_nexus.Auth.Domain.{
  Error, Role, User, TokenPair, internal, user_not_found, role_not_found, token_revoked,
  invalid_input, token_invalid, invalid_credentials, token_expired, tenant_mismatch, user_inactive,
  user_already_exists, permission_denied,
}
use ops_nexus.Auth.Ports.{Ports, World, Claims, RegisterRequest, LoginRequest}
use ops_nexus.Auth.Service.{
  Action, register, login, refresh_token, logout, validate_token, get_current_user, assign_role,
  list_users, update_user_status,
}
pub mod Router
mod Tests

pub record UserItem : Type 0 where
  pub id : String
  pub tenant_id : String
  pub email : String
  pub first_name : String
  pub last_name : String
  pub status : String
  pub roles : List (String × String)
  pub created_at : Time
  pub updated_at : Time

-- What a reply encodes.
pub data Content : Type 0 where
  error_code : String → Content
  -- identifier, tenant, address, first and last name, status, time of creation
  registered : String → String → String → String → String → String → Time → Content
  token_pair : TokenPair → Content
  message : String → Content
  profile : UserItem → Content
  -- identifier, address, first and last name, status
  renamed : String → String → String → String → String → Content
  no_roles : Content
  user_page : List UserItem → ℕ → ℤ → ℤ → Content
  health nothing : Content

pub record Reply : Type 0 where
  pub status : ℕ
  pub content : Content

-- `mapDomainError`
unfoldable pub map_domain_error : Error → Reply
map_domain_error invalid_credentials = record {
  status = 401;
  content = error_code "INVALID_CREDENTIALS";
}
map_domain_error user_not_found = record { status = 404; content = error_code "USER_NOT_FOUND" }
map_domain_error user_already_exists = record {
  status = 409;
  content = error_code "USER_ALREADY_EXISTS";
}
map_domain_error permission_denied = record {
  status = 403;
  content = error_code "PERMISSION_DENIED";
}
map_domain_error invalid_input = record { status = 400; content = error_code "INVALID_INPUT" }
map_domain_error user_inactive = record { status = 403; content = error_code "USER_INACTIVE" }
map_domain_error token_invalid = record { status = 401; content = error_code "TOKEN_INVALID" }
map_domain_error token_expired = record { status = 401; content = error_code "TOKEN_EXPIRED" }
map_domain_error token_revoked = record { status = 401; content = error_code "TOKEN_REVOKED" }
map_domain_error role_not_found = record { status = 404; content = error_code "ROLE_NOT_FOUND" }
map_domain_error tenant_mismatch = record { status = 400; content = error_code "TENANT_MISMATCH" }
map_domain_error internal = record { status = 500; content = error_code "INTERNAL_ERROR" }

pub record Decoder : Type 0 where
  pub register_request : String → Option RegisterRequest
  pub login_request : String → Option LoginRequest
  pub refresh_request : String → Option String
  pub logout_request : String → Option String
  pub assign_role_request : String → Option String
  pub names : String → Option (String × String)
  pub status : String → Option String

-- What the handlers read of a request; a header or a parameter that is missing is empty.
pub record Request : Type 0 where
  pub authorization : String
  pub tenant_header : String
  pub page : String
  pub limit : String
  pub body : String

-- The `items` of `ListUsers` and the values of `Me`.
pub role_items : List Role → List (String × String)
role_items [] = []
role_items (r ∷ rs) = (r.id, r.name) ∷ role_items rs

pub user_item : User → UserItem
user_item u = record {
  id = u.id;
  tenant_id = u.tenant_id;
  email = u.email;
  first_name = u.first_name;
  last_name = u.last_name;
  status = u.status;
  roles = role_items u.roles;
  created_at = u.created_at;
  updated_at = u.updated_at;
}

pub user_items : List User → List UserItem
user_items [] = []
user_items (u ∷ us) = user_item u ∷ user_items us

-- `if v := r.URL.Query().Get(…); v != "" { fmt.Sscanf(v, "%d", &n) }`
abbrev pub query_int : String → ℤ → ℤ
query_int v n = if v == "" then n else elim (sscanf_int v) [ none ↦ n | some k ↦ k ]

-- A value of the request's context, which is empty without claims.
abbrev pub user_of : Option Claims → String
user_of none = ""
user_of (some c) = c.user_id

abbrev pub tenant_of : Option Claims → String
tenant_of none = ""
tenant_of (some c) = c.tenant_id

abbrev pub failed : ℕ → String → Reply
failed status code = record { status = status; content = error_code code }

abbrev pub done : ℕ → Content → Reply
done status content = record { status = status; content = content }

-- The reply to the result of a call of the service.
abbrev pub reply_to : {A : Type 0} → (A → Reply) → Result Error A → Reply
reply_to f (ok a) = f a
reply_to f (err e) = map_domain_error e

-- `users, total, err := …` of `ListUsers`
abbrev pub page_reply : ℤ → ℤ → Result Error (List User × ℕ) → Reply
page_reply page limit (ok (us, total)) = done 200 (user_page (user_items us) total page limit)
page_reply page limit (err e) = failed 500 "INTERNAL_ERROR"

module _ (env : Env) (P : Ports) (json : Decoder) where
  abbrev pub Handler : Type 0
  Handler = World P → Reply × World P

  abbrev pub answer : Reply → Handler
  answer r w = (r, w)

  -- A call of the service, and the reply to its result.
  abbrev pub call : {A : Type 0} → Action env P A → (A → Reply) → Handler
  call m f w = let (r, w') = m w in (reply_to f r, w')

  -- `if err := json.NewDecoder(r.Body).Decode(&req); err != nil { … }`
  abbrev pub decoded : {A : Type 0} → Option A → (A → Handler) → Handler
  decoded none f = answer (failed 400 "INVALID_JSON")
  decoded (some a) f = f a

  pub register_user : Request → Handler
  register_user r = decoded (json.register_request r.body) λ req. call (register env P req) λ u.
      done 201 (registered u.id u.tenant_id u.email u.first_name u.last_name u.status u.created_at)

  pub log_in : Request → Handler
  log_in r =
      decoded (json.login_request r.body)
        λ req. call (login env P req) (λ pair. done 200 (token_pair pair))

  pub refresh : Request → Handler
  refresh r =
      decoded (json.refresh_request r.body)
        λ token. call (refresh_token env P token) (λ pair. done 200 (token_pair pair))

  pub log_out : Request → Handler
  log_out r =
      decoded (json.logout_request r.body)
        λ token. call (logout env P token) (λ u. done 200 (message "logged out successfully"))

  pub me : Option Claims → Handler
  me ctx =
      if user_of ctx == ""
      then answer (failed 401 "UNAUTHORIZED")
      else call (get_current_user env P (user_of ctx)) (λ u. done 200 (profile (user_item u)))

  -- The names are changed in the reply only.
  pub update_me : Option Claims → Request → Handler
  update_me ctx r =
      if user_of ctx == ""
      then answer (failed 401 "UNAUTHORIZED")
      else decoded (json.names r.body) λ names. call (get_current_user env P (user_of ctx)) λ u.
        done 200 (
          renamed u.id u.email (if names.0 == "" then u.first_name else names.0)
            (if names.1 == "" then u.last_name else names.1) u.status)

  pub list_roles : Handler
  list_roles = answer (done 200 no_roles)

  pub create_role : Handler
  create_role =
      answer (done 201 (message "role creation endpoint - wire roleRepo to implement fully"))

  pub give_role : String → Request → Handler
  give_role user_id r =
      if user_id == ""
      then answer (failed 400 "INVALID_INPUT")
      else decoded (json.assign_role_request r.body) λ role_id.
        call (assign_role env P user_id role_id)
          (λ u. done 200 (message "role assigned successfully"))

  -- The tenant of the claims, or that of the header.
  abbrev pub tenant_for : Option Claims → Request → String
  tenant_for ctx r = if tenant_of ctx == "" then r.tenant_header else tenant_of ctx

  pub users : Option Claims → Request → Handler
  users ctx r w =
      let page = query_int r.page (pos 1) in
      let limit = query_int r.limit (pos 20) in
      let (res, w') = list_users env P (tenant_for ctx r) page limit w in
      if tenant_for ctx r == ""
      then (failed 400 "INVALID_INPUT", w)
      else (page_reply page limit res, w')

  pub set_status : String → Request → Handler
  set_status user_id r =
      if user_id == ""
      then answer (failed 400 "INVALID_INPUT")
      else decoded (json.status r.body) λ status.
        call (update_user_status env P user_id status) (λ u. done 200 (message "user updated"))
