-- ===== src/Auth/Http/Router.antt =====
-- middleware.go and router.go of services/auth-service/internal/adapters/http. How chi finds the
-- route of a method and a path is not part of the repository: a request comes with its route.
-- Logging and `Recovery` are left out: no handler panics.
pub mod Guard
pub mod Effects
pub mod Logout
pub mod Requests
use ops_nexus.Auth.Domain.{Error}
use ops_nexus.Storage.World.{Env}
use ops_nexus.Prelude.{
  none, some, true, false, ok, err, [], ◌∷◌, List, String, Option, Result, if◌then◌else◌, Bool,
  ◌==◌, ◌+◌,
}
use ops_nexus.Prelude.Text.{to_lower}
use ops_nexus.Prelude.Scan.{split_space}
use ops_nexus.Auth.Ports.{Ports, World, Claims}
use ops_nexus.Auth.Service.{validate_token}
use ops_nexus.Auth.Http.{
  Request, Reply, Decoder, Handler, answer, failed, done, register_user, log_in, refresh, log_out,
  me, update_me, list_roles, create_role, give_role, users, set_status, health, nothing, Env,
  String, List, Result, Option, Error,
}

-- The routes of `NewRouter`; an argument is the parameter of the path.
pub data Route : Type 0 where
  get_health post_register post_login post_refresh : Route
  post_logout get_me put_me : Route
  get_roles post_roles get_users : Route
  patch_user : String → Route
  post_user_role : String → Route

-- `map[string]struct{}` of the roles, looked up.
pub has_role_named : List String → String → Bool
has_role_named [] name = false
has_role_named (r ∷ rs) name = let rest = has_role_named rs name in if r == name then true else rest

-- The loop of `RequireRole` over the roles of the claims.
pub has_any : List String → List String → Bool
has_any required [] = false
has_any required (r ∷ rs) =
    let rest = has_any required rs in if has_role_named required r then true else rest

abbrev pub admin_roles : List String
admin_roles = "admin" ∷ "super_admin" ∷ []

module _ (env : Env) (P : Ports) (json : Decoder) where
  -- `strings.ToLower(parts[0]) == "bearer"`
  unfoldable pub bearer : String → Option String
  bearer header = elim (split_space header) [
    | none ↦ none
    | some (scheme, token) ↦ if to_lower P.lower scheme == "bearer" then some token else none
  ]

  abbrev pub admitted : (Claims → Handler env P json) → Result Error Claims → Handler env P json
  admitted next (ok claims) = next claims
  admitted next (err e) = answer env P json (failed 401 "INVALID_TOKEN")

  abbrev pub authenticated : (Claims → Handler env P json) → Option String → Handler env P json
  authenticated next none w = (failed 401 "INVALID_TOKEN_FORMAT", w)
  authenticated next (some token) w =
      let (r, w') = validate_token env P token w in admitted next r w'

  -- `JWTAuth`
  pub jwt_auth : (Claims → Handler env P json) → Request → Handler env P json
  jwt_auth next r =
      if r.authorization == ""
      then answer env P json (failed 401 "MISSING_TOKEN")
      else authenticated next (bearer r.authorization)

  -- `RequireRole`
  pub require_role :
      List String → (Claims → Handler env P json) → Option Claims → Handler env P json
  require_role required next none = answer env P json (failed 401 "UNAUTHORIZED")
  require_role required next (some claims) =
      if has_any required claims.roles
      then next claims
      else answer env P json (failed 403 "PERMISSION_DENIED")

  abbrev pub admin_only : (Claims → Handler env P json) → Request → Handler env P json
  admin_only next = jwt_auth (λ claims. require_role admin_roles next (some claims))

  pub dispatch : Route → Request → Handler env P json
  dispatch get_health r = answer env P json (done 200 health)
  dispatch post_register r = register_user env P json r
  dispatch post_login r = log_in env P json r
  dispatch post_refresh r = refresh env P json r
  dispatch post_logout r = jwt_auth (λ claims. log_out env P json r) r
  dispatch get_me r = jwt_auth (λ claims. me env P json (some claims)) r
  dispatch put_me r = jwt_auth (λ claims. update_me env P json (some claims) r) r
  dispatch get_roles r = admin_only (λ claims. list_roles env P json) r
  dispatch post_roles r = admin_only (λ claims. create_role env P json) r
  dispatch get_users r = admin_only (λ claims. users env P json (some claims) r) r
  dispatch (patch_user id) r = admin_only (λ claims. set_status env P json id r) r
  dispatch (post_user_role id) r = admin_only (λ claims. give_role env P json id r) r

  -- `CORS`
  pub cors : Bool → Handler env P json → Handler env P json
  cors is_options next = if is_options then answer env P json (done 204 nothing) else next

  -- `RequestID`: the identifier of the request, a new one where the header is empty.
  pub request_id : String → World P → String × World P
  request_id header w =
      if header == ""
      then (env.uuid w.identifiers, record w { identifiers = w.identifiers + 1 })
      else (header, w)

  -- The whole chain: the identifier that the reply carries, and the reply.
  pub serve : String → Bool → Route → Request → World P → (String × Reply) × World P
  serve header is_options route r w =
      let (id, w') = request_id header w in
      let (reply, w'') = cors is_options (dispatch route r) w' in ((id, reply), w'')
