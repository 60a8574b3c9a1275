-- ===== src/Auth/Http/Router/Effects.antt =====
-- What a request to services/auth-service/internal/adapters/http does to the state of the service:
-- what requests to the service itself do.
use ops_nexus.Prelude.Int.{pos}
use ops_nexus.Storage.World.{Env}
use ops_nexus.Prelude.{
  some, true, false, [], ◌∷◌, refl, inl, inr, Bool, Option, ◌==◌, ◌≡◌, Bool-cases, String, ◌⊎◌,
  Option-cases, List, Result-cases,
}
use ops_nexus.Auth.Ports.{Ports, World, Claims}
use ops_nexus.Auth.Service.{validate_token}
use ops_nexus.Auth.Sessions.{
  Op, execute, run, register_user, log_in, refresh, log_out, validate, current_user, give_role,
  users, set_status,
}
use ops_nexus.Auth.Http
use ops_nexus.Auth.Http.{
  Request, Reply, Decoder, Handler, answer, decoded, failed, tenant_for, user_of, Env, String, List,
  query_int, pos,
}
use ops_nexus.Auth.Http.Router.{
  Route, bearer, jwt_auth, require_role, dispatch, cors, admin_roles, has_any, request_id, serve,
  admin_only, get_health, post_register, post_login, post_refresh, post_logout, get_me, put_me,
  get_roles, post_roles, get_users, patch_user, post_user_role,
}

module _ (env : Env) (P : Ports) (json : Decoder) where
  -- At most one request to the service.
  abbrev pub Calls : World P → World P → Type 0
  Calls w w' = (w' ≡ w) ⊎ ((op : Op) × (w' ≡ execute env P op w))

  Calls-register_user : (r : Request) (w : World P) → Calls w (Http.register_user env P json r w).1
  unfolding Http.register_user execute
  Calls-register_user r w = elim (Option-cases (json.register_request r.body)) [
    | inl p ↦ inl (rw (p) refl)
    | inr (req, p) ↦ inr (register_user req, rw (p) refl)
  ]

  Calls-log_in : (r : Request) (w : World P) → Calls w (Http.log_in env P json r w).1
  unfolding Http.log_in execute
  Calls-log_in r w = elim (Option-cases (json.login_request r.body)) [
    | inl p ↦ inl (rw (p) refl)
    | inr (req, p) ↦ inr (log_in req, rw (p) refl)
  ]

  Calls-refresh : (r : Request) (w : World P) → Calls w (Http.refresh env P json r w).1
  unfolding Http.refresh execute
  Calls-refresh r w = elim (Option-cases (json.refresh_request r.body)) [
    | inl p ↦ inl (rw (p) refl)
    | inr (token, p) ↦ inr (refresh token, rw (p) refl)
  ]

  Calls-log_out : (r : Request) (w : World P) → Calls w (Http.log_out env P json r w).1
  unfolding Http.log_out execute
  Calls-log_out r w = elim (Option-cases (json.logout_request r.body)) [
    | inl p ↦ inl (rw (p) refl)
    | inr (token, p) ↦ inr (log_out token, rw (p) refl)
  ]

  Calls-me : (c : Option Claims) (w : World P) → Calls w (Http.me env P json c w).1
  unfolding Http.me execute
  Calls-me c w = elim (Bool-cases (user_of c == "")) [
    | inl p ↦ inl (rw p refl)
    | inr p ↦ inr (current_user (user_of c), rw p refl)
  ]

  Calls-update_me :
      (c : Option Claims) (r : Request) (w : World P) → Calls w (Http.update_me env P json c r w).1
  unfolding Http.update_me execute
  Calls-update_me c r w = elim (Bool-cases (user_of c == "")) [
    | inl q ↦ inl (rw q refl)
    | inr q ↦ elim (Option-cases (json.names r.body)) [
      | inl p ↦ inl (rw (q, p) refl)
      | inr (names, p) ↦ inr (current_user (user_of c), rw (q, p) refl)
    ]
  ]

  Calls-give_role :
      (id : String) (r : Request) (w : World P) → Calls w (Http.give_role env P json id r w).1
  unfolding Http.give_role execute
  Calls-give_role id r w = elim (Bool-cases (id == "")) [
    | inl q ↦ inl (rw q refl)
    | inr q ↦ elim (Option-cases (json.assign_role_request r.body)) [
      | inl p ↦ inl (rw (q, p) refl)
      | inr (role_id, p) ↦ inr (give_role id role_id, rw (q, p) refl)
    ]
  ]

  Calls-set_status :
      (id : String) (r : Request) (w : World P) → Calls w (Http.set_status env P json id r w).1
  unfolding Http.set_status execute
  Calls-set_status id r w = elim (Bool-cases (id == "")) [
    | inl q ↦ inl (rw q refl)
    | inr q ↦ elim (Option-cases (json.status r.body)) [
      | inl p ↦ inl (rw (q, p) refl)
      | inr (status, p) ↦ inr (set_status id status, rw (q, p) refl)
    ]
  ]

  Calls-users :
      (c : Option Claims) (r : Request) (w : World P) → Calls w (Http.users env P json c r w).1
  unfolding Http.users execute
  Calls-users c r w = elim (Bool-cases (tenant_for env P json c r == "")) [
    | inl p ↦ inl (rw p refl)
    | inr p ↦ inr (
      users (tenant_for env P json c r) (query_int r.page (pos 1)) (query_int r.limit (pos 20)),
      rw p refl,
    )
  ]

  -- The token is checked, and then at most one request is made.
  abbrev pub Guarded : World P → World P → Type 0
  Guarded w w' = (w' ≡ w) ⊎ ((token : String) × Calls (execute env P (validate token) w) w')

  Guarded-jwt_auth :
      (next : Claims → Handler env P json) (r : Request) (w : World P)
      → ((claims : Claims) (v : World P) → Calls v (next claims v).1)
      → Guarded w (jwt_auth env P json next r w).1
  unfolding jwt_auth execute
  Guarded-jwt_auth next r w h = elim (Bool-cases (r.authorization == "")) [
    | inl p ↦ inl (rw p refl)
    | inr p ↦ elim (Option-cases (bearer env P json r.authorization)) [
      | inl q ↦ inl (rw (p, q) refl)
      | inr (token, q) ↦ elim (Result-cases (validate_token env P token w).0) [
        | inl (claims, v) ↦ inr (token, rw (p, q, v) (h claims (validate_token env P token w).1))
        | inr (x, v) ↦ inr (token, inl (rw (p, q, v) refl))
      ]
    ]
  ]

  Calls-require_role :
      (next : Claims → Handler env P json)
      → ((claims : Claims) (v : World P) → Calls v (next claims v).1)
      → (claims : Claims) (v : World P)
      → Calls v (require_role env P json admin_roles next (some claims) v).1
  unfolding require_role
  Calls-require_role next h claims v = elim (Bool-cases (has_any admin_roles claims.roles)) [
    | inl p ↦ rw p (h claims v)
    | inr p ↦ inl (rw p refl)
  ]

  Guarded-admin_only :
      (next : Claims → Handler env P json) (r : Request) (w : World P)
      → ((claims : Claims) (v : World P) → Calls v (next claims v).1)
      → Guarded w (admin_only env P json next r w).1
  Guarded-admin_only next r w h = Guarded-jwt_auth _ r w (Calls-require_role next h)

  -- Nothing, one request to the service, or the check of a token and then at most one request.
  abbrev pub Dispatched : World P → World P → Type 0
  Dispatched w w' = Calls w w' ⊎ Guarded w w'

  dispatch-Dispatched :
      (route : Route) (r : Request) (w : World P) → Dispatched w (dispatch env P json route r w).1
  unfolding dispatch Http.list_roles Http.create_role
  dispatch-Dispatched get_health r w = inl (inl refl)
  dispatch-Dispatched post_register r w = inl (Calls-register_user r w)
  dispatch-Dispatched post_login r w = inl (Calls-log_in r w)
  dispatch-Dispatched post_refresh r w = inl (Calls-refresh r w)
  dispatch-Dispatched post_logout r w = inr (Guarded-jwt_auth _ r w (λ c v. Calls-log_out r v))
  dispatch-Dispatched get_me r w = inr (Guarded-jwt_auth _ r w (λ c v. Calls-me (some c) v))
  dispatch-Dispatched put_me r w =
      inr (Guarded-jwt_auth _ r w (λ c v. Calls-update_me (some c) r v))
  dispatch-Dispatched get_roles r w = inr (Guarded-admin_only _ r w (λ c v. inl refl))
  dispatch-Dispatched post_roles r w = inr (Guarded-admin_only _ r w (λ c v. inl refl))
  dispatch-Dispatched get_users r w =
      inr (Guarded-admin_only _ r w (λ c v. Calls-users (some c) r v))
  dispatch-Dispatched (patch_user id) r w =
      inr (Guarded-admin_only _ r w (λ c v. Calls-set_status id r v))
  dispatch-Dispatched (post_user_role id) r w =
      inr (Guarded-admin_only _ r w (λ c v. Calls-give_role id r v))

  -- The requests to the service that an effect stands for.
  ops_of_Calls : (w w' : World P) → Calls w w' → (ops : List Op) × (w' ≡ run env P ops w)
  unfolding run
  ops_of_Calls w w' (inl p) = ([], p)
  ops_of_Calls w w' (inr (op, p)) = (op ∷ [], p)

  ops_of_Dispatched : (w w' : World P) → Dispatched w w' → (ops : List Op) × (w' ≡ run env P ops w)
  unfolding run
  ops_of_Dispatched w w' (inl h) = ops_of_Calls w w' h
  ops_of_Dispatched w w' (inr (inl p)) = ([], p)
  ops_of_Dispatched w w' (inr (inr (token, h))) =
      let (ops, p) = ops_of_Calls _ w' h in (validate token ∷ ops, p)

  -- A request over http does to the state what some requests to the service do, made after its
  -- identifier was chosen.
  pub serve_refines :
      (header : String) (is_options : Bool) (route : Route) (r : Request) (w : World P)
      → (ops : List Op) × ((serve env P json header is_options route r w).1
          ≡ run env P ops (request_id env P json header w).1)
  unfolding serve cors run
  serve_refines header true route r w = ([], refl)
  serve_refines header false route r w =
      ops_of_Dispatched _ _ (dispatch-Dispatched route r (request_id env P json header w).1)
