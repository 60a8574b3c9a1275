-- ===== src/Auth/Http/Router/Requests.antt =====
-- What a request to services/auth-service over http that is let through does to the state.
use ops_nexus.Prelude.{none, some, true, false, ok, refl, String, Option, ◌≡◌, ◌≢◌}
use ops_nexus.Prelude.Text.{test_of_ne}
use ops_nexus.Prelude.Int.{pos}
use ops_nexus.Storage.World.{Env}
use ops_nexus.Auth.Ports.{Ports, World, Claims}
use ops_nexus.Auth.Service.{validate_token}
use ops_nexus.Auth.Sessions.{
  Op, execute, register_user, log_in, refresh, log_out, current_user, give_role, users, set_status,
}
use ops_nexus.Auth.Http
use ops_nexus.Auth.Http.{Request, Decoder, Handler, decoded, query_int}
use ops_nexus.Auth.Http.Router.{
  Route, bearer, jwt_auth, require_role, dispatch, cors, admin_roles, has_any, request_id, serve,
  get_health, post_register, post_login, post_refresh, post_logout, get_me, put_me, get_roles,
  post_roles, get_users, patch_user, post_user_role,
}

-- Who may make a request: anyone, one with a valid token, or one whose claims have a role of the
-- administrators.
pub data Level : Type 0 where
  anyone signed admin : Level

-- A request to the service for the body of a message, if the body can be read.
abbrev pub for_body : {A : Type 0} → (A → Op) → Option A → Option Op
for_body f none = none
for_body f (some a) = some (f a)

-- The tenant whose users are listed: that of the claims, or the header's where they have none.
pub data IsTenant (c : Claims) (r : Request) : String → Type 0 where
  of_claims : c.tenant_id ≢ "" → IsTenant c r c.tenant_id
  of_header : c.tenant_id ≡ "" → r.tenant_header ≢ "" → IsTenant c r r.tenant_header

-- Who may make a request to a route, and the request to the service that it is meant to make.
pub data Means (json : Decoder) (c : Claims) (r : Request)
    : Route → Level → Option Op → Type 0 where
  health : Means json c r get_health anyone none
  registering :
      Means json c r post_register anyone (for_body register_user (json.register_request r.body))
  logging_in : Means json c r post_login anyone (for_body log_in (json.login_request r.body))
  refreshing : Means json c r post_refresh anyone (for_body refresh (json.refresh_request r.body))
  logging_out : Means json c r post_logout signed (for_body log_out (json.logout_request r.body))
  reading_me : c.user_id ≢ "" → Means json c r get_me signed (some (current_user c.user_id))
  changing_me :
      c.user_id ≢ ""
      → Means json c r put_me signed
          (for_body (λ names. current_user c.user_id) (json.names r.body))
  reading_roles : Means json c r get_roles admin none
  making_role : Means json c r post_roles admin none
  listing :
      (t : String)
      → IsTenant c r t
      → Means json c r get_users admin
          (some (users t (query_int r.page (pos 1)) (query_int r.limit (pos 20))))
  setting_status :
      (id : String)
      → id ≢ ""
      → Means json c r (patch_user id) admin (for_body (set_status id) (json.status r.body))
  giving_role :
      (id : String)
      → id ≢ ""
      → Means json c r
          (post_user_role id)
          admin
          (for_body (give_role id) (json.assign_role_request r.body))

module _ (env : Env) (P : Ports) (json : Decoder) where
  -- The request has what its level asks for; the state behind the check of its token.
  pub data IsAdmitted (c : Claims) (r : Request) (w : World P) : Level → World P → Type 0 where
    freely : IsAdmitted c r w anyone w
    by_token :
        (token : String)
        → r.authorization ≢ ""
        → bearer env P json r.authorization ≡ some token
        → (validate_token env P token w).0 ≡ ok c
        → IsAdmitted c r w signed (validate_token env P token w).1
    by_role :
        (token : String)
        → r.authorization ≢ ""
        → bearer env P json r.authorization ≡ some token
        → (validate_token env P token w).0 ≡ ok c
        → has_any admin_roles c.roles ≡ true
        → IsAdmitted c r w admin (validate_token env P token w).1

  abbrev pub after : Option Op → World P → World P
  after none w = w
  after (some op) w = execute env P op w

  decoded-after :
      {A : Type 0} (o : Option A) (f : A → Handler env P json) (op : A → Op) (w : World P)
      → ((a : A) → (f a w).1 ≡ execute env P (op a) w)
      → (decoded env P json o f w).1 ≡ after (for_body op o) w
  decoded-after none f op w h = refl
  decoded-after (some a) f op w h = h a

  jwt_auth-ok :
      (c : Claims) (r : Request) (w v : World P) (next : Claims → Handler env P json) (u : World P)
      → IsAdmitted c r w signed v
      → (next c v).1 ≡ u
      → (jwt_auth env P json next r w).1 ≡ u
  unfolding jwt_auth
  jwt_auth-ok c r w _ next u (by_token token h b e) p = rw (test_of_ne r.authorization "" h, b, e) p

  admin-ok :
      (c : Claims) (r : Request) (w v : World P) (next : Claims → Handler env P json) (u : World P)
      → IsAdmitted c r w admin v
      → (next c v).1 ≡ u
      → (jwt_auth env P json
          (λ claims. require_role env P json admin_roles next (some claims))
          r
          w).1
        ≡ u
  unfolding jwt_auth require_role
  admin-ok c r w _ next u (by_role token h b e a) p =
      rw (test_of_ne r.authorization "" h, b, e, a) p

  users-after :
      (c : Claims) (r : Request) (t : String) (v : World P)
      → IsTenant c r t
      → (Http.users env P json (some c) r v).1
        ≡ execute env P (users t (query_int r.page (pos 1)) (query_int r.limit (pos 20))) v
  unfolding Http.users execute
  users-after c r _ v (of_claims h) =
      rw (test_of_ne c.tenant_id "" h, test_of_ne c.tenant_id "" h) refl
  users-after c r _ v (of_header e h) = rw (e, test_of_ne r.tenant_header "" h) refl

  dispatch-after :
      (c : Claims) (route : Route) (level : Level) (r : Request) (o : Option Op) (w v : World P)
      → Means json c r route level o
      → IsAdmitted c r w level v
      → (dispatch env P json route r w).1 ≡ after o v
  unfolding dispatch Http.register_user Http.log_in Http.refresh Http.log_out Http.me Http.update_me
      Http.list_roles Http.create_role Http.give_role Http.set_status execute
  dispatch-after c _ _ r _ w _ health freely = refl
  dispatch-after c _ _ r _ w _ registering freely =
      decoded-after (json.register_request r.body) _ register_user w (λ a. refl)
  dispatch-after c _ _ r _ w _ logging_in freely =
      decoded-after (json.login_request r.body) _ log_in w (λ a. refl)
  dispatch-after c _ _ r _ w _ refreshing freely =
      decoded-after (json.refresh_request r.body) _ refresh w (λ a. refl)
  dispatch-after c _ _ r _ w v logging_out h =
      jwt_auth-ok c r w v _ _ h (decoded-after (json.logout_request r.body) _ log_out v (λ a. refl))
  dispatch-after c _ _ r _ w v (reading_me n) h =
      jwt_auth-ok c r w v _ _ h (rw (test_of_ne c.user_id "" n) refl)
  dispatch-after c _ _ r _ w v (changing_me n) h = jwt_auth-ok c r w v _ _ h (
      rw (test_of_ne c.user_id "" n)
        (decoded-after (json.names r.body) _ (λ names. current_user c.user_id) v (λ a. refl)))
  dispatch-after c _ _ r _ w v reading_roles h = admin-ok c r w v _ _ h refl
  dispatch-after c _ _ r _ w v making_role h = admin-ok c r w v _ _ h refl
  dispatch-after c _ _ r _ w v (listing t is) h = admin-ok c r w v _ _ h (users-after c r t v is)
  dispatch-after c _ _ r _ w v (setting_status id n) h =
      admin-ok c r w v _ _ h (
        rw (test_of_ne id "" n)
          (decoded-after (json.status r.body) _ (set_status id) v (λ a. refl)))
  dispatch-after c _ _ r _ w v (giving_role id n) h = admin-ok c r w v _ _ h (
      rw (test_of_ne id "" n)
        (decoded-after (json.assign_role_request r.body) _ (give_role id) v (λ a. refl)))

  -- A request over http that has what its route asks for, nothing, a token that is valid at that
  -- moment, or such a token with the role of an administrator, does to the state, behind the check of
  -- the token, exactly what the request to the auth service does that its route, the identifier in its
  -- path, its claims, its page and its body mean; and nothing more where the body cannot be read, and
  -- for the health check and the roles.
  pub serve_refines_auth :
      (header : String) (c : Claims) (route : Route) (level : Level) (r : Request) (o : Option Op)
      (w v : World P)
      → Means json c r route level o
      → IsAdmitted c r (request_id env P json header w).1 level v
      → (serve env P json header false route r w).1 ≡ after o v
  unfolding serve cors
  serve_refines_auth header c route level r o w v m h =
      dispatch-after c route level r o (request_id env P json header w).1 v m h
