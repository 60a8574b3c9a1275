-- ===== src/Auth/Http/Router/Guard.antt =====
-- Who reaches the handlers of services/auth-service/internal/adapters/http.
use ops_nexus.Storage.World.{Env}
use ops_nexus.Prelude.{
  some, true, ok, [], ◌∷◌, refl, inl, inr, arith, String, List, ◌≡◌, ◌>>=◌, ◌⊎◌, Result-cases,
  eq_iff, Bool-cases, ◌∙◌, ◌==◌, Option-cases,
}
use ops_nexus.Auth.Ports.{Ports, World, Claims}
use ops_nexus.Auth.Service.{validate_token}
use ops_nexus.Auth.Http.{Request, Reply, Decoder, Handler, failed}
use ops_nexus.Auth.Http.Router.{
  Route, has_any, has_role_named, admin_roles, bearer, jwt_auth, require_role, dispatch, admin_only,
  authenticated, get_roles, post_roles, get_users, patch_user, post_user_role,
}

-- One of the roles is an administrator's.
abbrev pub HasAdmin : List String → Type 0
HasAdmin [] = ⊥
HasAdmin (r ∷ rs) = (r ≡ "admin") ⊎ (r ≡ "super_admin") ⊎ HasAdmin rs

HasAdmin-of_test : (rs : List String) → has_any admin_roles rs ≡ true → HasAdmin rs
unfolding has_any has_role_named
HasAdmin-of_test [] e = cc
HasAdmin-of_test (r ∷ rs) e =
    ground (arith, eq_iff "admin" r, eq_iff "super_admin" r, HasAdmin-of_test rs)

-- The routes of the inner group of the router.
pub data AdminRoute : Route → Type 0 where
  roles_listed : AdminRoute get_roles
  role_made : AdminRoute post_roles
  users_listed : AdminRoute get_users
  status_set : (id : String) → AdminRoute (patch_user id)
  role_given : (id : String) → AdminRoute (post_user_role id)

module _ (env : Env) (P : Ports) (json : Decoder) where
  -- The request has a bearer token that is valid now, and whose claims have an administrator's role.
  pub record IsAdmin (r : Request) (w : World P) : Type 0 where
    pub token : String
    pub claims : Claims
    pub sent : bearer env P json r.authorization ≡ some token
    pub valid : (validate_token env P token w).0 ≡ ok claims
    pub allowed : HasAdmin claims.roles

  -- The request is refused, and the users and the tokens are as they were.
  pub record IsRejected (w : World P) (reply : Reply) (w' : World P) : Type 0 where
    pub status : (reply.status ≡ 401) ⊎ (reply.status ≡ 403)
    pub same_users : w'.users ≡ w.users
    pub same_tokens : w'.token_store ≡ w.token_store

  validate_same :
      (token : String) (w : World P)
      → ((validate_token env P token w).1.users ≡ w.users)
        × ((validate_token env P token w).1.token_store ≡ w.token_store)
  unfolding validate_token ◌>>=◌
  validate_same token w = (refl, refl)

  required :
      (next : Claims → Handler env P json) (claims : Claims) (w : World P)
      → HasAdmin claims.roles
        ⊎ IsRejected w
            (require_role env P json admin_roles next (some claims) w).0
            (require_role env P json admin_roles next (some claims) w).1
  unfolding require_role
  required next claims w = elim (Bool-cases (has_any admin_roles claims.roles)) [
    | inl p ↦ inl (HasAdmin-of_test claims.roles p)
    | inr p ↦ inr (rw p (record { status = inr refl; same_users = refl; same_tokens = refl }))
  ]

  admitted_guard :
      (next : Claims → Handler env P json) (token : String) (r : Request) (w : World P)
      → bearer env P json r.authorization ≡ some token
      → IsAdmin r w
        ⊎ IsRejected w
            (authenticated env P json
              (λ claims. require_role env P json admin_roles next (some claims))
              (some token)
              w).0
            (authenticated env P json
              (λ claims. require_role env P json admin_roles next (some claims))
              (some token)
              w).1
  admitted_guard next token r w sent = elim (Result-cases (validate_token env P token w).0) [
    | inl (claims, valid) ↦ elim (required next claims (validate_token env P token w).1) [
      | inl allowed ↦
          inl (record {
            token = token;
            claims = claims;
            sent = sent;
            valid = valid;
            allowed = allowed;
          })
      | inr h ↦ inr (
          rw valid (record {
            status = h.status;
            same_users = h.same_users ∙ (validate_same token w).0;
            same_tokens = h.same_tokens ∙ (validate_same token w).1;
          }))
    ]
    | inr (x, invalid) ↦ inr (
        rw invalid (record {
          status = inl refl;
          same_users = (validate_same token w).0;
          same_tokens = (validate_same token w).1;
        }))
  ]

  rejected : (code : String) (w : World P) → IsRejected w (failed 401 code) w
  rejected code w = record { status = inl refl; same_users = refl; same_tokens = refl }

  admin_only_guard :
      (next : Claims → Handler env P json) (r : Request) (w : World P)
      → IsAdmin r w
        ⊎ IsRejected w (admin_only env P json next r w).0 (admin_only env P json next r w).1
  unfolding jwt_auth
  admin_only_guard next r w = elim (Bool-cases (r.authorization == "")) [
    | inl p ↦ inr (rw p (rejected "MISSING_TOKEN" w))
    | inr p ↦ elim (Option-cases (bearer env P json r.authorization)) [
      | inl q ↦ inr (rw (p, q) (rejected "INVALID_TOKEN_FORMAT" w))
      | inr (token, q) ↦ rw (p, q) (admitted_guard next token r w q)
    ]
  ]

  -- A request to an administrator's route either has a bearer token that is valid at that moment and
  -- whose claims have the role `admin` or `super_admin`, or is answered 401 or 403 with the users
  -- and the tokens as they were.
  pub dispatch_guard :
      (route : Route) (r : Request) (w : World P)
      → AdminRoute route
      → IsAdmin r w
        ⊎ IsRejected w (dispatch env P json route r w).0 (dispatch env P json route r w).1
  unfolding dispatch
  dispatch_guard _ r w roles_listed = admin_only_guard _ r w
  dispatch_guard _ r w role_made = admin_only_guard _ r w
  dispatch_guard _ r w users_listed = admin_only_guard _ r w
  dispatch_guard _ r w (status_set id) = admin_only_guard _ r w
  dispatch_guard _ r w (role_given id) = admin_only_guard _ r w
