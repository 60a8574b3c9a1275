-- ===== src/Auth/Access.antt =====
-- The access tokens of services/auth-service/internal/application/auth_service.go, and the
-- permissions of services/auth-service/internal/domain.
use ops_nexus.Auth.Ports.{Ports, Claims, all_some, World}
use ops_nexus.Storage.World.{Env}
use ops_nexus.Prelude.{
  ◌>>=◌, true, ok, [], ◌∷◌, refl, arith, List, String, ◌⊎◌, ◌≡◌, eq_iff, ap, ◌<◌, Bool-cases, inl,
  ◌↔◌, inr,
}
use ops_nexus.Auth.Service.{
  validate_token, generate_access_token, texts, role_names, unix, access_claims,
}
use ops_nexus.Auth.Domain.{grants, has_permission_in, has_permission, User, Permission, Role}

texts-all_some : (xs : List String) → texts (all_some xs) ≡ xs
unfolding texts
texts-all_some [] = refl
texts-all_some (x ∷ xs) = ap (λ ys. x ∷ ys) (texts-all_some xs)

-- Who a token is about: the claims that belong to the user.
abbrev pub claims_for : User → Claims
claims_for u = record {
  user_id = u.id;
  tenant_id = u.tenant_id;
  email = u.email;
  roles = role_names u.roles;
}

-- An access token that is generated for a user is validated at any later state whose clock, in
-- seconds, is before the expiry, and gives the user's own identifier, tenant, address and roles.
pub validate_token-generate_access_token :
    (env : Env) (P : Ports) (u : User) (w w' : World P) (token : String)
    → (generate_access_token env P u w).0 ≡ ok token
    → unix (env.clock w'.readings) < (access_claims env P u (env.clock w.readings)).exp
    → (validate_token env P token w').0 ≡ ok (claims_for u)
unfolding validate_token generate_access_token ◌>>=◌ access_claims texts
validate_token-generate_access_token env P u w w' token e early =
    rw
      (
        P.jwt.parse_sign (access_claims env P u (env.clock w.readings)) token
            (unix (env.clock w'.readings)) e early,
        texts-all_some (role_names u.roles),
      )
      refl

-- A permission of the list is for the resource, with the action itself or with `admin`.
abbrev pub Grants : List Permission → String → String → Type 0
Grants [] resource action = ⊥
Grants (p ∷ ps) resource action =
    ((p.resource ≡ resource) × ((p.action ≡ action) ⊎ (p.action ≡ "admin")))
    ⊎ Grants ps resource action

abbrev pub AnyGrants : List Role → String → String → Type 0
AnyGrants [] resource action = ⊥
AnyGrants (r ∷ rs) resource action =
    Grants r.permissions resource action ⊎ AnyGrants rs resource action

grants-true :
    (ps : List Permission) (resource action : String)
    → grants ps resource action ≡ true
    → Grants ps resource action
unfolding grants
grants-true [] resource action e = cc
grants-true (p ∷ ps) resource action e = ground (
  arith,
  eq_iff p.resource resource,
  eq_iff p.action action,
  eq_iff p.action "admin",
  grants-true ps resource action,
)

true-grants :
    (ps : List Permission) (resource action : String)
    → Grants ps resource action
    → grants ps resource action ≡ true
unfolding grants
true-grants [] resource action h = absurd h
true-grants (p ∷ ps) resource action (inl (a, b)) =
    ground (arith, eq_iff p.resource resource, eq_iff p.action action, eq_iff p.action "admin")
true-grants (p ∷ ps) resource action (inr h) = ground (arith, true-grants ps resource action h)

any_true :
    (rs : List Role) (resource action : String)
    → has_permission_in rs resource action ≡ true
    → AnyGrants rs resource action
unfolding has_permission_in
any_true [] resource action e = cc
any_true (r ∷ rs) resource action e = elim (Bool-cases (grants r.permissions resource action)) [
  | inl h ↦ inl (grants-true r.permissions resource action h)
  | inr h ↦ inr (any_true rs resource action (rw h at e))
]

true_any :
    (rs : List Role) (resource action : String)
    → AnyGrants rs resource action
    → has_permission_in rs resource action ≡ true
unfolding has_permission_in
true_any [] resource action h = absurd h
true_any (r ∷ rs) resource action (inl h) = rw (true-grants r.permissions resource action h) refl
true_any (r ∷ rs) resource action (inr h) = ground (arith, true_any rs resource action h)

-- A user has a permission exactly if one of its roles has a permission for the resource, with the
-- action itself or with the action `admin`.
pub has_permission_iff :
    (u : User) (resource action : String)
    → (has_permission u resource action ≡ true) ↔ AnyGrants u.roles resource action
unfolding has_permission
has_permission_iff u resource action =
    (any_true u.roles resource action, true_any u.roles resource action)
