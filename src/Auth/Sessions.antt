-- ===== src/Auth/Sessions.antt =====
-- The refresh tokens of services/auth-service/internal/application/auth_service.go over any
-- sequence of requests: a token that a logout has revoked is never good again.
use ops_nexus.Prelude.Int.{ℤ}
use ops_nexus.Auth.Service.{
  check_live, logout, validate_token, register, assign_role, update_user_status,
  generate_access_token, login, refresh_token, instead, new_id, on_tokens, get_current_user, lift,
  on_users, now, list_users,
}
use ops_nexus.Storage.Evolution.{
  Life, Stays, Safe, stays_rules, Stays-if, Moves, Safe-guard, Safe-bind, Evolves-Created,
  Stays-bind, Evolves, Stays-refuse_if, Safe-then, Stays-pure, Evolves-Same, Evolves-refl,
  Safe-Stays, Evolves-trans,
}
use ops_nexus.Auth.Domain.{RefreshToken, Error, User}
use ops_nexus.Storage.World.{Env}
use ops_nexus.Auth.Ports.{
  Ports, RegisterRequest, revoked, LoginRequest, World, Revoked, revoke_at, Revokes,
}
use ops_nexus.Prelude.{
  none, some, true, false, ok, err, [], ◌∷◌, refl, Exec, ◌≡◌, Result, Option, String, ◌∙◌, Bool,
  List, if◌then◌else◌, ◌==◌, inl, inr,
}

-- What an operation keeps of a refresh token: everything, but it may be revoked.
pub record Step (k k' : RefreshToken) : Type 0 where
  pub same_id : k'.id ≡ k.id
  pub same_user : k'.user_id ≡ k.user_id
  pub same_tenant : k'.tenant_id ≡ k.tenant_id
  pub same_token : k'.token ≡ k.token
  pub same_expiry : k'.expires_at ≡ k.expires_at
  pub stays_revoked : k.revoked ≡ true → k'.revoked ≡ true

pub Step-refl : (k : RefreshToken) → Step k k
Step-refl k = record {
  same_id = refl;
  same_user = refl;
  same_tenant = refl;
  same_token = refl;
  same_expiry = refl;
  stays_revoked = λ h. h;
}

pub Step-trans : {a b c : RefreshToken} → Step a b → Step b c → Step a c
Step-trans f g = record {
  same_id = g.same_id ∙ f.same_id;
  same_user = g.same_user ∙ f.same_user;
  same_tenant = g.same_tenant ∙ f.same_tenant;
  same_token = g.same_token ∙ f.same_token;
  same_expiry = g.same_expiry ∙ f.same_expiry;
  stays_revoked = λ h. g.stays_revoked (f.stays_revoked h);
}

Step-revoked : (k : RefreshToken) → Step k (revoked k)
Step-revoked k = record {
  same_id = refl;
  same_user = refl;
  same_tenant = refl;
  same_token = refl;
  same_expiry = refl;
  stays_revoked = λ h. refl;
}

abbrev pub token_life : (P : Ports) → Life RefreshToken (World P)
token_life P = record {
  view = λ w. P.tokens.view w.token_store;
  key = λ k. P.tokens.collate k.token;
  Begins = λ k. Unit {0};
  Step = Step;
  step_refl = Step-refl;
  step_trans = λ a b c f g. Step-trans f g;
  begins_step = λ a b h f. tt;
  view_key = λ k w. P.tokens.view_key k w.token_store;
}

-- The requests to the auth service.
pub data Op : Type 0 where
  register_user : RegisterRequest → Op
  log_in : LoginRequest → Op
  refresh : String → Op
  log_out : String → Op
  validate : String → Op
  current_user : String → Op
  give_role : String → String → Op
  users : String → ℤ → ℤ → Op
  set_status : String → String → Op

module _ (env : Env) (P : Ports) where
  -- The state after a request, whatever its answer.
  unfoldable pub execute : Op → World P → World P
  execute (register_user req) w = (register env P req w).1
  execute (log_in req) w = (login env P req w).1
  execute (refresh token) w = (refresh_token env P token w).1
  execute (log_out token) w = (logout env P token w).1
  execute (validate token) w = (validate_token env P token w).1
  execute (current_user id) w = (get_current_user env P id w).1
  execute (give_role user_id role_id) w = (assign_role env P user_id role_id w).1
  execute (users tenant page limit) w = (list_users env P tenant page limit w).1
  execute (set_status user_id status) w = (update_user_status env P user_id status w).1

  unfoldable pub run : List Op → World P → World P
  run [] w = w
  run (op ∷ ops) w = run ops (execute op w)

  Stays-now : Stays (token_life P) (now env P)
  Stays-now = record { at = λ w k. refl }

  Stays-new_id : Stays (token_life P) (new_id env P)
  Stays-new_id = record { at = λ w k. refl }

  Stays-lift : {A : Type 0} (r : Result Error A) → Stays (token_life P) (lift env P r)
  Stays-lift r = record { at = λ w k. refl }

  Stays-on_users : {A : Type 0} (m : Exec Error P.Users A) → Stays (token_life P) (on_users env P m)
  Stays-on_users m = record { at = λ w k. refl }

  Stays-instead_users :
      {A : Type 0} (e : Error) (m : Exec Error P.Users A)
      → Stays (token_life P) (instead e (on_users env P m))
  Stays-instead_users e m = record { at = λ w k. refl }

  Stays-find :
      (e : Error) (k : String)
      → Stays (token_life P) (instead e (on_tokens env P (P.tokens.find k)))
  Stays-find e k = record { at = λ w. P.tokens.find_same k w.token_store }

  Stays-check_live : (k : RefreshToken) → Stays (token_life P) (check_live env P k)
  unfolding check_live
  Stays-check_live k =
      Stays-if k.revoked _ _ (record { at = λ w j. refl })
        (Stays-bind _ _ Stays-now (λ t. Stays-refuse_if _ _))

  ruleset token_stays = (
    stays_rules, Stays-now, Stays-new_id, Stays-lift, Stays-on_users, Stays-instead_users,
    Stays-find, Stays-check_live,
  )

  Safe-create_token : (k : RefreshToken) → Safe (token_life P) (on_tokens env P (P.tokens.create k))
  Safe-create_token k = record {
    at = λ w.
        Evolves-Created (token_life P) _ _ (P.tokens.collate k.token) (P.tokens.kept k)
          (P.tokens.create k w.token_store).0 tt (P.tokens.create_created k w.token_store);
  }

  Moves-revoked : (o : Option RefreshToken) → Moves (token_life P) o (revoke_at o)
  Moves-revoked none = tt
  Moves-revoked (some k) = Step-revoked k

  Moves-if :
      (b : Bool) (o : Option RefreshToken) → Moves (token_life P) o (if b then revoke_at o else o)
  Moves-if true o = Moves-revoked o
  Moves-if false none = tt
  Moves-if false (some k) = Step-refl k

  Evolves-Revokes :
      (before after : String → Option RefreshToken) (k : String)
      → Revokes before after k
      → Evolves (token_life P) before after
  Evolves-Revokes before after k h j = rw (h j) (Moves-if (k == j) (before j))

  Evolves-Revoked :
      (before after : String → Option RefreshToken) (k : String) (r : Result Error (Unit {0}))
      → Revoked before after k r
      → Evolves (token_life P) before after
  Evolves-Revoked before after k (ok u) h = Evolves-Revokes before after k h
  Evolves-Revoked before after k (err e) (inl same) = Evolves-Same (token_life P) before after same
  Evolves-Revoked before after k (err e) (inr h) = Evolves-Revokes before after k h

  Safe-revoke : (k : String) → Safe (token_life P) (on_tokens env P (P.tokens.revoke k))
  Safe-revoke k = record {
    at = λ w.
        Evolves-Revoked _ _ (P.tokens.collate k) (P.tokens.revoke k w.token_store).0
          (P.tokens.revoke_revoked k w.token_store);
  }

  Stays-generate : (u : User) → Stays (token_life P) (generate_access_token env P u)
  unfolding generate_access_token
  Stays-generate u = Stays-bind _ _ Stays-now (λ t. Stays-lift _)

  Safe-login : (req : LoginRequest) → Safe (token_life P) (login env P req)
  unfolding login
  Safe-login req = Safe-guard _ _ _ λ e. Safe-bind _ _ (Stays-instead_users _ _) λ u.
      Safe-guard _ _ _ λ e'. Safe-guard _ _ _ λ e''. Safe-bind _ _ (Stays-generate u) λ a.
        Safe-bind _ _ Stays-new_id λ i. Safe-bind _ _ Stays-new_id λ j.
          Safe-bind _ _ Stays-new_id λ k. Safe-bind _ _ Stays-now λ t.
            Safe-bind _ _ Stays-now λ t'. Safe-then _ _ (Safe-create_token _) (λ v. Stays-pure _)

  Stays-register : (req : RegisterRequest) → Stays (token_life P) (register env P req)
  unfolding register
  Stays-register req = search token_stays depth 20

  Stays-refresh : (k : String) → Stays (token_life P) (refresh_token env P k)
  unfolding refresh_token
  Stays-refresh k = search (token_stays, Stays-generate) depth 20

  Safe-logout : (k : String) → Safe (token_life P) (logout env P k)
  unfolding logout
  Safe-logout k = Safe-guard _ _ _ (λ e. Safe-revoke k)

  Stays-assign_role : (u r : String) → Stays (token_life P) (assign_role env P u r)
  unfolding assign_role
  Stays-assign_role u r = search token_stays depth 20

  Stays-status : (u s : String) → Stays (token_life P) (update_user_status env P u s)
  unfolding update_user_status
  Stays-status u s = search token_stays depth 20

  Stays-validate : (s : String) → Stays (token_life P) (validate_token env P s)
  unfolding validate_token
  Stays-validate s = search token_stays depth 20

  execute_auth-Evolves :
      (op : Op) (w : World P)
      → Evolves
          (token_life P)
          (P.tokens.view w.token_store)
          (P.tokens.view (execute op w).token_store)
  unfolding execute get_current_user list_users
  execute_auth-Evolves (register_user req) w = (Safe-Stays _ (Stays-register req)).at w
  execute_auth-Evolves (log_in req) w = (Safe-login req).at w
  execute_auth-Evolves (refresh token) w = (Safe-Stays _ (Stays-refresh token)).at w
  execute_auth-Evolves (log_out token) w = (Safe-logout token).at w
  execute_auth-Evolves (validate token) w = (Safe-Stays _ (Stays-validate token)).at w
  execute_auth-Evolves (current_user id) w = Evolves-refl (token_life P) _
  execute_auth-Evolves (give_role user_id role_id) w =
      (Safe-Stays _ (Stays-assign_role user_id role_id)).at w
  execute_auth-Evolves (users tenant page limit) w = Evolves-refl (token_life P) _
  execute_auth-Evolves (set_status user_id status) w =
      (Safe-Stays _ (Stays-status user_id status)).at w

  -- After any requests to the auth service, failed ones included, every refresh token that was
  -- stored is still there, for the same user and tenant and with the same expiry, and if it was
  -- revoked it still is.
  pub run_auth-Evolves :
      (ops : List Op) (w : World P)
      → Evolves (token_life P) (P.tokens.view w.token_store) (P.tokens.view (run ops w).token_store)
  unfolding run
  run_auth-Evolves [] w = Evolves-refl (token_life P) _
  run_auth-Evolves (op ∷ ops) w =
      Evolves-trans (token_life P) _ _ _ (execute_auth-Evolves op w)
        (run_auth-Evolves ops (execute op w))
