-- ===== src/Auth/Refresh.antt =====
-- When `RefreshToken` of services/auth-service/internal/application/auth_service.go answers.
use ops_nexus.Prelude.{
  ◌>>=◌, some, true, false, ok, err, arith, String, ◌≡◌, Bool-cases, ◌<◌, ◌==◌, inl, inr,
  Result-cases, eq_iff, ◌≢◌,
}
use ops_nexus.Storage.World.{Env}
use ops_nexus.Auth.Domain.{Error, RefreshToken, User, TokenPair, is_active, status_active}
use ops_nexus.Prelude.Time.{Time, after}
use ops_nexus.Auth.Ports.{Ports, World}
use ops_nexus.Auth.Service.{refresh_token, check_live, is_live}

err_not_ok : {x : Error} {a : TokenPair} → err x ≢ ok a
err_not_ok e = cc

module _ (env : Env) (P : Ports) where
  -- The token is stored, not revoked and not expired, and belongs to an active user.
  pub record IsGood (w : World P) (token : String) : Type 0 where
    pub stored : RefreshToken
    pub user : User
    pub found : P.tokens.view w.token_store (P.tokens.collate token) ≡ some stored
    pub not_revoked : stored.revoked ≡ false
    pub not_expired : env.clock w.readings < stored.expires_at
    pub owner : (P.find_user stored.user_id w.users).0 ≡ ok user
    pub active : user.status ≡ status_active

  early : (due now : Time) → after due now ≡ true → now < due
  early due now e = ground arith

  active_status : (u : User) → is_active u ≡ true → u.status ≡ status_active
  unfolding is_active
  active_status u e = (eq_iff u.status status_active).0 e

  -- A refresh that answers was made with a token that is stored, not revoked, ahead of its expiry at
  -- the clock's reading, and whose user is found and active.
  pub refresh_token-IsGood :
      (token : String) (w : World P) (pair : TokenPair)
      → (refresh_token env P token w).0 ≡ ok pair
      → IsGood w token
  unfolding refresh_token check_live is_live ◌>>=◌
  refresh_token-IsGood token w pair e = elim (Bool-cases (token == "")) [
    | inl p ↦ absurd (err_not_ok (rw p at e))
    | inr p ↦ elim (Result-cases (P.tokens.find token w.token_store).0) [
      | inr (x, q) ↦ absurd (err_not_ok (rw (p, q) at e))
      | inl (t, q) ↦ elim (Bool-cases t.revoked) [
        | inl r ↦ absurd (err_not_ok (rw (p, q, r) at e))
        | inr r ↦ elim (Bool-cases (after t.expires_at (env.clock w.readings))) [
          | inr l ↦ absurd (err_not_ok (rw (p, q, r, l) at e))
          | inl l ↦ elim (Result-cases (P.find_user t.user_id w.users).0) [
            | inr (x, u) ↦ absurd (err_not_ok (rw (p, q, r, l, u) at e))
            | inl (a, u) ↦ elim (Bool-cases (is_active a)) [
              | inr n ↦ absurd (err_not_ok (rw (p, q, r, l, u, n) at e))
              | inl n ↦ record {
                stored = t;
                user = a;
                found = P.tokens.find_ok token w.token_store t q;
                not_revoked = r;
                not_expired = early t.expires_at (env.clock w.readings) l;
                owner = u;
                active = active_status a n;
              }
            ]
          ]
        ]
      ]
    ]
  ]
