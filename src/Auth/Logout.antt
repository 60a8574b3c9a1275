-- ===== src/Auth/Logout.antt =====
-- What logging out means for `RefreshToken` of
-- services/auth-service/internal/application/auth_service.go.
use ops_nexus.Storage.Evolution.{Moves}
use ops_nexus.Auth.Ports.{Ports, Revoked, revoke_at, World}
use ops_nexus.Auth.Domain.{RefreshToken, Error}
use ops_nexus.Storage.World.{Env}
use ops_nexus.Prelude.{
  ◌>>=◌, none, some, true, ok, err, refl, Result, Option, String, ◌≡◌, ◌≢◌, eq_iff, Bool-cases,
  subst, List, ◌==◌, inl, inr, Result-cases,
}
use ops_nexus.Auth.Sessions.{Op, run, run_auth-Evolves, token_life}
use ops_nexus.Auth.Service.{refresh_token, logout, check_live}

-- The stored token is a revoked one.
abbrev pub IsRevoked : Option RefreshToken → Type 0
IsRevoked none = ⊥
IsRevoked (some k) = k.revoked ≡ true

abbrev pub IsRefused : {A : Type 0} → Result Error A → Type 0
IsRefused (ok a) = ⊥
IsRefused (err e) = Unit {0}

module _ (env : Env) (P : Ports) where
  pub IsRevoked-Moves :
      (o p : Option RefreshToken) → Moves (token_life P) o p → IsRevoked o → IsRevoked p
  IsRevoked-Moves none p m h = absurd h
  IsRevoked-Moves (some k) none m h = absurd m
  IsRevoked-Moves (some k) (some k') m h = m.stays_revoked h

  IsRevoked-revoke_at : (o : Option RefreshToken) → o ≢ none → IsRevoked (revoke_at o)
  IsRevoked-revoke_at none h = absurd (h refl)
  IsRevoked-revoke_at (some k) h = refl

  Revoked-at :
      (b a : String → Option RefreshToken) (k : String) (r : Result Error (Unit {0})) {u : Unit {0}}
      → Revoked b a k r
      → r ≡ ok u
      → b k ≢ none
      → IsRevoked (a k)
  Revoked-at b a k (ok u) h e stored =
      rw (h k) (rw ((eq_iff k k).1 refl) (IsRevoked-revoke_at (b k) stored))
  Revoked-at b a k (err x) h e stored = cc

  err_not_ok : {A : Type 0} {x : Error} {a : A} → err x ≢ ok a
  err_not_ok e = cc

  pub logout-IsRevoked :
      (k : String) (w : World P) {u : Unit {0}}
      → (logout env P k w).0 ≡ ok u
      → P.tokens.view w.token_store (P.tokens.collate k) ≢ none
      → IsRevoked (P.tokens.view (logout env P k w).1.token_store (P.tokens.collate k))
  unfolding logout ◌>>=◌
  logout-IsRevoked k w e stored = elim (Bool-cases (k == "")) [
    | inl p ↦ absurd (err_not_ok (rw p at e))
    | inr p ↦ rw p (
        Revoked-at _ _ (P.tokens.collate k) _ (P.tokens.revoke_revoked k w.token_store) (rw p at e)
          stored)
  ]

  refresh_of_revoked :
      (k : String) (t : RefreshToken) (w : World P)
      → IsRevoked (P.tokens.view w.token_store (P.tokens.collate k))
      → (P.tokens.find k w.token_store).0 ≡ ok t
      → t.revoked ≡ true
  refresh_of_revoked k t w h e = subst IsRevoked (P.tokens.find_ok k w.token_store t e) h

  pub refresh-IsRefused :
      (k : String) (w : World P)
      → IsRevoked (P.tokens.view w.token_store (P.tokens.collate k))
      → IsRefused (refresh_token env P k w).0
  unfolding refresh_token check_live ◌>>=◌
  refresh-IsRefused k w h = elim (Bool-cases (k == "")) [
    | inl p ↦ rw p tt
    | inr p ↦ elim (Result-cases (P.tokens.find k w.token_store).0) [
      | inl (t, found) ↦ rw (p, found, refresh_of_revoked k t w h found) tt
      | inr (x, missed) ↦ rw (p, missed) tt
    ]
  ]

  -- Once a logout of a stored refresh token has succeeded, a refresh with that token is refused,
  -- whatever requests to the auth service come in between.
  pub refresh_after_logout-IsRefused :
      (k : String) (w : World P) (ops : List Op)
      → P.tokens.view w.token_store (P.tokens.collate k) ≢ none
      → (logout env P k w).0 ≡ ok tt
      → IsRefused (refresh_token env P k (run env P ops (logout env P k w).1)).0
  refresh_after_logout-IsRefused k w ops stored out =
      let w1 = (logout env P k w).1 in
      refresh-IsRefused k (run env P ops w1) (
        IsRevoked-Moves _ _ (run_auth-Evolves env P ops w1 (P.tokens.collate k))
          (logout-IsRevoked k w out stored))
