-- ===== src/Auth/Http/Router/Logout.antt =====
-- What logging out means over http.
use ops_nexus.Storage.Evolution.{Evolves, Evolves-refl, Evolves-trans}
use ops_nexus.Storage.World.{Env}
use ops_nexus.Prelude.{
  none, some, ok, err, [], ◌∷◌, refl, inl, inr, Bool, String, ◌≢◌, ◌≡◌, arith, List, Result,
  Bool-cases, subst, ◌==◌,
}
use ops_nexus.Auth.Domain.{
  Error, internal, user_not_found, role_not_found, token_revoked, invalid_input, token_invalid,
  invalid_credentials, token_expired, tenant_mismatch, user_inactive, user_already_exists,
  permission_denied,
}
use ops_nexus.Auth.Ports.{Ports, World}
use ops_nexus.Auth.Service.{logout, refresh_token}
use ops_nexus.Auth.Sessions.{run, run_auth-Evolves, token_life}
use ops_nexus.Auth.Logout.{IsRefused, logout-IsRevoked, IsRevoked-Moves, refresh-IsRefused}
use ops_nexus.Auth.Http.{
  Request, Reply, Decoder, map_domain_error, refresh, Env, String, List, Result, reply_to,
}
use ops_nexus.Auth.Http.Router.{Route, request_id, serve, dispatch, post_refresh}
use ops_nexus.Auth.Http.Router.Effects.{serve_refines}

pub record Message : Type 0 where
  pub header : String
  pub is_options : Bool
  pub route : Route
  pub request : Request

map_domain_error-ne : (e : Error) → (map_domain_error e).status ≢ 200
unfolding map_domain_error
map_domain_error-ne invalid_credentials p = absurd (omega arith)
map_domain_error-ne user_not_found p = absurd (omega arith)
map_domain_error-ne user_already_exists p = absurd (omega arith)
map_domain_error-ne permission_denied p = absurd (omega arith)
map_domain_error-ne invalid_input p = absurd (omega arith)
map_domain_error-ne user_inactive p = absurd (omega arith)
map_domain_error-ne token_invalid p = absurd (omega arith)
map_domain_error-ne token_expired p = absurd (omega arith)
map_domain_error-ne token_revoked p = absurd (omega arith)
map_domain_error-ne role_not_found p = absurd (omega arith)
map_domain_error-ne tenant_mismatch p = absurd (omega arith)
map_domain_error-ne internal p = absurd (omega arith)

module _ (env : Env) (P : Ports) (json : Decoder) where
  -- The state after a message has been answered.
  unfoldable pub serve_all : List Message → World P → World P
  serve_all [] w = w
  serve_all (m ∷ ms) w = serve_all ms (serve env P json m.header m.is_options m.route m.request w).1

  request_id_tokens :
      (header : String) (w : World P)
      → (request_id env P json header w).1.token_store ≡ w.token_store
  unfolding request_id
  request_id_tokens header w = elim (Bool-cases (header == "")) [
    | inl p ↦ rw p refl
    | inr p ↦ rw p refl
  ]

  serve-Evolves :
      (m : Message) (w : World P)
      → Evolves
          (token_life P)
          (P.tokens.view w.token_store)
          (P.tokens.view (serve env P json m.header m.is_options m.route m.request w).1.token_store)
  serve-Evolves m w =
      let (ops, e) = serve_refines env P json m.header m.is_options m.route m.request w in
      rw e (
        subst
          (λ s.
            Evolves (token_life P) (P.tokens.view s)
              (P.tokens.view (run env P ops (request_id env P json m.header w).1).token_store))
          (request_id_tokens m.header w)
          (run_auth-Evolves env P ops (request_id env P json m.header w).1))

  serve_all-Evolves :
      (ms : List Message) (w : World P)
      → Evolves
          (token_life P)
          (P.tokens.view w.token_store)
          (P.tokens.view (serve_all ms w).token_store)
  unfolding serve_all
  serve_all-Evolves [] w = Evolves-refl (token_life P) _
  serve_all-Evolves (m ∷ ms) w =
      Evolves-trans (token_life P) _ _ _ (serve-Evolves m w)
        (serve_all-Evolves ms (serve env P json m.header m.is_options m.route m.request w).1)

  refused_reply :
      {A : Type 0} (r : Result Error A) (f : A → Reply) → IsRefused r → (reply_to f r).status ≢ 200
  refused_reply (ok a) f h = absurd h
  refused_reply (err e) f h = map_domain_error-ne e

  -- Once the service has logged out a stored refresh token, no message to the refresh route with
  -- that token is answered 200, whatever messages come in between.
  pub refresh_route_after_logout :
      (k : String) (w : World P) (ms : List Message) (r : Request)
      → P.tokens.view w.token_store (P.tokens.collate k) ≢ none
      → (logout env P k w).0 ≡ ok tt
      → json.refresh_request r.body ≡ some k
      → (dispatch env P json post_refresh r (serve_all ms (logout env P k w).1)).0.status ≢ 200
  unfolding dispatch refresh
  refresh_route_after_logout k w ms r stored out sent =
      let w1 = (logout env P k w).1 in
      let w2 = serve_all ms w1 in
      rw sent (
        refused_reply (refresh_token env P k w2).0 _ (
          refresh-IsRefused env P k w2 (
            IsRevoked-Moves env P _ _ (serve_all-Evolves ms w1 (P.tokens.collate k))
              (logout-IsRevoked env P k w out stored))))
