-- ===== src/Auth/Tests.antt =====
-- Runs of the auth service on tokens and users in memory.
use ops_nexus.Auth.Refresh.{IsGood, refresh_token-IsGood}
use ops_nexus.Auth.Access.{
  claims_for, validate_token-generate_access_token, AnyGrants, has_permission_iff,
}
use ops_nexus.Auth.Logout.{IsRefused, refresh_after_logout-IsRefused}
use ops_nexus.Auth.Sessions.{Op, refresh, run, log_in, log_out}
use ops_nexus.Auth.Service.{
  access_claims, validate_token, logout, generate_access_token, refresh_token, unix, role_names,
  check_live, is_live,
}
use ops_nexus.Auth.Domain.{has_permission, TokenPair, is_active}
use ops_nexus.Auth.Ports.{World}
use ops_nexus.Prelude.{none, ok, [], ◌∷◌, refl, ◌≡◌, List, arith, ◌≢◌, true, ◌>>=◌, ◌↔◌, ◌<◌}
use ops_nexus.Auth.Example.{tokens, auditor, eve, ports, env, initial}

abbrev requests : List Op
requests =
    refresh "secret" ∷ log_in (record { email = "eve"; password = "x" }) ∷ log_out "secret" ∷ []

session_stored : tokens.view initial.token_store "secret" ≢ none
session_stored e = cc

logged_out : (logout env ports "secret" initial).0 ≡ ok tt
unfolding logout ◌>>=◌
logged_out = refl

refresh_after_logout_example :
    IsRefused
      (refresh_token env ports "secret"
        (run env ports requests (logout env ports "secret" initial).1)).0
refresh_after_logout_example =
    refresh_after_logout-IsRefused env ports "secret" initial requests session_stored logged_out

abbrev later : World ports
later = record initial { readings = 5 }

access_signed : (generate_access_token env ports eve initial).0 ≡ ok "eve"
unfolding generate_access_token access_claims role_names ◌>>=◌
access_signed = refl

still_valid :
    unix (env.clock later.readings) < (access_claims env ports eve (env.clock initial.readings)).exp
unfolding access_claims unix
still_valid = ground arith

validate_token_example : (validate_token env ports "eve" later).0 ≡ ok (claims_for eve)
validate_token_example =
    validate_token-generate_access_token env ports eve initial later "eve" access_signed still_valid

has_permission_iff_example :
    (has_permission (record eve { roles = auditor ∷ [] }) "case" "close" ≡ true)
    ↔ AnyGrants (auditor ∷ []) "case" "close"
has_permission_iff_example = has_permission_iff (record eve { roles = auditor ∷ [] }) "case" "close"

abbrev pair : TokenPair
pair = record {
  access_token = "eve";
  refresh_token = "secret";
  expires_in = 900;
  token_type = "Bearer";
}

refreshed : (refresh_token env ports "secret" initial).0 ≡ ok pair
unfolding refresh_token check_live is_live is_active generate_access_token access_claims role_names
    ◌>>=◌
refreshed = refl

refresh_token_example : IsGood env ports initial "secret"
refresh_token_example = refresh_token-IsGood env ports "secret" initial pair refreshed
