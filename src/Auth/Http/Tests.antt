-- ===== src/Auth/Http/Tests.antt =====
-- The theorems on the http adapter of the auth service at concrete requests.
use ops_nexus.Prelude.{none, some, ok, [], ◌∷◌, refl, String, List, ◌≡◌, ◌≢◌, ◌⊎◌, false, ◌>>=◌}
use ops_nexus.Prelude.Scan.{split_space}
use ops_nexus.Prelude.Text.{to_lower}
use ops_nexus.Auth.Service.{logout, validate_token, texts}
use ops_nexus.Auth.Sessions.{execute, log_out}
use ops_nexus.Auth.Ports.{Claims}
use ops_nexus.Auth.Example.{env, ports, initial, tokens}
use ops_nexus.Auth.Http.{Decoder, Request}
use ops_nexus.Auth.Http.Router.{
  bearer, serve, dispatch, request_id, patch_user, post_refresh, post_logout, get_me,
}
use ops_nexus.Auth.Http.Router.Guard.{IsAdmin, IsRejected, status_set, dispatch_guard}
use ops_nexus.Auth.Http.Router.Requests.{serve_refines_auth, signed, logging_out, by_token}
use ops_nexus.Auth.Http.Router.Logout.{Message, serve_all, refresh_route_after_logout}

-- Bodies that are the token, or the status, alone.
abbrev decoder : Decoder
decoder = record {
  register_request = λ s. none;
  login_request = λ s. none;
  refresh_request = λ s. some s;
  logout_request = λ s. some s;
  assign_role_request = λ s. some s;
  names = λ s. none;
  status = λ s. some s;
}

abbrev request : String → Request
request body = record {
  authorization = "bearer eve";
  tenant_header = "";
  page = "";
  limit = "";
  body = body;
}

dispatch_guard_example :
    IsAdmin env ports decoder (request "suspended") initial
    ⊎ IsRejected env ports decoder initial
        (dispatch env ports decoder (patch_user "eve") (request "suspended") initial).0
        (dispatch env ports decoder (patch_user "eve") (request "suspended") initial).1
dispatch_guard_example =
    dispatch_guard env ports decoder (patch_user "eve") (request "suspended") initial
      (status_set "eve")

abbrev eve : Claims
eve = record { user_id = "eve"; tenant_id = "acme"; email = ""; roles = [] }

eve_bearer : bearer env ports decoder "bearer eve" ≡ some "eve"
unfolding bearer split_space to_lower
eve_bearer = refl

eve_valid : (validate_token env ports "eve" (request_id env ports decoder "q" initial).1).0 ≡ ok eve
unfolding validate_token ◌>>=◌ texts
eve_valid = refl

eve_signs : (request "secret").authorization ≢ ""
eve_signs e = cc

serve_refines_auth_example :
    (serve env ports decoder "q" false post_logout (request "secret") initial).1
    ≡ execute env ports
        (log_out "secret")
        (validate_token env ports "eve" (request_id env ports decoder "q" initial).1).1
serve_refines_auth_example =
    serve_refines_auth env ports decoder "q" eve post_logout signed (request "secret")
      (some (log_out "secret")) initial
      (validate_token env ports "eve" (request_id env ports decoder "q" initial).1).1 logging_out
      (by_token "eve" eve_signs eve_bearer eve_valid)

abbrev messages : List Message
messages =
    record { header = ""; is_options = false; route = post_refresh; request = request "secret" }
    ∷ record { header = "q"; is_options = false; route = get_me; request = request "" }
    ∷ []

secret_stored : tokens.view initial.token_store "secret" ≢ none
secret_stored e = cc

secret_out : (logout env ports "secret" initial).0 ≡ ok tt
unfolding logout ◌>>=◌
secret_out = refl

refresh_route_after_logout_example :
    (dispatch env ports decoder post_refresh
      (request "secret")
      (serve_all env ports decoder messages (logout env ports "secret" initial).1)).0.status
    ≢ 200
refresh_route_after_logout_example =
    refresh_route_after_logout env ports decoder "secret" initial messages (request "secret")
      secret_stored secret_out refl
