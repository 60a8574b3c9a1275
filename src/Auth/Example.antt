-- ===== src/Auth/Example.antt =====
-- Tokens and users in memory, which show that the promises of the auth service's ports can be met;
-- the examples run on them.
use ops_nexus.Prelude.Time.{Time}
use ops_nexus.Storage.{Created}
use ops_nexus.Storage.World.{Env}
use ops_nexus.Storage.Memory.{row_at, row_at_key}
use ops_nexus.Auth.Domain.{Error, RefreshToken, internal, token_invalid, User, Role, user_not_found}
use ops_nexus.Auth.Ports.{
  Jwt, RawClaims, AccessClaims, revoked, revoke_at, all_some, TokenRepository, Ports, World,
}
use ops_nexus.Prelude.{
  none, some, ok, err, [], ◌∷◌, refl, ◌≡◌, List, arith, Result, ap, String, if◌then◌else◌, ◌==◌,
  ◌&&◌, eq_iff, Bool-cases, inl, inr, Option, ◌+◌, true, ltb, false,
}

-- A signer for one tenant's users without a role or an address, whose tokens are their names.
abbrev pub sign_text : String → String → String → List String → Result Error String
sign_text sub tid email [] = if tid == "acme" && email == "" then ok sub else err internal
sign_text sub tid email (r ∷ rs) = err internal

abbrev pub sign : AccessClaims → Result Error String
sign c = sign_text c.sub c.tid c.email c.roles

abbrev pub claims : String → RawClaims
claims token = record { sub = some token; tid = some "acme"; email = some ""; roles = some [] }

pub claims-sign_text :
    (s t e : String) (rs : List String) (token : String)
    → sign_text s t e rs ≡ ok token
    → claims token
      ≡ record { sub = some s; tid = some t; email = some e; roles = some (all_some rs) }
claims-sign_text s t e [] token h = elim (Bool-cases (t == "acme" && e == "")) [
  | inl p ↦
      let a : t ≡ "acme" = (eq_iff t "acme").0 (ground arith) in
      let b : e ≡ "" = (eq_iff e "").0 (ground arith) in
      let c : s ≡ token = cc (rw p at h) in rw (a, b, c) refl
  | inr p ↦ cc (rw p at h)
]
claims-sign_text s t e (r ∷ rs) token h = cc

abbrev pub jwt : Jwt
jwt = record {
  sign = sign;
  parse = λ now token. some (claims token);
  parse_sign =
      λ c token now h early. ap some (claims-sign_text c.sub c.tid c.email c.roles token h);
}

abbrev pub revoke_all : String → List RefreshToken → List RefreshToken
revoke_all k [] = []
revoke_all k (t ∷ ts) = (if t.token == k then revoked t else t) ∷ revoke_all k ts

pub at_revoke_all :
    (k j : String) (ts : List RefreshToken)
    → row_at (λ t. t.token) (λ t r. r) 0 (revoke_all k ts) j ≡ (
        if k == j
        then revoke_at (row_at (λ t. t.token) (λ t r. r) 0 ts j)
        else row_at (λ t. t.token) (λ t r. r) 0 ts j)
at_revoke_all k j [] = ground (arith)
at_revoke_all k j (t ∷ ts) =
    ground (arith, eq_iff t.token k, eq_iff t.token j, eq_iff k j, at_revoke_all k j ts)

abbrev pub stored_at : List RefreshToken → String → Option RefreshToken
stored_at s k = row_at (λ t. t.token) (λ t r. r) 0 s k

abbrev pub fetch : Option RefreshToken → Result Error RefreshToken
fetch none = err token_invalid
fetch (some t) = ok t

pub fetch_ok : (o : Option RefreshToken) (t : RefreshToken) → fetch o ≡ ok t → o ≡ some t
fetch_ok none t e = cc
fetch_ok (some u) t e = cc

abbrev pub add :
    Option RefreshToken
    → RefreshToken
    → List RefreshToken
    → Result Error (Unit {0}) × List RefreshToken
add none t s = (ok tt, t ∷ s)
add (some u) t s = (err internal, s)

pub add-Created :
    (t : RefreshToken) (s : List RefreshToken) (o : Option RefreshToken)
    → stored_at s t.token ≡ o
    → Created (stored_at s) (stored_at (add o t s).1) t.token t (add o t s).0
add-Created t s none e = (e, λ j. refl)
add-Created t s (some u) e = inl (λ j. refl)

abbrev pub tokens : TokenRepository
tokens = record {
  Store = List RefreshToken;
  collate = λ k. k;
  kept = λ t. t;
  view = stored_at;
  create = λ t s. add (stored_at s t.token) t s;
  find = λ k s. (fetch (stored_at s k), s);
  revoke = λ k s. (ok tt, revoke_all k s);
  view_key = λ k s t e. row_at_key (λ t. t.token) (λ t r. r) 0 k s t e;
  create_created = λ t s. add-Created t s (stored_at s t.token) refl;
  find_ok = λ k s t e. fetch_ok (stored_at s k) t e;
  find_same = λ k s j. refl;
  revoke_revoked = λ k s j. at_revoke_all k j s;
}

abbrev pub start : Time
start = 63000000000000000000

abbrev pub auditor : Role
auditor = record {
  id = "role";
  tenant_id = "acme";
  name = "auditor";
  description = "";
  permissions = record { id = "p"; resource = "case"; action = "admin" } ∷ [];
  created_at = start;
  updated_at = start;
}

abbrev pub eve : User
eve = record {
  id = "eve";
  tenant_id = "acme";
  email = "";
  password_hash = "";
  first_name = "Eve";
  last_name = "";
  status = "active";
  roles = [];
  created_at = start;
  updated_at = start;
}

abbrev pub ports : Ports
ports = record {
  tokens = tokens;
  Users = List User;
  create_user = λ u s. (ok tt, u ∷ s);
  update_user = λ u s. (ok tt, u ∷ s);
  find_user = λ id s. (ok eve, s);
  find_by_email = λ email s. (ok eve, s);
  find_by_tenant_and_email = λ tenant email s. (err user_not_found, s);
  list_users = λ tenant page limit s. (ok (s, 0), s);
  find_role = λ id s. (ok auditor, s);
  assign_role = λ user role s. (ok tt, s);
  hash = λ password. some password;
  compare_hash = λ hash password. true;
  jwt = jwt;
  lower = λ c. c;
  access_minutes = 15;
  refresh_hours = 168;
}

abbrev pub env : Env
env = record {
  clock = λ n. start + n;
  uuid = λ n. if ltb n 1 then "a" else if ltb n 2 then "b" else "c";
}

abbrev pub session : RefreshToken
session = record {
  id = "t";
  user_id = "eve";
  tenant_id = "acme";
  token = "secret";
  expires_at = start + 1000000000;
  revoked = false;
  created_at = start;
}

abbrev pub initial : World ports
initial = record { token_store = session ∷ []; users = eve ∷ []; readings = 0; identifiers = 0 }
