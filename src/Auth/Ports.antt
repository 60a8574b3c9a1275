-- ===== src/Auth/Ports.antt =====
-- services/auth-service/internal/ports: the requests and the repositories. bcrypt, the JWT library
-- and the table of `unicode.ToLower` are not part of the repository and are parameters too.
use Prim.Native.Char.{Char}
use ops_nexus.Storage.{Created, Same}
use ops_nexus.Prelude.Int.{ℤ}
use ops_nexus.Auth.Domain.{RefreshToken, User, Error, Role}
use ops_nexus.Prelude.{
  [], ◌∷◌, none, some, true, ok, err, Option, String, ℕ, Result, List, Exec, ◌≡◌, ◌∷◌, ◌<◌,
  if◌then◌else◌, ◌==◌, ◌⊎◌, Bool,
}

pub record RegisterRequest : Type 0 where
  pub tenant_id : String
  pub email : String
  pub password : String
  pub first_name : String
  pub last_name : String

pub record LoginRequest : Type 0 where
  pub email : String
  pub password : String

-- `ports.Claims`
pub record Claims : Type 0 where
  pub user_id : String
  pub tenant_id : String
  pub email : String
  pub roles : List String

-- What `generateAccessToken` signs.
pub record AccessClaims : Type 0 where
  pub sub : String
  pub tid : String
  pub email : String
  pub roles : List String
  pub iss : String
  pub iat : ℕ
  pub exp : ℕ

-- The claims of a parsed token: a claim that is missing or no text is `none`, and so is an entry of
-- the roles.
pub record RawClaims : Type 0 where
  pub sub : Option String
  pub tid : Option String
  pub email : Option String
  pub roles : Option (List (Option String))

abbrev pub all_some : List String → List (Option String)
all_some [] = []
all_some (x ∷ xs) = some x ∷ all_some xs

-- What parsing gives of claims that were signed.
abbrev pub raw : AccessClaims → RawClaims
raw c = record {
  sub = some c.sub;
  tid = some c.tid;
  email = some c.email;
  roles = some (all_some c.roles);
}

-- `jwt.NewWithClaims(…).SignedString` and `jwt.Parse` with the service's secret: a token that was
-- signed is read back while its expiry is ahead of the clock, in seconds.
pub record Jwt : Type 0 where
  pub sign : AccessClaims → Result Error String
  pub parse : ℕ → String → Option RawClaims
  pub parse_sign :
      (c : AccessClaims) (token : String) (now : ℕ)
      → sign c ≡ ok token
      → now < c.exp
      → parse now token ≡ some (raw c)

abbrev pub revoked : RefreshToken → RefreshToken
revoked t = record t { revoked = true }

abbrev pub revoke_at : Option RefreshToken → Option RefreshToken
revoke_at none = none
revoke_at (some t) = some (revoked t)

-- `UPDATE refresh_tokens SET revoked = true WHERE token = ?`
abbrev pub Revokes :
    (String → Option RefreshToken) → (String → Option RefreshToken) → String → Type 0
Revokes before after token =
    (j : String) → after j ≡ (if token == j then revoke_at (before j) else before j)

abbrev pub Revoked :
    {R : Type 0}
    → (String → Option RefreshToken)
    → (String → Option RefreshToken)
    → String
    → Result Error R
    → Type 0
Revoked before after token (ok u) = Revokes before after token
Revoked before after token (err e) = Same before after ⊎ Revokes before after token

-- `RefreshTokenRepository`; its tokens are unique up to `collate`, the collation of the column, by
-- which a token is found. `kept` is what the columns of the table keep of a token.
pub record TokenRepository : Type 1 where
  pub Store : Type 0
  pub collate : String → String
  pub kept : RefreshToken → RefreshToken
  pub view : Store → String → Option RefreshToken
  pub create : RefreshToken → Exec Error Store (Unit {0})
  pub find : String → Exec Error Store RefreshToken
  pub revoke : String → Exec Error Store (Unit {0})
  pub view_key :
      (k : String) (s : Store) (t : RefreshToken) → view s k ≡ some t → collate t.token ≡ k
  pub create_created :
      (t : RefreshToken) (s : Store)
      → Created (view s) (view (create t s).1) (collate t.token) (kept t) (create t s).0
  pub find_ok :
      (k : String) (s : Store) (t : RefreshToken)
      → (find k s).0 ≡ ok t
      → view s (collate k) ≡ some t
  pub find_same : (k : String) (s : Store) → Same (view s) (view (find k s).1)
  pub revoke_revoked :
      (k : String) (s : Store) → Revoked (view s) (view (revoke k s).1) (collate k) (revoke k s).0

-- What `NewAuthService` is given. The lifetimes are whole minutes and hours above 0.
pub record Ports : Type 1 where
  pub tokens : TokenRepository
  pub Users : Type 0
  pub create_user : User → Exec Error Users (Unit {0})
  pub update_user : User → Exec Error Users (Unit {0})
  pub find_user : String → Exec Error Users User
  pub find_by_email : String → Exec Error Users User
  pub find_by_tenant_and_email : String → String → Exec Error Users User
  pub list_users : String → ℤ → ℤ → Exec Error Users (List User × ℕ)
  pub find_role : String → Exec Error Users Role
  pub assign_role : String → String → Exec Error Users (Unit {0})
  pub hash : String → Option String
  pub compare_hash : String → String → Bool
  pub jwt : Jwt
  pub lower : Char → Char
  pub access_minutes : ℕ
  pub refresh_hours : ℕ

pub record World (P : Ports) : Type 0 where
  pub token_store : P.tokens.Store
  pub users : P.Users
  pub readings : ℕ
  pub identifiers : ℕ
