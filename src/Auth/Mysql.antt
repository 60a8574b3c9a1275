-- ===== src/Auth/Mysql.antt =====
-- services/auth-service/internal/adapters/mysql/refresh_token_repository.go over gorm's table: it is
-- the repository that the auth service is promised. A table finds a token by the collation of its
-- column, and keeps whole milliseconds of a time; the two are parameters.
use ops_nexus.Prelude.{
  none, some, true, false, ok, err, refl, Option, Result, String, Bool, Exec, ◌≡◌, ◌⊎◌, ◌∙◌, ap,
  sym, inl, inr, if◌then◌else◌, ◌==◌,
}
use ops_nexus.Prelude.Time.{Time}
use ops_nexus.Storage.{Fetch, Fetched, found, missing, failed, Fault, Same, Created}
use ops_nexus.Auth.Domain.{Error, RefreshToken, internal, token_invalid}
use ops_nexus.Auth.Ports.{TokenRepository, Revoked, revoke_at}

pub record RefreshTokenRow : Type 0 where
  pub id : String
  pub user_id : String
  pub tenant_id : String
  pub token : String
  pub expires_at : Time
  pub revoked : Bool
  pub created_at : Time

abbrev pub map_at : {A B : Type 0} → (A → B) → Option A → Option B
map_at f none = none
map_at f (some a) = some (f a)

-- One row is changed, where there is one with the key.
abbrev pub Updates :
    (String → Option RefreshTokenRow)
    → (String → Option RefreshTokenRow)
    → String
    → (RefreshTokenRow → RefreshTokenRow)
    → Type 0
Updates before after k f =
    (j : String) → after j ≡ (if k == j then map_at f (before j) else before j)

abbrev pub Updated :
    {R : Type 0}
    → (String → Option RefreshTokenRow)
    → (String → Option RefreshTokenRow)
    → String
    → (RefreshTokenRow → RefreshTokenRow)
    → Result Fault R
    → Type 0
Updated before after k f (ok u) = Updates before after k f
Updated before after k f (err e) = Same before after ⊎ Updates before after k f

-- The table, with a unique key on the token: `First` and `Update` with `token = ?`, and `Create`.
pub record TokenTable (collate : String → String) : Type 1 where
  pub Store : Type 0
  pub rows : Store → String → Option RefreshTokenRow
  pub first : String → Store → Fetch RefreshTokenRow × Store
  pub create : RefreshTokenRow → Exec Fault Store (Unit {0})
  pub update : String → (RefreshTokenRow → RefreshTokenRow) → Exec Fault Store (Unit {0})
  pub rows_key :
      (k : String) (s : Store) (r : RefreshTokenRow) → rows s k ≡ some r → collate r.token ≡ k
  pub first_fetched : (k : String) (s : Store) → Fetched (rows s (collate k)) (first k s).0
  pub first_same : (k : String) (s : Store) → Same (rows s) (rows (first k s).1)
  pub create_created :
      (r : RefreshTokenRow) (s : Store)
      → Created (rows s) (rows (create r s).1) (collate r.token) r (create r s).0
  pub update_updated :
      (k : String) (f : RefreshTokenRow → RefreshTokenRow) (s : Store)
      → Updated (rows s) (rows (update k f s).1) (collate k) f (update k f s).0

-- The row of `Create`, and the token of `FindByToken`.
abbrev pub row_of : RefreshToken → RefreshTokenRow
row_of t = record {
  id = t.id;
  user_id = t.user_id;
  tenant_id = t.tenant_id;
  token = t.token;
  expires_at = t.expires_at;
  revoked = t.revoked;
  created_at = t.created_at;
}

abbrev pub token_of : RefreshTokenRow → RefreshToken
token_of r = record {
  id = r.id;
  user_id = r.user_id;
  tenant_id = r.tenant_id;
  token = r.token;
  expires_at = r.expires_at;
  revoked = r.revoked;
  created_at = r.created_at;
}

-- `Update("revoked", true)`
abbrev pub revoke_row : RefreshTokenRow → RefreshTokenRow
revoke_row r = record r { revoked = true }

abbrev pub write_result : Result Fault (Unit {0}) → Result Error (Unit {0})
write_result (ok u) = ok u
write_result (err e) = err internal

module _ (collate : String → String) (column : Time → Time) (T : TokenTable collate) where
  -- A row as it is read: its times have been through the columns.
  abbrev pub read_row : RefreshTokenRow → RefreshToken
  read_row r =
      token_of (record r { expires_at = column r.expires_at; created_at = column r.created_at })

  abbrev pub fetched : Fetch RefreshTokenRow → Result Error RefreshToken
  fetched (found r) = ok (read_row r)
  fetched missing = err token_invalid
  fetched failed = err internal

  find_by_token : String → Exec Error T.Store RefreshToken
  find_by_token k s = let (r, s') = T.first k s in (fetched r, s')

  create_token : RefreshToken → Exec Error T.Store (Unit {0})
  create_token t s = let (r, s') = T.create (row_of t) s in (write_result r, s')

  revoke_token : String → Exec Error T.Store (Unit {0})
  revoke_token k s = let (r, s') = T.update k revoke_row s in (write_result r, s')

  abbrev pub content : T.Store → String → Option RefreshToken
  content s k = map_at read_row (T.rows s k)

  token_or : RefreshToken → Option RefreshToken → String
  token_or t none = t.token
  token_or t (some u) = u.token

  content_key :
      (k : String) (s : T.Store) (o : Option RefreshTokenRow) (t : RefreshToken)
      → T.rows s k ≡ o
      → map_at read_row o ≡ some t
      → collate t.token ≡ k
  unfolding token_or
  content_key k s none t p e = cc
  content_key k s (some r) t p e =
      ap collate (sym (ap (token_or (read_row r)) e)) ∙ T.rows_key k s r p

  Fetched-ok :
      (o : Option RefreshTokenRow) (r : Fetch RefreshTokenRow) (t : RefreshToken)
      → Fetched o r
      → fetched r ≡ ok t
      → map_at read_row o ≡ some t
  Fetched-ok o (found r) t h e = rw h (cc)
  Fetched-ok o missing t h e = cc
  Fetched-ok o failed t h e = cc

  read_if :
      (b : Bool) (r : RefreshTokenRow) (o : Option RefreshTokenRow)
      → map_at read_row (if b then some r else o)
        ≡ (if b then some (read_row r) else map_at read_row o)
  read_if true r o = refl
  read_if false r o = refl

  Created-content :
      (before after : String → Option RefreshTokenRow) (k : String) (r : RefreshTokenRow)
      (res : Result Fault (Unit {0}))
      → Created before after k r res
      → Created
          (λ j. map_at read_row (before j))
          (λ j. map_at read_row (after j))
          k
          (read_row r)
          (write_result res)
  Created-content before after k r (ok u) (free, w) =
      (ap (map_at read_row) free, λ j. ap (map_at read_row) (w j) ∙ read_if (k == j) r (before j))
  Created-content before after k r (err e) (inl same) = inl (λ j. ap (map_at read_row) (same j))
  Created-content before after k r (err e) (inr (free, w)) =
      inr
        (ap (map_at read_row) free, λ j. ap (map_at read_row) (w j) ∙ read_if (k == j) r (before j))

  read_revoked :
      (b : Bool) (o : Option RefreshTokenRow)
      → map_at read_row (if b then map_at revoke_row o else o)
        ≡ (if b then revoke_at (map_at read_row o) else map_at read_row o)
  read_revoked true none = refl
  read_revoked true (some r) = refl
  read_revoked false o = refl

  Revoked-content :
      (before after : String → Option RefreshTokenRow) (k : String) (res : Result Fault (Unit {0}))
      → Updated before after k revoke_row res
      → Revoked
          (λ j. map_at read_row (before j))
          (λ j. map_at read_row (after j))
          k
          (write_result res)
  Revoked-content before after k (ok u) w =
      λ j. ap (map_at read_row) (w j) ∙ read_revoked (k == j) (before j)
  Revoked-content before after k (err e) (inl same) = inl (λ j. ap (map_at read_row) (same j))
  Revoked-content before after k (err e) (inr w) =
      inr (λ j. ap (map_at read_row) (w j) ∙ read_revoked (k == j) (before j))

  -- The repository of `NewRefreshTokenRepository`.
  pub token_repository : TokenRepository
  unfolding find_by_token create_token revoke_token
  token_repository = record {
    Store = T.Store;
    collate = collate;
    kept = λ t. read_row (row_of t);
    view = content;
    create = create_token;
    find = find_by_token;
    revoke = revoke_token;
    view_key = λ k s t e. content_key k s (T.rows s k) t refl e;
    create_created = λ t s.
        Created-content (T.rows s) (T.rows (T.create (row_of t) s).1) (collate t.token) (row_of t)
          (T.create (row_of t) s).0 (T.create_created (row_of t) s);
    find_ok =
        λ k s t e. Fetched-ok (T.rows s (collate k)) (T.first k s).0 t (T.first_fetched k s) e;
    find_same = λ k s j. ap (map_at read_row) (T.first_same k s j);
    revoke_revoked = λ k s.
        Revoked-content (T.rows s) (T.rows (T.update k revoke_row s).1) (collate k)
          (T.update k revoke_row s).0 (T.update_updated k revoke_row s);
  }
