-- ===== src/Storage/Gorm.antt =====
-- The repositories over gorm, services/*/internal/adapters/mysql/*_repository.go: each turns an
-- entity into a row and back, and makes one statement.
use ops_nexus.Prelude.{
  String, ◌≡◌, refl, ap, ◌∙◌, subst, ◌≢◌, inl, inr, Bool, true, false, Option, some, none, Result,
  ok, err, Exec, ◌==◌, if◌then◌else◌,
}
use ops_nexus.Prelude.Time.{Time}
use ops_nexus.Storage.Defs.{
  Writes, Written, Created, Fetch, found, missing, failed, Fetched, Fault, Table, Repository,
}

-- The conversions of one repository, and what ties them to the row's key and time stamp.
pub record Codec (A Row : Type 0) (key : A → String) (touch : Time → A → A) (kept : A → A)
    (row_key : Row → String) (row_touch : Time → Row → Row) : Type 0 where
  pub encode : A → Row
  pub decode : Row → Option A
  pub decode_key : (r : Row) (a : A) → decode r ≡ some a → key a ≡ row_key r
  pub key_encode : (a : A) → row_key (encode a) ≡ key a
  pub decode_encode : (a : A) → decode (encode a) ≡ some (kept a)
  pub decode_touch : (t : Time) (a : A) → decode (row_touch t (encode a)) ≡ some (touch t (kept a))

abbrev pub bind_option : {A B : Type 0} → Option A → (A → Option B) → Option B
bind_option none f = none
bind_option (some a) f = f a

-- The errors that `FindByID` tells apart, and those of a write.
abbrev pub decoded : {E A : Type 0} → E → Option A → Result E A
decoded internal none = err internal
decoded internal (some a) = ok a

abbrev pub fetch_result : {E A Row : Type 0} → E → E → (Row → Option A) → Fetch Row → Result E A
fetch_result not_found internal decode (found r) = decoded internal (decode r)
fetch_result not_found internal decode missing = err not_found
fetch_result not_found internal decode failed = err internal

decoded_ok :
    {E A : Type 0} (internal : E) (o : Option A) (a : A) → decoded internal o ≡ ok a → o ≡ some a
decoded_ok internal none a e = cc
decoded_ok internal (some b) a e = cc

decoded_err :
    {E A : Type 0} (internal : E) (o : Option A) (e : E) → decoded internal o ≡ err e → internal ≡ e
decoded_err internal none e p = cc
decoded_err internal (some b) e p = cc

decode_if :
    {A Row : Type 0} (decode : Row → Option A) (b : Bool) (r : Row) (a : A) (o : Option Row)
    → decode r ≡ some a
    → bind_option (if b then some r else o) decode ≡ (if b then some a else bind_option o decode)
decode_if decode true r a o e = e
decode_if decode false r a o e = refl

abbrev pub write_result : {E A : Type 0} → E → Result Fault A → Result E A
write_result internal (ok a) = ok a
write_result internal (err e) = err internal

module _ {E A Row : Type 0} (not_found internal : E) (other : internal ≢ not_found)
    {key : A → String} {touch : Time → A → A} {kept : A → A} {row_key : Row → String}
    {row_touch : Time → Row → Row} (c : Codec A Row key touch kept row_key row_touch)
    (table : Table Row row_key row_touch) where
  abbrev pub decode_all : (String → Option Row) → String → Option A
  decode_all rows k = bind_option (rows k) c.decode

  -- The entities that the rows stand for.
  abbrev pub content : table.Store → String → Option A
  content s = decode_all (table.rows s)

  -- `FindByID`
  unfoldable pub find_by_id : String → Exec E table.Store A
  find_by_id k s = let (r, s') = table.first k s in (fetch_result not_found internal c.decode r, s')

  -- `Create`
  unfoldable pub create : A → Exec E table.Store (Unit {0})
  create a s = let (r, s') = table.create (c.encode a) s in (write_result internal r, s')

  -- `Update`
  unfoldable pub update : A → Exec E table.Store (Unit {0})
  update a s = let (r, s') = table.save (c.encode a) s in (write_result internal r, s')

  pub Fetched-ok :
      (o : Option Row) (r : Fetch Row) (a : A)
      → Fetched o r
      → fetch_result not_found internal c.decode r ≡ ok a
      → bind_option o c.decode ≡ some a
  Fetched-ok o (found r) a h e = rw h (decoded_ok internal (c.decode r) a e)
  Fetched-ok o missing a h e = cc
  Fetched-ok o failed a h e = cc

  pub Fetched-none :
      (o : Option Row) (r : Fetch Row)
      → Fetched o r
      → fetch_result {A = A} not_found internal c.decode r ≡ err not_found
      → bind_option o c.decode ≡ none
  Fetched-none o (found r) h e = absurd (other (decoded_err internal (c.decode r) not_found e))
  Fetched-none o missing h e = rw h
  Fetched-none o failed h e = absurd (other (decoded_err {A = A} internal none not_found e))

  Writes-content :
      (before after : String → Option Row) (k : String) (r : Row) (a : A)
      → c.decode r ≡ some a
      → Writes before after k r
      → Writes (decode_all before) (decode_all after) k a
  Writes-content before after k r a e w j = rw (w j) (decode_if c.decode (k == j) r a _ e)

  pub Written-content :
      (before after : String → Option Row) (k : String) (r : Time → Row) (a : Time → A)
      → ((t : Time) → c.decode (r t) ≡ some (a t))
      → (res : Result Fault (Unit {0})) → Written before after k r res
      → Written (decode_all before) (decode_all after) k a (write_result internal res)
  Written-content before after k r a e (ok u) (t, w) =
      (t, Writes-content before after k (r t) (a t) (e t) w)
  Written-content before after k r a e (err f) (inl same) =
      inl (λ j. ap (λ o. bind_option o c.decode) (same j))
  Written-content before after k r a e (err f) (inr (t, w)) =
      inr (t, Writes-content before after k (r t) (a t) (e t) w)

  pub Created-content :
      (before after : String → Option Row) (k : String) (r : Row) (a : A)
      → c.decode r ≡ some a
      → (res : Result Fault (Unit {0})) → Created before after k r res
      → Created (decode_all before) (decode_all after) k a (write_result internal res)
  Created-content before after k r a e (ok u) (free, w) =
      (ap (λ o. bind_option o c.decode) free, Writes-content before after k r a e w)
  Created-content before after k r a e (err f) (inl same) =
      inl (λ j. ap (λ o. bind_option o c.decode) (same j))
  Created-content before after k r a e (err f) (inr (free, w)) =
      inr (ap (λ o. bind_option o c.decode) free, Writes-content before after k r a e w)

  pub content_key :
      (k : String) (s : table.Store) (o : Option Row) (a : A)
      → table.rows s k ≡ o
      → bind_option o c.decode ≡ some a
      → key a ≡ k
  content_key k s none a h e = cc
  content_key k s (some r) a h e = c.decode_key r a e ∙ table.rows_key k s r h

  -- What a service is promised follows from what gorm promises.
  unfoldable pub repository : Repository E A not_found key touch kept
  unfolding find_by_id create update
  repository = record {
    Store = table.Store;
    view = content;
    find = find_by_id;
    create = create;
    update = update;
    view_key = λ k s a. content_key k s (table.rows s k) a refl;
    find_ok = λ k s a. Fetched-ok (table.rows s k) (table.first k s).0 a (table.first_fetched k s);
    find_none = λ k s. Fetched-none (table.rows s k) (table.first k s).0 (table.first_fetched k s);
    find_same = λ k s j. ap (λ o. bind_option o c.decode) (table.first_same k s j);
    create_created = λ a s.
        subst (λ k. Created (content s) (content (create a s).1) k (kept a) (create a s).0)
          (c.key_encode a)
          (Created-content (table.rows s) (table.rows (table.create (c.encode a) s).1)
            (row_key (c.encode a)) (c.encode a) (kept a) (c.decode_encode a)
            (table.create (c.encode a) s).0 (table.create_created (c.encode a) s));
    update_written = λ a s.
        subst
          (λ k.
            Written (content s) (content (update a s).1) k (λ t. touch t (kept a)) (update a s).0)
          (c.key_encode a)
          (Written-content (table.rows s) (table.rows (table.save (c.encode a) s).1)
            (row_key (c.encode a)) (λ t. row_touch t (c.encode a)) (λ t. touch t (kept a))
            (λ t. c.decode_touch t a) (table.save (c.encode a) s).0
            (table.save_written (c.encode a) s));
  }
