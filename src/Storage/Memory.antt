-- ===== src/Storage/Memory.antt =====
-- A table in memory, which shows that the promises of `Table` can be met, and on which the
-- examples run: the newest row of a key stands first, and `stamp` is the clock of the saves.
use ops_nexus.Prelude.{
  String, ◌≡◌, refl, inl, Option, some, none, ok, err, Exec, List, [], ◌∷◌, ◌==◌, if◌then◌else◌,
  arith, eq_iff,
}
use ops_nexus.Prelude.Time.{Time}
use ops_nexus.Storage.Defs.{Created, Fetch, found, missing, Fetched, Fault, fault, Table}

module _ {Row : Type 0} (key : Row → String) (touch : Time → Row → Row) (stamp : Time) where
  abbrev pub row_at : List Row → String → Option Row
  row_at [] k = none
  row_at (r ∷ s) k = if key r == k then some r else row_at s k

  abbrev pub fetch : Option Row → Fetch Row
  fetch none = missing
  fetch (some r) = found r

  abbrev pub insert : Option Row → Row → Exec Fault (List Row) (Unit {0})
  insert none r s = (ok tt, r ∷ s)
  insert (some old) r s = (err fault, s)

  pub fetch-Fetched : (o : Option Row) → Fetched o (fetch o)
  fetch-Fetched none = refl
  fetch-Fetched (some r) = refl

  pub insert-Created :
      (r : Row) (s : List Row) (o : Option Row)
      → row_at s (key r) ≡ o
      → Created (row_at s) (row_at (insert o r s).1) (key r) r (insert o r s).0
  insert-Created r s none e = (e, λ j. refl)
  insert-Created r s (some old) e = inl (λ j. refl)

  pub row_at_key : (k : String) (s : List Row) (r : Row) → row_at s k ≡ some r → key r ≡ k
  row_at_key k [] r e = cc
  row_at_key k (a ∷ s) r e = ground (arith, eq_iff (key a) k, row_at_key k s r)

  abbrev pub memory_table : ((t : Time) (r : Row) → key (touch t r) ≡ key r) → Table Row key touch
  memory_table key_touch = record {
    Store = List Row;
    rows = row_at;
    first = λ k s. (fetch (row_at s k), s);
    create = λ r s. insert (row_at s (key r)) r s;
    save = λ r s. (ok tt, touch stamp r ∷ s);
    rows_key = row_at_key;
    first_fetched = λ k s. fetch-Fetched (row_at s k);
    first_same = λ k s j. refl;
    create_created = λ r s. insert-Created r s (row_at s (key r)) refl;
    save_written = λ r s. (stamp, λ j. rw (key_touch stamp r));
  }
