-- ===== src/Serialize/Binary/Databases.antt =====
-- The tables of a database, written one after the other and read (engine/serialize/binary.rs).
pub mod Whole
use a3sql.Prelude.{
  ℕ, zero, suc, ◌+◌, ◌≡◌, refl, ap, sym, subst, ◌∙◌, Bool, true, false, Option, none, some, List,
  [], ◌∷◌, ◌++◌, length, Result, ok, err, ◌>>=◌, arith, ite, append_assoc, if◌then◌else◌,
}
use a3sql.Prelude.Text.{Text, Text-discrete}
use a3sql.Prelude.Texts.{among, Distinct}
use a3sql.Prelude.Dict.{Dict, find, put, has_key, find-put_same, find-put_other}
use a3sql.Host.{Host}
use a3sql.Table.Defs.{Table}
use a3sql.Database.{Database, get_table, create_table}
use a3sql.Serialize.Binary.{BinaryError, write_bin_table, write_tables, binary_version}
use a3sql.Serialize.Binary.Import.{lift_err, read_table, read_bin_table, read_tables}
use a3sql.Serialize.Binary.Tables.{IsSaved, IsLoaded, read_table-write_bin_table}

module _ {E S : Type 0} (host : Host E) where
  -- The table that the database has under the name can be saved, and has that name itself.
  pub record CanSave (db : Database E S) (name : Text) : Type 0 where
    pub table : Table E
    pub found : find name db.tables ≡ some table
    pub own_name : table.name ≡ name
    pub saved : IsSaved host table

  -- The loaded database has a table under the name, which is the saved one loaded.
  pub record HasLoaded (db db' : Database E S) (name : Text) : Type 0 where
    pub table : Table E
    pub loaded : Table E
    pub found : find name db.tables ≡ some table
    pub found_loaded : find name db'.tables ≡ some loaded
    pub same : IsLoaded host table loaded

  -- What the loop over the names leaves.
  pub record Restored (names : List Text) (db start db' : Database E S) : Type 0 where
    pub listed : (name : Text) → among name names ≡ true → HasLoaded db db' name
    pub others :
        (name : Text) → among name names ≡ false → find name db'.tables ≡ find name start.tables

  abbrev with_table : Text → Table E → Database E S → Database E S
  with_table name t db = record db { tables = put name t db.tables }

  create_table-free :
      (name : Text) (t : Table E) (db : Database E S)
      → find name db.tables ≡ none
      → create_table name t db ≡ ok (with_table name t db)
  unfolding create_table
  create_table-free name t db h =
      let free : has_key name db.tables ≡ false = ground arith in rw (create_table, free) refl

  read_bin_table-ok :
      (t : Table E) (db : Database E S) (input rest : Text)
      → read_table host binary_version input ≡ ok (t, rest)
      → find t.name db.tables ≡ none
      → read_bin_table host binary_version db input ≡ ok (with_table t.name t db, rest)
  unfolding read_bin_table
  read_bin_table-ok t db input rest r h = rw r (rw (create_table-free t.name t db h) refl)

  write_tables-found :
      (name : Text) (names : List Text) (db : Database E S) (t : Table E)
      → find name db.tables ≡ some t
      → write_tables host (name ∷ names) db ≡ write_bin_table host t ++ write_tables host names db
  unfolding write_tables get_table
  write_tables-found name names db t h = rw (write_tables, get_table, h) refl

  read_tables-step :
      (count : ℕ) (db db' : Database E S) (input rest : Text)
      → read_bin_table host binary_version db input ≡ ok (db', rest)
      → read_tables host binary_version (suc count) db input
        ≡ read_tables host binary_version count db' rest
  unfolding read_tables
  read_tables-step count db db' input rest h = rw (read_tables, h) refl

  pub read_tables-write_tables :
      (names : List Text) (db start : Database E S) (rest : Text)
      → Distinct names
      → ((name : Text) → among name names ≡ true → CanSave db name)
      → ((name : Text) → among name names ≡ true → find name start.tables ≡ none)
      → (db' : Database E S) × (read_tables host binary_version
            (length names)
            start
            (write_tables host names db ++ rest)
          ≡ (db', ok tt))
        × Restored names db start db'
  unfolding read_tables
  read_tables-write_tables [] db start rest d s f =
      (start, refl, record { listed = λ name h. absurd (cc); others = λ name h. refl })
  read_tables-write_tables (name ∷ names) db start rest d s f =
      let c = s name (ground arith) in
      let (t, r, l) =
        read_table-write_bin_table host c.table (write_tables host names db ++ rest) c.saved in
      let named = l.same_name ∙ c.own_name in
      let free = f name (ground arith) in
      let step =
        read_bin_table-ok t start _ _ r
          (subst (λ n. find n start.tables ≡ none) (sym named) free) in
      let next = with_table t.name t start in
      let stored : find name next.tables ≡ some t =
        subst (λ n. find n next.tables ≡ some t) named (find-put_same t.name t start.tables) in
      let kept : (n : Text) → (name ≡ n → ⊥) → find n next.tables ≡ find n start.tables =
        λ n ne. find-put_other t.name n t start.tables (λ e. ne (sym named ∙ e)) in
      let (db', e, g) =
        read_tables-write_tables names db next rest d.1 (λ n h. s n (ground arith))
          (λ n h. kept n (apart n h) ∙ f n (ground arith)) in
      (
        db',
        ap (λ x. read_tables host binary_version (suc (length names)) start x)
              (ap (λ x. x ++ rest) (write_tables-found name names db c.table c.found)
                ∙ append_assoc (write_bin_table host c.table) (write_tables host names db) rest)
            ∙ read_tables-step (length names) start next _ _ step
            ∙ e,
        record {
          listed = λ n h. elim (Text-discrete name n) [
            | yes same ↦ subst (HasLoaded db db') same (record {
              table = c.table;
              loaded = t;
              found = c.found;
              found_loaded = g.others name d.0 ∙ stored;
              same = l;
            })
            | no differs ↦ g.listed n (ground arith)
          ];
          others = λ n h. g.others n (ground arith) ∙ kept n (λ same. absurd (ground arith));
        },
      )
    where
      apart : (n : Text) → among n names ≡ true → name ≡ n → ⊥
      apart n h same =
          let again = subst (λ x. among x names ≡ true) (sym same) h in ground (arith, d.0, again)
