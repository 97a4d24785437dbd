-- ===== src/Serialize/Binary/Databases/Whole.antt =====
-- engine/serialize/binary.rs: `import_binary` of what `export_binary` writes.
use Prim.Native.Nat.{bit_xor}
use a3sql.Prelude.{
  ℕ, zero, suc, ◌-◌, ◌*◌, ◌/◌, ◌%◌, ◌^◌, ◌<◌, ◌≤◌, ◌≡◌, refl, ap, sym, ◌∙◌, Bool, true, false,
  Option, none, some, [], ◌∷◌, ◌++◌, length, length-append, take, drop, ok, arith, append_assoc,
  append-nil, ltb, ◌==◌,
}
use a3sql.Prelude.Text.{Text, Text-discrete}
use a3sql.Prelude.Texts.{among}
use a3sql.Prelude.Dict.{find}
use a3sql.Host.{Host}
use a3sql.Table.Defs.{Table}
use a3sql.Database.{Database, table_names, has_table, new}
use a3sql.Database.Catalog.{HasNames, table_names-Sorted, table_names-Distinct}
use a3sql.Serialize.Bytes.{le_bytes, read_le, read_le-le_bytes, checksum, checksum_from}
use a3sql.Serialize.Binary.{magic, binary_version, u32_bytes, write_tables, export_binary, read_u32}
use a3sql.Serialize.Binary.Part.{table_count}
use a3sql.Serialize.Binary.Values.{read_u32-u32_bytes}
use a3sql.Serialize.Binary.Import.{read_tables, import_binary, has_magic, version_of, trailer_of}
use a3sql.Serialize.Binary.Databases.{CanSave, HasLoaded, read_tables-write_tables}

length-le_bytes : (width n : ℕ) → length (le_bytes width n) ≡ width
unfolding le_bytes
length-le_bytes zero n = refl
length-le_bytes (suc width) n = ground (arith, length-le_bytes width (n / 256))

take-append : (xs ys : Text) (n : ℕ) → n ≡ length xs → take n (xs ++ ys) ≡ xs
take-append [] ys zero e = refl
take-append [] ys (suc n) e = absurd (omega arith)
take-append (x ∷ xs) ys zero e = absurd (omega arith)
take-append (x ∷ xs) ys (suc n) e = ap (λ zs. x ∷ zs) (take-append xs ys n (omega arith))

drop-append : (xs ys : Text) (n : ℕ) → n ≡ length xs → drop n (xs ++ ys) ≡ ys
drop-append [] ys zero e = refl
drop-append [] ys (suc n) e = absurd (omega arith)
drop-append (x ∷ xs) ys zero e = absurd (omega arith)
drop-append (x ∷ xs) ys (suc n) e = drop-append xs ys n (omega arith)

checksum_from-lt : (input : Text) (hash : ℕ) → hash < 2 ^ 64 → checksum_from hash input < 2 ^ 64
unfolding checksum_from
checksum_from-lt [] hash h = h
checksum_from-lt (b ∷ input) hash h =
    checksum_from-lt input (bit_xor hash b * 0x100000001b3 % 2 ^ 64) (omega arith)

checksum-lt : (input : Text) → checksum input < 2 ^ 64
unfolding checksum
checksum-lt input = checksum_from-lt input 0xcbf29ce484222325 (omega arith)

module _ {E : Type 0} (host : Host E) where
  -- What `import_binary` finds in an input that it loads.
  record Passes (input : Text) (count : ℕ) (rest : Text) : Type 0 where
    long : 17 ≤ length input
    magic_right : has_magic host input ≡ true
    version_right : version_of host input ≡ 3
    intact : checksum (take (length input - 8) input) ≡ trailer_of host input
    counted : read_u32 table_count (drop 5 input) ≡ ok (count, rest)

module _ {E S : Type 0} (host : Host E) where
  import_binary-Passes :
      (input : Text) (count : ℕ) (rest : Text) (db : Database E S)
      → Passes host input count rest
      → import_binary host input db ≡ read_tables host 3 count db rest
  unfolding import_binary
  import_binary-Passes input count rest db p =
      let long : ltb (length input) 13 ≡ false = ground (arith, p.long) in
      let wide : ltb (length input - 8) 9 ≡ false = ground (arith, p.long) in
      let whole : (checksum (take (length input - 8) input) == trailer_of host input) ≡ true =
        ground (arith, p.intact) in
      rw (import_binary, long, p.magic_right, p.version_right, whole)
        (rw (wide, p.counted) (ap (λ v. read_tables host v count db rest) p.version_right))

  abbrev payload : Database E S → Text
  payload db =
      magic
      ++ (binary_version
          ∷ (u32_bytes (length (table_names db)) ++ write_tables host (table_names db) db))

  abbrev trailer : Database E S → Text
  trailer db = le_bytes 8 (checksum (payload db))

  split-length : (db : Database E S) → length (payload db ++ trailer db) - 8 ≡ length (payload db)
  split-length db =
      omega
        (arith, length-append (payload db) (trailer db), length-le_bytes 8 (checksum (payload db)))

  export-Passes :
      (db : Database E S)
      → length (table_names db) < 2 ^ 32
      → Passes host
          (payload db ++ trailer db)
          (length (table_names db))
          (write_tables host (table_names db) db ++ trailer db)
  unfolding Text-discrete
  export-Passes db short = record {
    long = omega (
      arith,
      length-append (payload db) (trailer db),
      length-le_bytes 8 (checksum (payload db)),
      length-append (u32_bytes (length (table_names db))) (write_tables host (table_names db) db),
      length-le_bytes 4 (length (table_names db) % 2 ^ 32),
    );
    magic_right = refl;
    version_right = refl;
    intact =
        ap checksum (take-append (payload db) (trailer db) _ (split-length db))
        ∙ sym (
            read_trailer (
              ap (read_le 8) (drop-append (payload db) (trailer db) _ (split-length db))
              ∙ read_checksum));
    counted =
        rw (append_assoc (u32_bytes (length (table_names db))))
          (read_u32-u32_bytes (length (table_names db)) table_count _ short);
  }
    where
      read_checksum : read_le 8 (trailer db) ≡ some (checksum (payload db), [])
      read_checksum =
          ap (read_le 8) (sym (append-nil (trailer db)))
          ∙ read_le-le_bytes 8 (checksum (payload db)) [] (checksum-lt (payload db))

      read_trailer :
          read_le 8 (drop (length (payload db ++ trailer db) - 8) (payload db ++ trailer db))
            ≡ some (checksum (payload db), [])
          → trailer_of host (payload db ++ trailer db) ≡ checksum (payload db)
      read_trailer e =
          ap (λ (o : Option (ℕ × Text)). elim o as (λ x. ℕ) [ none ↦ 0 | some (w, rest) ↦ w ]) e

  -- If the table names are distinct and fewer than 2^32, and each name's table has that name
  -- itself and can be saved (short UTF-8 texts, 64-bit values, distinct column names, rows that
  -- the insert checks leave as they are, distinct keys), then `import_binary` of what
  -- `export_binary` writes succeeds on a new database: it has a table under exactly the same
  -- names, each with the name, rows and counter of the saved one, its columns but for DEFAULT
  -- expressions, which come back as identifiers, and exact keys.
  pub import_binary-export_binary :
      (db : Database E S)
      → HasNames db
      → length (table_names db) < 2 ^ 32
      → ((name : Text) → among name (table_names db) ≡ true → CanSave host db name)
      → (db' : Database E S) × (import_binary host (export_binary host db) new ≡ (db', ok tt))
        × ((name : Text) → has_table name db ≡ true → HasLoaded host db db' name)
        × ((name : Text) → has_table name db ≡ false → has_table name db' ≡ false)
  unfolding export_binary has_table
  import_binary-export_binary db h short s =
      let names = table_names db in
      let listing = (table_names-Sorted db h).1 in
      let (db', e, g) =
        read_tables-write_tables host names db new (trailer db) (table_names-Distinct db h) s
          (λ name a. refl) in
      (
        db',
        import_binary-Passes (payload db ++ trailer db) (length names)
              (write_tables host names db ++ trailer db) new (export-Passes db short)
            ∙ e,
        λ name a. g.listed name (listing name ∙ a),
        λ name a. absent name db' (g.others name (listing name ∙ a)),
      )
    where
      absent :
          (name : Text) (db' : Database E S)
          → find name db'.tables ≡ none
          → has_table name db' ≡ false
      absent name db' e =
          ap (λ (o : Option (Table E)). elim o as (λ x. Bool) [ none ↦ false | some t ↦ true ]) e
