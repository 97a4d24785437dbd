-- ===== src/Serialize/Binary/Checked.antt =====
-- engine/serialize/binary.rs: the checks of `import_binary` before it reads a table.
use a3sql.Prelude.{
  ◌-◌, ◌≡◌, ◌⊎◌, inl, inr, ◌≤◌, arith, refl, Bool-cases, length, take, err, ltb, ◌==◌,
}
use a3sql.Prelude.Text.{Text}
use a3sql.Host.{Host}
use a3sql.Database.{Database}
use a3sql.Serialize.Bytes.{checksum}
use a3sql.Serialize.Binary.{
  BinaryError, too_short, bad_magic, old_version, bad_checksum, newer_version, magic,
}
use a3sql.Serialize.Binary.Import.{version_of, trailer_of, has_magic, import_binary}

module _ {E : Type 0} (host : Host E) where
  -- What an input has that is loaded.
  pub record IsWhole (input : Text) : Type 0 where
    pub long : 13 ≤ length input
    pub right_magic : take 4 input ≡ magic
    pub not_old : (version_of host input ≡ 1) → ⊥
    pub not_newer : version_of host input ≤ 3
    pub intact : checksum (take (length input - 8) input) ≡ trailer_of host input

  -- The import fails and the database is as it was.
  abbrev pub IsRefused : {S : Type 0} → Text → Database E S → Type 0
  IsRefused input db = (e : BinaryError) × (import_binary host input db ≡ (db, err e))

  -- For every input, either it is at least 13 bytes long, begins with the magic, has a version
  -- other than 1 and at most 3 and ends in the checksum of what comes before, or
  -- `import_binary` fails and leaves the database as it was.
  pub import_binary-IsWhole :
      {S : Type 0} (input : Text) (db : Database E S) → IsWhole input ⊎ IsRefused input db
  unfolding import_binary
  import_binary-IsWhole input db = elim (Bool-cases (ltb (length input) 13)) [
    | inl short ↦ inr (too_short, rw (import_binary, short) refl)
    | inr long ↦ elim (Bool-cases (has_magic host input)) [
      | inr other ↦ inr (bad_magic, rw (import_binary, long, other) refl)
      | inl m ↦ elim (Bool-cases (version_of host input == 1)) [
        | inl old ↦ inr (old_version, rw (import_binary, long, m, old) refl)
        | inr fresh ↦ elim (Bool-cases (ltb 3 (version_of host input))) [
          | inl newer ↦ inr (
            newer_version (version_of host input),
            rw (import_binary, long, m, fresh, newer) refl,
          )
          | inr known ↦
              elim (Bool-cases
                (checksum (take (length input - 8) input) == trailer_of host input)) [
                  | inr broken ↦
                      inr (bad_checksum, rw (import_binary, long, m, fresh, known, broken) refl)
                  | inl whole ↦ inl (record {
                    long = ground arith;
                    right_magic = ground (arith, m);
                    not_old = ground arith;
                    not_newer = ground arith;
                    intact = ground arith;
                  })
                ]
        ]
      ]
    ]
  ]
