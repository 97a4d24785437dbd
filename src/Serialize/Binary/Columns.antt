-- ===== src/Serialize/Binary/Columns.antt =====
-- Column definitions, written and read (engine/serialize/binary.rs).
use a3sql.Prelude.{
  ◌≡◌, refl, Bool, true, false, not, Option, none, some, List, [], ◌∷◌, ◌++◌, length, ok, arith,
  if◌then◌else◌, All, append_assoc, ◌==◌, map,
}
use a3sql.Prelude.Text.{Text}
use a3sql.Host.{Host}
use a3sql.Value.{ColumnType, DbValue, Column}
use a3sql.Serialize.Bytes.{pack_flags, has_flag, pack_flags-kept}
use a3sql.Serialize.Binary.{
  write_bin_str, write_default, write_default_expr, write_column, write_columns, col_type_tag,
  dtype_from_tag, is_some, binary_version,
}
use a3sql.Serialize.Binary.Import.{
  read_default, read_default_expr, read_flags, read_def, read_column, read_columns,
}
use a3sql.Serialize.Binary.Values.{
  IsText, IsStored, read_bin_str-write_bin_str, read_bin_value-write_bin_value,
}

abbrev IsStoredDefault : Option DbValue → Type 0
IsStoredDefault none = Unit
IsStoredDefault (some v) = IsStored v

module _ {E : Type 0} (host : Host E) where
  abbrev IsStoredExpr : Option E → Type 0
  IsStoredExpr none = Unit
  IsStoredExpr (some e) = IsText (host.expr_text e)

  -- A column that the format can hold.
  pub record IsStoredColumn (c : Column E) : Type 0 where
    pub name_text : IsText c.name
    pub default_stored : IsStoredDefault c.default
    pub expr_stored : IsStoredExpr c.default_expr

  abbrev saved_expr : Option E → Option E
  saved_expr none = none
  saved_expr (some e) = some (host.identifier (host.expr_text e))

  -- What a saved column is after it is loaded.
  abbrev pub saved_column : Column E → Column E
  saved_column c = record c { default_expr = saved_expr c.default_expr }

  dtype_from_tag-col_type_tag : (d : ColumnType) → dtype_from_tag (col_type_tag d) ≡ ok d
  unfolding dtype_from_tag col_type_tag
  dtype_from_tag-col_type_tag ColumnType.bool = refl
  dtype_from_tag-col_type_tag ColumnType.int = refl
  dtype_from_tag-col_type_tag ColumnType.float = refl
  dtype_from_tag-col_type_tag ColumnType.string = refl
  dtype_from_tag-col_type_tag ColumnType.strings = refl
  dtype_from_tag-col_type_tag ColumnType.floats = refl

  read_default-write_default :
      (o : Option DbValue) (rest : Text)
      → IsStoredDefault o
      → read_default (is_some o) (write_default o ++ rest) ≡ ok (o, rest)
  read_default-write_default none rest h = refl
  read_default-write_default (some v) rest h = rw (read_bin_value-write_bin_value v rest h) refl

  read_default_expr-write_default_expr :
      (o : Option E) (rest : Text)
      → IsStoredExpr o
      → read_default_expr host (is_some o) (write_default_expr host o ++ rest)
        ≡ ok (saved_expr o, rest)
  read_default_expr-write_default_expr none rest h = refl
  read_default_expr-write_default_expr (some e) rest h =
      rw (read_bin_str-write_bin_str (host.expr_text e) rest h) refl

  -- Each flag is read as it was packed.
  record FlagsKept (a n u d e : Bool) : Type 0 where
    auto_inc : has_flag (pack_flags a n u d e) 1 ≡ a
    not_null : has_flag (pack_flags a n u d e) 2 ≡ n
    unique : has_flag (pack_flags a n u d e) 4 ≡ u
    has_default : has_flag (pack_flags a n u d e) 8 ≡ d
    has_expr : has_flag (pack_flags a n u d e) 16 ≡ e

  pack_flags-FlagsKept : (a n u d e : Bool) → FlagsKept a n u d e
  pack_flags-FlagsKept a n u d e = ground (arith, pack_flags-kept a n u d e)

  read_flags-write_column :
      (c : Column E) (rest : Text)
      → IsStoredColumn c
      → read_flags host binary_version c.name c.dtype c.primary_key (
          pack_flags c.auto_increment c.not_null c.unique
            (is_some c.default)
            (is_some c.default_expr)
          ∷ (write_default c.default ++ (write_default_expr host c.default_expr ++ rest)))
        ≡ ok (saved_column c, rest)
  read_flags-write_column c rest h =
      let k =
        pack_flags-FlagsKept c.auto_increment c.not_null c.unique (is_some c.default)
          (is_some c.default_expr) in
      rw
        (
          k.auto_inc,
          k.not_null,
          k.unique,
          k.has_default,
          k.has_expr,
          read_default-write_default c.default (write_default_expr host c.default_expr ++ rest)
              h.default_stored,
        )
        (rw (read_default_expr-write_default_expr c.default_expr rest h.expr_stored) refl)

  key_kept : (b : Bool) → not ((if b then 1 else 0) == 0) ≡ b
  key_kept true = refl
  key_kept false = refl

  read_def-write_column :
      (c : Column E) (rest : Text)
      → IsStoredColumn c
      → read_def host binary_version c.name (
          col_type_tag c.dtype
          ∷ (if c.primary_key then 1 else 0)
          ∷ pack_flags c.auto_increment c.not_null c.unique
              (is_some c.default)
              (is_some c.default_expr)
          ∷ ((write_default c.default ++ write_default_expr host c.default_expr) ++ rest))
        ≡ ok (saved_column c, rest)
  read_def-write_column c rest h =
      rw (dtype_from_tag-col_type_tag c.dtype, append_assoc (write_default c.default))
        (rw key_kept (read_flags-write_column c rest h))

  read_column-write_column :
      (c : Column E) (rest : Text)
      → IsStoredColumn c
      → read_column host binary_version (write_column host c ++ rest) ≡ ok (saved_column c, rest)
  unfolding read_column write_column
  read_column-write_column c rest h =
      rw (append_assoc (write_bin_str c.name), read_bin_str-write_bin_str c.name _ h.name_text)
        (read_def-write_column c rest h)

  -- Columns with short UTF-8 names and expression texts and default values that the format can
  -- hold are read back from what is written of them, whatever bytes follow, with every flag,
  -- and with each DEFAULT expression as an identifier of its text.
  pub read_columns-write_columns :
      (cs : List (Column E)) (rest : Text)
      → All IsStoredColumn cs
      → read_columns host binary_version (length cs) (write_columns host cs ++ rest)
        ≡ ok (map saved_column cs, rest)
  unfolding read_columns write_columns
  read_columns-write_columns [] rest h = refl
  read_columns-write_columns (c ∷ cs) rest h =
      rw
        (
          append_assoc (write_column host c),
          read_column-write_column c (write_columns host cs ++ rest) h.0,
          read_columns-write_columns cs rest h.1,
        )
        refl
