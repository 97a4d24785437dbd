-- ===== src/Serialize/Csv.antt =====
-- engine/serialize/csv.rs: a table as comma-separated lines. The code goes by characters; the ones it
-- tests for are ASCII, so on the bytes of UTF-8 it does the same.
pub mod RoundTrip
use a3sql.Prelude.{
  ℕ, zero, suc, Bool, true, false, ◌&&◌, ◌||◌, not, Option, none, some, List, [], ◌∷◌, ◌++◌, map,
  Result, ok, err, ◌>>=◌, if◌then◌else◌, ◌==◌, length,
}
use a3sql.Prelude.Text.{Text, bytes, int_text}
use a3sql.Prelude.Quote.{double_quotes}
use a3sql.Host.{Host}
use a3sql.Error.{EngineError, Message}
use a3sql.Index.{join}
use a3sql.Value.{ColumnType, DbValue, Column}
use a3sql.Table.Defs.{Table, Row, new}
use a3sql.Table.Rows.{insert}
use a3sql.Database.{Database, create_table}
use a3sql.Functions.Operators.{bool_text}

-- `s.contains(c)`
unfoldable pub has_char : ℕ → Text → Bool
has_char c [] = false
has_char c (d ∷ s) = d == c || has_char c s

abbrev pub needs_quotes : Text → Bool
needs_quotes s = has_char b',' s || has_char b'"' s || has_char 10 s

abbrev pub quoted : Text → Text
quoted s = b'"' ∷ (double_quotes s ++ (b'"' ∷ []))

unfoldable pub csv_quote : Text → Text
unfolding has_char double_quotes
csv_quote s = if needs_quotes s then quoted s else s

abbrev pub csv_line : List Text → Text
csv_line fields = join (bytes ",") (map csv_quote fields)

-- What one character is to `parse_csv_line`.
pub data Step : Type 0 where
  opening escaped closing separator push : Step

abbrev pub next_is_quote : Text → Bool
next_is_quote [] = false
next_is_quote (c ∷ cs) = c == b'"'

unfoldable pub step : Bool → ℕ → Text → Step
step in_quotes c cs =
    if c == b'"' && not in_quotes
    then Step.opening
    else if c == b'"'
    then (if next_is_quote cs then Step.escaped else Step.closing)
    else if c == b',' && not in_quotes
    then Step.separator
    else Step.push

-- `s.trim()` is Rust's.
module _ (trim : Text → Text) where
  -- The loop of `parse_csv_line`, with `current`, `in_quotes` and whether the next character is the
  -- second of two quotes, which is skipped.
  unfoldable pub parse_fields : Text → Bool → Bool → Text → List Text
  unfolding step
  parse_fields current in_quotes skip [] = trim current ∷ []
  parse_fields current in_quotes true (c ∷ cs) = parse_fields current in_quotes false cs
  parse_fields current in_quotes false (c ∷ cs) = elim (step in_quotes c cs) [
    | Step.opening ↦ parse_fields current true false cs
    | Step.escaped ↦ parse_fields (current ++ (b'"' ∷ [])) true true cs
    | Step.closing ↦ parse_fields current false false cs
    | Step.separator ↦ trim current ∷ parse_fields [] false false cs
    | Step.push ↦ parse_fields (current ++ (c ∷ [])) in_quotes false cs
  ]

  unfoldable pub parse_csv_line : Text → List Text
  unfolding parse_fields
  parse_csv_line line = parse_fields [] false false line

-- `str::lines`: cut at each newline, a carriage return before it dropped, and no empty line at the end.
unfoldable pub drop_return : Text → Text
drop_return [] = []
drop_return (c ∷ []) = if c == 13 then [] else c ∷ []
drop_return (c ∷ d ∷ s) = c ∷ drop_return (d ∷ s)

unfoldable pub lines_from : Text → Text → List Text
unfolding drop_return
lines_from [] [] = []
lines_from (c ∷ current) [] = (c ∷ current) ∷ []
lines_from current (c ∷ cs) = elim (c == 10) [
  | true ↦ drop_return current ∷ lines_from [] cs
  | false ↦ lines_from (current ++ (c ∷ [])) cs
]

abbrev pub lines : Text → List Text
lines s = lines_from [] s

pub data CsvError : Type 0 where
  empty_csv : CsvError
  field_count : ℕ → ℕ → CsvError
  refused : Message → CsvError
  import_failed : EngineError → CsvError

abbrev refusing {ℓ} : {A : Type ℓ} → Result A Message → Result A CsvError
refusing (err e) = err (CsvError.refused e)
refusing (ok a) = ok a

abbrev failing {ℓ} : {A : Type ℓ} → Result A EngineError → Result A CsvError
failing (err e) = err (CsvError.import_failed e)
failing (ok a) = ok a

module _ {E : Type 0} (host : Host E) where
  -- `value_to_display`
  unfoldable pub value_to_display : DbValue → Text
  unfolding join bool_text
  value_to_display DbValue.null = []
  value_to_display (DbValue.bool b) = bool_text b
  value_to_display (DbValue.int n) = int_text n
  value_to_display (DbValue.float f) = host.float_text f
  value_to_display (DbValue.string s) = s
  value_to_display (DbValue.strings arr) = join (bytes ";") arr
  value_to_display (DbValue.floats arr) = join (bytes ";") (map host.float_text arr)

  abbrev pub csv_rows : List Row → Text
  csv_rows rows = join (10 ∷ []) (map (λ row. csv_line (map value_to_display row)) rows)

  abbrev under_header : Text → Text → Text
  under_header header [] = header
  under_header header (c ∷ rows) = header ++ (10 ∷ (c ∷ rows))

  unfoldable pub export_csv : Table E → Text
  unfolding csv_quote value_to_display join
  export_csv t = under_header (csv_line (map (λ c. c.name) t.columns)) (csv_rows t.rows)

  abbrev text_column : Text → Column E
  text_column h = record {
    name = host.to_lowercase h;
    dtype = ColumnType.string;
    primary_key = false;
    not_null = false;
    default = none;
    default_expr = none;
    auto_increment = false;
    unique = false;
  }

  module _ (trim : Text → Text) where
    abbrev import_fields : ℕ → List Text → Table E → Result (Table E) CsvError
    import_fields col_count fields t =
        if length fields == col_count
        then failing (insert host (map DbValue.string fields) t)
        else err (CsvError.field_count (length fields) col_count)

    -- The loop over the lines behind the header; the second argument of `import_line` is the trimmed line.
    abbrev import_line : ℕ → Text → Table E → Result (Table E) CsvError
    import_line col_count [] t = ok t
    import_line col_count (c ∷ line) t = import_fields col_count (parse_csv_line trim (c ∷ line)) t

    unfoldable pub import_lines : ℕ → List Text → Table E → Result (Table E) CsvError
    unfolding parse_csv_line insert
    import_lines col_count [] t = ok t
    import_lines col_count (line ∷ more) t =
        import_line col_count (trim line) t >>= λ t'. import_lines col_count more t'

    abbrev import_table : Text → List Text → List Text → Result (Table E) CsvError
    import_table table_name headers more =
        refusing (new table_name (map text_column headers)) >>= λ t.
        import_lines (length headers) more t

    abbrev import_from :
        {S : Type 0} → Text → List Text → Database E S → Result (Database E S) CsvError
    import_from table_name [] db = err CsvError.empty_csv
    import_from table_name (header ∷ more) db =
        import_table table_name (parse_csv_line trim header) more >>= λ t.
        refusing (create_table table_name t db)

    unfoldable pub import_csv :
        {S : Type 0} → Text → Text → Database E S → Result (Database E S) CsvError
    unfolding lines_from parse_csv_line import_lines new create_table
    import_csv table_name csv_str db = import_from table_name (lines csv_str) db
