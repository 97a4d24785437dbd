-- ===== src/Serialize/Csv/RoundTrip.antt =====
-- `parse_csv_line` on the lines that `export_csv` writes.
use a3sql.Prelude.{
  ◌≡◌, refl, ap, ◌∙◌, true, false, List, [], ◌∷◌, ◌++◌, map, append_assoc, append-nil, arith,
  Bool-cases, inl, inr, ◌==◌,
}
use a3sql.Prelude.Text.{Text}
use a3sql.Prelude.Quote.{double_quotes}
use a3sql.Index.{join}
use a3sql.Serialize.Csv.{
  Step, has_char, needs_quotes, csv_quote, csv_line, next_is_quote, step, parse_fields,
  parse_csv_line,
}

-- The line ends here or another field follows.
abbrev Separated : Text → Type 0
Separated [] = Unit
Separated (c ∷ cs) = c ≡ b','

Separated-next : (rest : Text) → Separated rest → next_is_quote rest ≡ false
Separated-next [] h = refl
Separated-next (c ∷ rest) h = ground arith

module _ (trim : Text → Text) where
  parse_fields-plain :
      (current f rest : Text)
      → needs_quotes f ≡ false
      → parse_fields trim current false false (f ++ rest)
        ≡ parse_fields trim (current ++ f) false false rest
  unfolding parse_fields has_char
  parse_fields-plain current [] rest h = rw append-nil refl
  parse_fields-plain current (c ∷ f) rest h =
      let pushed : step false c (f ++ rest) ≡ Step.push = unfold step in ground arith in
      let more : needs_quotes f ≡ false = ground arith in
      rw (parse_fields, pushed, parse_fields-plain (current ++ (c ∷ [])) f rest more, append_assoc)
        refl

  parse_fields-quoted :
      (current f rest : Text)
      → Separated rest
      → parse_fields trim current true false (double_quotes f ++ (b'"' ∷ rest))
        ≡ parse_fields trim (current ++ f) false false rest
  unfolding parse_fields double_quotes
  parse_fields-quoted current [] rest h =
      let closed : step true b'"' rest ≡ Step.closing =
        unfold step in rw (Separated-next rest h) refl in
      rw (parse_fields, closed, append-nil) refl
  parse_fields-quoted current (c ∷ f) rest h = elim (Bool-cases (c == b'"')) [
    | inl quote ↦
        let same : c ≡ b'"' = ground arith in
        let twice : step true c (c ∷ (double_quotes f ++ (b'"' ∷ rest))) ≡ Step.escaped =
          unfold step in rw quote refl in
        rw
          (
            double_quotes,
            quote,
            parse_fields,
            twice,
            parse_fields-quoted (current ++ (b'"' ∷ [])) f rest h,
            append_assoc,
            same,
          )
          refl
    | inr other ↦
        let pushed : step true c (double_quotes f ++ (b'"' ∷ rest)) ≡ Step.push =
          unfold step in ground arith in
        rw
          (
            double_quotes,
            other,
            parse_fields,
            pushed,
            parse_fields-quoted (current ++ (c ∷ [])) f rest h,
            append_assoc,
          )
          refl
  ]

  -- A field of a line is read whole, quoted or not.
  parse_fields-csv_quote :
      (f rest : Text)
      → Separated rest
      → parse_fields trim [] false false (csv_quote f ++ rest)
        ≡ parse_fields trim f false false rest
  unfolding csv_quote
  parse_fields-csv_quote f rest h = elim (Bool-cases (needs_quotes f)) [
    | inl needed ↦
        let opened : parse_fields trim [] false false (b'"' ∷ (double_quotes f ++ (b'"' ∷ rest)))
            ≡ parse_fields trim [] true false (double_quotes f ++ (b'"' ∷ rest)) =
          unfold parse_fields in unfold step in refl in
        rw (csv_quote, needed, append_assoc) (opened ∙ parse_fields-quoted [] f rest h)
    | inr plain ↦ rw (csv_quote, plain) (parse_fields-plain [] f rest plain)
  ]

  -- `parse_csv_line` reads the fields of a written line back, each trimmed, whatever commas,
  -- quotes and newlines they hold, if there is at least one.
  pub parse_csv_line-csv_line :
      (f : Text) (fs : List Text) → parse_csv_line trim (csv_line (f ∷ fs)) ≡ map trim (f ∷ fs)
  unfolding parse_csv_line join parse_fields step
  parse_csv_line-csv_line f [] =
      let whole : parse_fields trim [] false false (csv_quote f) ≡ trim f ∷ [] =
        rw append-nil at (parse_fields-csv_quote f [] tt) in
      whole
  parse_csv_line-csv_line f (g ∷ fs) =
      parse_fields-csv_quote f (b',' ∷ csv_line (g ∷ fs)) refl
      ∙ ap (λ ts. trim f ∷ ts) (parse_csv_line-csv_line g fs)
