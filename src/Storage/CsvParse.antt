-- ===== src/Storage/CsvParse.antt =====
-- src/storage.c: the record of a written row is parsed into the row's fields.
use jungle_w8_minisql_server.Prelude.{
  ℕ, ◌<◌, ◌≡◌, refl, ap, sym, subst, ◌∙◌, inl, inr, Bool, true, false, Option, some, List, [], ◌∷◌,
  ◌++◌, map, length, length-append, Text, arith, ◌==◌, ==_iff, Bool-cases,
}
use mathlib.Core.List.{append_assoc, append-nil}
use jungle_w8_minisql_server.Parser.Tokens.{starts}
use jungle_w8_minisql_server.Storage.Csv.{
  text_or_empty, is_special, needs_quotes, double_quotes, write_csv_field, write_csv_row,
  read_record_from, read_one, read_csv_record, Fields, append_char, push_field, set_quotes,
  is_empty, parse_char, parse_end, parse_fields, parse_csv_record,
}
use jungle_w8_minisql_server.Storage.CsvRead.{
  record_text, or_left, or_right, read_row, write_csv_field-append,
}

abbrev parsing : List Text → Text → Bool → Bool → Fields
parsing fs buffer quotes closed = record {
  fields = fs;
  field_buffer = buffer;
  in_quotes = quotes;
  just_closed_quote = closed;
}

-- An ordinary character is appended.
parse_ordinary :
    (fs : List Text) (b : Text) (c : ℕ) (p : Text)
    → is_special c ≡ false
    → parse_char (parsing fs b false false) c p
      ≡ some (false, parsing fs (b ++ (c ∷ [])) false false)
unfolding parse_char is_special append_char
parse_ordinary fs b c p h = ground arith

-- A text without special characters is appended to the buffer.
parse_plain :
    (fs : List Text) (b s p : Text)
    → needs_quotes s ≡ false
    → parse_fields (some (false, parsing fs b false false)) (s ++ p)
      ≡ parse_fields (some (false, parsing fs (b ++ s) false false)) p
unfolding needs_quotes parse_fields
parse_plain fs b [] p h = rw (append-nil b) refl
parse_plain fs b (c ∷ s) p h =
    ap (λ o. parse_fields o (s ++ p))
      (parse_ordinary fs b c (s ++ p) (or_left (is_special c) (needs_quotes s) h))
    ∙ parse_plain fs (b ++ (c ∷ [])) s p (or_right (is_special c) (needs_quotes s) h)
    ∙ ap (λ t. parse_fields (some (false, parsing fs t false false)) p) (append_assoc b (c ∷ []) s)

parse_pair :
    (fs : List Text) (b p : Text)
    → parse_char (parsing fs b true false) 34 (34 ∷ p)
      ≡ some (true, parsing fs (b ++ (34 ∷ [])) true false)
unfolding parse_char append_char starts
parse_pair fs b p = refl

parse_inside :
    (fs : List Text) (b : Text) (c : ℕ) (p : Text)
    → (c == 34) ≡ false
    → parse_char (parsing fs b true false) c p ≡ some (false, parsing fs (b ++ (c ∷ [])) true false)
unfolding parse_char append_char
parse_inside fs b c p h = rw h refl

parse_close :
    (fs : List Text) (b p : Text)
    → starts 34 p ≡ false
    → parse_char (parsing fs b true false) 34 p ≡ some (false, parsing fs b false true)
unfolding parse_char set_quotes
parse_close fs b p h = rw h refl

abbrev quoted_of : List Text → Text → Text → Option (List Text)
quoted_of fs b p = parse_fields (some (false, parsing fs b true false)) p

parse_quoted_char :
    (fs : List Text) (b : Text) (c : ℕ) (s p : Text)
    → parse_fields (some (false, parsing fs b true false)) (double_quotes (c ∷ s) ++ p)
      ≡ quoted_of fs (b ++ (c ∷ [])) (double_quotes s ++ p)
unfolding double_quotes parse_fields
parse_quoted_char fs b c s p = elim (Bool-cases (c == 34)) [
  | inl e ↦
      subst
        (λ d.
          parse_fields (some (false, parsing fs b true false)) (double_quotes (d ∷ s) ++ p)
          ≡ quoted_of fs (b ++ (d ∷ [])) (double_quotes s ++ p))
        (sym ((==_iff c 34).0 e))
        (ap (λ o. parse_fields o (34 ∷ (double_quotes s ++ p)))
          (parse_pair fs b (double_quotes s ++ p)))
  | inr e ↦ rw e (
      ap (λ o. parse_fields o (double_quotes s ++ p))
        (parse_inside fs b c (double_quotes s ++ p) e))
]

parse_quoted_end :
    (fs : List Text) (b p : Text)
    → starts 34 p ≡ false
    → parse_fields (some (false, parsing fs b true false)) (double_quotes [] ++ (34 ∷ p))
      ≡ parse_fields (some (false, parsing fs (b ++ []) false true)) p
unfolding double_quotes parse_fields
parse_quoted_end fs b p h = rw (append-nil b) (ap (λ o. parse_fields o p) (parse_close fs b p h))

parse_open :
    (fs : List Text) (p : Text)
    → parse_fields (some (false, parsing fs [] false false)) (34 ∷ p)
      ≡ parse_fields (some (false, parsing fs [] true false)) p
unfolding parse_fields parse_char set_quotes is_empty
parse_open fs p = refl

-- The inside of quotes is appended to the buffer, each pair of quotes as one.
parse_quoted :
    (fs : List Text) (b s p : Text)
    → starts 34 p ≡ false
    → parse_fields (some (false, parsing fs b true false)) (double_quotes s ++ (34 ∷ p))
      ≡ parse_fields (some (false, parsing fs (b ++ s) false true)) p
parse_quoted fs b [] p h = parse_quoted_end fs b p h
parse_quoted fs b (c ∷ s) p h =
    parse_quoted_char fs b c s (34 ∷ p)
    ∙ parse_quoted fs (b ++ (c ∷ [])) s p h
    ∙ ap (λ t. parse_fields (some (false, parsing fs t false true)) p) (append_assoc b (c ∷ []) s)

-- What a field leaves: the fields so far and its own, which is to be pushed.
parse_field :
    (fs : List Text) (value : Option Text) (p : Text)
    → starts 34 p ≡ false
    → (closed : Bool) × (parse_fields
          (some (false, parsing fs [] false false))
          (write_csv_field value p)
        ≡ parse_fields (some (false, parsing fs (text_or_empty value) false closed)) p)
unfolding write_csv_field
parse_field fs value p h = elim (Bool-cases (needs_quotes (text_or_empty value))) [
  | inl e ↦ (
    true,
    rw e (
        parse_open fs (double_quotes (text_or_empty value) ++ (34 ∷ p))
        ∙ parse_quoted fs [] (text_or_empty value) p h),
  )
  | inr e ↦ (false, rw e (parse_plain fs [] (text_or_empty value) p e))
]

parse_comma :
    (fs : List Text) (b : Text) (closed : Bool) (p : Text)
    → parse_fields (some (false, parsing fs b false closed)) (44 ∷ p)
      ≡ parse_fields (some (false, parsing (fs ++ (b ∷ [])) [] false false)) p
unfolding parse_fields parse_char push_field
parse_comma fs b true p = refl
parse_comma fs b false p = refl

parse_last :
    (fs : List Text) (b : Text) (closed : Bool)
    → parse_fields (some (false, parsing fs b false closed)) [] ≡ some (fs ++ (b ∷ []))
unfolding parse_fields parse_end push_field
parse_last fs b closed = refl

parse_row :
    (fs : List Text) (value : Option Text) (row : List (Option Text))
    → parse_fields (some (false, parsing fs [] false false)) (record_text (value ∷ row))
      ≡ some (fs ++ map text_or_empty (value ∷ row))
unfolding record_text starts
parse_row fs value [] =
    let read = parse_field fs value [] refl in read.1 ∙ parse_last fs (text_or_empty value) read.0
parse_row fs value (next ∷ row) =
    let read = parse_field fs value (44 ∷ record_text (next ∷ row)) refl in
    read.1
    ∙ parse_comma fs (text_or_empty value) read.0 (record_text (next ∷ row))
    ∙ parse_row (fs ++ (text_or_empty value ∷ [])) next row
    ∙ ap some (append_assoc fs (text_or_empty value ∷ []) (map text_or_empty (next ∷ row)))

-- The record of a row is parsed into its fields.
pub parse_csv_record-record_text :
    (value : Option Text) (row : List (Option Text))
    → parse_csv_record (record_text (value ∷ row)) ≡ some (map text_or_empty (value ∷ row))
unfolding parse_csv_record
parse_csv_record-record_text value row = parse_row [] value row

-- A row is written as its record and the end of the line.
pub write_csv_row-record_text :
    (row : List (Option Text)) (p : Text) → write_csv_row row p ≡ record_text row ++ (10 ∷ p)
unfolding write_csv_row record_text
write_csv_row-record_text [] p = refl
write_csv_row-record_text (value ∷ []) p = sym (write_csv_field-append value (10 ∷ p))
write_csv_row-record_text (value ∷ next ∷ row) p =
    ap (λ t. write_csv_field value (44 ∷ t)) (write_csv_row-record_text (next ∷ row) p)
    ∙ sym (write_csv_field-append value (44 ∷ (record_text (next ∷ row) ++ (10 ∷ p))))
    ∙ sym (append_assoc (write_csv_field value []) (44 ∷ record_text (next ∷ row)) (10 ∷ p))
    ∙ ap (λ t. t ++ (10 ∷ p)) (write_csv_field-append value (44 ∷ record_text (next ∷ row)))

read_any :
    (p record' rest : Text)
    → 0 < length p
    → read_record_from false false p ≡ some (record', rest)
    → read_csv_record p ≡ read_one record' rest
unfolding read_csv_record
read_any [] record' rest h e = absurd (omega arith)
read_any (c ∷ p) record' rest h e = rw (e, read_csv_record) refl

-- The first record of a file that starts with a written row is the row's.
pub read_csv_record-write_csv_row :
    (row : List (Option Text)) (p : Text)
    → read_csv_record (write_csv_row row p) ≡ read_one (record_text row) p
read_csv_record-write_csv_row row p =
    let size : 0 < length (write_csv_row row p) =
      rw (write_csv_row-record_text row p)
        (omega (arith, length-append (record_text row) (10 ∷ p))) in
    read_any (write_csv_row row p) (record_text row) p size (read_row row p)
