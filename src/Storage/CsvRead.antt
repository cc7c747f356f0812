-- ===== src/Storage/CsvRead.antt =====
-- src/storage.c: a written row is read back.
use jungle_w8_minisql_server.Prelude.{
  ℕ, ◌≡◌, refl, ap, ◌∙◌, inl, inr, Bool, true, false, ◌||◌, Option, some, List, [], ◌∷◌, ◌++◌, Text,
  arith, ◌==◌, Bool-cases,
}
use jungle_w8_minisql_server.Parser.Tokens.{starts}
use mathlib.Core.List.{append_assoc, append-nil}
use jungle_w8_minisql_server.Storage.Csv.{
  text_or_empty, is_special, needs_quotes, double_quotes, write_csv_field, write_csv_row,
  after_newline, keep_char, is_pair, quotes_after, read_record_from,
}

abbrev keep_text : Text → Option (Text × Text) → Option (Text × Text)
keep_text [] o = o
keep_text (c ∷ s) o = keep_char c (keep_text s o)

-- The text of a record without the end of its line.
unfoldable pub record_text : List (Option Text) → Text
record_text [] = []
record_text (value ∷ []) = write_csv_field value []
record_text (value ∷ next ∷ row) = write_csv_field value (44 ∷ record_text (next ∷ row))

keep_some : (s record' p : Text) → keep_text s (some (record', p)) ≡ some (s ++ record', p)
keep_some [] record' p = refl
keep_some (c ∷ s) record' p = ap (keep_char c) (keep_some s record' p)

keep_append :
    (s t : Text) (o : Option (Text × Text)) → keep_text (s ++ t) o ≡ keep_text s (keep_text t o)
keep_append [] t o = refl
keep_append (c ∷ s) t o = ap (keep_char c) (keep_append s t o)

not_newline : (c : ℕ) → is_special c ≡ false → (c == 10 || c == 13) ≡ false
unfolding is_special
not_newline c h = ground arith

not_quote : (c : ℕ) → is_special c ≡ false → (c == 34) ≡ false
unfolding is_special
not_quote c h = ground arith

pub or_left : (a b : Bool) → (a || b) ≡ false → a ≡ false
or_left a b h = ground arith

pub or_right : (a b : Bool) → (a || b) ≡ false → b ≡ false
or_right a b h = ground arith

-- The reader goes over a text without special characters.
read_plain :
    (s p : Text)
    → needs_quotes s ≡ false
    → read_record_from false false (s ++ p) ≡ keep_text s (read_record_from false false p)
unfolding needs_quotes read_record_from quotes_after is_pair
read_plain [] p h = refl
read_plain (c ∷ s) p h =
    let plain : is_special c ≡ false = or_left (is_special c) (needs_quotes s) h in
    rw (not_newline c plain, not_quote c plain)
      (ap (keep_char c) (read_plain s p (or_right (is_special c) (needs_quotes s) h)))

-- It goes over the inside of quotes, with the closing one.
read_quoted :
    (s p : Text)
    → starts 34 p ≡ false
    → read_record_from true false (double_quotes s ++ (34 ∷ p))
      ≡ keep_text (double_quotes s ++ (34 ∷ [])) (read_record_from false false p)
unfolding double_quotes read_record_from quotes_after is_pair starts
read_quoted [] p h = rw h refl
read_quoted (c ∷ s) p h = elim (Bool-cases (c == 34)) [
  | inl e ↦ rw e (ap (λ o. keep_char 34 (keep_char 34 o)) (read_quoted s p h))
  | inr e ↦ rw (e, e) (ap (keep_char c) (read_quoted s p h))
]

read_open :
    (p : Text)
    → read_record_from false false (34 ∷ p) ≡ keep_char 34 (read_record_from true false p)
unfolding read_record_from quotes_after is_pair
read_open p = refl

read_newline : (p : Text) → read_record_from false false (10 ∷ p) ≡ some ([], p)
unfolding read_record_from after_newline
read_newline p = refl

read_comma :
    (p : Text)
    → read_record_from false false (44 ∷ p) ≡ keep_char 44 (read_record_from false false p)
unfolding read_record_from quotes_after is_pair
read_comma p = refl

starts_newline : (p : Text) → starts 34 (10 ∷ p) ≡ false
unfolding starts
starts_newline p = refl

starts_comma : (p : Text) → starts 34 (44 ∷ p) ≡ false
unfolding starts
starts_comma p = refl

-- The reader goes over a field, before a comma or the end of the line.
read_field :
    (value : Option Text) (p : Text)
    → starts 34 p ≡ false
    → read_record_from false false (write_csv_field value p)
      ≡ keep_text (write_csv_field value []) (read_record_from false false p)
unfolding write_csv_field
read_field value p h = elim (Bool-cases (needs_quotes (text_or_empty value))) [
  | inl e ↦ rw e (read_opened (text_or_empty value) p h)
  | inr e ↦ rw (e, append-nil (text_or_empty value)) (read_plain (text_or_empty value) p e)
]
  where
    read_opened :
        (s q : Text)
        → starts 34 q ≡ false
        → read_record_from false false (34 ∷ (double_quotes s ++ (34 ∷ q)))
          ≡ keep_text (34 ∷ (double_quotes s ++ (34 ∷ []))) (read_record_from false false q)
    read_opened s q k =
        read_open (double_quotes s ++ (34 ∷ q)) ∙ ap (keep_char 34) (read_quoted s q k)

-- The text of a field is what is written before anything else.
pub write_csv_field-append :
    (value : Option Text) (p : Text) → write_csv_field value [] ++ p ≡ write_csv_field value p
unfolding write_csv_field
write_csv_field-append value p = elim (Bool-cases (needs_quotes (text_or_empty value))) [
  | inl e ↦ rw (e, append_assoc (double_quotes (text_or_empty value)) (34 ∷ []) p) refl
  | inr e ↦ rw (e, append-nil (text_or_empty value)) refl
]

pub read_row :
    (row : List (Option Text)) (p : Text)
    → read_record_from false false (write_csv_row row p) ≡ some (record_text row, p)
unfolding write_csv_row record_text
read_row [] p = read_newline p
read_row (value ∷ []) p =
    read_field value (10 ∷ p) (starts_newline p)
    ∙ ap (keep_text (write_csv_field value [])) (read_newline p)
    ∙ keep_some (write_csv_field value []) [] p
    ∙ ap (λ t. some (t, p)) (append-nil (write_csv_field value []))
read_row (value ∷ next ∷ row) p =
    read_field value (44 ∷ write_csv_row (next ∷ row) p)
      (starts_comma (write_csv_row (next ∷ row) p))
    ∙ ap (keep_text (write_csv_field value []))
        (read_comma (write_csv_row (next ∷ row) p) ∙ ap (keep_char 44) (read_row (next ∷ row) p))
    ∙ keep_some (write_csv_field value []) (44 ∷ record_text (next ∷ row)) p
    ∙ ap (λ t. some (t, p)) (write_csv_field-append value (44 ∷ record_text (next ∷ row)))
