-- ===== src/Storage/Csv.antt =====
-- src/storage.c: the rows of a table file, written and read back. A file is the text of its bytes.
use jungle_w8_minisql_server.Prelude.{
  ℕ, Bool, true, false, not, ◌&&◌, ◌||◌, Option, none, some, List, [], ◌∷◌, ◌++◌, drop, Text, ◌==◌,
  if◌then◌else◌,
}
use jungle_w8_minisql_server.Parser.Tokens.{starts}

-- `value == NULL ? "" : value`, and `dup_string`.
unfoldable pub text_or_empty : Option Text → Text
text_or_empty none = []
text_or_empty (some s) = s

-- `,` `"` and the two ends of lines.
unfoldable pub is_special : ℕ → Bool
is_special c = c == 44 || c == 34 || c == 10 || c == 13

-- The first loop of `write_csv_field`.
unfoldable pub needs_quotes : Text → Bool
needs_quotes [] = false
needs_quotes (c ∷ s) = let rest = needs_quotes s in is_special c || rest

-- Its second loop.
unfoldable pub double_quotes : Text → Text
double_quotes [] = []
double_quotes (c ∷ s) = let rest = double_quotes s in if c == 34 then 34 ∷ 34 ∷ rest else c ∷ rest

-- `write_csv_field`, before what is written next.
unfoldable pub write_csv_field : Option Text → Text → Text
write_csv_field value out =
    if needs_quotes (text_or_empty value)
    then 34 ∷ (double_quotes (text_or_empty value) ++ (34 ∷ out))
    else text_or_empty value ++ out

-- `write_csv_row`, before what is written next.
unfoldable pub write_csv_row : List (Option Text) → Text → Text
write_csv_row [] out = 10 ∷ out
write_csv_row (value ∷ []) out = write_csv_field value (10 ∷ out)
write_csv_row (value ∷ next ∷ row) out = write_csv_field value (44 ∷ write_csv_row (next ∷ row) out)

-- Where the file stands after the end of a line: `\r` takes a `\n` with it.
unfoldable pub after_newline : ℕ → Text → Text
after_newline c p = if c == 13 && starts 10 p then drop 1 p else p

abbrev pub keep_char : ℕ → Option (Text × Text) → Option (Text × Text)
keep_char c none = none
keep_char c (some (record', p)) = some (c ∷ record', p)

-- Whether a character is the first quote of a pair within quotes: the loop then takes both.
unfoldable pub is_pair : Bool → ℕ → Text → Bool
is_pair in_quotes c p = in_quotes && c == 34 && starts 34 p

-- `in_quotes` after a character that is no second quote of a pair.
unfoldable pub quotes_after : Bool → ℕ → Text → Bool
quotes_after in_quotes c p = if c == 34 then not in_quotes || is_pair in_quotes c p else in_quotes

-- The loop of `read_csv_record`: the record and where the file then stands. `in_pair` says that
-- the character is the second quote of a pair.
unfoldable pub read_record_from : Bool → Bool → Text → Option (Text × Text)
read_record_from in_quotes in_pair [] = if in_quotes then none else some ([], [])
read_record_from in_quotes true (c ∷ p) = keep_char c (read_record_from in_quotes false p)
read_record_from in_quotes false (c ∷ p) =
    let rest = read_record_from (quotes_after in_quotes c p) (is_pair in_quotes c p) p in
    if not in_quotes && (c == 10 || c == 13) then some ([], after_newline c p) else keep_char c rest

pub data ReadStatus : Type 0 where
  malformed : ReadStatus
  end_of_file : ReadStatus
  read_one : Text → Text → ReadStatus

-- `read_csv_record`
unfoldable pub read_csv_record : Text → ReadStatus
read_csv_record [] = end_of_file
read_csv_record (c ∷ p) = elim (read_record_from false false (c ∷ p)) [
  | none ↦ malformed
  | some (record', rest) ↦ read_one record' rest
]

-- The variables of `parse_csv_record`; an empty buffer is a NULL one.
pub record Fields : Type 0 where
  pub fields : List Text
  pub field_buffer : Text
  pub in_quotes : Bool
  pub just_closed_quote : Bool

-- `append_char`, on the buffer.
unfoldable pub append_char : Fields → ℕ → Fields
append_char f c = record {
  fields = f.fields;
  field_buffer = f.field_buffer ++ (c ∷ []);
  in_quotes = f.in_quotes;
  just_closed_quote = f.just_closed_quote;
}

-- `push_field`, and the reset of `just_closed_quote`.
unfoldable pub push_field : Fields → Fields
push_field f = record {
  fields = f.fields ++ (f.field_buffer ∷ []);
  field_buffer = [];
  in_quotes = f.in_quotes;
  just_closed_quote = false;
}

unfoldable pub set_quotes : Fields → Bool → Bool → Fields
set_quotes f in_quotes just_closed = record {
  fields = f.fields;
  field_buffer = f.field_buffer;
  in_quotes = in_quotes;
  just_closed_quote = just_closed;
}

unfoldable pub is_empty : Text → Bool
is_empty [] = true
is_empty (c ∷ s) = false

-- One round of the loop of `parse_csv_record`, at a character before `p`. The Boolean says that
-- the round also takes the next character.
unfoldable pub parse_char : Fields → ℕ → Text → Option (Bool × Fields)
parse_char f c p =
    if f.in_quotes
    then (if c == 34
        then (if starts 34 p
            then some (true, append_char f 34)
            else some (false, set_quotes f false true))
        else some (false, append_char f c))
    else if f.just_closed_quote
    then (if c == 44 then some (false, push_field f) else none)
    else if c == 34
    then (if is_empty f.field_buffer then some (false, set_quotes f true false) else none)
    else if c == 44
    then some (false, push_field f)
    else some (false, append_char f c)

-- The round at the end of the record.
unfoldable pub parse_end : Fields → Option (List Text)
parse_end f = if f.in_quotes then none else some ((push_field f).fields)

unfoldable pub parse_fields : Option (Bool × Fields) → Text → Option (List Text)
parse_fields none p = none
parse_fields (some (skip, f)) [] = parse_end f
parse_fields (some (true, f)) (c ∷ p) = parse_fields (some (false, f)) p
parse_fields (some (false, f)) (c ∷ p) = parse_fields (parse_char f c p) p

abbrev pub no_fields : Fields
no_fields = record { fields = []; field_buffer = []; in_quotes = false; just_closed_quote = false }

-- `parse_csv_record`
unfoldable pub parse_csv_record : Text → Option (List Text)
parse_csv_record record' = parse_fields (some (false, no_fields)) record'
