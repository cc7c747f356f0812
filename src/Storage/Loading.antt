-- ===== src/Storage/Loading.antt =====
-- src/storage.c: a file of written rows loads as those rows, and enough fuel is given.
use jungle_w8_minisql_server.Prelude.{
  ℕ, zero, suc, ◌-◌, ◌≤◌, ◌<◌, ◌≡◌, refl, ap, ◌∙◌, Bool, true, false, ◌&&◌, Option, some, List, [],
  ◌∷◌, map, length, take, drop, length-append, Text, arith, ◌==◌, ==_iff, if◌then◌else◌,
}
use jungle_w8_minisql_server.Storage.Csv.{read_csv_record, parse_csv_record, text_or_empty}
use jungle_w8_minisql_server.Storage.CsvRead.{record_text}
use jungle_w8_minisql_server.Storage.CsvParse.{
  parse_csv_record-record_text, write_csv_row-record_text, read_csv_record-write_csv_row,
}
use jungle_w8_minisql_server.Storage.Where.{cons_if}
use jungle_w8_minisql_server.Storage.Tables.{
  at_end, got, checked_row, row_status, next_row, load_rows, load_table_rows, row_at_from,
  load_row_at_index, write_row,
}

-- The file of these rows.
unfoldable pub write_rows : List (List Text) → Text
write_rows [] = []
write_rows (row ∷ rows) = write_row row (write_rows rows)

-- Whether every row has this many fields.
unfoldable pub all_wide : ℕ → List (List Text) → Bool
all_wide count [] = true
all_wide count (row ∷ rows) = length row == count && all_wide count rows

map_text_of : (row : List Text) → map text_or_empty (map some row) ≡ row
unfolding text_or_empty
map_text_of [] = refl
map_text_of (s ∷ row) = ap (λ r. s ∷ r) (map_text_of row)

parse_row :
    (row : List Text) → 0 < length row → parse_csv_record (record_text (map some row)) ≡ some row
parse_row [] h = absurd (omega arith)
parse_row (s ∷ row) h =
    parse_csv_record-record_text (some s) (map some row) ∙ ap some (map_text_of (s ∷ row))

checked_row_of_length :
    (count : ℕ) (row : List Text) (file : Text)
    → length row ≡ count
    → checked_row count (some row) file ≡ got row file
unfolding checked_row
checked_row_of_length count row file e = rw ((==_iff (length row) count).1 e) refl

-- The row that comes first in a file is the one that was written first.
pub next_row-write_row :
    (count : ℕ) (row : List Text) (file : Text)
    → 0 < count
    → length row ≡ count
    → next_row count (write_row row file) ≡ got row file
unfolding next_row row_status write_row
next_row-write_row count row file h e =
    ap (row_status count) (read_csv_record-write_csv_row (map some row) file)
    ∙ ap (λ o. checked_row count o file) (parse_row row (omega arith))
    ∙ checked_row_of_length count row file e

pub next_row_at_end : (count : ℕ) → next_row count [] ≡ at_end
unfolding next_row row_status read_csv_record
next_row_at_end count = refl

write_row-length : (row : List Text) (file : Text) → length file < length (write_row row file)
unfolding write_row
write_row-length row file =
    rw (write_csv_row-record_text (map some row) file)
      (omega (arith, length-append (record_text (map some row)) (10 ∷ file)))

pub write_rows-length : (rows : List (List Text)) → length rows ≤ length (write_rows rows)
unfolding write_rows
write_rows-length [] = omega arith
write_rows-length (row ∷ rows) =
    omega (arith, write_row-length row (write_rows rows), write_rows-length rows)

pub positive_count : (n : ℕ) → 0 < n → (n == 0) ≡ false
positive_count n k = ground arith

pub load_rows_got :
    (fuel count : ℕ) (file : Text) (row : List Text) (rest : Text)
    → next_row count file ≡ got row rest
    → load_rows (suc fuel) count file ≡ cons_if true row (load_rows fuel count rest)
unfolding load_rows
load_rows_got fuel count file row rest e = rw (e, load_rows) refl

pub load_rows_end :
    (fuel count : ℕ) (file : Text)
    → next_row count file ≡ at_end
    → load_rows (suc fuel) count file ≡ some []
unfolding load_rows
load_rows_end fuel count file e = rw (e, load_rows) refl

load_rows-write_rows :
    (fuel count : ℕ) (rows : List (List Text))
    → 0 < count
    → all_wide count rows ≡ true
    → length rows < fuel
    → load_rows fuel count (write_rows rows) ≡ some rows
unfolding write_rows all_wide
load_rows-write_rows zero count rows h wide f = absurd (omega arith)
load_rows-write_rows (suc fuel) count [] h wide f =
    load_rows_end fuel count [] (next_row_at_end count)
load_rows-write_rows (suc fuel) count (row ∷ rows) h wide f =
    load_rows_got fuel count (write_row row (write_rows rows)) row (write_rows rows)
      (next_row-write_row count row (write_rows rows) h (ground arith))
    ∙ ap (cons_if true row) (load_rows-write_rows fuel count rows h (ground arith) (omega arith))

-- For a schema with a column, a file of written rows, each as wide as the schema, loads as these
-- rows, whatever commas, quotes and line ends the fields hold.
pub load_table_rows-write_rows :
    (count : ℕ) (rows : List (List Text))
    → 0 < count
    → all_wide count rows ≡ true
    → load_table_rows count (write_rows rows) ≡ some rows
unfolding load_table_rows
load_table_rows-write_rows count rows h wide = rw (positive_count count h) (
    load_rows-write_rows (suc (length (write_rows rows))) count rows h wide
      (omega (arith, write_rows-length rows)))

row_at_got :
    (fuel count index : ℕ) (file : Text) (row : List Text) (rest : Text)
    → next_row count file ≡ got row rest
    → row_at_from (suc fuel) count index file
      ≡ (if index == 0 then some (row ∷ []) else row_at_from fuel count (index - 1) rest)
unfolding row_at_from
row_at_got fuel count index file row rest e = rw (e, row_at_from) refl

row_at_end :
    (fuel count index : ℕ) (file : Text)
    → next_row count file ≡ at_end
    → row_at_from (suc fuel) count index file ≡ some []
unfolding row_at_from
row_at_end fuel count index file e = rw (e, row_at_from) refl

not_first : (i : ℕ) → (suc i == 0) ≡ false
not_first i = ground arith

one_less : (i : ℕ) → suc i - 1 ≡ i
one_less i = omega arith

later_row :
    (i : ℕ) (here : Option (List (List Text))) (later : ℕ → Option (List (List Text)))
    → (if suc i == 0 then here else later (suc i - 1)) ≡ later i
later_row i here later = rw (not_first i, one_less i) refl

drop_nothing : (i : ℕ) → some [] ≡ some (take 1 (drop {A = List Text} i []))
drop_nothing zero = refl
drop_nothing (suc i) = refl

row_at-write_rows :
    (fuel count index : ℕ) (rows : List (List Text))
    → 0 < count
    → all_wide count rows ≡ true
    → length rows < fuel
    → row_at_from fuel count index (write_rows rows) ≡ some (take 1 (drop index rows))
unfolding write_rows all_wide
row_at-write_rows zero count index rows h wide f = absurd (omega arith)
row_at-write_rows (suc fuel) count index [] h wide f =
    row_at_end fuel count index [] (next_row_at_end count) ∙ drop_nothing index
row_at-write_rows (suc fuel) count zero (row ∷ rows) h wide f =
    row_at_got fuel count 0 (write_row row (write_rows rows)) row (write_rows rows)
      (next_row-write_row count row (write_rows rows) h (ground arith))
row_at-write_rows (suc fuel) count (suc index) (row ∷ rows) h wide f =
    row_at_got fuel count (suc index) (write_row row (write_rows rows)) row (write_rows rows)
      (next_row-write_row count row (write_rows rows) h (ground arith))
    ∙ later_row index (some (row ∷ [])) (λ i. row_at_from fuel count i (write_rows rows))
    ∙ row_at-write_rows fuel count index rows h (ground arith) (omega arith)

-- For a schema with a column, from a file of written rows, each as wide as the schema, the row at
-- an index is loaded, and none at an index past the last.
pub load_row_at_index-write_rows :
    (count index : ℕ) (rows : List (List Text))
    → 0 < count
    → all_wide count rows ≡ true
    → load_row_at_index count index (write_rows rows) ≡ some (take 1 (drop index rows))
unfolding load_row_at_index
load_row_at_index-write_rows count index rows h wide = rw (positive_count count h) (
    row_at-write_rows (suc (length (write_rows rows))) count index rows h wide
      (omega (arith, write_rows-length rows)))
