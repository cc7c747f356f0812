-- ===== src/Storage/Wide.antt =====
-- src/storage.c: the rows that are loaded are as wide as the schema.
use jungle_w8_minisql_server.Prelude.{
  ℕ, zero, suc, ◌≡◌, refl, ap, subst, ◌∙◌, sym, inl, inr, Bool, true, false, Option, none, some,
  List, [], length, Text, arith, ◌==◌, if◌then◌else◌, Bool-cases,
}
use mathlib.Core.Option.{some_inj}
use jungle_w8_minisql_server.Storage.Csv.{
  ReadStatus, malformed, end_of_file, read_one, read_csv_record, parse_csv_record,
}
use jungle_w8_minisql_server.Storage.Where.{cons_if}
use jungle_w8_minisql_server.Storage.Tables.{
  NextRow, bad, at_end, got, checked_row, row_status, next_row, load_rows, load_table_rows,
}
use jungle_w8_minisql_server.Storage.Loading.{all_wide, load_rows_got, load_rows_end}

abbrev row_in : NextRow → List Text
row_in bad = []
row_in at_end = []
row_in (got row rest) = row

abbrev is_got : NextRow → Bool
is_got bad = false
is_got at_end = false
is_got (got row rest) = true

not_got :
    {A : Type 0} {n : NextRow} {row : List Text} {rest : Text}
    → n ≡ got row rest
    → is_got n ≡ false
    → A
not_got e f = absurd (clash (sym f ∙ ap is_got e))
  where
    clash : false ≡ true → ⊥
    clash k = ground arith

checked_row_wide :
    (count : ℕ) (o : Option (List Text)) (file : Text) (row : List Text) (rest : Text)
    → checked_row count o file ≡ got row rest
    → (length row == count) ≡ true
unfolding checked_row
checked_row_wide count none file row rest h = not_got h refl
checked_row_wide count (some r) file row rest h = elim (Bool-cases (length r == count)) [
  | inl e ↦
      let same : got r file ≡ got row rest = sym (ap (λ b. if b then got r file else bad) e) ∙ h in
      subst (λ l. (length l == count) ≡ true) (ap row_in same) e
  | inr e ↦ not_got (sym (ap (λ b. if b then got r file else bad) e) ∙ h) refl
]

row_status_wide :
    (count : ℕ) (status : ReadStatus) (row : List Text) (rest : Text)
    → row_status count status ≡ got row rest
    → (length row == count) ≡ true
unfolding row_status
row_status_wide count malformed row rest h = not_got h refl
row_status_wide count end_of_file row rest h = not_got h refl
row_status_wide count (read_one record' left) row rest h =
    checked_row_wide count (parse_csv_record record') left row rest h

cons_wide :
    (count : ℕ) (row : List Text) (o : Option (List (List Text))) (rows : List (List Text))
    → (length row == count) ≡ true
    → ((later : List (List Text)) → o ≡ some later → all_wide count later ≡ true)
    → cons_if true row o ≡ some rows
    → all_wide count rows ≡ true
unfolding all_wide
cons_wide count row none rows w ih h = absurd (ground arith)
cons_wide count row (some later) rows w ih h =
    subst (λ l. all_wide count l ≡ true) (some_inj.0 h) (rw (w, ih later refl) refl)

load_rows_bad :
    (fuel count : ℕ) (file : Text)
    → next_row count file ≡ bad
    → load_rows (suc fuel) count file ≡ none
unfolding load_rows
load_rows_bad fuel count file e = rw (e, load_rows) refl

load_case :
    (fuel count : ℕ) (file : Text) (rows : List (List Text)) (n : NextRow)
    → next_row count file ≡ n
    → ((rest : Text) (later : List (List Text))
        → load_rows fuel count rest ≡ some later
        → all_wide count later ≡ true)
    → load_rows (suc fuel) count file ≡ some rows
    → all_wide count rows ≡ true
unfolding next_row all_wide
load_case fuel count file rows bad e ih h =
    absurd (no_rows (sym (load_rows_bad fuel count file e) ∙ h))
  where
    no_rows : none ≡ some rows → ⊥
    no_rows k = ground arith
load_case fuel count file rows at_end e ih h =
    subst (λ l. all_wide count l ≡ true) (some_inj.0 (sym (load_rows_end fuel count file e) ∙ h))
      refl
load_case fuel count file rows (got row rest) e ih h =
    cons_wide count row (load_rows fuel count rest) rows
      (row_status_wide count (read_csv_record file) row rest e) (ih rest)
      (sym (load_rows_got fuel count file row rest e) ∙ h)

load_rows-wide :
    (fuel count : ℕ) (file : Text) (rows : List (List Text))
    → load_rows fuel count file ≡ some rows
    → all_wide count rows ≡ true
unfolding load_rows
load_rows-wide zero count file rows h = absurd (ground arith)
load_rows-wide (suc fuel) count file rows h =
    load_case fuel count file rows (next_row count file) refl
      (λ rest later. load_rows-wide fuel count rest later) h

pub load_table_rows-wide :
    (count : ℕ) (file : Text) (rows : List (List Text))
    → load_table_rows count file ≡ some rows
    → all_wide count rows ≡ true
unfolding load_table_rows
load_table_rows-wide count file rows h = elim (Bool-cases (count == 0)) [
  | inl e ↦ absurd (ground arith)
  | inr e ↦
      load_rows-wide (suc (length file)) count file rows
        (sym (ap (λ b. if b then none else load_rows (suc (length file)) count file) e) ∙ h)
]
