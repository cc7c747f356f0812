-- ===== src/Storage/Rewrite.antt =====
-- src/storage.c: DELETE and UPDATE rewrite a table as their work on its rows says.
use jungle_w8_minisql_server.Prelude.{
  ℕ, zero, suc, ◌<◌, ◌≡◌, refl, ap, sym, ◌∙◌, Bool, true, false, not, Option, none, some, List, [],
  ◌∷◌, length, Text, if◌then◌else◌,
}
use jungle_w8_minisql_server.Parser.Syntax.{ParsedSql}
use jungle_w8_minisql_server.Storage.Values.{ColDef, Doubles}
use jungle_w8_minisql_server.Storage.Where.{cons_if, row_matches, apply_update_to_row}
use jungle_w8_minisql_server.Storage.Tables.{
  NextRow, bad, at_end, got, next_row, load_rows, load_table_rows, delete_written, update_written,
  delete_loop, delete_rows_from_table, updated_row, update_loop, updated_if, update_rows_from_table,
}
use jungle_w8_minisql_server.Storage.Loading.{write_rows, load_rows_got, positive_count}

-- What is done with a value that may be missing.
abbrev pub if_some : {A B : Type 0} → (A → Option B) → Option A → Option B
if_some f none = none
if_some f (some a) = f a

abbrev pub write_all : Option (List (List Text)) → Option Text
write_all o = if_some (λ rows. some (write_rows rows)) o

abbrev pub cons_unmatched : {A : Type 0} → Option Bool → A → Option (List A) → Option (List A)
cons_unmatched none a rows = none
cons_unmatched (some matched) a rows = cons_if (not matched) a rows

abbrev cons_both : {A : Type 0} → Option A → Option (List A) → Option (List A)
cons_both none rows = none
cons_both (some a) rows = cons_if true a rows

-- A round that deletes does to the file what its row's case does to the rows.
delete_round :
    (row : List Text) (m : Option Bool) (o : Option (List (List Text)))
    → delete_written row m (write_all o) ≡ write_all (cons_unmatched m row o)
unfolding write_rows
delete_round row none o = refl
delete_round row (some b) none = refl
delete_round row (some true) (some rows) = refl
delete_round row (some false) (some rows) = refl

update_round :
    (u : Option (List Text)) (o : Option (List (List Text)))
    → update_written u (write_all o) ≡ write_all (cons_both u o)
unfolding write_rows
update_round none o = refl
update_round (some row) none = refl
update_round (some row) (some rows) = refl

-- Rows that cannot be loaded are not written.
delete_unread : (row : List Text) (m : Option Bool) → delete_written row m none ≡ none
delete_unread row none = refl
delete_unread row (some b) = refl

update_unread : (u : Option (List Text)) → update_written u none ≡ none
update_unread none = refl
update_unread (some row) = refl

-- What UPDATE has to make of a row: a row that matches is as the SET clauses make it, any other
-- stays, and one that cannot be tested fails.
abbrev rewritten : Option Bool → List Text → Option (List Text) → Option (List Text)
rewritten none row set_row = none
rewritten (some matched) row set_row = if matched then set_row else some row

updated-rewritten :
    (m : Option Bool) (row : List Text) (set_row : Option (List Text))
    → updated_if row m set_row ≡ rewritten m row set_row
updated-rewritten none row set_row = refl
updated-rewritten (some true) row set_row = refl
updated-rewritten (some false) row set_row = refl

module _ (doubles : Doubles) (schema : List ColDef) (sql : ParsedSql) where
  -- The rows that do not match, if every row can be tested.
  unfoldable pub rows_without : List (List Text) → Option (List (List Text))
  rows_without [] = some []
  rows_without (row ∷ rows) =
      cons_unmatched (row_matches doubles schema sql row) row (rows_without rows)

  -- The rows, those that match as the SET clauses make them.
  unfoldable pub updated_rows : List ℕ → List (List Text) → Option (List (List Text))
  updated_rows indexes [] = some []
  updated_rows indexes (row ∷ rows) =
      cons_both
        (rewritten (row_matches doubles schema sql row) row
          (apply_update_to_row row sql.set_clauses indexes))
        (updated_rows indexes rows)

  delete_got :
      (fuel : ℕ) (file : Text) (row : List Text) (rest : Text)
      → next_row (length schema) file ≡ got row rest
      → delete_loop (suc fuel) doubles schema sql file
        ≡ delete_written row
            (row_matches doubles schema sql row)
            (delete_loop fuel doubles schema sql rest)
  unfolding delete_loop
  delete_got fuel file row rest e = rw (e, delete_loop) refl

  update_got :
      (fuel : ℕ) (indexes : List ℕ) (file : Text) (row : List Text) (rest : Text)
      → next_row (length schema) file ≡ got row rest
      → update_loop (suc fuel) doubles schema sql indexes file
        ≡ update_written
            (updated_row doubles schema sql indexes row)
            (update_loop fuel doubles schema sql indexes rest)
  unfolding update_loop
  update_got fuel indexes file row rest e = rw (e, update_loop) refl

  -- The rows that are loaded, and the rows that come of them, written.
  delete_step :
      (row : List Text) (m : Option Bool) (o : Option (List (List Text)))
      → m ≡ row_matches doubles schema sql row
      → delete_written row m (write_all (if_some rows_without o))
        ≡ write_all (if_some rows_without (cons_if true row o))
  unfolding rows_without
  delete_step row m none e = delete_unread row m
  delete_step row m (some rows) e =
      delete_round row m (rows_without rows)
      ∙ ap (λ k. write_all (cons_unmatched k row (rows_without rows))) e

  update_step :
      (indexes : List ℕ) (row : List Text) (o : Option (List (List Text)))
      → update_written
          (updated_row doubles schema sql indexes row)
          (write_all (if_some (updated_rows indexes) o))
        ≡ write_all (if_some (updated_rows indexes) (cons_if true row o))
  unfolding updated_rows updated_row
  update_step indexes row none = update_unread (updated_row doubles schema sql indexes row)
  update_step indexes row (some rows) =
      update_round (updated_row doubles schema sql indexes row) (updated_rows indexes rows)
      ∙ ap (λ u. write_all (cons_both u (updated_rows indexes rows)))
          (updated-rewritten (row_matches doubles schema sql row) row
            (apply_update_to_row row sql.set_clauses indexes))

  abbrev DeleteAgrees : ℕ → Text → Type 0
  DeleteAgrees fuel file =
      delete_loop fuel doubles schema sql file
      ≡ write_all (if_some rows_without (load_rows fuel (length schema) file))

  abbrev UpdateAgrees : List ℕ → ℕ → Text → Type 0
  UpdateAgrees indexes fuel file =
      update_loop fuel doubles schema sql indexes file
      ≡ write_all (if_some (updated_rows indexes) (load_rows fuel (length schema) file))

  delete_case :
      (fuel : ℕ) (file : Text) (n : NextRow)
      → next_row (length schema) file ≡ n
      → ((rest : Text) → DeleteAgrees fuel rest)
      → DeleteAgrees (suc fuel) file
  unfolding delete_loop load_rows write_rows rows_without
  delete_case fuel file bad e ih = rw (e, delete_loop, load_rows) refl
  delete_case fuel file at_end e ih = rw (e, delete_loop, load_rows) refl
  delete_case fuel file (got row rest) e ih =
      delete_got fuel file row rest e
      ∙ ap (delete_written row (row_matches doubles schema sql row)) (ih rest)
      ∙ delete_step row (row_matches doubles schema sql row) (load_rows fuel (length schema) rest)
          refl
      ∙ ap (λ o. write_all (if_some rows_without o))
          (sym (load_rows_got fuel (length schema) file row rest e))

  update_case :
      (fuel : ℕ) (indexes : List ℕ) (file : Text) (n : NextRow)
      → next_row (length schema) file ≡ n
      → ((rest : Text) → UpdateAgrees indexes fuel rest)
      → UpdateAgrees indexes (suc fuel) file
  unfolding update_loop load_rows write_rows updated_rows
  update_case fuel indexes file bad e ih = rw (e, update_loop, load_rows) refl
  update_case fuel indexes file at_end e ih = rw (e, update_loop, load_rows) refl
  update_case fuel indexes file (got row rest) e ih =
      update_got fuel indexes file row rest e
      ∙ ap (update_written (updated_row doubles schema sql indexes row)) (ih rest)
      ∙ update_step indexes row (load_rows fuel (length schema) rest)
      ∙ ap (λ o. write_all (if_some (updated_rows indexes) o))
          (sym (load_rows_got fuel (length schema) file row rest e))

  delete_loop-load_rows : (fuel : ℕ) (file : Text) → DeleteAgrees fuel file
  unfolding delete_loop load_rows
  delete_loop-load_rows zero file = refl
  delete_loop-load_rows (suc fuel) file =
      delete_case fuel file (next_row (length schema) file) refl
        (λ rest. delete_loop-load_rows fuel rest)

  update_loop-load_rows :
      (fuel : ℕ) (indexes : List ℕ) (file : Text) → UpdateAgrees indexes fuel file
  unfolding update_loop load_rows
  update_loop-load_rows zero indexes file = refl
  update_loop-load_rows (suc fuel) indexes file =
      update_case fuel indexes file (next_row (length schema) file) refl
        (λ rest. update_loop-load_rows fuel indexes rest)

  loaded :
      (file : Text)
      → 0 < length schema
      → load_table_rows (length schema) file ≡ load_rows (suc (length file)) (length schema) file
  unfolding load_table_rows
  loaded file h = rw (positive_count (length schema) h) refl

  -- Where the schema has a column, DELETE leaves the file of the loaded rows that do not match, and
  -- fails when the table cannot be loaded or a row cannot be tested.
  pub delete_rows_from_table-load_table_rows :
      (file : Text)
      → 0 < length schema
      → delete_rows_from_table doubles schema sql file
        ≡ write_all (if_some rows_without (load_table_rows (length schema) file))
  unfolding delete_rows_from_table
  delete_rows_from_table-load_table_rows file h =
      delete_loop-load_rows (suc (length file)) file
      ∙ ap (λ o. write_all (if_some rows_without o)) (sym (loaded file h))

  -- Where the schema has a column, UPDATE leaves the file of the loaded rows, in which each row that
  -- matches is as the SET clauses make it and each other row is unchanged, and fails when the table
  -- cannot be loaded, or a row cannot be tested, or one that matches cannot be set.
  pub update_rows_from_table-load_table_rows :
      (indexes : List ℕ) (file : Text)
      → 0 < length schema
      → update_rows_from_table doubles schema sql indexes file
        ≡ write_all (if_some (updated_rows indexes) (load_table_rows (length schema) file))
  unfolding update_rows_from_table
  update_rows_from_table-load_table_rows indexes file h =
      update_loop-load_rows (suc (length file)) indexes file
      ∙ ap (λ o. write_all (if_some (updated_rows indexes) o)) (sym (loaded file h))
