-- ===== src/Storage/Placed.antt =====
-- src/storage.c: the row of an INSERT has every value under its column.
use jungle_w8_minisql_server.Prelude.{
  ℕ, zero, suc, ◌≡◌, refl, ap, sym, subst, ◌∙◌, inl, inr, ◌≢◌, Bool, true, false, Option, none,
  some, List, [], ◌∷◌, length, get_elem?, replicate, Text, arith, ◌==◌, if◌then◌else◌, Option-cases,
}
use mathlib.Core.Option.{some_inj}
use jungle_w8_minisql_server.Storage.Values.{ColDef}
use jungle_w8_minisql_server.Storage.Where.{find_schema_index, is_empty_text}
use jungle_w8_minisql_server.Storage.Insert.{
  PartialRow, behind, fill_cell, place_value, place_values, before_cells, all_cells, all_cells_of,
  build_row_in_schema_order,
}

-- A cell that has a value.
abbrev Holds : PartialRow → ℕ → Text → Type 0
Holds row i value = get_elem? row i ≡ some (some value)

-- What a cell behind another one keeps or gets.
behind-Holds :
    (cell : Option Text) (o : Option PartialRow) (j : ℕ) (value : Text) (row' : PartialRow)
    → behind cell o ≡ some row'
    → ((r : PartialRow) → o ≡ some r → Holds r j value)
    → Holds row' (suc j) value
behind-Holds cell none j value row' e h = absurd (ground arith)
behind-Holds cell (some r) j value row' e h =
    subst (λ q. Holds q (suc j) value) (some_inj.0 e) (h r refl)

behind_first :
    (cell : Option Text) (o : Option PartialRow) (value : Text) (row' : PartialRow)
    → behind cell o ≡ some row'
    → cell ≡ some value
    → Holds row' 0 value
behind_first cell none value row' e h = absurd (ground arith)
behind_first cell (some r) value row' e h = subst (λ q. Holds q 0 value) (some_inj.0 e) (ap some h)

fill_cell_keeps :
    (row : PartialRow) (i j : ℕ) (value old : Text) (row' : PartialRow)
    → fill_cell row i value ≡ some row'
    → Holds row j old
    → Holds row' j old
unfolding fill_cell
fill_cell_keeps [] i j value old row' e h = absurd (ground arith)
fill_cell_keeps (none ∷ row) zero zero value old row' e h = absurd (ground arith)
fill_cell_keeps (none ∷ row) zero (suc j) value old row' e h =
    subst (λ r. Holds r (suc j) old) (some_inj.0 e) h
fill_cell_keeps (some c ∷ row) zero j value old row' e h = absurd (ground arith)
fill_cell_keeps (none ∷ row) (suc i) zero value old row' e h = absurd (ground arith)
fill_cell_keeps (some c ∷ row) (suc i) zero value old row' e h =
    behind_first (some c) (fill_cell row i value) old row' e (some_inj.0 h)
fill_cell_keeps (none ∷ row) (suc i) (suc j) value old row' e h =
    behind-Holds none (fill_cell row i value) j old row' e
      (λ r f. fill_cell_keeps row i j value old r f h)
fill_cell_keeps (some c ∷ row) (suc i) (suc j) value old row' e h =
    behind-Holds (some c) (fill_cell row i value) j old row' e
      (λ r f. fill_cell_keeps row i j value old r f h)

fill_cell-Holds :
    (row : PartialRow) (i : ℕ) (value : Text) (row' : PartialRow)
    → fill_cell row i value ≡ some row'
    → Holds row' i value
unfolding fill_cell
fill_cell-Holds [] i value row' e = absurd (ground arith)
fill_cell-Holds (none ∷ row) zero value row' e = subst (λ r. Holds r 0 value) (some_inj.0 e) refl
fill_cell-Holds (some c ∷ row) zero value row' e = absurd (ground arith)
fill_cell-Holds (none ∷ row) (suc i) value row' e =
    behind-Holds none (fill_cell row i value) i value row' e
      (λ r f. fill_cell-Holds row i value r f)
fill_cell-Holds (some c ∷ row) (suc i) value row' e =
    behind-Holds (some c) (fill_cell row i value) i value row' e
      (λ r f. fill_cell-Holds row i value r f)

before_first :
    (c : Text) (o : Option (List Text)) (cells : List Text) (value : Text)
    → before_cells c o ≡ some cells
    → c ≡ value
    → get_elem? cells 0 ≡ some value
before_first c none cells value e h = absurd (ground arith)
before_first c (some r) cells value e h =
    subst (λ q. get_elem? q 0 ≡ some value) (some_inj.0 e) (ap some h)

before_later :
    (c : Text) (o : Option (List Text)) (cells : List Text) (i : ℕ) (value : Text)
    → before_cells c o ≡ some cells
    → ((r : List Text) → o ≡ some r → get_elem? r i ≡ some value)
    → get_elem? cells (suc i) ≡ some value
before_later c none cells i value e h = absurd (ground arith)
before_later c (some r) cells i value e h =
    subst (λ q. get_elem? q (suc i) ≡ some value) (some_inj.0 e) (h r refl)

-- A finished row has the values of the cells.
all_cells_hold :
    (row : PartialRow) (cells : List Text) (i : ℕ) (value : Text)
    → all_cells row ≡ some cells
    → Holds row i value
    → get_elem? cells i ≡ some value
unfolding all_cells
all_cells_hold [] cells i value e h = absurd (ground arith)
all_cells_hold (none ∷ row) cells i value e h = absurd (ground arith)
all_cells_hold (some c ∷ row) cells zero value e h =
    before_first c (all_cells row) cells value e (some_inj.0 (some_inj.0 h))
all_cells_hold (some c ∷ row) cells (suc i) value e h =
    before_later c (all_cells row) cells i value e (λ r f. all_cells_hold row r i value f h)

-- What a round does: the column is found, and its cell was NULL.
place_value_found :
    (schema : List ColDef) (row : PartialRow) (c v : Text) (r : PartialRow)
    → place_value schema row c v ≡ some r
    → (i : ℕ) × (find_schema_index schema c ≡ some i) × (fill_cell row i v ≡ some r)
unfolding place_value
place_value_found schema row c v r e =
    found_in (is_empty_text c) (find_schema_index schema c) refl e
  where
    found_in :
        (b : Bool) (o : Option ℕ)
        → find_schema_index schema c ≡ o
        → (if b then none else elim o [ none ↦ none | some i ↦ fill_cell row i v ]) ≡ some r
        → (i : ℕ) × (find_schema_index schema c ≡ some i) × (fill_cell row i v ≡ some r)
    found_in true o f h = absurd (ground arith)
    found_in false none f h = absurd (ground arith)
    found_in false (some i) f h = (i, f, h)

place_value_keeps :
    (schema : List ColDef) (row : PartialRow) (c v : Text) (r : PartialRow) (j : ℕ) (old : Text)
    → place_value schema row c v ≡ some r
    → Holds row j old
    → Holds r j old
place_value_keeps schema row c v r j old e h =
    let found = place_value_found schema row c v r e in
    fill_cell_keeps row found.0 j v old r found.2 h

place_values_keep :
    (schema : List ColDef) (o : Option PartialRow) (columns values : List Text) (row' : PartialRow)
    (j : ℕ) (old : Text)
    → place_values schema o columns values ≡ some row'
    → ((r : PartialRow) → o ≡ some r → Holds r j old)
    → Holds row' j old
unfolding place_values
place_values_keep schema none columns values row' j old e h = absurd (ground arith)
place_values_keep schema (some row) [] values row' j old e h =
    subst (λ r. Holds r j old) (some_inj.0 e) (h row refl)
place_values_keep schema (some row) (c ∷ columns) [] row' j old e h =
    subst (λ r. Holds r j old) (some_inj.0 e) (h row refl)
place_values_keep schema (some row) (c ∷ columns) (v ∷ values) row' j old e h =
    place_values_keep schema (place_value schema row c v) columns values row' j old e
      (λ r f. place_value_keeps schema row c v r j old f (h row refl))

place_values_of_none :
    (schema : List ColDef) (columns values : List Text) (row' : PartialRow)
    → place_values schema none columns values ≢ some row'
unfolding place_values
place_values_of_none schema columns values row' e = ground arith

-- The value of a column stands in the column's cell when the loop ends.
place_values_hold :
    (schema : List ColDef) (row : PartialRow) (columns values : List Text) (row' : PartialRow)
    (k i : ℕ) (c v : Text)
    → place_values schema (some row) columns values ≡ some row'
    → get_elem? columns k ≡ some c
    → get_elem? values k ≡ some v
    → find_schema_index schema c ≡ some i
    → Holds row' i v
unfolding place_values
place_values_hold schema row [] values row' k i c v e f g h = absurd (ground arith)
place_values_hold schema row (d ∷ columns) [] row' k i c v e f g h = absurd (ground arith)
place_values_hold schema row (d ∷ columns) (w ∷ values) row' zero i c v e f g h =
    place_values_keep schema (place_value schema row d w) columns values row' i v e (λ r p.
      let found = place_value_found schema row d w r p in
      let same : found.0 ≡ i =
        some_inj.0 (sym found.1 ∙ ap (find_schema_index schema) (some_inj.0 f) ∙ h) in
      subst (λ x. Holds r i x) (some_inj.0 g)
        (subst (λ x. Holds r x w) same (fill_cell-Holds row found.0 w r found.2)))
place_values_hold schema row (d ∷ columns) (w ∷ values) row' (suc k) i c v e f g h =
    elim (Option-cases (place_value schema row d w)) [
      | inl p ↦ absurd (
          place_values_of_none schema columns values row'
            (ap (λ o. place_values schema o columns values) (sym p) ∙ e))
      | inr (r, p) ↦
          place_values_hold schema r columns values row' k i c v
            (ap (λ o. place_values schema o columns values) (sym p) ∙ e) f g h
    ]

all_cells_of_hold :
    (o : Option PartialRow) (cells : List Text) (i : ℕ) (v : Text)
    → all_cells_of o ≡ some cells
    → ((r : PartialRow) → o ≡ some r → Holds r i v)
    → get_elem? cells i ≡ some v
all_cells_of_hold none cells i v e h = absurd (ground arith)
all_cells_of_hold (some row) cells i v e h = all_cells_hold row cells i v e (h row refl)

guarded_row :
    (b : Bool) (o : Option (List Text)) (cells : List Text)
    → (if b then o else none) ≡ some cells
    → o ≡ some cells
guarded_row true o cells q = q
guarded_row false o cells q = absurd (ground arith)

-- When the row of an INSERT with columns can be built, the value at each position stands in the
-- cell of the schema that its column names.
pub build_row_in_schema_order-values :
    (schema : List ColDef) (columns values cells : List Text) (k i : ℕ) (c v : Text)
    → build_row_in_schema_order schema (some columns) values ≡ some cells
    → get_elem? columns k ≡ some c
    → get_elem? values k ≡ some v
    → find_schema_index schema c ≡ some i
    → get_elem? cells i ≡ some v
unfolding build_row_in_schema_order
build_row_in_schema_order-values schema columns values cells k i c v e f g h =
    let start : PartialRow = replicate (length schema) none in
    let placed : Option PartialRow = place_values schema (some start) columns values in
    all_cells_of_hold placed cells i v
      (guarded_row (length values == length schema) (all_cells_of placed) cells e)
      (λ r p. place_values_hold schema start columns values r k i c v p f g h)
