-- ===== src/Storage/Assign.antt =====
-- src/storage.c: what the SET clauses of an UPDATE make of a row.
use jungle_w8_minisql_server.Prelude.{
  ℕ, zero, suc, ◌≡◌, refl, ap, sym, subst, ◌∙◌, Bool, true, false, Option, none, some, List, [],
  ◌∷◌, ◌++◌, length, get_elem?, set, drop, get_elem?-set_self, Text, arith, ◌==◌, ◌||◌,
  if◌then◌else◌,
}
use mathlib.Core.Option.{some_inj}
use jungle_w8_minisql_server.Parser.Syntax.{SetClause}
use jungle_w8_minisql_server.Storage.Values.{ColDef, Doubles, validate_update_value_for_type}
use jungle_w8_minisql_server.Storage.Where.{
  find_schema_index, is_empty_text, cons_if, contains, set_index, set_indexes, apply_update_to_row,
}
use jungle_w8_minisql_server.Storage.SetCells.{
  guarded_of_some, apply-step, apply_update_to_row-keeps, contains-append, contains-last, value_in,
  inside, no_index,
}

abbrev column_in : SetClause → Text
column_in u = u.column

abbrev pub is_index : Option ℕ → ℕ → Bool
is_index none j = false
is_index (some i) j = j == i

-- Whether a clause names the column of the schema with this index.
unfoldable pub is_set : List ColDef → List SetClause → ℕ → Bool
is_set schema [] j = false
is_set schema (s ∷ ss) j = is_index (find_schema_index schema s.column) j || is_set schema ss j

module _ (doubles : Doubles) (schema : List ColDef) where
  -- The index of a clause is that of its column, and no clause before had it.
  set_index-column :
      (before : List ℕ) (s : SetClause) (i : ℕ)
      → set_index doubles schema before s ≡ some i
      → (contains i before ≡ false) × (find_schema_index schema s.column ≡ some i)
  unfolding set_index
  set_index-column before s i h =
      fresh_in (is_empty_text s.column) (find_schema_index schema s.column) h
    where
      fresh_at :
          (j : ℕ) (c : Option ColDef)
          → (elim c [
            | none ↦ none
            | some d ↦
                if validate_update_value_for_type doubles d.type s.value then some j else none
          ])
            ≡ some i
          → j ≡ i
      fresh_at j none q = absurd (ground arith)
      fresh_at j (some d) q = ground arith

      fresh_in :
          (b : Bool) (o : Option ℕ)
          → (if b then none else elim o [
            | none ↦ none
            | some j ↦ if contains j before then none else elim (get_elem? schema j) [
              | none ↦ none
              | some c ↦
                  if validate_update_value_for_type doubles c.type s.value then some j else none
            ]
          ])
            ≡ some i
          → (contains i before ≡ false) × (o ≡ some i)
      fresh_in true o q = absurd (ground arith)
      fresh_in false none q = absurd (ground arith)
      fresh_in false (some j) q =
          let g =
            guarded_of_some (contains j before)
              (elim (get_elem? schema j) [
                | none ↦ none
                | some c ↦
                    if validate_update_value_for_type doubles c.type s.value then some j else none
              ])
              i q in
          let same : j ≡ i = fresh_at j (get_elem? schema j) g.1 in
          (subst (λ x. contains x before ≡ false) same g.0, ap some same)

  indexes_step :
      (before : List ℕ) (s : SetClause) (ss : List SetClause) (is : List ℕ)
      → set_indexes doubles schema before (s ∷ ss) ≡ some is
      → (i : ℕ) × (rest : List ℕ) × (is ≡ i ∷ rest)
        × (contains i before ≡ false)
        × (find_schema_index schema s.column ≡ some i)
        × (set_indexes doubles schema (before ++ (i ∷ [])) ss ≡ some rest)
  unfolding set_indexes
  indexes_step before s ss is h = step_in (set_index doubles schema before s) refl h
    where
      last_in :
          (i : ℕ) (o : Option (List ℕ))
          → cons_if true i o ≡ some is
          → (rest : List ℕ) × (is ≡ i ∷ rest) × (o ≡ some rest)
      last_in i none q = absurd (ground arith)
      last_in i (some rest) q = (rest, sym (some_inj.0 q), refl)

      step_in :
          (o : Option ℕ)
          → set_index doubles schema before s ≡ o
          → (elim o [
            | none ↦ none
            | some i ↦ cons_if true i (set_indexes doubles schema (before ++ (i ∷ [])) ss)
          ])
            ≡ some is
          → (i : ℕ) × (rest : List ℕ) × (is ≡ i ∷ rest)
            × (contains i before ≡ false)
            × (find_schema_index schema s.column ≡ some i)
            × (set_indexes doubles schema (before ++ (i ∷ [])) ss ≡ some rest)
      step_in none f q = absurd (ground arith)
      step_in (some i) f q =
          let l = last_in i (set_indexes doubles schema (before ++ (i ∷ [])) ss) q in
          let c = set_index-column before s i f in (i, l.0, l.1, c.0, c.1, l.2)

  -- No index comes twice.
  set_indexes-fresh :
      (before : List ℕ) (ss : List SetClause) (is : List ℕ) (j : ℕ)
      → set_indexes doubles schema before ss ≡ some is
      → contains j before ≡ true
      → contains j is ≡ false
  unfolding set_indexes contains
  set_indexes-fresh before [] is j h k = subst (λ l. contains j l ≡ false) (some_inj.0 h) refl
  set_indexes-fresh before (s ∷ ss) is j h k =
      let st = indexes_step before s ss is h in
      let later : contains j st.1 ≡ false =
        set_indexes-fresh (before ++ (st.0 ∷ [])) ss st.1 j st.5
          (contains-append j st.0 before k) in
      subst (λ l. contains j l ≡ false) (sym st.2) (no_index j st.0 before st.1 k st.3 later)

  sets :
      (before : List ℕ) (row row' : List Text) (ss : List SetClause) (is : List ℕ) (k i : ℕ)
      (s : SetClause)
      → set_indexes doubles schema before ss ≡ some is
      → apply_update_to_row row ss is ≡ some row'
      → get_elem? ss k ≡ some s
      → get_elem? is k ≡ some i
      → get_elem? row' i ≡ some s.value
  sets before row row' [] is k i s h a f g = absurd (ground arith)
  sets before row row' (t ∷ ss) [] k i s h a f g = absurd (ground arith)
  sets before row row' (t ∷ ss) (m ∷ is) zero i s h a f g =
      let st = indexes_step before t ss (m ∷ is) h in
      let done = apply-step row t ss m is row' a in
      let head : st.0 ≡ m = some_inj.0 (ap (λ l. get_elem? l 0) (sym st.2)) in
      let later : set_indexes doubles schema (before ++ (st.0 ∷ [])) ss ≡ some is =
        st.5 ∙ ap (λ l. some (drop 1 l)) (sym st.2) in
      let fresh : contains m is ≡ false =
        set_indexes-fresh (before ++ (st.0 ∷ [])) ss is m later (
          subst (λ x. contains x (before ++ (st.0 ∷ [])) ≡ true) head
            (contains-last st.0 before)) in
      let cell : get_elem? row' m ≡ some t.value =
        apply_update_to_row-keeps (set row m t.value) ss is row' m done.1 fresh
        ∙ get_elem?-set_self row m t.value (inside m (length row) done.0) in
      subst (λ x. get_elem? row' x ≡ some s.value) (some_inj.0 g)
        (cell ∙ ap (λ u. some (value_in u)) (some_inj.0 f))
  sets before row row' (t ∷ ss) (m ∷ is) (suc k) i s h a f g =
      let st = indexes_step before t ss (m ∷ is) h in
      sets (before ++ (st.0 ∷ [])) (set row m t.value) row' ss is k i s
        (st.5 ∙ ap (λ l. some (drop 1 l)) (sym st.2)) (apply-step row t ss m is row' a).1 f g

  -- The index of a clause that passes the check is that of its column.
  index_of_clause :
      (before : List ℕ) (ss : List SetClause) (is : List ℕ) (k i : ℕ) (s : SetClause)
      → set_indexes doubles schema before ss ≡ some is
      → get_elem? ss k ≡ some s
      → find_schema_index schema s.column ≡ some i
      → get_elem? is k ≡ some i
  index_of_clause before [] is k i s h f c = absurd (ground arith)
  index_of_clause before (t ∷ ss) is zero i s h f c =
      let st = indexes_step before t ss is h in
      let same : t.column ≡ s.column = ap column_in (some_inj.0 f) in
      ap (λ l. get_elem? l 0) st.2 ∙ sym st.4 ∙ ap (find_schema_index schema) same ∙ c
  index_of_clause before (t ∷ ss) is (suc k) i s h f c =
      let st = indexes_step before t ss is h in
      ap (λ l. get_elem? l (suc k)) st.2
      ∙ index_of_clause (before ++ (st.0 ∷ [])) ss st.1 k i s st.5 f c

  -- The indexes are those of the columns that the clauses name.
  set_indexes-is_set :
      (before : List ℕ) (ss : List SetClause) (is : List ℕ) (j : ℕ)
      → set_indexes doubles schema before ss ≡ some is
      → contains j is ≡ is_set schema ss j
  unfolding set_indexes contains is_set
  set_indexes-is_set before [] is j h = ap (λ l. contains j l) (sym (some_inj.0 h))
  set_indexes-is_set before (s ∷ ss) is j h =
      let st = indexes_step before s ss is h in
      ap (λ l. contains j l) st.2
      ∙ ap (λ b. (j == st.0) || b) (set_indexes-is_set (before ++ (st.0 ∷ [])) ss st.1 j st.5)
      ∙ ap (λ o. is_index o j || is_set schema ss j) (sym st.4)

  -- When the SET clauses pass the check and are applied to a row, the cell in the column that a
  -- clause names has its value, and the cell of a column that no clause names has the value that it
  -- had.
  pub apply_update_to_row-set_indexes :
      (row row' : List Text) (ss : List SetClause) (is : List ℕ) (k i j : ℕ) (s : SetClause)
      → set_indexes doubles schema [] ss ≡ some is
      → apply_update_to_row row ss is ≡ some row'
      → get_elem? ss k ≡ some s
      → find_schema_index schema s.column ≡ some i
      → is_set schema ss j ≡ false
      → (get_elem? row' i ≡ some s.value) × (get_elem? row' j ≡ get_elem? row j)
  apply_update_to_row-set_indexes row row' ss is k i j s h a f c n = (
    sets [] row row' ss is k i s h a f (index_of_clause [] ss is k i s h f c),
    apply_update_to_row-keeps row ss is row' j a (set_indexes-is_set [] ss is j h ∙ n),
  )
