-- ===== src/Storage/SetCells.antt =====
-- src/storage.c: which cells of a row an UPDATE reaches at given indexes.
use jungle_w8_minisql_server.Prelude.{
  ℕ, ◌<◌, ◌≡◌, refl, ap, sym, ◌∙◌, inl, inr, ◌≢◌, Bool, true, false, Option, none, some, List, [],
  ◌∷◌, ◌++◌, length, get_elem?, set, get_elem?-set_ne, Text, arith, leb, ◌==◌, ==_iff,
  if◌then◌else◌, Bool-cases,
}
use mathlib.Core.Option.{some_inj}
use jungle_w8_minisql_server.Parser.Syntax.{SetClause}
use jungle_w8_minisql_server.Storage.Where.{contains, apply_update_to_row}

pub guarded_of_some :
    {A : Type 0} (b : Bool) (o : Option A) (a : A)
    → (if b then none else o) ≡ some a
    → (b ≡ false) × (o ≡ some a)
guarded_of_some true o a h = absurd (ground arith)
guarded_of_some false o a h = (refl, h)

pub apply-step :
    (row : List Text) (s : SetClause) (ss : List SetClause) (i : ℕ) (is : List ℕ) (row' : List Text)
    → apply_update_to_row row (s ∷ ss) (i ∷ is) ≡ some row'
    → (leb (length row) i ≡ false) × (apply_update_to_row (set row i s.value) ss is ≡ some row')
unfolding apply_update_to_row
apply-step row s ss i is row' h =
    guarded_of_some (leb (length row) i) (apply_update_to_row (set row i s.value) ss is) row' h

no_longer : (i j : ℕ) → i ≡ j → (j == i) ≢ false
no_longer i j e k = ground (arith, e, k)

-- A cell that no clause names stays.
pub apply_update_to_row-keeps :
    (row : List Text) (ss : List SetClause) (is : List ℕ) (row' : List Text) (j : ℕ)
    → apply_update_to_row row ss is ≡ some row'
    → contains j is ≡ false
    → get_elem? row' j ≡ get_elem? row j
unfolding apply_update_to_row contains
apply_update_to_row-keeps row [] is row' j h f = ap (λ r. get_elem? r j) (sym (some_inj.0 h))
apply_update_to_row-keeps row (s ∷ ss) [] row' j h f = absurd (ground arith)
apply_update_to_row-keeps row (s ∷ ss) (i ∷ is) row' j h f =
    apply_update_to_row-keeps (set row i s.value) ss is row' j (apply-step row s ss i is row' h).1
      (ground arith)
    ∙ get_elem?-set_ne row i j s.value (λ e. no_longer i j e (ground arith))

pub contains-append :
    (j i : ℕ) (before : List ℕ) → contains j before ≡ true → contains j (before ++ (i ∷ [])) ≡ true
unfolding contains
contains-append j i [] h = absurd (ground arith)
contains-append j i (b ∷ before) h = ground (arith, contains-append j i before, h)

pub contains-last : (i : ℕ) (before : List ℕ) → contains i (before ++ (i ∷ [])) ≡ true
unfolding contains
contains-last i [] = ground arith
contains-last i (b ∷ before) = ground (arith, contains-last i before)

abbrev pub value_in : SetClause → Text
value_in u = u.value

pub inside : (i n : ℕ) → leb n i ≡ false → i < n
inside i n h = ground arith

true_not_false : true ≢ false
true_not_false e = ground arith

pub no_index :
    (j i : ℕ) (before rest : List ℕ)
    → contains j before ≡ true
    → contains i before ≡ false
    → contains j rest ≡ false
    → contains j (i ∷ rest) ≡ false
unfolding contains
no_index j i before rest k f h = elim (Bool-cases (j == i)) [
  | inl e ↦ absurd (true_not_false (sym k ∙ ap (λ x. contains x before) ((==_iff j i).0 e) ∙ f))
  | inr e ↦ rw (e, h) refl
]
