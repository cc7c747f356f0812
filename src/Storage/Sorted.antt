-- ===== src/Storage/Sorted.antt =====
-- src/storage.c: ORDER BY keeps the rows and puts them in the order of the column's type.
use jungle_w8_minisql_server.Prelude.{
  ℕ, Bool, true, false, not, ◌&&◌, ◌||◌, Option, none, some, List, [], ◌∷◌, Text, ltb, ◌==◌,
  if◌then◌else◌, lez,
}
use jungle_w8_minisql_server.Storage.Values.{
  ColumnType, int_type, varchar_type, float_type, boolean_type, date_type, datetime_type,
  parse_long_value, parse_boolean_value,
}
use jungle_w8_minisql_server.Storage.Exchange.{all_ok}
use jungle_w8_minisql_server.Storage.CellOrder.{row_cell}

-- The order of the dictionary, by bytes.
unfoldable pub text_le : Text → Text → Bool
text_le [] b = true
text_le (a ∷ as') [] = false
text_le (a ∷ as') (b ∷ bs) = let rest = text_le as' bs in ltb a b || (a == b && rest)

-- false before true
unfoldable pub bool_le : Bool → Bool → Bool
bool_le a b = not a || b

-- Two values that are read, in an order.
unfoldable pub both_le : {K : Type 0} → (K → K → Bool) → Option K → Option K → Bool
both_le le none b = false
both_le le (some a) none = false
both_le le (some a) (some b) = le a b

-- Whether a cell is at most another one, as values of the type: integers by size, Booleans with
-- false first, texts and dates as in a dictionary. Of `double` no order is known.
unfoldable pub value_le : ColumnType → Text → Text → Bool
value_le int_type a b = both_le lez (parse_long_value a) (parse_long_value b)
value_le varchar_type a b = text_le a b
value_le float_type a b = false
value_le boolean_type a b = both_le bool_le (parse_boolean_value a) (parse_boolean_value b)
value_le date_type a b = text_le a b
value_le datetime_type a b = text_le a b

-- Whether a row may stand before another one: its value in the column is at most the other's for
-- ASC, and the other's is at most its for DESC.
unfoldable pub may_precede : ColumnType → ℕ → Bool → List Text → List Text → Bool
may_precede type i asc x y =
    if asc
    then value_le type (row_cell i x) (row_cell i y)
    else value_le type (row_cell i y) (row_cell i x)

-- Whether every row may stand before all later ones.
unfoldable pub is_sorted : {A : Type 0} → (A → A → Bool) → List A → Bool
is_sorted precedes [] = true
is_sorted precedes (x ∷ xs) = all_ok (precedes x) xs && is_sorted precedes xs
