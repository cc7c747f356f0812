-- ===== src/Storage/CellOrder.antt =====
-- src/storage.c: the comparison that ORDER BY makes of two rows is total and transitive.
use jungle_w8_minisql_server.Prelude.{
  ℕ, ◌≡◌, sym, ◌∙◌, Bool, true, false, Option, none, some, List, Text, arith,
}
use Prim.Native.Nat.{Ordering}
use jungle_w8_minisql_server.Storage.Values.{
  ColumnType, int_type, varchar_type, float_type, boolean_type, date_type, datetime_type, Doubles,
  strcmp, parse_long_value, parse_boolean_value, compare_longs, compare_bools, compare_both, is_gt,
  is_lt, is_some,
}
use jungle_w8_minisql_server.Storage.Where.{strip_optional_quotes}
use jungle_w8_minisql_server.Storage.Order.{
  compare_stripped, compare_cells_by_type, cell_at, or_else, compare_rows_for_order, is_after,
  row_is_after,
}
use jungle_w8_minisql_server.Storage.Comparison.{
  IsLinear, strcmp-IsLinear, compare_longs-IsLinear, compare_bools-IsLinear,
}

-- Whether a cell without its quotes is a value that the type orders: any text, an integer or a
-- Boolean. Of `double` nothing is assumed.
unfoldable pub is_ordered_value : ColumnType → Text → Bool
is_ordered_value int_type cell = is_some (parse_long_value cell)
is_ordered_value varchar_type cell = true
is_ordered_value float_type cell = false
is_ordered_value boolean_type cell = is_some (parse_boolean_value cell)
is_ordered_value date_type cell = true
is_ordered_value datetime_type cell = true

-- Whether the cell that a row is sorted by is such a value.
unfoldable pub is_sortable : ColumnType → ℕ → List Text → Bool
is_sortable type i row = is_ordered_value type (strip_optional_quotes 256 (cell_at i row))

-- The value that a comparison of sortable rows compares.
module _ {K : Type 0} (cmp : K → K → Ordering) (linear : IsLinear cmp) where
  abbrev both_gt : Option K → Option K → Ordering → Bool
  both_gt a b o = is_gt (or_else (compare_both cmp a b) o)

  option_flip :
      (a b : Option K) (o p : Ordering)
      → is_some a ≡ true
      → is_some b ≡ true
      → is_lt (or_else (compare_both cmp a b) o) ≡ is_gt (or_else (compare_both cmp b a) p)
  unfolding compare_both
  option_flip none b o p h k = absurd (ground arith)
  option_flip (some a) none o p h k = absurd (ground arith)
  option_flip (some a) (some b) o p h k = linear.0 a b

  option_total :
      (a b : Option K) (o p : Ordering)
      → is_some a ≡ true
      → is_some b ≡ true
      → is_gt (or_else (compare_both cmp a b) o) ≡ true
      → is_gt (or_else (compare_both cmp b a) p) ≡ false
  unfolding compare_both
  option_total none b o p h k = absurd (ground arith)
  option_total (some a) none o p h k = absurd (ground arith)
  option_total (some a) (some b) o p h k = linear.1 a b

  option_trans :
      (a b c : Option K) (o p q : Ordering)
      → is_some a ≡ true
      → is_some b ≡ true
      → is_some c ≡ true
      → is_gt (or_else (compare_both cmp a b) o) ≡ false
      → is_gt (or_else (compare_both cmp b c) p) ≡ false
      → is_gt (or_else (compare_both cmp a c) q) ≡ false
  unfolding compare_both
  option_trans none b c o p q h k l = absurd (ground arith)
  option_trans (some a) none c o p q h k l = absurd (ground arith)
  option_trans (some a) (some b) none o p q h k l = absurd (ground arith)
  option_trans (some a) (some b) (some c) o p q h k l = linear.2 a b c

-- The cell that a row is sorted by, without its quotes.
abbrev pub row_cell : ℕ → List Text → Text
row_cell i row = strip_optional_quotes 256 (cell_at i row)

module _ (doubles : Doubles) where
  stripped_flip :
      (type : ColumnType) (a b : Text) (o p : Ordering)
      → is_ordered_value type a ≡ true
      → is_ordered_value type b ≡ true
      → is_lt (or_else (compare_stripped doubles type a b) o)
        ≡ is_gt (or_else (compare_stripped doubles type b a) p)
  unfolding compare_stripped is_ordered_value
  stripped_flip int_type a b o p h k =
      option_flip compare_longs compare_longs-IsLinear (parse_long_value a) (parse_long_value b) o p
        h k
  stripped_flip varchar_type a b o p h k = strcmp-IsLinear.0 a b
  stripped_flip float_type a b o p h k = absurd (ground arith)
  stripped_flip boolean_type a b o p h k =
      option_flip compare_bools compare_bools-IsLinear (parse_boolean_value a)
        (parse_boolean_value b) o p h k
  stripped_flip date_type a b o p h k = strcmp-IsLinear.0 a b
  stripped_flip datetime_type a b o p h k = strcmp-IsLinear.0 a b

  stripped_total :
      (type : ColumnType) (a b : Text) (o p : Ordering)
      → is_ordered_value type a ≡ true
      → is_ordered_value type b ≡ true
      → is_gt (or_else (compare_stripped doubles type a b) o) ≡ true
      → is_gt (or_else (compare_stripped doubles type b a) p) ≡ false
  unfolding compare_stripped is_ordered_value
  stripped_total int_type a b o p h k =
      option_total compare_longs compare_longs-IsLinear (parse_long_value a) (parse_long_value b) o
        p h k
  stripped_total varchar_type a b o p h k = strcmp-IsLinear.1 a b
  stripped_total float_type a b o p h k = absurd (ground arith)
  stripped_total boolean_type a b o p h k =
      option_total compare_bools compare_bools-IsLinear (parse_boolean_value a)
        (parse_boolean_value b) o p h k
  stripped_total date_type a b o p h k = strcmp-IsLinear.1 a b
  stripped_total datetime_type a b o p h k = strcmp-IsLinear.1 a b

  stripped_trans :
      (type : ColumnType) (a b c : Text) (o p q : Ordering)
      → is_ordered_value type a ≡ true
      → is_ordered_value type b ≡ true
      → is_ordered_value type c ≡ true
      → is_gt (or_else (compare_stripped doubles type a b) o) ≡ false
      → is_gt (or_else (compare_stripped doubles type b c) p) ≡ false
      → is_gt (or_else (compare_stripped doubles type a c) q) ≡ false
  unfolding compare_stripped is_ordered_value
  stripped_trans int_type a b c o p q h k l =
      option_trans compare_longs compare_longs-IsLinear (parse_long_value a) (parse_long_value b)
        (parse_long_value c) o p q h k l
  stripped_trans varchar_type a b c o p q h k l = strcmp-IsLinear.2 a b c
  stripped_trans float_type a b c o p q h k l = absurd (ground arith)
  stripped_trans boolean_type a b c o p q h k l =
      option_trans compare_bools compare_bools-IsLinear (parse_boolean_value a)
        (parse_boolean_value b) (parse_boolean_value c) o p q h k l
  stripped_trans date_type a b c o p q h k l = strcmp-IsLinear.2 a b c
  stripped_trans datetime_type a b c o p q h k l = strcmp-IsLinear.2 a b c

  pub row_flip :
      (type : ColumnType) (i : ℕ) (x y : List Text)
      → is_sortable type i x ≡ true
      → is_sortable type i y ≡ true
      → is_lt (compare_rows_for_order doubles type i x y)
        ≡ is_gt (compare_rows_for_order doubles type i y x)
  unfolding compare_rows_for_order compare_cells_by_type is_sortable
  row_flip type i x y h k =
      stripped_flip type (row_cell i x) (row_cell i y) (strcmp (cell_at i x) (cell_at i y))
        (strcmp (cell_at i y) (cell_at i x)) h k

  row_gt_total :
      (type : ColumnType) (i : ℕ) (x y : List Text)
      → is_sortable type i x ≡ true
      → is_sortable type i y ≡ true
      → is_gt (compare_rows_for_order doubles type i x y) ≡ true
      → is_gt (compare_rows_for_order doubles type i y x) ≡ false
  unfolding compare_rows_for_order compare_cells_by_type is_sortable
  row_gt_total type i x y h k =
      stripped_total type (row_cell i x) (row_cell i y) (strcmp (cell_at i x) (cell_at i y))
        (strcmp (cell_at i y) (cell_at i x)) h k

  row_gt_trans :
      (type : ColumnType) (i : ℕ) (x y z : List Text)
      → is_sortable type i x ≡ true
      → is_sortable type i y ≡ true
      → is_sortable type i z ≡ true
      → is_gt (compare_rows_for_order doubles type i x y) ≡ false
      → is_gt (compare_rows_for_order doubles type i y z) ≡ false
      → is_gt (compare_rows_for_order doubles type i x z) ≡ false
  unfolding compare_rows_for_order compare_cells_by_type is_sortable
  row_gt_trans type i x y z h k l =
      stripped_trans type (row_cell i x) (row_cell i y) (row_cell i z)
        (strcmp (cell_at i x) (cell_at i y)) (strcmp (cell_at i y) (cell_at i z))
        (strcmp (cell_at i x) (cell_at i z)) h k l

  pub row_total :
      (type : ColumnType) (i : ℕ) (asc : Bool) (x y : List Text)
      → is_sortable type i x ≡ true
      → is_sortable type i y ≡ true
      → row_is_after doubles type i asc x y ≡ true
      → row_is_after doubles type i asc y x ≡ false
  unfolding is_after
  row_total type i true x y h k e = row_gt_total type i x y h k e
  row_total type i false x y h k e =
      row_flip type i y x k h ∙ row_gt_total type i y x k h (sym (row_flip type i x y h k) ∙ e)

  pub row_trans :
      (type : ColumnType) (i : ℕ) (asc : Bool) (x y z : List Text)
      → is_sortable type i x ≡ true
      → is_sortable type i y ≡ true
      → is_sortable type i z ≡ true
      → row_is_after doubles type i asc x y ≡ false
      → row_is_after doubles type i asc y z ≡ false
      → row_is_after doubles type i asc x z ≡ false
  unfolding is_after
  row_trans type i true x y z h k l e f = row_gt_trans type i x y z h k l e f
  row_trans type i false x y z h k l e f =
      row_flip type i x z h l
      ∙ row_gt_trans type i z y x l k h (sym (row_flip type i y z k l) ∙ f)
          (sym (row_flip type i x y h k) ∙ e)
