-- ===== src/Storage/Values.antt =====
-- src/storage.c: cells as the values of their column's type, and their comparison. `double` and
-- `strtod` are parameters. The sign of a C comparison's result is an `Ordering`.
use jungle_w8_minisql_server.Prelude.{
  ℕ, zero, suc, ◌+◌, ◌-◌, ◌*◌, Bool, true, false, not, ◌&&◌, ◌||◌, Option, none, some, [], ◌∷◌,
  Text, bytes, text_eq, leb, ◌==◌, if◌then◌else◌, ℤ, pos, negsuc, ltz,
}
use Prim.Native.Nat.{compare, Ordering}
use jungle_w8_minisql_server.Parser.Tokens.{is_space, span, starts, ieq}

pub data ColumnType : Type 0 where
  int_type : ColumnType
  varchar_type : ColumnType
  float_type : ColumnType
  boolean_type : ColumnType
  date_type : ColumnType
  datetime_type : ColumnType

pub record ColDef : Type 0 where
  pub name : Text
  pub type : ColumnType

-- What the C library gives for `double`: `strtod` as the value, where the text goes on and whether
-- `errno` was set, and `>`.
pub record Doubles : Type 1 where
  pub Double : Type 0
  pub strtod : Text → Double
  pub strtod_end : Text → Text
  pub strtod_failed : Text → Bool
  pub greater : Double → Double → Bool

-- `(a > b) - (a < b)`
unfoldable pub ordering_of : Bool → Bool → Ordering
ordering_of true greater = Ordering.lt
ordering_of false greater = if greater then Ordering.gt else Ordering.eq

unfoldable pub strcmp : Text → Text → Ordering
strcmp [] [] = Ordering.eq
strcmp [] (b ∷ bs) = Ordering.lt
strcmp (a ∷ as') [] = Ordering.gt
strcmp (a ∷ as') (b ∷ bs) =
    let rest = strcmp as' bs in
    elim (compare a b) [
      | Ordering.lt ↦ Ordering.lt
      | Ordering.eq ↦ rest
      | Ordering.gt ↦ Ordering.gt
    ]

-- The digits that a text starts with, and what follows them.
unfoldable pub is_digit : ℕ → Bool
is_digit c = leb 48 c && leb c 57

unfoldable pub value_of : ℕ → Text → ℕ
value_of n [] = n
value_of n (c ∷ cs) = value_of (10 * n + (c - 48)) cs

abbrev pub long_max : ℕ
long_max = 9223372036854775807

-- `strtol` of digits up to the end of the text: `none` where there are none, where something
-- follows them, or where the value is out of range.
unfoldable pub unsigned_value : Bool → Text → Option ℤ
unsigned_value negative [] = none
unsigned_value negative (c ∷ cs) = elim ((span is_digit (c ∷ cs)).1) [
  | [] ↦ long_of negative (value_of 0 (c ∷ cs))
  | d ∷ ds ↦ none
]
  where
    long_of : Bool → ℕ → Option ℤ
    long_of true zero = some (pos 0)
    long_of true (suc n) = if leb n long_max then some (negsuc n) else none
    long_of false n = if leb n long_max then some (pos n) else none

unfoldable pub signed_value : Text → Option ℤ
signed_value [] = none
signed_value (c ∷ cs) =
    if c == 45
    then unsigned_value true cs
    else if c == 43
    then unsigned_value false cs
    else unsigned_value false (c ∷ cs)

-- `parse_long_value`, with `strtol` in base 10: spaces, a sign and digits, up to the end.
unfoldable pub parse_long_value : Text → Option ℤ
parse_long_value text = signed_value (span is_space text).1

unfoldable pub is_end : Text → Bool
is_end [] = true
is_end (c ∷ s) = false

-- `parse_double_value`
unfoldable pub parse_double_value : (doubles : Doubles) → Text → Option (doubles.Double)
parse_double_value doubles text =
    if is_end text || doubles.strtod_failed text || not (is_end (doubles.strtod_end text))
    then none
    else some (doubles.strtod text)

-- `parse_boolean_value`
unfoldable pub parse_boolean_value : Text → Option Bool
parse_boolean_value text =
    if ieq text (bytes "true") || text_eq text (bytes "1")
    then some true
    else if ieq text (bytes "false") || text_eq text (bytes "0")
    then some false
    else none

unfoldable pub compare_longs : ℤ → ℤ → Ordering
compare_longs a b = ordering_of (ltz a b) (ltz b a)

unfoldable pub compare_bools : Bool → Bool → Ordering
compare_bools a b = ordering_of (not a && b) (a && not b)

unfoldable pub compare_doubles : (doubles : Doubles) → doubles.Double → doubles.Double → Ordering
compare_doubles doubles a b = ordering_of (doubles.greater b a) (doubles.greater a b)

-- Two values that both must be there.
unfoldable pub compare_both :
    {A : Type 0} → (A → A → Ordering) → Option A → Option A → Option Ordering
compare_both cmp none b = none
compare_both cmp (some a) none = none
compare_both cmp (some a) (some b) = some (cmp a b)

unfoldable pub is_eq : Ordering → Bool
is_eq Ordering.eq = true
is_eq _ = false

unfoldable pub is_gt : Ordering → Bool
is_gt Ordering.gt = true
is_gt _ = false

unfoldable pub is_lt : Ordering → Bool
is_lt Ordering.lt = true
is_lt _ = false

-- `compare_ordering_result`
unfoldable pub compare_ordering_result : Ordering → Text → Option Bool
compare_ordering_result cmp op =
    if text_eq op (bytes "=")
    then some (is_eq cmp)
    else if text_eq op (bytes "!=")
    then some (not (is_eq cmp))
    else if text_eq op (bytes ">")
    then some (is_gt cmp)
    else if text_eq op (bytes "<")
    then some (is_lt cmp)
    else if text_eq op (bytes ">=")
    then some (not (is_lt cmp))
    else if text_eq op (bytes "<=")
    then some (not (is_gt cmp))
    else none

-- The same, where a value may be missing.
unfoldable pub result_of : Option Ordering → Text → Option Bool
result_of none op = none
result_of (some cmp) op = compare_ordering_result cmp op

-- The loop of `like_match` over the text, with what the rest of the pattern matches.
unfoldable pub any_suffix : (Text → Bool) → Text → Bool
any_suffix f [] = f []
any_suffix f (c ∷ text) = let rest = any_suffix f text in f (c ∷ text) || rest

-- A round of `like_match` for a character that is not `%`.
abbrev pub like_char : ℕ → (Text → Bool) → Text → Bool
like_char p rest [] = false
like_char p rest (d ∷ text) = (p == 95 || d == p) && rest text

-- `like_match`, by recursion on the pattern; of several `%` in a row the last one counts.
unfoldable pub like_pattern : Text → Text → Bool
like_pattern [] text = is_end text
like_pattern (c ∷ pattern) text =
    let rest = like_pattern pattern in
    if c == 37
    then (if starts 37 pattern then rest text else is_end pattern || any_suffix rest text)
    else like_char c rest text

unfoldable pub like_match : Text → Text → Bool
like_match text pattern = like_pattern pattern text

-- `compare_value_by_type`
unfoldable pub compare_value_by_type : Doubles → ColumnType → Text → Text → Text → Option Bool
compare_value_by_type doubles int_type left op right =
    result_of (compare_both compare_longs (parse_long_value left) (parse_long_value right)) op
compare_value_by_type doubles float_type left op right =
    result_of
      (compare_both (compare_doubles doubles) (parse_double_value doubles left)
        (parse_double_value doubles right))
      op
compare_value_by_type doubles boolean_type left op right =
    result_of (compare_both compare_bools (parse_boolean_value left) (parse_boolean_value right)) op
compare_value_by_type doubles date_type left op right =
    compare_ordering_result (strcmp left right) op
compare_value_by_type doubles varchar_type left op right =
    if text_eq op (bytes "LIKE")
    then some (like_match left right)
    else compare_ordering_result (strcmp left right) op
compare_value_by_type doubles datetime_type left op right =
    if text_eq op (bytes "=") || text_eq op (bytes "!=")
    then compare_ordering_result (strcmp left right) op
    else none

-- `is_supported_operator`
unfoldable pub is_supported_operator : Text → Bool
is_supported_operator op =
    text_eq op (bytes "=")
    || text_eq op (bytes "!=")
    || text_eq op (bytes ">")
    || text_eq op (bytes "<")
    || text_eq op (bytes ">=")
    || text_eq op (bytes "<=")
    || text_eq op (bytes "LIKE")

-- `is_supported_operator_for_type`
unfoldable pub is_supported_operator_for_type : ColumnType → Text → Bool
is_supported_operator_for_type int_type op = not (text_eq op (bytes "LIKE"))
is_supported_operator_for_type float_type op = not (text_eq op (bytes "LIKE"))
is_supported_operator_for_type boolean_type op = not (text_eq op (bytes "LIKE"))
is_supported_operator_for_type date_type op = not (text_eq op (bytes "LIKE"))
is_supported_operator_for_type varchar_type op = true
is_supported_operator_for_type datetime_type op = text_eq op (bytes "=") || text_eq op (bytes "!=")

abbrev pub is_some : {A : Type 0} → Option A → Bool
is_some none = false
is_some (some a) = true

-- `validate_literal_for_type`
unfoldable pub validate_literal_for_type : Doubles → ColumnType → Text → Bool
validate_literal_for_type doubles int_type value = is_some (parse_long_value value)
validate_literal_for_type doubles float_type value = is_some (parse_double_value doubles value)
validate_literal_for_type doubles boolean_type value = is_some (parse_boolean_value value)
validate_literal_for_type doubles date_type value = true
validate_literal_for_type doubles varchar_type value = true
validate_literal_for_type doubles datetime_type value = true

-- `(text[i] - '0') * 10 + (text[i + 1] - '0')`
abbrev pub two_digits : ℕ → ℕ → ℕ
two_digits a b = (a - 48) * 10 + (b - 48)

-- `validate_date_text`: ten characters, digits but for the two dashes, and the two ranges.
unfoldable pub validate_date_text : Text → Bool
validate_date_text (y1 ∷ y2 ∷ y3 ∷ y4 ∷ dash1 ∷ m1 ∷ m2 ∷ dash2 ∷ d1 ∷ d2 ∷ []) =
    is_digit y1
    && is_digit y2
    && is_digit y3
    && is_digit y4
    && dash1 == 45
    && is_digit m1
    && is_digit m2
    && dash2 == 45
    && is_digit d1
    && is_digit d2
    && leb 1 (two_digits m1 m2)
    && leb (two_digits m1 m2) 12
    && leb 1 (two_digits d1 d2)
    && leb (two_digits d1 d2) 31
validate_date_text _ = false

-- `validate_update_value_for_type`
unfoldable pub validate_update_value_for_type : Doubles → ColumnType → Text → Bool
validate_update_value_for_type doubles int_type value = is_some (parse_long_value value)
validate_update_value_for_type doubles float_type value = is_some (parse_double_value doubles value)
validate_update_value_for_type doubles boolean_type value = is_some (parse_boolean_value value)
validate_update_value_for_type doubles date_type value = validate_date_text value
validate_update_value_for_type doubles varchar_type value = true
validate_update_value_for_type doubles datetime_type value = true
