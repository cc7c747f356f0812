-- ===== src/Executor/Between.antt =====
-- src/executor.c: the bounds of a range are in order and fit an `int`.
use jungle_w8_minisql_server.Prelude.{
  ◌≡◌, refl, subst, inl, inr, ◌≢◌, true, false, Option, none, some, Text, arith, if◌then◌else◌,
  Bool-cases, if_cases, ℤ, ltz, lez,
}
use mathlib.Core.Option.{some_inj}
use jungle_w8_minisql_server.Parser.Syntax.{WhereClause}
use jungle_w8_minisql_server.Storage.Values.{parse_long_value}
use jungle_w8_minisql_server.Storage.Where.{strip_optional_quotes}
use jungle_w8_minisql_server.Executor.Bounds.{
  trim_whitespace, in_int, checked_int, parse_int_literal, in_order, parse_between_bounds,
}

checked_int-fits : (o : Option ℤ) (n : ℤ) → checked_int o ≡ some n → in_int n ≡ true
checked_int-fits none n h = absurd (ground arith)
checked_int-fits (some m) n h = elim (Bool-cases (in_int m)) [
  | inl e ↦
      subst (λ x. in_int x ≡ true)
        (some_inj.0 (subst (λ b. (if b then some m else none) ≡ some n) e h)) e
  | inr e ↦ absurd (no_value m n (subst (λ b. (if b then some m else none) ≡ some n) e h))
]
  where
    no_value : (x y : ℤ) → none ≢ some y
    no_value x y q = ground arith

parse_int_literal-fits : (t : Text) (n : ℤ) → parse_int_literal t ≡ some n → in_int n ≡ true
unfolding parse_int_literal
parse_int_literal-fits t n h =
    checked_int-fits (parse_long_value (trim_whitespace (strip_optional_quotes 256 t))) n h

-- What holds of a pair of bounds.
abbrev AreBounds : ℤ × ℤ → Type 0
AreBounds b = (lez b.0 b.1 ≡ true) × (in_int b.0 ≡ true) × (in_int b.1 ≡ true)

in_order-AreBounds :
    (a b : Option ℤ) (p : ℤ × ℤ)
    → ((n : ℤ) → a ≡ some n → in_int n ≡ true)
    → ((n : ℤ) → b ≡ some n → in_int n ≡ true)
    → in_order a b ≡ some p
    → AreBounds p
in_order-AreBounds none b p f g h = absurd (ground arith)
in_order-AreBounds (some x) none p f g h = absurd (ground arith)
in_order-AreBounds (some x) (some y) p f g h = subst AreBounds (some_inj.0 h) (
    if_cases AreBounds (ltz y x) (y, x) (x, y) (λ e. (le_of_lt y x e, g y refl, f x refl))
      (λ e. (le_of_not_lt y x e, f x refl, g y refl)))
  where
    le_of_lt : (m n : ℤ) → ltz m n ≡ true → lez m n ≡ true
    le_of_lt m n e = ground arith

    le_of_not_lt : (m n : ℤ) → ltz m n ≡ false → lez n m ≡ true
    le_of_not_lt m n e = ground arith

-- The bounds that are read from a BETWEEN are in order, whichever stands first, and both fit an
-- `int`.
pub parse_between_bounds-lez :
    (w : WhereClause) (from to : ℤ)
    → parse_between_bounds w ≡ some (from, to)
    → (lez from to ≡ true) × (in_int from ≡ true) × (in_int to ≡ true)
unfolding parse_between_bounds
parse_between_bounds-lez w from to h =
    in_order-AreBounds (parse_int_literal w.value) (parse_int_literal w.value_to) (from, to)
      (parse_int_literal-fits w.value) (parse_int_literal-fits w.value_to) h
