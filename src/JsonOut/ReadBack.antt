-- ===== src/JsonOut/ReadBack.antt =====
-- src/json_out.c: a reader of JSON strings and arrays gets back what was printed.
use jungle_w8_minisql_server.Prelude.{
  Bool, true, ◌&&◌, ltb, leb, ℕ, zero, suc, ◌≤◌, ◌≡◌, refl, ap, ◌∙◌, inl, inr, false, ◌||◌, Option,
  none, some, List, [], ◌∷◌, ◌++◌, length, Text, arith, ◌==◌, if◌then◌else◌, Bool-cases,
}
use jungle_w8_minisql_server.JsonOut.Strings.{escape, emit_str, emit_rest, emit_str_array}

abbrev cons_char : ℕ → Option (Text × Text) → Option (Text × Text)
cons_char c none = none
cons_char c (some (s, p)) = some (c ∷ s, p)

-- The character that JSON writes as a backslash and this one. The form with four hexadecimal digits
-- is left out.
unfoldable pub unescape : ℕ → Option ℕ
unescape c =
    if c == 34 || c == 92 || c == 47
    then some c
    else if c == 98
    then some 8
    else if c == 102
    then some 12
    else if c == 110
    then some 10
    else if c == 114
    then some 13
    else if c == 116
    then some 9
    else none

abbrev cons_escape : Option ℕ → Option (Text × Text) → Option (Text × Text)
cons_escape none r = none
cons_escape (some c) r = cons_char c r

-- A string of JSON after its first quote, up to the first quote without a backslash: no control
-- character may stand in it, and a backslash only before a character that JSON escapes.
unfoldable pub read_chars : Text → Option (Text × Text)
read_chars [] = none
read_chars (c ∷ []) = if c == 34 then some ([], []) else none
read_chars (c ∷ d ∷ p) =
    let escaped = read_chars p in
    let plain = read_chars (d ∷ p) in
    if c == 34
    then some ([], d ∷ p)
    else if c == 92
    then cons_escape (unescape d) escaped
    else if ltb c 32
    then none
    else cons_char c plain

-- A string with both its quotes.
unfoldable pub read_str : Text → Option (Text × Text)
read_str [] = none
read_str (c ∷ p) = if c == 34 then read_chars p else none

-- A text without control characters.
unfoldable pub is_visible : Text → Bool
is_visible [] = true
is_visible (c ∷ s) = leb 32 c && is_visible s

unfoldable pub all_visible : List Text → Bool
all_visible [] = true
all_visible (s ∷ ss) = is_visible s && all_visible ss

unescape_special : (c : ℕ) → (c == 34 || c == 92) ≡ true → unescape c ≡ some c
unfolding unescape
unescape_special c h = ground arith

not_control : (c : ℕ) → leb 32 c ≡ true → ltb c 32 ≡ false
not_control c h = ground arith

of_first : (a b : Bool) → (a && b) ≡ true → a ≡ true
of_first a b h = ground arith

of_rest : (a b : Bool) → (a && b) ≡ true → b ≡ true
of_rest a b h = ground arith

read_escaped :
    (c : ℕ) (p : Text)
    → (c == 34 || c == 92) ≡ true
    → read_chars (92 ∷ c ∷ p) ≡ cons_char c (read_chars p)
unfolding read_chars
read_escaped c p h = rw (unescape_special c h) refl

read_plain :
    (c : ℕ) (p : Text)
    → (c == 34) ≡ false
    → (c == 92) ≡ false
    → leb 32 c ≡ true
    → read_chars (c ∷ p) ≡ cons_char c (read_chars p)
unfolding read_chars
read_plain c [] h k v = rw h refl
read_plain c (d ∷ p) h k v = rw (h, k, not_control c v) refl

read_end : (p : Text) → read_chars (34 ∷ p) ≡ some ([], p)
unfolding read_chars
read_end [] = refl
read_end (d ∷ p) = refl

read_chars-escape :
    (s p : Text) → is_visible s ≡ true → read_chars (escape s ++ (34 ∷ p)) ≡ some (s, p)
unfolding escape is_visible
read_chars-escape [] p v = read_end p
read_chars-escape (c ∷ s) p v =
    let later = read_chars-escape s p (of_rest (leb 32 c) (is_visible s) v) in
    elim (Bool-cases (c == 34 || c == 92)) [
      | inl special ↦
          rw special (read_escaped c (escape s ++ (34 ∷ p)) special ∙ ap (cons_char c) later)
      | inr plain ↦ rw plain (
          read_plain c (escape s ++ (34 ∷ p)) (ground arith) (ground arith)
            (of_first (leb 32 c) (is_visible s) v)
          ∙ ap (cons_char c) later)
    ]

read_str-emit_str :
    (s p : Text) → is_visible s ≡ true → read_str (emit_str (some s) p) ≡ some (s, p)
unfolding read_str emit_str
read_str-emit_str s p v = read_chars-escape s p v

abbrev cons_str : Text → Option (List Text × Text) → Option (List Text × Text)
cons_str s none = none
cons_str s (some (ss, p)) = some (s ∷ ss, p)

-- The strings of an array after its first one, as many as the fuel at most.
unfoldable pub read_rest : ℕ → Text → Option (List Text × Text)
read_rest fuel [] = none
read_rest zero (c ∷ p) = if c == 93 then some ([], p) else none
read_rest (suc fuel) (c ∷ p) =
    if c == 93
    then some ([], p)
    else if c == 44
    then elim (read_str p) [ none ↦ none | some (s, q) ↦ cons_str s (read_rest fuel q) ]
    else none

-- An array of strings.
unfoldable pub read_array : ℕ → Text → Option (List Text × Text)
read_array fuel [] = none
read_array fuel (c ∷ []) = none
read_array fuel (c ∷ d ∷ p) =
    if c == 91
    then (if d == 93
        then some ([], p)
        else elim (read_str (d ∷ p)) [ none ↦ none | some (s, q) ↦ cons_str s (read_rest fuel q) ])
    else none

read_rest-emit_rest :
    (fuel : ℕ) (ss : List Text) (p : Text)
    → length ss ≤ fuel
    → all_visible ss ≡ true
    → read_rest fuel (emit_rest ss p) ≡ some (ss, p)
unfolding read_rest emit_rest all_visible
read_rest-emit_rest zero [] p h v = refl
read_rest-emit_rest (suc fuel) [] p h v = refl
read_rest-emit_rest zero (s ∷ ss) p h v = absurd (omega arith)
read_rest-emit_rest (suc fuel) (s ∷ ss) p h v =
    ap
      (λ (r : Option (Text × Text)). elim r [
        | none ↦ none
        | some (t, q) ↦ cons_str t (read_rest fuel q)
      ])
      (read_str-emit_str s (emit_rest ss p) (of_first (is_visible s) (all_visible ss) v))
    ∙ ap (cons_str s)
        (read_rest-emit_rest fuel ss p (omega arith) (of_rest (is_visible s) (all_visible ss) v))

-- A reader of JSON strings, which refuses control characters and unknown escapes, reads back from
-- a printed array the strings that were printed and stops where what follows begins, where no
-- string has a control character.
pub read_array-emit_str_array :
    (ss : List Text) (p : Text)
    → all_visible ss ≡ true
    → read_array (length ss) (emit_str_array ss p) ≡ some (ss, p)
unfolding read_array emit_str_array emit_str all_visible
read_array-emit_str_array [] p v = refl
read_array-emit_str_array (s ∷ ss) p v =
    ap
      (λ (r : Option (Text × Text)). elim r [
        | none ↦ none
        | some (t, q) ↦ cons_str t (read_rest (suc (length ss)) q)
      ])
      (read_str-emit_str s (emit_rest ss p) (of_first (is_visible s) (all_visible ss) v))
    ∙ ap (cons_str s) (
        read_rest-emit_rest (suc (length ss)) ss p (omega arith)
          (of_rest (is_visible s) (all_visible ss) v))
