-- ===== src/Router/Query.antt =====
-- src/router.c: the query string of a request, and the checks and escapes of its values.
use jungle_w8_minisql_server.Prelude.{
  ℕ, zero, suc, ◌+◌, ◌-◌, ◌*◌, Bool, true, false, not, ◌&&◌, ◌||◌, Option, none, some, [], ◌∷◌,
  length, take, drop, Text, bytes, text_eq, leb, ◌==◌, if◌then◌else◌,
}
use jungle_w8_minisql_server.Parser.Tokens.{span}

-- `from_hex`; -1 is `none`.
unfoldable pub from_hex : ℕ → Option ℕ
from_hex c =
    if leb 48 c && leb c 57
    then some (c - 48)
    else if leb 97 c && leb c 102
    then some (c - 97 + 10)
    else if leb 65 c && leb c 70
    then some (c - 65 + 10)
    else none

-- A character that is not decoded.
unfoldable pub plain_char : ℕ → ℕ
plain_char c = if c == 43 then 32 else c

abbrev pub hex_pair : Option ℕ → Option ℕ → Option ℕ
hex_pair none lo = none
hex_pair (some hi) none = none
hex_pair (some hi) (some lo) = some (hi * 16 + lo)

-- The byte that a round of `url_decode` writes, and where `src` then points.
unfoldable pub decode_round : ℕ → Text → ℕ × Text
decode_round c [] = (plain_char c, [])
decode_round c (h ∷ []) = (plain_char c, h ∷ [])
decode_round c (h ∷ l ∷ src) = elim (if c == 37 then hex_pair (from_hex h) (from_hex l) else none) [
  | none ↦ (plain_char c, h ∷ l ∷ src)
  | some byte ↦ (byte, src)
]

-- The loop of `url_decode`, while the output has room.
unfoldable pub decode_from : ℕ → Text → Text
decode_from zero src = []
decode_from (suc room) [] = []
decode_from (suc room) (c ∷ src) = let r = decode_round c src in r.0 ∷ decode_from room r.1

-- `url_decode`: the bytes that it writes into an output of this size, before the NUL.
unfoldable pub url_decode : ℕ → Text → Text
url_decode size src = decode_from (size - 1) src

-- `p + len`, up to the next `&`.
unfoldable pub pair_of : Text → Text × Text
pair_of query = span (λ c. not (c == 38)) query

unfoldable pub after_key : Text → Text → Option Text
after_key [] [] = none
after_key [] (c ∷ pair) = if c == 61 then some pair else none
after_key (k ∷ key) [] = none
after_key (k ∷ key) (c ∷ pair) = if k == c then after_key key pair else none

-- What a C string that is written with these bytes holds: it ends at the first NUL, such as %00
-- leaves.
unfoldable pub before_nul : Text → Text
before_nul text = (span (λ c. not (c == 0)) text).0

-- The loop of `query_param`, on fuel.
unfoldable pub param_from : ℕ → Text → Text → ℕ → Option Text
param_from zero query key size = none
param_from (suc fuel) [] key size = none
param_from (suc fuel) (q ∷ query) key size =
    let pair = pair_of (q ∷ query) in
    let later = param_from fuel (drop 1 pair.1) key size in
    elim (after_key key pair.0) [
      | none ↦ later
      | some encoded ↦ some (before_nul (url_decode size (take 1023 encoded)))
    ]

-- `query_param`
unfoldable pub query_param : Text → Text → ℕ → Option Text
query_param query key size = param_from (length query) query key size

-- The loop of `query_has_single_mode`, on fuel.
unfoldable pub single_from : ℕ → Text → Bool
single_from zero query = false
single_from (suc fuel) [] = false
single_from (suc fuel) (q ∷ query) =
    let pair = pair_of (q ∷ query) in
    let later = single_from fuel (drop 1 pair.1) in text_eq pair.0 (bytes "mode=single") || later

unfoldable pub query_has_single_mode : Text → Bool
query_has_single_mode query = single_from (length query) query

-- The loop of `sql_escape_literal`, with the room that is left.
unfoldable pub escape_from : ℕ → Text → Option Text
escape_from room [] = some []
escape_from room (c ∷ src) =
    if c == 39
    then (if leb room 2
        then none
        else elim (escape_from (room - 2) src) [ none ↦ none | some out ↦ some (39 ∷ 39 ∷ out) ])
    else (if leb room 1
        then none
        else elim (escape_from (room - 1) src) [ none ↦ none | some out ↦ some (c ∷ out) ])

-- `sql_escape_literal`
unfoldable pub sql_escape_literal : ℕ → Text → Option Text
sql_escape_literal size src = if size == 0 then none else escape_from size src

unfoldable pub all_between : ℕ → ℕ → Text → Bool
all_between low high [] = true
all_between low high (c ∷ text) = leb low c && leb c high && all_between low high text

-- `is_positive_int_text`
unfoldable pub is_positive_int_text : Text → Bool
is_positive_int_text [] = false
is_positive_int_text (c ∷ text) = all_between 48 57 (c ∷ text)

-- `is_ascii_lowercase_word`
unfoldable pub is_ascii_lowercase_word : Text → Bool
is_ascii_lowercase_word [] = false
is_ascii_lowercase_word (c ∷ text) = all_between 97 122 (c ∷ text)
