-- ===== src/Parser/Tokens.antt =====
-- src/parser.c: the tokenizer and the comparison of words.
use jungle_w8_minisql_server.Prelude.{
  ℕ, zero, suc, ◌+◌, Bool, true, false, not, ◌&&◌, ◌||◌, Option, none, some, List, [], ◌∷◌, length,
  drop, Text, leb, ◌==◌, if◌then◌else◌,
}

-- `isspace` and `isalnum` of the C locale.
unfoldable pub is_space : ℕ → Bool
is_space c = c == 32 || (leb 9 c && leb c 13)

unfoldable pub is_alnum : ℕ → Bool
is_alnum c = (leb 48 c && leb c 57) || (leb 65 c && leb c 90) || (leb 97 c && leb c 122)

-- The characters of identifiers, keywords and numbers: also `_`, `.` and `-`.
unfoldable pub is_word : ℕ → Bool
is_word c = is_alnum c || c == 95 || c == 46 || c == 45

-- `'` and `"`
unfoldable pub is_quote : ℕ → Bool
is_quote c = c == 39 || c == 34

-- `,` `(` `)` `;` `*`
unfoldable pub is_punct : ℕ → Bool
is_punct c = c == 44 || c == 40 || c == 41 || c == 59 || c == 42

-- `>` `<` `!`
unfoldable pub is_comparison : ℕ → Bool
is_comparison c = c == 62 || c == 60 || c == 33

-- The loops `while (*p && test(*p)) p++`: what is passed over, and where `p` then points.
unfoldable pub span : (ℕ → Bool) → Text → Text × Text
span test [] = ([], [])
span test (c ∷ p) = let rest = span test p in if test c then (c ∷ rest.0, rest.1) else ([], c ∷ p)

-- Whether the text starts with this character.
unfoldable pub starts : ℕ → Text → Bool
starts q [] = false
starts q (c ∷ p) = c == q

-- One round of the loop of `tokenize`, at a character and what follows it: the token that is
-- pushed, if any, and where `p` then points.
unfoldable pub token_round : ℕ → Text → Option Text × Text
token_round c p =
    if is_space c
    then (none, p)
    else if c == 45 && starts 45 p
    then (none, (span (λ d. not (d == 10)) p).1)
    else if is_quote c
    then (let s = span (λ d. not (d == c)) p in
        (some s.0, if starts c s.1 then drop 1 s.1 else s.1))
    else if is_punct c || c == 61
    then (some (c ∷ []), p)
    else if is_comparison c
    then (if starts 61 p then (some (c ∷ 61 ∷ []), drop 1 p) else (some (c ∷ []), p))
    else if is_word c
    then (some (c ∷ (span is_word p).0), (span is_word p).1)
    else (none, p)

unfoldable pub push : Option Text → List Text → List Text
push none ts = ts
push (some t) ts = t ∷ ts

-- The loop of `tokenize`, on fuel.
unfoldable pub tokenize_from : ℕ → Text → List Text
tokenize_from zero p = []
tokenize_from (suc fuel) [] = []
tokenize_from (suc fuel) (c ∷ p) =
    let r = token_round c p in let rest = tokenize_from fuel r.1 in push r.0 rest

unfoldable pub tokenize : Text → List Text
tokenize input = tokenize_from (length input) input

unfoldable pub to_lower : ℕ → ℕ
to_lower c = if leb 65 c && leb c 90 then c + 32 else c

-- `ieq` of two words.
unfoldable pub ieq : Text → Text → Bool
ieq [] [] = true
ieq [] (b ∷ bs) = false
ieq (a ∷ as') [] = false
ieq (a ∷ as') (b ∷ bs) = to_lower a == to_lower b && ieq as' bs
