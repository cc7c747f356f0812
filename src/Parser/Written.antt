-- ===== src/Parser/Written.antt =====
-- src/parser.c: `tokenize` reads back what is written as SQL.
use jungle_w8_minisql_server.Prelude.{
  ℕ, ◌≡◌, refl, ap, ◌∙◌, inl, inr, ◌≢◌, Bool, true, false, not, ◌&&◌, ◌||◌, some, List, [], ◌∷◌,
  ◌++◌, map, Text, arith, ◌==◌, Bool-cases,
}
use jungle_w8_minisql_server.Parser.Tokens.{
  is_space, is_alnum, is_word, is_quote, is_punct, is_comparison, span, starts, token_round, push,
  tokenize, tokenize_from,
}
use jungle_w8_minisql_server.Parser.Lexing.{tokenize_cons}

-- A token as SQL text: in quotes, as a word, as one character, or as a comparison of two.
pub data Written : Type 0 where
  quoted : (quote : ℕ) → Text → Written
  word : ℕ → Text → Written
  symbol : ℕ → Written
  pair : ℕ → Written

abbrev pub All : (ℕ → Bool) → Text → Type 0
All test [] = Unit
All test (c ∷ t) = (test c ≡ true) × All test t

-- A quoted text does not hold its quote, and a word does not start a comment.
abbrev pub IsWritten : Written → Type 0
IsWritten (quoted q t) = (is_quote q ≡ true) × All (λ d. not (d == q)) t
IsWritten (word c t) = (is_word c ≡ true) × All is_word t × ((c == 45 && starts 45 t) ≡ false)
IsWritten (symbol c) = (is_punct c || c == 61 || is_comparison c) ≡ true
IsWritten (pair c) = is_comparison c ≡ true

abbrev pub AllWritten : List Written → Type 0
AllWritten [] = Unit
AllWritten (w ∷ ws) = IsWritten w × AllWritten ws

unfoldable pub token_of : Written → Text
token_of (quoted q t) = t
token_of (word c t) = c ∷ t
token_of (symbol c) = c ∷ []
token_of (pair c) = c ∷ 61 ∷ []

-- The text of a token before what follows, with a blank between.
unfoldable pub text_before : Written → Text → Text
text_before (quoted q t) p = q ∷ t ++ (q ∷ 32 ∷ p)
text_before (word c t) p = c ∷ t ++ (32 ∷ p)
text_before (symbol c) p = c ∷ 32 ∷ p
text_before (pair c) p = c ∷ 61 ∷ 32 ∷ p

unfoldable pub text_of : List Written → Text
text_of [] = []
text_of (w ∷ ws) = text_before w (text_of ws)

span-All :
    (test : ℕ → Bool) (t : Text) (d : ℕ) (p : Text)
    → All test t
    → test d ≡ false
    → span test (t ++ (d ∷ p)) ≡ (t, d ∷ p)
unfolding span
span-All test [] d p h e = rw e
span-All test (c ∷ t) d p h e = rw (h.0, span-All test t d p h.1 e)

tokenize_blank : (p : Text) → tokenize (32 ∷ p) ≡ tokenize p
unfolding token_round is_space push
tokenize_blank p = tokenize_cons 32 p

starts_self : (q : ℕ) (p : Text) → starts q (q ∷ p) ≡ true
unfolding starts
starts_self q p = ground arith

quote_plain :
    (c : ℕ) (u : Text)
    → is_quote c ≡ true
    → (is_space c ≡ false) × ((c == 45 && starts 45 u) ≡ false)
unfolding is_quote is_space
quote_plain c u h = (ground arith, ground arith)

round_quoted :
    (q : ℕ) (t p : Text)
    → is_quote q ≡ true
    → All (λ d. not (d == q)) t
    → token_round q (t ++ (q ∷ 32 ∷ p)) ≡ (some t, 32 ∷ p)
unfolding token_round
round_quoted q t p h a =
    let s : span (λ d. not (d == q)) (t ++ (q ∷ 32 ∷ p)) ≡ (t, q ∷ 32 ∷ p) =
      span-All (λ d. not (d == q)) t q (32 ∷ p) a (ground arith) in
    rw
      (
        (quote_plain q (t ++ (q ∷ 32 ∷ p)) h).0,
        (quote_plain q (t ++ (q ∷ 32 ∷ p)) h).1,
        h,
        s,
        starts_self q (32 ∷ p),
      )
      refl

starts-append :
    (d c : ℕ) (t p : Text) → starts d t ≡ false → d ≢ c → starts d (t ++ (c ∷ p)) ≡ false
unfolding starts
starts-append d c [] p h n = ground arith
starts-append d c (x ∷ t) p h n = h

blank : is_word 32 ≡ false
unfolding is_word is_alnum
blank = refl

word_plain :
    (c : ℕ)
    → is_word c ≡ true
    → (is_space c ≡ false)
      × (is_quote c ≡ false)
      × ((is_punct c || c == 61) ≡ false)
      × (is_comparison c ≡ false)
unfolding is_word is_alnum is_space is_quote is_punct is_comparison
word_plain c h = (ground arith, ground arith, ground arith, ground arith)

no_comment :
    (c : ℕ) (t p : Text)
    → (c == 45 && starts 45 t) ≡ false
    → (c == 45 && starts 45 (t ++ (32 ∷ p))) ≡ false
no_comment c t p h = elim (Bool-cases (starts 45 t)) [
  | inl e ↦ ground (arith, e, h)
  | inr e ↦ ground (arith, starts-append 45 32 t p e (λ q. omega arith))
]

round_word :
    (c : ℕ) (t p : Text)
    → IsWritten (word c t)
    → token_round c (t ++ (32 ∷ p)) ≡ (some (c ∷ t), 32 ∷ p)
unfolding token_round
round_word c t p h =
    let s : span is_word (t ++ (32 ∷ p)) ≡ (t, 32 ∷ p) = span-All is_word t 32 p h.1 blank in
    let (a, b, d, e) = word_plain c h.0 in rw (a, no_comment c t p h.2, b, d, e, h.0, s) refl

round_symbol :
    (c : ℕ) (p : Text) → IsWritten (symbol c) → token_round c (32 ∷ p) ≡ (some (c ∷ []), 32 ∷ p)
unfolding token_round is_space is_quote is_punct is_comparison starts
round_symbol c p h = ground arith

round_pair :
    (c : ℕ) (p : Text)
    → IsWritten (pair c)
    → token_round c (61 ∷ 32 ∷ p) ≡ (some (c ∷ 61 ∷ []), 32 ∷ p)
unfolding token_round is_space is_quote is_punct is_comparison starts
round_pair c p h = ground arith

read_first :
    (w : Written) (p : Text) → IsWritten w → tokenize (text_before w p) ≡ token_of w ∷ tokenize p
unfolding text_before token_of push
read_first (quoted q t) p h =
    tokenize_cons q _ ∙ rw (round_quoted q t p h.0 h.1) (ap (λ u. t ∷ u) (tokenize_blank p))
read_first (word c t) p h =
    tokenize_cons c _ ∙ rw (round_word c t p h) (ap (λ u. (c ∷ t) ∷ u) (tokenize_blank p))
read_first (symbol c) p h =
    tokenize_cons c _ ∙ rw (round_symbol c p h) (ap (λ u. (c ∷ []) ∷ u) (tokenize_blank p))
read_first (pair c) p h =
    tokenize_cons c _ ∙ rw (round_pair c p h) (ap (λ u. (c ∷ 61 ∷ []) ∷ u) (tokenize_blank p))

-- Tokens written as SQL, each in quotes it does not hold, as a word that starts no comment, as a
-- punctuation character or as a comparison, with a blank after each, are read back as they are.
pub tokenize-text_of : (ws : List Written) → AllWritten ws → tokenize (text_of ws) ≡ map token_of ws
unfolding text_of tokenize tokenize_from
tokenize-text_of [] h = refl
tokenize-text_of (w ∷ ws) h =
    read_first w (text_of ws) h.0 ∙ ap (λ u. token_of w ∷ u) (tokenize-text_of ws h.1)
