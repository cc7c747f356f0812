-- ===== src/Storage/Like.antt =====
-- src/storage.c: `like_match` decides what LIKE means.
use jungle_w8_minisql_server.Prelude.{
  ℕ, ◌≡◌, refl, sym, subst, ◌∙◌, inl, inr, ◌↔◌, Bool, true, false, ◌&&◌, ◌||◌, [], ◌∷◌, Text, arith,
  ◌==◌, if◌then◌else◌, Bool-cases, if_both,
}
use jungle_w8_minisql_server.Parser.Tokens.{starts}
use jungle_w8_minisql_server.Storage.Values.{
  is_end, any_suffix, like_char, like_pattern, like_match,
}

-- What a pattern stands for: `%` for any text, `_` for any character, any other character for
-- itself.
pub data Matches : Text → Text → Type 0 where
  done : Matches [] []
  percent_none : {c : ℕ} {p t : Text} → (c == 37) ≡ true → Matches p t → Matches (c ∷ p) t
  percent_one :
      {c d : ℕ} {p t : Text} → (c == 37) ≡ true → Matches (c ∷ p) t → Matches (c ∷ p) (d ∷ t)
  one :
      {c d : ℕ} {p t : Text}
      → (c == 37) ≡ false
      → (c == 95 || d == c) ≡ true
      → Matches p t
      → Matches (c ∷ p) (d ∷ t)

or_true : (b : Bool) → (b || true) ≡ true
or_true true = refl
or_true false = refl

and_left : (a b : Bool) → (a && b) ≡ true → a ≡ true
and_left a b h = ground arith

and_right : (a b : Bool) → (a && b) ≡ true → b ≡ true
and_right a b h = ground arith

any_suffix_here : (f : Text → Bool) (t : Text) → f t ≡ true → any_suffix f t ≡ true
unfolding any_suffix
any_suffix_here f [] h = h
any_suffix_here f (c ∷ t) h = rw h refl

any_suffix_later :
    (f : Text → Bool) (d : ℕ) (t : Text) → any_suffix f t ≡ true → any_suffix f (d ∷ t) ≡ true
unfolding any_suffix
any_suffix_later f d t h = rw h (or_true (f (d ∷ t)))

-- `%` before a text that it may pass over.
Matches-of_any_suffix :
    (c : ℕ) (p t : Text)
    → (c == 37) ≡ true
    → ((s : Text) → like_pattern p s ≡ true → Matches p s)
    → any_suffix (like_pattern p) t ≡ true
    → Matches (c ∷ p) t
unfolding any_suffix
Matches-of_any_suffix c p [] e ih h = percent_none e (ih [] h)
Matches-of_any_suffix c p (d ∷ t) e ih h = elim (Bool-cases (like_pattern p (d ∷ t))) [
  | inl here ↦ percent_none e (ih (d ∷ t) here)
  | inr not_here ↦ percent_one e (Matches-of_any_suffix c p t e ih (ground (arith, h, not_here)))
]

Matches-last : (c : ℕ) (t : Text) → (c == 37) ≡ true → Matches (c ∷ []) t
Matches-last c [] e = percent_none e done
Matches-last c (d ∷ t) e = percent_one e (Matches-last c t e)

like_pattern_of_percent :
    (c : ℕ) (p t : Text)
    → (c == 37) ≡ true
    → like_pattern (c ∷ p) t
      ≡ (if starts 37 p then like_pattern p t else is_end p || any_suffix (like_pattern p) t)
unfolding like_pattern
like_pattern_of_percent c p t e = rw (e, like_pattern) refl

like_pattern_of_other :
    (c : ℕ) (p t : Text)
    → (c == 37) ≡ false
    → like_pattern (c ∷ p) t ≡ like_char c (like_pattern p) t
unfolding like_pattern
like_pattern_of_other c p t e = rw (e, like_pattern) refl

Matches-of_percent :
    (c : ℕ) (p t : Text)
    → (c == 37) ≡ true
    → ((s : Text) → like_pattern p s ≡ true → Matches p s)
    → (if starts 37 p then like_pattern p t else is_end p || any_suffix (like_pattern p) t) ≡ true
    → Matches (c ∷ p) t
unfolding starts is_end
Matches-of_percent c [] t e ih h = Matches-last c t e
Matches-of_percent c (q ∷ p) t e ih h = elim (Bool-cases (q == 37)) [
  | inl twice ↦ percent_none e (ih t (ground (arith, h, twice)))
  | inr once ↦ Matches-of_any_suffix c (q ∷ p) t e ih (ground (arith, h, once))
]

Matches-of_char :
    (c : ℕ) (p t : Text)
    → (c == 37) ≡ false
    → ((s : Text) → like_pattern p s ≡ true → Matches p s)
    → like_char c (like_pattern p) t ≡ true
    → Matches (c ∷ p) t
Matches-of_char c p [] e ih h = absurd (ground arith)
Matches-of_char c p (d ∷ t) e ih h =
    one e (and_left (c == 95 || d == c) (like_pattern p t) h)
      (ih t (and_right (c == 95 || d == c) (like_pattern p t) h))

Matches-like_pattern : (p t : Text) → like_pattern p t ≡ true → Matches p t
unfolding like_pattern is_end
Matches-like_pattern [] [] h = done
Matches-like_pattern [] (d ∷ t) h = absurd (ground arith)
Matches-like_pattern (c ∷ p) t h = elim (Bool-cases (c == 37)) [
  | inl e ↦
      Matches-of_percent c p t e (λ s. Matches-like_pattern p s)
        (sym (like_pattern_of_percent c p t e) ∙ h)
  | inr e ↦
      Matches-of_char c p t e (λ s. Matches-like_pattern p s)
        (sym (like_pattern_of_other c p t e) ∙ h)
]

-- What a `%` may start with, it may also have one character before.
percent-like_pattern :
    (c d : ℕ) (p t : Text)
    → (c == 37) ≡ true
    → like_pattern (c ∷ p) t ≡ true
    → like_pattern (c ∷ p) (d ∷ t) ≡ true
unfolding starts is_end
percent-like_pattern c d [] t e h = like_pattern_of_percent c [] (d ∷ t) e
percent-like_pattern c d (q ∷ p) t e h = elim (Bool-cases (q == 37)) [
  | inl twice ↦
      (like_pattern_of_percent c (q ∷ p) (d ∷ t) e
        ∙ rw twice (
            percent-like_pattern q d p t twice (
              subst
                (λ b.
                  (if b
                    then like_pattern (q ∷ p) t
                    else is_end (q ∷ p) || any_suffix (like_pattern (q ∷ p)) t)
                  ≡ true)
                twice (sym (like_pattern_of_percent c (q ∷ p) t e) ∙ h))))
  | inr once ↦
      like_pattern_of_percent c (q ∷ p) (d ∷ t) e
      ∙ rw once (
          any_suffix_later (like_pattern (q ∷ p)) d t (
            subst
              (λ b.
                (if b
                  then like_pattern (q ∷ p) t
                  else is_end (q ∷ p) || any_suffix (like_pattern (q ∷ p)) t)
                ≡ true)
              once (sym (like_pattern_of_percent c (q ∷ p) t e) ∙ h)))
]

like_pattern_of_none :
    (c : ℕ) (p t : Text)
    → (c == 37) ≡ true
    → like_pattern p t ≡ true
    → like_pattern (c ∷ p) t ≡ true
like_pattern_of_none c p t e h =
    like_pattern_of_percent c p t e
    ∙ if_both (λ b. b ≡ true) (starts 37 p) (like_pattern p t)
        (is_end p || any_suffix (like_pattern p) t) h
        (rw (any_suffix_here (like_pattern p) t h) (or_true (is_end p)))

like_pattern-Matches : {p t : Text} → Matches p t → like_pattern p t ≡ true
unfolding like_pattern is_end
like_pattern-Matches done = refl
like_pattern-Matches (percent_none {c} {p} {t} e m) =
    like_pattern_of_none c p t e (like_pattern-Matches m)
like_pattern-Matches (percent_one {c} {d} {p} {t} e m) =
    percent-like_pattern c d p t e (like_pattern-Matches m)
like_pattern-Matches (one {c} {d} {p} {t} e f m) =
    like_pattern_of_other c p (d ∷ t) e ∙ rw (f, like_pattern-Matches m) refl

-- LIKE accepts a text exactly when the pattern stands for it: `%` for any text, `_` for any
-- character, and any other character for itself.
pub like_match-Matches :
    (text pattern : Text) → (like_match text pattern ≡ true) ↔ Matches pattern text
unfolding like_match
like_match-Matches text pattern = (Matches-like_pattern pattern text, like_pattern-Matches)
