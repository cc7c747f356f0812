-- ===== src/Parser/Lexing.antt =====
-- src/parser.c: the loop of `tokenize` ends, and what its rounds do.
use jungle_w8_minisql_server.Prelude.{
  ℕ, zero, suc, ◌≤◌, ◌≡◌, refl, ap, Bool, not, ◌&&◌, ◌||◌, Option, none, some, List, [], ◌∷◌,
  length, drop, length-drop, Text, arith, ◌==◌, if◌then◌else◌, if_both,
}
use jungle_w8_minisql_server.Parser.Tokens.{
  is_space, is_word, is_quote, is_punct, is_comparison, span, starts, token_round, push,
  tokenize_from, tokenize,
}

span_shorter : (test : ℕ → Bool) (p : Text) → length (span test p).1 ≤ length p
unfolding span
span_shorter test [] = omega arith
span_shorter test (c ∷ p) = ground (arith, span_shorter test p)

drop_shorter : (p : Text) → length (drop 1 p) ≤ length p
drop_shorter p = omega (arith, length-drop 1 p)

if_drop_shorter : (b : Bool) (p : Text) → length (if b then drop 1 p else p) ≤ length p
if_drop_shorter b p =
    if_both (λ t. length t ≤ length p) b (drop 1 p) p (drop_shorter p) (omega arith)

token_round_shorter : (c : ℕ) (p : Text) → length (token_round c p).1 ≤ length p
unfolding token_round
token_round_shorter c p =
    let P = λ (r : Option Text × Text). length r.1 ≤ length p in
    let s = span (λ d. not (d == c)) p in
    if_both P (is_space c) (none, p) _ (omega arith)
      (if_both P (c == 45 && starts 45 p) (none, (span (λ d. not (d == 10)) p).1) _
        (span_shorter _ p)
        (if_both P (is_quote c) (some s.0, if starts c s.1 then drop 1 s.1 else s.1) _
          (omega (arith, if_drop_shorter (starts c s.1) s.1, span_shorter (λ d. not (d == c)) p))
          (if_both P (is_punct c || c == 61) (some (c ∷ []), p) _ (omega arith)
            (if_both P (is_comparison c)
              (if starts 61 p then (some (c ∷ 61 ∷ []), drop 1 p) else (some (c ∷ []), p)) _
              (if_both P (starts 61 p) (some (c ∷ 61 ∷ []), drop 1 p) (some (c ∷ []), p)
                (drop_shorter p) (omega arith))
              (if_both P (is_word c) (some (c ∷ (span is_word p).0), (span is_word p).1) (none, p)
                (span_shorter is_word p) (omega arith))))))

same_fuel :
    (n m : ℕ) (p : Text) → length p ≤ n → length p ≤ m → tokenize_from n p ≡ tokenize_from m p
unfolding tokenize_from
same_fuel zero zero p hn hm = refl
same_fuel zero (suc m) [] hn hm = refl
same_fuel zero (suc m) (c ∷ p) hn hm = absurd (omega arith)
same_fuel (suc n) zero [] hn hm = refl
same_fuel (suc n) zero (c ∷ p) hn hm = absurd (omega arith)
same_fuel (suc n) (suc m) [] hn hm = refl
same_fuel (suc n) (suc m) (c ∷ p) hn hm = ap (push (token_round c p).0) (
    same_fuel n m (token_round c p).1 (omega (arith, token_round_shorter c p))
      (omega (arith, token_round_shorter c p)))

-- Any fuel from the length of the text on gives the same tokens.
pub tokenize_from-enough :
    (fuel : ℕ) (p : Text) → length p ≤ fuel → tokenize_from fuel p ≡ tokenize p
unfolding tokenize
tokenize_from-enough fuel p enough = same_fuel fuel (length p) p enough (omega arith)

-- One round, without the fuel.
pub tokenize_cons :
    (c : ℕ) (p : Text) → tokenize (c ∷ p) ≡ push (token_round c p).0 (tokenize (token_round c p).1)
unfolding tokenize tokenize_from
tokenize_cons c p =
    ap (push (token_round c p).0)
      (tokenize_from-enough (length p) (token_round c p).1 (token_round_shorter c p))

-- The loop of `tokenize` without fuel: finitely many rounds, each from where the last one left `p`,
-- to the end of the text, and the tokens that they push.
pub data Rounds : Text → List Text → Type 0 where
  at_end : Rounds [] []
  one_round :
      {c : ℕ} {p : Text} {ts : List Text}
      → Rounds (token_round c p).1 ts
      → Rounds (c ∷ p) (push (token_round c p).0 ts)

tokenize_from-Rounds : (fuel : ℕ) (p : Text) → length p ≤ fuel → Rounds p (tokenize_from fuel p)
unfolding tokenize_from
tokenize_from-Rounds zero [] h = at_end
tokenize_from-Rounds zero (c ∷ p) h = absurd (omega arith)
tokenize_from-Rounds (suc fuel) [] h = at_end
tokenize_from-Rounds (suc fuel) (c ∷ p) h =
    one_round
      (tokenize_from-Rounds fuel (token_round c p).1 (omega (arith, token_round_shorter c p)))

-- The loop of the tokenizer ends on every text: finitely many rounds, each from where the last one
-- left off, reach the end of the text, and the tokens are those that the rounds push.
pub tokenize-Rounds : (p : Text) → Rounds p (tokenize p)
unfolding tokenize
tokenize-Rounds p = tokenize_from-Rounds (length p) p (omega arith)
