-- ===== src/Trie/Exact.antt =====
-- src/trie.c: `trie_search_exact` after `trie_insert`.
use jungle_w8_minisql_server.Prelude.{
  ℕ, zero, suc, ◌<◌, ◌≡◌, refl, ap, sym, subst, ◌∙◌, inl, inr, ◌≢◌, Bool, true, false, not, ◌&&◌,
  ◌||◌, Option, none, some, [], ◌∷◌, Text, text_eq, eq_of_text_eq, arith, leb, ◌==◌, if◌then◌else◌,
  Bool-cases, if_both, ℤ, pos, negsuc, ltz,
}
use jungle_w8_minisql_server.Trie.Nodes.{
  Trie, node, Children, end, empty, child, row_index, children, blank, trie_node_create, char_index,
  all_letters, word_is_valid, child_at, set_child, or_new, insert_from, insert, node_at, row_of,
  search_exact,
}

-- Every node has its 26 children.
unfoldable pub size : Children → ℕ
size end = 0
size (empty cs) = suc (size cs)
size (child t cs) = suc (size cs)

abbrev mutual
  pub IsWhole : Trie → Type 0
  IsWhole (node r cs) = (size cs ≡ 26) × AllWhole cs

  pub AllWhole : Children → Type 0
  AllWhole end = Unit
  AllWhole (empty cs) = AllWhole cs
  AllWhole (child t cs) = IsWhole t × AllWhole cs

AllWhole-blank : (n : ℕ) → (size (blank n) ≡ n) × AllWhole (blank n)
unfolding size blank
AllWhole-blank zero = (refl, tt)
AllWhole-blank (suc n) = let (e, a) = AllWhole-blank n in (ap suc e, a)

pub trie_node_create-IsWhole : IsWhole trie_node_create
unfolding trie_node_create
trie_node_create-IsWhole = AllWhole-blank 26

child_at-set_self :
    (i : ℕ) (t : Trie) (cs : Children) → i < size cs → child_at i (set_child i t cs) ≡ some t
unfolding size child_at set_child
child_at-set_self i t end h = absurd (omega arith)
child_at-set_self zero t (empty cs) h = refl
child_at-set_self zero t (child u cs) h = refl
child_at-set_self (suc i) t (empty cs) h = child_at-set_self i t cs (omega arith)
child_at-set_self (suc i) t (child u cs) h = child_at-set_self i t cs (omega arith)

child_at-set_other :
    (i j : ℕ) (t : Trie) (cs : Children) → i ≢ j → child_at j (set_child i t cs) ≡ child_at j cs
unfolding child_at set_child
child_at-set_other i j t end n = refl
child_at-set_other zero zero t (empty cs) n = absurd (n refl)
child_at-set_other zero zero t (child u cs) n = absurd (n refl)
child_at-set_other zero (suc j) t (empty cs) n = refl
child_at-set_other zero (suc j) t (child u cs) n = refl
child_at-set_other (suc i) zero t (empty cs) n = refl
child_at-set_other (suc i) zero t (child u cs) n = refl
child_at-set_other (suc i) (suc j) t (empty cs) n = child_at-set_other i j t cs (λ e. n (ap suc e))
child_at-set_other (suc i) (suc j) t (child u cs) n =
    child_at-set_other i j t cs (λ e. n (ap suc e))

AllWhole-set_child :
    (i : ℕ) (t : Trie) (cs : Children)
    → IsWhole t
    → AllWhole cs
    → (size (set_child i t cs) ≡ size cs) × AllWhole (set_child i t cs)
unfolding size set_child
AllWhole-set_child i t end h a = (refl, tt)
AllWhole-set_child zero t (empty cs) h a = (refl, (h, a))
AllWhole-set_child zero t (child u cs) h a = (refl, (h, a.1))
AllWhole-set_child (suc i) t (empty cs) h a =
    let (e, b) = AllWhole-set_child i t cs h a in (ap suc e, b)
AllWhole-set_child (suc i) t (child u cs) h a =
    let (e, b) = AllWhole-set_child i t cs h a.1 in (ap suc e, (a.0, b))

child_at-IsWhole : (i : ℕ) (cs : Children) → AllWhole cs → IsWhole (or_new (child_at i cs))
unfolding child_at or_new
child_at-IsWhole i end a = trie_node_create-IsWhole
child_at-IsWhole zero (empty cs) a = trie_node_create-IsWhole
child_at-IsWhole zero (child u cs) a = a.0
child_at-IsWhole (suc i) (empty cs) a = child_at-IsWhole i cs a
child_at-IsWhole (suc i) (child u cs) a = child_at-IsWhole i cs a.1

insert_from-IsWhole : (w : Text) (row : ℤ) (t : Trie) → IsWhole t → IsWhole (insert_from w row t)
unfolding insert_from children row_index
insert_from-IsWhole [] row (node r cs) h = h
insert_from-IsWhole (c ∷ w) row (node r cs) h =
    let u = insert_from w row (or_new (child_at (char_index c) cs)) in
    let ok =
      insert_from-IsWhole w row (or_new (child_at (char_index c) cs))
        (child_at-IsWhole (char_index c) cs h.1) in
    let (e, a) = AllWhole-set_child (char_index c) u cs ok h.1 in (e ∙ h.0, a)

pub insert-IsWhole : (t : Trie) (w : Option Text) (row : ℤ) → IsWhole t → IsWhole (insert t w row).0
unfolding insert
insert-IsWhole t none row h = h
insert-IsWhole t (some w) row h =
    if_both (λ (r : Trie × ℤ). IsWhole r.0) (ltz row (pos 0) || not (word_is_valid (some w)))
      (t, negsuc 0) (insert_from w row t, pos 0) h (insert_from-IsWhole w row t h)

child_at-blank : (i n : ℕ) → child_at i (blank n) ≡ none
unfolding child_at blank
child_at-blank i zero = refl
child_at-blank zero (suc n) = refl
child_at-blank (suc i) (suc n) = child_at-blank i n

row_of-none : (q : Text) → row_of (node_at q none) ≡ negsuc 0
unfolding row_of node_at
row_of-none [] = refl
row_of-none (d ∷ q) = refl

new_row : (q : Text) → row_of (node_at q (some trie_node_create)) ≡ negsuc 0
unfolding row_of node_at trie_node_create children row_index
new_row [] = refl
new_row (d ∷ q) = ap (λ t. row_of (node_at q t)) (child_at-blank (char_index d) 26) ∙ row_of-none q

-- A new node answers like none.
row_of-or_new :
    (q : Text) (t : Option Trie) → row_of (node_at q (some (or_new t))) ≡ row_of (node_at q t)
unfolding or_new
row_of-or_new q (some t) = refl
row_of-or_new q none = new_row q ∙ sym (row_of-none q)

letters_differ :
    (c d : ℕ)
    → (leb 97 c && leb c 122) ≡ true
    → (leb 97 d && leb d 122) ≡ true
    → c ≢ d
    → char_index c ≢ char_index d
unfolding char_index
letters_differ c d hc hd n e = n (ground arith)

in_range :
    (c : ℕ) (cs : Children) → (leb 97 c && leb c 122) ≡ true → size cs ≡ 26 → char_index c < size cs
unfolding char_index
in_range c cs h e = ground arith

-- One letter further, in the same child and in another.
same_child :
    (q : Text) (i j : ℕ) (u : Trie) (cs : Children) (b : Bool) (row : ℤ)
    → i ≡ j
    → i < size cs
    → row_of (node_at q (some u))
      ≡ (if b then row else row_of (node_at q (some (or_new (child_at i cs)))))
    → row_of (node_at q (child_at j (set_child i u cs)))
      ≡ (if b then row else row_of (node_at q (child_at j cs)))
same_child q i j u cs b row e fits h =
    subst
      (λ k.
        row_of (node_at q (child_at k (set_child i u cs)))
        ≡ (if b then row else row_of (node_at q (child_at k cs))))
      e
      (ap (λ t. row_of (node_at q t)) (child_at-set_self i u cs fits)
        ∙ h
        ∙ ap (λ z. if b then row else z) (row_of-or_new q (child_at i cs)))

other_child :
    (q : Text) (i j : ℕ) (u : Trie) (cs : Children)
    → i ≢ j
    → row_of (node_at q (child_at j (set_child i u cs))) ≡ row_of (node_at q (child_at j cs))
other_child q i j u cs n = ap (λ t. row_of (node_at q t)) (child_at-set_other i j u cs n)

found-insert_from :
    (w q : Text) (row : ℤ) (t : Trie)
    → all_letters w ≡ true
    → all_letters q ≡ true
    → IsWhole t
    → row_of (node_at q (some (insert_from w row t)))
      ≡ (if text_eq w q then row else row_of (node_at q (some t)))
unfolding all_letters text_eq insert_from node_at children row_index row_of
found-insert_from [] [] row (node r cs) hw hq h = refl
found-insert_from [] (d ∷ q) row (node r cs) hw hq h = refl
found-insert_from (c ∷ w) [] row (node r cs) hw hq h = refl
found-insert_from (c ∷ w) (d ∷ q) row (node r cs) hw hq h =
    let i = char_index c in
    let u = insert_from w row (or_new (child_at i cs)) in
    elim (Bool-cases (c == d)) [
      | inl same ↦ rw same (
          same_child q i (char_index d) u cs (text_eq w q) row (ap char_index (ground arith))
            (in_range c cs (ground arith) h.0)
            (found-insert_from w q row (or_new (child_at i cs)) (ground arith) (ground arith)
              (child_at-IsWhole i cs h.1)))
      | inr apart ↦ rw apart (
          other_child q i (char_index d) u cs
            (letters_differ c d (ground arith) (ground arith) (ground arith)))
    ]

letters_of_valid : (w : Text) → word_is_valid (some w) ≡ true → all_letters w ≡ true
unfolding word_is_valid
letters_of_valid [] h = cc
letters_of_valid (c ∷ w) h = h

inserted :
    (t : Trie) (w : Text) (row : ℤ)
    → ltz row (pos 0) ≡ false
    → word_is_valid (some w) ≡ true
    → insert t (some w) row ≡ (insert_from w row t, pos 0)
unfolding insert
inserted t w row positive valid = rw (positive, valid, insert) refl

other_word :
    (w q : Text)
    → word_is_valid (some w) ≡ true
    → word_is_valid (some q) ≡ false
    → text_eq w q ≡ false
other_word w q valid bad = elim (Bool-cases (text_eq w q)) [
  | inl e ↦ absurd (cc (eq_of_text_eq w q e))
  | inr e ↦ e
]

search_exact-insert_from :
    (t : Trie) (w q : Text) (row : ℤ)
    → IsWhole t
    → word_is_valid (some w) ≡ true
    → search_exact (insert_from w row t) (some q)
      ≡ (if text_eq w q then row else search_exact t (some q))
unfolding search_exact
search_exact-insert_from t w q row h valid = elim (Bool-cases (word_is_valid (some q))) [
  | inl good ↦
      rw good (found-insert_from w q row t (letters_of_valid w valid) (letters_of_valid q good) h)
  | inr bad ↦ rw (bad, other_word w q valid bad) refl
]

-- In a trie whose nodes have their 26 children, after the insertion of a valid word with a row
-- that is not negative, an exact search returns that row for the word, and for every other word
-- what it returned before.
pub search_exact-insert :
    (t : Trie) (w q : Text) (row : ℤ)
    → IsWhole t
    → ltz row (pos 0) ≡ false
    → word_is_valid (some w) ≡ true
    → search_exact (insert t (some w) row).0 (some q)
      ≡ (if text_eq w q then row else search_exact t (some q))
search_exact-insert t w q row h positive valid =
    ap (λ (r : Trie × ℤ). search_exact r.0 (some q)) (inserted t w row positive valid)
    ∙ search_exact-insert_from t w q row h valid
