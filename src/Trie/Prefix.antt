-- ===== src/Trie/Prefix.antt =====
-- src/trie.c: `trie_search_prefix` against all rows under a node.
use jungle_w8_minisql_server.Prelude.{
  ℕ, zero, suc, ◌-◌, ◌≡◌, refl, ap, sym, ◌∙◌, inl, inr, true, Option, none, some, List, [], ◌∷◌,
  ◌++◌, length, take, Text, arith, if◌then◌else◌, Bool-cases, ℤ, pos, pos_part, neg_part, lez,
  parts_bound,
}
use jungle_w8_minisql_server.Trie.Nodes.{
  Trie, node, Children, end, empty, child, word_is_valid, node_at, collect, collect_children,
  collect_at, search_prefix,
}

-- The rows of all words below a node: its own first, then those of its children by letter.
unfoldable mutual
  pub rows : Trie → List ℤ
  rows (node r cs) = if lez (pos 0) r then r ∷ rows_below cs else rows_below cs

  pub rows_below : Children → List ℤ
  rows_below end = []
  rows_below (empty cs) = rows_below cs
  rows_below (child t cs) = rows t ++ rows_below cs

unfoldable pub rows_at : Option Trie → List ℤ
rows_at none = []
rows_at (some t) = rows t

take-none : (n : ℕ) → take {A = ℤ} n [] ≡ []
take-none zero = refl
take-none (suc n) = refl

take-append :
    (n : ℕ) (xs ys : List ℤ) → take n (xs ++ ys) ≡ take n xs ++ take (n - length (take n xs)) ys
take-append zero xs ys = refl
take-append (suc n) [] ys = ap (λ m. take m ys) (whole (suc n))
  where
    whole : (m : ℕ) → m ≡ m - 0
    whole m = omega arith
take-append (suc n) (x ∷ xs) ys =
    ap (λ l. x ∷ l)
      (take-append n xs ys ∙ ap (λ m. take n xs ++ take m ys) (smaller n (length (take n xs))))
  where
    smaller : (m k : ℕ) → m - k ≡ suc m - suc k
    smaller m k = omega arith

mutual
  unfolding collect rows

  collect-take : (room : ℕ) (t : Trie) → collect room t ≡ take room (rows t)
  collect-take zero t = refl
  collect-take (suc room) (node r cs) = elim (Bool-cases (lez (pos 0) r)) [
    | inl has ↦ rw has (ap (λ l. r ∷ l) (collect_children-take room cs))
    | inr lacks ↦ rw lacks (collect_children-take (suc room) cs)
  ]

  collect_children-take :
      (room : ℕ) (cs : Children) → collect_children room cs ≡ take room (rows_below cs)
  collect_children-take room end = sym (take-none room)
  collect_children-take room (empty cs) = collect_children-take room cs
  collect_children-take room (child t cs) =
      ap (λ l. l ++ collect_children (room - length l) cs) (collect-take room t)
      ∙ ap (λ l. take room (rows t) ++ l)
          (collect_children-take (room - length (take room (rows t))) cs)
      ∙ sym (take-append room (rows t) (rows_below cs))

collect_at-take : (room : ℕ) (t : Option Trie) → collect_at room t ≡ take room (rows_at t)
unfolding collect_at rows_at
collect_at-take room none = sym (take-none room)
collect_at-take room (some t) = collect-take room t

no_room : (m : ℤ) → lez m (pos 0) ≡ true → pos_part m ≡ 0
unfolding pos_part neg_part
no_room m h = ground (arith, parts_bound m)

-- A search for a valid prefix returns the rows of all words below its node, a word before its
-- extensions and these by letter, and the first `max_out` of them where there are more.
pub search_prefix-rows :
    (t : Trie) (prefix : Text) (max_out : ℤ)
    → word_is_valid (some prefix) ≡ true
    → search_prefix t (some prefix) max_out
      ≡ take (pos_part max_out) (rows_at (node_at prefix (some t)))
unfolding search_prefix
search_prefix-rows t prefix max_out valid = elim (Bool-cases (lez max_out (pos 0))) [
  | inl closed ↦
      rw closed
        (sym (ap (λ n. take n (rows_at (node_at prefix (some t)))) (no_room max_out closed)))
  | inr open_ ↦ rw (open_, valid) (collect_at-take (pos_part max_out) (node_at prefix (some t)))
]
