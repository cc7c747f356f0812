-- ===== src/Trie/Nodes.antt =====
-- src/trie.c: the nodes and the operations. A node's 26 children are a list of options.
use jungle_w8_minisql_server.Prelude.{
  ℕ, zero, suc, ◌-◌, Bool, true, false, not, ◌&&◌, ◌||◌, Option, none, some, List, [], ◌∷◌, ◌++◌,
  length, Text, leb, if◌then◌else◌, ℤ, pos, negsuc, pos_part, ltz, lez,
}

-- `trie_node_t`; a NULL child is `empty`. The children stand from 'a' on.
mutual
  pub data Trie : Type 0 where
    node : (row_index : ℤ) → Children → Trie

  pub data Children : Type 0 where
    end : Children
    empty : Children → Children
    child : Trie → Children → Children

unfoldable pub row_index : Trie → ℤ
row_index (node r cs) = r

unfoldable pub children : Trie → Children
children (node r cs) = cs

unfoldable pub blank : ℕ → Children
blank zero = end
blank (suc n) = empty (blank n)

-- `trie_node_create`, and with it `trie_create`.
unfoldable pub trie_node_create : Trie
trie_node_create = node (negsuc 0) (blank 26)

-- `char_index` of a letter.
unfoldable pub char_index : ℕ → ℕ
char_index c = c - 97

unfoldable pub all_letters : Text → Bool
all_letters [] = true
all_letters (c ∷ cs) = leb 97 c && leb c 122 && all_letters cs

-- `word_is_valid`; a NULL word is `none`.
unfoldable pub word_is_valid : Option Text → Bool
word_is_valid none = false
word_is_valid (some []) = false
word_is_valid (some (c ∷ cs)) = all_letters (c ∷ cs)

-- `node->children[idx]`
unfoldable pub child_at : ℕ → Children → Option Trie
child_at i end = none
child_at zero (empty cs) = none
child_at zero (child t cs) = some t
child_at (suc i) (empty cs) = child_at i cs
child_at (suc i) (child t cs) = child_at i cs

unfoldable pub set_child : ℕ → Trie → Children → Children
set_child i t end = end
set_child zero t (empty cs) = child t cs
set_child zero t (child u cs) = child t cs
set_child (suc i) t (empty cs) = empty (set_child i t cs)
set_child (suc i) t (child u cs) = child u (set_child i t cs)

unfoldable pub or_new : Option Trie → Trie
or_new none = trie_node_create
or_new (some t) = t

-- The loop of `trie_insert` along the word, with the nodes that it makes on the way.
unfoldable pub insert_from : Text → ℤ → Trie → Trie
insert_from [] row t = node row (children t)
insert_from (c ∷ cs) row t = node (row_index t) (
    set_child (char_index c) (insert_from cs row (or_new (child_at (char_index c) (children t))))
      (children t))

-- `trie_insert`, with its result.
unfoldable pub insert : Trie → Option Text → ℤ → Trie × ℤ
insert t none row = (t, negsuc 0)
insert t (some word) row =
    if ltz row (pos 0) || not (word_is_valid (some word))
    then (t, negsuc 0)
    else (insert_from word row t, pos 0)

-- The loop along a word in the two searches; NULL is `none`.
unfoldable pub node_at : Text → Option Trie → Option Trie
node_at [] t = t
node_at (c ∷ cs) none = none
node_at (c ∷ cs) (some t) = node_at cs (child_at (char_index c) (children t))

unfoldable pub row_of : Option Trie → ℤ
row_of none = negsuc 0
row_of (some t) = row_index t

unfoldable pub search_exact : Trie → Option Text → ℤ
search_exact t none = negsuc 0
search_exact t (some word) =
    if word_is_valid (some word) then row_of (node_at word (some t)) else negsuc 0

-- `collect_prefix_rows` with room for so many more results.
unfoldable mutual
  pub collect : ℕ → Trie → List ℤ
  collect zero t = []
  collect (suc room) (node r cs) =
      if lez (pos 0) r then r ∷ collect_children room cs else collect_children (suc room) cs

  pub collect_children : ℕ → Children → List ℤ
  collect_children room end = []
  collect_children room (empty cs) = collect_children room cs
  collect_children room (child t cs) =
      let found = collect room t in found ++ collect_children (room - length found) cs

unfoldable pub collect_at : ℕ → Option Trie → List ℤ
collect_at room none = []
collect_at room (some t) = collect room t

-- `trie_search_prefix` with an output array: the rows that it fills in.
unfoldable pub search_prefix : Trie → Option Text → ℤ → List ℤ
search_prefix t none max_out = []
search_prefix t (some prefix) max_out =
    if lez max_out (pos 0) || not (word_is_valid (some prefix))
    then []
    else collect_at (pos_part max_out) (node_at prefix (some t))
