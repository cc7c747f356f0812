-- ===== src/Trie/Tests.antt =====
-- src/trie.c: concrete words.
use jungle_w8_minisql_server.Prelude.{
  ◌≡◌, refl, some, [], ◌∷◌, take, text_eq, pos, pos_part, neg_part,
}
use jungle_w8_minisql_server.Trie.Nodes.{
  Trie, trie_node_create, char_index, all_letters, word_is_valid, child_at, set_child, or_new,
  insert_from, insert, node_at, row_index, children, blank, search_exact, collect, collect_at,
  search_prefix,
}
use jungle_w8_minisql_server.Trie.Exact.{
  IsWhole, trie_node_create-IsWhole, insert-IsWhole, search_exact-insert,
}
use jungle_w8_minisql_server.Trie.Prefix.{rows_at, search_prefix-rows}

-- 'ab' is in row 4 and 'a' in row 7.
abbrev words : Trie
words =
    (insert (insert trie_node_create (some (97 ∷ 98 ∷ [])) (pos 4)).0 (some (97 ∷ [])) (pos 7)).0

words-IsWhole : IsWhole words
words-IsWhole =
    insert-IsWhole (insert trie_node_create (some (97 ∷ 98 ∷ [])) (pos 4)).0 (some (97 ∷ []))
      (pos 7)
      (insert-IsWhole trie_node_create (some (97 ∷ 98 ∷ [])) (pos 4) trie_node_create-IsWhole)

prefix_test : search_prefix words (some (97 ∷ [])) (pos 5) ≡ pos 7 ∷ pos 4 ∷ []
unfolding trie_node_create char_index all_letters word_is_valid child_at set_child or_new
    insert_from insert node_at row_index children blank collect collect_at search_prefix pos_part
    neg_part
prefix_test = refl

search_exact-insert_example :
    search_exact (insert words (some (98 ∷ [])) (pos 9)).0 (some (98 ∷ [])) ≡ pos 9
unfolding text_eq word_is_valid all_letters pos_part neg_part
search_exact-insert_example =
    search_exact-insert words (98 ∷ []) (98 ∷ []) (pos 9) words-IsWhole refl refl

search_prefix-rows_example :
    search_prefix words (some (97 ∷ [])) (pos 1) ≡ take 1 (rows_at (node_at (97 ∷ []) (some words)))
unfolding word_is_valid all_letters pos_part
search_prefix-rows_example = search_prefix-rows words (97 ∷ []) (pos 1) refl

insert-IsWhole_example : IsWhole (insert words (some (98 ∷ [])) (pos 9)).0
insert-IsWhole_example = insert-IsWhole words (some (98 ∷ [])) (pos 9) words-IsWhole
