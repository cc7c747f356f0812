-- ===== src/BpTree/Tests.antt =====
-- src/bptree.c: an index of order 3 on concrete entries.
use jungle_w8_minisql_server.Prelude.{
  ◌≡◌, refl, ◌⊎◌, none, List, [], ◌∷◌, length, take, arith, pos, negsuc, pos_part, neg_part,
}
use jungle_w8_minisql_server.BpTree.Node.{
  Entry, leaf, BpTree, create, insert, search, range, leaves, descend, scan, walk, collect, leaf_at,
  grow_root, insert_rec, insert_leaf, stops_at, settle, leaf_insert_sorted, split_leaf, first_key,
  num_keys, internal_insert_nonfull, split_internal, take_branches, drop_branches, split_at,
}
use jungle_w8_minisql_server.BpTree.Order.{entries}
use jungle_w8_minisql_server.BpTree.Search.{entries-insert}
use jungle_w8_minisql_server.BpTree.Balance.{IsBalanced, insert-IsBalanced}
use jungle_w8_minisql_server.BpTree.Range.{in_range}
use jungle_w8_minisql_server.BpTree.Ranges.{range-entries}
use jungle_w8_minisql_server.BpTree.Build.{
  insert_all, latest, IsIndex, insert_all-IsIndex, search-insert_all,
}

abbrev empty_tree : BpTree
empty_tree = record { order = 3; root = leaf 0 none []; fresh = 1 }

empty_tree-IsBalanced : IsBalanced empty_tree 0
empty_tree-IsBalanced = record { wide = omega arith; full = (omega arith, omega arith) }

empty_tree-IsIndex : IsIndex empty_tree
unfolding leaves
empty_tree-IsIndex = record {
  ordered = record { wide = omega arith; ordered = tt };
  depth = 0;
  balanced = empty_tree-IsBalanced;
  chained = record { linked = (refl, tt); addressed = (omega arith, tt, tt) };
}

abbrev sample : List Entry
sample =
    (pos 5, pos 50)
    ∷ (pos 1, pos 10)
    ∷ (pos 9, pos 90)
    ∷ (pos 3, pos 30)
    ∷ (pos 7, pos 70)
    ∷ (pos 3, pos 31)
    ∷ (negsuc 1, pos 20)
    ∷ []

abbrev tree : BpTree
tree = insert_all empty_tree sample

tree-IsIndex : IsIndex tree
tree-IsIndex = insert_all-IsIndex empty_tree sample empty_tree-IsIndex

tree_leaves : length (leaves tree.root) ≡ 4
unfolding leaves insert_all insert grow_root insert_rec insert_leaf stops_at settle
    leaf_insert_sorted split_leaf first_key num_keys internal_insert_nonfull split_internal
    take_branches drop_branches split_at pos_part neg_part
tree_leaves = refl

tree-search : (search tree (pos 3) ≡ pos 31) × (search tree (pos 4) ≡ negsuc 0)
unfolding search descend scan insert_all insert grow_root insert_rec insert_leaf stops_at settle
    leaf_insert_sorted split_leaf first_key num_keys internal_insert_nonfull split_internal
    take_branches drop_branches split_at pos_part neg_part
tree-search = (refl, refl)

tree-range : range tree (pos 2) (pos 8) (pos 2) ≡ pos 31 ∷ pos 50 ∷ []
unfolding range leaves descend walk collect leaf_at insert_all insert grow_root insert_rec
    insert_leaf stops_at settle leaf_insert_sorted split_leaf first_key num_keys
    internal_insert_nonfull split_internal take_branches drop_branches split_at pos_part neg_part
tree-range = refl

create_small : create (pos 2) ≡ none
unfolding create pos_part neg_part
create_small = refl

search-insert_all_example : search (insert_all empty_tree sample) (pos 3) ≡ pos 31
unfolding latest pos_part neg_part
search-insert_all_example = search-insert_all empty_tree sample (pos 3) empty_tree-IsIndex

range-entries_example :
    range tree (pos 2) (pos 8) (pos 2) ≡ take 2 (in_range (pos 2) (pos 8) (entries tree.root))
unfolding pos_part
range-entries_example =
    range-entries tree (pos 2) (pos 8) (pos 2) tree-IsIndex.ordered tree-IsIndex.chained

insert_all-IsIndex_example : IsIndex (insert_all empty_tree sample)
insert_all-IsIndex_example = insert_all-IsIndex empty_tree sample empty_tree-IsIndex

entries-insert_example :
    entries (insert tree (pos 4) (pos 40)).root
    ≡ leaf_insert_sorted (pos 4) (pos 40) (entries tree.root)
entries-insert_example = entries-insert tree (pos 4) (pos 40) tree-IsIndex.ordered

insert-IsBalanced_example :
    IsBalanced (insert empty_tree (pos 4) (pos 40)) 0
    ⊎ IsBalanced (insert empty_tree (pos 4) (pos 40)) 1
insert-IsBalanced_example = insert-IsBalanced empty_tree (pos 4) (pos 40) 0 empty_tree-IsBalanced
