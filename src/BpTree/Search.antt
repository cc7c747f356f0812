-- ===== src/BpTree/Search.antt =====
-- src/bptree.c: `bptree_search` after `bptree_insert`, on trees whose keys are in order.
use mathlib.Core.List.{append-nil}
use jungle_w8_minisql_server.Prelude.{
  ℕ, ◌≤◌, ◌≡◌, refl, ap, sym, ◌∙◌, inl, inr, false, Option, none, some, List, [], ◌∷◌, ◌++◌, arith,
  if◌then◌else◌, Bool-cases, ℤ, eqz,
}
use jungle_w8_minisql_server.BpTree.Node.{
  Entry, Node, leaf, internal, Branches, done, branch, stops_at, BpTree, insert, grow_root,
  leaf_insert_sorted, Outcome, insert_rec, Leaf, descend, descend_branches, scan, search,
}
use jungle_w8_minisql_server.BpTree.Order.{
  head_key, AllAbove, AllUnder, Ordered, OrderedBranches, entries, entries_branches,
}
use jungle_w8_minisql_server.BpTree.Leaves.{scan-leaf_insert_sorted}
use jungle_w8_minisql_server.BpTree.Split.{OrderedSplit, split_entries, Inserted}
use jungle_w8_minisql_server.BpTree.Insert.{above_of_stop, under_of_pass, insert_rec-Inserted}

scan-append_above : (id : ℤ) (xs ys : List Entry) → AllAbove id ys → scan id (xs ++ ys) ≡ scan id xs
unfolding scan
scan-append_above id [] [] h = refl
scan-append_above id [] ((k, r) ∷ ys) h = ground (arith, scan-append_above id [] ys h.1)
scan-append_above id ((k, r) ∷ xs) ys h = ground (arith, scan-append_above id xs ys h)

scan-append_under : (id : ℤ) (xs ys : List Entry) → AllUnder id xs → scan id (xs ++ ys) ≡ scan id ys
unfolding scan
scan-append_under id [] ys h = refl
scan-append_under id ((k, r) ∷ xs) ys h = ground (arith, scan-append_under id xs ys h.1)

-- The leaf that the descent reaches answers for the whole tree.
mutual
  unfolding descend entries

  scan-descend :
      (n : Node) (id : ℤ) (lo hi : Option ℤ)
      → Ordered lo hi n
      → scan id (descend id n).entries ≡ scan id (entries n)
  scan-descend (leaf a nx es) id lo hi h = refl
  scan-descend (internal c bs) id lo hi h = elim (Bool-cases (stops_at id bs)) [
    | inl s ↦ rw s (
        scan-descend c id lo (head_key hi bs) h.0
        ∙ sym (
            scan-append_above id (entries c) (entries_branches bs)
              (above_of_stop id lo hi bs s h.1)))
    | inr s ↦ rw s (
        scan-descend_branches bs id (descend id c) lo hi s h.1
        ∙ sym (
            scan-append_under id (entries c) (entries_branches bs)
              (under_of_pass id lo hi c bs s h.0)))
  ]

  scan-descend_branches :
      (bs : Branches) (id : ℤ) (stop : Leaf) (lo hi : Option ℤ)
      → stops_at id bs ≡ false
      → OrderedBranches lo hi bs
      → scan id (descend_branches id stop bs).entries ≡ scan id (entries_branches bs)
  scan-descend_branches done id stop lo hi s h = cc
  scan-descend_branches (branch k c r) id stop lo hi s h = elim (Bool-cases (stops_at id r)) [
    | inl t ↦ rw t (
        scan-descend c id (some k) (head_key hi r) h.2
        ∙ sym (
            scan-append_above id (entries c) (entries_branches r)
              (above_of_stop id (some k) hi r t h.3)))
    | inr t ↦ rw t (
        scan-descend_branches r id (descend id c) (some k) hi t h.3
        ∙ sym (
            scan-append_under id (entries c) (entries_branches r)
              (under_of_pass id (some k) hi c r t h.2)))
  ]

-- A tree whose keys are in order from left to right, of a degree that can split.
pub record IsOrdered (t : BpTree) : Type 0 where
  pub wide : 3 ≤ t.order
  pub ordered : Ordered none none t.root

pub search-scan : (t : BpTree) (id : ℤ) → IsOrdered t → search t id ≡ scan id (entries t.root)
unfolding search
search-scan t id h = scan-descend t.root id none none h.ordered

grow_root-Ordered :
    (order : ℕ) (es : List Entry) (o : Outcome)
    → 3 ≤ order
    → Inserted none none es o
    → IsOrdered (grow_root order o) × (entries (grow_root order o).root ≡ es)
unfolding grow_root entries
grow_root-Ordered order es o wide i = go o.split i.ordered i.same
  where
    go :
        (s : Option (ℤ × Node))
        → OrderedSplit none none o.node s
        → split_entries o.node s ≡ es
        → IsOrdered (grow_root order (record o { split = s }))
          × (entries (grow_root order (record o { split = s })).root ≡ es)
    go none h e = (record { wide = wide; ordered = h }, e)
    go (some (k, r)) h e =
        (record { wide = wide; ordered = (h.2, (tt, tt, h.3, tt)) }, simp append-nil e)

inserted :
    (t : BpTree) (id row : ℤ)
    → IsOrdered t
    → Inserted none none
        (leaf_insert_sorted id row (entries t.root))
        (insert_rec t.order t.fresh id row t.root)
inserted t id row h =
    insert_rec-Inserted t.order (omega arith) id row t.root t.fresh none none tt tt h.ordered

pub insert-IsOrdered : (t : BpTree) (id row : ℤ) → IsOrdered t → IsOrdered (insert t id row)
unfolding insert
insert-IsOrdered t id row h = (grow_root-Ordered t.order _ _ h.wide (inserted t id row h)).0

-- On a tree in order, an insertion makes the sorted list of all entries what the insertion into
-- that sorted list makes it.
pub entries-insert :
    (t : BpTree) (id row : ℤ)
    → IsOrdered t
    → entries (insert t id row).root ≡ leaf_insert_sorted id row (entries t.root)
unfolding insert
entries-insert t id row h = (grow_root-Ordered t.order _ _ h.wide (inserted t id row h)).1

-- On a tree in order, a search after an insertion returns the new row for the inserted id, and for
-- every other id what it returned before.
pub search-insert :
    (t : BpTree) (id row q : ℤ)
    → IsOrdered t
    → search (insert t id row) q ≡ (if eqz id q then row else search t q)
search-insert t id row q h =
    search-scan (insert t id row) q (insert-IsOrdered t id row h)
    ∙ ap (scan q) (entries-insert t id row h)
    ∙ scan-leaf_insert_sorted id row q (entries t.root)
    ∙ ap (λ s. if eqz id q then row else s) (sym (search-scan t q h))
