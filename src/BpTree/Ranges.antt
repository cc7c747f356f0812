-- ===== src/BpTree/Ranges.antt =====
-- src/bptree.c: the result of `bptree_range` on a tree that insertions have made.
use mathlib.Core.List.{append-nil}
use jungle_w8_minisql_server.Prelude.{
  ℕ, ◌<◌, ◌≡◌, ap, sym, subst, ◌∙◌, inl, inr, true, Option, none, some, List, [], ◌∷◌, ◌++◌, length,
  take, length-append, arith, Bool-cases, ℤ, pos, pos_part, neg_part, ltz, lez, parts_bound,
}
use jungle_w8_minisql_server.BpTree.Node.{
  Entry, Node, leaf, internal, Branches, done, branch, BpTree, Leaf, leaves, descend, walk, range,
}
use jungle_w8_minisql_server.BpTree.Order.{
  ◌≤ℤ◌, ◌<ℤ◌, head_key, AllAbove, AllUnder, AllAbove-append, SortedIn, Ordered, OrderedBranches,
  entries, entries_branches, above_of_Ordered, above_of_OrderedBranches, under_of_Ordered,
}
use jungle_w8_minisql_server.BpTree.Search.{IsOrdered}
use jungle_w8_minisql_server.BpTree.Linked.{Linked, IsChained}
use jungle_w8_minisql_server.BpTree.Range.{in_range, Rising, in_range-append_under, in_range_empty}
use jungle_w8_minisql_server.BpTree.Scan.{
  all_entries, all_entries-append, all_entries-leaves, Stored, Stored-self, Stored-tail,
  Rising-tail, Linked-tail, walk-chain, descend-Position, take_nil,
}

Rising-append :
    (k : ℤ) (xs ys : List Entry)
    → Rising xs
    → Rising ys
    → AllUnder k xs
    → ((j : ℤ) → j <ℤ k → AllAbove j ys)
    → Rising (xs ++ ys)
Rising-append k [] ys a b u v = b
Rising-append k (x ∷ xs) ys a b u v =
    (AllAbove-append x.0 xs ys a.0 (v x.0 u.0), Rising-append k xs ys a.1 b u.1 v)

Rising-of_SortedIn : (lo hi : Option ℤ) (es : List Entry) → SortedIn lo hi es → Rising es
Rising-of_SortedIn lo hi [] h = tt
Rising-of_SortedIn lo hi (e ∷ es) h = (h.2, Rising-of_SortedIn lo hi es h.3)

le_refl : (k : ℤ) → k ≤ℤ k
le_refl k = omega arith

-- The ids of a tree in order rise strictly from left to right, over all leaves.
mutual
  unfolding entries

  Rising-entries : (n : Node) (lo hi : Option ℤ) → Ordered lo hi n → Rising (entries n)
  Rising-entries (leaf a nx es) lo hi h = Rising-of_SortedIn lo hi es h
  Rising-entries (internal c done) lo hi h =
      rw (append-nil (entries c)) (Rising-entries c lo hi h.0)
  Rising-entries (internal c (branch k d r)) lo hi h =
      Rising-append k (entries c) (entries_branches (branch k d r))
        (Rising-entries c lo (some k) h.0) (Rising-entries_branches (branch k d r) lo hi h.1)
        (under_of_Ordered c k k lo (le_refl k) h.0)
        (λ j lt.
          AllAbove-append j (entries d) (entries_branches r)
            (above_of_Ordered d j k (head_key hi r) lt h.1.2)
            (above_of_OrderedBranches r j k hi lt h.1.3))

  Rising-entries_branches :
      (bs : Branches) (lo hi : Option ℤ) → OrderedBranches lo hi bs → Rising (entries_branches bs)
  Rising-entries_branches done lo hi h = tt
  Rising-entries_branches (branch k c done) lo hi h =
      rw (append-nil (entries c)) (Rising-entries c (some k) hi h.2)
  Rising-entries_branches (branch k c (branch i d r)) lo hi h =
      Rising-append i (entries c) (entries_branches (branch i d r))
        (Rising-entries c (some k) (some i) h.2)
        (Rising-entries_branches (branch i d r) (some k) hi h.3)
        (under_of_Ordered c i i (some k) (le_refl i) h.2)
        (λ j lt.
          AllAbove-append j (entries d) (entries_branches r)
            (above_of_Ordered d j i (head_key hi r) lt h.3.2)
            (above_of_OrderedBranches r j i hi lt h.3.3))

length-append_lt :
    (front : List Leaf) (x : Leaf) (rest : List Leaf) → length rest < length (front ++ x ∷ rest)
length-append_lt front x rest = omega (arith, length-append front (x ∷ rest))

no_room : (m : ℤ) → lez m (pos 0) ≡ true → pos_part m ≡ 0
unfolding pos_part neg_part
no_room m h = ground (arith, parts_bound m)

-- The walk over all leaves, from the leaf that the descent reaches.
walk-entries :
    (t : BpTree) (from to : ℤ) (room : ℕ)
    → IsOrdered t
    → IsChained t
    → walk (length (leaves t.root)) (leaves t.root) from to room (some (descend from t.root))
      ≡ take room (in_range from to (entries t.root))
walk-entries t from to room h c =
    let l = leaves t.root in
    let x = descend from t.root in
    let p = descend-Position t.root from none none h.ordered in
    let tail = x ∷ p.rest in
    let parts : all_entries p.front ++ all_entries tail ≡ entries t.root =
      sym (all_entries-append p.front tail)
      ∙ ap all_entries (sym p.parts)
      ∙ all_entries-leaves t.root in
    let rising : Rising (all_entries tail) =
      Rising-tail (all_entries p.front) (all_entries tail)
        (subst Rising (sym parts) (Rising-entries t.root none none h.ordered)) in
    let linked : Linked tail none =
      Linked-tail p.front tail none (subst (λ v. Linked v none) p.parts c.linked) in
    let stored : Stored l tail =
      Stored-tail l p.front tail (subst (Stored l) p.parts (Stored-self t.fresh l c.addressed)) in
    walk-chain from to l p.rest (length l) room x
      (omega (arith, ap length p.parts, length-append_lt p.front x p.rest)) rising linked stored.1
    ∙ ap (take room) (
        sym (in_range-append_under from to (all_entries p.front) (all_entries tail) p.under)
        ∙ ap (in_range from to) parts)

-- On a tree in order whose leaves are chained, a range scan returns the rows of all ids from
-- `from` to `to` in order of id, and the first `max_out` of them where there are more.
pub range-entries :
    (t : BpTree) (from to max_out : ℤ)
    → IsOrdered t
    → IsChained t
    → range t from to max_out ≡ take (pos_part max_out) (in_range from to (entries t.root))
unfolding range
range-entries t from to max_out h c = elim (Bool-cases (lez max_out (pos 0))) [
  | inl none_asked ↦
      rw (none_asked)
        (sym (ap (λ n. take n (in_range from to (entries t.root))) (no_room max_out none_asked)))
  | inr some_asked ↦ elim (Bool-cases (ltz to from)) [
    | inl empty ↦
        rw (some_asked, empty)
          (sym (
            ap (take (pos_part max_out)) (in_range_empty from to (entries t.root) (ground arith))
            ∙ take_nil (pos_part max_out)))
    | inr full ↦ rw (some_asked, full) (walk-entries t from to (pos_part max_out) h c)
  ]
]
