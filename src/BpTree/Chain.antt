-- ===== src/BpTree/Chain.antt =====
-- src/bptree.c: what an insertion does to the leaves from left to right, and so to their chain of
-- `next` pointers.
use mathlib.Core.List.{append_assoc, append-nil}
use jungle_w8_minisql_server.Prelude.{
  ℕ, zero, suc, ◌+◌, ◌/◌, ◌≤◌, ◌≡◌, refl, ap, sym, subst, ◌∙◌, inl, inr, false, Option, none, some,
  List, [], ◌∷◌, ◌++◌, length, arith, ltb, Bool-cases, ℤ,
}
use jungle_w8_minisql_server.BpTree.Node.{
  Entry, Node, leaf, internal, Branches, done, branch, num_keys, stops_at, leaf_insert_sorted,
  insert_rec, insert_branches, insert_leaf, split_leaf, settle, internal_insert_nonfull,
  split_internal, split_at, take_branches, drop_branches, Leaf, leaves, leaves_branches,
}
use jungle_w8_minisql_server.BpTree.Order.{AtLeast, Below, head_key, Ordered, OrderedBranches}
use jungle_w8_minisql_server.BpTree.Split.{
  OrderedSplit, merge, Below-head_key, internal_insert_nonfull_stop,
}
use jungle_w8_minisql_server.BpTree.Insert.{
  insert_rec-Inserted, insert_branches-Merged, late_of_OrderedSplit, Late-branch, merge-branch,
  Below-of_stop,
}

-- One leaf is rewritten in place, or cut in two: the right half takes over the `next` of the
-- leaf and the left half points to the right one, which has a new address.
pub data Grown (fresh fresh' : ℕ) : List Leaf → List Leaf → Type 0 where
  rewritten :
      {before after : List Leaf} (x y : Leaf) (rest : List Leaf)
      → before ≡ x ∷ rest
      → after ≡ y ∷ rest
      → y.address ≡ x.address
      → y.next ≡ x.next
      → fresh' ≡ fresh
      → Grown fresh fresh' before after
  halved :
      {before after : List Leaf} (x y z : Leaf) (rest : List Leaf)
      → before ≡ x ∷ rest
      → after ≡ y ∷ z ∷ rest
      → y.address ≡ x.address
      → y.next ≡ some fresh
      → z.address ≡ fresh
      → z.next ≡ x.next
      → fresh' ≡ fresh + 1
      → Grown fresh fresh' before after
  later :
      {before after : List Leaf} (x : Leaf) (before' after' : List Leaf)
      → before ≡ x ∷ before'
      → after ≡ x ∷ after'
      → Grown fresh fresh' before' after'
      → Grown fresh fresh' before after

Grown-append :
    (f f' : ℕ) (b a rest : List Leaf) → Grown f f' b a → Grown f f' (b ++ rest) (a ++ rest)
Grown-append f f' b a rest (rewritten x y r eb ea p q s) =
    rewritten x y (r ++ rest) (rw eb) (rw ea) p q s
Grown-append f f' b a rest (halved x y z r eb ea p q s t u) =
    halved x y z (r ++ rest) (rw eb) (rw ea) p q s t u
Grown-append f f' b a rest (later x b' a' eb ea g) =
    later x (b' ++ rest) (a' ++ rest) (rw eb) (rw ea) (Grown-append f f' b' a' rest g)

append-Grown :
    (f f' : ℕ) (front b a : List Leaf) → Grown f f' b a → Grown f f' (front ++ b) (front ++ a)
append-Grown f f' [] b a g = g
append-Grown f f' (x ∷ front) b a g =
    later x (front ++ b) (front ++ a) refl refl (append-Grown f f' front b a g)

abbrev pub split_leaves : Node → Option (ℤ × Node) → List Leaf
split_leaves n none = leaves n
split_leaves n (some (k, right)) = leaves n ++ leaves right

place-leaves :
    (lo hi : Option ℤ) (n : Node) (bs : Branches) (split : Option (ℤ × Node))
    → OrderedSplit lo (head_key hi bs) n split
    → OrderedBranches lo hi bs
    → leaves n ++ leaves_branches (merge bs split) ≡ split_leaves n split ++ leaves_branches bs
unfolding leaves
place-leaves lo hi n bs none o h = refl
place-leaves lo hi n bs (some (k, right)) o h =
    let e = internal_insert_nonfull_stop k right bs (Below-head_key hi lo k bs o.1 h).1 in
    simp (e, append_assoc)

leaves_take_drop :
    (n : ℕ) (bs : Branches)
    → leaves_branches (take_branches n bs) ++ leaves_branches (drop_branches n bs)
      ≡ leaves_branches bs
unfolding leaves take_branches drop_branches
leaves_take_drop zero bs = refl
leaves_take_drop (suc n) done = refl
leaves_take_drop (suc n) (branch k c r) = simp (append_assoc, leaves_take_drop n r)

split_at-leaves :
    (c : Node) (left : Branches) (fresh : ℕ) (right : Branches)
    → split_leaves (split_at c left fresh right).node (split_at c left fresh right).split
      ≡ leaves c ++ (leaves_branches left ++ leaves_branches right)
unfolding split_at leaves
split_at-leaves c left fresh done = simp append-nil
split_at-leaves c left fresh (branch k d r) =
    append_assoc (leaves c) (leaves_branches left) (leaves d ++ leaves_branches r)

settle-leaves :
    (order fresh : ℕ) (c : Node) (bs : Branches) (split : Option (ℤ × Node))
    → split_leaves (settle order fresh c bs split).node (settle order fresh c bs split).split
      ≡ leaves c ++ leaves_branches (merge bs split)
unfolding settle split_internal leaves
settle-leaves order fresh c bs none = refl
settle-leaves order fresh c bs (some (k, right)) =
    let bs' = internal_insert_nonfull k right bs in
    elim (Bool-cases (ltb (num_keys bs') order)) [
      | inl room ↦ rw room
      | inr full ↦ rw full (
          split_at-leaves c (take_branches (order / 2) bs') fresh (drop_branches (order / 2) bs')
          ∙ ap (λ t. leaves c ++ t) (leaves_take_drop (order / 2) bs'))
    ]

split_at-fresh :
    (c : Node) (left : Branches) (fresh : ℕ) (right : Branches)
    → (split_at c left fresh right).fresh ≡ fresh
unfolding split_at
split_at-fresh c left fresh done = refl
split_at-fresh c left fresh (branch k d r) = refl

settle-fresh :
    (order fresh : ℕ) (c : Node) (bs : Branches) (split : Option (ℤ × Node))
    → (settle order fresh c bs split).fresh ≡ fresh
unfolding settle split_internal
settle-fresh order fresh c bs none = refl
settle-fresh order fresh c bs (some (k, right)) =
    let bs' = internal_insert_nonfull k right bs in
    elim (Bool-cases (ltb (num_keys bs') order)) [
      | inl room ↦ rw room
      | inr full ↦ rw full (split_at-fresh c _ fresh _)
    ]

module _ (order : ℕ) (two : 2 ≤ order) (id row : ℤ) where
  insert_leaf-Grown :
      (fresh address : ℕ) (next : Option ℕ) (es : List Entry)
      → Grown fresh
          (insert_leaf order fresh id row address next es).fresh
          (leaves (leaf address next es))
          (split_leaves
            (insert_leaf order fresh id row address next es).node
            (insert_leaf order fresh id row address next es).split)
  unfolding insert_leaf split_leaf leaves
  insert_leaf-Grown fresh address next es =
      elim (Bool-cases (ltb (length (leaf_insert_sorted id row es)) order)) [
        | inl room ↦ rw room (rewritten _ _ [] refl refl refl refl refl)
        | inr full ↦ rw full (halved _ _ _ [] refl refl refl refl refl refl refl)
      ]

  settle-Grown :
      (fresh fresh' : ℕ) (c : Node) (bs : Branches) (split : Option (ℤ × Node)) (before : List Leaf)
      → Grown fresh fresh' before (leaves c ++ leaves_branches (merge bs split))
      → Grown fresh (settle order fresh' c bs split).fresh before (
          split_leaves (settle order fresh' c bs split).node (settle order fresh' c bs split).split)
  settle-Grown fresh fresh' c bs split before g =
      rw (settle-fresh order fresh' c bs split, settle-leaves order fresh' c bs split) g

  mutual
    unfolding insert_rec leaves

    pub insert_rec-Grown :
        (n : Node) (fresh : ℕ) (lo hi : Option ℤ)
        → AtLeast lo id
        → Below id hi
        → Ordered lo hi n
        → Grown fresh (insert_rec order fresh id row n).fresh (leaves n) (
            split_leaves
              (insert_rec order fresh id row n).node
              (insert_rec order fresh id row n).split)
    insert_rec-Grown (leaf address next es) fresh lo hi l b h =
        insert_leaf-Grown fresh address next es
    insert_rec-Grown (internal c bs) fresh lo hi l b h = elim (Bool-cases (stops_at id bs)) [
      | inl s ↦
          let o = insert_rec order fresh id row c in
          let below = Below-of_stop id hi bs s b in
          let i = insert_rec-Inserted order two id row c fresh lo (head_key hi bs) l below h.0 in
          let g = insert_rec-Grown c fresh lo (head_key hi bs) l below h.0 in
          rw s (
            settle-Grown fresh o.fresh o.node bs o.split (leaves c ++ leaves_branches bs) (
              subst (Grown fresh o.fresh (leaves c ++ leaves_branches bs))
                (sym (place-leaves lo hi o.node bs o.split i.ordered h.1))
                (Grown-append fresh o.fresh (leaves c) (split_leaves o.node o.split)
                  (leaves_branches bs) g)))
      | inr s ↦
          let o = insert_branches order fresh id row bs in
          rw s (
            settle-Grown fresh o.fresh c o.branches o.split (leaves c ++ leaves_branches bs) (
              append-Grown fresh o.fresh (leaves c) (leaves_branches bs)
                (leaves_branches (merge o.branches o.split))
                (insert_branches-Grown bs fresh lo hi b s h.1)))
    ]

    insert_branches-Grown :
        (bs : Branches) (fresh : ℕ) (lo hi : Option ℤ)
        → Below id hi
        → stops_at id bs ≡ false
        → OrderedBranches lo hi bs
        → Grown fresh (insert_branches order fresh id row bs).fresh (leaves_branches bs) (
            leaves_branches (
              merge
                (insert_branches order fresh id row bs).branches
                (insert_branches order fresh id row bs).split))
    insert_branches-Grown done fresh lo hi b s h = cc
    insert_branches-Grown (branch k c r) fresh lo hi b s h = elim (Bool-cases (stops_at id r)) [
      | inl t ↦
          let o = insert_rec order fresh id row c in
          let below = Below-of_stop id hi r t b in
          let i =
            insert_rec-Inserted order two id row c fresh (some k) (head_key hi r) (ground arith)
              below h.2 in
          let g = insert_rec-Grown c fresh (some k) (head_key hi r) (ground arith) below h.2 in
          rw t (
            subst (Grown fresh o.fresh (leaves c ++ leaves_branches r))
              (sym (
                ap leaves_branches (
                  merge-branch k o.node r o.split
                    (late_of_OrderedSplit k (head_key hi r) o.node o.split i.ordered))
                ∙ place-leaves (some k) hi o.node r o.split i.ordered h.3))
              (Grown-append fresh o.fresh (leaves c) (split_leaves o.node o.split)
                (leaves_branches r) g))
      | inr t ↦
          let o = insert_branches order fresh id row r in
          let m = insert_branches-Merged order two id row r fresh (some k) hi b t h.3 in
          rw t (
            subst (Grown fresh o.fresh (leaves c ++ leaves_branches r))
              (sym (
                ap leaves_branches (
                  merge-branch k c o.branches o.split
                    (Late-branch k id hi r o.split t h.3 m.late))))
              (append-Grown fresh o.fresh (leaves c) (leaves_branches r)
                (leaves_branches (merge o.branches o.split))
                (insert_branches-Grown r fresh (some k) hi b t h.3)))
    ]
