-- ===== src/BpTree/Shape.antt =====
-- src/bptree.c: the tree stays balanced, no node keeps `order` keys, and no node but the root is
-- less than half full. So no array of a node is written past its end.
use jungle_w8_minisql_server.Prelude.{
  ℕ, zero, suc, ◌-◌, ◌/◌, ◌≤◌, ◌<◌, ◌≡◌, refl, inl, inr, Option, none, some, List, length,
  length-take, length-drop, arith, ltb, Bool-cases, ℤ, lez,
}
use jungle_w8_minisql_server.BpTree.Node.{
  Entry, Node, leaf, internal, Branches, done, branch, num_keys, leaf_insert_sorted, insert_leaf,
  split_leaf, settle, internal_insert_nonfull, split_internal, split_at, take_branches,
  drop_branches,
}
use jungle_w8_minisql_server.BpTree.Leaves.{length-leaf_insert_sorted}

-- A node of the given depth under the order, with at least so many entries or keys itself, and
-- children that are half full.
abbrev mutual
  pub Full : ℕ → ℕ → ℕ → ℕ → Node → Type 0
  Full order a b zero (leaf address next es) = (length es < order) × (a ≤ length es)
  Full order a b zero (internal c bs) = ⊥
  Full order a b (suc d) (leaf address next es) = ⊥
  Full order a b (suc d) (internal c bs) =
      (num_keys bs < order)
      × (b ≤ num_keys bs)
      × Full order (order / 2) ((order - 1) / 2) d c
      × FullBranches order d bs

  pub FullBranches : ℕ → ℕ → Branches → Type 0
  FullBranches order d done = Unit
  FullBranches order d (branch k c r) =
      Full order (order / 2) ((order - 1) / 2) d c × FullBranches order d r

abbrev pub HalfFull : ℕ → ℕ → Node → Type 0
HalfFull order d n = Full order (order / 2) ((order - 1) / 2) d n

-- The outcome of an insertion: the node still fits, or it was split into two half full nodes.
abbrev pub FullSplit : ℕ → ℕ → ℕ → ℕ → Node → Option (ℤ × Node) → Type 0
FullSplit order a b d n none = Full order a b d n
FullSplit order a b d n (some (k, right)) = HalfFull order d n × HalfFull order d right

-- The sibling of a split child, if there is one, is half full.
abbrev pub SiblingFull : ℕ → ℕ → Option (ℤ × Node) → Type 0
SiblingFull order d none = Unit
SiblingFull order d (some (k, right)) = HalfFull order d right

num_keys-internal_insert_nonfull :
    (k : ℤ) (right : Node) (bs : Branches)
    → num_keys (internal_insert_nonfull k right bs) ≡ suc (num_keys bs)
unfolding num_keys internal_insert_nonfull
num_keys-internal_insert_nonfull k right done = refl
num_keys-internal_insert_nonfull k right (branch j c r) =
    ground (arith, num_keys-internal_insert_nonfull k right r)

num_keys-take_branches :
    (n : ℕ) (bs : Branches) → n ≤ num_keys bs → num_keys (take_branches n bs) ≡ n
unfolding num_keys take_branches
num_keys-take_branches zero bs h = refl
num_keys-take_branches (suc n) done h = absurd (omega arith)
num_keys-take_branches (suc n) (branch k c r) h =
    omega (arith, num_keys-take_branches n r (omega arith))

num_keys-drop_branches : (n : ℕ) (bs : Branches) → num_keys (drop_branches n bs) ≡ num_keys bs - n
unfolding num_keys drop_branches
num_keys-drop_branches zero bs = omega arith
num_keys-drop_branches (suc n) done = omega arith
num_keys-drop_branches (suc n) (branch k c r) = omega (arith, num_keys-drop_branches n r)

module _ (order : ℕ) (wide : 3 ≤ order) where
  internal_insert_nonfull-FullBranches :
      (d : ℕ) (k : ℤ) (right : Node) (bs : Branches)
      → FullBranches order d bs
      → HalfFull order d right
      → FullBranches order d (internal_insert_nonfull k right bs)
  unfolding internal_insert_nonfull
  internal_insert_nonfull-FullBranches d k right done h r = (r, tt)
  internal_insert_nonfull-FullBranches d k right (branch j c bs) h r = elim (Bool-cases (lez j k)) [
    | inl past ↦ rw past (h.0, internal_insert_nonfull-FullBranches d k right bs h.1 r)
    | inr here ↦ rw here (r, h)
  ]

  take_branches-FullBranches :
      (d n : ℕ) (bs : Branches)
      → FullBranches order d bs
      → FullBranches order d (take_branches n bs)
  unfolding take_branches
  take_branches-FullBranches d zero bs h = tt
  take_branches-FullBranches d (suc n) done h = tt
  take_branches-FullBranches d (suc n) (branch k c r) h =
      (h.0, take_branches-FullBranches d n r h.1)

  drop_branches-FullBranches :
      (d n : ℕ) (bs : Branches)
      → FullBranches order d bs
      → FullBranches order d (drop_branches n bs)
  unfolding drop_branches
  drop_branches-FullBranches d zero bs h = h
  drop_branches-FullBranches d (suc n) done h = tt
  drop_branches-FullBranches d (suc n) (branch k c r) h = drop_branches-FullBranches d n r h.1

  split_at-FullSplit :
      (a b d : ℕ) (c : Node) (left : Branches) (fresh : ℕ) (right : Branches)
      → num_keys left ≡ order / 2
      → num_keys right ≡ order - order / 2
      → HalfFull order d c
      → FullBranches order d left
      → FullBranches order d right
      → FullSplit order a b
          (suc d)
          (split_at c left fresh right).node
          (split_at c left fresh right).split
  unfolding split_at num_keys
  split_at-FullSplit a b d c left fresh done nl nr h l r = absurd (omega arith)
  split_at-FullSplit a b d c left fresh (branch k e bs) nl nr h l r =
      ((omega arith, omega arith, h, l), (omega arith, omega arith, r.0, r.1))

  pub settle-FullSplit :
      (a b d fresh : ℕ) (c : Node) (bs : Branches) (split : Option (ℤ × Node))
      → b ≤ num_keys bs
      → num_keys bs < order
      → HalfFull order d c
      → FullBranches order d bs
      → SiblingFull order d split
      → FullSplit order a b
          (suc d)
          (settle order fresh c bs split).node
          (settle order fresh c bs split).split
  unfolding settle split_internal
  settle-FullSplit a b d fresh c bs none lo hi h g s = (hi, lo, h, g)
  settle-FullSplit a b d fresh c bs (some (k, right)) lo hi h g s =
      elim (Bool-cases (ltb (num_keys (internal_insert_nonfull k right bs)) order)) [
        | inl room ↦ rw room (
          ground arith,
          omega (arith, num_keys-internal_insert_nonfull k right bs),
          h,
          internal_insert_nonfull-FullBranches d k right bs g s,
        )
        | inr full ↦
            let bs' = internal_insert_nonfull k right bs in
            let n : num_keys bs' ≡ order =
              ground (arith, num_keys-internal_insert_nonfull k right bs) in
            let g' = internal_insert_nonfull-FullBranches d k right bs g s in
            rw full (
              split_at-FullSplit a b d c (take_branches (order / 2) bs') fresh
                (drop_branches (order / 2) bs')
                (num_keys-take_branches (order / 2) bs' (omega arith))
                (omega (arith, num_keys-drop_branches (order / 2) bs')) h
                (take_branches-FullBranches d (order / 2) bs' g')
                (drop_branches-FullBranches d (order / 2) bs' g'))
      ]

  pub insert_leaf-FullSplit :
      (a b fresh : ℕ) (id row : ℤ) (address : ℕ) (next : Option ℕ) (es : List Entry)
      → a ≤ length es
      → length es < order
      → FullSplit order a b zero
          (insert_leaf order fresh id row address next es).node
          (insert_leaf order fresh id row address next es).split
  unfolding insert_leaf split_leaf
  insert_leaf-FullSplit a b fresh id row address next es lo hi =
      let es' = leaf_insert_sorted id row es in
      let (grows, by_one) = length-leaf_insert_sorted id row es in
      elim (Bool-cases (ltb (length es') order)) [
        | inl room ↦ rw room (ground arith, omega arith)
        | inr full ↦
            let n : length es' ≡ order = ground arith in
            rw full (
              (
                omega (arith, length-take (order / 2) es'),
                omega (arith, length-take (order / 2) es'),
              ),
              (
                omega (arith, length-drop (order / 2) es'),
                omega (arith, length-drop (order / 2) es'),
              ),
            )
      ]
