-- ===== src/BpTree/Balance.antt =====
-- src/bptree.c: every insertion keeps the tree balanced, under its order and half full.
use jungle_w8_minisql_server.Prelude.{
  ℕ, zero, suc, ◌-◌, ◌/◌, ◌≤◌, ◌≡◌, refl, ap, ◌⊎◌, inl, inr, Option, none, some, arith, Bool-cases,
  ℤ,
}
use jungle_w8_minisql_server.BpTree.Node.{
  Node, leaf, internal, Branches, done, branch, num_keys, stops_at, BpTree, insert, grow_root,
  Outcome, BranchOutcome, insert_rec, insert_branches,
}
use jungle_w8_minisql_server.BpTree.Shape.{
  Full, FullBranches, HalfFull, FullSplit, SiblingFull, settle-FullSplit, insert_leaf-FullSplit,
}

HalfFull-of_FullSplit :
    (order d : ℕ) (n : Node) (split : Option (ℤ × Node))
    → FullSplit order (order / 2) ((order - 1) / 2) d n split
    → HalfFull order d n × SiblingFull order d split
HalfFull-of_FullSplit order d n none h = (h, tt)
HalfFull-of_FullSplit order d n (some (k, right)) h = h

module _ (order : ℕ) (wide : 3 ≤ order) (id row : ℤ) where
  -- Branches after an insertion: as many as before, and half full.
  record Kept (d n : ℕ) (b : BranchOutcome) : Type 0 where
    full : FullBranches order d b.branches
    sibling : SiblingFull order d b.split
    count : num_keys b.branches ≡ n

  mutual
    unfolding insert_rec num_keys

    pub insert_rec-FullSplit :
        (n : Node) (fresh a b d : ℕ)
        → Full order a b d n
        → FullSplit order a b d
            (insert_rec order fresh id row n).node
            (insert_rec order fresh id row n).split
    insert_rec-FullSplit (leaf address next es) fresh a b zero h =
        insert_leaf-FullSplit order wide a b fresh id row address next es h.1 h.0
    insert_rec-FullSplit (leaf address next es) fresh a b (suc d) h = absurd h
    insert_rec-FullSplit (internal c bs) fresh a b zero h = absurd h
    insert_rec-FullSplit (internal c bs) fresh a b (suc d) h = elim (Bool-cases (stops_at id bs)) [
      | inl s ↦
          let o = insert_rec order fresh id row c in
          let (half, sib) =
            HalfFull-of_FullSplit order d o.node o.split
              (insert_rec-FullSplit c fresh (order / 2) ((order - 1) / 2) d h.2) in
          rw s (settle-FullSplit order wide a b d o.fresh o.node bs o.split h.1 h.0 half h.3 sib)
      | inr s ↦
          let o = insert_branches order fresh id row bs in
          let k = insert_branches-Kept bs fresh d h.3 in
          rw s (
            settle-FullSplit order wide a b d o.fresh c o.branches o.split (omega (arith, k.count))
              (omega (arith, k.count)) h.2 k.full k.sibling)
    ]

    insert_branches-Kept :
        (bs : Branches) (fresh d : ℕ)
        → FullBranches order d bs
        → Kept d (num_keys bs) (insert_branches order fresh id row bs)
    insert_branches-Kept done fresh d h = record { full = tt; sibling = tt; count = refl }
    insert_branches-Kept (branch k c r) fresh d h = elim (Bool-cases (stops_at id r)) [
      | inl s ↦
          let o = insert_rec order fresh id row c in
          let (half, sib) =
            HalfFull-of_FullSplit order d o.node o.split
              (insert_rec-FullSplit c fresh (order / 2) ((order - 1) / 2) d h.0) in
          rw s (record { full = (half, h.1); sibling = sib; count = refl })
      | inr s ↦
          let m = insert_branches-Kept r fresh d h.1 in
          rw s (record { full = (h.0, m.full); sibling = m.sibling; count = ap suc m.count })
    ]

-- The root may hold fewer entries than half, but an internal root has a key.
pub record IsBalanced (t : BpTree) (depth : ℕ) : Type 0 where
  pub wide : 3 ≤ t.order
  pub full : Full t.order 0 1 depth t.root

-- An insertion into a balanced tree gives a balanced tree of the same depth or of one level more.
pub insert-IsBalanced :
    (t : BpTree) (id row : ℤ) (depth : ℕ)
    → IsBalanced t depth
    → IsBalanced (insert t id row) depth ⊎ IsBalanced (insert t id row) (suc depth)
unfolding insert num_keys
insert-IsBalanced t id row depth h =
    go (insert_rec t.order t.fresh id row t.root)
      (insert_rec-FullSplit t.order h.wide id row t.root t.fresh 0 1 depth h.full)
  where
    grown :
        (o : Outcome) (s : Option (ℤ × Node))
        → FullSplit t.order 0 1 depth o.node s
        → IsBalanced (grow_root t.order (record o { split = s })) depth
          ⊎ IsBalanced (grow_root t.order (record o { split = s })) (suc depth)
    grown o none f = inl (record { wide = h.wide; full = f })
    grown o (some (k, right)) f =
        inr (record { wide = h.wide; full = (ground arith, ground arith, f.0, (f.1, tt)) })

    go :
        (o : Outcome)
        → FullSplit t.order 0 1 depth o.node o.split
        → IsBalanced (grow_root t.order o) depth ⊎ IsBalanced (grow_root t.order o) (suc depth)
    go o f = grown o o.split f
