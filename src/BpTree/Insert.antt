-- ===== src/BpTree/Insert.antt =====
-- src/bptree.c: an insertion keeps the order of the tree and inserts into its sorted entries.
use jungle_w8_minisql_server.Prelude.{
  ℕ, ◌≤◌, ◌≡◌, refl, ap, sym, subst, ◌∙◌, inl, inr, true, false, Option, none, some, List, ◌++◌,
  arith, Bool-cases, ℤ,
}
use jungle_w8_minisql_server.BpTree.Node.{
  Entry, Node, leaf, internal, Branches, done, branch, stops_at, leaf_insert_sorted, Outcome,
  BranchOutcome, insert_rec, insert_branches, internal_insert_nonfull, settle,
}
use jungle_w8_minisql_server.BpTree.Order.{
  ◌<ℤ◌, AtLeast, Below, head_key, AllAbove, AllAbove-append, AllUnder, Ordered, OrderedBranches,
  entries, entries_branches, above_of_Ordered, above_of_OrderedBranches, under_of_Ordered,
}
use jungle_w8_minisql_server.BpTree.Leaves.{
  leaf_insert_sorted-append_above, leaf_insert_sorted-append_under,
}
use jungle_w8_minisql_server.BpTree.Split.{
  OrderedSplit, Inserted, merge, insert_leaf-Inserted, place_split, settle-Inserted,
}

-- The descent stops before keys above the id, and goes past keys that the id reaches.
pub above_of_stop :
    (id : ℤ) (lo hi : Option ℤ) (bs : Branches)
    → stops_at id bs ≡ true
    → OrderedBranches lo hi bs
    → AllAbove id (entries_branches bs)
unfolding stops_at entries
above_of_stop id lo hi done s h = tt
above_of_stop id lo hi (branch k c r) s h =
    AllAbove-append id (entries c) (entries_branches r)
      (above_of_Ordered c id k (head_key hi r) (ground arith) h.2)
      (above_of_OrderedBranches r id k hi (ground arith) h.3)

pub under_of_pass :
    (id : ℤ) (lo hi : Option ℤ) (c : Node) (bs : Branches)
    → stops_at id bs ≡ false
    → Ordered lo (head_key hi bs) c
    → AllUnder id (entries c)
unfolding stops_at
under_of_pass id lo hi c done s h = cc
under_of_pass id lo hi c (branch k d r) s h = under_of_Ordered c id k lo (ground arith) h

pub Below-of_stop :
    (id : ℤ) (hi : Option ℤ) (bs : Branches)
    → stops_at id bs ≡ true
    → Below id hi
    → Below id (head_key hi bs)
unfolding stops_at
Below-of_stop id hi done s b = b
Below-of_stop id hi (branch k c r) s b = ground arith

-- A pending key comes after the first key of the branches.
abbrev pub LateKey : ℤ → Option (ℤ × Node) → Type 0
LateKey k none = Unit
LateKey k (some (key, right)) = k <ℤ key

abbrev pub Late : Branches → Option (ℤ × Node) → Type 0
Late done split = Unit
Late (branch k c r) split = LateKey k split

pub late_of_OrderedSplit :
    (k : ℤ) (hi : Option ℤ) (n : Node) (split : Option (ℤ × Node))
    → OrderedSplit (some k) hi n split
    → LateKey k split
late_of_OrderedSplit k hi n none o = tt
late_of_OrderedSplit k hi n (some (key, right)) o = o.0

pub Late-branch :
    (k id : ℤ) (hi : Option ℤ) (r : Branches) (split : Option (ℤ × Node))
    → stops_at id r ≡ false
    → OrderedBranches (some k) hi r
    → Late r split
    → LateKey k split
unfolding stops_at
Late-branch k id hi done split s h l = cc
Late-branch k id hi (branch j c r) none s h l = tt
Late-branch k id hi (branch j c r) (some (key, right)) s h l = omega arith

pub merge-branch :
    (k : ℤ) (n : Node) (bs : Branches) (split : Option (ℤ × Node))
    → LateKey k split
    → merge (branch k n bs) split ≡ branch k n (merge bs split)
unfolding internal_insert_nonfull
merge-branch k n bs none l = refl
merge-branch k n bs (some (key, right)) l = ground arith

module _ (order : ℕ) (two : 2 ≤ order) (id row : ℤ) where
  abbrev pub put : List Entry → List Entry
  put = leaf_insert_sorted id row

  -- Branches after an insertion, with the sibling of a split child in place.
  pub record Merged (lo hi : Option ℤ) (bs : Branches) (b : BranchOutcome) : Type 0 where
    pub ordered : OrderedBranches lo hi (merge b.branches b.split)
    pub same : entries_branches (merge b.branches b.split) ≡ put (entries_branches bs)
    pub head : head_key hi (merge b.branches b.split) ≡ head_key hi bs
    pub late : Late bs b.split

  child_case :
      (k : ℤ) (c : Node) (r : Branches) (o : Outcome) (lo hi : Option ℤ)
      → stops_at id r ≡ true
      → OrderedBranches lo hi (branch k c r)
      → Inserted (some k) (head_key hi r) (put (entries c)) o
      → Merged lo hi
          (branch k c r)
          (record { branches = branch k o.node r; fresh = o.fresh; split = o.split })
  unfolding entries
  child_case k c r o lo hi s h i =
      let p = place_split (some k) hi o.node r o.split i.ordered h.3 in
      let e =
        merge-branch k o.node r o.split
          (late_of_OrderedSplit k (head_key hi r) o.node o.split i.ordered) in
      record {
        ordered = subst (OrderedBranches lo hi) (sym e) (h.0, h.1, p.child, p.rest);
        same =
            ap entries_branches e
            ∙ p.same
            ∙ ap (λ t. t ++ entries_branches r) i.same
            ∙ sym (
                leaf_insert_sorted-append_above id row (entries c) (entries_branches r)
                  (above_of_stop id (some k) hi r s h.3));
        head = ap (head_key hi) e;
        late = late_of_OrderedSplit k (head_key hi r) o.node o.split i.ordered;
      }

  rest_case :
      (k : ℤ) (c : Node) (r : Branches) (b : BranchOutcome) (lo hi : Option ℤ)
      → stops_at id r ≡ false
      → OrderedBranches lo hi (branch k c r)
      → Merged (some k) hi r b
      → Merged lo hi
          (branch k c r)
          (record { branches = branch k c b.branches; fresh = b.fresh; split = b.split })
  unfolding entries
  rest_case k c r b lo hi s h m =
      let late = Late-branch k id hi r b.split s h.3 m.late in
      let e = merge-branch k c b.branches b.split late in
      record {
        ordered =
            subst (OrderedBranches lo hi) (sym e)
              (h.0, h.1, subst (λ t. Ordered (some k) t c) (sym m.head) h.2, m.ordered);
        same =
            ap entries_branches e
            ∙ ap (λ t. entries c ++ t) m.same
            ∙ sym (
                leaf_insert_sorted-append_under id row (entries c) (entries_branches r)
                  (under_of_pass id (some k) hi c r s h.2));
        head = ap (head_key hi) e;
        late = late;
      }

  settle_child :
      (c : Node) (bs : Branches) (o : Outcome) (lo hi : Option ℤ)
      → stops_at id bs ≡ true
      → OrderedBranches lo hi bs
      → Inserted lo (head_key hi bs) (put (entries c)) o
      → Inserted lo hi (put (entries (internal c bs))) (settle order o.fresh o.node bs o.split)
  unfolding entries
  settle_child c bs o lo hi s h i =
      let p = place_split lo hi o.node bs o.split i.ordered h in
      subst (λ t. Inserted lo hi t (settle order o.fresh o.node bs o.split))
        (p.same
          ∙ ap (λ t. t ++ entries_branches bs) i.same
          ∙ sym (
              leaf_insert_sorted-append_above id row (entries c) (entries_branches bs)
                (above_of_stop id lo hi bs s h)))
        (settle-Inserted lo hi order o.fresh o.node bs o.split two p.child p.rest)

  settle_rest :
      (c : Node) (bs : Branches) (b : BranchOutcome) (lo hi : Option ℤ)
      → stops_at id bs ≡ false
      → Ordered lo (head_key hi bs) c
      → Merged lo hi bs b
      → Inserted lo hi (put (entries (internal c bs))) (settle order b.fresh c b.branches b.split)
  unfolding entries
  settle_rest c bs b lo hi s h m =
      subst (λ t. Inserted lo hi t (settle order b.fresh c b.branches b.split))
        (ap (λ t. entries c ++ t) m.same
          ∙ sym (
              leaf_insert_sorted-append_under id row (entries c) (entries_branches bs)
                (under_of_pass id lo hi c bs s h)))
        (settle-Inserted lo hi order b.fresh c b.branches b.split two
          (subst (λ t. Ordered lo t c) (sym m.head) h) m.ordered)

  mutual
    unfolding insert_rec entries

    pub insert_rec-Inserted :
        (n : Node) (fresh : ℕ) (lo hi : Option ℤ)
        → AtLeast lo id
        → Below id hi
        → Ordered lo hi n
        → Inserted lo hi (put (entries n)) (insert_rec order fresh id row n)
    insert_rec-Inserted (leaf a nx es) fresh lo hi l b h =
        insert_leaf-Inserted order fresh id row a nx es lo hi two l b h
    insert_rec-Inserted (internal c bs) fresh lo hi l b h = elim (Bool-cases (stops_at id bs)) [
      | inl s ↦
          let i =
            insert_rec-Inserted c fresh lo (head_key hi bs) l (Below-of_stop id hi bs s b) h.0 in
          rw s (settle_child c bs (insert_rec order fresh id row c) lo hi s h.1 i)
      | inr s ↦ rw s (
          settle_rest c bs (insert_branches order fresh id row bs) lo hi s h.0
            (insert_branches-Merged bs fresh lo hi b s h.1))
    ]

    pub insert_branches-Merged :
        (bs : Branches) (fresh : ℕ) (lo hi : Option ℤ)
        → Below id hi
        → stops_at id bs ≡ false
        → OrderedBranches lo hi bs
        → Merged lo hi bs (insert_branches order fresh id row bs)
    insert_branches-Merged done fresh lo hi b s h = cc
    insert_branches-Merged (branch k c r) fresh lo hi b s h = elim (Bool-cases (stops_at id r)) [
      | inl t ↦ rw t (
          child_case k c r (insert_rec order fresh id row c) lo hi t h (
            insert_rec-Inserted c fresh (some k) (head_key hi r) (ground arith)
              (Below-of_stop id hi r t b) h.2))
      | inr t ↦ rw t (
          rest_case k c r (insert_branches order fresh id row r) lo hi t h
            (insert_branches-Merged r fresh (some k) hi b t h.3))
    ]
