-- ===== src/BpTree/Split.antt =====
-- src/bptree.c: placing the sibling of a split child in its parent, and splitting the parent.
use mathlib.Core.List.{append_assoc}
use jungle_w8_minisql_server.Prelude.{
  ℕ, zero, suc, ◌/◌, ◌≤◌, ◌<◌, ◌≡◌, refl, sym, subst, inl, inr, Option, none, some, List, ◌++◌,
  length, take-append-drop, arith, ltb, Bool-cases, ℤ,
}
use jungle_w8_minisql_server.BpTree.Node.{
  Entry, Node, Branches, done, branch, num_keys, leaf_insert_sorted, Outcome, split_leaf,
  insert_leaf, internal_insert_nonfull, take_branches, drop_branches, split_at, split_internal,
  settle,
}
use jungle_w8_minisql_server.BpTree.Order.{
  AtLeast, Below, Below-le, Above, Above-trans, head_key, SortedIn, Ordered, OrderedBranches,
  entries, entries_branches,
}
use jungle_w8_minisql_server.BpTree.Leaves.{leaf_insert_sorted-SortedIn, SortedIn-Halves}

-- A node with the sibling that a split leaves to its parent.
abbrev pub OrderedSplit : Option ℤ → Option ℤ → Node → Option (ℤ × Node) → Type 0
OrderedSplit lo hi n none = Ordered lo hi n
OrderedSplit lo hi n (some (k, right)) =
    Above lo k × Below k hi × Ordered lo (some k) n × Ordered (some k) hi right

abbrev pub split_entries : Node → Option (ℤ × Node) → List Entry
split_entries n none = entries n
split_entries n (some (k, right)) = entries n ++ entries right

pub record Inserted (lo hi : Option ℤ) (es : List Entry) (o : Outcome) : Type 0 where
  pub ordered : OrderedSplit lo hi o.node o.split
  pub same : split_entries o.node o.split ≡ es

abbrev pub merge : Branches → Option (ℤ × Node) → Branches
merge bs none = bs
merge bs (some (k, right)) = internal_insert_nonfull k right bs

pub insert_leaf-Inserted :
    (order fresh : ℕ) (id row : ℤ) (address : ℕ) (next : Option ℕ) (es : List Entry)
    (lo hi : Option ℤ)
    → 2 ≤ order
    → AtLeast lo id
    → Below id hi
    → SortedIn lo hi es
    → Inserted lo hi (leaf_insert_sorted id row es) (insert_leaf order fresh id row address next es)
unfolding insert_leaf split_leaf entries
insert_leaf-Inserted order fresh id row address next es lo hi two l b h =
    elim (Bool-cases (ltb (length es') order)) [
      | inl room ↦ rw (room) (record { ordered = sorted; same = refl })
      | inr full ↦
          let p = SortedIn-Halves lo hi es' (order / 2) (ground arith) sorted in
          rw (full) (record {
            ordered = (p.above (omega arith), p.below, p.left, p.right);
            same = take-append-drop (order / 2) es';
          })
    ]
  where
    es' : List Entry
    es' = leaf_insert_sorted id row es

    sorted : SortedIn lo hi es'
    sorted = leaf_insert_sorted-SortedIn id row lo hi es l b h

OrderedBranches-rebase :
    (lo hi : Option ℤ) (k : ℤ) (bs : Branches)
    → Below k (head_key none bs)
    → OrderedBranches lo hi bs
    → OrderedBranches (some k) hi bs
OrderedBranches-rebase lo hi k done b h = tt
OrderedBranches-rebase lo hi k (branch j c r) b h = (omega arith, h.1, h.2, h.3)

pub Below-head_key :
    (hi : Option ℤ) (lo : Option ℤ) (k : ℤ) (bs : Branches)
    → Below k (head_key hi bs)
    → OrderedBranches lo hi bs
    → Below k hi × Below k (head_key none bs)
Below-head_key hi lo k done b h = (b, tt)
Below-head_key hi lo k (branch j c r) b h = (Below-le hi k j h.1 (omega arith), b)

pub internal_insert_nonfull_stop :
    (k : ℤ) (right : Node) (bs : Branches)
    → Below k (head_key none bs)
    → internal_insert_nonfull k right bs ≡ branch k right bs
unfolding internal_insert_nonfull
internal_insert_nonfull_stop k right done b = refl
internal_insert_nonfull_stop k right (branch j c r) b = ground arith

-- The sibling of the child before the branches goes to their front.
pub record Placed (lo hi : Option ℤ) (n : Node) (bs : Branches) (split : Option (ℤ × Node))
    : Type 0 where
  pub child : Ordered lo (head_key hi (merge bs split)) n
  pub rest : OrderedBranches lo hi (merge bs split)
  pub same :
      entries n ++ entries_branches (merge bs split) ≡ split_entries n split ++ entries_branches bs

pub place_split :
    (lo hi : Option ℤ) (n : Node) (bs : Branches) (split : Option (ℤ × Node))
    → OrderedSplit lo (head_key hi bs) n split
    → OrderedBranches lo hi bs
    → Placed lo hi n bs split
unfolding entries
place_split lo hi n bs none o h = record { child = o; rest = h; same = refl }
place_split lo hi n bs (some (k, right)) o h =
    let (below, stop) = Below-head_key hi lo k bs o.1 h in
    let e = internal_insert_nonfull_stop k right bs stop in
    record {
      child = subst (λ t. Ordered lo (head_key hi t) n) (sym e) o.2;
      rest =
          subst (λ t. OrderedBranches lo hi t) (sym e)
            (o.0, below, o.3, OrderedBranches-rebase lo hi k bs stop h);
      same = simp (e, append_assoc);
    }

-- What is left of the branches from the key that moves up: the key, its child and the rest.
abbrev Cut : Option ℤ → Option ℤ → Branches → Branches → Branches → Type 0
Cut lo hi bs left done = ⊥
Cut lo hi bs left (branch k c r) =
    Above lo k
    × Below k hi
    × OrderedBranches lo (some k) left
    × Ordered (some k) (head_key hi r) c
    × OrderedBranches (some k) hi r
    × (entries_branches bs ≡ entries_branches left ++ (entries c ++ entries_branches r))
    × (head_key hi bs ≡ head_key (some k) left)

Cut-suc :
    (lo hi : Option ℤ) (j : ℤ) (d : Node) (bs left right : Branches)
    → Above lo j
    → Below j hi
    → Ordered (some j) (head_key hi bs) d
    → Cut (some j) hi bs left right
    → Cut lo hi (branch j d bs) (branch j d left) right
unfolding entries
Cut-suc lo hi j d bs left done l b o h = h
Cut-suc lo hi j d bs left (branch k c r) l b o h = (
  Above-trans lo j k l h.0,
  h.1,
  (l, h.0, subst (λ t. Ordered (some j) t d) h.6 o, h.2),
  h.3,
  h.4,
  simp (h.5, append_assoc),
  refl,
)

Cut-branches :
    (lo hi : Option ℤ) (bs : Branches) (n : ℕ)
    → n < num_keys bs
    → OrderedBranches lo hi bs
    → Cut lo hi bs (take_branches n bs) (drop_branches n bs)
unfolding num_keys take_branches drop_branches entries
Cut-branches lo hi done n lt h = absurd (omega arith)
Cut-branches lo hi (branch k c r) zero lt h = (h.0, h.1, tt, h.2, h.3, refl, refl)
Cut-branches lo hi (branch k c r) (suc n) lt h =
    Cut-suc lo hi k c r _ (drop_branches n r) h.0 h.1 h.2
      (Cut-branches (some k) hi r n (omega arith) h.3)

split_at-Inserted :
    (lo hi : Option ℤ) (fresh : ℕ) (c : Node) (bs left right : Branches)
    → Ordered lo (head_key hi bs) c
    → Cut lo hi bs left right
    → Inserted lo hi (entries c ++ entries_branches bs) (split_at c left fresh right)
unfolding split_at entries
split_at-Inserted lo hi fresh c bs left done o h = absurd h
split_at-Inserted lo hi fresh c bs left (branch k d r) o h = record {
  ordered = (h.0, h.1, (subst (λ t. Ordered lo t c) h.6 o, h.2), (h.3, h.4));
  same = simp (h.5, append_assoc);
}

-- What `insert_rec` makes of the node once its child is placed.
pub settle-Inserted :
    (lo hi : Option ℤ) (order fresh : ℕ) (c : Node) (bs : Branches) (split : Option (ℤ × Node))
    → 2 ≤ order
    → Ordered lo (head_key hi (merge bs split)) c
    → OrderedBranches lo hi (merge bs split)
    → Inserted lo hi
        (entries c ++ entries_branches (merge bs split))
        (settle order fresh c bs split)
unfolding settle split_internal entries
settle-Inserted lo hi order fresh c bs none two o h = record { ordered = (o, h); same = refl }
settle-Inserted lo hi order fresh c bs (some (k, right)) two o h =
    let bs' = internal_insert_nonfull k right bs in
    elim (Bool-cases (ltb (num_keys bs') order)) [
      | inl room ↦ rw room (record { ordered = (o, h); same = refl })
      | inr full ↦ rw full (
          split_at-Inserted lo hi fresh c bs' _ _ o
            (Cut-branches lo hi bs' (order / 2) (ground arith) h))
    ]
