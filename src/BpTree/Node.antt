-- ===== src/BpTree/Node.antt =====
-- src/bptree.c: nodes, insertion with splits, point search and range scan.
use jungle_w8_minisql_server.Prelude.{
  ℕ, zero, suc, ◌+◌, ◌-◌, ◌/◌, Bool, true, false, ◌||◌, Option, none, some, List, [], ◌∷◌, ◌++◌,
  length, take, drop, ltb, ◌==◌, if◌then◌else◌, ℤ, pos, negsuc, pos_part, ltz, lez, eqz,
}

abbrev pub Entry : Type 0
Entry = ℤ × ℤ

-- `Node`. A leaf carries its own address, for the `next` pointers of other leaves; its `keys` and
-- `row_indices` are one list of pairs. An internal node's `keys[i]` stands with `children[i + 1]`.
mutual
  pub data Node : Type 0 where
    leaf : (address : ℕ) → (next : Option ℕ) → List Entry → Node
    internal : Node → Branches → Node

  pub data Branches : Type 0 where
    done : Branches
    branch : ℤ → Node → Branches → Branches

-- `num_keys` of an internal node.
unfoldable pub num_keys : Branches → ℕ
num_keys done = 0
num_keys (branch k c r) = suc (num_keys r)

-- `struct BPTree`; `fresh` is the address that the next leaf gets.
pub record BpTree : Type 0 where
  pub order : ℕ
  pub root : Node
  pub fresh : ℕ

-- `bptree_create`; NULL is `none`.
unfoldable pub create : ℤ → Option BpTree
create order =
    if ltz order (pos 3)
    then none
    else some (record { order = pos_part order; root = leaf 0 none []; fresh = 1 })

-- The test of `internal_child_idx` at the next key: `id` belongs to the child before it.
unfoldable pub stops_at : ℤ → Branches → Bool
stops_at id done = true
stops_at id (branch k c r) = ltz id k

unfoldable pub leaf_insert_sorted : ℤ → ℤ → List Entry → List Entry
leaf_insert_sorted id row [] = (id, row) ∷ []
leaf_insert_sorted id row ((k, r) ∷ es) =
    let rest = leaf_insert_sorted id row es in
    if ltz k id then (k, r) ∷ rest else if eqz k id then (k, row) ∷ es else (id, row) ∷ (k, r) ∷ es

-- The node after an insertion, and the promoted key with the new right sibling if it was split.
pub record Outcome : Type 0 where
  pub node : Node
  pub fresh : ℕ
  pub split : Option (ℤ × Node)

-- `right->keys[0]`
unfoldable pub first_key : List Entry → ℤ
first_key [] = pos 0
first_key ((k, r) ∷ es) = k

unfoldable pub split_leaf : ℕ → ℕ → ℕ → Option ℕ → List Entry → Outcome
split_leaf order fresh address next es =
    let mid = order / 2 in
    record {
      node = leaf address (some fresh) (take mid es);
      fresh = fresh + 1;
      split = some (first_key (drop mid es), leaf fresh next (drop mid es));
    }

unfoldable pub insert_leaf : ℕ → ℕ → ℤ → ℤ → ℕ → Option ℕ → List Entry → Outcome
insert_leaf order fresh id row address next es =
    let es' = leaf_insert_sorted id row es in
    if ltb (length es') order
    then record { node = leaf address next es'; fresh = fresh; split = none }
    else split_leaf order fresh address next es'

unfoldable pub internal_insert_nonfull : ℤ → Node → Branches → Branches
internal_insert_nonfull key right done = branch key right done
internal_insert_nonfull key right (branch k c r) =
    let rest = internal_insert_nonfull key right r in
    if lez k key then branch k c rest else branch key right (branch k c r)

unfoldable pub take_branches : ℕ → Branches → Branches
take_branches zero bs = done
take_branches (suc n) done = done
take_branches (suc n) (branch k c r) = branch k c (take_branches n r)

unfoldable pub drop_branches : ℕ → Branches → Branches
drop_branches zero bs = bs
drop_branches (suc n) done = done
drop_branches (suc n) (branch k c r) = drop_branches n r

-- `split_internal`: the key at `mid` moves up and stays on neither side.
unfoldable pub split_at : Node → Branches → ℕ → Branches → Outcome
split_at c left fresh done = record { node = internal c left; fresh = fresh; split = none }
split_at c left fresh (branch k c' r) = record {
  node = internal c left;
  fresh = fresh;
  split = some (k, internal c' r);
}

unfoldable pub split_internal : ℕ → ℕ → Node → Branches → Outcome
unfolding take_branches drop_branches split_at
split_internal order fresh c bs =
    split_at c (take_branches (order / 2) bs) fresh (drop_branches (order / 2) bs)

-- The end of `insert_rec`: what a split of the child does to the node.
unfoldable pub settle : ℕ → ℕ → Node → Branches → Option (ℤ × Node) → Outcome
settle order fresh c bs none = record { node = internal c bs; fresh = fresh; split = none }
settle order fresh c bs (some (key, right)) =
    let bs' = internal_insert_nonfull key right bs in
    if ltb (num_keys bs') order
    then record { node = internal c bs'; fresh = fresh; split = none }
    else split_internal order fresh c bs'

-- A list of branches after an insertion into one of their children.
pub record BranchOutcome : Type 0 where
  pub branches : Branches
  pub fresh : ℕ
  pub split : Option (ℤ × Node)

unfoldable mutual
  unfolding insert_leaf stops_at settle

  pub insert_rec : ℕ → ℕ → ℤ → ℤ → Node → Outcome
  insert_rec order fresh id row (leaf address next es) =
      insert_leaf order fresh id row address next es
  insert_rec order fresh id row (internal c bs) =
      let o = insert_rec order fresh id row c in
      let b = insert_branches order fresh id row bs in
      if stops_at id bs
      then settle order o.fresh o.node bs o.split
      else settle order b.fresh c b.branches b.split

  pub insert_branches : ℕ → ℕ → ℤ → ℤ → Branches → BranchOutcome
  insert_branches order fresh id row done = record { branches = done; fresh = fresh; split = none }
  insert_branches order fresh id row (branch k c r) =
      let o = insert_rec order fresh id row c in
      let b = insert_branches order fresh id row r in
      if stops_at id r
      then record { branches = branch k o.node r; fresh = o.fresh; split = o.split }
      else record { branches = branch k c b.branches; fresh = b.fresh; split = b.split }

unfoldable pub grow_root : ℕ → Outcome → BpTree
grow_root order o = elim o.split [
  | none ↦ record { order = order; root = o.node; fresh = o.fresh }
  | some (key, sibling) ↦ record {
    order = order;
    root = internal o.node (branch key sibling done);
    fresh = o.fresh;
  }
]

unfoldable pub insert : BpTree → ℤ → ℤ → BpTree
unfolding grow_root insert_rec
insert t id row = grow_root t.order (insert_rec t.order t.fresh id row t.root)

-- The loop of `bptree_search` over the keys of the leaf.
unfoldable pub scan : ℤ → List Entry → ℤ
scan id [] = negsuc 0
scan id ((k, r) ∷ es) = if eqz k id then r else scan id es

pub record Leaf : Type 0 where
  pub address : ℕ
  pub next : Option ℕ
  pub entries : List Entry

-- The descent to the leaf of an id.
unfoldable mutual
  unfolding stops_at

  pub descend : ℤ → Node → Leaf
  descend id (leaf address next es) = record { address = address; next = next; entries = es }
  descend id (internal c bs) =
      let here = descend id c in
      let later = descend_branches id here bs in if stops_at id bs then here else later

  pub descend_branches : ℤ → Leaf → Branches → Leaf
  descend_branches id stop done = stop
  descend_branches id stop (branch k c r) =
      let here = descend id c in
      let later = descend_branches id here r in if stops_at id r then here else later

unfoldable pub search : BpTree → ℤ → ℤ
unfolding descend scan
search t id = scan id (descend id t.root).entries

-- The leaves from left to right: the memory that `next` pointers lead to.
unfoldable mutual
  pub leaves : Node → List Leaf
  leaves (leaf address next es) = record { address = address; next = next; entries = es } ∷ []
  leaves (internal c bs) = leaves c ++ leaves_branches bs

  pub leaves_branches : Branches → List Leaf
  leaves_branches done = []
  leaves_branches (branch k c r) = leaves c ++ leaves_branches r

unfoldable pub leaf_at : List Leaf → Option ℕ → Option Leaf
leaf_at heap none = none
leaf_at [] (some a) = none
leaf_at (l ∷ heap) (some a) = if l.address == a then some l else leaf_at heap (some a)

-- The inner loop of `bptree_range`, with room for so many more results; the flag is its `return`.
unfoldable pub collect : ℤ → ℤ → ℕ → List Entry → List ℤ × Bool
collect from to room [] = ([], false)
collect from to zero (e ∷ es) = ([], false)
collect from to (suc room) ((k, r) ∷ es) =
    let skipped = collect from to (suc room) es in
    let rest = collect from to room es in
    if ltz k from then skipped else if ltz to k then ([], true) else (r ∷ rest.0, rest.1)

-- The outer loop, on fuel.
unfoldable pub walk : ℕ → List Leaf → ℤ → ℤ → ℕ → Option Leaf → List ℤ
walk zero heap from to room cur = []
walk (suc fuel) heap from to room none = []
walk (suc fuel) heap from to zero (some l) = []
walk (suc fuel) heap from to (suc room) (some l) =
    let found = collect from to (suc room) l.entries in
    let rest = walk fuel heap from to (suc room - length found.0) (leaf_at heap l.next) in
    if found.1 then found.0 else found.0 ++ rest

unfoldable pub range : BpTree → ℤ → ℤ → ℤ → List ℤ
unfolding leaves descend walk collect leaf_at
range t from to max_out =
    let heap = leaves t.root in
    let result = walk (length heap) heap from to (pos_part max_out) (some (descend from t.root)) in
    if lez max_out (pos 0) || ltz to from then [] else result
