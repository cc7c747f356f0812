-- ===== src/BpTree/Scan.antt =====
-- src/bptree.c: `bptree_range` walks the chain and returns the rows in range, in order of their ids.
use mathlib.Core.List.{append_assoc, append-nil}
use jungle_w8_minisql_server.Prelude.{
  ℕ, zero, suc, ◌-◌, ◌<◌, ◌≡◌, refl, ap, ap₂, sym, subst, ◌∙◌, inl, inr, false, Option, none, some,
  List, [], ◌∷◌, ◌++◌, length, take, arith, if◌then◌else◌, Bool-cases, ℤ,
}
use jungle_w8_minisql_server.BpTree.Node.{
  Entry, Node, leaf, internal, Branches, done, branch, stops_at, Leaf, leaves, leaves_branches,
  leaf_at, descend, descend_branches, collect, walk,
}
use jungle_w8_minisql_server.BpTree.Order.{
  head_key, AllUnder, AllUnder-append, Ordered, OrderedBranches, entries, entries_branches,
}
use jungle_w8_minisql_server.BpTree.Insert.{under_of_pass}
use jungle_w8_minisql_server.BpTree.Linked.{Linked, NotAt, Addressed}
use jungle_w8_minisql_server.BpTree.Range.{in_range, Rising, take-collect}

unfoldable pub all_entries : List Leaf → List Entry
all_entries [] = []
all_entries (x ∷ l) = x.entries ++ all_entries l

pub all_entries-append : (a b : List Leaf) → all_entries (a ++ b) ≡ all_entries a ++ all_entries b
unfolding all_entries
all_entries-append [] b = refl
all_entries-append (x ∷ a) b = simp (append_assoc, all_entries-append a b)

mutual
  unfolding entries leaves all_entries

  pub all_entries-leaves : (n : Node) → all_entries (leaves n) ≡ entries n
  all_entries-leaves (leaf a nx es) = append-nil es
  all_entries-leaves (internal c bs) =
      all_entries-append (leaves c) (leaves_branches bs)
      ∙ ap₂ ◌++◌ (all_entries-leaves c) (all_entries-leaves_branches bs)

  all_entries-leaves_branches :
      (bs : Branches) → all_entries (leaves_branches bs) ≡ entries_branches bs
  all_entries-leaves_branches done = refl
  all_entries-leaves_branches (branch k c r) =
      all_entries-append (leaves c) (leaves_branches r)
      ∙ ap₂ ◌++◌ (all_entries-leaves c) (all_entries-leaves_branches r)

-- Every leaf of the list is found in the memory under its address.
abbrev pub Stored : List Leaf → List Leaf → Type 0
Stored heap [] = Unit
Stored heap (x ∷ l) = (leaf_at heap (some x.address) ≡ some x) × Stored heap l

Stored-cons :
    (x : Leaf) (heap l : List Leaf) → NotAt x.address l → Stored heap l → Stored (x ∷ heap) l
unfolding leaf_at
Stored-cons x heap [] n s = tt
Stored-cons x heap (y ∷ l) n s = (ground (arith, n.0), Stored-cons x heap l n.1 s.1)

pub Stored-self : (fresh : ℕ) (l : List Leaf) → Addressed fresh l → Stored l l
unfolding leaf_at
Stored-self fresh [] d = tt
Stored-self fresh (x ∷ l) d = (ground arith, Stored-cons x l l d.1 (Stored-self fresh l d.2))

pub Stored-tail : (heap front l : List Leaf) → Stored heap (front ++ l) → Stored heap l
Stored-tail heap [] l s = s
Stored-tail heap (x ∷ front) l s = Stored-tail heap front l s.1

pub Rising-tail : (xs ys : List Entry) → Rising (xs ++ ys) → Rising ys
Rising-tail [] ys h = h
Rising-tail (x ∷ xs) ys h = Rising-tail xs ys h.1

pub Linked-tail : (front l : List Leaf) (end : Option ℕ) → Linked (front ++ l) end → Linked l end
Linked-tail [] l end h = h
Linked-tail (x ∷ front) l end h = Linked-tail front l end h.1

walk_end :
    (fuel : ℕ) (heap : List Leaf) (from to : ℤ) (room : ℕ) → walk fuel heap from to room none ≡ []
unfolding walk
walk_end zero heap from to room = refl
walk_end (suc fuel) heap from to room = refl

leaf_at-none : (heap : List Leaf) → leaf_at heap none ≡ none
unfolding leaf_at
leaf_at-none heap = refl

under_nil : (id : ℤ) → AllUnder id (all_entries [])
unfolding all_entries
under_nil id = tt

pub take_nil : (n : ℕ) → take {A = ℤ} n [] ≡ []
take_nil zero = refl
take_nil (suc n) = refl

-- From a leaf of the chain on, the walk returns what is in range in that leaf and the later ones.
pub walk-chain :
    (from to : ℤ) (heap rest : List Leaf) (fuel room : ℕ) (x : Leaf)
    → length rest < fuel
    → Rising (all_entries (x ∷ rest))
    → Linked (x ∷ rest) none
    → Stored heap rest
    → walk fuel heap from to room (some x) ≡ take room (in_range from to (all_entries (x ∷ rest)))
unfolding walk all_entries in_range
walk-chain from to heap rest zero room x f h l d = absurd (omega arith)
walk-chain from to heap rest (suc fuel) zero x f h l d = refl
walk-chain from to heap [] (suc fuel) (suc room) x f h l d =
    let found = collect from to (suc room) x.entries in
    let room' = suc room - length found.0 in
    ap (λ t. if found.1 then found.0 else found.0 ++ t)
      (ap (walk fuel heap from to room') (ap (leaf_at heap) l.0 ∙ leaf_at-none heap)
        ∙ walk_end fuel heap from to room'
        ∙ sym (take_nil room'))
    ∙ sym (take-collect from to (suc room) x.entries [] h)
walk-chain from to heap (y ∷ rest) (suc fuel) (suc room) x f h l d =
    let found = collect from to (suc room) x.entries in
    let room' = suc room - length found.0 in
    ap (λ t. if found.1 then found.0 else found.0 ++ t)
      (ap (walk fuel heap from to room') (ap (leaf_at heap) l.0 ∙ d.0)
        ∙ walk-chain from to heap rest fuel room' y (omega arith)
            (Rising-tail x.entries (all_entries (y ∷ rest)) h) l.1 d.1)
    ∙ sym (take-collect from to (suc room) x.entries (all_entries (y ∷ rest)) h)

-- The descent ends in a leaf of the chain, and all entries before that leaf are under the id.
pub record Position (id : ℤ) (l : List Leaf) (x : Leaf) : Type 0 where
  pub front : List Leaf
  pub rest : List Leaf
  pub parts : l ≡ front ++ x ∷ rest
  pub under : AllUnder id (all_entries front)

Position-append :
    (id : ℤ) (l more : List Leaf) (x : Leaf) → Position id l x → Position id (l ++ more) x
Position-append id l more x p = record {
  front = p.front;
  rest = p.rest ++ more;
  parts = ap (λ t. t ++ more) p.parts ∙ append_assoc p.front (x ∷ p.rest) more;
  under = p.under;
}

append-Position :
    (id : ℤ) (more l : List Leaf) (x : Leaf)
    → AllUnder id (all_entries more)
    → Position id l x
    → Position id (more ++ l) x
append-Position id more l x u p = record {
  front = more ++ p.front;
  rest = p.rest;
  parts = ap (λ t. more ++ t) p.parts ∙ sym (append_assoc more p.front (x ∷ p.rest));
  under =
      subst (AllUnder id) (sym (all_entries-append more p.front))
        (AllUnder-append id (all_entries more) (all_entries p.front) u p.under);
}

under_leaves :
    (id : ℤ) (lo hi : Option ℤ) (c : Node) (bs : Branches)
    → stops_at id bs ≡ false
    → Ordered lo (head_key hi bs) c
    → AllUnder id (all_entries (leaves c))
under_leaves id lo hi c bs s h =
    subst (AllUnder id) (sym (all_entries-leaves c)) (under_of_pass id lo hi c bs s h)

mutual
  unfolding descend leaves

  pub descend-Position :
      (n : Node) (id : ℤ) (lo hi : Option ℤ)
      → Ordered lo hi n
      → Position id (leaves n) (descend id n)
  descend-Position (leaf a nx es) id lo hi h = record {
    front = [];
    rest = [];
    parts = refl;
    under = under_nil id;
  }
  descend-Position (internal c bs) id lo hi h = elim (Bool-cases (stops_at id bs)) [
    | inl s ↦ rw s (
        Position-append id (leaves c) (leaves_branches bs) (descend id c)
          (descend-Position c id lo (head_key hi bs) h.0))
    | inr s ↦ rw s (
        append-Position id (leaves c) (leaves_branches bs) (descend_branches id (descend id c) bs)
          (under_leaves id lo hi c bs s h.0)
          (descend_branches-Position bs id (descend id c) lo hi s h.1))
  ]

  descend_branches-Position :
      (bs : Branches) (id : ℤ) (stop : Leaf) (lo hi : Option ℤ)
      → stops_at id bs ≡ false
      → OrderedBranches lo hi bs
      → Position id (leaves_branches bs) (descend_branches id stop bs)
  descend_branches-Position done id stop lo hi s h = cc
  descend_branches-Position (branch k c r) id stop lo hi s h = elim (Bool-cases (stops_at id r)) [
    | inl t ↦ rw t (
        Position-append id (leaves c) (leaves_branches r) (descend id c)
          (descend-Position c id (some k) (head_key hi r) h.2))
    | inr t ↦ rw t (
        append-Position id (leaves c) (leaves_branches r) (descend_branches id (descend id c) r)
          (under_leaves id (some k) hi c r t h.2)
          (descend_branches-Position r id (descend id c) (some k) hi t h.3))
  ]
