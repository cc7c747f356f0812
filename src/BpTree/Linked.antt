-- ===== src/BpTree/Linked.antt =====
-- src/bptree.c: the chain of `next` pointers runs through all leaves from left to right.
use mathlib.Core.List.{append-nil}
use jungle_w8_minisql_server.Prelude.{
  ℕ, ◌+◌, ◌≤◌, ◌<◌, ◌≡◌, refl, ap, sym, subst, ◌∙◌, ◌≢◌, Option, none, some, List, [], ◌∷◌, ◌++◌,
  arith, ℤ,
}
use jungle_w8_minisql_server.BpTree.Node.{
  Node, BpTree, insert, grow_root, Outcome, insert_rec, Leaf, leaves,
}
use jungle_w8_minisql_server.BpTree.Search.{IsOrdered}
use jungle_w8_minisql_server.BpTree.Chain.{
  Grown, rewritten, halved, later, split_leaves, insert_rec-Grown,
}

-- Where a pointer to the first of the leaves points.
abbrev pub head_address : List Leaf → Option ℕ → Option ℕ
head_address [] end = end
head_address (x ∷ l) end = some x.address

abbrev pub Linked : List Leaf → Option ℕ → Type 0
Linked [] end = Unit
Linked (x ∷ l) end = (x.next ≡ head_address l end) × Linked l end

abbrev pub NotAt : ℕ → List Leaf → Type 0
NotAt a [] = Unit
NotAt a (x ∷ l) = (x.address ≢ a) × NotAt a l

abbrev pub Addressed : ℕ → List Leaf → Type 0
Addressed fresh [] = Unit
Addressed fresh (x ∷ l) = (x.address < fresh) × NotAt x.address l × Addressed fresh l

NotAt-fresh : (fresh : ℕ) (l : List Leaf) → Addressed fresh l → NotAt fresh l
NotAt-fresh fresh [] h = tt
NotAt-fresh fresh (x ∷ l) h = (omega arith, NotAt-fresh fresh l h.2)

Addressed-suc : (fresh : ℕ) (l : List Leaf) → Addressed fresh l → Addressed (fresh + 1) l
Addressed-suc fresh [] h = tt
Addressed-suc fresh (x ∷ l) h = (omega arith, h.1, Addressed-suc fresh l h.2)

-- A chain of leaves with addresses of their own.
pub record IsChain (fresh : ℕ) (l : List Leaf) (end : Option ℕ) : Type 0 where
  pub linked : Linked l end
  pub addressed : Addressed fresh l

-- What an insertion keeps of a chain: it starts and ends where it did.
record Extended (fresh fresh' : ℕ) (before after : List Leaf) (end : Option ℕ) : Type 0 where
  linked : Linked after end
  addressed : Addressed fresh' after
  start : head_address after end ≡ head_address before end
  apart : (a : ℕ) → a < fresh → NotAt a before → NotAt a after
  grows : fresh ≤ fresh'

rewritten-Extended :
    (f : ℕ) (x y : Leaf) (r : List Leaf) (end : Option ℕ)
    → y.address ≡ x.address
    → y.next ≡ x.next
    → Linked (x ∷ r) end
    → Addressed f (x ∷ r)
    → Extended f f (x ∷ r) (y ∷ r) end
rewritten-Extended f x y r end p q l d = record {
  linked = (q ∙ l.0, l.1);
  addressed = (omega arith, subst (λ t. NotAt t r) (sym p) d.1, d.2);
  start = ap some p;
  apart = λ a lt n. (ground (arith, n.0), n.1);
  grows = omega arith;
}

halved-Extended :
    (f : ℕ) (x y z : Leaf) (r : List Leaf) (end : Option ℕ)
    → y.address ≡ x.address
    → y.next ≡ some f
    → z.address ≡ f
    → z.next ≡ x.next
    → Linked (x ∷ r) end
    → Addressed f (x ∷ r)
    → Extended f (f + 1) (x ∷ r) (y ∷ z ∷ r) end
halved-Extended f x y z r end p q s t l d = record {
  linked = (q ∙ ap some (sym s), (t ∙ l.0, l.1));
  addressed = (
    omega arith,
    (omega arith, subst (λ u. NotAt u r) (sym p) d.1),
    (omega arith, subst (λ u. NotAt u r) (sym s) (NotAt-fresh f r d.2), Addressed-suc f r d.2),
  );
  start = ap some p;
  apart = λ a lt n. (ground (arith, n.0), (omega arith, n.1));
  grows = omega arith;
}

later-Extended :
    (f f' : ℕ) (x : Leaf) (b a : List Leaf) (end : Option ℕ)
    → Linked (x ∷ b) end
    → Addressed f (x ∷ b)
    → Extended f f' b a end
    → Extended f f' (x ∷ b) (x ∷ a) end
later-Extended f f' x b a end l d e = record {
  linked = (l.0 ∙ sym e.start, e.linked);
  addressed = (omega (arith, d.0, e.grows), e.apart x.address d.0 d.1, e.addressed);
  start = refl;
  apart = λ i lt n. (n.0, e.apart i lt n.1);
  grows = e.grows;
}

Grown-Extended :
    (f f' : ℕ) (b a : List Leaf) (end : Option ℕ)
    → Grown f f' b a
    → Linked b end
    → Addressed f b
    → Extended f f' b a end
Grown-Extended f f' b a end (rewritten x y r eb ea p q s) l d =
    rw (eb, ea, s)
      (rewritten-Extended f x y r end p q (subst (λ t. Linked t end) eb l)
        (subst (Addressed f) eb d))
Grown-Extended f f' b a end (halved x y z r eb ea p q s t u) l d =
    rw (eb, ea, u)
      (halved-Extended f x y z r end p q s t (subst (λ v. Linked v end) eb l)
        (subst (Addressed f) eb d))
Grown-Extended f f' b a end (later x b' a' eb ea g) l d =
    let l' : Linked (x ∷ b') end = subst (λ v. Linked v end) eb l in
    let d' : Addressed f (x ∷ b') = subst (Addressed f) eb d in
    rw (eb, ea) (later-Extended f f' x b' a' end l' d' (Grown-Extended f f' b' a' end g l'.1 d'.2))

-- The leaves of a tree form one chain from the leftmost to the rightmost leaf.
abbrev pub IsChained : BpTree → Type 0
IsChained t = IsChain t.fresh (leaves t.root) none

grow_root-leaves :
    (order : ℕ) (o : Outcome)
    → ((grow_root order o).fresh ≡ o.fresh)
      × (leaves (grow_root order o).root ≡ split_leaves o.node o.split)
unfolding grow_root leaves
grow_root-leaves order o = go o.split
  where
    go :
        (s : Option (ℤ × Node))
        → ((grow_root order (record o { split = s })).fresh ≡ o.fresh)
          × (leaves (grow_root order (record o { split = s })).root ≡ split_leaves o.node s)
    go none = (refl, refl)
    go (some (k, r)) = (refl, ap (λ t. leaves o.node ++ t) (append-nil (leaves r)))

-- On a tree in order whose leaves are chained, an insertion keeps the chain: each leaf points to
-- the next from left to right, the last one to none, and no two leaves share an address.
pub insert-IsChained :
    (t : BpTree) (id row : ℤ) → IsOrdered t → IsChained t → IsChained (insert t id row)
unfolding insert
insert-IsChained t id row h c =
    let o = insert_rec t.order t.fresh id row t.root in
    let g =
      insert_rec-Grown t.order (omega arith) id row t.root t.fresh none none tt tt h.ordered in
    let e =
      Grown-Extended t.fresh o.fresh (leaves t.root) (split_leaves o.node o.split) none g c.linked
        c.addressed in
    let (ef, el) = grow_root-leaves t.order o in
    rw (ef, el) (record { linked = e.linked; addressed = e.addressed })
