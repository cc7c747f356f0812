-- ===== src/BpTree/Order.antt =====
-- src/bptree.c: the order of the keys in a tree, and its entries from left to right.
use jungle_w8_minisql_server.Prelude.{
  ◌+◌, ◌≤◌, ◌<◌, Option, none, some, List, [], ◌∷◌, ◌++◌, arith, ℤ, pos_part, neg_part,
}
use jungle_w8_minisql_server.BpTree.Node.{Entry, Node, leaf, internal, Branches, done, branch}

infix 50 ◌≤ℤ◌ ◌<ℤ◌
abbrev pub ◌≤ℤ◌ : ℤ → ℤ → Type 0
a ≤ℤ b = pos_part a + neg_part b ≤ pos_part b + neg_part a

abbrev pub ◌<ℤ◌ : ℤ → ℤ → Type 0
a <ℤ b = pos_part a + neg_part b < pos_part b + neg_part a

-- Bounds of a subtree: `none` is no bound.
abbrev pub AtLeast : Option ℤ → ℤ → Type 0
AtLeast none k = Unit
AtLeast (some a) k = a ≤ℤ k

abbrev pub Above : Option ℤ → ℤ → Type 0
Above none k = Unit
Above (some a) k = a <ℤ k

abbrev pub Below : ℤ → Option ℤ → Type 0
Below k none = Unit
Below k (some b) = k <ℤ b

pub AtLeast-le : (lo : Option ℤ) (a b : ℤ) → AtLeast lo a → a ≤ℤ b → AtLeast lo b
AtLeast-le none a b h le = tt
AtLeast-le (some c) a b h le = omega arith

pub Above-le : (lo : Option ℤ) (a b : ℤ) → AtLeast lo a → a <ℤ b → Above lo b
Above-le none a b h le = tt
Above-le (some c) a b h le = omega arith

pub Above-trans : (lo : Option ℤ) (a b : ℤ) → Above lo a → a <ℤ b → Above lo b
Above-trans none a b h le = tt
Above-trans (some c) a b h le = omega arith

pub AtLeast-of_Above : (lo : Option ℤ) (a b : ℤ) → Above lo a → a ≤ℤ b → AtLeast lo b
AtLeast-of_Above none a b h le = tt
AtLeast-of_Above (some c) a b h le = omega arith

pub Below-le : (hi : Option ℤ) (a b : ℤ) → Below b hi → a ≤ℤ b → Below a hi
Below-le none a b h le = tt
Below-le (some c) a b h le = omega arith

abbrev pub AllAbove : ℤ → List Entry → Type 0
AllAbove k [] = Unit
AllAbove k (e ∷ es) = (k <ℤ e.0) × AllAbove k es

-- The keys of a leaf rise strictly and lie between the bounds.
abbrev pub SortedIn : Option ℤ → Option ℤ → List Entry → Type 0
SortedIn lo hi [] = Unit
SortedIn lo hi (e ∷ es) = AtLeast lo e.0 × Below e.0 hi × AllAbove e.0 es × SortedIn lo hi es

-- The bound that the next key sets to the child before it.
abbrev pub head_key : Option ℤ → Branches → Option ℤ
head_key hi done = hi
head_key hi (branch k c r) = some k

abbrev mutual
  pub Ordered : Option ℤ → Option ℤ → Node → Type 0
  Ordered lo hi (leaf a n es) = SortedIn lo hi es
  Ordered lo hi (internal c bs) = Ordered lo (head_key hi bs) c × OrderedBranches lo hi bs

  pub OrderedBranches : Option ℤ → Option ℤ → Branches → Type 0
  OrderedBranches lo hi done = Unit
  OrderedBranches lo hi (branch k c r) =
      Above lo k × Below k hi × Ordered (some k) (head_key hi r) c × OrderedBranches (some k) hi r

unfoldable mutual
  pub entries : Node → List Entry
  entries (leaf a n es) = es
  entries (internal c bs) = entries c ++ entries_branches bs

  pub entries_branches : Branches → List Entry
  entries_branches done = []
  entries_branches (branch k c r) = entries c ++ entries_branches r

abbrev pub AllUnder : ℤ → List Entry → Type 0
AllUnder k [] = Unit
AllUnder k (e ∷ es) = (e.0 <ℤ k) × AllUnder k es

pub AllAbove-le : (a b : ℤ) (es : List Entry) → a ≤ℤ b → AllAbove b es → AllAbove a es
AllAbove-le a b [] le h = tt
AllAbove-le a b (e ∷ es) le h = (omega arith, AllAbove-le a b es le h.1)

pub AllAbove-append :
    (k : ℤ) (xs ys : List Entry) → AllAbove k xs → AllAbove k ys → AllAbove k (xs ++ ys)
AllAbove-append k [] ys h j = j
AllAbove-append k (e ∷ xs) ys h j = (h.0, AllAbove-append k xs ys h.1 j)

pub AllUnder-append :
    (k : ℤ) (xs ys : List Entry) → AllUnder k xs → AllUnder k ys → AllUnder k (xs ++ ys)
AllUnder-append k [] ys h j = j
AllUnder-append k (e ∷ xs) ys h j = (h.0, AllUnder-append k xs ys h.1 j)

above_of_SortedIn :
    (id k : ℤ) (hi : Option ℤ) (es : List Entry)
    → id <ℤ k
    → SortedIn (some k) hi es
    → AllAbove id es
above_of_SortedIn id k hi [] lt h = tt
above_of_SortedIn id k hi (e ∷ es) lt h = (omega arith, above_of_SortedIn id k hi es lt h.3)

under_of_SortedIn :
    (id k : ℤ) (lo : Option ℤ) (es : List Entry)
    → k ≤ℤ id
    → SortedIn lo (some k) es
    → AllUnder id es
under_of_SortedIn id k lo [] le h = tt
under_of_SortedIn id k lo (e ∷ es) le h = (omega arith, under_of_SortedIn id k lo es le h.3)

-- All entries of a subtree lie above what is below its lower bound.
mutual
  unfolding entries

  pub above_of_Ordered :
      (n : Node) (id k : ℤ) (hi : Option ℤ)
      → id <ℤ k
      → Ordered (some k) hi n
      → AllAbove id (entries n)
  above_of_Ordered (leaf a nx es) id k hi lt h = above_of_SortedIn id k hi es lt h
  above_of_Ordered (internal c bs) id k hi lt h =
      AllAbove-append id (entries c) (entries_branches bs)
        (above_of_Ordered c id k (head_key hi bs) lt h.0)
        (above_of_OrderedBranches bs id k hi lt h.1)

  pub above_of_OrderedBranches :
      (bs : Branches) (id k : ℤ) (hi : Option ℤ)
      → id <ℤ k
      → OrderedBranches (some k) hi bs
      → AllAbove id (entries_branches bs)
  above_of_OrderedBranches done id k hi lt h = tt
  above_of_OrderedBranches (branch j c r) id k hi lt h =
      AllAbove-append id (entries c) (entries_branches r)
        (above_of_Ordered c id j (head_key hi r) (omega arith) h.2)
        (above_of_OrderedBranches r id j hi (omega arith) h.3)

-- The upper bound of the children of a node is reached through its last key.
mutual
  unfolding entries

  pub under_of_Ordered :
      (n : Node) (id k : ℤ) (lo : Option ℤ)
      → k ≤ℤ id
      → Ordered lo (some k) n
      → AllUnder id (entries n)
  under_of_Ordered (leaf a nx es) id k lo le h = under_of_SortedIn id k lo es le h
  under_of_Ordered (internal c done) id k lo le h =
      AllUnder-append id (entries c) [] (under_of_Ordered c id k lo le h.0) tt
  under_of_Ordered (internal c (branch j d r)) id k lo le h =
      AllUnder-append id (entries c) (entries_branches (branch j d r))
        (under_of_Ordered c id j lo (omega arith) h.0)
        (under_of_OrderedBranches (branch j d r) id k lo le h.1)

  pub under_of_OrderedBranches :
      (bs : Branches) (id k : ℤ) (lo : Option ℤ)
      → k ≤ℤ id
      → OrderedBranches lo (some k) bs
      → AllUnder id (entries_branches bs)
  under_of_OrderedBranches done id k lo le h = tt
  under_of_OrderedBranches (branch j c done) id k lo le h =
      AllUnder-append id (entries c) [] (under_of_Ordered c id k (some j) le h.2) tt
  under_of_OrderedBranches (branch j c (branch i d r)) id k lo le h =
      AllUnder-append id (entries c) (entries_branches (branch i d r))
        (under_of_Ordered c id i (some j) (omega arith) h.2)
        (under_of_OrderedBranches (branch i d r) id k (some j) le h.3)
