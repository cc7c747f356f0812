-- ===== src/BpTree/Build.antt =====
-- src/bptree.c: an index as a whole, from `bptree_create` through any sequence of insertions.
use jungle_w8_minisql_server.Prelude.{
  ℕ, suc, ◌≤◌, ◌≡◌, refl, ap, ◌∙◌, ◌⊎◌, inl, inr, false, none, some, List, [], ◌∷◌, arith,
  if◌then◌else◌, Bool-cases, ℤ, pos, negsuc, pos_part, neg_part, ltz, eqz, parts_bound,
}
use jungle_w8_minisql_server.BpTree.Node.{Entry, leaf, BpTree, create, insert, leaves, search}
use jungle_w8_minisql_server.BpTree.Order.{◌<ℤ◌, entries}
use jungle_w8_minisql_server.BpTree.Search.{IsOrdered, insert-IsOrdered, search-insert}
use jungle_w8_minisql_server.BpTree.Balance.{IsBalanced, insert-IsBalanced}
use jungle_w8_minisql_server.BpTree.Linked.{IsChained, insert-IsChained}

-- A caller's loop of insertions, such as the one that rebuilds the index of a table.
unfoldable pub insert_all : BpTree → List Entry → BpTree
insert_all t [] = t
insert_all t ((id, row) ∷ es) = insert_all (insert t id row) es

-- What a tree keeps: keys in order, one depth and half full nodes, and a chain of all leaves.
pub record IsIndex (t : BpTree) : Type 0 where
  pub ordered : IsOrdered t
  pub depth : ℕ
  pub balanced : IsBalanced t depth
  pub chained : IsChained t

-- Every insertion keeps the invariants of the tree.
pub insert-IsIndex : (t : BpTree) (id row : ℤ) → IsIndex t → IsIndex (insert t id row)
insert-IsIndex t id row h = go (insert-IsBalanced t id row h.depth h.balanced)
  where
    go :
        IsBalanced (insert t id row) h.depth ⊎ IsBalanced (insert t id row) (suc h.depth)
        → IsIndex (insert t id row)
    go (inl b) = record {
      ordered = insert-IsOrdered t id row h.ordered;
      depth = h.depth;
      balanced = b;
      chained = insert-IsChained t id row h.ordered h.chained;
    }
    go (inr b) = record {
      ordered = insert-IsOrdered t id row h.ordered;
      depth = suc h.depth;
      balanced = b;
      chained = insert-IsChained t id row h.ordered h.chained;
    }

-- Any sequence of insertions keeps the invariants of the tree: the keys are in order, all leaves
-- are at one depth and every node but the root is at least half full and under the order, and the
-- `next` pointers chain all leaves.
pub insert_all-IsIndex : (t : BpTree) (es : List Entry) → IsIndex t → IsIndex (insert_all t es)
unfolding insert_all
insert_all-IsIndex t [] h = h
insert_all-IsIndex t ((id, row) ∷ es) h =
    insert_all-IsIndex (insert t id row) es (insert-IsIndex t id row h)

-- The row that was inserted last under the id, or what was there before.
unfoldable pub latest : ℤ → ℤ → List Entry → ℤ
latest q before [] = before
latest q before ((id, row) ∷ es) = latest q (if eqz id q then row else before) es

-- On a tree that satisfies the invariants, after any sequence of insertions a search for an id
-- returns the row inserted last under that id, and what it returned before where the id is not
-- among them.
pub search-insert_all :
    (t : BpTree) (es : List Entry) (q : ℤ)
    → IsIndex t
    → search (insert_all t es) q ≡ latest q (search t q) es
unfolding insert_all latest
search-insert_all t [] q h = refl
search-insert_all t ((id, row) ∷ es) q h =
    search-insert_all (insert t id row) es q (insert-IsIndex t id row h)
    ∙ ap (λ b. latest q b es) (search-insert t id row q h.ordered)

three : (order : ℤ) → ltz order (pos 3) ≡ false → 3 ≤ pos_part order
unfolding pos_part neg_part
three order h = ground (arith, parts_bound order)

-- Creating a tree fails exactly for an order below 3; otherwise it gives an empty tree that
-- satisfies the invariants and in which every search returns -1.
pub create-IsIndex :
    (order : ℤ)
    → ((order <ℤ pos 3) × (create order ≡ none))
      ⊎ ((t : BpTree) × (create order ≡ some t)
          × IsIndex t
          × (entries t.root ≡ [])
          × ((q : ℤ) → search t q ≡ negsuc 0))
unfolding create entries search leaves
create-IsIndex order = elim (Bool-cases (ltz order (pos 3))) [
  | inl small ↦ inl (ground arith, rw small)
  | inr wide ↦
      let n : 3 ≤ pos_part order = three order wide in
      inr (
        record { order = pos_part order; root = leaf 0 none []; fresh = 1 },
        rw wide,
        record {
          ordered = record { wide = n; ordered = tt };
          depth = 0;
          balanced = record { wide = n; full = (omega arith, omega arith) };
          chained = record { linked = (refl, tt); addressed = (omega arith, tt, tt) };
        },
        refl,
        λ q. refl,
      )
]
