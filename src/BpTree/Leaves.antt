-- ===== src/BpTree/Leaves.antt =====
-- src/bptree.c: insertion into the sorted entries of a leaf, and the split of a full leaf.
use jungle_w8_minisql_server.Prelude.{
  ℕ, zero, suc, ◌+◌, ◌≤◌, ◌<◌, ◌≡◌, refl, inl, inr, Option, some, List, [], ◌∷◌, ◌++◌, length, take,
  drop, arith, if◌then◌else◌, Bool-cases, ℤ, ltz, eqz,
}
use jungle_w8_minisql_server.BpTree.Node.{Entry, leaf_insert_sorted, first_key, scan}
use jungle_w8_minisql_server.BpTree.Order.{
  ◌<ℤ◌, AtLeast, Below, Above, Above-le, AllAbove, AllUnder, AllAbove-le, SortedIn,
}

module _ (id row : ℤ) where
  pub leaf_insert_sorted-AllAbove :
      (k : ℤ) (es : List Entry)
      → k <ℤ id
      → AllAbove k es
      → AllAbove k (leaf_insert_sorted id row es)
  unfolding leaf_insert_sorted
  leaf_insert_sorted-AllAbove k [] lt h = (lt, tt)
  leaf_insert_sorted-AllAbove k ((j, r) ∷ es) lt h =
      ground (arith, leaf_insert_sorted-AllAbove k es lt h.1)

  pub leaf_insert_sorted-SortedIn :
      (lo hi : Option ℤ) (es : List Entry)
      → AtLeast lo id
      → Below id hi
      → SortedIn lo hi es
      → SortedIn lo hi (leaf_insert_sorted id row es)
  unfolding leaf_insert_sorted
  leaf_insert_sorted-SortedIn lo hi [] l b h = (l, b, tt, tt)
  leaf_insert_sorted-SortedIn lo hi ((j, r) ∷ es) l b h = elim (Bool-cases (ltz j id)) [
    | inl lt ↦ rw lt (
      h.0,
      h.1,
      leaf_insert_sorted-AllAbove j es (ground arith) h.2,
      leaf_insert_sorted-SortedIn lo hi es l b h.3,
    )
    | inr ge ↦ elim (Bool-cases (eqz j id)) [
      | inl same ↦ rw (ge, same) h
      | inr ne ↦ rw (ge, ne) (l, b, (ground arith, AllAbove-le id j es (ground arith) h.2), h)
    ]
  ]

  -- Entries above the id stay where they are, and so do entries under it.
  pub leaf_insert_sorted-append_above :
      (xs ys : List Entry)
      → AllAbove id ys
      → leaf_insert_sorted id row (xs ++ ys) ≡ leaf_insert_sorted id row xs ++ ys
  unfolding leaf_insert_sorted
  leaf_insert_sorted-append_above [] [] h = refl
  leaf_insert_sorted-append_above [] ((k, r) ∷ ys) h = ground arith
  leaf_insert_sorted-append_above ((k, r) ∷ xs) ys h =
      ground (arith, leaf_insert_sorted-append_above xs ys h)

  pub leaf_insert_sorted-append_under :
      (xs ys : List Entry)
      → AllUnder id xs
      → leaf_insert_sorted id row (xs ++ ys) ≡ xs ++ leaf_insert_sorted id row ys
  unfolding leaf_insert_sorted
  leaf_insert_sorted-append_under [] ys h = refl
  leaf_insert_sorted-append_under ((k, r) ∷ xs) ys h =
      ground (arith, leaf_insert_sorted-append_under xs ys h.1)

  pub length-leaf_insert_sorted :
      (es : List Entry)
      → (length es ≤ length (leaf_insert_sorted id row es))
        × (length (leaf_insert_sorted id row es) ≤ length es + 1)
  unfolding leaf_insert_sorted
  length-leaf_insert_sorted [] = omega arith
  length-leaf_insert_sorted ((k, r) ∷ es) = ground (arith, length-leaf_insert_sorted es)

  -- The loop of the search over entries with the id put in.
  pub scan-leaf_insert_sorted :
      (q : ℤ) (es : List Entry)
      → scan q (leaf_insert_sorted id row es) ≡ (if eqz id q then row else scan q es)
  unfolding leaf_insert_sorted scan
  scan-leaf_insert_sorted q [] = refl
  scan-leaf_insert_sorted q ((k, r) ∷ es) = ground (arith, scan-leaf_insert_sorted q es)

SortedIn-rebase :
    (lo hi : Option ℤ) (k : ℤ) (es : List Entry)
    → AllAbove k es
    → SortedIn lo hi es
    → SortedIn (some k) hi es
SortedIn-rebase lo hi k [] a h = tt
SortedIn-rebase lo hi k (e ∷ es) a h = (omega arith, h.1, h.2, SortedIn-rebase lo hi k es a.1 h.3)

AllAbove-drop : (k : ℤ) (n : ℕ) (es : List Entry) → AllAbove k es → AllAbove k (drop n es)
AllAbove-drop k zero es h = h
AllAbove-drop k (suc n) [] h = tt
AllAbove-drop k (suc n) (e ∷ es) h = AllAbove-drop k n es h.1

-- The two halves of a leaf, and the key between them.
pub record Halves (lo hi : Option ℤ) (es : List Entry) (n : ℕ) : Type 0 where
  pub left : SortedIn lo (some (first_key (drop n es))) (take n es)
  pub right : SortedIn (some (first_key (drop n es))) hi (drop n es)
  pub above : 0 < n → Above lo (first_key (drop n es))
  pub below : Below (first_key (drop n es)) hi

AllAbove-take : (k : ℤ) (n : ℕ) (es : List Entry) → AllAbove k es → AllAbove k (take n es)
AllAbove-take k zero es h = tt
AllAbove-take k (suc n) [] h = tt
AllAbove-take k (suc n) (e ∷ es) h = (h.0, AllAbove-take k n es h.1)

first_key-above :
    (k : ℤ) (n : ℕ) (es : List Entry) → n < length es → AllAbove k es → k <ℤ first_key (drop n es)
unfolding first_key
first_key-above k n [] lt h = absurd (omega arith)
first_key-above k zero ((j, r) ∷ es) lt h = h.0
first_key-above k (suc n) (e ∷ es) lt h = first_key-above k n es (omega arith) h.1

pub SortedIn-Halves :
    (lo hi : Option ℤ) (es : List Entry) (n : ℕ)
    → n < length es
    → SortedIn lo hi es
    → Halves lo hi es n
unfolding first_key
SortedIn-Halves lo hi [] n lt h = absurd (omega arith)
SortedIn-Halves lo hi ((k, r) ∷ es) zero lt h = record {
  left = tt;
  right = (omega arith, h.1, h.2, SortedIn-rebase lo hi k es h.2 h.3);
  above = λ p. absurd (omega arith);
  below = h.1;
}
SortedIn-Halves lo hi ((k, r) ∷ es) (suc n) lt h =
    let p = SortedIn-Halves lo hi es n (omega arith) h.3 in
    record {
      left = (h.0, first_key-above k n es (omega arith) h.2, AllAbove-take k n es h.2, p.left);
      right = p.right;
      above = λ q. Above-le lo k _ h.0 (first_key-above k n es (omega arith) h.2);
      below = p.below;
    }
