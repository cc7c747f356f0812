-- ===== src/BpTree/Range.antt =====
-- src/bptree.c: `bptree_range` against the sorted entries of the tree.
use jungle_w8_minisql_server.Prelude.{
  ℕ, zero, suc, ◌-◌, ◌≡◌, refl, ap, ◌∙◌, inl, inr, Bool, List, [], ◌∷◌, ◌++◌, length, take, arith,
  if◌then◌else◌, Bool-cases, ℤ, ltz,
}
use jungle_w8_minisql_server.BpTree.Node.{Entry, collect}
use jungle_w8_minisql_server.BpTree.Order.{◌≤ℤ◌, ◌<ℤ◌, AllAbove, AllUnder}

-- The rows of the entries with `from <= key <= to`, in order.
unfoldable pub in_range : ℤ → ℤ → List Entry → List ℤ
in_range from to [] = []
in_range from to ((k, r) ∷ es) =
    let rest = in_range from to es in
    if ltz k from then rest else if ltz to k then rest else r ∷ rest

abbrev pub Rising : List Entry → Type 0
Rising [] = Unit
Rising (e ∷ es) = AllAbove e.0 es × Rising es

in_range_above :
    (from to k : ℤ) (es : List Entry) → to ≤ℤ k → AllAbove k es → in_range from to es ≡ []
unfolding in_range
in_range_above from to k [] le h = refl
in_range_above from to k ((j, r) ∷ es) le h = ground (arith, in_range_above from to k es le h.1)

pub in_range-append_under :
    (from to : ℤ) (xs ys : List Entry)
    → AllUnder from xs
    → in_range from to (xs ++ ys) ≡ in_range from to ys
unfolding in_range
in_range-append_under from to [] ys h = refl
in_range-append_under from to ((j, r) ∷ xs) ys h =
    ground (arith, in_range-append_under from to xs ys h.1)

pub in_range_empty : (from to : ℤ) (es : List Entry) → to <ℤ from → in_range from to es ≡ []
unfolding in_range
in_range_empty from to [] h = refl
in_range_empty from to ((j, r) ∷ es) h = ground (arith, in_range_empty from to es h)

-- The loop over one leaf: what it collects and whether it returns, before entries that follow.
abbrev pub continued : ℕ → List ℤ × Bool → List ℤ → List ℤ
continued room found after =
    if found.1 then found.0 else found.0 ++ take (room - length found.0) after

suc_sub_zero : (n : ℕ) → suc n ≡ suc n - 0
suc_sub_zero n = omega arith

suc_sub_suc : (n m : ℕ) → n - m ≡ suc n - suc m
suc_sub_suc n m = omega arith

pub take-collect :
    (from to : ℤ) (room : ℕ) (es ys : List Entry)
    → Rising (es ++ ys)
    → take room (in_range from to (es ++ ys))
      ≡ continued room (collect from to room es) (in_range from to ys)
unfolding collect in_range
take-collect from to zero [] ys h = refl
take-collect from to (suc room) [] ys h = ap (λ n. take n (in_range from to ys)) (suc_sub_zero room)
take-collect from to zero (e ∷ es) ys h = refl
take-collect from to (suc room) ((k, r) ∷ es) ys h = elim (Bool-cases (ltz k from)) [
  | inl low ↦ rw low (take-collect from to (suc room) es ys h.1)
  | inr ok ↦ elim (Bool-cases (ltz to k)) [
    | inl high ↦
        let e : in_range from to (es ++ ys) ≡ [] =
          in_range_above from to k (es ++ ys) (ground arith) h.0 in
        rw (ok, high) (ap (take (suc room)) e)
    | inr inside ↦
        rw (ok, inside) (cons_case (collect from to room es) (take-collect from to room es ys h.1))
  ]
]
  where
    cons_case :
        (found : List ℤ × Bool)
        → take room (in_range from to (es ++ ys)) ≡ continued room found (in_range from to ys)
        → r ∷ take room (in_range from to (es ++ ys))
          ≡ continued (suc room) (r ∷ found.0, found.1) (in_range from to ys)
    cons_case found e = elim (Bool-cases found.1) [
      | inl stop ↦ ground (arith, ap (λ t. r ∷ t) e)
      | inr go ↦ ap (λ t. r ∷ t) e ∙ simp (go, suc_sub_suc room (length found.0))
    ]
