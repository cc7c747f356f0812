-- ===== src/Storage/Comparison.antt =====
-- src/storage.c: the comparisons of cells are linear orders on texts, integers and Booleans.
use jungle_w8_minisql_server.Prelude.{◌≡◌, refl, true, false, [], ◌∷◌, Text, arith}
use Prim.Native.Nat.{Ordering}
use jungle_w8_minisql_server.Storage.Values.{
  strcmp, compare_longs, compare_bools, ordering_of, is_gt, is_lt,
}

-- A comparison whose two signs agree, and which is transitive.
abbrev pub IsLinear : {K : Type 0} → (K → K → Ordering) → Type 0
IsLinear {K} cmp =
    ((a b : K) → is_lt (cmp a b) ≡ is_gt (cmp b a))
    × ((a b : K) → is_gt (cmp a b) ≡ true → is_gt (cmp b a) ≡ false)
    × ((a b c : K) → is_gt (cmp a b) ≡ false → is_gt (cmp b c) ≡ false → is_gt (cmp a c) ≡ false)

strcmp-flip : (a b : Text) → is_lt (strcmp a b) ≡ is_gt (strcmp b a)
unfolding strcmp is_lt is_gt
strcmp-flip [] [] = refl
strcmp-flip [] (b ∷ bs) = refl
strcmp-flip (a ∷ as') [] = refl
strcmp-flip (a ∷ as') (b ∷ bs) = ground (arith, strcmp-flip as' bs)

strcmp-total : (a b : Text) → is_gt (strcmp a b) ≡ true → is_gt (strcmp b a) ≡ false
unfolding strcmp is_gt
strcmp-total [] [] h = refl
strcmp-total [] (b ∷ bs) h = absurd (ground arith)
strcmp-total (a ∷ as') [] h = refl
strcmp-total (a ∷ as') (b ∷ bs) h = ground (arith, strcmp-total as' bs, h)

strcmp_trans :
    (a b c : Text)
    → is_gt (strcmp a b) ≡ false
    → is_gt (strcmp b c) ≡ false
    → is_gt (strcmp a c) ≡ false
unfolding strcmp is_gt
strcmp_trans [] b [] h k = refl
strcmp_trans [] b (c ∷ cs) h k = refl
strcmp_trans (a ∷ as') [] c h k = absurd (ground arith)
strcmp_trans (a ∷ as') (b ∷ bs) [] h k = absurd (ground arith)
strcmp_trans (a ∷ as') (b ∷ bs) (c ∷ cs) h k = ground (arith, strcmp_trans as' bs cs, h, k)

pub strcmp-IsLinear : IsLinear strcmp
strcmp-IsLinear = (strcmp-flip, strcmp-total, strcmp_trans)

pub compare_longs-IsLinear : IsLinear compare_longs
unfolding compare_longs ordering_of is_gt is_lt
compare_longs-IsLinear = (λ a b. ground arith, λ a b h. ground arith, λ a b c h k. ground arith)

pub compare_bools-IsLinear : IsLinear compare_bools
unfolding compare_bools ordering_of is_gt is_lt
compare_bools-IsLinear = (λ a b. ground arith, λ a b h. ground arith, λ a b c h k. ground arith)
