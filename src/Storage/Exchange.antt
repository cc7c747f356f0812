-- ===== src/Storage/Exchange.antt =====
-- src/storage.c: the exchange sort of `sort_selection` orders its rows and loses none.
use jungle_w8_minisql_server.Prelude.{
  ℕ, zero, suc, ◌≤◌, ◌≡◌, refl, ap, sym, subst, inl, inr, Bool, true, false, not, ◌&&◌, List, [],
  ◌∷◌, length, arith, if◌then◌else◌, Bool-cases, if_both,
}
use mathlib.Core.List.Perm
use mathlib.Core.List.{Perm}
use jungle_w8_minisql_server.Storage.Order.{settle_row, sort_loop}

not-true : {b : Bool} → b ≡ false → not b ≡ true
not-true h = ap not h

pub both : {a b : Bool} → a ≡ true → b ≡ true → (a && b) ≡ true
both h k = rw (h, k) refl

pub first_true : (a b : Bool) → (a && b) ≡ true → a ≡ true
first_true a b h = ground arith

pub rest_true : (a b : Bool) → (a && b) ≡ true → b ≡ true
rest_true a b h = ground arith

unfoldable pub all_ok : {A : Type 0} → (A → Bool) → List A → Bool
all_ok ok [] = true
all_ok ok (x ∷ xs) = ok x && all_ok ok xs

module _ {A : Type 0} (after : A → A → Bool) where
  -- No element of the list has to come before this one.
  abbrev pub is_first : A → List A → Bool
  is_first x ys = all_ok (λ y. not (after x y)) ys

  -- Whether no row stands behind one that it has to come before.
  unfoldable pub is_ordered : List A → Bool
  is_ordered [] = true
  is_ordered (x ∷ xs) = is_first x xs && is_ordered xs

module _ {A : Type 0} (after : A → A → Bool) where
  settle_row-perm :
      (x : A) (xs : List A) → Perm ((settle_row after x xs).0 ∷ (settle_row after x xs).1) (x ∷ xs)
  unfolding settle_row
  settle_row-perm x [] = Perm.rfl
  settle_row-perm x (y ∷ ys) = elim (Bool-cases (after x y)) [
    | inl e ↦ rw e (
        Perm.trans (Perm.swap x (settle_row after y ys).0 (settle_row after y ys).1)
          (Perm.cons x (settle_row-perm y ys)))
    | inr e ↦ rw e (
        Perm.trans (Perm.swap y (settle_row after x ys).0 (settle_row after x ys).1)
          (Perm.trans (Perm.cons y (settle_row-perm x ys)) (Perm.swap x y ys)))
  ]

  settle_row-length : (x : A) (xs : List A) → length (settle_row after x xs).1 ≡ length xs
  unfolding settle_row
  settle_row-length x [] = refl
  settle_row-length x (y ∷ ys) = ap suc (settle_row-length (if after x y then y else x) ys)

  settle_swap :
      (x y : A) (ys : List A)
      → after x y ≡ true
      → settle_row after x (y ∷ ys) ≡ ((settle_row after y ys).0, x ∷ (settle_row after y ys).1)
  unfolding settle_row
  settle_swap x y ys e = rw e refl

  settle_stay :
      (x y : A) (ys : List A)
      → after x y ≡ false
      → settle_row after x (y ∷ ys) ≡ ((settle_row after x ys).0, y ∷ (settle_row after x ys).1)
  unfolding settle_row
  settle_stay x y ys e = rw e refl

  -- What holds of all rows holds of them after the swaps.
  settle_row-all_ok :
      (f : A → Bool) (x : A) (xs : List A)
      → f x ≡ true
      → all_ok f xs ≡ true
      → (f (settle_row after x xs).0 ≡ true) × (all_ok f (settle_row after x xs).1 ≡ true)
  unfolding settle_row all_ok
  settle_row-all_ok f x [] h k = (h, refl)
  settle_row-all_ok f x (y ∷ ys) h k =
      let fy : f y ≡ true = first_true (f y) (all_ok f ys) k in
      let ih : (f (settle_row after (if after x y then y else x) ys).0 ≡ true)
          × (all_ok f (settle_row after (if after x y then y else x) ys).1 ≡ true) =
        settle_row-all_ok f (if after x y then y else x) ys
          (if_both (λ z. f z ≡ true) (after x y) y x fy h) (rest_true (f y) (all_ok f ys) k) in
      (ih.0, both (if_both (λ z. f z ≡ true) (after x y) x y h fy) ih.1)

  pub sort_loop-all_ok :
      (f : A → Bool) (n : ℕ) (xs : List A)
      → all_ok f xs ≡ true
      → all_ok f (sort_loop after n xs) ≡ true
  unfolding sort_loop all_ok
  sort_loop-all_ok f zero xs k = k
  sort_loop-all_ok f (suc n) [] k = refl
  sort_loop-all_ok f (suc n) (x ∷ xs) k =
      let s : (f (settle_row after x xs).0 ≡ true) × (all_ok f (settle_row after x xs).1 ≡ true) =
        settle_row-all_ok f x xs (first_true (f x) (all_ok f xs) k)
          (rest_true (f x) (all_ok f xs) k) in
      both s.0 (sort_loop-all_ok f n (settle_row after x xs).1 s.1)

  pub sort_loop-perm : (n : ℕ) (xs : List A) → Perm (sort_loop after n xs) xs
  unfolding sort_loop
  sort_loop-perm zero xs = Perm.rfl
  sort_loop-perm (suc n) [] = Perm.rfl
  sort_loop-perm (suc n) (x ∷ xs) =
      Perm.trans (Perm.cons (settle_row after x xs).0 (sort_loop-perm n (settle_row after x xs).1))
        (settle_row-perm x xs)

module _ {A : Type 0} (after : A → A → Bool) (ok : A → Bool)
    (total : (x y : A) → ok x ≡ true → ok y ≡ true → after x y ≡ true → after y x ≡ false)
    (trans : (x y z : A)
      → ok x ≡ true
      → ok y ≡ true
      → ok z ≡ true
      → after x y ≡ false
      → after y z ≡ false
      → after x z ≡ false) where
  not_after_self : (x : A) → ok x ≡ true → after x x ≡ false
  not_after_self x h = elim (Bool-cases (after x x)) [ inl e ↦ total x x h h e | inr e ↦ e ]

  -- What the inner loop leaves: a first row that may come before the others.
  abbrev IsSettled : A → A × List A → Type 0
  IsSettled x r = (after r.0 x ≡ false) × (is_first after r.0 r.1 ≡ true) × (ok r.0 ≡ true)

  settle_row-IsSettled :
      (x : A) (xs : List A)
      → ok x ≡ true
      → all_ok ok xs ≡ true
      → IsSettled x (settle_row after x xs)
  unfolding settle_row all_ok
  settle_row-IsSettled x [] h k = (not_after_self x h, refl, h)
  settle_row-IsSettled x (y ∷ ys) h k =
      let oky : ok y ≡ true = first_true (ok y) (all_ok ok ys) k in
      let okys : all_ok ok ys ≡ true = rest_true (ok y) (all_ok ok ys) k in
      elim (Bool-cases (after x y)) [
        | inl e ↦
            let ih : IsSettled y (settle_row after y ys) = settle_row-IsSettled y ys oky okys in
            let le : after (settle_row after y ys).0 x ≡ false =
              trans (settle_row after y ys).0 y x ih.2 oky h ih.0 (total x y h oky e) in
            subst (IsSettled x) (sym (settle_swap after x y ys e))
              (le, both (not-true le) ih.1, ih.2)
        | inr e ↦
            let ih : IsSettled x (settle_row after x ys) = settle_row-IsSettled x ys h okys in
            let le : after (settle_row after x ys).0 y ≡ false =
              trans (settle_row after x ys).0 x y ih.2 h oky ih.0 e in
            subst (IsSettled x) (sym (settle_stay after x y ys e))
              (ih.0, both (not-true le) ih.1, ih.2)
      ]

  pub sort_loop-ordered :
      (n : ℕ) (xs : List A)
      → length xs ≤ n
      → all_ok ok xs ≡ true
      → is_ordered after (sort_loop after n xs) ≡ true
  unfolding sort_loop is_ordered all_ok
  sort_loop-ordered zero [] h k = refl
  sort_loop-ordered zero (x ∷ xs) h k = absurd (omega arith)
  sort_loop-ordered (suc n) [] h k = refl
  sort_loop-ordered (suc n) (x ∷ xs) h k =
      let okx : ok x ≡ true = first_true (ok x) (all_ok ok xs) k in
      let okxs : all_ok ok xs ≡ true = rest_true (ok x) (all_ok ok xs) k in
      let s : IsSettled x (settle_row after x xs) = settle_row-IsSettled x xs okx okxs in
      both
        (sort_loop-all_ok after (λ y. not (after (settle_row after x xs).0 y)) n
          (settle_row after x xs).1 s.1)
        (sort_loop-ordered n (settle_row after x xs).1
          (omega (arith, h, settle_row-length after x xs))
          (settle_row-all_ok after ok x xs okx okxs).1)
