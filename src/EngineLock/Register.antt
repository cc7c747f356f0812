-- ===== src/EngineLock/Register.antt =====
-- src/engine_lock.c: which slot a table has, and who may hold its lock.
use jungle_w8_minisql_server.Prelude.{
  ℕ, suc, ◌≤◌, ◌≡◌, refl, ap, sym, ◌∙◌, inl, inr, Bool, true, false, Option, none, some, List, [],
  ◌∷◌, length, take, take_all, Text, text_eq, text_eq_refl, eq_of_text_eq, arith, if◌then◌else◌,
  Bool-cases, if_both,
}
use jungle_w8_minisql_server.EngineLock.Slots.{
  TableLock, same_name, find_from, registry_find_locked, claim_from, registry_get_or_create_locked,
}

short_name : (t q : Text) → length t ≤ 63 → length q ≤ 63 → same_name (take 63 t) q ≡ text_eq t q
unfolding same_name
short_name t q ht hq =
    rw (take_all 63 t ht, take_all 64 t (omega arith), take_all 64 q (omega arith)) refl

text_eq_self : (t : Text) → length t ≤ 63 → same_name (take 63 t) t ≡ true
text_eq_self t h = short_name t t h h ∙ text_eq_refl t

not_both : (n t q : Text) → same_name n t ≡ false → same_name n q ≡ true → text_eq t q ≡ false
not_both n t q h k = elim (Bool-cases (text_eq t q)) [
  | inl e ↦ absurd (cc (eq_of_text_eq t q e))
  | inr e ↦ e
]

-- A slot that is claimed answers to its table from then on, and to no other.
claim_from-find :
    (inits : Bool) (i : ℕ) (t q : Text) (l : List TableLock)
    → length t ≤ 63
    → length q ≤ 63
    → find_from i t l ≡ none
    → find_from i q (claim_from inits i t l).0
      ≡ (if text_eq t q then (claim_from inits i t l).1 else find_from i q l)
unfolding claim_from find_from
claim_from-find inits i t q [] ht hq h = if_both (λ x. none ≡ x) (text_eq t q) none none refl refl
claim_from-find inits i t q (s ∷ l) ht hq h =
    go s.used inits h (claim_from-find inits (suc i) t q l ht hq)
  where
    P : Bool → Bool → Type 0
    P u b = find_from i q (claim_from b i t (record s { used = u } ∷ l)).0 ≡ (
        if text_eq t q
        then (claim_from b i t (record s { used = u } ∷ l)).1
        else find_from i q (record s { used = u } ∷ l))

    go :
        (u b : Bool)
        → find_from i t (record s { used = u } ∷ l) ≡ none
        → (find_from (suc i) t l ≡ none
            → find_from (suc i) q (claim_from b (suc i) t l).0
              ≡ (if text_eq t q then (claim_from b (suc i) t l).1 else find_from (suc i) q l))
        → P u b
    go true b h ih = elim (Bool-cases (same_name s.name t)) [
      | inl is_t ↦ absurd (ground arith)
      | inr not_t ↦ elim (Bool-cases (same_name s.name q)) [
        | inl is_q ↦ rw (is_q, not_both s.name t q not_t is_q) refl
        | inr not_q ↦ rw not_q (ih (ground arith))
      ]
    ]
    go false true h ih = rw (short_name t q ht hq) refl
    go false false h ih = elim (Bool-cases (text_eq t q)) [
      | inl e ↦ rw e (ap (λ u. find_from (suc i) u l) (sym (eq_of_text_eq t q e)) ∙ h)
      | inr e ↦ rw e refl
    ]

-- For table names under 64 bytes, a call for a table leaves every other table its slot, and the
-- table itself is found in the slot that the call gives, or in none where it gives none.
pub find-get_or_create :
    (inits : Bool) (l : List TableLock) (t q : Text)
    → length t ≤ 63
    → length q ≤ 63
    → registry_find_locked (registry_get_or_create_locked inits l t).0 q ≡ (
        if text_eq t q
        then (registry_get_or_create_locked inits l t).1
        else registry_find_locked l q)
unfolding registry_find_locked registry_get_or_create_locked
find-get_or_create inits l t q ht hq = go (find_from 0 t l) refl
  where
    given : Option ℕ → List TableLock × Option ℕ
    given f = elim f [ none ↦ claim_from inits 0 t l | some i ↦ (l, some i) ]

    go :
        (f : Option ℕ)
        → find_from 0 t l ≡ f
        → find_from 0 q (given f).0 ≡ (if text_eq t q then (given f).1 else find_from 0 q l)
    go none e = claim_from-find inits 0 t q l ht hq e
    go (some i) e = elim (Bool-cases (text_eq t q)) [
      | inl k ↦ rw k (ap (λ u. find_from 0 u l) (sym (eq_of_text_eq t q k)) ∙ e)
      | inr k ↦ rw k refl
    ]
