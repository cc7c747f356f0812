-- ===== src/Registry/Lookup.antt =====
-- src/index_registry.c: what `index_registry_get_or_create` registers.
use jungle_w8_minisql_server.Prelude.{
  ℕ, ◌+◌, ◌≤◌, ◌<◌, ◌≡◌, refl, ap, sym, ◌∙◌, ◌⊎◌, inl, inr, true, false, Option, none, some, List,
  [], ◌∷◌, ◌++◌, length, length-append, Text, text_eq, text_eq_refl, eq_of_text_eq, arith, ltb, leb,
  if◌then◌else◌, Bool-cases, if_cases,
}
use jungle_w8_minisql_server.Registry.Entries.{
  max_tables, table_name_max, RegistryEntry, find_index, get, add_entry, register, get_or_create,
}

abbrev pub AllNames : List RegistryEntry → Type 0
AllNames [] = Unit
AllNames (e ∷ es) = (length e.table + 1 ≤ table_name_max) × AllNames es

abbrev pub Unlisted : Text → List RegistryEntry → Type 0
Unlisted t [] = Unit
Unlisted t (e ∷ es) = (text_eq e.table t ≡ false) × Unlisted t es

abbrev pub Unique : List RegistryEntry → Type 0
Unique [] = Unit
Unique (e ∷ es) = Unlisted e.table es × Unique es

-- Within the array's bounds, names that fit, and each table once.
pub record IsRegistry (es : List RegistryEntry) : Type 0 where
  pub few : length es ≤ max_tables
  pub names : AllNames es
  pub unique : Unique es

abbrev pub entry : Text → ℕ → RegistryEntry
entry t p = record { table = t; tree = p }

-- A table without an entry is not the first one either.
not_first :
    (t : Text) (e : RegistryEntry) (es : List RegistryEntry)
    → find_index t (e ∷ es) ≡ none
    → (text_eq e.table t ≡ false) × (find_index t es ≡ none)
unfolding find_index
not_first t e es h = elim (Bool-cases (text_eq e.table t)) [
  | inl same ↦ absurd (ground arith)
  | inr apart ↦ (apart, ground arith)
]

text_eq_sym : (a b : Text) → text_eq a b ≡ false → text_eq b a ≡ false
text_eq_sym a b h = elim (Bool-cases (text_eq b a)) [
  | inl e ↦ absurd (cc (eq_of_text_eq b a e, text_eq_refl a))
  | inr e ↦ e
]

first_other :
    (q t : Text) (e : RegistryEntry)
    → text_eq e.table t ≡ false
    → text_eq e.table q ≡ true
    → text_eq t q ≡ false
first_other q t e h same = elim (Bool-cases (text_eq t q)) [
  | inl k ↦ absurd (cc (eq_of_text_eq t q k))
  | inr k ↦ k
]

find_index-append :
    (q t : Text) (p : ℕ) (es : List RegistryEntry)
    → find_index t es ≡ none
    → find_index q (es ++ (entry t p ∷ [])) ≡ (if text_eq t q then some p else find_index q es)
unfolding find_index
find_index-append q t p [] h = refl
find_index-append q t p (e ∷ es) h =
    let (apart, rest) = not_first t e es h in
    elim (Bool-cases (text_eq e.table q)) [
      | inl same ↦ rw (same, first_other q t e apart same) refl
      | inr other ↦ rw other (find_index-append q t p es rest)
    ]

Unlisted-append :
    (q t : Text) (p : ℕ) (es : List RegistryEntry)
    → Unlisted q es
    → text_eq t q ≡ false
    → Unlisted q (es ++ (entry t p ∷ []))
Unlisted-append q t p [] h n = (n, tt)
Unlisted-append q t p (e ∷ es) h n = (h.0, Unlisted-append q t p es h.1 n)

Unique-append :
    (t : Text) (p : ℕ) (es : List RegistryEntry)
    → find_index t es ≡ none
    → Unique es
    → Unique (es ++ (entry t p ∷ []))
unfolding find_index
Unique-append t p [] h u = (tt, tt)
Unique-append t p (e ∷ es) h u =
    let (apart, rest) = not_first t e es h in
    (
      Unlisted-append e.table t p es u.0 (text_eq_sym e.table t apart),
      Unique-append t p es rest u.1,
    )

AllNames-append :
    (t : Text) (p : ℕ) (es : List RegistryEntry)
    → length t + 1 ≤ table_name_max
    → AllNames es
    → AllNames (es ++ (entry t p ∷ []))
AllNames-append t p [] h a = (h, tt)
AllNames-append t p (e ∷ es) h a = (a.0, AllNames-append t p es h a.1)

-- What a call leaves: nothing changed, or one new entry for a table without one.
pub data Registered (es : List RegistryEntry) (t : Text) (made : Option ℕ)
    : List RegistryEntry × Option ℕ → Type 0 where
  known : (p : ℕ) → find_index t es ≡ some p → Registered es t made (es, some p)
  refused :
      find_index t es ≡ none
      → (max_tables ≤ length es) ⊎ (table_name_max < length t + 1) ⊎ (made ≡ none)
      → Registered es t made (es, none)
  added :
      (p : ℕ)
      → find_index t es ≡ none
      → made ≡ some p
      → length es < max_tables
      → length t + 1 ≤ table_name_max
      → Registered es t made (es ++ (entry t p ∷ []), some p)

add_entry-Registered :
    (es : List RegistryEntry) (t : Text) (made : Option ℕ)
    → find_index t es ≡ none
    → length es < max_tables
    → length t + 1 ≤ table_name_max
    → Registered es t made (add_entry es t made)
unfolding add_entry
add_entry-Registered es t none e few short = refused e (inr (inr refl))
add_entry-Registered es t (some p) e few short = added p e refl few short

register-Registered :
    (es : List RegistryEntry) (t : Text) (made : Option ℕ)
    → find_index t es ≡ none
    → Registered es t made (register es t made)
unfolding register
register-Registered es t made e =
    if_cases (Registered es t made) (leb max_tables (length es)) (es, none) _
      (λ full. refused e (inl (ground arith)))
      (λ few.
        if_cases (Registered es t made) (ltb table_name_max (length t + 1)) (es, none)
          (add_entry es t made) (λ long. refused e (inr (inl (ground arith))))
          (λ short. add_entry-Registered es t made e (ground arith) (ground arith)))

get_or_create-Registered :
    (es : List RegistryEntry) (t : Text) (made : Option ℕ)
    → Registered es t made (get_or_create es (some t) made)
unfolding get_or_create
get_or_create-Registered es t made = go (find_index t es) refl
  where
    go :
        (f : Option ℕ)
        → find_index t es ≡ f
        → Registered es t made (elim f [ none ↦ register es t made | some tree ↦ (es, some tree) ])
    go (some p) e = known p e
    go none e = register-Registered es t made e

-- After a request for the index of a table, a lookup of that table returns what the request
-- returned, be it an index or none, and a lookup of every other table what it returned before.
pub get-get_or_create :
    (es : List RegistryEntry) (t q : Text) (made : Option ℕ)
    → get (get_or_create es (some t) made).0 (some q)
      ≡ (if text_eq t q then (get_or_create es (some t) made).1 else get es (some q))
unfolding get
get-get_or_create es t q made =
    go (get_or_create es (some t) made) (get_or_create-Registered es t made)
  where
    same_table :
        (x : Option ℕ)
        → find_index t es ≡ x
        → find_index q es ≡ (if text_eq t q then x else find_index q es)
    same_table x e = elim (Bool-cases (text_eq t q)) [
      | inl k ↦ rw k (ap (λ u. find_index u es) (sym (eq_of_text_eq t q k)) ∙ e)
      | inr k ↦ rw k refl
    ]

    go :
        (r : List RegistryEntry × Option ℕ)
        → Registered es t made r
        → find_index q r.0 ≡ (if text_eq t q then r.1 else find_index q es)
    go r (known p e) = same_table (some p) e
    go r (refused e why) = same_table none e
    go r (added p e em few short) = find_index-append q t p es e

-- A request for the index of a table keeps the registry within 64 entries, each with a name that
-- fits its array and a table of its own.
pub get_or_create-IsRegistry :
    (es : List RegistryEntry) (t : Text) (made : Option ℕ)
    → IsRegistry es
    → IsRegistry (get_or_create es (some t) made).0
get_or_create-IsRegistry es t made h =
    go (get_or_create es (some t) made) (get_or_create-Registered es t made)
  where
    go : (r : List RegistryEntry × Option ℕ) → Registered es t made r → IsRegistry r.0
    go r (known p e) = h
    go r (refused e why) = h
    go r (added p e em few short) = record {
      few = omega (arith, length-append es (entry t p ∷ []));
      names = AllNames-append t p es short h.names;
      unique = Unique-append t p es e h.unique;
    }
