-- ===== src/Storage/Groups.antt =====
-- src/storage.c: the conditions of WHERE on a row are an OR of ANDs.
use jungle_w8_minisql_server.Prelude.{
  ℕ, ◌+◌, ◌-◌, ◌≡◌, refl, ap, sym, ◌∙◌, inl, inr, Bool, true, false, ◌&&◌, ◌||◌, Option, none, some,
  List, [], ◌∷◌, Text, bytes, arith, if◌then◌else◌, Bool-cases,
}
use jungle_w8_minisql_server.Parser.Tokens.{ieq}
use jungle_w8_minisql_server.Parser.Syntax.{ParsedSql, WhereClause}
use jungle_w8_minisql_server.Storage.Values.{ColDef, Doubles}
use jungle_w8_minisql_server.Storage.Where.{
  evaluate_select_clause, resolve_where_link, conditions_match, match_from, row_matches,
}

pub data Link : Type 0 where
  and_link : Link
  or_link : Link

unfoldable pub link_of : Text → Option Link
link_of link =
    if ieq link (bytes "AND")
    then some and_link
    else if ieq link (bytes "OR")
    then some or_link
    else none

abbrev cons_value :
    Option Link → Option Bool → Option (List (Link × Bool)) → Option (List (Link × Bool))
cons_value none v rest = none
cons_value (some l) none rest = none
cons_value (some l) (some b) none = none
cons_value (some l) (some b) (some rest) = some ((l, b) ∷ rest)

-- The links and the values of the conditions from this index on.
unfoldable pub link_values :
    Doubles
    → List ColDef
    → List Text
    → ParsedSql
    → ℕ
    → List WhereClause
    → Option (List (Link × Bool))
link_values doubles schema row sql index [] = some []
link_values doubles schema row sql index (w ∷ ws) =
    cons_value (link_of (resolve_where_link sql (index - 1)))
      (evaluate_select_clause doubles schema row w)
      (link_values doubles schema row sql (index + 1) ws)

abbrev into_first : Bool → List (List Bool) → List (List Bool)
into_first b [] = (b ∷ []) ∷ []
into_first b (g ∷ gs) = (b ∷ g) ∷ gs

-- The values between one OR and the next.
unfoldable pub groups : Bool → List (Link × Bool) → List (List Bool)
groups b [] = (b ∷ []) ∷ []
groups b ((and_link, c) ∷ rest) = into_first b (groups c rest)
groups b ((or_link, c) ∷ rest) = (b ∷ []) ∷ groups c rest

unfoldable pub all_true : List Bool → Bool
all_true [] = true
all_true (b ∷ bs) = b && all_true bs

unfoldable pub any_group : List (List Bool) → Bool
any_group [] = false
any_group (g ∷ gs) = all_true g || any_group gs

abbrev or_of_ands : Bool → Option (List (Link × Bool)) → Option Bool
or_of_ands b none = none
or_of_ands b (some rest) = some (any_group (groups b rest))

-- What conditions mean for a row.
unfoldable pub conditions_value :
    Doubles → List ColDef → List Text → ParsedSql → List WhereClause → Option Bool
conditions_value doubles schema row sql [] = some true
conditions_value doubles schema row sql (w ∷ ws) =
    elim (evaluate_select_clause doubles schema row w) [
      | none ↦ none
      | some b ↦ or_of_ands b (link_values doubles schema row sql 1 ws)
    ]

any_into_first :
    (a b : Bool) (gs : List (List Bool))
    → any_group (into_first a (into_first b gs)) ≡ any_group (into_first (a && b) gs)
unfolding any_group all_true
any_into_first a b [] = ground arith
any_into_first a b (g ∷ gs) = ground arith

groups_and :
    (a b : Bool) (rest : List (Link × Bool))
    → any_group (into_first a (groups b rest)) ≡ any_group (groups (a && b) rest)
unfolding groups
groups_and a b [] = any_into_first a b []
groups_and a b ((and_link, c) ∷ rest) = any_into_first a b (groups c rest)
groups_and a b ((or_link, c) ∷ rest) = any_into_first a b ([] ∷ groups c rest)

abbrev or_with : Bool → Option Bool → Option Bool
or_with out none = none
or_with out (some b) = some (out || b)

and_round :
    (out group m : Bool) (later : Option (List (Link × Bool)))
    → or_with out (or_of_ands (group && m) later)
      ≡ or_with out (or_of_ands group (cons_value (some and_link) (some m) later))
unfolding groups
and_round out group m none = refl
and_round out group m (some rest) = ap (λ b. some (out || b)) (sym (groups_and group m rest))

or_assoc : (a b c : Bool) → ((a || b) || c) ≡ (a || ((b && true) || c))
or_assoc a b c = ground arith

or_round :
    (out group m : Bool) (later : Option (List (Link × Bool)))
    → or_with (out || group) (or_of_ands m later)
      ≡ or_with out (or_of_ands group (cons_value (some or_link) (some m) later))
unfolding groups any_group all_true
or_round out group m none = refl
or_round out group m (some rest) = ap some (or_assoc out group (any_group (groups m rest)))

no_value : (l : Option Link) (later : Option (List (Link × Bool))) → cons_value l none later ≡ none
no_value none later = refl
no_value (some l) later = refl

-- A round of the loop, where the later rounds do what they should.
match_round :
    (value : Option Bool) (out group : Bool) (link : Text) (later : Bool → Bool → Option Bool)
    (rest : Option (List (Link × Bool)))
    → ((o g : Bool) → later o g ≡ or_with o (or_of_ands g rest))
    → (elim value [
      | none ↦ none
      | some m ↦
          if ieq link (bytes "AND") || ieq link (bytes "OR")
          then later
              (if ieq link (bytes "AND") then out else out || group)
              (if ieq link (bytes "AND") then group && m else m)
          else none
    ])
      ≡ or_with out (or_of_ands group (cons_value (link_of link) value rest))
unfolding link_of
match_round none out group link later rest ih =
    ap (λ o. or_with out (or_of_ands group o)) (sym (no_value (link_of link) rest))
match_round (some m) out group link later rest ih = elim (Bool-cases (ieq link (bytes "AND"))) [
  | inl e ↦ rw e (ih out (group && m) ∙ and_round out group m rest)
  | inr e ↦ elim (Bool-cases (ieq link (bytes "OR"))) [
    | inl f ↦ rw (e, f) (ih (out || group) m ∙ or_round out group m rest)
    | inr f ↦ rw (e, f) refl
  ]
]

first_round :
    (value : Option Bool) (f g : Bool → Option Bool)
    → ((b : Bool) → f b ≡ g b)
    → (elim value [ none ↦ none | some b ↦ f b ]) ≡ (elim value [ none ↦ none | some b ↦ g b ])
first_round none f g e = refl
first_round (some b) f g e = e b

last_group : (b : Bool) → b ≡ any_group (groups b [])
unfolding groups any_group all_true
last_group b = ground arith

module _ (doubles : Doubles) (schema : List ColDef) (row : List Text) (sql : ParsedSql) where
  match_from-link_values :
      (out group : Bool) (index : ℕ) (ws : List WhereClause)
      → match_from doubles schema row sql out group index ws
        ≡ or_with out (or_of_ands group (link_values doubles schema row sql index ws))
  unfolding match_from link_values
  match_from-link_values out group index [] = ap (λ b. some (out || b)) (last_group group)
  match_from-link_values out group index (w ∷ ws) =
      match_round (evaluate_select_clause doubles schema row w) out group
        (resolve_where_link sql (index - 1))
        (λ o g. match_from doubles schema row sql o g (index + 1) ws)
        (link_values doubles schema row sql (index + 1) ws)
        (λ o g. match_from-link_values o g (index + 1) ws)

  with_false : (o : Option Bool) → or_with false o ≡ o
  with_false none = refl
  with_false (some b) = refl

  conditions_match-conditions_value :
      (ws : List WhereClause)
      → conditions_match doubles schema row sql ws ≡ conditions_value doubles schema row sql ws
  unfolding conditions_match conditions_value
  conditions_match-conditions_value [] = refl
  conditions_match-conditions_value (w ∷ ws) =
      first_round (evaluate_select_clause doubles schema row w)
        (λ b. match_from doubles schema row sql false b 1 ws)
        (λ b. or_of_ands b (link_values doubles schema row sql 1 ws))
        (λ b.
          match_from-link_values false b 1 ws
          ∙ with_false (or_of_ands b (link_values doubles schema row sql 1 ws)))

  -- The test of a row by WHERE is the OR of the ANDs of its conditions, with AND binding tighter; it
  -- fails when a condition cannot be evaluated or a link is neither AND nor OR, also where the
  -- others decide.
  pub row_matches-conditions_value :
      row_matches doubles schema sql row ≡ conditions_value doubles schema row sql sql.conditions
  unfolding row_matches
  row_matches-conditions_value = conditions_match-conditions_value sql.conditions
