-- ===== src/Parser/Conditions.antt =====
-- src/parser.c: `parse_where` reads back conditions that are written as tokens.
use jungle_w8_minisql_server.Prelude.{
  ℕ, zero, suc, ◌≤◌, ◌<◌, ◌≡◌, refl, ap, sym, subst, ◌∙◌, ◌⊎◌, inl, inr, true, false, none, some,
  List, [], ◌∷◌, map, length, Text, bytes, arith, if◌then◌else◌,
}
use jungle_w8_minisql_server.Parser.Tokens.{ieq, to_lower}
use jungle_w8_minisql_server.Parser.Syntax.{
  WhereClause, ParsedSql, copy_unset, read_between, read_condition, connective, Conditions, combine,
  where_loop, trim_links, parse_where, common_logic,
}

-- The tokens of a condition before those that follow.
unfoldable pub condition_before : WhereClause → List Text → List Text
condition_before w ts =
    if ieq w.op (bytes "BETWEEN")
    then w.column ∷ w.op ∷ w.value ∷ bytes "AND" ∷ w.value_to ∷ ts
    else w.column ∷ w.op ∷ w.value ∷ ts

-- Conditions, each but the first after its link.
unfoldable pub where_before : WhereClause → List (Text × WhereClause) → List Text → List Text
where_before w [] ts = condition_before w ts
where_before w ((l, v) ∷ ls) ts = condition_before w (l ∷ where_before v ls ts)

-- What the arrays of a `WhereClause` hold with a zero behind it that strncpy writes.
pub record IsClause (w : WhereClause) : Type 0 where
  pub column : length w.column ≤ 62
  pub value : length w.value ≤ 254
  pub value_to : length w.value_to ≤ 254
  pub range :
      (ieq w.op (bytes "BETWEEN") ≡ false) × (length w.op ≤ 6) × (w.value_to ≡ [])
      ⊎ (w.op ≡ bytes "BETWEEN")

abbrev pub IsLink : Text → Type 0
IsLink l = (l ≡ bytes "AND") ⊎ (l ≡ bytes "OR")

abbrev pub AllClauses : List (Text × WhereClause) → Type 0
AllClauses [] = Unit
AllClauses ((l, v) ∷ ls) = ((l ≡ bytes "AND") ⊎ (l ≡ bytes "OR")) × IsClause v × AllClauses ls

-- Room for one of strncpy's zeros keeps a text whole.
pub copy_unset_room : (size : ℕ) (t : Text) → suc (length t) < size → copy_unset size t ≡ t
unfolding copy_unset
copy_unset_room size t h = ground arith

abbrev clause : Text → Text → Text → Text → WhereClause
clause c o v u = record { column = c; op = o; value = v; value_to = u }

plain_condition :
    (c o v : Text) (ts : List Text)
    → length c ≤ 62
    → length o ≤ 6
    → length v ≤ 254
    → ieq o (bytes "BETWEEN") ≡ false
    → read_condition (condition_before (clause c o v []) ts) ≡ (some (clause c o v [], true), ts)
unfolding condition_before read_condition
plain_condition c o v ts hc ho hv e =
    rw
      (
        e,
        e,
        copy_unset_room 64 c (omega arith),
        copy_unset_room 8 o (omega arith),
        copy_unset_room 256 v (omega arith),
      )
      refl

range_condition :
    (c v u : Text) (ts : List Text)
    → length c ≤ 62
    → length v ≤ 254
    → length u ≤ 254
    → read_condition (condition_before (clause c (bytes "BETWEEN") v u) ts)
      ≡ (some (clause c (bytes "BETWEEN") v u, true), ts)
unfolding condition_before read_condition read_between ieq to_lower
range_condition c v u ts hc hv hu =
    rw
      (
        copy_unset_room 64 c (omega arith),
        copy_unset_room 256 v (omega arith),
        copy_unset_room 256 u (omega arith),
      )
      refl

read_condition_before :
    (w : WhereClause) (ts : List Text)
    → IsClause w
    → read_condition (condition_before w ts) ≡ (some (w, true), ts)
read_condition_before w ts h = go h.range
  where
    P : Text → Text → Type 0
    P o u =
        read_condition (condition_before (clause w.column o w.value u) ts)
        ≡ (some (clause w.column o w.value u, true), ts)

    go :
        (ieq w.op (bytes "BETWEEN") ≡ false) × (length w.op ≤ 6) × (w.value_to ≡ [])
          ⊎ (w.op ≡ bytes "BETWEEN")
        → P w.op w.value_to
    go (inl (plain, op_room, empty)) =
        subst (P w.op) (sym empty)
          (plain_condition w.column w.op w.value ts h.column op_room h.value plain)
    go (inr between) =
        subst (λ o. P o w.value_to) (sym between)
          (range_condition w.column w.value w.value_to ts h.column h.value h.value_to)

connective_link : (l : Text) (ts : List Text) → IsLink l → connective (l ∷ ts) ≡ some l
unfolding connective ieq to_lower
connective_link l ts (inl e) = rw e refl
connective_link l ts (inr e) = rw e refl

abbrev read_all : WhereClause → List (Text × WhereClause) → List Text → Conditions
read_all w ls ts = record {
  clauses = w ∷ map (λ (p : Text × WhereClause). p.1) ls;
  links = map (λ (p : Text × WhereClause). p.0) ls;
  left = ts;
}

combine_last :
    (w : WhereClause) (ts : List Text) (rest : Conditions)
    → connective ts ≡ none
    → combine (some (w, true)) ts rest ≡ record { clauses = w ∷ []; links = []; left = ts }
unfolding combine
combine_last w ts rest e = rw (e, combine) refl

combine_link :
    (w : WhereClause) (l : Text) (ts : List Text) (rest : Conditions)
    → IsLink l
    → combine (some (w, true)) (l ∷ ts) rest
      ≡ record { clauses = w ∷ rest.clauses; links = l ∷ rest.links; left = rest.left }
unfolding combine
combine_link w l ts rest e = rw (connective_link l ts e, combine) refl

where_loop_before :
    (fuel : ℕ) (w : WhereClause) (ls : List (Text × WhereClause)) (ts : List Text)
    → length ls < fuel
    → connective ts ≡ none
    → IsClause w
    → AllClauses ls
    → where_loop fuel (where_before w ls ts) ≡ read_all w ls ts
unfolding where_loop where_before
where_loop_before zero w ls ts room last h hs = absurd (omega arith)
where_loop_before (suc fuel) w [] ts room last h hs =
    rw (read_condition_before w ts h) (combine_last w ts _ last)
where_loop_before (suc fuel) w ((l, v) ∷ ls) ts room last h hs =
    rw (read_condition_before w (l ∷ where_before v ls ts) h) (
      combine_link w l (where_before v ls ts) _ hs.0
      ∙ rw (where_loop_before fuel v ls ts (omega arith) last hs.1 hs.2) refl)

where_before_longer :
    (w : WhereClause) (ls : List (Text × WhereClause)) (ts : List Text)
    → length ls < length (where_before w ls ts)
unfolding where_before condition_before
where_before_longer w [] ts = ground arith
where_before_longer w ((l, v) ∷ ls) ts = ground (arith, where_before_longer v ls ts)

same_lengths :
    (ls : List (Text × WhereClause))
    → length (map (λ (p : Text × WhereClause). p.0) ls)
      ≡ length (map (λ (p : Text × WhereClause). p.1) ls)
same_lengths [] = refl
same_lengths (p ∷ ls) = ap suc (same_lengths ls)

trim_all :
    (w : WhereClause) (ls : List (Text × WhereClause)) (ts : List Text)
    → trim_links (length (read_all w ls ts).clauses) (read_all w ls ts).links
      ≡ (read_all w ls ts).links
unfolding trim_links
trim_all w ls ts = ground (arith, same_lengths ls)

pub parse_where_before :
    (sql : ParsedSql) (w : WhereClause) (ls : List (Text × WhereClause)) (ts : List Text)
    → connective ts ≡ none
    → IsClause w
    → AllClauses ls
    → parse_where sql (where_before w ls ts) ≡ (
      record sql {
        conditions = w ∷ map (λ (p : Text × WhereClause). p.1) ls;
        where_links = map (λ (p : Text × WhereClause). p.0) ls;
        where_logic = common_logic (map (λ (p : Text × WhereClause). p.0) ls);
      },
      ts,
    )
unfolding parse_where
parse_where_before sql w ls ts last h hs =
    rw
      (
        where_loop_before (length (where_before w ls ts)) w ls ts (where_before_longer w ls ts) last
            h hs,
        trim_all w ls ts,
      )
      refl
