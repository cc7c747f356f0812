-- ===== src/Parser/Where.antt =====
-- src/parser.c: the loop of `parse_where` ends, and its links join its conditions.
use jungle_w8_minisql_server.Prelude.{
  ℕ, zero, suc, ◌+◌, ◌-◌, ◌≤◌, ◌≡◌, refl, ap, ◌⊎◌, inl, inr, Bool, true, false, Option, none, some,
  List, [], ◌∷◌, length, drop, length-take, length-drop, Text, bytes, arith, if_both,
}
use jungle_w8_minisql_server.Parser.Tokens.{ieq}
use jungle_w8_minisql_server.Parser.Syntax.{
  copy_unset, WhereClause, ParsedSql, read_between, read_condition, connective, Conditions, combine,
  where_loop, trim_links, parse_where,
}

read_between_shorter : (w : WhereClause) (ts : List Text) → length (read_between w ts).1 ≤ length ts
unfolding read_between
read_between_shorter w [] = omega arith
read_between_shorter w (a ∷ []) = omega arith
read_between_shorter w (a ∷ high ∷ ts) = ground arith

read_condition_shorter :
    (t : Text) (ts : List Text) → length (drop 1 (read_condition (t ∷ ts)).1) ≤ length ts
unfolding read_condition
read_condition_shorter t [] = omega arith
read_condition_shorter t (b ∷ []) = omega arith
read_condition_shorter col (op ∷ val ∷ ts) =
    let P = λ (r : Option (WhereClause × Bool) × List Text).
      length (drop 1 r.1) ≤ suc (suc (length ts)) in
    if_both P (ieq op (bytes "BETWEEN")) (read_between _ ts) (some (_, true), ts)
      (omega
        (arith, length-drop 1 (read_between (clause_of) ts).1, read_between_shorter (clause_of) ts))
      (omega (arith, length-drop 1 ts))
  where
    clause_of : WhereClause
    clause_of = record {
      column = copy_unset 64 col;
      op = copy_unset 8 op;
      value = copy_unset 256 val;
      value_to = [];
    }

same_rounds :
    (n m : ℕ) (ts : List Text) → length ts ≤ n → length ts ≤ m → where_loop n ts ≡ where_loop m ts
unfolding where_loop combine read_condition
same_rounds zero zero ts hn hm = refl
same_rounds zero (suc m) [] hn hm = refl
same_rounds zero (suc m) (t ∷ ts) hn hm = absurd (omega arith)
same_rounds (suc n) zero [] hn hm = refl
same_rounds (suc n) zero (t ∷ ts) hn hm = absurd (omega arith)
same_rounds (suc n) (suc m) [] hn hm = refl
same_rounds (suc n) (suc m) (t ∷ ts) hn hm =
    let r = read_condition (t ∷ ts) in
    ap (combine r.0 r.1) (
      same_rounds n m (drop 1 r.1) (omega (arith, read_condition_shorter t ts))
        (omega (arith, read_condition_shorter t ts)))

pub where_loop-enough :
    (fuel : ℕ) (ts : List Text) → length ts ≤ fuel → where_loop fuel ts ≡ where_loop (length ts) ts
where_loop-enough fuel ts enough = same_rounds fuel (length ts) ts enough (omega arith)

-- Links join the conditions, and the last link may lack its condition.
abbrev Joined : Conditions → Type 0
Joined r = (length r.links ≡ length r.clauses) ⊎ (length r.clauses ≡ length r.links + 1)

combine-Joined :
    (o : Option (WhereClause × Bool)) (ts : List Text) (rest : Conditions)
    → Joined rest
    → Joined (combine o ts rest)
unfolding combine
combine-Joined none ts rest h = inl refl
combine-Joined (some (w, false)) ts rest h = inr refl
combine-Joined (some (w, true)) ts rest h = go (connective ts)
  where
    go :
        (c : Option Text)
        → Joined (elim c [
          | none ↦ record { clauses = w ∷ []; links = []; left = ts }
          | some l ↦ record { clauses = w ∷ rest.clauses; links = l ∷ rest.links; left = rest.left }
        ])
    go none = inr refl
    go (some l) = elim h [ inl e ↦ inl (omega arith) | inr e ↦ inr (omega arith) ]

where_loop-Joined : (fuel : ℕ) (ts : List Text) → Joined (where_loop fuel ts)
unfolding where_loop
where_loop-Joined zero ts = inl refl
where_loop-Joined (suc fuel) ts =
    combine-Joined (read_condition ts).0 (read_condition ts).1 _
      (where_loop-Joined fuel (drop 1 (read_condition ts).1))

trim_links-Joined :
    (r : Conditions)
    → Joined r
    → length (trim_links (length r.clauses) r.links) ≡ length r.clauses - 1
unfolding trim_links
trim_links-Joined r h = ground (arith, length-take (length r.links - 1) r.links)

-- Whatever the tokens are, WHERE gives one link less than conditions, and none without conditions.
pub where_links_count :
    (sql : ParsedSql) (ts : List Text)
    → length (parse_where sql ts).0.where_links ≡ length (parse_where sql ts).0.conditions - 1
unfolding parse_where
where_links_count sql ts =
    trim_links-Joined (where_loop (length ts) ts) (where_loop-Joined (length ts) ts)
