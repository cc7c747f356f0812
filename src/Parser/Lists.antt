-- ===== src/Parser/Lists.antt =====
-- src/parser.c: lists with commas, written as tokens, are read back.
use jungle_w8_minisql_server.Prelude.{
  ℕ, zero, suc, ◌≤◌, ◌<◌, ◌≡◌, refl, Bool, false, Option, none, some, List, [], ◌∷◌, map, length,
  take_all, Text, bytes, text_eq, arith,
}
use jungle_w8_minisql_server.Parser.Tokens.{ieq, to_lower}
use jungle_w8_minisql_server.Parser.Syntax.{
  WhereClause, ParsedSql, match_kw, skip_kw, ident_loop, parse_ident_list, optional_where,
  connective, common_logic,
}
use jungle_w8_minisql_server.Parser.Statements.{
  read_column, column_loop, is_select_stop_token, append_clip,
}
use jungle_w8_minisql_server.Parser.Conditions.{
  where_before, IsClause, AllClauses, parse_where_before,
}

-- Tokens with commas between, before those that follow.
unfoldable pub list_before : Text → List Text → List Text → List Text
list_before t [] ts = t ∷ ts
list_before t (u ∷ us) ts = t ∷ bytes "," ∷ list_before u us ts

abbrev pub AllNot : (Text → Bool) → List Text → Type 0
AllNot test [] = Unit
AllNot test (t ∷ ts) = (test t ≡ false) × AllNot test ts

abbrev pub is_close : Text → Bool
is_close t = text_eq t (bytes ")")

pub ident_loop_before :
    (t : Text) (us ts : List Text)
    → AllNot is_close (t ∷ us)
    → ident_loop (list_before t us (bytes ")" ∷ ts)) ≡ (t ∷ us, bytes ")" ∷ ts)
unfolding ident_loop list_before ieq to_lower
ident_loop_before t [] ts h = rw h.0 refl
ident_loop_before t (u ∷ us) ts h = rw (h.0, ident_loop_before u us ts h.1) refl

pub ident_list_before :
    (t : Text) (us ts : List Text)
    → AllNot is_close (t ∷ us)
    → parse_ident_list (list_before t us (bytes ")" ∷ ts)) ≡ (t ∷ us, ts)
unfolding parse_ident_list skip_kw match_kw ieq to_lower
ident_list_before t us ts h = rw (ident_loop_before t us ts h) refl

-- A column of SELECT that is one token.
abbrev pub IsColumn : Text → Type 0
IsColumn t = (is_select_stop_token t ≡ false) × (length t ≤ 159)

abbrev pub AllColumns : List Text → Type 0
AllColumns [] = Unit
AllColumns (t ∷ ts) = IsColumn t × AllColumns ts

pub column_loop_before :
    (fuel : ℕ) (t : Text) (us ts : List Text)
    → length us < fuel
    → AllColumns (t ∷ us)
    → column_loop fuel (list_before t us (bytes "FROM" ∷ ts)) ≡ (t ∷ us, bytes "FROM" ∷ ts)
unfolding column_loop list_before read_column append_clip match_kw ieq to_lower text_eq
column_loop_before zero t us ts room h = absurd (omega arith)
column_loop_before (suc fuel) t [] ts room h = rw (h.0.0, take_all 159 t h.0.1) refl
column_loop_before (suc fuel) t (u ∷ us) ts room h =
    rw (h.0.0, take_all 159 t h.0.1, column_loop_before fuel u us ts (omega arith) h.1) refl

pub list_before_longer : (t : Text) (us ts : List Text) → length us < length (list_before t us ts)
unfolding list_before
list_before_longer t [] ts = omega arith
list_before_longer t (u ∷ us) ts = omega (arith, list_before_longer u us ts)

-- A WHERE part that may be missing.
abbrev pub Filter : Type 0
Filter = Option (WhereClause × List (Text × WhereClause))

abbrev pub IsFilter : Filter → Type 0
IsFilter none = Unit
IsFilter (some (w, ls)) = IsClause w × AllClauses ls

unfoldable pub filter_before : Filter → List Text → List Text
filter_before none ts = ts
filter_before (some (w, ls)) ts = bytes "WHERE" ∷ where_before w ls ts

-- The statement with the conditions of a WHERE part.
unfoldable pub with_filter : Filter → ParsedSql → ParsedSql
with_filter none sql = sql
with_filter (some (w, ls)) sql = record sql {
  conditions = w ∷ map (λ (p : Text × WhereClause). p.1) ls;
  where_links = map (λ (p : Text × WhereClause). p.0) ls;
  where_logic = common_logic (map (λ (p : Text × WhereClause). p.0) ls);
}

no_filter :
    (sql : ParsedSql) (ts : List Text)
    → match_kw (bytes "WHERE") ts ≡ none
    → optional_where sql ts ≡ (sql, ts)
unfolding optional_where
no_filter sql ts h = rw (h, optional_where) refl

pub optional_where_before :
    (sql : ParsedSql) (f : Filter) (ts : List Text)
    → match_kw (bytes "WHERE") ts ≡ none
    → connective ts ≡ none
    → IsFilter f
    → optional_where sql (filter_before f ts) ≡ (with_filter f sql, ts)
unfolding optional_where filter_before with_filter match_kw ieq to_lower
optional_where_before sql none ts h last ok = no_filter sql ts h
optional_where_before sql (some (w, ls)) ts h last ok =
    parse_where_before sql w ls ts last ok.0 ok.1
