-- ===== src/Auth/Parsing.antt =====
-- The parsing of scopes of pkg/auth/scopes.go.
use observe_x.Prelude.{
  ◌≡◌, refl, true, false, some, List, [], ◌∷◌, arith, Option-cases, inl, inr, ◌⊎◌,
}
use mathlib.Core.Path.{subst}
use observe_x.Prelude.Text.{Text}
use observe_x.Auth.{
  Scope, ingest, query, alert_read, alert_write, tenant_admin, scope_text, has, dedup_sort_scopes,
  default_scopes, parse_scope, parse_all, parse_scopes, scopes_as_strings,
}
use observe_x.Auth.Order.{Ascending, dedup_sort_scopes_lem}

parse_scope-scope_text : (s : Scope) → parse_scope (scope_text s) ≡ some s
unfolding parse_scope scope_text
parse_scope-scope_text ingest = refl
parse_scope-scope_text query = refl
parse_scope-scope_text alert_read = refl
parse_scope-scope_text alert_write = refl
parse_scope-scope_text tenant_admin = refl

parse_all-strings : (ss : List Scope) → parse_all (scopes_as_strings ss) ≡ some ss
unfolding parse_all scopes_as_strings
parse_all-strings [] = refl
parse_all-strings (s ∷ ss) = ground (arith, parse_scope-scope_text s, parse_all-strings ss)

-- Parsing the canonical strings of some scopes gives these scopes back, each once and in the order of
-- the strings; without any it gives the default.
pub parse_scopes-strings :
    (ss : List Scope)
    → (rs : List Scope) × (parse_scopes (scopes_as_strings ss) ≡ some rs)
      × Ascending rs
      × (((ss ≡ []) × (rs ≡ default_scopes)) ⊎ ((s : Scope) → has s rs ≡ has s ss))
unfolding parse_scopes scopes_as_strings
parse_scopes-strings [] = (default_scopes, refl, tt, inl (refl, refl))
parse_scopes-strings (s ∷ ss) =
    let (up, same) = dedup_sort_scopes_lem (s ∷ ss) in
    (dedup_sort_scopes (s ∷ ss), ground (arith, parse_all-strings (s ∷ ss)), up, inr same)

-- In what ParseScopes returns each scope is less than the next one: they are sorted, without doubles.
pub parse_scopes-Ascending :
    (ts : List Text) (ss : List Scope) → parse_scopes ts ≡ some ss → Ascending ss
unfolding parse_scopes
parse_scopes-Ascending [] ss h = let same : default_scopes ≡ ss = cc in subst Ascending same tt
parse_scopes-Ascending (t ∷ ts) ss h = elim (Option-cases (parse_all (t ∷ ts))) [
  | inl e ↦ let clash : true ≡ false = ground arith in cc
  | inr (xs, e) ↦
      let same : dedup_sort_scopes xs ≡ ss = ground arith in
      subst Ascending same (dedup_sort_scopes_lem xs).0
]
