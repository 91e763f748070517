-- ===== src/ObserveQl/Injection.antt =====
-- The SQL text of PlanQuery (pkg/observeql/planner.go) and the query without its literals.
use observe_x.Prelude.{ℕ, ◌≡◌, refl, ap, ◌∙◌, false, Option, none, some, List, [], ◌∷◌, ◌++◌}
use observe_x.Prelude.Text.{Text, codes, text_eq}
use observe_x.ObserveQl.Ast.{OrExpr, Query}
use observe_x.ObserveQl.Render.{
  Param, text_param, Result, ok, err, panic, ◌>>=◌, ident_quote, render_or, unknown_source,
}
use observe_x.ObserveQl.Planner.{
  PlannerOptions, with_defaults, Source, source_of, render_select, render_where, since_of,
  render_group, Plan, plan_source, plan_query,
}
use observe_x.ObserveQl.Blank.{erase, blank_or, or_blank}

-- The text of a plan, or the error.
abbrev pub text_of : {N : Type 0} → Result (Plan N) → Result Text
text_of r = r >>= λ p. ok p.sql

module _ {N : Type 0} where
  unfoldable pub blank_where : Option (OrExpr N) → Option (OrExpr (Unit {0}))
  blank_where none = none
  blank_where (some e) = some (blank_or e)

  -- A query with every literal forgotten, and with no limit.
  unfoldable pub blank_query : Query N → Query (Unit {0})
  unfolding blank_where
  blank_query q = record {
    select = q.select;
    source = q.source;
    where_expr = blank_where q.where_expr;
    group_by = q.group_by;
    since = q.since;
    limit = none;
  }

  same->>= :
      {A : Type 0} (r : Result A) (f : A → Result (Plan N)) (f' : A → Result (Plan (Unit {0})))
      → ((a : A) → text_of (f a) ≡ text_of (f' a))
      → text_of (r >>= f) ≡ text_of (r >>= f')
  same->>= (ok a) f f' h = h a
  same->>= (err _) f f' h = refl
  same->>= panic f f' h = refl

  since_same :
      (parse : Text → Option ℕ) (d d' : ℕ) (s : Option Text) (f : ℕ → Result (Plan N))
      (f' : ℕ → Result (Plan (Unit {0})))
      → ((n n' : ℕ) → text_of (f n) ≡ text_of (f' n'))
      → text_of (since_of parse d s >>= f) ≡ text_of (since_of parse d' s >>= f')
  unfolding since_of
  since_same parse d d' none f f' h = h d d'
  since_same parse d d' (some t) f f' h = same->>= (since_of parse d (some t)) f f' (λ n. h n n)

  module _ (f : List Text × List (Param N) → Result (Plan N))
      (f' : List Text × List (Param (Unit {0})) → Result (Plan (Unit {0})))
      (h : (parts : List Text) (ps : List (Param N)) (ps' : List (Param (Unit {0})))
        → text_of (f (parts, ps)) ≡ text_of (f' (parts, ps'))) where
    in_group :
        (r : Result (Text × List (Param N))) (r' : Result (Text × List (Param (Unit {0}))))
        → erase r ≡ erase r'
        → text_of ((r >>= λ s. ok ((b'(' ∷ s.0 ++ codes ")") ∷ [], s.1)) >>= f)
          ≡ text_of ((r' >>= λ s. ok ((b'(' ∷ s.0 ++ codes ")") ∷ [], s.1)) >>= f')
    in_group (ok (s, ps)) (ok (s', ps')) e =
        h ((b'(' ∷ s ++ codes ")") ∷ []) ps ps'
        ∙ ap (λ t. text_of (f' ((b'(' ∷ t ++ codes ")") ∷ [], ps'))) cc
    in_group (ok x) (err _) e = cc
    in_group (ok x) panic e = cc
    in_group (err _) (ok x) e = cc
    in_group (err _) (err _) e = cc
    in_group (err _) panic e = cc
    in_group panic (ok x) e = cc
    in_group panic (err _) e = cc
    in_group panic panic e = refl

    where_same :
        (allowed : List Text) (w : Option (OrExpr N)) (ps : List (Param N))
        (ps' : List (Param (Unit {0})))
        → text_of (render_where allowed w ps >>= f)
          ≡ text_of (render_where allowed (blank_where w) ps' >>= f')
    unfolding render_where blank_where
    where_same allowed none ps ps' = h [] ps ps'
    where_same allowed (some e) ps ps' =
        in_group (render_or allowed e ps) (render_or allowed (blank_or e) ps')
          (or_blank allowed e ps ps')

  module _ (parse : Text → Option ℕ) (now now' : ℕ) where
    source_same :
        (q : Query N) (o o' : PlannerOptions) (src : Source)
        → text_of (plan_source parse now q o src)
          ≡ text_of (plan_source parse now' (blank_query q) o' src)
    unfolding plan_source blank_query
    source_same q o o' src = same->>= (render_select src.allowed q.select) _ _ (λ selects.
        where_same _ _
          (λ parts ps ps'. since_same parse o.default_since o'.default_since q.since _ _ (λ n n'.
            same->>= (ident_quote src.time_column) _ _ (λ time_col.
              same->>= (render_group src.allowed q.group_by) _ _
                (λ cols. same->>= (ident_quote src.table) _ _ (λ table. refl)))))
          src.allowed q.where_expr (text_param o.tenant_id ∷ []) (text_param o'.tenant_id ∷ []))

    -- The SQL text, or the error, of a query is the one of the query in which every literal is replaced by
    -- the same blank, whatever the clock, the limits and the tenants are, provided that neither tenant is
    -- empty: no literal, limit or tenant reaches the text.
    pub plan_query_blank :
        (q : Query N) (opts opts' : PlannerOptions)
        → text_eq opts.tenant_id [] ≡ false
        → text_eq opts'.tenant_id [] ≡ false
        → text_of (plan_query parse now q opts)
          ≡ text_of (plan_query parse now' (blank_query q) opts')
    unfolding plan_query blank_query
    plan_query_blank q opts opts' t t' = rw (t, t') (on_source (source_of q.source))
      where
        on_source :
            (s : Option Source)
            → text_of (elim s [
              | none ↦ err (unknown_source q.source)
              | some src ↦ plan_source parse now q (with_defaults opts) src
            ])
              ≡ text_of (elim s [
                | none ↦ err (unknown_source q.source)
                | some src ↦ plan_source parse now' (blank_query q) (with_defaults opts') src
              ])
        on_source none = refl
        on_source (some src) = source_same q (with_defaults opts) (with_defaults opts') src
