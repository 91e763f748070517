-- ===== src/ObserveQl/Binding.antt =====
-- PlanQuery of pkg/observeql/planner.go: what its SQL text binds.
use observe_x.Prelude.Marks.{join-marks, marks, total, total-append}
use observe_x.Prelude.{
  ℕ, suc, ◌≤◌, ◌≡◌, refl, sym, ap, true, Option, none, some, List, [], ◌∷◌, ◌++◌, append_assoc,
  append-nil, length, length-append, arith, Bool-cases, Option-cases, inl, inr,
}
use observe_x.Prelude.Text.{Text, codes, text_eq, count, count-append, join}
use observe_x.ObserveQl.Ast.{OrExpr, Query}
use observe_x.ObserveQl.Render.{
  Param, text_param, time_param, int_param, Result, ok, err, panic, ◌>>=◌, ident_re, ident_quote,
  render_or, unknown_source,
}
use observe_x.ObserveQl.Planner.{
  PlannerOptions, with_defaults, Source, source_of, render_select, render_where, since_of,
  render_group, clamp_limit, Plan, group_clause, stitch, plan_source, plan_query,
}
use observe_x.ObserveQl.Placeholders.{Always, Always->>=, AllIdents, or_literals, Binds}
use observe_x.ObserveQl.Expressions.{render_or-Binds}
use observe_x.ObserveQl.Clauses.{quoted-IsClean, select-AreClean, group-AreClean}

clamp_limit_bounded : (max' : ℕ) (limit : Option ℕ) → clamp_limit max' limit ≤ max'
unfolding clamp_limit
clamp_limit_bounded max' none = omega arith
clamp_limit_bounded max' (some n) = ground arith

-- A source's columns, its table and its time column are identifiers.
abbrev IsSafe : Source → Type 0
IsSafe src = AllIdents src.allowed × (ident_re src.table ≡ true) × (ident_re src.time_column ≡ true)

abbrev IsSafeOption : Option Source → Type 0
IsSafeOption none = Unit {0}
IsSafeOption (some src) = IsSafe src

source_of-IsSafe : (s : Text) → IsSafeOption (source_of s)
unfolding source_of ident_re
source_of-IsSafe s = elim (Bool-cases (text_eq s (codes "metrics"))) [
  | inl m ↦ rw m ((refl, (refl, (refl, (refl, (refl, (refl, tt)))))), refl, refl)
  | inr m ↦ elim (Bool-cases (text_eq s (codes "logs"))) [
    | inl l ↦
        rw (m, l) ((refl, (refl, (refl, (refl, (refl, (refl, (refl, (refl, tt)))))))), refl, refl)
    | inr l ↦ elim (Bool-cases (text_eq s (codes "traces"))) [
      | inl t ↦
          rw (m, l, t)
            (
              (
                refl,
                (refl, (refl, (refl, (refl, (refl, (refl, (refl, (refl, (refl, (refl, tt)))))))))),
              ),
              refl,
              refl,
            )
      | inr t ↦ rw (m, l, t) tt
    ]
  ]
]

group_clause-marks : (cs : List Text) → total cs ≡ 0 → marks (group_clause cs) ≡ 0
unfolding count
group_clause-marks [] h = refl
group_clause-marks (c ∷ cs) h = omega (arith, h, join-marks (codes ", ") (c ∷ cs) refl)

stitch-marks :
    (selects : List Text) (table : Text) (wheres cols : List Text) (time_col : Text)
    → total selects ≡ 0
    → marks table ≡ 0
    → total cols ≡ 0
    → marks time_col ≡ 0
    → marks (stitch selects table wheres cols time_col) ≡ suc (total wheres)
unfolding stitch count
stitch-marks selects table wheres cols time_col s t g c = omega (
  arith,
  t,
  c,
  s,
  join-marks (codes ", ") selects refl,
  join-marks (codes " AND ") wheres refl,
  group_clause-marks cols g,
  join-marks []
      (codes "SELECT "
        ∷ join (codes ", ") selects
        ∷ codes " FROM "
        ∷ table
        ∷ codes " WHERE "
        ∷ join (codes " AND ") wheres
        ∷ group_clause cols
        ∷ codes " ORDER BY "
        ∷ time_col
        ∷ codes " DESC LIMIT ?"
        ∷ [])
      refl,
)

since_of-ok :
    (parse : Text → Option ℕ) (d : ℕ) (s : Option Text)
    → Always (λ n. since_of parse d s ≡ ok n) (since_of parse d s)
unfolding since_of
since_of-ok parse d none = refl
since_of-ok parse d (some t) = elim (Option-cases (parse t)) [
  | inl e ↦ rw (Always, since_of, e) tt
  | inr (n, e) ↦ rw (Always, since_of, e) (rw (since_of, e) refl)
]

module _ {N : Type 0} where
  -- The literals of the WHERE clause.
  unfoldable pub where_literals : Option (OrExpr N) → List (Param N)
  where_literals none = []
  where_literals (some e) = or_literals e

  where_binds :
      (allowed : List Text)
      → AllIdents allowed
      → (w : Option (OrExpr N)) (params : List (Param N))
      → Always {A = List Text × List (Param N)}
          (λ r. (total r.0 ≡ length (where_literals w)) × (r.1 ≡ params ++ where_literals w))
          (render_where allowed w params)
  unfolding render_where where_literals count
  where_binds allowed idents none params = (refl, sym (append-nil params))
  where_binds allowed idents (some e) params =
      in_group (render_or allowed e params) (render_or-Binds allowed idents e params)
    where
      in_group :
          (r : Result (Text × List (Param N)))
          → Binds 0 params (or_literals e) r
          → Always {A = List Text × List (Param N)}
              (λ r. (total r.0 ≡ length (or_literals e)) × (r.1 ≡ params ++ or_literals e))
              (r >>= λ r. ok ((b'(' ∷ r.0 ++ codes ")") ∷ [], r.1))
      in_group (ok (sql, ps)) (e', m) = (omega (arith, m, count-append b'?' sql (codes ")")), e')
      in_group (err _) b = tt
      in_group panic b = b

  module _ (parse : Text → Option ℕ) (now : ℕ) where
    -- The parameters of a plan: the tenant, the literals, the time that it starts from and the limit.
    abbrev pub IsBound : Query N → PlannerOptions → Plan N → Type 0
    IsBound q o p =
        (marks p.sql ≡ length p.params)
        × (since : ℕ) × (since_of parse o.default_since q.since ≡ ok since)
        × (p.params
            ≡ text_param o.tenant_id ∷ where_literals q.where_expr
              ++ (time_param now since ∷ int_param p.limit ∷ []))
        × (p.limit ≤ o.max_row_limit)

    plan_source_binds :
        (q : Query N) (o : PlannerOptions) (src : Source)
        → IsSafe src
        → Always (IsBound q o) (plan_source parse now q o src)
    unfolding plan_source count
    plan_source_binds q o src safe =
        Always->>= _ (render_select src.allowed q.select) _
          (select-AreClean src.allowed safe.0 q.select)
          (λ selects s.
            Always->>= _ (render_where src.allowed q.where_expr (text_param o.tenant_id ∷ [])) _
              (where_binds src.allowed safe.0 q.where_expr (text_param o.tenant_id ∷ []))
              (λ filter' w.
                Always->>= _ (since_of parse o.default_since q.since) _
                  (since_of-ok parse o.default_since q.since)
                  (λ since n.
                    Always->>= _ (ident_quote src.time_column) _
                      (quoted-IsClean src.time_column safe.2)
                      (λ time_col c.
                        Always->>= _ (render_group src.allowed q.group_by) _
                          (group-AreClean src.allowed safe.0 q.group_by)
                          (λ cols g.
                            Always->>= _ (ident_quote src.table) _ (quoted-IsClean src.table safe.1)
                              (λ table t.
                                bound selects filter' since time_col cols table s w n c g t))))))
      where
        bound :
            (selects : List Text) (filter' : List Text × List (Param N)) (since : ℕ)
            (time_col : Text) (cols : List Text) (table : Text)
            → total selects ≡ 0
            → (total filter'.0 ≡ length (where_literals q.where_expr))
              × (filter'.1 ≡ (text_param o.tenant_id ∷ []) ++ where_literals q.where_expr)
            → since_of parse o.default_since q.since ≡ ok since
            → marks time_col ≡ 0
            → total cols ≡ 0
            → marks table ≡ 0
            → IsBound q o (record {
              sql =
                  stitch selects table
                    (codes "tenant_id = ?" ∷ filter'.0 ++ (time_col ++ codes " >= ?") ∷ [])
                    cols
                    time_col;
              params =
                  filter'.1
                  ++ (time_param now since ∷ int_param (clamp_limit o.max_row_limit q.limit) ∷ []);
              source = q.source;
              group_by = cols;
              limit = clamp_limit o.max_row_limit q.limit;
            })
        bound selects filter' since time_col cols table s w n c g t = (
          omega (
            arith,
            stitch-marks selects table
                (codes "tenant_id = ?" ∷ filter'.0 ++ (time_col ++ codes " >= ?") ∷ []) cols
                time_col s t g c,
            total-append filter'.0 ((time_col ++ codes " >= ?") ∷ []),
            count-append b'?' time_col (codes " >= ?"),
            length-append filter'.1
                (time_param now since ∷ int_param (clamp_limit o.max_row_limit q.limit) ∷ []),
            w.0,
            ap length w.1,
            c,
          ),
          since,
          n,
          rw (w.1) (append_assoc (text_param o.tenant_id ∷ []) (where_literals q.where_expr) _),
          clamp_limit_bounded o.max_row_limit q.limit,
        )

    -- Planning never panics, whatever the query. A plan that it returns has as many placeholders in its
    -- text as parameters, which are the tenant, the literals of WHERE in their order, the time that the
    -- query starts from, which is the one it asks for or the default, and the limit, which is at most the
    -- maximal one.
    pub plan_query_binds :
        (q : Query N) (opts : PlannerOptions)
        → Always (IsBound q (with_defaults opts)) (plan_query parse now q opts)
    unfolding plan_query
    plan_query_binds q opts = elim (Bool-cases (text_eq opts.tenant_id [])) [
      | inl t ↦ rw t tt
      | inr t ↦ rw t (on_source (source_of q.source) (source_of-IsSafe q.source))
    ]
      where
        on_source :
            (s : Option Source)
            → IsSafeOption s
            → Always (IsBound q (with_defaults opts)) (elim s [
              | none ↦ err (unknown_source q.source)
              | some src ↦ plan_source parse now q (with_defaults opts) src
            ])
        on_source none h = tt
        on_source (some src) h = plan_source_binds q (with_defaults opts) src h
