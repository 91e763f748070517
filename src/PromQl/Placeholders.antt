-- ===== src/PromQl/Placeholders.antt =====
-- The lowering of pkg/promql/translate.go binds one argument to each placeholder of its SQL, and is no
-- loop that needs fuel.
use observe_x.Prelude.{
  Bool, true, false, Option, none, some, List, [], ◌∷◌, ◌++◌, length, length-append, ◌≡◌, ◌≢◌, ◌∙◌,
  refl, arith,
}
use observe_x.Prelude.Text.{Text, codes, text_eq, text_eq-eq, is_member, count, count-append}
use observe_x.Prelude.Marks.{marks, total, total-append}
use observe_x.PromQl.Run.{
  out_of_fuel, Ensures, returns, fails, Ensures->>=, Ensures-intro, Ensures-elim, Ensures-option,
}
use observe_x.PromQl.Ast.{
  Matcher, VectorSelector, Node, Nodes, vector_selector, range_selector, call_expr, aggr_expr,
  num_lit, bin_expr, no_nodes, more_nodes, Floats,
}
use observe_x.PromQl.Sql.{
  QueryParams, Arg, time_arg, Translation, rate_sql, over_time_op, step_seconds, arith_ops, cmp_ops,
  scalar_text, sql_op,
}
use observe_x.PromQl.Translate.{
  extract_selector, extract_single, single_range, scalar_range, as_number, matcher_clauses,
  selector_clauses, lower_aggr, lower_call, wrap, lower,
}
use observe_x.PromQl.Binding.{
  aggr_text-marks, rate_text-marks, agg_sql-fueled, agg_sql-marks, rate_sql-marks,
  matcher_sql-fueled, matcher_sql-marks,
}

-- Clauses with one placeholder for each argument.
abbrev pub AreBound : List Text × List Arg → Type 0
AreBound c = total c.0 ≡ length c.1

-- A translation with one placeholder for each argument.
abbrev pub IsBound : Translation → Type 0
IsBound t = marks t.sql ≡ length t.args

member-marks : (s : Text) (ss : List Text) → is_member s ss ≡ true → total ss ≡ 0 → marks s ≡ 0
unfolding is_member
member-marks s [] h e = cc
member-marks s (t ∷ ts) h e = grind (arith, text_eq-eq s t, member-marks s ts)

module _ (compiles : Text → Bool) where
  matcher_clauses-AreBound : (ms : List Matcher) → Ensures AreBound (matcher_clauses compiles ms)
  unfolding matcher_clauses
  matcher_clauses-AreBound [] = returns refl
  matcher_clauses-AreBound (m ∷ ms) =
      Ensures->>= (Ensures-intro (matcher_sql-fueled compiles m) (matcher_sql-marks compiles m))
        (λ s one.
          Ensures->>= (matcher_clauses-AreBound ms)
            (λ rest bound. returns (omega (arith, one, bound))))

  selector_clauses-AreBound :
      (vs : VectorSelector) (p : QueryParams) → Ensures AreBound (selector_clauses compiles vs p)
  unfolding selector_clauses count
  selector_clauses-AreBound vs p = Ensures->>= (matcher_clauses-AreBound vs.matches) (λ ms bound.
      returns (
        omega (
          arith,
          bound,
          total-append ms.0 (codes "timestamp BETWEEN ? AND ?" ∷ []),
          length-append ms.1 (time_arg p.start ∷ time_arg p.end_at ∷ []),
        )))

  module _ {F : Type 0} (floats : Floats F) where
    -- No number is written with a question mark.
    abbrev pub IsPlain : Type 0
    IsPlain = (x : F) → marks (floats.format_float x) ≡ 0

    abbrev pub IsBoundIfPlain : Translation → Type 0
    IsBoundIfPlain t = IsPlain → IsBound t

    mutual
      unfolding extract_selector extract_single

      extract_selector-fueled : (n : Node F) → extract_selector n ≢ out_of_fuel
      extract_selector-fueled (vector_selector vs) = cc
      extract_selector-fueled (range_selector r) = cc
      extract_selector-fueled (call_expr name args) = extract_single-fueled args
      extract_selector-fueled (aggr_expr op arg by without phi) = cc
      extract_selector-fueled (num_lit v) = cc
      extract_selector-fueled (bin_expr op l r) = cc

      extract_single-fueled : (ns : Nodes F) → extract_single ns ≢ out_of_fuel
      extract_single-fueled no_nodes = cc
      extract_single-fueled (more_nodes n no_nodes) = extract_selector-fueled n
      extract_single-fueled (more_nodes n (more_nodes _ _)) = cc

    phi_text-marks :
        IsPlain
        → (phi : Option F) (x : Text)
        → elim phi [ none ↦ none | some y ↦ some (floats.format_float y) ] ≡ some x
        → marks x ≡ 0
    phi_text-marks plain none x e = cc
    phi_text-marks plain (some y) x e = ground (arith, plain y)

    lower_aggr-IsBound :
        (op : Text) (arg : Node F) (by : List Text) (phi : Option F) (p : QueryParams)
        → Ensures IsBoundIfPlain (lower_aggr compiles floats op arg by phi p)
    unfolding lower_aggr
    lower_aggr-IsBound op arg by phi p =
        Ensures->>= (Ensures-intro (extract_selector-fueled arg) (λ vs e. e)) (λ vs _.
          Ensures->>= (selector_clauses-AreBound vs p) (λ c bound.
            Ensures->>= {P = λ s. IsPlain → marks s ≡ 0}
              (Ensures-intro (agg_sql-fueled op _)
                (λ s e plain. agg_sql-marks op _ (phi_text-marks plain phi) s e))
              (λ agg unmarked. returns (λ plain.
                aggr_text-marks agg by c.0 (step_seconds p.step) (unmarked plain) ∙ bound))))

    single_range-fueled : (args : Nodes F) → single_range args ≢ out_of_fuel
    unfolding single_range
    single_range-fueled no_nodes = cc
    single_range-fueled (more_nodes (range_selector r) no_nodes) = cc
    single_range-fueled (more_nodes n rest) = cc

    scalar_range-fueled : (args : Nodes F) → scalar_range args ≢ out_of_fuel
    unfolding scalar_range
    scalar_range-fueled no_nodes = cc
    scalar_range-fueled (more_nodes (num_lit v) (more_nodes (range_selector r) no_nodes)) = cc
    scalar_range-fueled (more_nodes n rest) = cc

    lower_call-IsBound :
        (name : Text) (args : Nodes F) (p : QueryParams)
        → Ensures IsBoundIfPlain (lower_call compiles floats name args p)
    unfolding lower_call
    lower_call-IsBound name args p =
        Ensures-option (rate_sql name (step_seconds p.step))
          (λ _.
            Ensures-option (over_time_op name)
              (λ _.
                Ensures-elim (text_eq name (codes "quantile_over_time"))
                  (λ _. Ensures->>= (Ensures-intro (scalar_range-fueled args) (λ a e. e)) (λ a _.
                    lower_aggr-IsBound (codes "quantile") (vector_selector a.1.v) [] (some a.0) p))
                  (λ _. fails))
              (λ op _.
                Ensures->>= (Ensures-intro (single_range-fueled args) (λ r e. e))
                  (λ r _. lower_aggr-IsBound op (vector_selector r.v) [] none p)))
          (λ expr e. Ensures->>= (Ensures-intro (single_range-fueled args) (λ r h. h)) (λ r _.
            Ensures->>= (selector_clauses-AreBound r.v p) (λ c bound. returns (λ _.
              rate_text-marks expr c.0 (step_seconds p.step) (rate_sql-marks name _ expr e)
              ∙ bound))))

    scalar_text-marks :
        (op x : Text) (swapped : Bool)
        → marks op ≡ 0
        → marks x ≡ 0
        → marks (scalar_text op x swapped) ≡ 0
    unfolding count
    scalar_text-marks op x true h h' = omega (
      arith,
      h,
      h',
      count-append b'?' x (b' ' ∷ op ++ codes " v"),
      count-append b'?' op (codes " v"),
    )
    scalar_text-marks op x false h h' = omega (arith, h, h', count-append b'?' op (b' ' ∷ x))

    sql_op-marks : (op : Text) → marks op ≡ 0 → marks (sql_op op) ≡ 0
    unfolding count text_eq
    sql_op-marks op h = ground (arith, h)

    wrap-IsBound :
        (op : Text) (x : F) (swapped : Bool) (inner : Translation)
        → IsBoundIfPlain inner
        → Ensures IsBoundIfPlain (wrap compiles floats op x swapped inner)
    unfolding wrap count
    wrap-IsBound op x swapped inner bound =
        let fx = floats.format_float x in
        let lit = scalar_text op fx swapped in
        let cmp = scalar_text (sql_op op) fx swapped in
        Ensures-elim (is_member op (arith_ops))
          (λ m. returns (λ plain. omega (
            arith,
            bound plain,
            scalar_text-marks op fx swapped (member-marks op (arith_ops) m refl) (plain x),
            count-append b'?' lit (codes ") AS v FROM (" ++ (inner.sql ++ codes ")")),
            count-append b'?' inner.sql (codes ")"),
          )))
          (λ _.
            Ensures-elim (is_member op (cmp_ops))
              (λ m. returns (λ plain. omega (
                arith,
                bound plain,
                scalar_text-marks (sql_op op) fx swapped
                    (sql_op-marks op (member-marks op (cmp_ops) m refl)) (plain x),
                count-append b'?' inner.sql (codes ") WHERE " ++ cmp),
              )))
              (λ _. fails))

    pub lower-IsBound :
        (n : Node F) (p : QueryParams) → Ensures IsBoundIfPlain (lower compiles floats n p)
    unfolding lower
    lower-IsBound (vector_selector vs) p =
        lower_aggr-IsBound (codes "avg") (vector_selector vs) [] none p
    lower-IsBound (range_selector r) p =
        lower_aggr-IsBound (codes "avg") (vector_selector r.v) [] none p
    lower-IsBound (call_expr name args) p = lower_call-IsBound name args p
    lower-IsBound (aggr_expr op arg by without phi) p = lower_aggr-IsBound op arg by phi p
    lower-IsBound (num_lit v) p = fails
    lower-IsBound (bin_expr op left right) p =
        Ensures-option (as_number right)
          (λ _.
            Ensures-option (as_number left) (λ _. fails)
              (λ x _.
                Ensures->>= (lower-IsBound right p)
                  (λ inner bound. wrap-IsBound op x true inner bound)))
          (λ x _.
            Ensures->>= (lower-IsBound left p) (λ inner bound. wrap-IsBound op x false inner bound))
