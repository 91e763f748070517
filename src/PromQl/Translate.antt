-- ===== src/PromQl/Translate.antt =====
-- pkg/promql/translate.go, and Translate of pkg/promql/promql.go. Which texts regexp.Compile accepts, and
-- the float64 operations, are arguments.
use observe_x.Prelude.{ℕ, Bool, true, false, Option, none, some, List, [], ◌∷◌, ◌++◌, if◌then◌else◌}
use observe_x.Prelude.Text.{Text, codes, text_eq, is_member}
use observe_x.PromQl.Run.{
  empty_query, bad_arguments, bad_regex, unsupported, Result, ok, err, ◌>>=◌,
}
use observe_x.PromQl.Ast.{
  match_eq, match_neq, match_regex, match_not_regex, Matcher, VectorSelector, RangeSelector, Node,
  Nodes, vector_selector, range_selector, call_expr, aggr_expr, num_lit, bin_expr, no_nodes,
  more_nodes, Floats,
}
use observe_x.PromQl.Lexer.{tokenize}
use observe_x.PromQl.Parser.{parse}
use observe_x.PromQl.Sql.{
  Arg, QueryParams, Translation, agg_sql, aggr_text, arith_ops, attribute_of, cmp_ops,
  label_selects, over_time_op, rate_sql, rate_text, scalar_text, sql_escape, sql_op, step_seconds,
  text_arg, time_arg, with_defaults,
}

module _ {F : Type 0} where
  unfoldable pub as_number : Node F → Option F
  as_number (num_lit v) = some v
  as_number _ = none

  -- extractSelector; a call has a selector if it has one argument that has.
  unfoldable mutual
    pub extract_selector : Node F → Result VectorSelector
    extract_selector (vector_selector vs) = ok vs
    extract_selector (range_selector r) = ok r.v
    extract_selector (call_expr name args) = extract_single args
    extract_selector _ = err unsupported

    pub extract_single : Nodes F → Result VectorSelector
    extract_single no_nodes = err unsupported
    extract_single (more_nodes n rest) = elim rest [
      | no_nodes ↦ extract_selector n
      | more_nodes _ _ ↦ err unsupported
    ]

  -- The range of a call with one argument.
  unfoldable pub single_range : Nodes F → Result (RangeSelector F)
  single_range (more_nodes (range_selector r) no_nodes) = ok r
  single_range _ = err bad_arguments

  -- The scalar and the range of a call with two arguments.
  unfoldable pub scalar_range : Nodes F → Result (F × RangeSelector F)
  scalar_range (more_nodes (num_lit v) (more_nodes (range_selector r) no_nodes)) = ok (v, r)
  scalar_range _ = err bad_arguments

module _ (compiles : Text → Bool) where
  -- matcherSQL: the clause; the value that it binds is the matcher's.
  unfoldable pub matcher_sql : Matcher → Result Text
  unfolding sql_escape
  matcher_sql m = elim m.op [
    | match_eq ↦ ok (attribute_of m.name ++ codes " = ?")
    | match_neq ↦ ok (attribute_of m.name ++ codes " != ?")
    | match_regex ↦
        if compiles m.val
        then ok (codes "match(" ++ (attribute_of m.name ++ codes ", ?)"))
        else err bad_regex
    | match_not_regex ↦
        if compiles m.val
        then ok (codes "NOT match(" ++ (attribute_of m.name ++ codes ", ?)"))
        else err bad_regex
  ]

  -- The loop over the matchers, in lowerAggr and in lowerCall.
  unfoldable pub matcher_clauses : List Matcher → Result (List Text × List Arg)
  unfolding matcher_sql
  matcher_clauses [] = ok ([], [])
  matcher_clauses (m ∷ ms) = matcher_sql m >>= λ clause.
      matcher_clauses ms >>= λ rest. ok (clause ∷ rest.0, text_arg m.val ∷ rest.1)

  -- The WHERE clauses and the arguments of a selector.
  unfoldable pub selector_clauses : VectorSelector → QueryParams → Result (List Text × List Arg)
  unfolding matcher_clauses
  selector_clauses vs p = matcher_clauses vs.matches >>= λ ms. ok (
    codes "metric_name = ?" ∷ ms.0 ++ codes "timestamp BETWEEN ? AND ?" ∷ [],
    text_arg vs.metric ∷ ms.1 ++ (time_arg p.start ∷ time_arg p.end_at ∷ []),
  )

  module _ {F : Type 0} (floats : Floats F) where
    -- lowerAggr; `without` is not read.
    unfoldable pub lower_aggr :
        Text → Node F → List Text → Option F → QueryParams → Result Translation
    unfolding extract_selector selector_clauses agg_sql label_selects step_seconds
    lower_aggr op arg by phi p = extract_selector arg >>= λ vs. selector_clauses vs p >>= λ c.
        agg_sql op (elim phi [ none ↦ none | some x ↦ some (floats.format_float x) ]) >>= λ agg.
        ok (record { sql = aggr_text agg by c.0 (step_seconds p.step); args = c.1; labels = by })

    -- lowerCall.
    unfoldable pub lower_call : Text → Nodes F → QueryParams → Result Translation
    unfolding lower_aggr rate_sql over_time_op single_range scalar_range selector_clauses text_eq
        step_seconds
    lower_call name args p = elim (rate_sql name (step_seconds p.step)) [
      | some expr ↦ single_range args >>= λ r. selector_clauses r.v p >>= λ c.
          ok (record { sql = rate_text expr c.0 (step_seconds p.step); args = c.1; labels = [] })
      | none ↦ elim (over_time_op name) [
        | some op ↦ single_range args >>= λ r. lower_aggr op (vector_selector r.v) [] none p
        | none ↦ elim (text_eq name (codes "quantile_over_time")) [
          | true ↦ scalar_range args >>= λ a.
              lower_aggr (codes "quantile") (vector_selector a.1.v) [] (some a.0) p
          | false ↦ err unsupported
        ]
      ]
    ]

    -- lowerBin, on the translation of the side that is no number.
    unfoldable pub wrap : Text → F → Bool → Translation → Result Translation
    unfolding is_member text_eq
    wrap op scalar swapped inner = elim (is_member op arith_ops) [
      | true ↦ ok (record inner {
        sql =
            codes "SELECT t, ("
            ++ (scalar_text op (floats.format_float scalar) swapped
                ++ (codes ") AS v FROM (" ++ (inner.sql ++ codes ")")));
      })
      | false ↦ elim (is_member op cmp_ops) [
        | true ↦ ok (record inner {
          sql =
              codes "SELECT t, v FROM ("
              ++ (inner.sql
                  ++ (codes ") WHERE "
                      ++ scalar_text (sql_op op) (floats.format_float scalar) swapped));
        })
        | false ↦ err unsupported
      ]
    ]

    -- lower and lowerBin.
    unfoldable pub lower : Node F → QueryParams → Result Translation
    unfolding lower_aggr lower_call wrap as_number
    lower (vector_selector vs) p = lower_aggr (codes "avg") (vector_selector vs) [] none p
    lower (range_selector r) p = lower_aggr (codes "avg") (vector_selector r.v) [] none p
    lower (call_expr name args) p = lower_call name args p
    lower (aggr_expr op arg by without phi) p = lower_aggr op arg by phi p
    lower (num_lit v) p = err unsupported
    lower (bin_expr op left right) p = elim (as_number right) [
      | some x ↦ lower left p >>= λ inner. wrap op x false inner
      | none ↦ elim (as_number left) [
        | some x ↦ lower right p >>= λ inner. wrap op x true inner
        | none ↦ err unsupported
      ]
    ]

    -- Translate.
    unfoldable pub translate : ℕ → QueryParams → Result Translation
    unfolding text_eq with_defaults tokenize parse lower
    translate now p = elim (text_eq p.query []) [
      | true ↦ err empty_query
      | false ↦
          tokenize p.query >>= λ toks. parse floats toks >>= λ ast. lower ast (with_defaults now p)
    ]
