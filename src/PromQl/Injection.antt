-- ===== src/PromQl/Injection.antt =====
-- What the SQL of pkg/promql/translate.go does not depend on: the values of a query.
use mathlib.Core.Path.{subst}
use observe_x.Prelude.{Bool, true, false, Option, none, some, List, [], ◌≡◌, ap, refl}
use observe_x.Prelude.Text.{Text, codes, text_eq, is_member}
use observe_x.PromQl.Run.{ok}
use observe_x.PromQl.Follows.{
  Follows, both, failed, Follows->>=, Follows-refl, Follows-value, Follows-elim, Follows-option,
}
use observe_x.PromQl.Ast.{
  RangeSelector, Node, Nodes, vector_selector, range_selector, call_expr, aggr_expr, num_lit,
  bin_expr, no_nodes, more_nodes, Floats,
}
use observe_x.PromQl.Sql.{
  QueryParams, Translation, agg_sql, rate_sql, over_time_op, step_seconds, arith_ops, cmp_ops,
}
use observe_x.PromQl.Translate.{
  extract_selector, extract_single, single_range, scalar_range, as_number, lower_aggr, lower_call,
  wrap, lower,
}
use observe_x.PromQl.Blank.{
  any_text, blank_selector, blank_range, blank, blank_all, blank_times, same_selector,
}

abbrev SameSql : Translation → Translation → Type 0
SameSql t t' = (t.sql ≡ t'.sql) × (t.labels ≡ t'.labels)

module _ {F : Type 0} where
  mutual
    unfolding extract_selector extract_single blank blank_all blank_range

    extract_selector-blank :
        (n : Node F)
        → Follows
            (λ vs vs'. blank_selector vs ≡ vs')
            (extract_selector n)
            (extract_selector (blank n))
    extract_selector-blank (vector_selector vs) = both refl
    extract_selector-blank (range_selector r) = both refl
    extract_selector-blank (call_expr name args) = extract_single-blank args
    extract_selector-blank (aggr_expr op arg by without phi) = failed
    extract_selector-blank (num_lit v) = failed
    extract_selector-blank (bin_expr op l r) = failed

    extract_single-blank :
        (ns : Nodes F)
        → Follows
            (λ vs vs'. blank_selector vs ≡ vs')
            (extract_single ns)
            (extract_single (blank_all ns))
    extract_single-blank no_nodes = failed
    extract_single-blank (more_nodes n no_nodes) = extract_selector-blank n
    extract_single-blank (more_nodes n (more_nodes _ _)) = failed

  same_range : (r r' : RangeSelector F) → blank_range r ≡ r' → blank_selector r.v ≡ r'.v
  unfolding blank_range
  same_range r r' e = ap (λ q. q.v) e

  same_argument :
      (r r' : RangeSelector F)
      → blank_range r ≡ r'
      → blank {F = F} (vector_selector r.v) ≡ vector_selector r'.v
  unfolding blank
  same_argument r r' e = ap vector_selector (same_range r r' e)

  single_range-blank :
      (args : Nodes F)
      → Follows (λ r r'. blank_range r ≡ r') (single_range args) (single_range (blank_all args))
  unfolding single_range blank
  single_range-blank no_nodes = failed
  single_range-blank (more_nodes (range_selector r) no_nodes) = both refl
  single_range-blank (more_nodes n rest) = failed

  scalar_range-blank :
      (args : Nodes F)
      → Follows
          (λ a a'. (a.0 ≡ a'.0) × (blank_range a.1 ≡ a'.1))
          (scalar_range args)
          (scalar_range (blank_all args))
  unfolding scalar_range blank
  scalar_range-blank no_nodes = failed
  scalar_range-blank (more_nodes (num_lit v) (more_nodes (range_selector r) no_nodes)) =
      both (refl, refl)
  scalar_range-blank (more_nodes n rest) = failed

  as_number-blank : (n : Node F) → as_number n ≡ as_number (blank n)
  unfolding as_number blank
  as_number-blank (num_lit v) = refl
  as_number-blank _ = refl

  module _ (compiles : Text → Bool) (floats : Floats F) where
    lower_aggr-blank :
        (op : Text) (arg arg' : Node F) (by : List Text) (phi : Option F) (p : QueryParams)
        → blank arg ≡ arg'
        → Follows SameSql
            (lower_aggr compiles floats op arg by phi p)
            (lower_aggr any_text floats op arg' by phi (blank_times p))
    unfolding lower_aggr
    lower_aggr-blank op arg arg' by phi p same =
        Follows->>=
          (subst
            (λ a.
              Follows (λ vs vs'. blank_selector vs ≡ vs') (extract_selector arg)
                (extract_selector a))
            same (extract_selector-blank arg))
          (λ vs vs' e. Follows->>= (same_selector compiles vs vs' p e) (λ c c' e'.
            Follows->>= (Follows-refl (agg_sql op _)) (λ agg agg' e''. both (cc (e', e''), refl))))

    lower_call-blank :
        (name : Text) (args : Nodes F) (p : QueryParams)
        → Follows SameSql
            (lower_call compiles floats name args p)
            (lower_call any_text floats name (blank_all args) (blank_times p))
    unfolding lower_call
    lower_call-blank name args p =
        Follows-option (rate_sql name (step_seconds p.step)) _ refl
          (Follows-option (over_time_op name) _ refl
            (Follows-elim (text_eq name (codes "quantile_over_time"))
              (Follows->>= (scalar_range-blank args) (λ a a' e.
                subst
                  (λ x.
                    Follows SameSql
                      (lower_aggr compiles floats (codes "quantile") (vector_selector a.1.v) []
                        (some a.0) p)
                      (lower_aggr any_text floats (codes "quantile") (vector_selector a'.1.v) []
                        (some x) (blank_times p)))
                  e.0
                  (lower_aggr-blank (codes "quantile") (vector_selector a.1.v) _ [] (some a.0) p
                    (same_argument a.1 a'.1 e.1))))
              failed)
            (λ op. Follows->>= (single_range-blank args) (λ r r' e.
              lower_aggr-blank op (vector_selector r.v) (vector_selector r'.v) [] none p
                (same_argument r r' e))))
          (λ expr. Follows->>= (single_range-blank args) (λ r r' e.
            Follows->>= (same_selector compiles r.v r'.v p (same_range r r' e))
              (λ c c' e'. both (cc e', refl))))

    wrap-blank :
        (op : Text) (x : F) (swapped : Bool) (inner inner' : Translation)
        → SameSql inner inner'
        → Follows SameSql
            (wrap compiles floats op x swapped inner)
            (wrap any_text floats op x swapped inner')
    unfolding wrap
    wrap-blank op x swapped inner inner' same =
        Follows-elim (is_member op arith_ops) (both (cc same.0, same.1))
          (Follows-elim (is_member op cmp_ops) (both (cc same.0, same.1)) failed)

    lower-blank :
        (n : Node F) (p : QueryParams)
        → Follows SameSql
            (lower compiles floats n p)
            (lower any_text floats (blank n) (blank_times p))
    unfolding lower blank
    lower-blank (vector_selector vs) p =
        lower_aggr-blank (codes "avg") (vector_selector vs) _ [] none p refl
    lower-blank (range_selector r) p =
        lower_aggr-blank (codes "avg") (vector_selector r.v) _ [] none p refl
    lower-blank (call_expr name args) p = lower_call-blank name args p
    lower-blank (aggr_expr op arg by without phi) p =
        lower_aggr-blank op arg (blank arg) by phi p refl
    lower-blank (num_lit v) p = failed
    lower-blank (bin_expr op left right) p =
        Follows-option (as_number right) (as_number (blank right)) (as_number-blank right)
          (Follows-option (as_number left) (as_number (blank left)) (as_number-blank left) failed
            (λ x.
              Follows->>= (lower-blank right p)
                (λ inner inner' same. wrap-blank op x true inner inner' same)))
          (λ x.
            Follows->>= (lower-blank left p)
              (λ inner inner' same. wrap-blank op x false inner inner' same))

    -- The SQL of a tree depends on no metric name, no value of a matcher and no time: if the tree is translated, then so is the tree without these, by the same SQL.
    pub lower-without_values :
        (n : Node F) (p : QueryParams) (t : Translation)
        → lower compiles floats n p ≡ ok t
        → (t' : Translation) × (lower any_text floats (blank n) (blank_times p) ≡ ok t')
          × (t.sql ≡ t'.sql)
    lower-without_values n p t e =
        let found = Follows-value t (lower-blank n p) e in (found.0, found.1, found.2.0)
