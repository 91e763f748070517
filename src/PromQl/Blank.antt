-- ===== src/PromQl/Blank.antt =====
-- The trees of pkg/promql/parser.go without their values, and the clauses of pkg/promql/translate.go over them.
use mathlib.Core.Path.{subst}
use observe_x.Prelude.{Bool, true, false, List, [], ◌∷◌, map, ◌≡◌, refl, if◌then◌else◌}
use observe_x.Prelude.Text.{Text}
use observe_x.PromQl.Run.{ok, err, bad_regex}
use observe_x.PromQl.Follows.{Follows, both, failed, Follows->>=}
use observe_x.PromQl.Ast.{
  MatcherOp, match_eq, match_neq, match_regex, match_not_regex, Matcher, VectorSelector,
  RangeSelector, Node, Nodes, vector_selector, range_selector, call_expr, aggr_expr, num_lit,
  bin_expr, no_nodes, more_nodes,
}
use observe_x.PromQl.Sql.{QueryParams, Arg}
use observe_x.PromQl.Translate.{matcher_sql, matcher_clauses, selector_clauses}

-- Every text compiles.
abbrev pub any_text : Text → Bool
any_text s = true

-- A tree without its values: the names of the metrics and the right-hand sides of the matchers.
unfoldable pub blank_matcher : Matcher → Matcher
blank_matcher m = record m { val = [] }

unfoldable pub blank_selector : VectorSelector → VectorSelector
unfolding blank_matcher
blank_selector vs = record { metric = []; matches = map blank_matcher vs.matches }

module _ {F : Type 0} where
  unfoldable pub blank_range : RangeSelector F → RangeSelector F
  unfolding blank_selector
  blank_range r = record r { v = blank_selector r.v }

  unfoldable mutual
    unfolding blank_range

    pub blank : Node F → Node F
    blank (vector_selector vs) = vector_selector (blank_selector vs)
    blank (range_selector r) = range_selector (blank_range r)
    blank (call_expr name args) = call_expr name (blank_all args)
    blank (aggr_expr op arg by without phi) = aggr_expr op (blank arg) by without phi
    blank (num_lit v) = num_lit v
    blank (bin_expr op l r) = bin_expr op (blank l) (blank r)

    pub blank_all : Nodes F → Nodes F
    blank_all no_nodes = no_nodes
    blank_all (more_nodes n ns) = more_nodes (blank n) (blank_all ns)

-- The parameters without the times.
abbrev pub blank_times : QueryParams → QueryParams
blank_times p = record p { query = []; start = 0; end_at = 0 }

matcher_sql-blank :
    (compiles : Text → Bool) (m : Matcher)
    → Follows (◌≡◌ {A = Text}) (matcher_sql compiles m) (matcher_sql any_text (blank_matcher m))
unfolding matcher_sql blank_matcher
matcher_sql-blank compiles m = by_op m.op
  where
    if_compiles :
        (test : Bool) (clause : Text)
        → Follows (◌≡◌ {A = Text}) (if test then ok clause else err bad_regex) (ok clause)
    if_compiles true clause = both refl
    if_compiles false clause = failed

    by_op :
        (op : MatcherOp)
        → Follows
            (◌≡◌ {A = Text})
            (matcher_sql compiles (record { name = m.name; op = op; val = m.val }))
            (matcher_sql any_text (record { name = m.name; op = op; val = [] }))
    by_op match_eq = both refl
    by_op match_neq = both refl
    by_op match_regex = if_compiles (compiles m.val) _
    by_op match_not_regex = if_compiles (compiles m.val) _

-- The clauses are the same, whatever the arguments.
abbrev pub SameClauses : List Text × List Arg → List Text × List Arg → Type 0
SameClauses c c' = c.0 ≡ c'.0

matcher_clauses-blank :
    (compiles : Text → Bool) (ms : List Matcher)
    → Follows SameClauses
        (matcher_clauses compiles ms)
        (matcher_clauses any_text (map blank_matcher ms))
unfolding matcher_clauses blank_matcher
matcher_clauses-blank compiles [] = both refl
matcher_clauses-blank compiles (m ∷ ms) =
    Follows->>= (matcher_sql-blank compiles m)
      (λ s s' e. Follows->>= (matcher_clauses-blank compiles ms) (λ c c' e'. both (cc (e, e'))))

pub selector_clauses-blank :
    (compiles : Text → Bool) (vs : VectorSelector) (p : QueryParams)
    → Follows SameClauses
        (selector_clauses compiles vs p)
        (selector_clauses any_text (blank_selector vs) (blank_times p))
unfolding selector_clauses blank_selector
selector_clauses-blank compiles vs p =
    Follows->>= (matcher_clauses-blank compiles vs.matches) (λ c c' e. both (cc e))

pub same_selector :
    (compiles : Text → Bool) (vs vs' : VectorSelector) (p : QueryParams)
    → blank_selector vs ≡ vs'
    → Follows SameClauses
        (selector_clauses compiles vs p)
        (selector_clauses any_text vs' (blank_times p))
same_selector compiles vs vs' p e =
    subst
      (λ v.
        Follows SameClauses (selector_clauses compiles vs p)
          (selector_clauses any_text v (blank_times p)))
      e (selector_clauses-blank compiles vs p)
