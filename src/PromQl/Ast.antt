-- ===== src/PromQl/Ast.antt =====
-- The trees of pkg/promql/parser.go. `F` is the type float64.
use observe_x.Prelude.{ℕ, Option, List}
use observe_x.Prelude.Text.{Text}

pub data MatcherOp : Type 0 where
  match_eq match_neq match_regex match_not_regex : MatcherOp

pub record Matcher : Type 0 where
  pub name : Text
  pub op : MatcherOp
  pub val : Text

pub record VectorSelector : Type 0 where
  pub metric : Text
  pub matches : List Matcher

-- The duration is float64(mult) * n before its truncation.
pub record RangeSelector (F : Type 0) : Type 0 where
  pub v : VectorSelector
  pub dur : F
  pub dur_text : Text

-- `Nodes` is the list of a call's arguments. An aggregation has its operator, its argument, the labels of
-- `by` and of `without`, and the scalar of a quantile.
mutual
  pub data Node (F : Type 0) : Type 0 where
    vector_selector : VectorSelector → Node F
    range_selector : RangeSelector F → Node F
    call_expr : Text → Nodes F → Node F
    aggr_expr : Text → Node F → List Text → List Text → Option F → Node F
    num_lit : F → Node F
    bin_expr : Text → Node F → Node F → Node F

  pub data Nodes (F : Type 0) : Type 0 where
    no_nodes : Nodes F
    more_nodes : Node F → Nodes F → Nodes F

-- strconv.ParseFloat, the verb %g, and the product of a unit in nanoseconds with a float64.
pub record Floats (F : Type 0) : Type 0 where
  pub parse_float : Text → Option F
  pub format_float : F → Text
  pub scale : ℕ → F → F
