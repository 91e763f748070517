-- ===== src/ObserveQl/Ast.antt =====
-- The query tree of pkg/observeql/ast.go. The parser fills exactly one of the alternatives of a node;
-- where the planner tests for none of them, there is a constructor for that. N is the type of numbers.
use observe_x.Prelude.{ℕ, Option, List}
use observe_x.Prelude.Text.{Text}

pub data Value (N : Type 0) : Type 0 where
  ident : Text → Value N
  text : Text → Value N
  number : N → Value N
  no_value : Value N

-- The six operators that the parser tag of Predicate.Op lets through; no query that is parsed has another text there, so that
-- the last return of normaliseOp is never reached with one.
pub data Operator : Type 0 where
  eq ne lt le gt ge : Operator

pub record Predicate (N : Type 0) : Type 0 where
  pub lhs : Value N
  pub op : Operator
  pub rhs : Value N

mutual
  pub data OrExpr (N : Type 0) : Type 0 where
    or_expr : AndExpr N → AndExprs N → OrExpr N

  pub data AndExprs (N : Type 0) : Type 0 where
    no_ands : AndExprs N
    more_ands : AndExpr N → AndExprs N → AndExprs N

  pub data AndExpr (N : Type 0) : Type 0 where
    and_expr : Cmp N → Cmps N → AndExpr N

  pub data Cmps (N : Type 0) : Type 0 where
    no_cmps : Cmps N
    more_cmps : Cmp N → Cmps N → Cmps N

  pub data Cmp (N : Type 0) : Type 0 where
    negation : Cmp N → Cmp N
    group : OrExpr N → Cmp N
    predicate : Predicate N → Cmp N
    no_cmp : Cmp N

-- A function's argument.
pub data Argument : Type 0 where
  star : Argument
  column_arg : Text → Argument
  no_arg : Argument

pub data Column : Type 0 where
  named : Text → Column
  call : Text → Argument → Column
  no_column : Column

pub data Selection : Type 0 where
  all : Selection
  columns : List Column → Selection

pub record Query (N : Type 0) : Type 0 where
  pub select : Selection
  pub source : Text
  pub where_expr : Option (OrExpr N)
  pub group_by : List Text
  pub since : Option Text
  pub limit : Option ℕ
