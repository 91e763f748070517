-- ===== src/ObserveQl/Render.antt =====
-- The rendering functions of pkg/observeql/planner.go. The SQL text grows beside the parameters that it
-- binds.
use observe_x.Prelude.{
  ℕ, ◌+◌, Bool, true, false, not, ◌&&◌, ◌||◌, List, [], ◌∷◌, ◌++◌, leb, ◌==◌, if◌then◌else◌, map,
}
use observe_x.Prelude.Text.{Text, codes, text_eq, is_member, is_letter, is_digit}
use observe_x.ObserveQl.Ast.{
  Value, ident, text, number, no_value, Operator, eq, ne, lt, le, gt, ge, Predicate, OrExpr,
  or_expr, AndExprs, no_ands, more_ands, AndExpr, and_expr, Cmps, no_cmps, more_cmps, Cmp, negation,
  group, predicate, no_cmp, star, column_arg, no_arg, Column, named, call, no_column,
}

pub data Param (N : Type 0) : Type 0 where
  text_param : Text → Param N
  number_param : N → Param N
  time_param : ℕ → ℕ → Param N
  int_param : ℕ → Param N

pub data PlanError : Type 0 where
  tenant_required empty_column empty_comparison empty_value bad_duration : PlanError
  unknown_source column_not_allowed function_not_allowed function_needs_argument : Text → PlanError

pub data Result {ℓ} (A : Type ℓ) : Type ℓ where
  ok : A → Result A
  err : PlanError → Result A
  panic : Result A

infixl 5 ◌>>=◌
abbrev pub ◌>>=◌ {ℓ κ} : {A : Type ℓ} {B : Type κ} → Result A → (A → Result B) → Result B
ok a >>= f = f a
err e >>= f = err e
panic >>= f = panic

unfoldable pub ident_tail : Text → Bool
ident_tail [] = true
ident_tail (c ∷ cs) = (is_letter c || (is_digit c || (c == b'_' || c == b'.'))) && ident_tail cs

-- identRe.
unfoldable pub ident_re : Text → Bool
unfolding ident_tail
ident_re [] = false
ident_re (c ∷ cs) = (is_letter c || c == b'_') && ident_tail cs

unfoldable pub ident_quote : Text → Result Text
unfolding ident_re
ident_quote s = if ident_re s then ok (b'`' ∷ s ++ b'`' ∷ []) else panic

abbrev pub allowed_functions : List Text
allowed_functions = map codes ("count" ∷ "avg" ∷ "sum" ∷ "min" ∷ "max" ∷ [])

unfoldable pub to_lower : Text → Text
to_lower = map (λ c. if leb b'A' c && leb c b'Z' then c + 32 else c)

unfoldable pub render_column : List Text → Column → Result Text
unfolding ident_quote is_member text_eq to_lower
render_column allowed (named name) =
    if is_member name allowed then ident_quote name else err (column_not_allowed name)
render_column allowed (call name arg) =
    let fn = to_lower name in
    if not (is_member fn allowed_functions) then err (function_not_allowed fn) else elim arg [
      | star ↦ ok (fn ++ codes "(*)")
      | no_arg ↦ err (function_needs_argument fn)
      | column_arg a ↦
          if not (is_member a allowed)
          then err (column_not_allowed a)
          else do q ← ident_quote a; ok (fn ++ (b'(' ∷ q ++ b')' ∷ []))
    ]
render_column allowed no_column = err empty_column

-- normaliseOp, on the texts that the grammar lets through.
abbrev pub op_text : Operator → Text
op_text eq = codes "="
op_text ne = codes "!="
op_text lt = codes "<"
op_text le = codes "<="
op_text gt = codes ">"
op_text ge = codes ">="

abbrev pub in_or : Text → Text → Text
in_or left right = b'(' ∷ left ++ (codes " OR " ++ (right ++ codes ")"))

abbrev pub in_and : Text → Text → Text
in_and left right = b'(' ∷ left ++ (codes " AND " ++ (right ++ codes ")"))

-- renderValue, as renderPredicate calls it: an identifier is allowed.
module _ {N : Type 0} (allowed : List Text) where
  unfoldable pub render_value : Value N → List (Param N) → Result (Text × List (Param N))
  unfolding ident_quote is_member text_eq
  render_value (ident s) params =
      if not (is_member s allowed)
      then err (column_not_allowed s)
      else do q ← ident_quote s; ok (q, params)
  render_value (text s) params = ok (codes "?", params ++ text_param s ∷ [])
  render_value (number n) params = ok (codes "?", params ++ number_param n ∷ [])
  render_value no_value params = err empty_value

  unfoldable pub render_predicate : Predicate N → List (Param N) → Result (Text × List (Param N))
  unfolding render_value
  render_predicate p params = render_value p.lhs params >>= λ l.
      render_value p.rhs l.1 >>= λ r. ok (l.0 ++ (b' ' ∷ op_text p.op ++ (b' ' ∷ r.0)), r.1)

  -- renderOr, renderAnd and renderCmp, each with its loop over the right sides.
  unfoldable mutual
    unfolding render_predicate

    pub render_or : OrExpr N → List (Param N) → Result (Text × List (Param N))
    render_or (or_expr a rest) params = render_and a params >>= λ l. render_ors rest l.0 l.1

    pub render_ors : AndExprs N → Text → List (Param N) → Result (Text × List (Param N))
    render_ors no_ands left params = ok (left, params)
    render_ors (more_ands a rest) left params =
        render_and a params >>= λ r. render_ors rest (in_or left r.0) r.1

    pub render_and : AndExpr N → List (Param N) → Result (Text × List (Param N))
    render_and (and_expr c rest) params = render_cmp c params >>= λ l. render_ands rest l.0 l.1

    pub render_ands : Cmps N → Text → List (Param N) → Result (Text × List (Param N))
    render_ands no_cmps left params = ok (left, params)
    render_ands (more_cmps c rest) left params =
        render_cmp c params >>= λ r. render_ands rest (in_and left r.0) r.1

    pub render_cmp : Cmp N → List (Param N) → Result (Text × List (Param N))
    render_cmp (negation c) params =
        render_cmp c params >>= λ r. ok (codes "NOT (" ++ (r.0 ++ codes ")"), r.1)
    render_cmp (group e) params = render_or e params >>= λ r. ok (b'(' ∷ r.0 ++ codes ")", r.1)
    render_cmp (predicate p) params = render_predicate p params
    render_cmp no_cmp params = err empty_comparison
