-- ===== src/PromQl/Sql.antt =====
-- The parameters, the result and the texts of pkg/promql/translate.go and promql.go. Times are nanoseconds.
use observe_x.Prelude.{
  ℕ, ◌-◌, ◌/◌, Bool, true, ◌&&◌, ◌||◌, Option, none, some, List, [], ◌∷◌, ◌++◌, ◌==◌, if◌then◌else◌,
  map,
}
use observe_x.Prelude.Text.{Text, codes, text_eq, is_letter, is_digit, join, digits}
use observe_x.PromQl.Run.{bad_arguments, unsupported, Result, ok, err}

-- A zero time is the zero value of time.Time.
pub record QueryParams : Type 0 where
  pub query : Text
  pub start : ℕ
  pub end_at : ℕ
  pub step : ℕ

pub data Arg : Type 0 where
  text_arg : Text → Arg
  time_arg : ℕ → Arg

pub record Translation : Type 0 where
  pub sql : Text
  pub args : List Arg
  pub labels : List Text

abbrev pub is_key_char : ℕ → Bool
is_key_char r = is_letter r || (is_digit r || (r == b'_' || (r == b'-' || r == b'.')))

unfoldable pub is_key : Text → Bool
is_key [] = true
is_key (r ∷ rs) = is_key_char r && is_key rs

-- sqlEscape.
unfoldable pub sql_escape : Text → Text
unfolding is_key
sql_escape s = if is_key s then s else codes "INVALID"

abbrev pub label_rune : ℕ → ℕ
label_rune r = if is_letter r || (is_digit r || r == b'_') then r else b'_'

-- labelCol.
unfoldable pub label_col : Text → Text
label_col label = codes "lbl_" ++ map label_rune label

abbrev pub attribute_of : Text → Text
attribute_of name = codes "attributes['" ++ (sql_escape name ++ codes "']")

-- int64(p.Step.Seconds()), and the default.
unfoldable pub step_seconds : ℕ → ℕ
step_seconds step = if step / 1000000000 == 0 then 30 else step / 1000000000

abbrev pub number : ℕ → Text
number n = digits n n

unfoldable pub agg_sql : Text → Option Text → Result Text
unfolding text_eq
agg_sql op phi =
    if text_eq op (codes "sum")
    then ok (codes "sum(value)")
    else if text_eq op (codes "avg")
    then ok (codes "avg(value)")
    else if text_eq op (codes "min")
    then ok (codes "min(value)")
    else if text_eq op (codes "max")
    then ok (codes "max(value)")
    else if text_eq op (codes "count")
    then ok (codes "count(value)")
    else if text_eq op (codes "quantile")
    then elim phi [
      | none ↦ err bad_arguments
      | some x ↦ ok (codes "quantile(" ++ (x ++ codes ")(value)"))
    ]
    else err unsupported

-- The defaults of Translate.
unfoldable pub with_defaults : ℕ → QueryParams → QueryParams
with_defaults now p =
    let end' = if p.end_at == 0 then now else p.end_at in
    record p {
      step = if p.step == 0 then 30000000000 else p.step;
      end_at = end';
      start = if p.start == 0 then end' - 3600000000000 else p.start;
    }

-- The columns of the labels of `by`.
unfoldable pub label_selects : List Text → List Text
label_selects [] = []
label_selects (lab ∷ labs) =
    (attribute_of lab ++ (codes " AS " ++ label_col lab)) ∷ label_selects labs

-- The expression of rate, irate and increase.
unfoldable pub rate_sql : Text → ℕ → Option Text
unfolding text_eq
rate_sql name step =
    if text_eq name (codes "rate")
    then some (codes "(max(value) - min(value)) / " ++ number step)
    else if text_eq name (codes "irate")
    then some (codes "(anyLast(value) - any(value)) / " ++ number step)
    else if text_eq name (codes "increase")
    then some (codes "(max(value) - min(value))")
    else none

unfoldable pub over_time_op : Text → Option Text
unfolding text_eq
over_time_op name =
    if text_eq name (codes "avg_over_time")
    then some (codes "avg")
    else if text_eq name (codes "sum_over_time")
    then some (codes "sum")
    else if text_eq name (codes "min_over_time")
    then some (codes "min")
    else if text_eq name (codes "max_over_time")
    then some (codes "max")
    else if text_eq name (codes "count_over_time")
    then some (codes "count")
    else none

-- The text of a bucket's time.
abbrev pub bucket_sql : ℕ → Text
bucket_sql step =
    codes "toStartOfInterval(timestamp, INTERVAL " ++ (number step ++ codes " SECOND) AS t")

abbrev pub aggr_text : Text → List Text → List Text → ℕ → Text
aggr_text agg by wheres step =
    codes "SELECT "
    ++ (join (codes ", ") (bucket_sql step ∷ (agg ++ codes " AS v") ∷ label_selects by)
        ++ (codes " FROM metrics WHERE "
            ++ (join (codes " AND ") wheres
                ++ (codes " GROUP BY "
                    ++ (join (codes ", ") (codes "t" ∷ map label_col by) ++ codes " ORDER BY t")))))

abbrev pub rate_text : Text → List Text → ℕ → Text
rate_text expr wheres step =
    codes "SELECT "
    ++ (bucket_sql step
        ++ (codes ", "
            ++ (expr
                ++ (codes " AS v FROM metrics WHERE "
                    ++ (join (codes " AND ") wheres ++ codes " GROUP BY t ORDER BY t")))))

abbrev pub arith_ops : List Text
arith_ops = map codes ("+" ∷ "-" ∷ "*" ∷ "/" ∷ [])

abbrev pub cmp_ops : List Text
cmp_ops = map codes (">" ∷ "<" ∷ ">=" ∷ "<=" ∷ "==" ∷ "!=" ∷ [])

-- The two operands and their operator; `==` is written `=`.
abbrev pub scalar_text : Text → Text → Bool → Text
scalar_text op x swapped =
    if swapped then x ++ (b' ' ∷ op ++ codes " v") else codes "v " ++ (op ++ (b' ' ∷ x))

abbrev pub sql_op : Text → Text
sql_op op = if text_eq op (codes "==") then codes "=" else op
