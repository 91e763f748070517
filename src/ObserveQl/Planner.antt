-- ===== src/ObserveQl/Planner.antt =====
-- PlanQuery of pkg/observeql/planner.go, on a query that Parse has normalised. The clock and the reading
-- of a duration (parseDuration) are arguments.
use observe_x.Prelude.{
  ℕ, not, ◌&&◌, Option, none, some, List, [], ◌∷◌, ◌++◌, ltb, ◌==◌, if◌then◌else◌, map,
}
use observe_x.Prelude.Text.{Text, codes, text_eq, is_member, join}
use observe_x.ObserveQl.Ast.{Column, Selection, all, columns, Query, OrExpr}
use observe_x.ObserveQl.Render.{
  Param, text_param, time_param, int_param, tenant_required, unknown_source, column_not_allowed,
  bad_duration, Result, ok, err, ◌>>=◌, ident_quote, render_column, render_or,
}

pub record PlannerOptions : Type 0 where
  pub tenant_id : Text
  pub max_row_limit : ℕ
  pub default_since : ℕ

-- PlannerOptions.withDefaults; a zero stands for every value that is not positive.
unfoldable pub with_defaults : PlannerOptions → PlannerOptions
with_defaults o = record o {
  max_row_limit = if o.max_row_limit == 0 then 10000 else o.max_row_limit;
  default_since = if o.default_since == 0 then 3600000000000 else o.default_since;
}

abbrev pub metrics_columns : List Text
metrics_columns =
    map codes ("tenant_id" ∷ "metric_name" ∷ "timestamp" ∷ "value" ∷ "labels" ∷ "received_at" ∷ [])

abbrev pub logs_columns : List Text
logs_columns = map codes (
    "tenant_id" ∷ "service_name" ∷ "severity" ∷ "body" ∷ "attributes" ∷ "timestamp" ∷ "trace_id"
    ∷ "span_id" ∷ [])

abbrev pub traces_columns : List Text
traces_columns = map codes (
    "tenant_id" ∷ "trace_id" ∷ "span_id" ∷ "parent_span_id" ∷ "operation_name" ∷ "service_name"
    ∷ "start_time" ∷ "end_time" ∷ "duration_ns" ∷ "attributes" ∷ "status_code" ∷ [])

-- What the three tables of the planner say of a source: its table, its columns and its time column.
pub record Source : Type 0 where
  pub table : Text
  pub allowed : List Text
  pub time_column : Text

unfoldable pub source_of : Text → Option Source
unfolding text_eq
source_of s =
    if text_eq s (codes "metrics")
    then some (record {
      table = codes "metrics";
      allowed = metrics_columns;
      time_column = codes "timestamp";
    })
    else if text_eq s (codes "logs")
    then some
        (record { table = codes "logs"; allowed = logs_columns; time_column = codes "timestamp" })
    else if text_eq s (codes "traces")
    then some (record {
      table = codes "traces";
      allowed = traces_columns;
      time_column = codes "start_time";
    })
    else none

unfoldable pub render_columns : List Text → List Column → Result (List Text)
unfolding render_column
render_columns allowed [] = ok []
render_columns allowed (c ∷ cs) = do
  s ← render_column allowed c
  rest ← render_columns allowed cs
  ok (s ∷ rest)

unfoldable pub render_select : List Text → Selection → Result (List Text)
unfolding render_columns
render_select allowed all = ok (codes "*" ∷ [])
render_select allowed (columns cs) = render_columns allowed cs

unfoldable pub render_group : List Text → List Text → Result (List Text)
unfolding ident_quote is_member
render_group allowed [] = ok []
render_group allowed (c ∷ cs) =
    if not (is_member c allowed)
    then err (column_not_allowed c)
    else do q ← ident_quote c; rest ← render_group allowed cs; ok (q ∷ rest)

-- The LIMIT clause is clamped.
unfoldable pub clamp_limit : ℕ → Option ℕ → ℕ
clamp_limit max' none = max'
clamp_limit max' (some n) = if ltb 0 n && ltb n max' then n else max'

pub record Plan (N : Type 0) : Type 0 where
  pub sql : Text
  pub params : List (Param N)
  pub source : Text
  pub group_by : List Text
  pub limit : ℕ

module _ {N : Type 0} where
  unfoldable pub render_where :
      List Text → Option (OrExpr N) → List (Param N) → Result (List Text × List (Param N))
  render_where allowed none params = ok ([], params)
  render_where allowed (some e) params =
      render_or allowed e params >>= λ r. ok ((b'(' ∷ r.0 ++ codes ")") ∷ [], r.1)

unfoldable pub since_of : (Text → Option ℕ) → ℕ → Option Text → Result ℕ
since_of parse default' none = ok default'
since_of parse default' (some d) = elim (parse d) [ none ↦ err bad_duration | some n ↦ ok n ]

abbrev pub group_clause : List Text → Text
group_clause [] = []
group_clause (c ∷ cs) = codes " GROUP BY " ++ join (codes ", ") (c ∷ cs)

-- The stitching of the SQL text.
unfoldable pub stitch : List Text → Text → List Text → List Text → Text → Text
unfolding join
stitch select_parts table where_parts group_cols time_col =
    codes "SELECT "
    ++ (join (codes ", ") select_parts
        ++ (codes " FROM "
            ++ (table
                ++ (codes " WHERE "
                    ++ (join (codes " AND ") where_parts
                        ++ (group_clause group_cols
                            ++ (codes " ORDER BY " ++ (time_col ++ codes " DESC LIMIT ?"))))))))

module _ {N : Type 0} (parse : Text → Option ℕ) (now : ℕ) where
  -- PlanQuery once the source is known.
  unfoldable pub plan_source : Query N → PlannerOptions → Source → Result (Plan N)
  unfolding ident_quote
  plan_source q o src = do
    select_parts ← render_select src.allowed q.select
    filter' ← render_where src.allowed q.where_expr (text_param o.tenant_id ∷ [])
    since ← since_of parse o.default_since q.since
    time_col ← ident_quote src.time_column
    group_cols ← render_group src.allowed q.group_by
    table ← ident_quote src.table
    let limit = clamp_limit o.max_row_limit q.limit
    ok (record {
      sql =
          stitch select_parts table
            (codes "tenant_id = ?" ∷ filter'.0 ++ (time_col ++ codes " >= ?") ∷ []) group_cols
            time_col;
      params = filter'.1 ++ (time_param now since ∷ int_param limit ∷ []);
      source = q.source;
      group_by = group_cols;
      limit = limit;
    })

  unfoldable pub plan_query : Query N → PlannerOptions → Result (Plan N)
  unfolding with_defaults
  plan_query q opts =
      let o = with_defaults opts in
      if text_eq o.tenant_id [] then err tenant_required else elim (source_of q.source) [
        | none ↦ err (unknown_source q.source)
        | some src ↦ plan_source q o src
      ]
