-- ===== src/LogQl/Translate.antt =====
-- Translate of pkg/logql/logql.go. Which texts regexp.Compile accepts and which fmt.Sscanf reads as a number are
-- arguments. Times are nanoseconds; a step or a limit of 0 stands for any that is not positive.
use observe_x.Prelude.{
  ℕ, ◌-◌, ◌/◌, Bool, true, false, ◌&&◌, ◌||◌, Option, none, some, List, [], ◌∷◌, ◌++◌, length, take,
  drop, ltb, ◌==◌, if◌then◌else◌, map,
}
use observe_x.Prelude.Text.{Text, codes, text_eq, is_member, is_letter, join}
use observe_x.Auth.{lower_rune, trim_left, trim_right}
use observe_x.PromQl.Run.{
  empty_query, bad_syntax, bad_duration, bad_regex, unsupported, Result, ok, err, ◌>>=◌,
}
use observe_x.PromQl.Sql.{is_key, number}
use observe_x.LogQl.Parse.{
  trim, ends_in, drop_last, split_first, split_last, matches_re, not_matches_re, not_equal, equal,
  LqMatcher, parse_stream_selector, contains, matches, excludes, not_matches, LqLineFilter,
  parse_line_filters,
}

pub record QueryParams : Type 0 where
  pub query : Text
  pub start : ℕ
  pub end_at : ℕ
  pub step : ℕ
  pub limit : ℕ

pub data Arg : Type 0 where
  text_arg : Text → Arg
  time_arg : ℕ → Arg
  limit_arg : ℕ → Arg

pub record Translation : Type 0 where
  pub sql : Text
  pub args : List Arg
  pub is_logs : Bool

-- safeKey.
unfoldable pub safe_key : Text → Text
unfolding is_key
safe_key s = if is_key s then s else codes "INVALID"

-- columnFor.
unfoldable pub column_for : Text → Text
unfolding is_member safe_key lower_rune
column_for label =
    let lowered = map lower_rune label in
    if is_member lowered (map codes ("service" ∷ "service_name" ∷ []))
    then codes "service_name"
    else if is_member lowered (map codes ("severity" ∷ "level" ∷ []))
    then codes "severity"
    else if is_member lowered (map codes ("trace_id" ∷ "traceid" ∷ []))
    then codes "trace_id"
    else if is_member lowered (map codes ("span_id" ∷ "spanid" ∷ []))
    then codes "span_id"
    else codes "attributes['" ++ (safe_key label ++ codes "']")

is_call_rune : ℕ → Bool
is_call_rune r = is_letter r || r == b'_'

all_call_runes : Text → Bool
unfolding is_call_rune
all_call_runes [] = true
all_call_runes (r ∷ rs) = is_call_rune r && all_call_runes rs

-- splitCall: the name and the body.
unfoldable pub split_call : Text → Option (Text × Text)
unfolding split_first all_call_runes ends_in drop_last trim_left trim_right
split_call s = elim (split_first b'(' s) [
  | none ↦ none
  | some (before, after) ↦ elim before [
    | [] ↦ none
    | b ∷ bs ↦
        if all_call_runes (trim (b ∷ bs)) && ends_in b')' s
        then some (trim (b ∷ bs), drop_last after)
        else none
  ]
]

-- The expression of a metric query; none for a function that isMetricFn refuses.
unfoldable pub metric_expr : Text → ℕ → Option Text
unfolding text_eq
metric_expr name step =
    if text_eq name (codes "count_over_time")
    then some (codes "count()")
    else if text_eq name (codes "rate")
    then some (codes "count() / " ++ number step)
    else if text_eq name (codes "bytes_over_time")
    then some (codes "sum(length(body))")
    else none

unfoldable pub is_unit : Text → Bool
unfolding is_member
is_unit u = is_member u (map codes ("ms" ∷ "s" ∷ "m" ∷ "h" ∷ "d" ∷ "w" ∷ []))

duration_unit : Text → Text
unfolding text_eq
duration_unit s =
    if text_eq (drop (length s - 2) s) (codes "ms") then codes "ms" else drop (length s - 1) s

unfoldable pub step_seconds : ℕ → ℕ
step_seconds step = if step / 1000000000 == 0 then 60 else step / 1000000000

abbrev pub log_text : List Text → Text
log_text wheres =
    codes
      "SELECT timestamp, severity, service_name, body, trace_id, span_id, attributes FROM logs WHERE "
    ++ (join (codes " AND ") wheres ++ codes " ORDER BY timestamp DESC LIMIT ?")

abbrev pub metric_text : Text → List Text → ℕ → Text
metric_text expr wheres step =
    codes "SELECT toStartOfInterval(timestamp, INTERVAL "
    ++ (number step
        ++ (codes " SECOND) AS t, "
            ++ (expr
                ++ (codes " AS v FROM logs WHERE "
                    ++ (join (codes " AND ") wheres ++ codes " GROUP BY t ORDER BY t")))))

-- The defaults of Translate.
unfoldable pub with_defaults : ℕ → QueryParams → QueryParams
with_defaults now p =
    let end' = if p.end_at == 0 then now else p.end_at in
    record p {
      end_at = end';
      start = if p.start == 0 then end' - 3600000000000 else p.start;
      step = if p.step == 0 then 60000000000 else p.step;
      limit = if p.limit == 0 then 1000 else p.limit;
    }

module _ (compiles reads_number : Text → Bool) where
  -- parseDuration: whether it gives one, which the translation does not read.
  unfoldable pub parses_duration : Text → Bool
  unfolding duration_unit is_unit
  parses_duration s =
      if ltb (length s) 2
      then false
      else reads_number (take (length s - length (duration_unit s)) s) && is_unit (duration_unit s)

  -- matcherSQL: the clause; the value that it binds is the matcher's.
  unfoldable pub matcher_sql : LqMatcher → Result Text
  unfolding column_for
  matcher_sql m = elim m.op [
    | equal ↦ ok (column_for m.name ++ codes " = ?")
    | not_equal ↦ ok (column_for m.name ++ codes " != ?")
    | matches_re ↦
        if compiles m.val
        then ok (codes "match(" ++ (column_for m.name ++ codes ", ?)"))
        else err bad_regex
    | not_matches_re ↦
        if compiles m.val
        then ok (codes "NOT match(" ++ (column_for m.name ++ codes ", ?)"))
        else err bad_regex
  ]

  -- lineFilterSQL.
  unfoldable pub line_filter_sql : LqLineFilter → Result Text
  line_filter_sql f = elim f.op [
    | contains ↦ ok (codes "positionCaseInsensitive(body, ?) > 0")
    | excludes ↦ ok (codes "positionCaseInsensitive(body, ?) = 0")
    | matches ↦ if compiles f.val then ok (codes "match(body, ?)") else err bad_regex
    | not_matches ↦ if compiles f.val then ok (codes "NOT match(body, ?)") else err bad_regex
  ]

  -- The loops over the matchers and over the line filters.
  unfoldable pub matcher_clauses : List LqMatcher → Result (List Text × List Arg)
  matcher_clauses [] = ok ([], [])
  matcher_clauses (m ∷ ms) = matcher_sql m >>= λ clause.
      matcher_clauses ms >>= λ rest. ok (clause ∷ rest.0, text_arg m.val ∷ rest.1)

  unfoldable pub filter_clauses : List LqLineFilter → Result (List Text × List Arg)
  filter_clauses [] = ok ([], [])
  filter_clauses (f ∷ fs) = line_filter_sql f >>= λ clause.
      filter_clauses fs >>= λ rest. ok (clause ∷ rest.0, text_arg f.val ∷ rest.1)

  -- What translateLogs and translateMetric share: the WHERE clauses and their arguments, the times last.
  unfoldable pub where_clauses : Text → QueryParams → Result (List Text × List Arg)
  unfolding trim_left trim_right
  where_clauses q p = parse_stream_selector q >>= λ s. matcher_clauses s.0 >>= λ ms.
      parse_line_filters (length (trim s.1)) (trim s.1) >>= λ filters.
      filter_clauses filters >>= λ fs. ok (
        (ms.0 ++ fs.0) ++ codes "timestamp BETWEEN ? AND ?" ∷ [],
        (ms.1 ++ fs.1) ++ (time_arg p.start ∷ time_arg p.end_at ∷ []),
      )

  -- translateLogs.
  unfoldable pub translate_logs : Text → QueryParams → Result Translation
  translate_logs q p = where_clauses q p >>= λ c.
      ok (record { sql = log_text c.0; args = c.1 ++ limit_arg p.limit ∷ []; is_logs = true })

  -- translateMetric.
  unfoldable pub translate_metric : Text → Text → QueryParams → Result Translation
  unfolding trim_left trim_right
  translate_metric name body p = elim (metric_expr name (step_seconds p.step)) [
    | none ↦ err unsupported
    | some expr ↦ elim (split_last b'[' (trim body)) [
      | none ↦ err bad_syntax
      | some (before, after) ↦ elim (ends_in b']' (trim body)) [
        | false ↦ err bad_syntax
        | true ↦ elim (parses_duration (drop_last after)) [
          | false ↦ err bad_duration
          | true ↦ where_clauses (trim before) p >>= λ c. ok (record {
            sql = metric_text expr c.0 (step_seconds p.step);
            args = c.1;
            is_logs = false;
          })
        ]
      ]
    ]
  ]

  -- Translate.
  unfoldable pub translate : ℕ → QueryParams → Result Translation
  unfolding text_eq trim_left trim_right
  translate now p = elim (text_eq p.query []) [
    | true ↦ err empty_query
    | false ↦ elim (split_call (trim p.query)) [
      | some (name, body) ↦ translate_metric name body (with_defaults now p)
      | none ↦ translate_logs (trim p.query) (with_defaults now p)
    ]
  ]
