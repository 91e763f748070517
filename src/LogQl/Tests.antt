-- ===== src/LogQl/Tests.antt =====
-- Concrete runs of pkg/logql/logql.go.
use observe_x.Prelude.{Bool, true, false, [], ◌∷◌, ◌≡◌, refl}
use observe_x.Prelude.Text.{Text, codes, join, digits}
use observe_x.PromQl.Run.{ok, err, bad_syntax, Ensures}
use observe_x.Auth.{is_space}
use observe_x.LogQl.Parse.{parse_trimmed, parse_line_filters, split_last}
use observe_x.LogQl.Translate.{
  split_call, where_clauses, matcher_clauses, matcher_sql, filter_clauses, line_filter_sql,
  with_defaults, translate_logs, translate_metric, metric_expr, parses_duration, step_seconds,
  QueryParams, text_arg, time_arg, limit_arg, translate,
}
use observe_x.LogQl.Total.{IsBound, translate_ends-IsBound}

abbrev any : Text → Bool
any s = true

abbrev hour : Text → QueryParams
hour q = record { query = q; start = 1; end_at = 2; step = 60000000000; limit = 5 }

abbrev errors : QueryParams
errors = hour (codes "{app=\"web\", level!=\"info\"} |= \"timeout\"")

errors_query :
    translate any any 9 errors
    ≡ ok (record {
      sql =
          codes
            "SELECT timestamp, severity, service_name, body, trace_id, span_id, attributes FROM logs WHERE attributes['app'] = ? AND severity != ? AND positionCaseInsensitive(body, ?) > 0 AND timestamp BETWEEN ? AND ? ORDER BY timestamp DESC LIMIT ?";
      args =
          text_arg (codes "web")
          ∷ text_arg (codes "info")
          ∷ text_arg (codes "timeout")
          ∷ time_arg 1
          ∷ time_arg 2
          ∷ limit_arg 5
          ∷ [];
      is_logs = true;
    })
unfolding translate join translate_logs split_call is_space where_clauses parse_trimmed
    matcher_clauses matcher_sql parse_line_filters filter_clauses line_filter_sql with_defaults
errors_query = refl

rate_query :
    translate any any 9 (hour (codes "rate({app=\"web\"} |= \"timeout\" [5m])"))
    ≡ ok (record {
      sql =
          codes
            "SELECT toStartOfInterval(timestamp, INTERVAL 60 SECOND) AS t, count() / 60 AS v FROM logs WHERE attributes['app'] = ? AND positionCaseInsensitive(body, ?) > 0 AND timestamp BETWEEN ? AND ? GROUP BY t ORDER BY t";
      args = text_arg (codes "web") ∷ text_arg (codes "timeout") ∷ time_arg 1 ∷ time_arg 2 ∷ [];
      is_logs = false;
    })
unfolding translate join digits translate_metric metric_expr split_last parses_duration step_seconds
    split_call is_space where_clauses parse_trimmed matcher_clauses matcher_sql parse_line_filters
    filter_clauses line_filter_sql with_defaults
rate_query = refl

-- A closing brace in a quoted value ends the selector.
brace_in_value : translate any any 9 (hour (codes "{path=\"/a}b\"}")) ≡ err bad_syntax
unfolding translate translate_logs split_call is_space where_clauses parse_trimmed
brace_in_value = refl

translate_ends-IsBound_example : Ensures IsBound (translate any any 9 errors)
translate_ends-IsBound_example = translate_ends-IsBound any any 9 errors
