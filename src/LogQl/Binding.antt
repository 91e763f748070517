-- ===== src/LogQl/Binding.antt =====
-- The SQL of pkg/logql/logql.go: its placeholders, and the end of its loops.
use observe_x.Prelude.{ℕ, suc, Bool, some, List, ◌++◌, ◌≡◌, ◌≢◌, refl, arith}
use observe_x.Prelude.Text.{Text, codes, join, count, count-append}
use observe_x.Prelude.Marks.{marks, total, join-marks}
use observe_x.PromQl.Run.{ok, out_of_fuel}
use observe_x.PromQl.Sql.{number}
use observe_x.PromQl.Binding.{is_key-marks, number-marks}
use observe_x.LogQl.Parse.{LqMatcher, LqLineFilter}
use observe_x.LogQl.Translate.{
  safe_key, column_for, metric_expr, log_text, metric_text, matcher_sql, line_filter_sql,
}

safe_key-marks : (s : Text) → marks (safe_key s) ≡ 0
unfolding safe_key count
safe_key-marks s = ground (arith, is_key-marks s)

column_for-marks : (s : Text) → marks (column_for s) ≡ 0
unfolding column_for count
column_for-marks s = grind (arith, safe_key-marks s, count-append b'?' (safe_key s) (codes "']"))

pub matcher_sql-fueled :
    (compiles reads_number : Text → Bool) (m : LqMatcher)
    → matcher_sql compiles reads_number m ≢ out_of_fuel
unfolding matcher_sql
matcher_sql-fueled compiles reads_number m = ground arith

pub matcher_sql-marks :
    (compiles reads_number : Text → Bool) (m : LqMatcher) (s : Text)
    → matcher_sql compiles reads_number m ≡ ok s
    → marks s ≡ 1
unfolding matcher_sql count
matcher_sql-marks compiles reads_number m s e = grind (
  arith,
  column_for-marks m.name,
  count-append b'?' (column_for m.name) (codes " = ?"),
  count-append b'?' (column_for m.name) (codes " != ?"),
  count-append b'?' (column_for m.name) (codes ", ?)"),
)

pub line_filter_sql-fueled :
    (compiles reads_number : Text → Bool) (f : LqLineFilter)
    → line_filter_sql compiles reads_number f ≢ out_of_fuel
unfolding line_filter_sql
line_filter_sql-fueled compiles reads_number f = ground arith

pub line_filter_sql-marks :
    (compiles reads_number : Text → Bool) (f : LqLineFilter) (s : Text)
    → line_filter_sql compiles reads_number f ≡ ok s
    → marks s ≡ 1
unfolding line_filter_sql count
line_filter_sql-marks compiles reads_number f s e = ground arith

pub metric_expr-marks :
    (name : Text) (step : ℕ) (expr : Text) → metric_expr name step ≡ some expr → marks expr ≡ 0
unfolding metric_expr count
metric_expr-marks name step expr e = ground (arith, number-marks step)

pub log_text-marks : (wheres : List Text) → marks (log_text wheres) ≡ suc (total wheres)
unfolding count
log_text-marks wheres = omega (
  arith,
  join-marks (codes " AND ") wheres refl,
  count-append b'?' (join (codes " AND ") wheres) (codes " ORDER BY timestamp DESC LIMIT ?"),
)

pub metric_text-marks :
    (expr : Text) (wheres : List Text) (step : ℕ)
    → marks expr ≡ 0
    → marks (metric_text expr wheres step) ≡ total wheres
unfolding count
metric_text-marks expr wheres step h =
    let ending = join (codes " AND ") wheres ++ codes " GROUP BY t ORDER BY t" in
    omega (
      arith,
      h,
      number-marks step,
      join-marks (codes " AND ") wheres refl,
      count-append b'?' (join (codes " AND ") wheres) (codes " GROUP BY t ORDER BY t"),
      count-append b'?' expr (codes " AS v FROM logs WHERE " ++ ending),
      count-append b'?' (number step)
          (codes " SECOND) AS t, " ++ (expr ++ (codes " AS v FROM logs WHERE " ++ ending))),
    )
