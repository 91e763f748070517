-- ===== src/PromQl/Tests.antt =====
-- Concrete runs of pkg/promql.
use observe_x.Prelude.{
  ℕ, ◌+◌, ◌-◌, ◌*◌, ◌≤◌, Bool, true, Option, none, some, [], ◌∷◌, ◌++◌, length, if◌then◌else◌, ◌≡◌,
  ◌≢◌, refl,
}
use observe_x.Prelude.Text.{Text, codes, is_digit, join, digits, digits-count}
use observe_x.Prelude.Marks.{marks}
use observe_x.PromQl.Run.{ok, out_of_fuel, ◌>>=◌, Ensures}
use observe_x.PromQl.Token.{tk_ident, tk_by, tk_lparen}
use observe_x.PromQl.Ast.{Floats, vector_selector, Node, match_eq}
use observe_x.PromQl.Lexer.{read_string, tokenize}
use observe_x.PromQl.Parser.{parse}
use observe_x.PromQl.Sql.{QueryParams, Translation, label_col, text_arg, time_arg, number}
use observe_x.PromQl.Translate.{lower, translate}
use observe_x.PromQl.Blank.{any_text, blank, blank_times}
use observe_x.PromQl.Injection.{lower-without_values}
use observe_x.PromQl.Fuel.{tokenize-length}
use observe_x.PromQl.Total.{translate-fueled}
use observe_x.PromQl.Guard.{IsGuarded, run_prom, run_prom-IsGuarded}
use observe_x.PromQl.Strings.{quote, read_string-quote}
use observe_x.PromQl.Trailing.{token, is_stray, parse-name}

-- Numbers without a point, for float64.
abbrev decimal : Text → ℕ → Option ℕ
decimal [] n = some n
decimal (c ∷ cs) n = if is_digit c then decimal cs (10 * n + (c - b'0')) else none

abbrev whole : Floats ℕ
whole = record { parse_float = λ s. decimal s 0; format_float = number; scale = λ unit n. unit * n }

whole-plain : (x : ℕ) → marks (whole.format_float x) ≡ 0
whole-plain x = digits-count b'?' x x refl

abbrev any_regex : Text → Bool
any_regex s = true

abbrev hour : Text → QueryParams
hour q = record { query = q; start = 1; end_at = 2; step = 60000000000 }

-- The modifier stands behind the parenthesis, as the parser wants it.
abbrev by_job : QueryParams
by_job = hour (codes "sum(rate(http_requests{code=~\"5..\"}[5m])) by (job)")

abbrev by_job_sql : Translation
by_job_sql = record {
  sql =
      codes
        "SELECT toStartOfInterval(timestamp, INTERVAL 60 SECOND) AS t, sum(value) AS v, attributes['job'] AS lbl_job FROM metrics WHERE metric_name = ? AND match(attributes['code'], ?) AND timestamp BETWEEN ? AND ? GROUP BY t, lbl_job ORDER BY t";
  args = text_arg (codes "http_requests") ∷ text_arg (codes "5..") ∷ time_arg 1 ∷ time_arg 2 ∷ [];
  labels = codes "job" ∷ [];
}

by_job_query : translate any_regex whole 9 by_job ≡ ok by_job_sql
unfolding translate join digits label_col
by_job_query = refl

-- The modifier in front of it: the metric is `sum`, and the rest is dropped.
prefix_modifier :
    tokenize (codes "sum by (job) (m)") >>= parse whole
    ≡ ok (vector_selector (record { metric = codes "sum"; matches = [] }))
unfolding tokenize parse
prefix_modifier = refl

translate-fueled_example : translate any_regex whole 9 by_job ≢ out_of_fuel
translate-fueled_example = translate-fueled any_regex whole 9 by_job

run_prom-IsGuarded_example :
    IsGuarded (codes "acme") (run_prom any_regex whole 9 (codes "acme") by_job)
run_prom-IsGuarded_example = run_prom-IsGuarded any_regex whole whole-plain 9 (codes "acme") by_job

tokenize-length_example :
    Ensures (λ toks. length toks ≤ length by_job.query) (tokenize by_job.query)
tokenize-length_example = tokenize-length by_job.query

read_string-quote_example :
    read_string (quote (codes "a\"b\\") ++ codes "}")
    ≡ some (codes "a\"b\\", length (quote (codes "a\"b\\")))
read_string-quote_example = read_string-quote (codes "a\"b\\") (codes "}")

parse-name_example :
    parse whole (
      token tk_ident (codes "sum") 0
      ∷ (token tk_by (codes "by") 4 ∷ (token tk_lparen (codes "(") 7 ∷ [])))
    ≡ ok (vector_selector (record { metric = codes "sum"; matches = [] }))
unfolding is_stray
parse-name_example =
    parse-name whole 0 4 tk_by (codes "sum") (codes "by") (token tk_lparen (codes "(") 7 ∷ []) refl

abbrev secret : Node ℕ
secret = vector_selector (record {
  metric = codes "m";
  matches = record { name = codes "job"; op = match_eq; val = codes "x' OR 1" } ∷ [];
})

abbrev secret_sql : Translation
secret_sql = record {
  sql =
      codes
        "SELECT toStartOfInterval(timestamp, INTERVAL 60 SECOND) AS t, avg(value) AS v FROM metrics WHERE metric_name = ? AND attributes['job'] = ? AND timestamp BETWEEN ? AND ? GROUP BY t ORDER BY t";
  args = text_arg (codes "m") ∷ text_arg (codes "x' OR 1") ∷ time_arg 1 ∷ time_arg 2 ∷ [];
  labels = [];
}

secret_query : lower any_regex whole secret (hour []) ≡ ok secret_sql
unfolding lower join digits
secret_query = refl

lower-without_values_example :
    (t : Translation) × (lower any_text whole (blank secret) (blank_times (hour [])) ≡ ok t)
    × (secret_sql.sql ≡ t.sql)
lower-without_values_example =
    lower-without_values any_regex whole secret (hour []) secret_sql secret_query
