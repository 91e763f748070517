-- ===== src/LogQl/Total.antt =====
-- Translate of pkg/logql/logql.go as a whole.
use observe_x.Prelude.{ℕ, Bool, List, [], ◌∷◌, ◌++◌, length, length-append, ◌≡◌, ◌∙◌, refl, arith}
use observe_x.Prelude.Text.{Text, codes, text_eq, count}
use observe_x.Prelude.Marks.{marks, total, total-append}
use observe_x.PromQl.Run.{
  Ensures, returns, fails, Ensures->>=, Ensures-elim, Ensures-option, Ensures-intro,
}
use observe_x.LogQl.Parse.{trim, ends_in, drop_last, split_last, LqMatcher, LqLineFilter}
use observe_x.LogQl.Translate.{
  QueryParams, Arg, time_arg, limit_arg, Translation, split_call, metric_expr, step_seconds,
  with_defaults, parses_duration, matcher_clauses, filter_clauses, where_clauses, translate_logs,
  translate_metric, translate,
}
use observe_x.LogQl.Binding.{
  matcher_sql-fueled, matcher_sql-marks, line_filter_sql-fueled, line_filter_sql-marks,
  metric_expr-marks, log_text-marks, metric_text-marks,
}
use observe_x.LogQl.Fuel.{parse_stream_selector-Ensures, parse_line_filters-Ensures}

-- Clauses, and a translation, with one placeholder for each argument.
abbrev pub AreBound : List Text × List Arg → Type 0
AreBound c = total c.0 ≡ length c.1

abbrev pub IsBound : Translation → Type 0
IsBound t = marks t.sql ≡ length t.args

module _ (compiles reads_number : Text → Bool) where
  matcher_clauses-AreBound :
      (ms : List LqMatcher) → Ensures AreBound (matcher_clauses compiles reads_number ms)
  unfolding matcher_clauses
  matcher_clauses-AreBound [] = returns refl
  matcher_clauses-AreBound (m ∷ ms) =
      Ensures->>=
        (Ensures-intro (matcher_sql-fueled compiles reads_number m)
          (matcher_sql-marks compiles reads_number m))
        (λ s one.
          Ensures->>= (matcher_clauses-AreBound ms)
            (λ rest bound. returns (omega (arith, one, bound))))

  filter_clauses-AreBound :
      (fs : List LqLineFilter) → Ensures AreBound (filter_clauses compiles reads_number fs)
  unfolding filter_clauses
  filter_clauses-AreBound [] = returns refl
  filter_clauses-AreBound (f ∷ fs) =
      Ensures->>=
        (Ensures-intro (line_filter_sql-fueled compiles reads_number f)
          (line_filter_sql-marks compiles reads_number f))
        (λ s one.
          Ensures->>= (filter_clauses-AreBound fs)
            (λ rest bound. returns (omega (arith, one, bound))))

  where_clauses-AreBound :
      (q : Text) (p : QueryParams) → Ensures AreBound (where_clauses compiles reads_number q p)
  unfolding where_clauses count
  where_clauses-AreBound q p = Ensures->>= (parse_stream_selector-Ensures q) (λ s _.
      Ensures->>= (matcher_clauses-AreBound s.0) (λ ms bound.
        Ensures->>= (parse_line_filters-Ensures (length (trim s.1)) (trim s.1) (omega arith))
          (λ filters _. Ensures->>= (filter_clauses-AreBound filters) (λ fs bound'. returns (
            omega (
              arith,
              bound,
              bound',
              total-append ms.0 fs.0,
              total-append (ms.0 ++ fs.0) (codes "timestamp BETWEEN ? AND ?" ∷ []),
              length-append ms.1 fs.1,
              length-append (ms.1 ++ fs.1) (time_arg p.start ∷ time_arg p.end_at ∷ []),
            ))))))

  translate_logs-IsBound :
      (q : Text) (p : QueryParams) → Ensures IsBound (translate_logs compiles reads_number q p)
  unfolding translate_logs
  translate_logs-IsBound q p = Ensures->>= (where_clauses-AreBound q p) (λ c bound.
      returns
        (omega (arith, bound, log_text-marks c.0, length-append c.1 (limit_arg p.limit ∷ []))))

  translate_metric-IsBound :
      (name body : Text) (p : QueryParams)
      → Ensures IsBound (translate_metric compiles reads_number name body p)
  unfolding translate_metric
  translate_metric-IsBound name body p =
      Ensures-option (metric_expr name (step_seconds p.step)) (λ _. fails)
        (λ expr e.
          Ensures-option (split_last b'[' (trim body)) (λ _. fails)
            (λ split _.
              Ensures-elim (ends_in b']' (trim body))
                (λ _.
                  Ensures-elim (parses_duration compiles reads_number (drop_last split.1))
                    (λ _. Ensures->>= (where_clauses-AreBound (trim split.0) p) (λ c bound.
                      returns (
                        metric_text-marks expr c.0 (step_seconds p.step)
                          (metric_expr-marks name _ expr e)
                        ∙ bound)))
                    (λ _. fails))
                (λ _. fails)))

  -- Translate ends on every query and parameters. If it gives a translation, the SQL of that has exactly one placeholder for each argument to be bound.
  pub translate_ends-IsBound :
      (now : ℕ) (p : QueryParams) → Ensures IsBound (translate compiles reads_number now p)
  unfolding translate
  translate_ends-IsBound now p =
      Ensures-elim (text_eq p.query []) (λ _. fails)
        (λ _.
          Ensures-option (split_call (trim p.query))
            (λ _. translate_logs-IsBound (trim p.query) (with_defaults now p))
            (λ call _. translate_metric-IsBound call.0 call.1 (with_defaults now p)))
