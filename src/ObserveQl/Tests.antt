-- ===== src/ObserveQl/Tests.antt =====
-- Concrete runs of pkg/observeql/planner.go.
use observe_x.Prelude.{ℕ, ◌≡◌, refl, Option, none, some, [], ◌∷◌}
use observe_x.Prelude.Text.{Text, codes, text_eq}
use observe_x.ObserveQl.Ast.{
  ident, text, number, ge, eq, or_expr, no_ands, more_ands, and_expr, no_cmps, predicate, negation,
  named, call, star, columns, Query,
}
use observe_x.ObserveQl.Render.{ok, render_or}
use observe_x.ObserveQl.Planner.{
  PlannerOptions, with_defaults, plan_query, source_of, plan_source, render_select, render_where,
  since_of, render_group, stitch,
}
use observe_x.ObserveQl.Placeholders.{Always}
use observe_x.ObserveQl.Binding.{IsBound, plan_query_binds}
use observe_x.ObserveQl.Injection.{text_of, blank_query, plan_query_blank}

-- SELECT service_name, COUNT(*) FROM logs WHERE severity = 'x' OR NOT body = 7 GROUP BY service_name LIMIT 50
abbrev errors : Query ℕ
errors = record {
  select = columns (named (codes "service_name") ∷ call (codes "COUNT") star ∷ []);
  source = codes "logs";
  where_expr = some (
      or_expr
        (and_expr
          (predicate
            (record { lhs = ident (codes "severity"); op = eq; rhs = text (codes "?' OR 1=1") }))
          no_cmps)
        (more_ands
          (and_expr
            (negation (predicate (record { lhs = ident (codes "body"); op = ge; rhs = number 7 })))
            no_cmps)
          no_ands));
  group_by = codes "service_name" ∷ [];
  since = none;
  limit = some 50;
}

abbrev acme : PlannerOptions
acme = record { tenant_id = codes "acme"; max_row_limit = 0; default_since = 0 }

abbrev other : PlannerOptions
other = record { tenant_id = codes "o'ther"; max_row_limit = 5; default_since = 9 }

abbrev no_duration : Text → Option ℕ
no_duration t = none

planned_text :
    text_of (plan_query no_duration 7 errors acme)
    ≡ ok (
        codes
          "SELECT `service_name`, count(*) FROM `logs` WHERE tenant_id = ? AND ((`severity` = ? OR NOT (`body` >= ?))) AND `timestamp` >= ? GROUP BY `service_name` ORDER BY `timestamp` DESC LIMIT ?")
unfolding plan_query text_eq source_of plan_source render_select render_where render_or since_of
    render_group stitch
planned_text = refl

plan_query_binds_example :
    Always
      (IsBound no_duration 7 errors (with_defaults acme))
      (plan_query no_duration 7 errors acme)
plan_query_binds_example = plan_query_binds no_duration 7 errors acme

plan_query_blank_example :
    text_of (plan_query no_duration 7 errors acme)
    ≡ text_of (plan_query no_duration 8 (blank_query errors) other)
plan_query_blank_example =
    plan_query_blank no_duration 7 8 errors acme other (unfold text_eq in refl)
      (unfold text_eq in refl)
