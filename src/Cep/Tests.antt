-- ===== src/Cep/Tests.antt =====
-- Concrete runs of the rules and the sliding window of pkg/cep/cep.go.
use Prim.Native.String.{String}
use observe_x.Prelude.Dict.{lookup, insert}
use observe_x.Signal.{Signal, log, trace}
use observe_x.Cep.Rules.{Floats, HighErrorRateRule, is_firing, new_high_error_rate_rule}
use observe_x.Cep.Latency.{new_high_latency_rule, evaluate_latency}
use observe_x.Cep.Edges.{concerns, event_count, breach_list, rising, event_count-rising}
use observe_x.Prelude.{some, true, ltb, leb, ◌/◌, ℕ, ◌<◌, ◌≡◌, List, [], ◌∷◌, length, arith, refl}
use observe_x.Cep.{new_sliding_window, sum, add}
use observe_x.Cep.Window.{add_all, added, sum-added}

-- Three buckets of size 10; the call at 12 is out of the window at 45.
abbrev calls : List (ℕ × ℕ)
calls = (45, 4) ∷ (31, 2) ∷ (29, 1) ∷ (12, 8) ∷ []

sum-added_example :
    (0 < (new_sliding_window 30 10).bucket_size)
    × (0 < length (new_sliding_window 30 10).buckets)
    × (sum 45 (add_all calls (new_sliding_window 30 10))
        ≡ added
            (new_sliding_window 30 10).bucket_size
            (length (new_sliding_window 30 10).buckets)
            45
            calls)
sum-added_example =
    sum-added 30 10 45 calls (omega arith, (omega arith, (omega arith, (omega arith, tt))))

old_call_gone : sum 45 (add_all calls (new_sliding_window 30 10)) ≡ 7
unfolding sum new_sliding_window add add_all
old_call_gone = refl

-- Rates are the counts themselves.
abbrev count_floats : Floats ℕ
count_floats = record {
  nought = 0;
  per_second = λ count window. count;
  quotient = λ a b. a / b;
  is_greater = λ a b. ltb b a;
  at_least = λ a b. leb b a;
  parse_float = λ s. some 250;
}

abbrev error_log : String → Signal
error_log service = record {
  tenant_id = "acme";
  signal_type = log;
  payload = [];
  attributes = ("severity", "ERROR") ∷ (("service.name", service) ∷ []);
  received_at = 0;
}

abbrev error_rule : HighErrorRateRule ℕ
error_rule = new_high_error_rate_rule "acme" 60000000000 2

-- Two errors within a minute, one more, and after a quiet time two more.
abbrev error_calls : List (Signal × ℕ)
error_calls =
    (error_log "api", 1)
    ∷ ((error_log "db", 2)
        ∷ ((error_log "api", 3)
            ∷ ((error_log "api", 4)
                ∷ ((error_log "api", 300000000000) ∷ ((error_log "api", 300000000001) ∷ [])))))

event_count-rising_example :
    event_count count_floats "api" error_rule error_calls
    ≡ rising
        (is_firing "api" error_rule.firing)
        (breach_list count_floats "api" error_rule error_calls)
event_count-rising_example = event_count-rising count_floats "api" error_rule error_calls

two_events : event_count count_floats "api" error_rule error_calls ≡ 2
unfolding event_count concerns new_high_error_rate_rule lookup insert
two_events = refl

slow_trace_fires :
    is_firing "unknown"
      (evaluate_latency count_floats
        (new_high_latency_rule "acme" 60000000000 200)
        (record {
          tenant_id = "acme";
          signal_type = trace;
          payload = [];
          attributes = ("duration_ms", "250") ∷ [];
          received_at = 0;
        })
        5).0.firing
    ≡ true
unfolding is_firing evaluate_latency new_high_latency_rule lookup insert
slow_trace_fires = refl
