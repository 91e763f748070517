-- ===== src/Cep/Rules.antt =====
-- The error-rate rule of pkg/cep/cep.go, and what both rules share. Floating-point numbers are a type with the operations that the rules use.
use Prim.Native.String.{String}
use text.Mathlib.Text.{◌==◌ as str_eq}
use observe_x.Prelude.{ℕ, Bool, true, false, Option, none, some, List, [], if◌then◌else◌}
use observe_x.Prelude.Dict.{lookup, insert}
use observe_x.Signal.{Signal, SignalType, log, trace}
use observe_x.Cep.{SlidingWindow, new_sliding_window, add, sum}

pub record Floats (F : Type 0) : Type 0 where
  pub nought : F
  -- float64(count) / window.Seconds(), the window in nanoseconds.
  pub per_second : ℕ → ℕ → F
  pub quotient : F → F → F
  pub is_greater : F → F → Bool
  pub at_least : F → F → Bool
  -- strconv.ParseFloat
  pub parse_float : String → Option F

unfoldable pub or_unknown : Option String → String
or_unknown none = "unknown"
or_unknown (some s) = if str_eq s "" then "unknown" else s

unfoldable pub first_name : Option String → Option String → String
unfolding or_unknown
first_name none other = or_unknown other
first_name (some s) other = if str_eq s "" then or_unknown other else s

unfoldable pub service_name : Signal → String
unfolding first_name lookup
service_name sig =
    first_name (lookup "service.name" sig.attributes) (lookup "service_name" sig.attributes)

unfoldable pub is_log_or_trace : SignalType → Bool
is_log_or_trace log = true
is_log_or_trace trace = true
is_log_or_trace _ = false

unfoldable pub is_text : Option String → String → Bool
is_text none s = false
is_text (some t) s = str_eq t s

-- A lookup in the map of the services that are firing: a missing one is not.
unfoldable pub is_set : Option Bool → Bool
is_set none = false
is_set (some b) = b

unfoldable pub is_firing : String → List (String × Bool) → Bool
unfolding is_set lookup
is_firing service firing = is_set (lookup service firing)

-- The window of a service, a new one of minute buckets where it has none.
unfoldable pub window_or_new : ℕ → Option SlidingWindow → SlidingWindow
unfolding new_sliding_window
window_or_new window none = new_sliding_window window 60000000000
window_or_new window (some w) = w

-- The end of both Evaluate: an event on the edge over the threshold, and the reset below it.
unfoldable pub edge {ℓ} :
    {E : Type ℓ} → Bool → String → List (String × Bool) → E → List (String × Bool) × Option E
unfolding is_firing insert
edge over service firing event =
    if over
    then (if is_firing service firing
        then (firing, none)
        else (insert service true firing, some event))
    else (insert service false firing, none)

pub record ErrorRateEvent (F : Type 0) : Type 0 where
  pub tenant_id : String
  pub timestamp : ℕ
  pub service : String
  pub error_rate : F
  pub error_ratio : F
  pub total_rate : F
  pub window : ℕ

pub record HighErrorRateRule (F : Type 0) : Type 0 where
  pub tenant_id : String
  pub window : ℕ
  pub threshold : F
  pub totals : List (String × SlidingWindow)
  pub errors : List (String × SlidingWindow)
  pub firing : List (String × Bool)

unfoldable pub new_high_error_rate_rule : {F : Type 0} → String → ℕ → F → HighErrorRateRule F
new_high_error_rate_rule tenant window threshold = record {
  tenant_id = tenant;
  window = window;
  threshold = threshold;
  totals = [];
  errors = [];
  firing = [];
}

module _ {F : Type 0} (floats : Floats F) where
  unfoldable pub rate_per_sec : ℕ → SlidingWindow → F
  unfolding sum
  rate_per_sec now w = floats.per_second (sum now w) w.window

  unfoldable pub error_ratio_of : F → F → F
  error_ratio_of errors total =
      if floats.is_greater total floats.nought then floats.quotient errors total else floats.nought

  -- The windows of the service after the signal, all calls and errors.
  unfoldable pub total_window : HighErrorRateRule F → Signal → ℕ → SlidingWindow
  unfolding service_name window_or_new add
  total_window r sig now = add now 1 (window_or_new r.window (lookup (service_name sig) r.totals))

  unfoldable pub error_window : HighErrorRateRule F → Signal → ℕ → SlidingWindow
  unfolding service_name window_or_new add is_text
  error_window r sig now =
      let w = window_or_new r.window (lookup (service_name sig) r.errors) in
      if is_text (lookup "severity" sig.attributes) "ERROR" then add now 1 w else w

  unfoldable pub error_rate_event : HighErrorRateRule F → Signal → ℕ → ErrorRateEvent F
  unfolding rate_per_sec error_ratio_of total_window error_window
  error_rate_event r sig now =
      let error_rate = rate_per_sec now (error_window r sig now) in
      let total_rate = rate_per_sec now (total_window r sig now) in
      record {
        tenant_id = r.tenant_id;
        timestamp = now;
        service = service_name sig;
        error_rate = error_rate;
        error_ratio = error_ratio_of error_rate total_rate;
        total_rate = total_rate;
        window = r.window;
      }

  -- HighErrorRateRule.Evaluate at a time.
  unfoldable pub evaluate_error_rate :
      HighErrorRateRule F → Signal → ℕ → HighErrorRateRule F × Option (ErrorRateEvent F)
  unfolding is_log_or_trace error_rate_event edge
  evaluate_error_rate r sig now =
      let service = service_name sig in
      let event = error_rate_event r sig now in
      let outcome = edge (floats.at_least event.error_rate r.threshold) service r.firing event in
      if is_log_or_trace sig.signal_type
      then (
        record r {
          totals = insert service (total_window r sig now) r.totals;
          errors = insert service (error_window r sig now) r.errors;
          firing = outcome.0;
        },
        outcome.1,
      )
      else (r, none)
