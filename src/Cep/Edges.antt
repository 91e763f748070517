-- ===== src/Cep/Edges.antt =====
-- When the rules of pkg/cep/cep.go fire.
use Prim.Native.String.{String}
use text.Mathlib.Text.{◌==◌ as str_eq}
use text.Mathlib.TextEquality.{eq_iff}
use observe_x.Prelude.{
  ℕ, ◌+◌, Bool, true, false, not, ◌&&◌, Option, none, some, List, [], ◌∷◌, ◌≡◌, refl, arith, ap,
  ◌∙◌, if◌then◌else◌,
}
use observe_x.Prelude.Dict.{lookup, insert, lookup-insert}
use observe_x.Signal.{Signal}
use observe_x.Cep.Rules.{
  Floats, ErrorRateEvent, HighErrorRateRule, is_firing, is_set, edge, is_log_or_trace, service_name,
  rate_per_sec, error_window, error_rate_event, evaluate_error_rate,
}

is_firing-insert :
    (service other : String) (b : Bool) (firing : List (String × Bool))
    → is_firing other (insert service b firing)
      ≡ (if str_eq service other then b else is_firing other firing)
unfolding is_firing is_set
is_firing-insert service other b firing =
    ap is_set (lookup-insert service other b firing) ∙ by_test (str_eq service other)
  where
    by_test :
        (test : Bool)
        → is_set (if test then some b else lookup other firing)
          ≡ (if test then b else is_set (lookup other firing))
    by_test true = refl
    by_test false = refl

edge-is_firing :
    {E : Type 0} (over : Bool) (service other : String) (firing : List (String × Bool)) (event : E)
    → is_firing other (edge over service firing event).0
      ≡ (if str_eq service other then over else is_firing other firing)
unfolding edge
edge-is_firing over service other firing event = ground (
  arith,
  eq_iff service other,
  is_firing-insert service other true firing,
  is_firing-insert service other false firing,
)

edge-event :
    {E : Type 0} (over : Bool) (service : String) (firing : List (String × Bool)) (event : E)
    → (edge over service firing event).1
      ≡ (if over && not (is_firing service firing) then some event else none)
unfolding edge
edge-event over service firing event = ground arith

-- How often a sequence goes from false to true.
unfoldable pub rising : Bool → List Bool → ℕ
rising before [] = 0
rising before (b ∷ bs) = let rest = rising b bs in if b && not before then rest + 1 else rest

module _ {F : Type 0} (floats : Floats F) where
  -- The error rate of the service of a signal, with the signal, is at the threshold or over it.
  unfoldable pub breaches : HighErrorRateRule F → Signal → ℕ → Bool
  unfolding rate_per_sec error_window
  breaches r sig now =
      floats.at_least (rate_per_sec floats now (error_window floats r sig now)) r.threshold

  unfoldable pub concerns : String → Signal → Bool
  unfolding service_name is_log_or_trace
  concerns service sig = is_log_or_trace sig.signal_type && str_eq (service_name sig) service

  evaluate_error_rate-is_firing :
      (r : HighErrorRateRule F) (sig : Signal) (now : ℕ) (service : String)
      → is_firing service (evaluate_error_rate floats r sig now).0.firing
        ≡ (if concerns service sig then breaches r sig now else is_firing service r.firing)
  unfolding evaluate_error_rate breaches concerns error_rate_event
  evaluate_error_rate-is_firing r sig now service = ground (
    arith,
    edge-is_firing (breaches r sig now) (service_name sig) service r.firing
        (error_rate_event floats r sig now),
  )

  -- An evaluation gives an event exactly when the rate reaches the threshold and the service was not firing.
  evaluate_error_rate-event :
      (r : HighErrorRateRule F) (sig : Signal) (now : ℕ)
      → (evaluate_error_rate floats r sig now).1 ≡ (
          if is_log_or_trace sig.signal_type
            && (breaches r sig now && not (is_firing (service_name sig) r.firing))
          then some (error_rate_event floats r sig now)
          else none)
  unfolding evaluate_error_rate breaches error_rate_event
  evaluate_error_rate-event r sig now = ground (
    arith,
    edge-event (breaches r sig now) (service_name sig) r.firing (error_rate_event floats r sig now),
  )

  -- Whether the rate is at the threshold, at each call of a run that concerns the service.
  unfoldable pub breach_list : String → HighErrorRateRule F → List (Signal × ℕ) → List Bool
  unfolding evaluate_error_rate
  breach_list service r [] = []
  breach_list service r (c ∷ cs) =
      let rest = breach_list service (evaluate_error_rate floats r c.0 c.1).0 cs in
      if concerns service c.0 then breaches r c.0 c.1 ∷ rest else rest

  unfoldable is_event : Option (ErrorRateEvent F) → Bool
  is_event none = false
  is_event (some _) = true

  -- The events of a run for the service.
  unfoldable pub event_count : String → HighErrorRateRule F → List (Signal × ℕ) → ℕ
  unfolding evaluate_error_rate is_event
  event_count service r [] = 0
  event_count service r (c ∷ cs) =
      let rest = event_count service (evaluate_error_rate floats r c.0 c.1).0 cs in
      if concerns service c.0 && is_event (evaluate_error_rate floats r c.0 c.1).1
      then rest + 1
      else rest

  fires :
      (r : HighErrorRateRule F) (sig : Signal) (now : ℕ) (service : String)
      → concerns service sig ≡ true
      → is_event (evaluate_error_rate floats r sig now).1
        ≡ (breaches r sig now && not (is_firing service r.firing))
  unfolding concerns is_event
  fires r sig now service h =
      ground (arith, evaluate_error_rate-event r sig now, eq_iff (service_name sig) service, h)

  -- In any run of the rule, with signals of all services and types, a service has as many events as its rate has risen to the threshold: from a call below it, or from the start, to a call at it or over it. While the rate stays there, no further event comes.
  pub event_count-rising :
      (service : String) (r : HighErrorRateRule F) (calls : List (Signal × ℕ))
      → event_count service r calls
        ≡ rising (is_firing service r.firing) (breach_list service r calls)
  unfolding event_count breach_list rising
  event_count-rising service r [] = refl
  event_count-rising service r (c ∷ cs) = ground (
    arith,
    event_count-rising service (evaluate_error_rate floats r c.0 c.1).0 cs,
    fires r c.0 c.1 service,
    evaluate_error_rate-is_firing r c.0 c.1 service,
  )
