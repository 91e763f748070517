-- ===== src/Cep/Latency.antt =====
-- The latency tracker of pkg/cep/cep.go and its rule.
use Prim.Native.String.{String}
use observe_x.Prelude.{
  ℕ, zero, suc, ◌+◌, ◌/◌, ◌%◌, Bool, not, ◌&&◌, Option, none, some, List, [], ◌∷◌, length, ltb, leb,
  ◌==◌, if◌then◌else◌, replicate,
}
use observe_x.Prelude.Dict.{lookup, insert}
use observe_x.Signal.{Signal, SignalType, is_trace}
use observe_x.Cep.Rules.{Floats, service_name, edge}

pub record LatencyBucket (F : Type 0) : Type 0 where
  pub epoch : ℕ
  pub max_ms : F

pub record LatencyTracker (F : Type 0) : Type 0 where
  pub buckets : List (LatencyBucket F)
  pub bucket_size : ℕ
  pub window : ℕ

pub record LatencyEvent (F : Type 0) : Type 0 where
  pub tenant_id : String
  pub timestamp : ℕ
  pub service : String
  pub peak_latency : F
  pub threshold : F
  pub window : ℕ

pub record HighLatencyRule (F : Type 0) : Type 0 where
  pub tenant_id : String
  pub window : ℕ
  pub threshold : F
  pub maxes : List (String × LatencyTracker F)
  pub firing : List (String × Bool)

unfoldable pub new_high_latency_rule : {F : Type 0} → String → ℕ → F → HighLatencyRule F
new_high_latency_rule tenant window threshold = record {
  tenant_id = tenant;
  window = window;
  threshold = threshold;
  maxes = [];
  firing = [];
}

module _ {F : Type 0} (floats : Floats F) where
  -- newLatencyTracker; a zero stands for every size that is not positive.
  unfoldable pub new_latency_tracker : ℕ → ℕ → LatencyTracker F
  new_latency_tracker window bucket_size =
      let size = if bucket_size == 0 then 60000000000 else bucket_size in
      let span = if ltb window size then size else window in
      let n = if ltb (span / size) 1 then 1 else span / size in
      record {
        buckets = replicate n (record { epoch = 0; max_ms = floats.nought });
        bucket_size = size;
        window = span;
      }

  unfoldable pub raise_bucket : ℕ → F → LatencyBucket F → LatencyBucket F
  raise_bucket epoch ms b =
      if not (b.epoch == epoch)
      then record { epoch = epoch; max_ms = ms }
      else (if floats.is_greater ms b.max_ms then record b { max_ms = ms } else b)

  unfoldable pub raise_at : ℕ → ℕ → F → List (LatencyBucket F) → List (LatencyBucket F)
  unfolding raise_bucket
  raise_at i epoch ms [] = []
  raise_at zero epoch ms (b ∷ bs) = raise_bucket epoch ms b ∷ bs
  raise_at (suc i) epoch ms (b ∷ bs) = b ∷ raise_at i epoch ms bs

  -- latencyTracker.observe.
  unfoldable pub observe_latency : ℕ → F → LatencyTracker F → LatencyTracker F
  unfolding raise_at
  observe_latency now ms l =
      let epoch = now / l.bucket_size in
      record l { buckets = raise_at (epoch % length l.buckets) epoch ms l.buckets }

  -- The loop of maxIn; the lower bound is compared without its subtraction.
  unfoldable pub max_buckets : ℕ → ℕ → F → List (LatencyBucket F) → F
  max_buckets span current m [] = m
  max_buckets span current m (b ∷ bs) =
      max_buckets span current
        (if ltb current (b.epoch + span) && (leb b.epoch current && floats.is_greater b.max_ms m)
          then b.max_ms
          else m)
        bs

  unfoldable pub max_in : ℕ → LatencyTracker F → F
  unfolding max_buckets
  max_in now l = max_buckets (length l.buckets) (now / l.bucket_size) floats.nought l.buckets

  unfoldable pub tracker_or_new : ℕ → Option (LatencyTracker F) → LatencyTracker F
  unfolding new_latency_tracker
  tracker_or_new window none = new_latency_tracker window 60000000000
  tracker_or_new window (some l) = l

  -- The duration of a trace.
  unfoldable pub duration_of : SignalType → Option String → Option F
  unfolding is_trace
  duration_of kind none = none
  duration_of kind (some s) = if is_trace kind then floats.parse_float s else none

  unfoldable pub tracker_after : HighLatencyRule F → Signal → ℕ → F → LatencyTracker F
  unfolding service_name tracker_or_new observe_latency
  tracker_after r sig now ms =
      observe_latency now ms (tracker_or_new r.window (lookup (service_name sig) r.maxes))

  unfoldable pub evaluate_duration :
      HighLatencyRule F → Signal → ℕ → Option F → HighLatencyRule F × Option (LatencyEvent F)
  unfolding service_name tracker_after max_in edge
  evaluate_duration r sig now none = (r, none)
  evaluate_duration r sig now (some ms) =
      let service = service_name sig in
      let tracker = tracker_after r sig now ms in
      let peak = max_in now tracker in
      let outcome = edge (floats.at_least peak r.threshold) service r.firing (record {
        tenant_id = r.tenant_id;
        timestamp = now;
        service = service;
        peak_latency = peak;
        threshold = r.threshold;
        window = r.window;
      }) in
      (record r { maxes = insert service tracker r.maxes; firing = outcome.0 }, outcome.1)

  -- HighLatencyRule.Evaluate at a time.
  unfoldable pub evaluate_latency :
      HighLatencyRule F → Signal → ℕ → HighLatencyRule F × Option (LatencyEvent F)
  unfolding duration_of evaluate_duration
  evaluate_latency r sig now =
      evaluate_duration r sig now
        (duration_of sig.signal_type (lookup "duration_ms" sig.attributes))
