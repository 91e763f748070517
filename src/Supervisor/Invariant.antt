-- ===== src/Supervisor/Invariant.antt =====
-- What holds of every managed actor of pkg/supervisor/supervisor.go between two operations.
use Prim.Native.String.{String}
use text.Mathlib.Text.{◌==◌ as str_eq}
use observe_x.Prelude.{
  ℕ, ◌+◌, ◌-◌, ◌*◌, ◌≤◌, ◌≡◌, true, false, some, List, [], ◌∷◌, arith, length, length-append,
  Bool-cases, inl, inr,
}
use mathlib.Core.Path.{subst}
use observe_x.Prelude.Dict.{lookup, insert, delete}
use observe_x.Supervisor.{
  Supervisor, ManagedActor, Options, trim_before, sweep, sweep_one, sweep_entries,
}
use observe_x.Supervisor.Backoff.{
  Timeline, length-trim_before, trim_before-Timeline, Timeline-append, Timeline-raise,
  next_backoff_bounds,
}

module _ {R O : Type 0} where
  -- The restart history is in order and not ahead of the clock; an actor that is not quarantined has no
  -- more restarts than allowed, and a quarantined one has one more; the delay lies in its range.
  pub record IsSound (o : Options O) (now : ℕ) (m : ManagedActor R O) : Type 0 where
    pub history : Timeline 0 now m.restarts
    pub allowed : m.quarantined ≡ false → length m.restarts ≤ o.max_restarts
    pub exceeded : m.quarantined ≡ true → length m.restarts ≡ o.max_restarts + 1
    pub delay_low : o.backoff_min ≤ m.backoff_next
    pub delay_high : m.backoff_next ≤ o.backoff_max

  abbrev pub AllSound : Options O → ℕ → List (String × ManagedActor R O) → Type 0
  AllSound o now [] = Unit {0}
  AllSound o now ((k, m) ∷ rest) = IsSound o now m × AllSound o now rest

  pub record IsSoundSupervisor (s : Supervisor R O) : Type 0 where
    pub sound : AllSound s.opts s.last_health_at s.actors
    pub ordered : s.opts.backoff_min ≤ s.opts.backoff_max

  pub lookup-AllSound :
      (o : Options O) (now : ℕ) (k : String) (ms : List (String × ManagedActor R O))
      (m : ManagedActor R O)
      → AllSound o now ms
      → lookup k ms ≡ some m
      → IsSound o now m
  unfolding lookup
  lookup-AllSound o now k [] m h e = cc
  lookup-AllSound o now k ((j, n) ∷ ms) m h e = elim (Bool-cases (str_eq j k)) [
    | inl hit ↦ let same : n ≡ m = ground arith in subst (IsSound o now) same h.0
    | inr miss ↦ lookup-AllSound o now k ms m h.1 (rw (miss, lookup) at e)
  ]

  pub insert-AllSound :
      (o : Options O) (now : ℕ) (k : String) (m : ManagedActor R O)
      (ms : List (String × ManagedActor R O))
      → IsSound o now m
      → AllSound o now ms
      → AllSound o now (insert k m ms)
  unfolding insert
  insert-AllSound o now k m [] v h = (v, tt)
  insert-AllSound o now k m ((j, n) ∷ ms) v h = elim (Bool-cases (str_eq j k)) [
    | inl hit ↦ rw (hit, insert) (v, h.1)
    | inr miss ↦ rw (miss, insert) (h.0, insert-AllSound o now k m ms v h.1)
  ]

  pub delete-AllSound :
      (o : Options O) (now : ℕ) (k : String) (ms : List (String × ManagedActor R O))
      → AllSound o now ms
      → AllSound o now (delete k ms)
  unfolding delete
  delete-AllSound o now k [] h = tt
  delete-AllSound o now k ((j, n) ∷ ms) h = elim (Bool-cases (str_eq j k)) [
    | inl hit ↦ rw (hit, delete) (delete-AllSound o now k ms h.1)
    | inr miss ↦ rw (miss, delete) (h.0, delete-AllSound o now k ms h.1)
  ]

  module _ (jittered : ℕ → ℕ) (jitter_low : (n : ℕ) → n * 8 ≤ jittered n * 10) where
    sweep_one-IsSound :
        (o : Options O) (before now : ℕ) (m : ManagedActor R O)
        → before ≤ now
        → IsSound o before m
        → IsSound o now (sweep_one jittered o now m).0
    unfolding sweep_one
    sweep_one-IsSound o before now m l h =
        let recent = trim_before m.restarts (now - o.restart_window) in
        let trimmed = trim_before-Timeline 0 before m.restarts (now - o.restart_window) h.history in
        let kept = length-trim_before m.restarts (now - o.restart_window) in
        let raised = Timeline-raise 0 before now recent trimmed l in
        let longer = Timeline-append 0 before now recent trimmed l in
        let old = Timeline-raise 0 before now m.restarts h.history l in
        let size = length-append recent (now ∷ []) in
        let delay =
          next_backoff_bounds jittered m.backoff_next o.backoff_max jitter_low h.delay_high in
        record {
          history = ground (arith, raised, longer, old);
          allowed = ground (arith, kept, size, h.allowed);
          exceeded = ground (arith, kept, size, h.allowed, h.exceeded);
          delay_low = ground (arith, h.delay_low, delay);
          delay_high = ground (arith, h.delay_high, delay);
        }

    sweep_entries-AllSound :
        (o : Options O) (before now : ℕ) (ms : List (String × ManagedActor R O))
        → before ≤ now
        → AllSound o before ms
        → AllSound o now (sweep_entries jittered o now ms).0
    unfolding sweep_entries
    sweep_entries-AllSound o before now [] l h = tt
    sweep_entries-AllSound o before now ((k, m) ∷ ms) l h =
        (sweep_one-IsSound o before now m l h.0, sweep_entries-AllSound o before now ms l h.1)

    -- If the clock does not run backwards and the jitter takes at most a fifth off, a sweep keeps the
    -- invariant.
    pub sweep-IsSound :
        (now : ℕ) (s : Supervisor R O)
        → s.last_health_at ≤ now
        → IsSoundSupervisor s
        → IsSoundSupervisor (sweep jittered now s)
    unfolding sweep
    sweep-IsSound now s l h = record {
      sound = sweep_entries-AllSound s.opts s.last_health_at now s.actors l h.sound;
      ordered = h.ordered;
    }
