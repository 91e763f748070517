-- ===== src/Supervisor/Reach.antt =====
-- The states that a supervisor of pkg/supervisor/supervisor.go reaches, under any interleaving.
use Prim.Native.String.{String}
use observe_x.Prelude.{ℕ, ◌*◌, ◌≤◌, ◌≡◌, Bool, true, some, List, [], arith, inl, inr, ◌⊎◌}
use observe_x.Prelude.Dict.{lookup, insert}
use observe_x.Signal.{Signal}
use observe_x.Actor.{TenantActor}
use observe_x.Supervisor.{
  Supervisor, ManagedActor, Options, done, route_to_tenant, release_quarantine, sweep,
  restart_actor, new_supervisor, with_defaults, stop_all,
}
use observe_x.Supervisor.Invariant.{
  IsSoundSupervisor, lookup-AllSound, insert-AllSound, delete-AllSound, sweep-IsSound,
}
use observe_x.Supervisor.Preserve.{restart-IsSound, route-IsSound}

module _ {R O : Type 0} (rules_of : String → O → List R) where
  -- One step of a supervisor: a signal is routed, the monitor sweeps, a waiting restart comes due, an
  -- actor changes its own state, the operator releases a tenant, or the supervisor is stopped.
  pub data Step : Supervisor R O → Supervisor R O → Type 0 where
    routes :
        (push_ok : Bool) (tenant : String) (sig : Signal) {s s' : Supervisor R O}
        → route_to_tenant rules_of push_ok tenant sig s ≡ done s'
        → Step s s'
    sweeps :
        (jittered : ℕ → ℕ) (now : ℕ) {s : Supervisor R O}
        → ((n : ℕ) → n * 8 ≤ jittered n * 10)
        → s.last_health_at ≤ now
        → Step s (sweep jittered now s)
    restarts_due : (target : ℕ) {s : Supervisor R O} → Step s (restart_actor rules_of target s)
    acts :
        (tenant : String) (m : ManagedActor R O) (a : TenantActor R O) {s : Supervisor R O}
        → lookup tenant s.actors ≡ some m
        → Step s (record s { actors = insert tenant (record m { actor = a }) s.actors })
    releases : (tenant : String) {s : Supervisor R O} → Step s (release_quarantine tenant s)
    stops : {s : Supervisor R O} → Step s (stop_all s)

  pub data Reach (s : Supervisor R O) : Supervisor R O → Type 0 where
    here : Reach s s
    next : {t u : Supervisor R O} → Reach s t → Step t u → Reach s u

  stop_all_cases :
      (s : Supervisor R O)
      → (stop_all s ≡ s) ⊎ (stop_all s ≡ record s { stopped = true; actors = []; pending = [] })
  unfolding stop_all
  stop_all_cases s = ground arith

  Step-IsSound : {s s' : Supervisor R O} → Step s s' → IsSoundSupervisor s → IsSoundSupervisor s'
  Step-IsSound (routes push_ok tenant sig {s = s} {s' = s'} e) h =
      route-IsSound rules_of push_ok tenant sig s s' h e
  Step-IsSound (sweeps jittered now {s = s} j l) h = sweep-IsSound jittered j now s l h
  Step-IsSound (restarts_due target {s = s}) h = restart-IsSound rules_of target s h
  Step-IsSound (acts tenant m a {s = s} found) h =
      let v = lookup-AllSound s.opts s.last_health_at tenant s.actors m h.sound found in
      record {
        sound =
            insert-AllSound s.opts s.last_health_at tenant (record m { actor = a }) s.actors
              (record {
                history = v.history;
                allowed = v.allowed;
                exceeded = v.exceeded;
                delay_low = v.delay_low;
                delay_high = v.delay_high;
              })
              h.sound;
        ordered = h.ordered;
      }
  Step-IsSound (releases tenant {s = s}) h =
      unfold release_quarantine in
      (record {
        sound = delete-AllSound s.opts s.last_health_at tenant s.actors h.sound;
        ordered = h.ordered;
      })
  Step-IsSound (stops {s = s}) h = elim (stop_all_cases s) [
    | inl e ↦ rw e h
    | inr e ↦ rw e (record { sound = tt; ordered = h.ordered })
  ]

  -- In every state that a new supervisor reaches, with options whose least delay is not above the
  -- greatest: each actor's restart history is in order, an actor that is not quarantined has at most the
  -- allowed number of restarts in it and a quarantined one exactly one more, and each restart delay lies
  -- between the two bounds.
  pub Reach-IsSound :
      (o : Options O) (s : Supervisor R O)
      → (with_defaults o).backoff_min ≤ (with_defaults o).backoff_max
      → Reach (new_supervisor o) s
      → IsSoundSupervisor s
  Reach-IsSound o s l here = unfold new_supervisor in (record { sound = tt; ordered = l })
  Reach-IsSound o s l (next r st) = Step-IsSound st (Reach-IsSound o _ l r)
