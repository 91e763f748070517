-- ===== src/Supervisor/Preserve.antt =====
-- The operations of pkg/supervisor/supervisor.go that hand out actors, and the invariant.
use Prim.Native.String.{String}
use observe_x.Prelude.{
  ℕ, ◌+◌, ◌≡◌, Bool, ◌&&◌, some, List, [], ◌∷◌, arith, ◌==◌, Bool-cases, inl, inr, Option-cases,
}
use mathlib.Core.Path.{subst}
use observe_x.Prelude.Dict.{lookup, insert}
use observe_x.Signal.{Signal}
use observe_x.Actor.{TenantActor, Sent, delivered, full, send}
use observe_x.Supervisor.{
  Supervisor, ManagedActor, Options, done, route_to_tenant, get_or_create, fresh_managed, deliver,
  restart_actor, restart_entries, restart_one,
}
use observe_x.Supervisor.Invariant.{
  IsSound, AllSound, IsSoundSupervisor, lookup-AllSound, insert-AllSound,
}

module _ {R O : Type 0} (rules_of : String → O → List R) where
  restart_one-IsSound :
      (o : Options O) (now : ℕ) (k : String) (m : ManagedActor R O)
      → IsSound o now m
      → IsSound o now (restart_one rules_of o k m)
  unfolding restart_one
  restart_one-IsSound o now k m h = record {
    history = ground (arith, h.history);
    allowed = ground (arith, h.allowed);
    exceeded = ground (arith, h.exceeded);
    delay_low = ground (arith, h.delay_low);
    delay_high = ground (arith, h.delay_high);
  }

  restart_entries-AllSound :
      (o : Options O) (now target : ℕ) (ms : List (String × ManagedActor R O))
      → AllSound o now ms
      → AllSound o now (restart_entries rules_of o target ms)
  unfolding restart_entries
  restart_entries-AllSound o now target [] h = tt
  restart_entries-AllSound o now target ((k, m) ∷ ms) h = elim (Bool-cases (m.serial == target)) [
    | inl hit ↦
        rw (hit, restart_entries)
          (restart_one-IsSound o now k m h.0, restart_entries-AllSound o now target ms h.1)
    | inr miss ↦ rw (miss, restart_entries) (h.0, restart_entries-AllSound o now target ms h.1)
  ]

  pub restart-IsSound :
      (target : ℕ) (s : Supervisor R O)
      → IsSoundSupervisor s
      → IsSoundSupervisor (restart_actor rules_of target s)
  unfolding restart_actor
  restart-IsSound target s h = record {
    sound = restart_entries-AllSound s.opts s.last_health_at target s.actors h.sound;
    ordered = h.ordered;
  }

  fresh_managed-IsSound :
      (tenant : String) (s : Supervisor R O)
      → IsSoundSupervisor s
      → IsSound s.opts s.last_health_at (fresh_managed rules_of tenant s)
  unfolding fresh_managed
  fresh_managed-IsSound tenant s h = record {
    history = omega arith;
    allowed = λ _. omega arith;
    exceeded = λ e. cc;
    delay_low = omega arith;
    delay_high = h.ordered;
  }

  get_or_create-found :
      (tenant : String) (s : Supervisor R O) (m : ManagedActor R O)
      → lookup tenant s.actors ≡ some m
      → (get_or_create rules_of tenant s).0 ≡ s
  unfolding get_or_create
  get_or_create-found tenant s m found = ground arith

  pub get_or_create-IsSound :
      (tenant : String) (s : Supervisor R O)
      → IsSoundSupervisor s
      → IsSoundSupervisor (get_or_create rules_of tenant s).0
  unfolding get_or_create
  get_or_create-IsSound tenant s h = elim (Option-cases (lookup tenant s.actors)) [
    | inl missing ↦
        rw (missing, get_or_create)
          (record {
            sound =
                insert-AllSound s.opts s.last_health_at tenant (fresh_managed rules_of tenant s)
                  s.actors (fresh_managed-IsSound tenant s h) h.sound;
            ordered = h.ordered;
          })
    | inr (m, found) ↦ rw (get_or_create-found tenant s m found) h
  ]

  -- What getOrCreate hands out is sound.
  handed_out-IsSound :
      (tenant : String) (s : Supervisor R O) (m : ManagedActor R O)
      → IsSoundSupervisor s
      → (get_or_create rules_of tenant s).1 ≡ some m
      → IsSound s.opts s.last_health_at m
  unfolding get_or_create
  handed_out-IsSound tenant s m h e = elim (Option-cases (lookup tenant s.actors)) [
    | inl missing ↦
        let same : fresh_managed rules_of tenant s ≡ m = ground arith in
        subst (IsSound s.opts s.last_health_at) same (fresh_managed-IsSound tenant s h)
    | inr (n, found) ↦
        let same : n ≡ m = ground arith in
        subst (IsSound s.opts s.last_health_at) same
          (lookup-AllSound s.opts s.last_health_at tenant s.actors n h.sound found)
  ]

  get_or_create-opts :
      (tenant : String) (s : Supervisor R O)
      → ((get_or_create rules_of tenant s).0.opts ≡ s.opts)
        × ((get_or_create rules_of tenant s).0.last_health_at ≡ s.last_health_at)
  unfolding get_or_create
  get_or_create-opts tenant s = ground arith

  deliver-IsSound :
      (tenant : String) (m : ManagedActor R O) (push_ok : Bool) (r : Sent (TenantActor R O))
      (s s' : Supervisor R O)
      → IsSoundSupervisor s
      → IsSound s.opts s.last_health_at m
      → deliver rules_of tenant m push_ok r s ≡ done s'
      → IsSoundSupervisor s'
  deliver-IsSound tenant m push_ok (delivered a) s s' h v e =
      let next : Supervisor R O = record s {
        actors = insert tenant (record m { actor = a }) s.actors;
        total_routed = s.total_routed + 1;
      } in
      let same : next ≡ s' = ground arith in
      subst IsSoundSupervisor same (record {
        sound =
            insert-AllSound s.opts s.last_health_at tenant (record m { actor = a }) s.actors
              (record {
                history = v.history;
                allowed = v.allowed;
                exceeded = v.exceeded;
                delay_low = v.delay_low;
                delay_high = v.delay_high;
              })
              h.sound;
        ordered = h.ordered;
      })
  deliver-IsSound tenant m push_ok full s s' h v e =
      elim (Bool-cases (s.opts.has_spillover && push_ok)) [
        | inl spill ↦
            let next : Supervisor R O = record s { total_spilled = s.total_spilled + 1 } in
            let same : next ≡ s' = ground arith in
            subst IsSoundSupervisor same (record { sound = h.sound; ordered = h.ordered })
        | inr drop ↦
            let next : Supervisor R O = record s { total_dropped = s.total_dropped + 1 } in
            let same : next ≡ s' = ground arith in
            subst IsSoundSupervisor same (record { sound = h.sound; ordered = h.ordered })
      ]
  deliver-IsSound tenant m push_ok Sent.panic s s' h v e = cc

  -- A call of RouteToTenant that returns keeps the invariant.
  pub route-IsSound :
      (push_ok : Bool) (tenant : String) (sig : Signal) (s s' : Supervisor R O)
      → IsSoundSupervisor s
      → route_to_tenant rules_of push_ok tenant sig s ≡ done s'
      → IsSoundSupervisor s'
  unfolding route_to_tenant
  route-IsSound push_ok tenant sig s s' h e =
      elim (Option-cases (get_or_create rules_of tenant s).1) [
        | inl nil ↦
            let s1 = (get_or_create rules_of tenant s).0 in
            let next : Supervisor R O = record s1 { total_dropped = s1.total_dropped + 1 } in
            let same : next ≡ s' = ground arith in
            let h1 = get_or_create-IsSound tenant s h in
            subst IsSoundSupervisor same (record { sound = h1.sound; ordered = h1.ordered })
        | inr (m, out) ↦
            let s1 = (get_or_create rules_of tenant s).0 in
            let at = get_or_create-opts tenant s in
            deliver-IsSound tenant m push_ok (send sig m.actor) s1 s'
              (get_or_create-IsSound tenant s h)
              (rw (at.0, at.1) (handed_out-IsSound tenant s m h out)) (ground arith)
      ]
