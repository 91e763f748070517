-- ===== src/Supervisor/Tests.antt =====
-- Concrete runs of pkg/supervisor/supervisor.go.
use Prim.Native.String.{String}
use observe_x.Prelude.{ℕ, ◌≡◌, refl, true, false, List, [], ◌∷◌, arith}
use observe_x.Prelude.Dict.{lookup, insert}
use observe_x.Signal.{Signal, metric}
use observe_x.Actor.{new_tenant_actor, start}
use observe_x.Supervisor.{
  Options, Supervisor, ManagedActor, done, new_supervisor, with_defaults, route_to_tenant,
  get_or_create, sweep,
}
use observe_x.Supervisor.Routing.{route_isolated}
use observe_x.Supervisor.Quarantine.{sweep_all, one_crash_quarantines}
use observe_x.Supervisor.Invariant.{IsSoundSupervisor}
use observe_x.Supervisor.Reach.{here, next, routes, sweeps, Reach-IsSound}

abbrev no_rules : String → Unit {0} → List (Unit {0})
no_rules tenant o = []

abbrev two_restarts : Options (Unit {0})
two_restarts = record {
  mailbox_size = 1;
  max_restarts = 2;
  restart_window = 100;
  backoff_min = 5;
  backoff_max = 40;
  health_interval = 10;
  actor_options = tt;
  has_spillover = false;
}

abbrev sample : Signal
sample = record {
  tenant_id = "acme";
  signal_type = metric;
  payload = 1 ∷ [];
  attributes = [];
  received_at = 3;
}

abbrev crashed : ManagedActor (Unit {0}) (Unit {0})
crashed = record {
  serial = 0;
  actor = record (new_tenant_actor "acme" 1 tt) { stopped = true; inbox_closed = true };
  restarts = [];
  backoff_next = 5;
  quarantined = false;
}

abbrev gone : ManagedActor (Unit {0}) (Unit {0})
gone = record crashed { quarantined = true }

abbrev empty : Supervisor (Unit {0}) (Unit {0})
empty = new_supervisor two_restarts

abbrev with_gone : Supervisor (Unit {0}) (Unit {0})
with_gone = record empty { actors = ("acme", gone) ∷ [] }

abbrev after_first : Supervisor (Unit {0}) (Unit {0})
after_first = record empty {
  actors =
      (
        "acme",
        record crashed {
          actor = record (start no_rules (new_tenant_actor "acme" 1 tt)) { inbox = sample ∷ [] };
        },
      )
      ∷ [];
  next_serial = 1;
  total_routed = 1;
}

first_routed : route_to_tenant no_rules false "acme" sample empty ≡ done after_first
unfolding route_to_tenant new_supervisor with_defaults get_or_create new_tenant_actor start insert
    lookup
first_routed = refl

route_isolated_example : lookup "globex" after_first.actors ≡ lookup "globex" empty.actors
route_isolated_example =
    route_isolated no_rules false "acme" "globex" sample empty after_first refl first_routed

abbrev no_jitter : ℕ → ℕ
no_jitter n = n

one_crash_quarantines_example :
    (sweep_all no_jitter two_restarts (10 ∷ 20 ∷ 30 ∷ []) crashed).quarantined ≡ true
one_crash_quarantines_example =
    one_crash_quarantines no_jitter two_restarts 0 0 crashed (10 ∷ 20 ∷ 30 ∷ []) refl
      (unfold new_tenant_actor in refl) (omega arith)
      (omega arith, (omega arith, (omega arith, omega arith))) refl (omega arith)

Reach-IsSound_example : IsSoundSupervisor (sweep no_jitter 50 after_first)
Reach-IsSound_example =
    Reach-IsSound no_rules two_restarts (sweep no_jitter 50 after_first)
      (unfold with_defaults in (omega arith))
      (next (next here (routes false "acme" sample first_routed)) (
        sweeps no_jitter 50 {s = after_first} (λ n. omega arith)
          (unfold new_supervisor in (omega arith))))
