-- ===== src/Actor/Tests.antt =====
-- Concrete runs of pkg/actor/actor.go.
use Prim.Native.String.{String}
use observe_x.Prelude.{ℕ, refl, Option, some, List, [], ◌∷◌}
use observe_x.Signal.{Signal, metric}
use observe_x.Actor.{
  TenantActor, new_tenant_actor, start, stop, send, Event, high_error_rate, holding, process,
  process_signal, receive,
}
use observe_x.Actor.Replay.{to_list}
use observe_x.Actor.Laws.{
  Life, born, took, refused, received, processed_one, ended, IsQueued, Life-IsQueued,
}

abbrev sample : ℕ → Signal
sample n = record {
  tenant_id = "acme";
  signal_type = metric;
  payload = n ∷ [];
  attributes = [];
  received_at = n;
}

abbrev one_rule : String → Unit {0} → List (Unit {0})
one_rule tenant o = tt ∷ []

-- A rule that fires on each signal.
abbrev always : Unit {0} → ℕ → Signal → Unit {0} × Option Event
always r now sig = (
  r,
  some (record {
    event_type = high_error_rate;
    tenant_id = "acme";
    timestamp = now;
    service = "unknown";
  }),
)

abbrev rules_at_start : List (Unit {0})
rules_at_start = tt ∷ []

-- Of three signals a mailbox of two takes two; one is processed, the other received, and the actor stops.
both_wait : TenantActor (Unit {0}) (Unit {0})
both_wait = record (start one_rule (new_tenant_actor "acme" 2 tt)) {
  inbox = sample 1 ∷ sample 2 ∷ [];
}

one_waits : TenantActor (Unit {0}) (Unit {0})
one_waits = record both_wait { inbox = sample 2 ∷ [] }

one_processed : TenantActor (Unit {0}) (Unit {0})
one_processed = (process_signal always 9 (sample 1) one_waits).0

final : TenantActor (Unit {0}) (Unit {0})
final = stop (record one_processed { inbox = [] })

fired : Event
fired = record {
  event_type = high_error_rate;
  tenant_id = "acme";
  timestamp = 9;
  service = "unknown";
}

short-Life :
    Life one_rule always rules_at_start final
      (holding (sample 2))
      (sample 1 ∷ sample 2 ∷ [])
      ((9, sample 1) ∷ [])
      (fired ∷ [])
unfolding both_wait one_waits one_processed final fired start new_tenant_actor send receive
    process_signal process to_list
short-Life = ended (
    received {a = one_processed}
      (processed_one {a = one_waits} 9 (sample 1) (
        received {a = both_wait}
          (refused (sample 3) (took (sample 2) (took (sample 1) (born "acme" 2 tt refl) refl) refl)
            refl)
          refl))
      refl)

Life-IsQueued_example :
    IsQueued one_rule always rules_at_start final
      (holding (sample 2))
      (sample 1 ∷ sample 2 ∷ [])
      ((9, sample 1) ∷ [])
      (fired ∷ [])
Life-IsQueued_example =
    Life-IsQueued one_rule always rules_at_start final (holding (sample 2))
      (sample 1 ∷ sample 2 ∷ []) ((9, sample 1) ∷ []) (fired ∷ []) short-Life
