-- ===== src/Actor.antt =====
-- pkg/actor/actor.go, over the CEP rules of an actor, and Engine.Process of pkg/cep/cep.go.
pub mod Replay
pub mod Laws
mod Tests
use Prim.Native.String.{String}
use observe_x.Prelude.{
  ℕ, suc, ◌+◌, Bool, true, false, Option, none, some, List, [], ◌∷◌, ◌++◌, length, ltb,
  if◌then◌else◌,
}
use observe_x.Signal.{Signal, SignalType}

pub data EventType : Type 0 where
  high_error_rate high_latency : EventType

-- An event without the numbers that it carries for its reader.
pub record Event : Type 0 where
  pub event_type : EventType
  pub tenant_id : String
  pub timestamp : ℕ
  pub service : String

-- `evaluate` is the method of a rule: its state afterwards, and the event if it fires.
module _ {R : Type 0} (evaluate : R → ℕ → Signal → R × Option Event) where
  -- Engine.Process: the rules are asked in turn, until one fires.
  unfoldable pub process : List R → ℕ → Signal → List R × Option Event
  process [] now sig = ([], none)
  process (r ∷ rs) now sig =
      let (r', fired) = evaluate r now sig in
      let (rs', later) = process rs now sig in
      elim fired [ some ev ↦ (r' ∷ rs, some ev) | none ↦ (r' ∷ rs', later) ]

-- `O` stands for the options, which only the rules read.
pub record TenantActor (R O : Type 0) : Type 0 where
  pub tenant_id : String
  pub buffer_size : ℕ
  pub inbox : List Signal
  pub inbox_closed : Bool
  pub rules : List R
  pub opts : O
  pub stopped : Bool
  pub running : Bool
  pub processed : ℕ
  pub dropped : ℕ
  pub last_signal_type : Option SignalType
  pub last_event_type : Option EventType
  pub last_signal_at : ℕ
  pub last_event_at : ℕ

-- TenantActor.Stats.
pub record Stats : Type 0 where
  pub processed : ℕ
  pub dropped : ℕ
  pub last_signal_type : Option SignalType
  pub last_event_type : Option EventType
  pub last_signal_at : ℕ
  pub last_event_at : ℕ
  pub running : Bool

unfoldable pub stats : {R O : Type 0} → TenantActor R O → Stats
stats a = record {
  processed = a.processed;
  dropped = a.dropped;
  last_signal_type = a.last_signal_type;
  last_event_type = a.last_event_type;
  last_signal_at = a.last_signal_at;
  last_event_at = a.last_event_at;
  running = a.running;
}

-- What a send without blocking does to a mailbox.
pub data Sent {ℓ} (A : Type ℓ) : Type ℓ where
  delivered : A → Sent A
  full : Sent A
  panic : Sent A

module _ {R O : Type 0} where
  -- NewTenantActorWithOptions.
  unfoldable pub new_tenant_actor : String → ℕ → O → TenantActor R O
  new_tenant_actor tenant_id buffer_size opts = record {
    tenant_id = tenant_id;
    buffer_size = buffer_size;
    inbox = [];
    inbox_closed = false;
    rules = [];
    opts = opts;
    stopped = false;
    running = false;
    processed = 0;
    dropped = 0;
    last_signal_type = none;
    last_event_type = none;
    last_signal_at = 0;
    last_event_at = 0;
  }

  -- `rules_of` makes the two rules that Start adds; it also starts the goroutine that receives.
  unfoldable pub start : (String → O → List R) → TenantActor R O → TenantActor R O
  start rules_of a =
      if a.running
      then a
      else record a { running = true; rules = a.rules ++ rules_of a.tenant_id a.opts }

  unfoldable pub stop : TenantActor R O → TenantActor R O
  stop a =
      if a.stopped then a else record a { stopped = true; running = false; inbox_closed = true }

  -- The send of a signal to the mailbox in a select with a default; a closed channel panics.
  unfoldable pub send : Signal → TenantActor R O → Sent (TenantActor R O)
  send sig a =
      if a.inbox_closed
      then panic
      else if ltb (length a.inbox) a.buffer_size
      then delivered (record a { inbox = a.inbox ++ sig ∷ [] })
      else full

module _ {R O : Type 0} (evaluate : R → ℕ → Signal → R × Option Event) where
  -- processSignal, with the event that it publishes.
  unfoldable pub process_signal : ℕ → Signal → TenantActor R O → TenantActor R O × Option Event
  process_signal now sig a =
      let (rules', event) = process evaluate a.rules now sig in
      let seen = record a {
        rules = rules';
        processed = a.processed + 1;
        last_signal_type = some sig.signal_type;
        last_signal_at = now;
      } in
      elim event [
        | none ↦ (seen, none)
        | some ev ↦ (
          record seen { last_event_type = some ev.event_type; last_event_at = ev.timestamp },
          some ev,
        )
      ]

-- Where the goroutine of an actor stands: in its select, with a signal that it has received, or returned.
pub data Loop : Type 0 where
  selecting returned : Loop
  holding : Signal → Loop

module _ {R O : Type 0} where
  unfoldable pub receive_from : List Signal → TenantActor R O → Option (TenantActor R O × Loop)
  receive_from [] a = if a.inbox_closed then some (a, returned) else none
  receive_from (sig ∷ rest) a = some (record a { inbox = rest }, holding sig)

  -- The receive of the select: a closed mailbox gives what it still holds, and then ends the loop; an open one with nothing in it has the loop wait.
  unfoldable pub receive : TenantActor R O → Option (TenantActor R O × Loop)
  unfolding receive_from
  receive a = receive_from a.inbox a
