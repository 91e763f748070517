-- ===== src/Engine.antt =====
-- pkg/engine/engine.go: the stages of the pipeline, the entry point and the step for each signal, over
-- the supervisor and the write-ahead log. Whether a payload is JSON (encoding/json), the sampler's
-- decision, the clock and the system calls are arguments; the metrics are left out, and what is handed
-- to the storage backend is kept as a list.
pub mod Handle
mod Tests
use Prim.Native.String.{String}
use text.Mathlib.Text.{◌==◌ as str_eq}
use observe_x.Prelude.{
  ℕ, zero, suc, ◌+◌, Bool, true, false, not, ◌&&◌, ◌||◌, Option, none, some, List, [], ◌∷◌, ◌++◌,
  length, ltb, ◌==◌, if◌then◌else◌,
}
use observe_x.Prelude.Dict.{lookup, insert}
use observe_x.Signal.{Signal, is_trace}
use observe_x.Actor.{TenantActor, Sent, delivered, full, send}
use observe_x.Supervisor.{Supervisor, ManagedActor, get_or_create_actor, set_actor_options}
use observe_x.Wal.State.{Wal, Io, Outcome, write}

-- The body of DecodeStage for one signal: it goes on unless it has a payload that is not JSON.
unfoldable pub decode_stage : (List ℕ → Bool) → Signal → Option Signal
decode_stage is_json sig =
    if ltb 0 (length sig.payload) && not (is_json sig.payload) then none else some sig

-- The body of ValidateStage.
unfoldable pub validate_stage : Signal → Option Signal
validate_stage sig = if str_eq sig.tenant_id "" then none else some sig

-- The body of EnrichStage; `stamp` is the formatted time.
unfoldable pub enrich_stage : String → Signal → Signal
enrich_stage stamp sig = record sig {
  attributes =
      insert "observex.ingested_at" stamp (insert "observex.version" "1.0.0" sig.attributes);
}

and_then : Option Signal → (Signal → Option Signal) → Option Signal
and_then none k = none
and_then (some sig) k = k sig

-- The three stages that Start chains, for one signal.
unfoldable pub pipeline : (List ℕ → Bool) → String → Signal → Option Signal
unfolding and_then decode_stage validate_stage enrich_stage
pipeline is_json stamp sig =
    and_then (decode_stage is_json sig)
      (λ a. and_then (validate_stage a) (λ b. some (enrich_stage stamp b)))

-- The numbers of Options; `F` stands for float64.
pub record Options (F : Type 0) : Type 0 where
  pub sampling_rate : F
  pub max_trace_queue : ℕ
  pub ingest_buffer_size : ℕ
  pub workers : ℕ

-- Options.withDefaults, where a zero stands for every number that is not positive.
unfoldable pub with_defaults : {F : Type 0} → (F → Bool) → F → ℕ → Options F → Options F
with_defaults is_positive tenth processors o = record o {
  sampling_rate = if is_positive o.sampling_rate then o.sampling_rate else tenth;
  max_trace_queue = if o.max_trace_queue == 0 then 1000 else o.max_trace_queue;
  ingest_buffer_size = if o.ingest_buffer_size == 0 then 65536 else o.ingest_buffer_size;
  workers = if o.workers == 0 then processors else o.workers;
}

pub record ProcessingEngine (R O D : Type 0) : Type 0 where
  pub wal : Wal
  pub sup : Supervisor R O
  pub sampler : D
  pub ingest : List Signal
  pub ingest_buffer_size : ℕ
  pub ingest_closed : Bool
  pub signals_received : ℕ
  pub signals_dropped : ℕ
  pub wal_writes : ℕ
  pub has_storage : Bool
  pub stored : List Signal

pub data Accepted {ℓ} (A : Type ℓ) : Type ℓ where
  ok : A → Accepted A
  overloaded : A → Accepted A
  panic : Accepted A

module _ {R O : Type 0} where
  -- The object of the tenant's actor is the one in the supervisor's map.
  abbrev pub put_actor : String → TenantActor R O → Supervisor R O → Supervisor R O
  put_actor tenant a s = elim (lookup tenant s.actors) [
    | none ↦ s
    | some m ↦ record s { actors = insert tenant (record m { actor = a }) s.actors }
  ]

module _ {R O D : Type 0} where
  -- ProcessSignal; a send to the closed channel panics.
  unfoldable pub process_signal :
      Signal → ProcessingEngine R O D → Accepted (ProcessingEngine R O D)
  process_signal sig e =
      if e.ingest_closed
      then panic
      else if ltb (length e.ingest) e.ingest_buffer_size
      then ok
          (record e { ingest = e.ingest ++ sig ∷ []; signals_received = e.signals_received + 1 })
      else overloaded (record e {
        signals_received = e.signals_received + 1;
        signals_dropped = e.signals_dropped + 1;
      })

  unfoldable pub set_alert_sink : O → ProcessingEngine R O D → ProcessingEngine R O D
  unfolding set_actor_options
  set_alert_sink sink e = record e { sup = set_actor_options sink e.sup }

  abbrev pub after_write :
      Signal → ProcessingEngine R O D → Wal × Outcome → Option (ProcessingEngine R O D)
  after_write sig e (w, Outcome.ok) = some (record e {
    wal = w;
    wal_writes = e.wal_writes + 1;
    stored = if e.has_storage then e.stored ++ sig ∷ [] else e.stored;
  })
  after_write sig e (w, Outcome.err _) = some (record e { wal = w })
  after_write sig e (w, Outcome.panic) = none

module _ {R O D : Type 0} (rules_of : String → O → List R) (decide : D → Signal → D × Bool) where
  -- shouldPersist, with the sampler's state.
  unfoldable pub should_persist : Signal → D → D × Bool
  should_persist sig d = if not (is_trace sig.signal_type) then (d, true) else decide d sig

  -- handle from the sampling decision on.
  unfoldable pub persist :
      Io → ℕ → Signal → ProcessingEngine R O D → Option (ProcessingEngine R O D)
  unfolding should_persist
  persist io now sig e =
      let (d, keep) = should_persist sig e.sampler in
      let sampled = record e { sampler = d } in
      if keep then after_write sig sampled (write io now sig.payload e.wal) else some sampled

  -- handle: none is a panic. A quarantined tenant has a nil actor, of which handle takes the mailbox.
  unfoldable pub handle : Io → ℕ → Signal → ProcessingEngine R O D → Option (ProcessingEngine R O D)
  unfolding persist
  handle io now sig e =
      let (sup', actor) = get_or_create_actor rules_of sig.tenant_id e.sup in
      elim actor [
        | none ↦ none
        | some a ↦ elim (send sig a) [
          | Sent.panic ↦ none
          | delivered a' ↦ persist io now sig (record e { sup = put_actor sig.tenant_id a' sup' })
          | full ↦ persist io now sig (record e { sup = sup' })
        ]
      ]

  -- worker, on the signals that come out of the pipeline: none is a panic.
  unfoldable pub work :
      (ℕ → Io) → ℕ → List Signal → ProcessingEngine R O D → Option (ProcessingEngine R O D)
  unfolding handle
  work io now [] e = some e
  work io now (sig ∷ sigs) e = elim (handle (io now) now sig e) [
    | none ↦ none
    | some e' ↦ work io (suc now) sigs e'
  ]
