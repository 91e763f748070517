-- ===== src/Engine/Tests.antt =====
-- Concrete runs of pkg/engine/engine.go.
use Prim.Native.String.{String}
use text.Mathlib.Text.{◌==◌ as str_eq}
use observe_x.Prelude.{ℕ, ◌≡◌, ◌⊎◌, refl, Bool, true, false, some, List, [], ◌∷◌, length, arith}
use observe_x.Prelude.Dict.{lookup}
use observe_x.Signal.{Signal, metric, trace, is_trace}
use observe_x.Actor.{new_tenant_actor, stop, send}
use observe_x.Supervisor.{
  Options, ManagedActor, new_supervisor, with_defaults, get_or_create, get_or_create_actor,
}
use observe_x.Wal.State.{Io}
use observe_x.Wal.Open.{Holds}
use observe_x.Wal.Append.{entry_at}
use observe_x.Wal.Sync.{IsOk}
use observe_x.Wal.Create.{first_segment, first_segment-Holds}
use observe_x.Engine.{ProcessingEngine, pipeline, enrich_stage, should_persist, persist, handle}
use observe_x.Engine.Handle.{pipeline_valid, handle_persists, handle_bypasses_spillover}

abbrev all_ok : Io
all_ok = record {
  mkdir_ok = true;
  read_dir_ok = true;
  sync_ok = true;
  unmap_ok = true;
  close_ok = true;
  open_ok = true;
  truncate_ok = true;
  mmap_ok = true;
}

abbrev no_rules : String → Unit {0} → List (Unit {0})
no_rules tenant o = []

abbrev keep_none : Unit {0} → Signal → Unit {0} × Bool
keep_none d sig = (d, false)

abbrev small_options : Options (Unit {0})
small_options = record {
  mailbox_size = 1;
  max_restarts = 2;
  restart_window = 100;
  backoff_min = 5;
  backoff_max = 40;
  health_interval = 10;
  actor_options = tt;
  has_spillover = true;
}

abbrev sample : Signal
sample = record {
  tenant_id = "acme";
  signal_type = metric;
  payload = 1 ∷ 2 ∷ [];
  attributes = [];
  received_at = 3;
}

abbrev alive : ManagedActor (Unit {0}) (Unit {0})
alive = record {
  serial = 0;
  actor = new_tenant_actor "acme" 0 tt;
  restarts = [];
  backoff_next = 5;
  quarantined = false;
}

abbrev engine_with :
    ManagedActor (Unit {0}) (Unit {0}) → ProcessingEngine (Unit {0}) (Unit {0}) (Unit {0})
engine_with m = record {
  wal = first_segment 64;
  sup = record (new_supervisor small_options) { actors = ("acme", m) ∷ [] };
  sampler = tt;
  ingest = [];
  ingest_buffer_size = 1;
  ingest_closed = false;
  signals_received = 0;
  signals_dropped = 0;
  wal_writes = 0;
  has_storage = true;
  stored = [];
}

abbrev any_json : List ℕ → Bool
any_json s = true

all_ok-IsOk : IsOk all_ok
all_ok-IsOk = record {
  makes_dir = refl;
  reads_dir = refl;
  syncs = refl;
  unmaps = refl;
  closes = refl;
  opens = refl;
  truncates = refl;
  maps = refl;
}

enriched : Signal
enriched = enrich_stage "now" sample

pipeline_valid_example :
    (str_eq enriched.tenant_id "" ≡ false)
    × (enriched.tenant_id ≡ sample.tenant_id)
    × (enriched.payload ≡ sample.payload)
    × (enriched.signal_type ≡ sample.signal_type)
    × ((length enriched.payload ≡ 0) ⊎ (any_json enriched.payload ≡ true))
pipeline_valid_example =
    pipeline_valid any_json "now" sample enriched (unfold pipeline enriched in refl)

stopped_one : ManagedActor (Unit {0}) (Unit {0})
stopped_one = record alive { actor = stop (new_tenant_actor "acme" 4 tt) }

handle_persists_example :
    (e' : ProcessingEngine (Unit {0}) (Unit {0}) (Unit {0})) × (handle no_rules keep_none all_ok 7
        sample
        (engine_with alive)
      ≡ some e')
    × (Holds e'.wal [] (entry_at 7 sample.payload ∷ [])
        ⊎ Holds e'.wal [] (entry_at 7 sample.payload ∷ []))
    × (e'.wal_writes ≡ 1)
    × (e'.stored ≡ sample ∷ [])
handle_persists_example =
    handle_persists no_rules keep_none all_ok 7 sample (engine_with alive) alive [] []
      (unfold lookup in refl) refl (unfold new_tenant_actor in refl)
      (unfold should_persist is_trace in refl) all_ok-IsOk (first_segment-Holds 64 (omega arith))
      (omega arith) (omega arith) (omega arith)

abbrev traced : Signal
traced = record sample { signal_type = trace }

-- The mailbox is full, and the sampler does not keep the trace.
full_handled :
    handle no_rules keep_none all_ok 7 traced (engine_with alive) ≡ some (engine_with alive)
unfolding handle get_or_create_actor get_or_create new_supervisor with_defaults lookup send
    new_tenant_actor persist should_persist is_trace
full_handled = refl

handle_bypasses_spillover_example :
    ((engine_with alive).sup.total_routed ≡ (engine_with alive).sup.total_routed)
    × ((engine_with alive).sup.total_dropped ≡ (engine_with alive).sup.total_dropped)
    × ((engine_with alive).sup.total_spilled ≡ (engine_with alive).sup.total_spilled)
handle_bypasses_spillover_example =
    handle_bypasses_spillover no_rules keep_none all_ok 7 traced (engine_with alive)
      (engine_with alive) full_handled
