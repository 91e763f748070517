-- ===== src/Engine/Handle.antt =====
-- What handle of pkg/engine/engine.go does with a signal.
use Prim.Native.String.{String}
use text.Mathlib.Text.{◌==◌ as str_eq}
use observe_x.Prelude.{
  ℕ, suc, ◌+◌, ◌≤◌, ◌<◌, ◌≡◌, refl, ◌∙◌, Bool, true, false, none, some, List, [], ◌∷◌, ◌++◌, length,
  ltb, if◌then◌else◌, arith, ◌⊎◌, inl, inr, Bool-cases, Option-cases,
}
use observe_x.Prelude.Dict.{lookup}
use observe_x.Signal.{Signal}
use observe_x.Actor.{send}
use observe_x.Supervisor.{Supervisor, ManagedActor, get_or_create_actor, get_or_create}
use observe_x.Wal.State.{Wal, Io, Outcome, write}
use observe_x.Wal.Bytes.{u64_mod}
use observe_x.Wal.Entry.{Entry, IsValid, log_header_size}
use observe_x.Wal.Open.{Holds}
use observe_x.Wal.Append.{entry_at}
use observe_x.Wal.Sync.{IsOk}
use observe_x.Wal.Write.{write_appends}
use observe_x.Engine.{
  ProcessingEngine, ok, overloaded, process_signal, handle, persist, should_persist, put_actor,
  work, pipeline,
}

-- Each call of ProcessSignal that returns counts its signal as received; it is either the last in the
-- channel, or refused as overload and counted as dropped, which happens exactly if the channel is full.
pub process_signal_counts :
    {R O D : Type 0} (sig : Signal) (e : ProcessingEngine R O D)
    → e.ingest_closed ≡ false
    → ((length e.ingest < e.ingest_buffer_size)
        × (e' : ProcessingEngine R O D) × (process_signal sig e ≡ ok e')
        × (e'.ingest ≡ e.ingest ++ sig ∷ [])
        × (e'.signals_received ≡ e.signals_received + 1)
        × (e'.signals_dropped ≡ e.signals_dropped))
      ⊎ ((e.ingest_buffer_size ≤ length e.ingest)
          × (e' : ProcessingEngine R O D) × (process_signal sig e ≡ overloaded e')
          × (e'.ingest ≡ e.ingest)
          × (e'.signals_received ≡ e.signals_received + 1)
          × (e'.signals_dropped ≡ e.signals_dropped + 1))
unfolding process_signal
process_signal_counts sig e open' = elim (Bool-cases (ltb (length e.ingest) e.ingest_buffer_size)) [
  | inl room ↦ inl (
    ground (arith, room),
    record e { ingest = e.ingest ++ sig ∷ []; signals_received = e.signals_received + 1 },
    ground arith,
    refl,
    refl,
    refl,
  )
  | inr no_room ↦ inr (
    ground (arith, no_room),
    record e { signals_received = e.signals_received + 1; signals_dropped = e.signals_dropped + 1 },
    ground arith,
    refl,
    refl,
    refl,
  )
]

-- What leaves the pipeline names a tenant, keeps its payload, type and tenant, and has no payload that
-- is not JSON.
pub pipeline_valid :
    (is_json : List ℕ → Bool) (stamp : String) (sig out : Signal)
    → pipeline is_json stamp sig ≡ some out
    → (str_eq out.tenant_id "" ≡ false)
      × (out.tenant_id ≡ sig.tenant_id)
      × (out.payload ≡ sig.payload)
      × (out.signal_type ≡ sig.signal_type)
      × ((length out.payload ≡ 0) ⊎ (is_json out.payload ≡ true))
unfolding pipeline
pipeline_valid is_json stamp sig out h = ground arith

module _ {R O D : Type 0} (rules_of : String → O → List R) (decide : D → Signal → D × Bool) where
  -- A signal of a quarantined tenant makes handle panic: GetOrCreateActor returns nil.
  handle_quarantined_panics :
      (io : Io) (now : ℕ) (sig : Signal) (e : ProcessingEngine R O D) (m : ManagedActor R O)
      → lookup sig.tenant_id e.sup.actors ≡ some m
      → m.quarantined ≡ true
      → handle rules_of decide io now sig e ≡ none
  unfolding handle get_or_create_actor get_or_create
  handle_quarantined_panics io now sig e m found q = ground arith

  -- So does a signal of a tenant whose actor has been stopped and not been restarted yet.
  pub handle_stopped_panics :
      (io : Io) (now : ℕ) (sig : Signal) (e : ProcessingEngine R O D) (m : ManagedActor R O)
      → lookup sig.tenant_id e.sup.actors ≡ some m
      → m.quarantined ≡ false
      → m.actor.inbox_closed ≡ true
      → handle rules_of decide io now sig e ≡ none
  unfolding handle get_or_create_actor get_or_create send
  handle_stopped_panics io now sig e m found q c = ground arith

  persist_writes :
      (io : Io) (now : ℕ) (sig : Signal) (e : ProcessingEngine R O D) (w' : Wal)
      → (should_persist rules_of decide sig e.sampler).1 ≡ true
      → write io now sig.payload e.wal ≡ (w', Outcome.ok)
      → (e' : ProcessingEngine R O D) × (persist rules_of decide io now sig e ≡ some e')
        × (e'.wal ≡ w')
        × (e'.sup ≡ e.sup)
        × (e'.wal_writes ≡ e.wal_writes + 1)
        × (e'.stored ≡ (if e.has_storage then e.stored ++ sig ∷ [] else e.stored))
  unfolding persist
  persist_writes io now sig e w' k h = (
    record e {
      sampler = (should_persist rules_of decide sig e.sampler).0;
      wal = w';
      wal_writes = e.wal_writes + 1;
      stored = if e.has_storage then e.stored ++ sig ∷ [] else e.stored;
    },
    ground arith,
    refl,
    refl,
    refl,
    refl,
  )

  -- What handle goes on with, once the tenant's actor has been offered the signal.
  handle_offers :
      (io : Io) (now : ℕ) (sig : Signal) (e : ProcessingEngine R O D) (m : ManagedActor R O)
      → lookup sig.tenant_id e.sup.actors ≡ some m
      → m.quarantined ≡ false
      → m.actor.inbox_closed ≡ false
      → (s' : Supervisor R O) × (handle rules_of decide io now sig e
          ≡ persist rules_of decide io now sig (record e { sup = s' }))
  unfolding handle get_or_create_actor get_or_create send
  handle_offers io now sig e m found q c =
      elim (Bool-cases (ltb (length m.actor.inbox) m.actor.buffer_size)) [
        | inl room ↦ (
          put_actor sig.tenant_id (record m.actor { inbox = m.actor.inbox ++ sig ∷ [] }) e.sup,
          ground arith,
        )
        | inr no_room ↦ (e.sup, ground arith)
      ]

  -- A signal that the sampler keeps, of a tenant whose actor can be offered it, is in the log after
  -- handle, also if the actor's mailbox is full. Needed are an open log that is not at
  -- the last segment number, no failing system call, a time of 64 bits, and a payload that is not empty
  -- and fits a segment. The write is counted, and the signal is handed to the storage backend if there is
  -- one.
  pub handle_persists :
      (io : Io) (now : ℕ) (sig : Signal) (e : ProcessingEngine R O D) (m : ManagedActor R O)
      (s u : List Entry)
      → lookup sig.tenant_id e.sup.actors ≡ some m
      → m.quarantined ≡ false
      → m.actor.inbox_closed ≡ false
      → (should_persist rules_of decide sig e.sampler).1 ≡ true
      → IsOk io
      → Holds e.wal s u
      → IsValid (entry_at now sig.payload)
      → log_header_size + length sig.payload ≤ e.wal.max_segment_bytes
      → e.wal.segment_id + 1 < u64_mod
      → (e' : ProcessingEngine R O D) × (handle rules_of decide io now sig e ≡ some e')
        × (Holds e'.wal s (u ++ entry_at now sig.payload ∷ [])
            ⊎ Holds e'.wal (s ++ u) (entry_at now sig.payload ∷ []))
        × (e'.wal_writes ≡ e.wal_writes + 1)
        × (e'.stored ≡ (if e.has_storage then e.stored ++ sig ∷ [] else e.stored))
  handle_persists io now sig e m s u found q c keep k h v fits lt =
      let (s', offered) = handle_offers io now sig e m found q c in
      let (w', written, held) = write_appends io now sig.payload e.wal s u k h v fits lt in
      let (e', done', same, _, counted, kept) =
        persist_writes io now sig (record e { sup = s' }) w' keep written in
      (e', offered ∙ done', rw same held, counted, kept)

  -- handle sends to the mailbox itself: no signal that it takes is ever counted as routed, as dropped or as
  -- spilled by the supervisor, so the spillover is never used.
  pub handle_bypasses_spillover :
      (io : Io) (now : ℕ) (sig : Signal) (e e' : ProcessingEngine R O D)
      → handle rules_of decide io now sig e ≡ some e'
      → (e'.sup.total_routed ≡ e.sup.total_routed)
        × (e'.sup.total_dropped ≡ e.sup.total_dropped)
        × (e'.sup.total_spilled ≡ e.sup.total_spilled)
  unfolding handle get_or_create_actor get_or_create
  handle_bypasses_spillover io now sig e e' h = ground arith

  -- Until it panics, no signal that a worker handles is counted by the supervisor either.
  work_bypasses :
      (io : ℕ → Io) (now : ℕ) (sigs : List Signal) (e e' : ProcessingEngine R O D)
      → work rules_of decide io now sigs e ≡ some e'
      → (e'.sup.total_routed ≡ e.sup.total_routed)
        × (e'.sup.total_dropped ≡ e.sup.total_dropped)
        × (e'.sup.total_spilled ≡ e.sup.total_spilled)
  unfolding work
  work_bypasses io now [] e e' h = ground arith
  work_bypasses io now (sig ∷ sigs) e e' h =
      elim (Option-cases (handle rules_of decide (io now) now sig e)) [
        | inl p ↦ let clash : true ≡ false = ground arith in cc
        | inr (e1, p) ↦
            let (a, b, c) = handle_bypasses_spillover (io now) now sig e e1 p in
            let (a', b', c') = work_bypasses io (suc now) sigs e1 e' (rw (work, p) at h) in
            (a' ∙ a, b' ∙ b, c' ∙ c)
      ]
