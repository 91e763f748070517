-- ===== src/Wal/Sync.antt =====
-- syncLocked of pkg/wal/wal.go on an open log.
use observe_x.Prelude.{
  ◌≡◌, refl, ◌⊎◌, true, false, List, [], ◌++◌, map, arith, inl, inr, append_assoc, append-nil,
}
use observe_x.Wal.Entry.{Entry}
use observe_x.Wal.State.{Wal, Io, ok, fsync_active, sync_locked}
use observe_x.Wal.Open.{filled, file_of, sealed_entries, Holds, update_file-last}

-- Every system call succeeds.
pub record IsOk (io : Io) : Type 0 where
  pub makes_dir : io.mkdir_ok ≡ true
  pub reads_dir : io.read_dir_ok ≡ true
  pub syncs : io.sync_ok ≡ true
  pub unmaps : io.unmap_ok ≡ true
  pub closes : io.close_ok ≡ true
  pub opens : io.open_ok ≡ true
  pub truncates : io.truncate_ok ≡ true
  pub maps : io.mmap_ok ≡ true

-- A successful fsync puts all that is pending on the disk.
fsync_active-Holds :
    (w : Wal) (s u : List Entry) → Holds w s u → Holds (fsync_active w.segment_id w) (s ++ u) []
fsync_active-Holds w s u h = record {
  olds = h.olds;
  flushed = h.flushed ++ u;
  pad = h.pad;
  durable = filled (h.flushed ++ u) h.pad;
  roomy = h.roomy;
  synced_eq = rw (h.synced_eq) (append_assoc (sealed_entries h.olds) h.flushed u);
  files_eq =
      rw (h.files_eq, append-nil (h.flushed ++ u))
        (update_file-last _ _ 0 (map file_of h.olds) h.ascends);
  ascends = h.ascends;
  olds_valid = h.olds_valid;
  current_valid = rw (append-nil (h.flushed ++ u)) h.current_valid;
  sized = rw (append-nil (h.flushed ++ u)) h.sized;
  on_disk = inr (h.pad, refl, h.sized);
  offset = rw (append-nil (h.flushed ++ u)) h.offset;
  active = h.active;
  is_mapped = h.is_mapped;
  not_closed = h.not_closed;
  clean = λ d. refl;
}

-- syncLocked on an open log either fsyncs, or there was nothing to fsync.
sync_locked_cases :
    (io : Io) (w : Wal) (s u : List Entry)
    → io.sync_ok ≡ true
    → Holds w s u
    → ((sync_locked io w ≡ (w, ok)) × (w.dirty ≡ false))
      ⊎ (sync_locked io w ≡ (fsync_active w.segment_id w, ok))
unfolding sync_locked
sync_locked_cases io w s u io_ok h = ground (arith, h.active)

pub sync_locked-Holds :
    (io : Io) (w : Wal) (s u : List Entry)
    → io.sync_ok ≡ true
    → Holds w s u
    → (w' : Wal) × (sync_locked io w ≡ (w', ok))
      × Holds w' (s ++ u) []
      × (w'.segment_id ≡ w.segment_id)
      × (w'.max_segment_bytes ≡ w.max_segment_bytes)
sync_locked-Holds io w s u io_ok h = elim (sync_locked_cases io w s u io_ok h) [
  | inl (e, d) ↦ (w, e, rw (h.clean d, append-nil s) (rw (h.clean d) at h), refl, refl)
  | inr e ↦ (fsync_active w.segment_id w, e, fsync_active-Holds w s u h, refl, refl)
]
