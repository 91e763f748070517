-- ===== src/Wal/Write.antt =====
-- Write, Sync and Walk of pkg/wal/wal.go on an open log.
use observe_x.Prelude.{
  ℕ, ◌+◌, ◌≤◌, ◌<◌, ◌≡◌, ◌⊎◌, true, false, List, [], ◌∷◌, ◌++◌, length, ltb, if◌then◌else◌, arith,
  Bool-cases, inl, inr,
}
use observe_x.Wal.Bytes.{u64_mod}
use observe_x.Wal.Entry.{Entry, IsValid, log_header_size}
use observe_x.Wal.State.{
  Wal, Io, ok, err, append_entry, stored, closed_wal, payload_too_large, rotate, write,
  write_locked, write_check,
}
use observe_x.Wal.Open.{Holds}
use observe_x.Wal.State.{sync}
use observe_x.Wal.Append.{entry_at, append_entry-stored, stored-Holds}
use observe_x.Wal.Sync.{IsOk, sync_locked-Holds}
use observe_x.Wal.Rotate.{rotate-Holds}

write_room :
    (io : Io) (now : ℕ) (payload : List ℕ) (w : Wal) {s u : List Entry} {w' : Wal}
    → Holds w s u
    → log_header_size + length payload ≤ w.max_segment_bytes
    → ltb w.max_segment_bytes (w.write_offset + (log_header_size + length payload)) ≡ false
    → append_entry now payload w ≡ (w', ok)
    → write io now payload w ≡ (w', ok)
unfolding write_check write_locked write
write_room io now payload w h fits room e = ground (arith, h.not_closed, e)

write_full :
    (io : Io) (now : ℕ) (payload : List ℕ) (w w1 : Wal) {s u : List Entry} {w' : Wal}
    → Holds w s u
    → log_header_size + length payload ≤ w.max_segment_bytes
    → ltb w.max_segment_bytes (w.write_offset + (log_header_size + length payload)) ≡ true
    → rotate io w ≡ (w1, ok)
    → append_entry now payload w1 ≡ (w', ok)
    → write io now payload w ≡ (w', ok)
unfolding write_check write_locked write
write_full io now payload w w1 h fits full e e1 = ground (arith, h.not_closed, e, e1)

pub write_appends :
    (io : Io) (now : ℕ) (payload : List ℕ) (w : Wal) (s u : List Entry)
    → IsOk io
    → Holds w s u
    → IsValid (entry_at now payload)
    → log_header_size + length payload ≤ w.max_segment_bytes
    → w.segment_id + 1 < u64_mod
    → (w' : Wal) × (write io now payload w ≡ (w', ok))
      × (Holds w' s (u ++ entry_at now payload ∷ [])
          ⊎ Holds w' (s ++ u) (entry_at now payload ∷ []))
write_appends io now payload w s u k h v fits lt =
    elim (Bool-cases
      (ltb w.max_segment_bytes (w.write_offset + (log_header_size + length payload)))) [
        | inl full ↦
            let (w1, rotated, h1, start, size) = rotate-Holds io w s u k h lt in
            (
              stored (entry_at now payload) w1,
              write_full io now payload w w1 h fits full rotated
                  (append_entry-stored now payload w1 h1.is_mapped),
              inr (
                  stored-Holds (entry_at now payload) w1 (s ++ u) [] h1 v
                    (omega (arith, start, size))),
            )
        | inr room ↦ (
          stored (entry_at now payload) w,
          write_room io now payload w h fits room (append_entry-stored now payload w h.is_mapped),
          inl (stored-Holds (entry_at now payload) w s u h v (ground (arith, room))),
        )
      ]

-- On an open log whose fsync succeeds, Sync returns no error and all entries are synced.
pub sync-Holds :
    (io : Io) (w : Wal) (s u : List Entry)
    → io.sync_ok ≡ true
    → Holds w s u
    → (w' : Wal) × (sync io w ≡ (w', ok)) × Holds w' (s ++ u) []
unfolding sync
sync-Holds io w s u k h = let (w', e, h', _, _) = sync_locked-Holds io w s u k h in (w', e, h')

-- A refused Write changes nothing: a closed log refuses every payload, and an open one each payload that
-- no segment can hold.
write_refused :
    (io : Io) (now : ℕ) (payload : List ℕ) (w : Wal)
    → (w.closed ≡ true) ⊎ (w.max_segment_bytes < log_header_size + length payload)
    → write io now payload w ≡ (w, err (if w.closed then closed_wal else payload_too_large))
unfolding write write_check
write_refused io now payload w h = ground arith
