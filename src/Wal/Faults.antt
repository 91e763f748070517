-- ===== src/Wal/Faults.antt =====
-- Three situations of pkg/wal/wal.go: an empty payload, a Close during a Write, and a rotate that fails.
use observe_x.Prelude.{ℕ, ◌+◌, ◌≤◌, ◌≡◌, true, false, Option, none, List, [], ◌++◌, length, arith}
use observe_x.Wal.Entry.{Entry, log_header_size, encode_entry}
use observe_x.Wal.Scan.{encode_all, AllValid}
use observe_x.Wal.State.{
  Wal, Io, ok, err, panic, append_entry, open_failed, rotate, open_segment, close_active,
  sync_locked, unmap_locked, write, write_locked, write_check,
}
use observe_x.Wal.Open.{Holds}
use observe_x.Wal.Bytes.{get_u32}
use observe_x.Wal.Entry.{decode_entry}
use observe_x.Wal.Scan.{scan_valid_offset, walk_segment, visit}
use observe_x.Wal.Recovery.{segment_recovered}
use observe_x.Wal.Append.{entry_at}
use observe_x.Wal.Sync.{IsOk}
use observe_x.Wal.Bytes.{put_u32, put_u64}
use observe_x.Wal.State.{close, write_check}

-- An entry with an empty payload ends the recovery of its segment: whatever was written behind it is
-- neither scanned nor walked.
decode_entry-empty :
    (now : ℕ) (rest : List ℕ) → decode_entry (encode_entry (entry_at now []) ++ rest) ≡ none
unfolding decode_entry encode_entry put_u32 put_u64 get_u32
decode_entry-empty now rest = ground arith

-- Behind valid entries, an entry with an empty payload in the encoding of Write hides what follows it:
-- both recovery loops stop in front of it, so that later entries of the segment are neither walked nor
-- counted in the offset at which NewWAL goes on writing.
pub empty_payload_hides {ℓ κ} :
    {S : Type ℓ} {E : Type κ} (fn : Entry → S → S × Option E) (es lost : List Entry) (now : ℕ)
    (rest : List ℕ) (s : S)
    → AllValid es
    → let bytes = encode_all es ++ (encode_entry (entry_at now []) ++ (encode_all lost ++ rest)) in
      (scan_valid_offset bytes ≡ length (encode_all es)) × (walk_segment fn bytes s ≡ visit fn es s)
empty_payload_hides fn es lost now rest s v =
    segment_recovered fn es _ s v (decode_entry-empty now (encode_all lost ++ rest))

-- Write tests for a closed log before it waits for the lock. If Close runs in between, on an open log
-- and with no failing system call, a payload that fits the active segment makes Write panic.
pub write_close_race :
    (io : Io) (now : ℕ) (payload : List ℕ) (w : Wal) (s u : List Entry)
    → IsOk io
    → Holds w s u
    → w.write_offset + (log_header_size + length payload) ≤ w.max_segment_bytes
    → (write_check payload w ≡ ok)
      × ((close io w).1 ≡ ok)
      × ((write_locked io now payload (close io w).0).1 ≡ panic)
unfolding write_check close write_locked append_entry unmap_locked sync_locked
write_close_race io now payload w s u k h fits =
    ground (arith, k, h.not_closed, h.active, h.is_mapped)

-- A rotate that fails because the next segment cannot be opened leaves the old offset and no mapping:
-- the next Write panics if its entry fits behind that offset.
pub failed_rotate_panics :
    (io io' : Io) (now : ℕ) (payload : List ℕ) (w : Wal) (s u : List Entry)
    → io.sync_ok ≡ true
    → io.unmap_ok ≡ true
    → io.close_ok ≡ true
    → io.open_ok ≡ false
    → Holds w s u
    → w.write_offset + (log_header_size + length payload) ≤ w.max_segment_bytes
    → ((rotate io w).1 ≡ err open_failed) × ((write io' now payload (rotate io w).0).1 ≡ panic)
unfolding write write_check write_locked append_entry rotate open_segment close_active unmap_locked
    sync_locked
failed_rotate_panics io io' now payload w s u k1 k2 k3 k4 h fits =
    ground (arith, h.not_closed, h.active, h.is_mapped)
