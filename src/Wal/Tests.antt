-- ===== src/Wal/Tests.antt =====
-- Concrete runs of the log of pkg/wal/wal.go.
use observe_x.Prelude.{
  ℕ, ◌+◌, ◌≡◌, refl, true, false, Option, none, List, [], ◌∷◌, ◌++◌, length, arith, inr,
}
use observe_x.Prelude.Text.{codes, text_eq}
use observe_x.Auth.{is_space}
use observe_x.Wal.Directory.{
  has_suffix, skip_space, take_digits, segment_name, segment_id_of, segment_id_of-segment_name,
}
use observe_x.Wal.Entry.{Entry, IsValid, encode_entry, log_header_size, decode-encode_entry}
use observe_x.Wal.Scan.{encode_all, AllValid}
use observe_x.Wal.State.{
  Wal, Io, ok, err, panic, stored, open_failed, rotate, write, write_locked, write_check,
}
use observe_x.Wal.Open.{Holds}
use observe_x.Wal.Entry.{decode_entry}
use observe_x.Wal.Scan.{scan_valid_offset, walk_segment, visit}
use observe_x.Wal.Recovery.{segment_recovered}
use observe_x.Wal.State.{walk}
use observe_x.Wal.Append.{entry_at, stored-Holds}
use observe_x.Wal.Sync.{IsOk}
use observe_x.Wal.State.{SegmentFile, new_wal, sync}
use observe_x.Wal.View.{lift, walk-Holds}
use observe_x.Wal.Create.{first_segment, first_segment-Holds}
use observe_x.Wal.Mixing.{Mixed}
use observe_x.Wal.Crash.{Leaves}
use observe_x.Wal.Reopen.{Resumed, crash_recovers}
use observe_x.Wal.Write.{sync-Holds}
use observe_x.Wal.Soundness.{segment_sound}
use observe_x.Wal.State.{close, write_check}
use observe_x.Wal.Faults.{empty_payload_hides, write_close_race, failed_rotate_panics}

abbrev all_ok : Io
all_ok = record {
  mkdir_ok = true;
  read_dir_ok = true;
  sync_ok = true;
  unmap_ok = true;
  close_ok = true;
  open_ok = true;
  truncate_ok = true;
  mmap_ok = true;
}

all_ok-IsOk : IsOk all_ok
all_ok-IsOk = record {
  makes_dir = refl;
  reads_dir = refl;
  syncs = refl;
  unmaps = refl;
  closes = refl;
  opens = refl;
  truncates = refl;
  maps = refl;
}

-- A log with room for two short entries in a segment.
abbrev empty_log : Wal
empty_log = first_segment 64

empty_log-Holds : Holds empty_log [] []
empty_log-Holds = first_segment-Holds 64 (omega arith)

abbrev note : Entry
note = record { timestamp = 7; payload = 1 ∷ 2 ∷ 3 ∷ [] }

note-IsValid : IsValid note
note-IsValid = omega arith

abbrev noted_log : Wal
noted_log = stored note empty_log

noted_log-Holds : Holds noted_log [] (note ∷ [])
noted_log-Holds = stored-Holds note empty_log [] [] empty_log-Holds note-IsValid (omega arith)

abbrev collect : Entry → List Entry → List Entry × Option ℕ
collect e es = (es ++ e ∷ [], none)

cached : (xs ys : List ℕ) → Mixed xs ys ys
cached [] [] = refl
cached (x ∷ xs) [] = refl
cached [] (y ∷ ys) = (y, ys, refl, inr refl, cached [] ys)
cached (x ∷ xs) (y ∷ ys) = (y, ys, refl, inr refl, cached xs ys)

-- The kernel has written back all files.
written_back : List SegmentFile → List SegmentFile
written_back [] = []
written_back (f ∷ fs) = record { id = f.id; bytes = f.bytes; durable = f.bytes } ∷ written_back fs

written_back-Leaves : (fs : List SegmentFile) → Leaves fs (written_back fs)
unfolding written_back
written_back-Leaves [] = refl
written_back-Leaves (f ∷ fs) =
    inr (f.bytes, written_back fs, refl, inr (cached f.durable f.bytes), written_back-Leaves fs)

crash_recovers_example :
    (w' : Wal) × (extra : List Entry) × (new_wal all_ok 64 (written_back noted_log.files)
      ≡ (w', ok))
    × Resumed w' ([] ++ extra)
    × (walk (λ (e : ℕ). false) (λ id. true) collect true w' []
        ≡ lift (visit collect ([] ++ extra) []))
crash_recovers_example =
    crash_recovers (λ e. false) (λ id. true) collect (λ e. refl) (λ id. refl) noted_log []
      (note ∷ []) (written_back noted_log.files) all_ok [] noted_log-Holds
      (written_back-Leaves noted_log.files) all_ok-IsOk (omega arith)

walk-Holds_example :
    walk (λ (e : ℕ). false) (λ id. true) collect true noted_log []
    ≡ lift (visit collect (note ∷ []) [])
walk-Holds_example =
    walk-Holds (λ e. false) (λ id. true) collect (λ e. refl) (λ id. refl) noted_log [] (note ∷ [])
      [] noted_log-Holds (omega arith)

write_close_race_example :
    (write_check (1 ∷ []) empty_log ≡ ok)
    × ((close all_ok empty_log).1 ≡ ok)
    × ((write_locked all_ok 7 (1 ∷ []) (close all_ok empty_log).0).1 ≡ panic)
write_close_race_example =
    write_close_race all_ok 7 (1 ∷ []) empty_log [] [] all_ok-IsOk empty_log-Holds (omega arith)

abbrev no_open : Io
no_open = record all_ok { open_ok = false }

failed_rotate_panics_example :
    ((rotate no_open noted_log).1 ≡ err open_failed)
    × ((write all_ok 8 (1 ∷ []) (rotate no_open noted_log).0).1 ≡ panic)
failed_rotate_panics_example =
    failed_rotate_panics no_open all_ok 8 (1 ∷ []) noted_log [] (note ∷ []) refl refl refl refl
      noted_log-Holds (omega arith)

segment_recovered_example :
    (scan_valid_offset (encode_all (note ∷ []) ++ 0 ∷ []) ≡ length (encode_all (note ∷ [])))
    × (walk_segment collect (encode_all (note ∷ []) ++ 0 ∷ []) [] ≡ visit collect (note ∷ []) [])
segment_recovered_example =
    segment_recovered collect (note ∷ []) (0 ∷ []) [] (note-IsValid, tt)
      (unfold decode_entry in refl)

segment_sound_example :
    (es : List Entry) × AllValid es
    × ((rest : List ℕ) × (encode_all es ++ rest ≡ 9 ∷ 255 ∷ []) × (decode_entry rest ≡ none))
    × (scan_valid_offset (9 ∷ 255 ∷ []) ≡ length (encode_all es))
    × (walk_segment collect (9 ∷ 255 ∷ []) [] ≡ visit collect es [])
segment_sound_example = segment_sound collect (9 ∷ 255 ∷ []) [] (omega arith)

empty_payload_hides_example :
    let bytes = encode_all [] ++ (encode_entry (entry_at 7 []) ++ (encode_all (note ∷ []) ++ [])) in
    (scan_valid_offset bytes ≡ length (encode_all []))
    × (walk_segment collect bytes [] ≡ visit collect [] [])
empty_payload_hides_example = empty_payload_hides collect [] (note ∷ []) 7 [] [] tt

decode-encode_entry_example :
    decode_entry (encode_entry note ++ 9 ∷ [])
    ≡ Option.some (log_header_size + length note.payload, note)
decode-encode_entry_example = decode-encode_entry note (9 ∷ []) note-IsValid

segment_id_of-segment_name_example :
    segment_id_of (record { name = segment_name 42; is_dir = false }) ≡ Option.some 42
segment_id_of-segment_name_example = segment_id_of-segment_name 42 (omega arith)

long_id_skipped :
    segment_id_of (record { name = codes "10000000000000000.log"; is_dir = false }) ≡ none
unfolding segment_id_of has_suffix skip_space take_digits text_eq is_space
long_id_skipped = refl

sync-Holds_example : (w' : Wal) × (sync all_ok noted_log ≡ (w', ok)) × Holds w' (note ∷ []) []
sync-Holds_example = sync-Holds all_ok noted_log [] (note ∷ []) refl noted_log-Holds
