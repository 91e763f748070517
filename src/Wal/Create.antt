-- ===== src/Wal/Create.antt =====
-- NewWAL of pkg/wal/wal.go on an empty directory.
use observe_x.Prelude.{ℕ, ◌<◌, ◌≡◌, refl, [], arith, inl}
use observe_x.Wal.Scan.{encode_all}
use observe_x.Wal.State.{Wal, Io, ok, opened, rotate, open_segment, close_active}
use observe_x.Wal.Open.{Holds}
use observe_x.Wal.State.{discover_segments, sort_segments, list_segments, open_found, open_last}
use observe_x.Wal.Sync.{IsOk}
use observe_x.Wal.State.{last_segment, fresh, with_defaults, new_wal}
use observe_x.Wal.Rotate.{new_segment}

abbrev pub first_segment : ℕ → Wal
first_segment size = opened 1 (record (fresh size []) { segment_id = 1 })

pub first_segment-Holds : (size : ℕ) → 0 < size → Holds (first_segment size) [] []
first_segment-Holds size pos = record {
  olds = [];
  flushed = [];
  pad = size;
  durable = [];
  roomy = pos;
  synced_eq = refl;
  files_eq = new_segment 1 size [] (omega arith);
  ascends = omega arith;
  olds_valid = tt;
  current_valid = tt;
  sized = unfold encode_all in omega arith;
  on_disk = inl (refl, refl);
  offset = unfold encode_all in refl;
  active = refl;
  is_mapped = refl;
  not_closed = refl;
  clean = λ d. refl;
}

pub new_wal-first :
    (io : Io) (size : ℕ) → IsOk io → 0 < size → new_wal io size [] ≡ (first_segment size, ok)
unfolding new_wal open_found open_last sort_segments list_segments rotate close_active open_segment
    discover_segments last_segment with_defaults
new_wal-first io size k pos = ground (arith, k, pos)

-- On an empty directory and with no failing system call NewWAL returns an open log that holds nothing; a
-- segment size of 0 stands for the default size.
pub new_wal_empty :
    (io : Io) (max_bytes : ℕ)
    → IsOk io
    → (w : Wal) × (new_wal io max_bytes [] ≡ (w, ok))
      × Holds w [] []
      × (w.max_segment_bytes ≡ with_defaults max_bytes)
unfolding new_wal open_found open_last sort_segments list_segments rotate close_active open_segment
    discover_segments last_segment
new_wal_empty io max_bytes k = (
  first_segment (with_defaults max_bytes),
  ground (arith, k),
  first_segment-Holds (with_defaults max_bytes) (unfold with_defaults in ground arith),
  refl,
)
