-- ===== src/Wal/State.antt =====
-- The WAL of pkg/wal/wal.go: its directory, its fields and its operations.
-- Each system call may fail: `Io` says which of them succeed during one operation (none is made
-- twice). A file keeps what the page cache holds, which a shared mapping and os.ReadFile both see,
-- and what the last successful fsync left on the disk.
use observe_x.Prelude.{
  ℕ, ◌+◌, ◌-◌, ◌%◌, Bool, true, false, not, Option, none, some, List, [], ◌∷◌, ◌++◌, length, take,
  drop, replicate, ltb, leb, ◌==◌, if◌then◌else◌,
}
use observe_x.Wal.Bytes.{u64_mod}
use observe_x.Wal.Directory.{segment_name, segment_id_of}
use observe_x.Wal.Entry.{Entry, log_header_size, encode_entry}
use observe_x.Wal.Scan.{scan_valid_offset, walk_segment}

pub record SegmentFile : Type 0 where
  pub id : ℕ
  pub bytes : List ℕ
  pub durable : List ℕ

pub record Io : Type 0 where
  pub mkdir_ok : Bool
  pub read_dir_ok : Bool
  pub sync_ok : Bool
  pub unmap_ok : Bool
  pub close_ok : Bool
  pub open_ok : Bool
  pub truncate_ok : Bool
  pub mmap_ok : Bool

pub data WalError : Type 0 where
  payload_too_large closed_wal fsync_failed munmap_failed close_failed : WalError
  open_failed truncate_failed mmap_failed mkdir_failed read_dir_failed : WalError

pub data Outcome : Type 0 where
  ok : Outcome
  err : WalError → Outcome
  panic : Outcome

pub record Wal : Type 0 where
  pub files : List SegmentFile
  pub max_segment_bytes : ℕ
  pub active_file : Option ℕ
  pub mapped : Bool
  pub write_offset : ℕ
  pub segment_id : ℕ
  pub dirty : Bool
  pub closed : Bool

-- One change of the file with this id.
unfoldable pub update_file : ℕ → (SegmentFile → SegmentFile) → List SegmentFile → List SegmentFile
update_file id f [] = []
update_file id f (x ∷ xs) = if x.id == id then f x ∷ xs else x ∷ update_file id f xs

-- os.OpenFile with O_CREATE.
unfoldable pub create_file : ℕ → List SegmentFile → List SegmentFile
create_file id [] = record { id = id; bytes = []; durable = [] } ∷ []
create_file id (x ∷ xs) = if x.id == id then x ∷ xs else x ∷ create_file id xs

-- f.Truncate(n): cuts, or fills up with zeros.
unfoldable pub resize : ℕ → List ℕ → List ℕ
resize n bytes = take n bytes ++ replicate (n - length bytes) 0

unfoldable pub insert_segment : SegmentFile → List SegmentFile → List SegmentFile
insert_segment x [] = x ∷ []
insert_segment x (y ∷ ys) = if leb x.id y.id then x ∷ y ∷ ys else y ∷ insert_segment x ys

unfoldable pub sort_segments : List SegmentFile → List SegmentFile
unfolding insert_segment
sort_segments [] = []
sort_segments (x ∷ xs) = insert_segment x (sort_segments xs)

-- The segment under the id in its name, in front of others.
unfoldable pub cons_named : Option ℕ → SegmentFile → List SegmentFile → List SegmentFile
cons_named none f rest = rest
cons_named (some id) f rest = record { id = id; bytes = f.bytes; durable = f.durable } ∷ rest

-- The files whose names discoverSegments reads. The directory holds the files of the log only, each under the name that rotate gave it.
unfoldable pub list_segments : List SegmentFile → List SegmentFile
unfolding cons_named segment_id_of segment_name
list_segments [] = []
list_segments (f ∷ fs) =
    cons_named (segment_id_of (record { name = segment_name f.id; is_dir = false })) f
      (list_segments fs)

-- The directory's segments in the order of their ids; none if it cannot be read.
unfoldable pub discover_segments : Bool → List SegmentFile → Option (List SegmentFile)
unfolding sort_segments list_segments
discover_segments read_dir_ok files =
    if read_dir_ok then some (sort_segments (list_segments files)) else none

infixl 5 ◌then◌
-- An operation goes on only after a success.
abbrev pub ◌then◌ : Wal × Outcome → (Wal → Wal × Outcome) → Wal × Outcome
◌then◌ (w, ok) k = k w
◌then◌ (w, err e) k = (w, err e)
◌then◌ (w, panic) k = (w, panic)

abbrev pub fsync_active : ℕ → Wal → Wal
fsync_active id w = record w {
  files = update_file id (λ f. record f { durable = f.bytes }) w.files;
  dirty = false;
}

unfoldable pub sync_locked : Io → Wal → Wal × Outcome
unfolding update_file
sync_locked io w = elim w.active_file [
  | none ↦ (w, ok)
  | some id ↦
      if not w.dirty
      then (w, ok)
      else if not io.sync_ok
      then (w, err fsync_failed)
      else (fsync_active id w, ok)
]

unfoldable pub unmap_locked : Io → Wal → Wal × Outcome
unmap_locked io w =
    if not w.mapped
    then (w, ok)
    else if not io.unmap_ok
    then (w, err munmap_failed)
    else (record w { mapped = false }, ok)

-- The file, made if it is missing and brought to the size of a segment.
abbrev pub sized : ℕ → Wal → Wal
sized id w = record w {
  files =
      update_file id (λ f. record f { bytes = resize w.max_segment_bytes f.bytes })
        (create_file id w.files);
}

abbrev pub opened : ℕ → Wal → Wal
opened id w = record (sized id w) {
  active_file = some id;
  mapped = true;
  write_offset = 0;
  segment_id = id;
}

unfoldable pub open_segment : Io → ℕ → Wal → Wal × Outcome
open_segment io id w =
    if not io.open_ok
    then (w, err open_failed)
    else if not io.truncate_ok
    then (record w { files = create_file id w.files }, err truncate_failed)
    else if not io.mmap_ok
    then (sized id w, err mmap_failed)
    else (opened id w, ok)

-- The first half of rotate: the current segment, if there is one, is synced and closed.
unfoldable pub close_active : Io → Wal → Wal × Outcome
unfolding sync_locked unmap_locked
close_active io w = elim w.active_file [
  | none ↦ (w, ok)
  | some _ ↦ sync_locked io w then λ w1. unmap_locked io w1 then λ w2.
      if not io.close_ok then (w2, err close_failed) else (record w2 { active_file = none }, ok)
]

unfoldable pub rotate : Io → Wal → Wal × Outcome
unfolding close_active open_segment
rotate io w = close_active io w then λ w1.
    let next = (w1.segment_id + 1) % u64_mod in
    open_segment io next (record w1 { segment_id = next })

-- The bytes of an entry are laid over those at the offset.
unfoldable pub splice : ℕ → List ℕ → List ℕ → List ℕ
splice off new bytes = take off bytes ++ (new ++ drop (off + length new) bytes)

-- What the stores of an entry leave.
abbrev pub stored : Entry → Wal → Wal
stored e w = record w {
  files =
      update_file w.segment_id
        (λ f. record f { bytes = splice w.write_offset (encode_entry e) f.bytes }) w.files;
  write_offset = w.write_offset + (log_header_size + length e.payload);
  dirty = true;
}

-- The stores into the mapping; with none mapped, slicing it is a panic.
unfoldable pub append_entry : ℕ → List ℕ → Wal → Wal × Outcome
append_entry now payload w =
    if not w.mapped
    then (w, panic)
    else (stored (record { timestamp = now; payload = payload }) w, ok)

-- Write from the point where it holds the lock.
unfoldable pub write_locked : Io → ℕ → List ℕ → Wal → Wal × Outcome
write_locked io now payload w =
    if ltb w.max_segment_bytes (w.write_offset + (log_header_size + length payload))
    then (rotate io w then λ w1. append_entry now payload w1)
    else append_entry now payload w

-- The tests that Write makes before it takes the lock.
unfoldable pub write_check : List ℕ → Wal → Outcome
write_check payload w =
    if w.closed
    then err closed_wal
    else if ltb w.max_segment_bytes (log_header_size + length payload)
    then err payload_too_large
    else ok

unfoldable pub write : Io → ℕ → List ℕ → Wal → Wal × Outcome
write io now payload w = (w, write_check payload w) then λ w1. write_locked io now payload w1

unfoldable pub sync : Io → Wal → Wal × Outcome
sync io w = sync_locked io w

-- Close. The commit loop is gone once it holds the lock; the file stays in its field.
unfoldable pub close : Io → Wal → Wal × Outcome
unfolding sync_locked unmap_locked
close io w =
    if w.closed
    then (w, ok)
    else sync_locked io (record w { closed = true }) then λ w1. unmap_locked io w1 then λ w2.
        elim w2.active_file [
          | none ↦ (w2, ok)
          | some _ ↦ if not io.close_ok then (w2, err close_failed) else (w2, ok)
        ]

-- A tick of groupCommitLoop, which drops the error.
unfoldable pub commit_tick : Io → Wal → Wal
unfolding sync_locked
commit_tick io w = (sync_locked io w).0

abbrev pub max_segment_size : ℕ
max_segment_size = 67108864

-- Options.withDefaults, for MaxSegmentBytes.
unfoldable pub with_defaults : ℕ → ℕ
with_defaults max_bytes = if max_bytes == 0 then max_segment_size else max_bytes

abbrev pub fresh : ℕ → List SegmentFile → Wal
fresh max_bytes files = record {
  files = files;
  max_segment_bytes = max_bytes;
  active_file = none;
  mapped = false;
  write_offset = 0;
  segment_id = 0;
  dirty = false;
  closed = false;
}

unfoldable pub last_segment : List SegmentFile → Option SegmentFile
last_segment [] = none
last_segment (x ∷ []) = some x
last_segment (x ∷ (y ∷ ys)) = last_segment (y ∷ ys)

unfoldable pub find_file : ℕ → List SegmentFile → Option SegmentFile
find_file id [] = none
find_file id (x ∷ xs) = if x.id == id then some x else find_file id xs

abbrev pub bytes_of : Option SegmentFile → List ℕ
bytes_of none = []
bytes_of (some f) = f.bytes

-- The offset is taken from what the segment holds.
abbrev pub resume : ℕ → Wal → Wal
resume id w = record w {
  write_offset = scan_valid_offset (bytes_of (find_file id w.files));
  segment_id = id;
}

unfoldable pub open_last : Io → Wal → Option SegmentFile → Wal × Outcome
unfolding rotate open_segment
open_last io w none = rotate io w
open_last io w (some last) = open_segment io last.id w then λ w1. (resume last.id w1, ok)

unfoldable pub open_found : Io → Wal → Option (List SegmentFile) → Wal × Outcome
unfolding open_last last_segment
open_found io w none = (w, err read_dir_failed)
open_found io w (some segments) = open_last io w (last_segment segments)

-- NewWALWithOptions, over the directory's files.
unfoldable pub new_wal : Io → ℕ → List SegmentFile → Wal × Outcome
new_wal io max_bytes files =
    let w = fresh (with_defaults max_bytes) files in
    if not io.mkdir_ok
    then (w, err mkdir_failed)
    else open_found io w (discover_segments io.read_dir_ok files)

pub data WalkError {ℓ} (E : Type ℓ) : Type ℓ where
  dir_failed : WalkError E
  read_failed : ℕ → WalkError E
  callback : E → WalkError E

module _ {ℓ κ} {S : Type ℓ} {E : Type κ} (is_eof : E → Bool) (read_ok : ℕ → Bool)
    (fn : Entry → S → S × Option E) where
  abbrev pub after_segment :
      S × Option E → (S → S × Option (WalkError E)) → S × Option (WalkError E)
  after_segment (s, none) k = k s
  after_segment (s, some e) k = if is_eof e then k s else (s, some (callback e))

  unfoldable pub walk_files : List SegmentFile → S → S × Option (WalkError E)
  walk_files [] s = (s, none)
  walk_files (f ∷ fs) s = elim (read_ok f.id) [
    | false ↦ (s, some (read_failed f.id))
    | true ↦ after_segment (walk_segment fn f.bytes s) (λ s'. walk_files fs s')
  ]

  -- Walk; `read_dir_ok` is whether the directory can be read. An io.EOF of the callback ends its segment only.
  unfoldable pub walk : Bool → Wal → S → S × Option (WalkError E)
  unfolding walk_files discover_segments
  walk read_dir_ok w s = elim (discover_segments read_dir_ok w.files) [
    | none ↦ (s, some dir_failed)
    | some segments ↦ walk_files segments s
  ]
