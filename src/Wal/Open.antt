-- ===== src/Wal/Open.antt =====
-- An open log of pkg/wal/wal.go between two operations, and how its files are found.
use observe_x.Prelude.{
  ℕ, suc, ◌+◌, ◌≤◌, ◌<◌, ◌≡◌, refl, sym, ap, ◌∙◌, ◌⊎◌, true, false, some, List, [], ◌∷◌, ◌++◌,
  length, replicate, map, arith, append_assoc, append-nil,
}
use observe_x.Wal.Entry.{Entry, encode_entry}
use observe_x.Wal.Scan.{encode_all, AllValid}
use observe_x.Wal.Directory.{id_limit, segment_id_of-segment_name}
use observe_x.Wal.State.{
  SegmentFile, Wal, update_file, create_file, discover_segments, sort_segments, list_segments,
  cons_named, insert_segment, find_file, last_segment,
}

-- A segment that holds entries and then zeros.
abbrev pub filled : List Entry → ℕ → List ℕ
filled es pad = encode_all es ++ replicate pad 0

-- What an fsync left of a segment: nothing yet, or entries and the zeros behind them.
abbrev pub Flushed : ℕ → List ℕ → List Entry → Type 0
Flushed size durable es =
    ((durable ≡ []) × (es ≡ []))
    ⊎ ((pad : ℕ) × (durable ≡ filled es pad) × (length (encode_all es) + pad ≡ size))

-- A segment that was rotated away.
pub record Sealed : Type 0 where
  pub id : ℕ
  pub entries : List Entry
  pub bytes : List ℕ
  pub durable : List ℕ

abbrev pub file_of : Sealed → SegmentFile
file_of s = record { id = s.id; bytes = s.bytes; durable = s.durable }

-- Ids rise along the list, from `lo` on and below `top`.
abbrev pub Ascends : ℕ → ℕ → List SegmentFile → Type 0
Ascends lo top [] = lo ≤ top
Ascends lo top (f ∷ fs) = (lo ≤ f.id) × Ascends (suc f.id) top fs

-- The page cache and the disk agree on the entries of the sealed segments.
abbrev pub SealedValid : ℕ → List Sealed → Type 0
SealedValid size [] = Unit {0}
SealedValid size (s ∷ ss) =
    AllValid s.entries
    × Flushed size s.bytes s.entries
    × Flushed size s.durable s.entries
    × SealedValid size ss

abbrev pub sealed_entries : List Sealed → List Entry
sealed_entries [] = []
sealed_entries (s ∷ ss) = s.entries ++ sealed_entries ss

-- An open log that holds the entries `synced`, which are on the disk, and then `pending`, which are
-- only in the page cache of the active segment.
pub record Holds (w : Wal) (synced pending : List Entry) : Type 0 where
  pub olds : List Sealed
  pub flushed : List Entry
  pub pad : ℕ
  pub durable : List ℕ
  pub roomy : 0 < w.max_segment_bytes
  pub synced_eq : synced ≡ sealed_entries olds ++ flushed
  pub files_eq :
      w.files
      ≡ map file_of olds
        ++ record { id = w.segment_id; bytes = filled (flushed ++ pending) pad; durable = durable }
          ∷ []
  pub ascends : Ascends 0 w.segment_id (map file_of olds)
  pub olds_valid : SealedValid w.max_segment_bytes olds
  pub current_valid : AllValid (flushed ++ pending)
  pub sized : length (encode_all (flushed ++ pending)) + pad ≡ w.max_segment_bytes
  pub on_disk : Flushed w.max_segment_bytes durable flushed
  pub offset : w.write_offset ≡ length (encode_all (flushed ++ pending))
  pub active : w.active_file ≡ some w.segment_id
  pub is_mapped : w.mapped ≡ true
  pub not_closed : w.closed ≡ false
  pub clean : w.dirty ≡ false → pending ≡ []

pub encode_all-append :
    (xs ys : List Entry) → encode_all (xs ++ ys) ≡ encode_all xs ++ encode_all ys
unfolding encode_all
encode_all-append [] ys = refl
encode_all-append (x ∷ xs) ys =
    rw (encode_all-append xs ys)
      (sym (append_assoc (encode_entry x) (encode_all xs) (encode_all ys)))

pub encode_all-single : (e : Entry) → encode_all (e ∷ []) ≡ encode_entry e
unfolding encode_all
encode_all-single e = append-nil (encode_entry e)

pub AllValid-append : (xs ys : List Entry) → AllValid xs → AllValid ys → AllValid (xs ++ ys)
AllValid-append [] ys v u = u
AllValid-append (x ∷ xs) ys v u = (v.0, AllValid-append xs ys v.1 u)

pub SealedValid-append :
    (size : ℕ) (xs ys : List Sealed)
    → SealedValid size xs
    → SealedValid size ys
    → SealedValid size (xs ++ ys)
SealedValid-append size [] ys v u = u
SealedValid-append size (x ∷ xs) ys v u = (v.0, v.1, v.2, SealedValid-append size xs ys v.3 u)

pub sealed_entries-append :
    (xs ys : List Sealed) → sealed_entries (xs ++ ys) ≡ sealed_entries xs ++ sealed_entries ys
sealed_entries-append [] ys = refl
sealed_entries-append (x ∷ xs) ys =
    rw (sealed_entries-append xs ys)
      (sym (append_assoc x.entries (sealed_entries xs) (sealed_entries ys)))

module _ (f : SegmentFile) where
  pub Ascends-append :
      (lo top : ℕ) (xs : List SegmentFile)
      → Ascends lo f.id xs
      → f.id < top
      → Ascends lo top (xs ++ f ∷ [])
  Ascends-append lo top [] a h = (a, h)
  Ascends-append lo top (x ∷ xs) a h = (a.0, Ascends-append (suc x.id) top xs a.1 h)

  Ascends-lt :
      (lo top : ℕ) (x : SegmentFile) (xs : List SegmentFile) → Ascends lo top (x ∷ xs) → x.id < top
  Ascends-lt lo top x [] a = a.1
  Ascends-lt lo top x (y ∷ ys) a = omega (arith, Ascends-lt (suc x.id) top y ys a.1, a.1.0)

  pub update_file-last :
      (g : SegmentFile → SegmentFile) (lo : ℕ) (xs : List SegmentFile)
      → Ascends lo f.id xs
      → update_file f.id g (xs ++ f ∷ []) ≡ xs ++ g f ∷ []
  unfolding update_file
  update_file-last g lo [] a = ground arith
  update_file-last g lo (x ∷ xs) a =
      ground (arith, Ascends-lt lo f.id x xs a, update_file-last g (suc x.id) xs a.1)

  pub find_file-last :
      (lo : ℕ) (xs : List SegmentFile) → Ascends lo f.id xs → find_file f.id (xs ++ f ∷ []) ≡ some f
  unfolding find_file
  find_file-last lo [] a = ground arith
  find_file-last lo (x ∷ xs) a =
      ground (arith, Ascends-lt lo f.id x xs a, find_file-last (suc x.id) xs a.1)

  pub create_file-last :
      (lo : ℕ) (xs : List SegmentFile)
      → Ascends lo f.id xs
      → create_file f.id (xs ++ f ∷ []) ≡ xs ++ f ∷ []
  unfolding create_file
  create_file-last lo [] a = ground arith
  create_file-last lo (x ∷ xs) a =
      ground (arith, Ascends-lt lo f.id x xs a, create_file-last (suc x.id) xs a.1)

  pub last_segment-append : (xs : List SegmentFile) → last_segment (xs ++ f ∷ []) ≡ some f
  unfolding last_segment
  last_segment-append [] = refl
  last_segment-append (x ∷ []) = refl
  last_segment-append (x ∷ (y ∷ ys)) = last_segment-append (y ∷ ys)

pub create_file-append :
    (lo top : ℕ) (xs : List SegmentFile)
    → Ascends lo top xs
    → create_file top xs ≡ xs ++ record { id = top; bytes = []; durable = [] } ∷ []
unfolding create_file
create_file-append lo top [] a = refl
create_file-append lo top (x ∷ xs) a =
    ground (arith, Ascends-lt x lo top x xs a, create_file-append (suc x.id) top xs a.1)

-- On files in the order of their ids, sorting changes nothing.
insert_segment-first :
    (lo top : ℕ) (x : SegmentFile) (xs : List SegmentFile)
    → Ascends lo top (x ∷ xs)
    → insert_segment x xs ≡ x ∷ xs
unfolding insert_segment
insert_segment-first lo top x [] a = refl
insert_segment-first lo top x (y ∷ ys) a = ground (arith, a.1.0)

sort_segments-Ascends :
    (lo top : ℕ) (xs : List SegmentFile) → Ascends lo top xs → sort_segments xs ≡ xs
unfolding sort_segments
sort_segments-Ascends lo top [] a = refl
sort_segments-Ascends lo top (x ∷ xs) a =
    rw (sort_segments-Ascends (suc x.id) top xs a.1) (insert_segment-first lo top x xs a)

list_segments-Ascends :
    (lo top : ℕ) (xs : List SegmentFile)
    → Ascends lo top xs
    → top ≤ id_limit
    → list_segments xs ≡ xs
unfolding list_segments cons_named
list_segments-Ascends lo top [] a h = refl
list_segments-Ascends lo top (x ∷ xs) a h =
    ap (λ o. cons_named o x (list_segments xs))
      (segment_id_of-segment_name x.id (omega (arith, Ascends-lt x lo top x xs a, h)))
    ∙ ap (◌∷◌ x) (list_segments-Ascends (suc x.id) top xs a.1 h)

pub discover_segments-Ascends :
    (lo top : ℕ) (xs : List SegmentFile)
    → Ascends lo top xs
    → top ≤ id_limit
    → discover_segments true xs ≡ some xs
unfolding discover_segments
discover_segments-Ascends lo top xs a h =
    ap (λ l. some (sort_segments l)) (list_segments-Ascends lo top xs a h)
    ∙ ap some (sort_segments-Ascends lo top xs a)
