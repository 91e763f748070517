-- ===== src/Wal/Reopen.antt =====
-- The recovery of NewWAL in pkg/wal/wal.go behind a crash.
use mathlib.Core.Path.{subst}
use observe_x.Prelude.{
  ℕ, zero, suc, ◌-◌, ◌≤◌, ◌<◌, ◌≡◌, refl, sym, ap, ◌∙◌, inl, inr, Bool, true, false, Option, some,
  List, [], ◌∷◌, ◌++◌, length, take, replicate, map, arith, append_assoc,
}
use observe_x.Wal.Entry.{Entry}
use observe_x.Wal.Directory.{id_limit}
use observe_x.Wal.Scan.{encode_all, AllValid, entries_of, scan_valid_offset, visit}
use observe_x.Wal.Recovery.{
  entries_of-starts, entries_of-none, scan_valid_offset-entries_of, walk_segment-entries_of,
}
use observe_x.Wal.State.{
  SegmentFile, Wal, Io, ok, resize, opened, sized, open_segment, find_file, fresh, with_defaults,
  new_wal, open_found, open_last, discover_segments, resume, bytes_of, walk,
}
use observe_x.Wal.Open.{
  Sealed, file_of, Ascends, SealedValid, sealed_entries, Holds, Ascends-append, update_file-last,
  create_file-last, find_file-last, last_segment-append, discover_segments-Ascends,
}
use observe_x.Wal.Sync.{IsOk}
use observe_x.Wal.Rotate.{new_segment}
use observe_x.Wal.View.{decode_entry-zeros, lift, walk_found, walk_files-visit}
use observe_x.Wal.Create.{first_segment, new_wal-first}
use observe_x.Wal.Crash.{Leaves, After, Survivors, crash-After}

AllValid-prefix : (xs ys : List Entry) → AllValid (xs ++ ys) → AllValid xs
AllValid-prefix [] ys v = tt
AllValid-prefix (x ∷ xs) ys v = (v.0, AllValid-prefix xs ys v.1)

take-all : (n : ℕ) (bs : List ℕ) → length bs ≤ n → take n bs ≡ bs
take-all zero [] h = refl
take-all zero (b ∷ bs) h = absurd (omega (arith, h))
take-all (suc n) [] h = refl
take-all (suc n) (b ∷ bs) h = ap (◌∷◌ b) (take-all n bs (omega (arith, h)))

resize-fits :
    (size : ℕ) (es : List Entry) (rest : List ℕ)
    → length (encode_all es ++ rest) ≤ size
    → (rest' : List ℕ) × (resize size (encode_all es ++ rest) ≡ encode_all es ++ rest')
unfolding resize
resize-fits size es rest h =
    let zeros = replicate (size - length (encode_all es ++ rest)) 0 in
    (
      rest ++ zeros,
      ap (λ t. t ++ zeros) (take-all size (encode_all es ++ rest) h)
          ∙ append_assoc (encode_all es) rest zeros,
    )

-- An open log whose files hold the entries, and which goes on writing behind the last of them.
pub record Resumed (w : Wal) (entries : List Entry) : Type 0 where
  pub olds : List Sealed
  pub bytes : List ℕ
  pub durable : List ℕ
  pub files_eq :
      w.files
      ≡ map file_of olds ++ record { id = w.segment_id; bytes = bytes; durable = durable } ∷ []
  pub ascends : Ascends 0 w.segment_id (map file_of olds)
  pub olds_valid : SealedValid w.max_segment_bytes olds
  pub entries_eq : entries ≡ sealed_entries olds ++ entries_of bytes
  pub offset : w.write_offset ≡ length (encode_all (entries_of bytes))
  pub active : w.active_file ≡ some w.segment_id
  pub is_mapped : w.mapped ≡ true
  pub not_closed : w.closed ≡ false

module _ {ℓ κ} {S : Type ℓ} {E : Type κ} (is_eof : E → Bool) (read_ok : ℕ → Bool)
    (fn : Entry → S → S × Option E) (no_eof : (e : E) → is_eof e ≡ false)
    (reads : (id : ℕ) → read_ok id ≡ true) where
  walk-Resumed :
      (w : Wal) (entries : List Entry) (a : S)
      → Resumed w entries
      → w.segment_id < id_limit
      → walk is_eof read_ok fn true w a ≡ lift (visit fn entries a)
  walk-Resumed w entries a h named =
      walk_found is_eof read_ok fn no_eof reads w a _ (
        ap (discover_segments true) h.files_eq
        ∙ discover_segments-Ascends 0 (suc w.segment_id) _
            (Ascends-append _ 0 (suc w.segment_id) (map file_of h.olds) h.ascends (omega arith))
            (omega (arith, named)))
      ∙ walk_files-visit is_eof read_ok fn no_eof reads w.max_segment_bytes h.olds _
          (entries_of h.bytes) a h.olds_valid (λ t. walk_segment-entries_of fn h.bytes t)
      ∙ ap (λ es. lift (visit fn es a)) (sym h.entries_eq)

new_wal_steps :
    (io : Io) (size : ℕ) (xs : List SegmentFile) (f : SegmentFile)
    → IsOk io
    → 0 < size
    → Ascends 0 f.id xs
    → f.id < id_limit
    → new_wal io size (xs ++ f ∷ []) ≡ (resume f.id (opened f.id (fresh size (xs ++ f ∷ []))), ok)
unfolding new_wal open_found open_last with_defaults open_segment
new_wal_steps io size xs f k pos a named = ground (
  arith,
  discover_segments-Ascends 0 (suc f.id) (xs ++ f ∷ [])
      (Ascends-append f 0 (suc f.id) xs a (omega arith)) (omega (arith, named)),
  last_segment-append f xs,
  k,
  pos,
)

reopen_files :
    (size : ℕ) (xs : List SegmentFile) (f : SegmentFile)
    → Ascends 0 f.id xs
    → (sized f.id (fresh size (xs ++ f ∷ []))).files
      ≡ xs ++ record f { bytes = resize size f.bytes } ∷ []
reopen_files size xs f a = rw (create_file-last f 0 xs a) (update_file-last f _ 0 xs a)

module _ (size top : ℕ) (gs : List SegmentFile) (s : List Entry)
    (v : Survivors size 0 top gs s) where
  last : SegmentFile
  last = record { id = v.id; bytes = encode_all v.entries ++ v.rest; durable = v.durable }

  grown : List ℕ
  grown = resize size (encode_all v.entries ++ v.rest)

  reopened : Wal
  unfolding last
  reopened = resume v.id (opened v.id (fresh size (map file_of v.olds ++ last ∷ [])))

  reopened-files :
      reopened.files
      ≡ map file_of v.olds ++ record { id = v.id; bytes = grown; durable = v.durable } ∷ []
  unfolding reopened last grown
  reopened-files = reopen_files size (map file_of v.olds) last v.ascends

  reopened-offset : reopened.write_offset ≡ length (encode_all (entries_of grown))
  unfolding reopened last
  reopened-offset =
      ap (λ fs. scan_valid_offset (bytes_of (find_file v.id fs))) reopened-files
      ∙ ap (λ o. scan_valid_offset (bytes_of o))
          (find_file-last (record { id = v.id; bytes = grown; durable = v.durable }) 0
            (map file_of v.olds) v.ascends)
      ∙ scan_valid_offset-entries_of grown

  extra_found : (extra : List Entry) × (entries_of grown ≡ v.entries ++ extra)
  unfolding grown
  extra_found =
      let (rest', e) = resize-fits size v.entries v.rest v.fits in
      let (extra, e') = entries_of-starts v.entries rest' v.valid in (extra, ap entries_of e ∙ e')

  reopened-Resumed : Resumed reopened (s ++ extra_found.0)
  unfolding reopened
  reopened-Resumed = record {
    olds = v.olds;
    bytes = grown;
    durable = v.durable;
    files_eq = reopened-files;
    ascends = v.ascends;
    olds_valid = v.olds_valid;
    entries_eq =
        ap (λ t. t ++ extra_found.0) v.kept
        ∙ append_assoc (sealed_entries v.olds) v.entries extra_found.0
        ∙ ap (λ t. sealed_entries v.olds ++ t) (sym extra_found.1);
    offset = reopened-offset;
    active = refl;
    is_mapped = refl;
    not_closed = refl;
  }

  new_wal-reopened :
      (io : Io) → IsOk io → 0 < size → v.id < id_limit → new_wal io size gs ≡ (reopened, ok)
  unfolding reopened last
  new_wal-reopened io k pos named =
      ap (new_wal io size) v.files_eq
      ∙ new_wal_steps io size (map file_of v.olds) last k pos v.ascends named

first_segment-Resumed : (size : ℕ) → Resumed (first_segment size) []
unfolding encode_all
first_segment-Resumed size = record {
  olds = [];
  bytes = replicate size 0;
  durable = [];
  files_eq = new_segment 1 size [] (omega arith);
  ascends = omega arith;
  olds_valid = tt;
  entries_eq = sym (entries_of-none (replicate size 0) (decode_entry-zeros size));
  offset =
      ap (λ es. length (encode_all es))
        (sym (entries_of-none (replicate size 0) (decode_entry-zeros size)));
  active = refl;
  is_mapped = refl;
  not_closed = refl;
}

module _ {ℓ κ} {S : Type ℓ} {E : Type κ} (is_eof : E → Bool) (read_ok : ℕ → Bool)
    (fn : Entry → S → S × Option E) (no_eof : (e : E) → is_eof e ≡ false)
    (reads : (id : ℕ) → read_ok id ≡ true) where
  new_wal-After :
      (io : Io) (size top : ℕ) (gs : List SegmentFile) (s : List Entry) (a : S)
      → IsOk io
      → 0 < size
      → top < id_limit
      → After size 0 top gs s
      → (w : Wal) × (extra : List Entry) × (new_wal io size gs ≡ (w, ok))
        × Resumed w (s ++ extra)
        × (walk is_eof read_ok fn true w a ≡ lift (visit fn (s ++ extra) a))
  unfolding reopened
  new_wal-After io size top gs s a k pos named (inl (no_file, nothing)) =
      let resumed : Resumed (first_segment size) (s ++ []) =
        subst (λ es. Resumed (first_segment size) (es ++ [])) (sym nothing)
          (first_segment-Resumed size) in
      (
        first_segment size,
        [],
        ap (new_wal io size) no_file ∙ new_wal-first io size k pos,
        resumed,
        walk-Resumed is_eof read_ok fn no_eof reads (first_segment size) (s ++ []) a resumed
            (omega arith),
      )
  new_wal-After io size top gs s a k pos named (inr v) =
      let resumed = reopened-Resumed size top gs s v in
      (
        reopened size top gs s v,
        (extra_found size top gs s v).0,
        new_wal-reopened size top gs s v io k pos (omega (arith, named, v.below)),
        resumed,
        walk-Resumed is_eof read_ok fn no_eof reads (reopened size top gs s v) _ a resumed
            (omega (arith, named, v.below)),
      )

  -- Take an open log, and any files that a crash may leave of its files: of each file that an fsync has reached, any mixture, byte by byte, of what the last fsync left and what was written since, under its name; a file that no fsync has reached may also be empty or missing. Then NewWAL with the same segment size, with no failing system call, and if the active id had at most 16 digits, returns an open log. All synced entries are in it, in their order; behind them stand such entries as were in the surviving bytes; it goes on writing behind the last entry; and Walk hands all of them to a callback that has no io.EOF among its errors, oldest first, up to its first error, if the directory and all segments can be read.
  pub crash_recovers :
      (w : Wal) (s u : List Entry) (gs : List SegmentFile) (io : Io) (a : S)
      → Holds w s u
      → Leaves w.files gs
      → IsOk io
      → w.segment_id < id_limit
      → (w' : Wal) × (extra : List Entry) × (new_wal io w.max_segment_bytes gs ≡ (w', ok))
        × Resumed w' (s ++ extra)
        × (walk is_eof read_ok fn true w' a ≡ lift (visit fn (s ++ extra) a))
  crash_recovers w s u gs io a h crashed k named =
      let left : After w.max_segment_bytes 0 w.segment_id gs (sealed_entries h.olds ++ h.flushed) =
        crash-After w.max_segment_bytes w.segment_id h.pad h.flushed u h.durable h.roomy h.on_disk
          (AllValid-prefix h.flushed u h.current_valid) h.sized 0 h.olds gs h.ascends h.olds_valid
          (subst (λ fs. Leaves fs gs) h.files_eq crashed) in
      new_wal-After io w.max_segment_bytes w.segment_id gs s a k h.roomy named
        (subst (After w.max_segment_bytes 0 w.segment_id gs) (sym h.synced_eq) left)
