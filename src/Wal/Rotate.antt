-- ===== src/Wal/Rotate.antt =====
-- rotate of pkg/wal/wal.go on an open log.
use mathlib.Core.List.{map-append}
use native.Mathlib.Nat.{sub-zero}
use observe_x.Wal.Sync.{IsOk, sync_locked-Holds}
use observe_x.Prelude.{
  ℕ, zero, suc, ◌+◌, ◌<◌, ◌≡◌, refl, sym, ap, ◌∙◌, true, false, none, List, [], ◌∷◌, ◌++◌,
  replicate, map, arith, inl, inr, append-nil,
}
use observe_x.Wal.Bytes.{u64_mod}
use observe_x.Wal.Entry.{Entry}
use observe_x.Wal.Scan.{encode_all}
use observe_x.Wal.State.{
  SegmentFile, Wal, Io, ok, update_file, create_file, resize, opened, rotate, open_segment,
  close_active, sync_locked, unmap_locked,
}
use observe_x.Wal.Open.{
  filled, Sealed, file_of, Ascends, sealed_entries, Holds, SealedValid-append,
  sealed_entries-append, Ascends-append, update_file-last, create_file-append,
}

pub resize-nil : (n : ℕ) → resize n [] ≡ replicate n 0
unfolding resize
resize-nil zero = refl
resize-nil (suc n) = ap (λ k. replicate k 0) (sub-zero (suc n))

-- A file that is made has only zeros.
pub new_segment :
    (next size : ℕ) (xs : List SegmentFile)
    → Ascends 0 next xs
    → update_file next (λ f. record f { bytes = resize size f.bytes }) (create_file next xs)
      ≡ xs ++ record { id = next; bytes = filled [] size; durable = [] } ∷ []
unfolding encode_all
new_segment next size xs a = rw (create_file-append 0 next xs a) (
    update_file-last (record { id = next; bytes = []; durable = [] }) _ 0 xs a
    ∙ ap (λ b. xs ++ record { id = next; bytes = b; durable = [] } ∷ []) (resize-nil size))

-- The state in which rotate opens the next segment.
abbrev next_state : ℕ → Wal → Wal
next_state next w = record w { mapped = false; active_file = none; segment_id = next }

opened-Holds :
    (next : ℕ) (w : Wal) (s : List Entry)
    → Holds w s []
    → w.segment_id < next
    → Holds (opened next (next_state next w)) s []
opened-Holds next w s h lt = record {
  olds = h.olds ++ last ∷ [];
  flushed = [];
  pad = w.max_segment_bytes;
  durable = [];
  roomy = h.roomy;
  synced_eq =
      h.synced_eq
      ∙ sym (
          append-nil (sealed_entries (h.olds ++ last ∷ []))
          ∙ sealed_entries-append h.olds (last ∷ [])
          ∙ ap (λ l. sealed_entries h.olds ++ l) (append-nil h.flushed));
  files_eq =
      rw (h.files_eq, append-nil h.flushed, ← made)
        (new_segment next w.max_segment_bytes (map file_of (h.olds ++ last ∷ [])) rising);
  ascends = rising;
  olds_valid = SealedValid-append w.max_segment_bytes h.olds (last ∷ []) h.olds_valid (
    rw (append-nil h.flushed) at h.current_valid,
    inr (h.pad, refl, rw (append-nil h.flushed) at h.sized),
    h.on_disk,
    tt,
  );
  current_valid = tt;
  sized = unfold encode_all in omega arith;
  on_disk = inl (refl, refl);
  offset = unfold encode_all in refl;
  active = refl;
  is_mapped = refl;
  not_closed = h.not_closed;
  clean = λ d. refl;
}
  where
    last : Sealed
    last = record {
      id = w.segment_id;
      entries = h.flushed;
      bytes = filled (h.flushed) h.pad;
      durable = h.durable;
    }

    made : map file_of (h.olds ++ last ∷ []) ≡ map file_of h.olds ++ file_of last ∷ []
    made = map-append file_of h.olds (last ∷ [])

    rising : Ascends 0 next (map file_of (h.olds ++ last ∷ []))
    rising = rw made (Ascends-append (file_of last) 0 next (map file_of h.olds) h.ascends lt)

rotate_steps :
    (io : Io) (w w1 : Wal) {s u : List Entry}
    → IsOk io
    → Holds w s u
    → sync_locked io w ≡ (w1, ok)
    → w1.mapped ≡ true
    → w1.segment_id + 1 < u64_mod
    → rotate io w ≡ (opened (w1.segment_id + 1) (next_state (w1.segment_id + 1) w1), ok)
unfolding rotate close_active unmap_locked open_segment
rotate_steps io w w1 k h e m lt = ground (arith, h.active, e, m)

-- rotate on an open log opens an empty segment behind a log that is on the disk.
pub rotate-Holds :
    (io : Io) (w : Wal) (s u : List Entry)
    → IsOk io
    → Holds w s u
    → w.segment_id + 1 < u64_mod
    → (w' : Wal) × (rotate io w ≡ (w', ok))
      × Holds w' (s ++ u) []
      × (w'.write_offset ≡ 0)
      × (w'.max_segment_bytes ≡ w.max_segment_bytes)
rotate-Holds io w s u k h lt =
    let (w1, synced, h1, same, size) = sync_locked-Holds io w s u k.syncs h in
    let next = w1.segment_id + 1 in
    (
      opened next (next_state next w1),
      rotate_steps io w w1 k h synced (h1.is_mapped) (omega (arith, same)),
      opened-Holds next w1 (s ++ u) h1 (omega arith),
      refl,
      size,
    )
