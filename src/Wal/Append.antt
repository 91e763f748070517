-- ===== src/Wal/Append.antt =====
-- Write of pkg/wal/wal.go on an open log: an entry is laid over the zeros of the active segment.
use native.Mathlib.Nat.{suc-add}
use observe_x.Prelude.{
  ℕ, ◌+◌, ◌-◌, ◌≤◌, ◌≡◌, ap, ◌∙◌, true, List, [], ◌∷◌, ◌++◌, length, drop, replicate, map, arith,
  length-append, append_assoc, take-append, drop-replicate,
}
use observe_x.Wal.Entry.{Entry, IsValid, log_header_size, encode_entry, length-encode_entry}
use observe_x.Wal.Scan.{encode_all}
use observe_x.Wal.State.{Wal, ok, splice, append_entry, stored}
use observe_x.Wal.Open.{
  filled, file_of, Holds, encode_all-append, encode_all-single, AllValid-append, update_file-last,
}

drop-append_add : (xs ys : List ℕ) (n : ℕ) → drop (length xs + n) (xs ++ ys) ≡ drop n ys
drop-append_add [] ys n = ap (λ k. drop k ys) (omega arith)
drop-append_add (x ∷ xs) ys n = rw (suc-add (length xs) n) (drop-append_add xs ys n)

-- Laying an entry over the zeros appends it.
splice-filled :
    (es : List Entry) (e : Entry) (pad : ℕ)
    → log_header_size + length e.payload ≤ pad
    → splice (length (encode_all es)) (encode_entry e) (filled es pad)
      ≡ filled (es ++ e ∷ []) (pad - (log_header_size + length e.payload))
unfolding splice
splice-filled es e pad h =
    rw
      (
        take-append,
        drop-append_add (encode_all es) (replicate pad 0) (length (encode_entry e)),
        length-encode_entry e,
        encode_all-append es (e ∷ []),
        encode_all-single e,
        append_assoc,
      )
      (ap (λ t. encode_all es ++ (encode_entry e ++ t)) (drop-replicate _ pad 0))

abbrev pub entry_at : ℕ → List ℕ → Entry
entry_at now payload = record { timestamp = now; payload = payload }

pub append_entry-stored :
    (now : ℕ) (payload : List ℕ) (w : Wal)
    → w.mapped ≡ true
    → append_entry now payload w ≡ (stored (entry_at now payload) w, ok)
unfolding append_entry
append_entry-stored now payload w m = ground arith

-- The stores into a segment that has room.
pub stored-Holds :
    (e : Entry) (w : Wal) (s u : List Entry)
    → Holds w s u
    → IsValid e
    → w.write_offset + (log_header_size + length e.payload) ≤ w.max_segment_bytes
    → Holds (stored e w) s (u ++ e ∷ [])
stored-Holds e w s u h v room = record {
  olds = h.olds;
  flushed = h.flushed;
  pad = h.pad - (log_header_size + length e.payload);
  durable = h.durable;
  roomy = h.roomy;
  synced_eq = h.synced_eq;
  files_eq =
      rw (h.files_eq, h.offset, ← append_assoc h.flushed u (e ∷ []))
        (update_file-last _ _ 0 (map file_of h.olds) h.ascends
          ∙ ap
              (λ b.
                map file_of h.olds
                ++ record { id = w.segment_id; bytes = b; durable = h.durable } ∷ [])
              (splice-filled (h.flushed ++ u) e h.pad fits));
  ascends = h.ascends;
  olds_valid = h.olds_valid;
  current_valid =
      rw (← append_assoc h.flushed u (e ∷ []))
        (AllValid-append (h.flushed ++ u) (e ∷ []) h.current_valid (v, tt));
  sized = omega (arith, h.sized, grown, fits);
  on_disk = h.on_disk;
  offset = omega (arith, h.offset, grown);
  active = h.active;
  is_mapped = h.is_mapped;
  not_closed = h.not_closed;
  clean = λ d. cc;
}
  where
    fits : log_header_size + length e.payload ≤ h.pad
    fits = omega (arith, room, h.offset, h.sized)

    grown :
        length (encode_all (h.flushed ++ (u ++ e ∷ [])))
        ≡ length (encode_all (h.flushed ++ u)) + (log_header_size + length e.payload)
    grown =
        rw
          (
            ← append_assoc h.flushed u (e ∷ []),
            encode_all-append (h.flushed ++ u) (e ∷ []),
            encode_all-single e,
          )
          (omega (
            arith,
            length-append (encode_all (h.flushed ++ u)) (encode_entry e),
            length-encode_entry e,
          ))
