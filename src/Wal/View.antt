-- ===== src/Wal/View.antt =====
-- Walk of pkg/wal/wal.go on an open log.
use mathlib.Core.Path.{fun_ext}
use mathlib.Core.Option
use observe_x.Prelude.{
  ℕ, zero, suc, ◌<◌, ◌≡◌, refl, sym, ap, ◌∙◌, Bool, true, false, Option, none, some, List, [], ◌∷◌,
  ◌++◌, replicate, map, arith, inl, inr, append_assoc,
}
use observe_x.Wal.Entry.{Entry}
use observe_x.Wal.Directory.{id_limit}
use observe_x.Wal.Scan.{AllValid}
use observe_x.Wal.State.{SegmentFile, Wal}
use observe_x.Wal.Open.{
  Flushed, Sealed, file_of, SealedValid, sealed_entries, Holds, Ascends-append,
}
use observe_x.Wal.Bytes.{get_u32}
use observe_x.Wal.Entry.{decode_entry}
use observe_x.Wal.Scan.{walk_segment, walk_loop, then_walk, visit}
use observe_x.Wal.Recovery.{segment_recovered}
use observe_x.Wal.State.{
  discover_segments, dir_failed, walk, walk_files, WalkError, callback, after_segment,
}
use observe_x.Wal.Open.{discover_segments-Ascends}
use observe_x.Wal.Open.{Flushed}

get_u32-zeros : (n : ℕ) → get_u32 (replicate n 0) ≡ 0
unfolding get_u32
get_u32-zeros zero = refl
get_u32-zeros (suc zero) = refl
get_u32-zeros (suc (suc zero)) = refl
get_u32-zeros (suc (suc (suc zero))) = refl
get_u32-zeros (suc (suc (suc (suc n)))) = refl

-- Zeros are no entry.
pub decode_entry-zeros : (n : ℕ) → decode_entry (replicate n 0) ≡ none
unfolding decode_entry
decode_entry-zeros n = rw (get_u32-zeros n) (ground arith)

module _ {ℓ κ} {S : Type ℓ} {E : Type κ} where
  then_walk_assoc :
      (r : S × Option E) (f g : S → S × Option E)
      → then_walk (then_walk r f) g ≡ then_walk r (λ t. then_walk (f t) g)
  then_walk_assoc (t, none) f g = refl
  then_walk_assoc (t, some e) f g = refl

  then_walk_end : (r : S × Option E) → then_walk r (λ t. (t, none)) ≡ r
  then_walk_end (t, none) = refl
  then_walk_end (t, some e) = refl

  -- What Walk returns for a walk of the log.
  abbrev pub lift : S × Option E → S × Option (WalkError E)
  lift (s, o) = (s, Option.map callback o)

module _ {ℓ κ} {S : Type ℓ} {E : Type κ} (fn : Entry → S → S × Option E) where
  visit-append :
      (xs ys : List Entry) (s : S)
      → visit fn (xs ++ ys) s ≡ then_walk (visit fn xs s) (λ t. visit fn ys t)
  unfolding visit
  visit-append [] ys s = refl
  visit-append (x ∷ xs) ys s =
      ap (then_walk (fn x s)) (fun_ext (λ t. visit-append xs ys t))
      ∙ sym (then_walk_assoc (fn x s) (λ t. visit fn xs t) (λ t. visit fn ys t))

  -- A segment is walked by its entries, be it full of zeros behind them or cut off before them.
  walk_segment-Flushed :
      (size : ℕ) (bytes : List ℕ) (es : List Entry) (s : S)
      → Flushed size bytes es
      → AllValid es
      → walk_segment fn bytes s ≡ visit fn es s
  walk_segment-Flushed size bytes es s (inl (e, f)) v =
      rw (e, f) (unfold walk_segment walk_loop visit in refl)
  walk_segment-Flushed size bytes es s (inr (pad, e, _)) v =
      rw e (segment_recovered fn es (replicate pad 0) s v (decode_entry-zeros pad)).1

module _ {ℓ κ} {S : Type ℓ} {E : Type κ} (is_eof : E → Bool) (read_ok : ℕ → Bool)
    (fn : Entry → S → S × Option E) (no_eof : (e : E) → is_eof e ≡ false)
    (reads : (id : ℕ) → read_ok id ≡ true) where
  after_segment-lift :
      (r : S × Option E) (k : S → S × Option E)
      → after_segment is_eof read_ok fn r (λ s. lift (k s)) ≡ lift (then_walk r k)
  after_segment-lift (s, none) k = refl
  after_segment-lift (s, some e) k = rw (no_eof e) refl

  pub walk_files-visit :
      (size : ℕ) (olds : List Sealed) (f : SegmentFile) (es : List Entry) (s : S)
      → SealedValid size olds
      → ((t : S) → walk_segment fn f.bytes t ≡ visit fn es t)
      → walk_files is_eof read_ok fn (map file_of olds ++ f ∷ []) s
        ≡ lift (visit fn (sealed_entries olds ++ es) s)
  unfolding walk_files
  walk_files-visit size [] f es s v ends =
      rw (reads f.id, walk_files, ends s)
        (after_segment-lift (visit fn es s) (λ t. (t, none))
          ∙ ap lift (then_walk_end (visit fn es s)))
  walk_files-visit size (x ∷ xs) f es s v ends =
      rw (reads x.id, walk_files, walk_segment-Flushed fn size x.bytes x.entries s v.1 v.0)
        (ap (after_segment is_eof read_ok fn (visit fn x.entries s))
            (fun_ext (λ t. walk_files-visit size xs f es t v.3 ends))
          ∙ after_segment-lift (visit fn x.entries s) (λ t. visit fn (sealed_entries xs ++ es) t)
          ∙ ap lift (
              rw (append_assoc x.entries (sealed_entries xs) es)
                (sym (visit-append fn x.entries (sealed_entries xs ++ es) s))))

  pub walk_found :
      (w : Wal) (a : S) (segments : List SegmentFile)
      → discover_segments true w.files ≡ some segments
      → walk is_eof read_ok fn true w a ≡ walk_files is_eof read_ok fn segments a
  unfolding walk
  walk_found w a segments e =
      ap
        (λ o. elim o [
          | none ↦ (a, some dir_failed)
          | some found ↦ walk_files is_eof read_ok fn found a
        ])
        e

  -- If the directory and every segment can be read, the active segment's id has at most 16 digits, and
  -- the callback has no io.EOF among its errors, Walk on an open log hands exactly the entries that it holds to the callback, oldest first, up to the callback's first
  -- error, which it returns.
  pub walk-Holds :
      (w : Wal) (s u : List Entry) (a : S)
      → Holds w s u
      → w.segment_id < id_limit
      → walk is_eof read_ok fn true w a ≡ lift (visit fn (s ++ u) a)
  unfolding walk
  walk-Holds w s u a h named =
      walk_found w a _ (
        ap (discover_segments true) h.files_eq
        ∙ discover_segments-Ascends 0 (suc w.segment_id) _
            (Ascends-append _ 0 (suc w.segment_id) (map file_of h.olds) h.ascends (omega arith))
            (omega (arith, named)))
      ∙ rw (h.synced_eq, append_assoc (sealed_entries h.olds) h.flushed u)
          (walk_files-visit w.max_segment_bytes h.olds _ (h.flushed ++ u) a h.olds_valid (λ t.
            walk_segment-Flushed fn w.max_segment_bytes _ (h.flushed ++ u) t
              (inr (h.pad, refl, h.sized)) h.current_valid))
