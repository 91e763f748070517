-- ===== src/Wal/Soundness.antt =====
-- The two loops of pkg/wal/wal.go on any bytes.
use observe_x.Prelude.{
  ℕ, zero, suc, ◌+◌, ◌≤◌, ◌<◌, ◌≡◌, refl, ap, inl, inr, Option, none, some, List, [], ◌∷◌, ◌++◌,
  append_assoc, arith, length, take, drop, Option-cases, length-drop,
}
use observe_x.Wal.Bytes.{u32_mod, get_u32, put_u32, get_u64, put_u64, crc32}
use observe_x.Wal.Entry.{Entry, IsValid, log_magic, log_header_size, encode_entry, decode_entry}
use observe_x.Wal.Scan.{scan_valid_offset, walk_segment, visit, entries_from, encode_all, AllValid}
use observe_x.Wal.Recovery.{decode_entry-size, scan_loop-entries, walk_loop-visit, drop-drop}

abbrev pub AllBytes : List ℕ → Type 0
AllBytes [] = Unit
AllBytes (b ∷ bs) = (b < 256) × AllBytes bs

drop-AllBytes : (n : ℕ) (bs : List ℕ) → AllBytes bs → AllBytes (drop n bs)
drop-AllBytes zero bs h = h
drop-AllBytes (suc n) [] h = h
drop-AllBytes (suc n) (b ∷ bs) h = drop-AllBytes n bs h.1

put-get_u32 : (r : List ℕ) → 4 ≤ length r → AllBytes r → put_u32 (get_u32 r) ++ drop 4 r ≡ r
unfolding put_u32 get_u32
put-get_u32 [] h b = absurd (omega arith)
put-get_u32 (w ∷ []) h b = absurd (omega arith)
put-get_u32 (w ∷ x ∷ []) h b = absurd (omega arith)
put-get_u32 (w ∷ x ∷ y ∷ []) h b = absurd (omega arith)
put-get_u32 (w ∷ x ∷ y ∷ z ∷ r) h b = ground arith

get_u32_bound : (r : List ℕ) → AllBytes r → get_u32 r < u32_mod
unfolding get_u32
get_u32_bound [] b = omega arith
get_u32_bound (w ∷ []) b = omega arith
get_u32_bound (w ∷ x ∷ []) b = omega arith
get_u32_bound (w ∷ x ∷ y ∷ []) b = omega arith
get_u32_bound (w ∷ x ∷ y ∷ z ∷ r) b = omega arith

put-get_u64 : (r : List ℕ) → 8 ≤ length r → AllBytes r → put_u64 (get_u64 r) ++ drop 8 r ≡ r
unfolding put_u64 get_u64 put_u32 get_u32
put-get_u64 (a ∷ b ∷ c ∷ d ∷ w ∷ x ∷ y ∷ z ∷ r) h l = ground arith
put-get_u64 _ h l = absurd (omega arith)

get_u64_bound : (r : List ℕ) → AllBytes r → get_u64 r < 18446744073709551616
unfolding get_u64
get_u64_bound [] b = omega arith
get_u64_bound (w ∷ []) b = omega arith
get_u64_bound (w ∷ x ∷ []) b = omega arith
get_u64_bound (w ∷ x ∷ y ∷ []) b = omega arith
get_u64_bound (w ∷ x ∷ y ∷ z ∷ r) b = omega (
  arith,
  get_u32_bound r b.1.1.1.1,
  get_u32_bound (w ∷ x ∷ y ∷ z ∷ []) (b.0, (b.1.0, (b.1.1.0, (b.1.1.1.0, tt)))),
)

take-drop : (n : ℕ) (r : List ℕ) → take n r ++ drop n r ≡ r
take-drop zero r = refl
take-drop (suc n) [] = refl
take-drop (suc n) (x ∷ r) = ap (◌∷◌ x) (take-drop n r)

-- The facts that decode_entry has checked.
record Checked (r : List ℕ) (n : ℕ) (e : Entry) : Type 0 where
  room : n ≤ length r
  magic : get_u32 r ≡ log_magic
  size : n ≡ log_header_size + get_u32 (drop 4 r)
  crc : get_u32 (drop 8 r) ≡ crc32 e.payload
  stamp : e.timestamp ≡ get_u64 (drop 12 r)
  body : e.payload ≡ take (get_u32 (drop 4 r)) (drop 20 r)

decode_entry-Checked :
    (r : List ℕ) (n : ℕ) (e : Entry) → decode_entry r ≡ some (n, e) → Checked r n e
unfolding decode_entry
decode_entry-Checked r n e h = record {
  room = ground arith;
  magic = ground arith;
  size = ground arith;
  crc = ground arith;
  stamp = ground arith;
  body = ground arith;
}

decode_entry-IsValid :
    (r : List ℕ) (n : ℕ) (e : Entry) → decode_entry r ≡ some (n, e) → AllBytes r → IsValid e
decode_entry-IsValid r n e h b = record {
  nonempty = (decode_entry-size r n e h).2;
  short = omega (
    arith,
    (decode_entry-size r n e h).0,
    (decode_entry-Checked r n e h).size,
    get_u32_bound (drop 4 r) (drop-AllBytes 4 r b),
  );
  stamped =
      rw ((decode_entry-Checked r n e h).stamp) (get_u64_bound (drop 12 r) (drop-AllBytes 12 r b));
}

-- The bytes that decode are those which Write puts down for the entry.
decode_entry-encode :
    (r : List ℕ) (n : ℕ) (e : Entry)
    → decode_entry r ≡ some (n, e)
    → AllBytes r
    → encode_entry e ++ drop n r ≡ r
unfolding encode_entry
decode_entry-encode r n e h b = simp append_assoc (
    rw (← c.magic, len, ← c.crc, c.stamp, tail_20, tail_12, tail_8, tail_4)
      (put-get_u32 r (omega (arith, long)) b))
  where
    c : Checked r n e
    c = decode_entry-Checked r n e h

    long : log_header_size ≤ length r
    long = omega (arith, c.room, c.size)

    len : length e.payload ≡ get_u32 (drop 4 r)
    len = omega (arith, (decode_entry-size r n e h).0, c.size)

    tail_20 : e.payload ++ drop n r ≡ drop 20 r
    tail_20 =
        rw (c.body, c.size, drop-drop 20 (get_u32 (drop 4 r)) r)
          (take-drop (get_u32 (drop 4 r)) (drop 20 r))

    tail_12 : put_u64 (get_u64 (drop 12 r)) ++ drop 20 r ≡ drop 12 r
    tail_12 =
        rw (drop-drop 12 8 r)
          (put-get_u64 (drop 12 r) (omega (arith, long, length-drop 12 r)) (drop-AllBytes 12 r b))

    tail_8 : put_u32 (get_u32 (drop 8 r)) ++ drop 12 r ≡ drop 8 r
    tail_8 =
        rw (drop-drop 8 4 r)
          (put-get_u32 (drop 8 r) (omega (arith, long, length-drop 8 r)) (drop-AllBytes 8 r b))

    tail_4 : put_u32 (get_u32 (drop 4 r)) ++ drop 8 r ≡ drop 4 r
    tail_4 =
        rw (drop-drop 4 4 r)
          (put-get_u32 (drop 4 r) (omega (arith, long, length-drop 4 r)) (drop-AllBytes 4 r b))

-- The bytes are the encoded entries and a rest that is no entry.
abbrev Splits : List ℕ → List Entry → Type 0
Splits r es =
    AllValid es × ((rest : List ℕ) × (encode_all es ++ rest ≡ r) × (decode_entry rest ≡ none))

Splits-cons :
    (r : List ℕ) (n : ℕ) (e : Entry) (es : List Entry)
    → decode_entry r ≡ some (n, e)
    → AllBytes r
    → Splits (drop n r) es
    → Splits r (e ∷ es)
unfolding encode_all
Splits-cons r n e es found b h = (
  (decode_entry-IsValid r n e found b, h.0),
  (h.1.0, rw (append_assoc, h.1.1) (decode_entry-encode r n e found b), h.1.2),
)

-- Fuel for every byte is enough.
entries_from-Splits :
    (fuel : ℕ) (r : List ℕ) → length r ≤ fuel → AllBytes r → Splits r (entries_from fuel r)
unfolding entries_from encode_all
entries_from-Splits zero [] h b = (tt, ([], refl, unfold decode_entry in refl))
entries_from-Splits zero (x ∷ r) h b = absurd (omega arith)
entries_from-Splits (suc fuel) r h b = elim (Option-cases (decode_entry r)) [
  | inl stop ↦ rw (stop, entries_from) (tt, (r, refl, stop))
  | inr ((n, e), found) ↦
      rw (found, entries_from)
        (Splits-cons r n e (entries_from fuel (drop n r)) found b (
          entries_from-Splits fuel (drop n r)
            (omega (arith, decode_entry-size r n e found, length-drop n r)) (drop-AllBytes n r b)))
]

-- On any bytes at all, scanValidOffset and walkSegment find the same entries: all are valid, the
-- bytes up to the offset are exactly what Write puts down for them, what follows is no entry, and the
-- callback sees them in their order up to its first error. The bytes behind the first one that is no
-- entry are not searched for further entries.
pub segment_sound {ℓ κ} :
    {S : Type ℓ} {E : Type κ} (fn : Entry → S → S × Option E) (bytes : List ℕ) (s : S)
    → AllBytes bytes
    → (es : List Entry) × AllValid es
      × ((rest : List ℕ) × (encode_all es ++ rest ≡ bytes) × (decode_entry rest ≡ none))
      × (scan_valid_offset bytes ≡ length (encode_all es))
      × (walk_segment fn bytes s ≡ visit fn es s)
unfolding scan_valid_offset walk_segment
segment_sound fn bytes s b =
    let found = entries_from-Splits (length bytes) bytes (omega arith) b in
    (
      entries_from (length bytes) bytes,
      found.0,
      found.1,
      omega (arith, scan_loop-entries (length bytes) bytes 0),
      walk_loop-visit fn (length bytes) bytes 0 s,
    )
