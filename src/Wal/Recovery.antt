-- ===== src/Wal/Recovery.antt =====
-- What the two loops of recovery find, for any bytes and for the bytes that Write leaves.
use native.Mathlib.Nat.{suc-add}
use mathlib.Core.Path.{fun_ext}
use observe_x.Prelude.{
  ℕ, zero, suc, ◌+◌, ◌-◌, ◌≤◌, ◌<◌, ◌≡◌, refl, sym, ap, ◌∙◌, inl, inr, Option, none, some, List, [],
  ◌∷◌, ◌++◌, append_assoc, arith, length, drop, length-append, drop-append, Option-cases,
  length-drop, length-take,
}
use observe_x.Wal.Bytes.{get_u32}
use observe_x.Wal.Entry.{
  Entry, log_header_size, encode_entry, decode_entry, decode-encode_entry, length-encode_entry,
}
use observe_x.Wal.Scan.{
  scan_loop, scan_valid_offset, walk_loop, walk_segment, then_walk, visit, entries_from, entries_of,
  encode_all, AllValid,
}

drop-nil : (n : ℕ) → drop {A = ℕ} n [] ≡ []
drop-nil zero = refl
drop-nil (suc n) = refl

pub drop-drop : (a b : ℕ) (xs : List ℕ) → drop (a + b) xs ≡ drop b (drop a xs)
drop-drop zero b xs = ap (λ n. drop n xs) (omega arith)
drop-drop (suc a) b [] = drop-nil (suc a + b) ∙ sym (drop-nil b)
drop-drop (suc a) b (x ∷ xs) = rw (suc-add a b) (drop-drop a b xs)

-- Reading is sound: what decodes is a valid entry, and takes up what Write puts down for one.
pub decode_entry-size :
    (r : List ℕ) (n : ℕ) (e : Entry)
    → decode_entry r ≡ some (n, e)
    → (n ≡ log_header_size + length e.payload) × (n ≤ length r) × (0 < length e.payload)
unfolding decode_entry
decode_entry-size r n e h =
    ground (arith, length-take (get_u32 (drop 4 r)) (drop 20 r), length-drop 20 r)

-- The scan's offset lies behind the entries that are found from its start on.
pub scan_loop-entries :
    (fuel : ℕ) (bytes : List ℕ) (off : ℕ)
    → scan_loop fuel bytes off ≡ off + length (encode_all (entries_from fuel (drop off bytes)))
unfolding scan_loop entries_from encode_all
scan_loop-entries zero bytes off = omega arith
scan_loop-entries (suc fuel) bytes off = elim (Option-cases (decode_entry (drop off bytes))) [
  | inl stop ↦ rw (stop, scan_loop, entries_from) (omega arith)
  | inr ((n, e), found) ↦
      rw (found, scan_loop, entries_from)
        (omega (
          arith,
          (decode_entry-size (drop off bytes) n e found).0,
          length-encode_entry e,
          length-append (encode_entry e) (encode_all (entries_from fuel (drop n (drop off bytes)))),
          rw (drop-drop off n bytes) at (scan_loop-entries fuel bytes (off + n)),
        ))
]

module _ {ℓ κ} {S : Type ℓ} {E : Type κ} (fn : Entry → S → S × Option E) where
  pub walk_loop-visit :
      (fuel : ℕ) (bytes : List ℕ) (off : ℕ) (s : S)
      → walk_loop fn fuel bytes off s ≡ visit fn (entries_from fuel (drop off bytes)) s
  unfolding walk_loop entries_from visit
  walk_loop-visit zero bytes off s = refl
  walk_loop-visit (suc fuel) bytes off s = elim (Option-cases (decode_entry (drop off bytes))) [
    | inl stop ↦ rw (stop, walk_loop, entries_from) refl
    | inr ((n, e), found) ↦
        rw (found, walk_loop, entries_from)
          (ap (then_walk (fn e s)) (
            fun_ext (λ s'.
              walk_loop-visit fuel bytes (off + n) s'
              ∙ ap (λ r. visit fn (entries_from fuel r) s') (drop-drop off n bytes))))
  ]

entries_from_step :
    (fuel : ℕ) (r : List ℕ) (n : ℕ) (e : Entry)
    → decode_entry r ≡ some (n, e)
    → entries_from (suc fuel) r ≡ e ∷ entries_from fuel (drop n r)
unfolding entries_from
entries_from_step fuel r n e found = rw (found, entries_from) refl

-- Written entries are found first, whatever follows them.
entries_from-prefix :
    (fuel k : ℕ) (es : List Entry) (rest : List ℕ)
    → AllValid es
    → fuel ≡ length es + k
    → entries_from fuel (encode_all es ++ rest) ≡ es ++ entries_from k rest
unfolding encode_all
entries_from-prefix fuel k [] rest v h = ap (λ n. entries_from n rest) (omega (arith, h))
entries_from-prefix zero k (e ∷ es) rest v h = absurd (omega (arith, h))
entries_from-prefix (suc fuel) k (e ∷ es) rest v h =
    entries_from_step fuel (encode_all (e ∷ es) ++ rest) (log_header_size + length e.payload) e
      (rw append_assoc (decode-encode_entry e (encode_all es ++ rest) v.0))
    ∙ ap (◌∷◌ e) (
        rw (append_assoc, ← length-encode_entry e, drop-append)
          (entries_from-prefix fuel k es rest v.1 (omega (arith, h))))

-- The entries written are the entries found, where what follows them is no entry.
entries_from-encode_all :
    (fuel : ℕ) (es : List Entry) (rest : List ℕ)
    → AllValid es
    → length es ≤ fuel
    → decode_entry rest ≡ none
    → entries_from fuel (encode_all es ++ rest) ≡ es
unfolding entries_from encode_all
entries_from-encode_all zero [] rest v h stop = refl
entries_from-encode_all zero (e ∷ es) rest v h stop = absurd (omega arith)
entries_from-encode_all (suc fuel) [] rest v h stop = rw (stop, entries_from) refl
entries_from-encode_all (suc fuel) (e ∷ es) rest v h stop =
    entries_from_step fuel (encode_all (e ∷ es) ++ rest) (log_header_size + length e.payload) e
      (rw append_assoc (decode-encode_entry e (encode_all es ++ rest) v.0))
    ∙ ap (◌∷◌ e) (
        rw (append_assoc, ← length-encode_entry e, drop-append)
          (entries_from-encode_all fuel es rest v.1 (omega arith) stop))

pub length-le-encode_all : (es : List Entry) → length es ≤ length (encode_all es)
unfolding encode_all
length-le-encode_all [] = omega arith
length-le-encode_all (e ∷ es) = omega (
  arith,
  length-append (encode_entry e) (encode_all es),
  length-encode_entry e,
  length-le-encode_all es,
)

pub entries_of-encode_all :
    (es : List Entry) (rest : List ℕ)
    → AllValid es
    → decode_entry rest ≡ none
    → entries_of (encode_all es ++ rest) ≡ es
unfolding entries_of
entries_of-encode_all es rest v stop =
    entries_from-encode_all _ es rest v
      (omega (arith, length-append (encode_all es) rest, length-le-encode_all es)) stop

pub entries_of-starts :
    (es : List Entry) (rest : List ℕ)
    → AllValid es
    → (extra : List Entry) × (entries_of (encode_all es ++ rest) ≡ es ++ extra)
unfolding entries_of
entries_of-starts es rest v =
    let k = length (encode_all es ++ rest) - length es in
    (
      entries_from k rest,
      entries_from-prefix _ k es rest v
          (omega (arith, length-append (encode_all es) rest, length-le-encode_all es)),
    )

pub entries_of-none : (bytes : List ℕ) → decode_entry bytes ≡ none → entries_of bytes ≡ []
unfolding entries_of entries_from
entries_of-none bytes stop = none_from (length bytes)
  where
    none_from : (fuel : ℕ) → entries_from fuel bytes ≡ []
    none_from zero = refl
    none_from (suc fuel) = rw (stop, entries_from) refl

-- Both loops find the entries at the start of the bytes.
pub scan_valid_offset-entries_of :
    (bytes : List ℕ) → scan_valid_offset bytes ≡ length (encode_all (entries_of bytes))
unfolding scan_valid_offset entries_of
scan_valid_offset-entries_of bytes = omega (arith, scan_loop-entries (length bytes) bytes 0)

pub walk_segment-entries_of {ℓ κ} :
    {S : Type ℓ} {E : Type κ} (fn : Entry → S → S × Option E) (bytes : List ℕ) (s : S)
    → walk_segment fn bytes s ≡ visit fn (entries_of bytes) s
unfolding walk_segment entries_of
walk_segment-entries_of fn bytes s = walk_loop-visit fn (length bytes) bytes 0 s

-- On a segment that holds valid entries and then bytes that are no entry (zeros, a torn or corrupt
-- entry), scanValidOffset gives the offset just behind the entries, and walkSegment hands exactly
-- these entries to the callback in their order, up to the callback's first error. So they do not skip a
-- corrupt entry: what stands behind it, valid entries too, is not recovered.
pub segment_recovered {ℓ κ} :
    {S : Type ℓ} {E : Type κ} (fn : Entry → S → S × Option E) (es : List Entry) (rest : List ℕ)
    (s : S)
    → AllValid es
    → decode_entry rest ≡ none
    → (scan_valid_offset (encode_all es ++ rest) ≡ length (encode_all es))
      × (walk_segment fn (encode_all es ++ rest) s ≡ visit fn es s)
unfolding scan_valid_offset walk_segment
segment_recovered fn es rest s v stop =
    let found : entries_from (length (encode_all es ++ rest)) (encode_all es ++ rest) ≡ es =
      unfold entries_of in entries_of-encode_all es rest v stop in
    (
      omega (
        arith,
        scan_loop-entries (length (encode_all es ++ rest)) (encode_all es ++ rest) 0,
        ap (λ l. length (encode_all l)) found,
      ),
      walk_loop-visit fn _ _ 0 s ∙ ap (λ l. visit fn l s) found,
    )
