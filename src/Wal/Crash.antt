-- ===== src/Wal/Crash.antt =====
-- What a crash of the machine may leave of the files of pkg/wal/wal.go.
use mathlib.Core.Path.{subst}
use observe_x.Prelude.{
  ℕ, suc, ◌+◌, ◌≤◌, ◌<◌, ◌≡◌, refl, sym, ap, ◌∙◌, ◌⊎◌, inl, inr, List, [], ◌∷◌, ◌++◌, length,
  replicate, map, arith, length-append, append-nil, append_assoc, length-replicate,
}
use observe_x.Wal.Entry.{Entry}
use observe_x.Wal.Scan.{encode_all, AllValid}
use observe_x.Wal.State.{SegmentFile}
use observe_x.Wal.Open.{
  filled, Flushed, Sealed, file_of, Ascends, SealedValid, sealed_entries, encode_all-append,
}
use observe_x.Wal.Mixing.{Mixed, Mixed-same, Mixed-zeros, Mixed-length, Mixed-append}

-- What may be on the disk behind a crash, file by file: any mixture of what the last fsync left and what the kernel has written
-- back since. A file that no fsync has reached may also be empty, or missing, since the directory is not synced; one that has
-- been synced keeps its name and its size.
abbrev pub Leaves : List SegmentFile → List SegmentFile → Type 0
Leaves [] gs = gs ≡ []
Leaves (f ∷ fs) gs =
    ((f.durable ≡ []) × Leaves fs gs)
    ⊎ ((bs : List ℕ) × (rest : List SegmentFile) × (gs
          ≡ record { id = f.id; bytes = bs; durable = bs } ∷ rest)
        × (((f.durable ≡ []) × (bs ≡ [])) ⊎ Mixed f.durable f.bytes bs)
        × Leaves fs rest)

-- A segment that was rotated away comes back with its entries, or empty if it had none.
Mixed-Flushed :
    (size : ℕ) (es : List Entry) (bytes durable bs : List ℕ)
    → Flushed size bytes es
    → Flushed size durable es
    → Mixed durable bytes bs
    → Flushed size bs es
Mixed-Flushed size es bytes durable bs (inl (b, e)) d m =
    inl (subst (λ ys. Mixed durable ys bs) b m, e)
Mixed-Flushed size es bytes durable bs (inr (pad, b, l)) (inl (d, e)) m =
    let zeros : bytes ≡ replicate pad 0 = b ∙ unfold encode_all in ap (λ xs. filled xs pad) e in
    let mixed : Mixed [] (replicate pad 0) bs =
      subst (λ ys. Mixed [] ys bs) zeros (subst (λ xs. Mixed xs bytes bs) d m) in
    inr (pad, Mixed-zeros pad bs mixed ∙ sym zeros ∙ b, l)
Mixed-Flushed size es bytes durable bs (inr (pad, b, l)) (inr (pad', d, l')) m =
    let same : durable ≡ bytes = d ∙ ap (filled es) (omega (arith, l, l')) ∙ sym b in
    inr (pad, Mixed-same bytes bs (subst (λ xs. Mixed xs bytes bs) same m) ∙ b, l)

-- The files behind a crash: sealed segments, then one that starts with entries, which are together the entries given.
pub record Survivors (size lo top : ℕ) (gs : List SegmentFile) (s : List Entry) : Type 0 where
  pub olds : List Sealed
  pub id : ℕ
  pub entries : List Entry
  pub rest : List ℕ
  pub durable : List ℕ
  pub files_eq :
      gs
      ≡ map file_of olds
        ++ record { id = id; bytes = encode_all entries ++ rest; durable = durable } ∷ []
  pub ascends : Ascends lo id (map file_of olds)
  pub below : id ≤ top
  pub olds_valid : SealedValid size olds
  pub valid : AllValid entries
  pub fits : length (encode_all entries ++ rest) ≤ size
  pub kept : s ≡ sealed_entries olds ++ entries

abbrev pub After : ℕ → ℕ → ℕ → List SegmentFile → List Entry → Type 0
After size lo top gs s = ((gs ≡ []) × (s ≡ [])) ⊎ Survivors size lo top gs s

After-lowered :
    (size lo lo' top : ℕ) (gs : List SegmentFile) (s : List Entry)
    → lo ≤ lo'
    → After size lo' top gs s
    → After size lo top gs s
After-lowered size lo lo' top gs s h (inl e) = inl e
After-lowered size lo lo' top gs s h (inr v) = inr (record {
  olds = v.olds;
  id = v.id;
  entries = v.entries;
  rest = v.rest;
  durable = v.durable;
  files_eq = v.files_eq;
  ascends = lowered v.olds v.ascends;
  below = v.below;
  olds_valid = v.olds_valid;
  valid = v.valid;
  fits = v.fits;
  kept = v.kept;
})
  where
    lowered :
        (olds : List Sealed)
        → Ascends lo' v.id (map file_of olds)
        → Ascends lo v.id (map file_of olds)
    lowered [] a = omega (arith, h, a)
    lowered (o ∷ os) a = (omega (arith, h, a.0), a.1)

Ascends-le : (lo top : ℕ) (xs : List SegmentFile) → Ascends lo top xs → lo ≤ top
Ascends-le lo top [] a = a
Ascends-le lo top (x ∷ xs) a = omega (arith, a.0, Ascends-le (suc x.id) top xs a.1)

Flushed-none :
    (size : ℕ) (durable : List ℕ) (es : List Entry)
    → 0 < size
    → Flushed size durable es
    → durable ≡ []
    → es ≡ []
Flushed-none size durable es pos (inl (d, e)) h = e
Flushed-none size durable es pos (inr (pad, d, l)) h = absurd (
    omega (
      arith,
      pos,
      l,
      ap length (sym d ∙ h),
      length-append (encode_all es) (replicate pad 0),
      length-replicate {A = ℕ} pad 0,
    ))

no_entries :
    (size : ℕ) (bytes : List ℕ) (es : List Entry)
    → es ≡ []
    → length bytes ≤ size
    → (rest : List ℕ) × (bytes ≡ encode_all es ++ rest) × (length (encode_all es ++ rest) ≤ size)
unfolding encode_all
no_entries size bytes es e h = (
  bytes,
  sym (ap (λ l. encode_all l ++ bytes) e),
  omega (arith, h, ap (λ l. length (encode_all l ++ bytes)) e),
)

Flushed-starts :
    (size : ℕ) (bytes : List ℕ) (es : List Entry)
    → Flushed size bytes es
    → (rest : List ℕ) × (bytes ≡ encode_all es ++ rest) × (length (encode_all es ++ rest) ≤ size)
Flushed-starts size bytes es (inl (b, e)) = no_entries size bytes es e (omega (arith, ap length b))
Flushed-starts size bytes es (inr (pad, b, l)) = (
  replicate pad 0,
  b,
  omega (arith, l, length-append (encode_all es) (replicate pad 0), length-replicate {A = ℕ} pad 0),
)

module _ (size top pad : ℕ) (flushed u : List Entry) (durable : List ℕ) (pos : 0 < size)
    (on_disk : Flushed size durable flushed) (valid : AllValid flushed)
    (full : length (encode_all (flushed ++ u)) + pad ≡ size) where
  abbrev pub active : SegmentFile
  active = record { id = top; bytes = filled (flushed ++ u) pad; durable = durable }

  active-starts :
      (bs : List ℕ)
      → ((durable ≡ []) × (bs ≡ [])) ⊎ Mixed durable (filled (flushed ++ u) pad) bs
      → (rest : List ℕ) × (bs ≡ encode_all flushed ++ rest)
        × (length (encode_all flushed ++ rest) ≤ size)
  active-starts bs (inl (d, e)) =
      no_entries size bs flushed (Flushed-none size durable flushed pos on_disk d)
        (omega (arith, ap length e))
  active-starts bs (inr m) = by_disk on_disk
    where
      size_of : length bs ≡ size
      size_of = omega (
        arith,
        full,
        Mixed-length durable (filled (flushed ++ u) pad) bs m,
        length-append (encode_all (flushed ++ u)) (replicate pad 0),
        length-replicate {A = ℕ} pad 0,
      )

      by_disk :
          Flushed size durable flushed
          → (rest : List ℕ) × (bs ≡ encode_all flushed ++ rest)
            × (length (encode_all flushed ++ rest) ≤ size)
      by_disk (inl (d, e)) = no_entries size bs flushed e (omega (arith, size_of))
      by_disk (inr (pad', d, l)) =
          let found =
            Mixed-append (encode_all flushed) (replicate pad' 0) (encode_all u ++ replicate pad 0)
              bs
              (subst (λ ys. Mixed (filled flushed pad') ys bs)
                (ap (λ t. t ++ replicate pad 0) (encode_all-append flushed u)
                  ∙ append_assoc (encode_all flushed) (encode_all u) (replicate pad 0))
                (subst (λ xs. Mixed xs (filled (flushed ++ u) pad) bs) d m)) in
          (found.0, found.1, omega (arith, size_of, ap length found.1))

  -- Behind a crash, the files hold all synced entries.
  pub crash-After :
      (lo : ℕ) (olds : List Sealed) (gs : List SegmentFile)
      → Ascends lo top (map file_of olds)
      → SealedValid size olds
      → Leaves (map file_of olds ++ active ∷ []) gs
      → After size lo top gs (sealed_entries olds ++ flushed)
  crash-After lo [] gs a v (inl (d, e)) = inl (e, Flushed-none size durable flushed pos on_disk d)
  crash-After lo [] gs a v (inr (bs, later, e, one, none_later)) =
      let (rest, starts, fits) = active-starts bs one in
      inr (record {
        olds = [];
        id = top;
        entries = flushed;
        rest = rest;
        durable = bs;
        files_eq = cc (e, none_later, starts);
        ascends = a;
        below = omega arith;
        olds_valid = tt;
        valid = valid;
        fits = fits;
        kept = refl;
      })
  crash-After lo (o ∷ os) gs a v (inl (d, rest)) =
      let nothing = Flushed-none size o.durable o.entries pos v.2 d in
      subst (λ es. After size lo top gs ((es ++ sealed_entries os) ++ flushed)) (sym nothing)
        (After-lowered size lo (suc o.id) top gs (sealed_entries os ++ flushed) (omega (arith, a.0))
          (crash-After (suc o.id) os gs a.1 v.3 rest))
  crash-After lo (o ∷ os) gs a v (inr (bs, later, e, one, rest)) =
      let back : Flushed size bs o.entries = came_back one in
      in_front back (crash-After (suc o.id) os later a.1 v.3 rest)
    where
      came_back :
          ((o.durable ≡ []) × (bs ≡ [])) ⊎ Mixed o.durable o.bytes bs → Flushed size bs o.entries
      came_back (inl (d, b)) = inl (b, Flushed-none size o.durable o.entries pos v.2 d)
      came_back (inr m) = Mixed-Flushed size o.entries o.bytes o.durable bs v.1 v.2 m

      in_front :
          Flushed size bs o.entries
          → After size (suc o.id) top later (sealed_entries os ++ flushed)
          → After size lo top gs ((o.entries ++ sealed_entries os) ++ flushed)
      in_front back (inl (none_later, nothing)) =
          let (zeros, starts, fits) = Flushed-starts size bs o.entries back in
          inr (record {
            olds = [];
            id = o.id;
            entries = o.entries;
            rest = zeros;
            durable = bs;
            files_eq = cc (e, none_later, starts);
            ascends = a.0;
            below = omega (arith, Ascends-le (suc o.id) top (map file_of os) a.1);
            olds_valid = tt;
            valid = v.0;
            fits = fits;
            kept =
                append_assoc o.entries (sealed_entries os) flushed
                ∙ ap (λ t. o.entries ++ t) nothing
                ∙ append-nil o.entries;
          })
      in_front back (inr t) = inr (record {
        olds = record { id = o.id; entries = o.entries; bytes = bs; durable = bs } ∷ t.olds;
        id = t.id;
        entries = t.entries;
        rest = t.rest;
        durable = t.durable;
        files_eq = e ∙ ap (◌∷◌ (record { id = o.id; bytes = bs; durable = bs })) t.files_eq;
        ascends = (a.0, t.ascends);
        below = t.below;
        olds_valid = (v.0, back, back, t.olds_valid);
        valid = t.valid;
        fits = t.fits;
        kept =
            append_assoc o.entries (sealed_entries os) flushed
            ∙ ap (λ l. o.entries ++ l) t.kept
            ∙ sym (append_assoc o.entries (sealed_entries t.olds) t.entries);
      })
