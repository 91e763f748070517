-- ===== src/Wal/Mixing.antt =====
-- The bytes of a file of pkg/wal/wal.go behind a crash.
use observe_x.Prelude.{
  ℕ, zero, suc, ◌≡◌, refl, ap, ◌∙◌, ◌⊎◌, inl, inr, List, [], ◌∷◌, ◌++◌, length, replicate,
}

-- Each byte is the one of the last fsync, where there is one and zero otherwise, or the one of the page cache.
abbrev pub Mixed : List ℕ → List ℕ → List ℕ → Type 0
Mixed xs [] zs = zs ≡ []
Mixed [] (y ∷ ys) zs =
    (z : ℕ) × (zs' : List ℕ) × (zs ≡ z ∷ zs') × ((z ≡ 0) ⊎ (z ≡ y)) × Mixed [] ys zs'
Mixed (x ∷ xs) (y ∷ ys) zs =
    (z : ℕ) × (zs' : List ℕ) × (zs ≡ z ∷ zs') × ((z ≡ x) ⊎ (z ≡ y)) × Mixed xs ys zs'

pub Mixed-same : (xs zs : List ℕ) → Mixed xs xs zs → zs ≡ xs
Mixed-same [] zs m = m
Mixed-same (x ∷ xs) zs (z, zs', e, one, m) = elim one [
  | inl h ↦ cc (e, h, Mixed-same xs zs' m)
  | inr h ↦ cc (e, h, Mixed-same xs zs' m)
]

pub Mixed-zeros : (n : ℕ) (zs : List ℕ) → Mixed [] (replicate n 0) zs → zs ≡ replicate n 0
Mixed-zeros zero zs m = m
Mixed-zeros (suc n) zs (z, zs', e, one, m) = elim one [
  | inl h ↦ cc (e, h, Mixed-zeros n zs' m)
  | inr h ↦ cc (e, h, Mixed-zeros n zs' m)
]

pub Mixed-length : (xs ys zs : List ℕ) → Mixed xs ys zs → length zs ≡ length ys
Mixed-length [] [] zs m = ap length m
Mixed-length (x ∷ xs) [] zs m = ap length m
Mixed-length [] (y ∷ ys) zs (z, zs', e, _, m) = ap length e ∙ ap suc (Mixed-length [] ys zs' m)
Mixed-length (x ∷ xs) (y ∷ ys) zs (z, zs', e, _, m) =
    ap length e ∙ ap suc (Mixed-length xs ys zs' m)

pub Mixed-append :
    (ps xs ys zs : List ℕ)
    → Mixed (ps ++ xs) (ps ++ ys) zs
    → (rest : List ℕ) × (zs ≡ ps ++ rest) × (length rest ≡ length ys)
Mixed-append [] xs ys zs m = (zs, refl, Mixed-length xs ys zs m)
Mixed-append (p ∷ ps) xs ys zs (z, zs', e, one, m) =
    let (rest, e', l) = Mixed-append ps xs ys zs' m in
    elim one [ inl h ↦ (rest, cc (e, h, e'), l) | inr h ↦ (rest, cc (e, h, e'), l) ]
