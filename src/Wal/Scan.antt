-- ===== src/Wal/Scan.antt =====
-- scanValidOffset and walkSegment of pkg/wal/wal.go: recovery of a segment's data.
use observe_x.Prelude.{ℕ, zero, suc, ◌+◌, Option, none, some, List, [], ◌∷◌, ◌++◌, length, drop}
use observe_x.Wal.Entry.{Entry, IsValid, encode_entry, decode_entry}

-- The loop of scanValidOffset; `fuel` bounds the rounds, each of which takes up more than 20 bytes.
unfoldable pub scan_loop : ℕ → List ℕ → ℕ → ℕ
scan_loop zero data' off = off
scan_loop (suc fuel) data' off = elim (decode_entry (drop off data')) [
  | none ↦ off
  | some (size, _) ↦ scan_loop fuel data' (off + size)
]

unfoldable pub scan_valid_offset : List ℕ → ℕ
scan_valid_offset data' = scan_loop (length data') data' 0

module _ {ℓ κ} {S : Type ℓ} {E : Type κ} where
  -- An error of the callback ends the walk.
  abbrev pub then_walk : S × Option E → (S → S × Option E) → S × Option E
  then_walk (s, none) k = k s
  then_walk (s, some err) k = (s, some err)

module _ {ℓ κ} {S : Type ℓ} {E : Type κ} (fn : Entry → S → S × Option E) where
  -- The loop of walkSegment, over a callback with a state of its own.
  unfoldable pub walk_loop : ℕ → List ℕ → ℕ → S → S × Option E
  walk_loop zero data' off s = (s, none)
  walk_loop (suc fuel) data' off s = elim (decode_entry (drop off data')) [
    | none ↦ (s, none)
    | some (size, e) ↦ then_walk (fn e s) (λ s'. walk_loop fuel data' (off + size) s')
  ]

  unfoldable pub walk_segment : List ℕ → S → S × Option E
  walk_segment data' s = walk_loop (length data') data' 0 s

  -- What a walk is to do: hand over the entries in their order until the callback fails.
  unfoldable pub visit : List Entry → S → S × Option E
  visit [] s = (s, none)
  visit (e ∷ es) s = then_walk (fn e s) (λ s'. visit es s')

-- The entries at the start of some bytes.
unfoldable pub entries_from : ℕ → List ℕ → List Entry
entries_from zero rest = []
entries_from (suc fuel) rest = elim (decode_entry rest) [
  | none ↦ []
  | some (size, e) ↦ e ∷ entries_from fuel (drop size rest)
]

unfoldable pub entries_of : List ℕ → List Entry
entries_of data' = entries_from (length data') data'

unfoldable pub encode_all : List Entry → List ℕ
encode_all [] = []
encode_all (e ∷ es) = encode_entry e ++ encode_all es

abbrev pub AllValid : List Entry → Type 0
AllValid [] = Unit
AllValid (e ∷ es) = IsValid e × AllValid es
