-- ===== src/Prelude/Marks.antt =====
-- The placeholders in SQL text.
use Prim.Native.Nat.{ℕ, ◌+◌}
use mathlib.Core.Path.{◌≡◌, refl}
use mathlib.Core.List.{List, [], ◌∷◌, ◌++◌}
use native.Mathlib.Omega.{arith}
use observe_x.Prelude.Text.{Text, join, count, count-append}

-- How many placeholders a text has.
abbrev pub marks : Text → ℕ
marks s = count b'?' s

-- How many placeholders a list of texts has.
abbrev pub total : List Text → ℕ
total [] = 0
total (s ∷ ss) = marks s + total ss

pub total-append : (xs ys : List Text) → total (xs ++ ys) ≡ total xs + total ys
total-append [] ys = omega arith
total-append (x ∷ xs) ys = omega (arith, total-append xs ys)

pub join-marks : (sep : Text) (ss : List Text) → marks sep ≡ 0 → marks (join sep ss) ≡ total ss
unfolding join count
join-marks sep [] h = refl
join-marks sep (s ∷ []) h = omega arith
join-marks sep (s ∷ (t ∷ rest)) h = omega (
  arith,
  h,
  join-marks sep (t ∷ rest) h,
  count-append b'?' s (sep ++ join sep (t ∷ rest)),
  count-append b'?' sep (join sep (t ∷ rest)),
)
