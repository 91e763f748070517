-- ===== src/Prelude/Dict.antt =====
-- A Go map with text keys as an association list: reading, writing and deleting one key.
use mathlib.Core.Path.{◌≡◌, refl}
use mathlib.Core.Option.{Option, none, some}
use mathlib.Core.List.{List, [], ◌∷◌}
use Prim.Native.String.{String}
use text.Mathlib.Text.{◌==◌ as str_eq}
use text.Mathlib.TextEquality.{eq_iff}
use text.Mathlib.TextPositions.{eq_refl}
use native.Mathlib.Omega.{arith}
use observe_x.Prelude.Tests.{if◌then◌else◌}

-- What is stored under a key, the first entry with it if there are several.
unfoldable pub lookup {ℓ} : {A : Type ℓ} → String → List (String × A) → Option A
lookup key [] = none
lookup key (entry ∷ rest) = if str_eq entry.0 key then some entry.1 else lookup key rest

-- Deletion takes out every entry with the key.
unfoldable pub delete {ℓ} : {A : Type ℓ} → String → List (String × A) → List (String × A)
delete key [] = []
delete key (entry ∷ rest) =
    let others = delete key rest in if str_eq entry.0 key then others else entry ∷ others

-- Insertion replaces the entry with the key where it stands, or adds one at the end.
unfoldable pub insert {ℓ} : {A : Type ℓ} → String → A → List (String × A) → List (String × A)
insert key a [] = (key, a) ∷ []
insert key a (entry ∷ rest) =
    if str_eq entry.0 key then (key, a) ∷ rest else entry ∷ insert key a rest

pub lookup-delete {ℓ} :
    {A : Type ℓ} (key other : String) (dict : List (String × A))
    → lookup other (delete key dict) ≡ (if str_eq key other then none else lookup other dict)
unfolding lookup delete
lookup-delete key other [] = ground (arith, eq_iff key other)
lookup-delete key other (entry ∷ rest) = ground (
  arith,
  lookup-delete key other rest,
  eq_iff entry.0 other,
  eq_iff entry.0 key,
  eq_iff key other,
)

pub lookup-insert {ℓ} :
    {A : Type ℓ} (key other : String) (a : A) (dict : List (String × A))
    → lookup other (insert key a dict) ≡ (if str_eq key other then some a else lookup other dict)
unfolding lookup insert
lookup-insert key other a [] = refl
lookup-insert key other a (entry ∷ rest) = ground (
  arith,
  lookup-insert key other a rest,
  eq_iff entry.0 other,
  eq_iff entry.0 key,
  eq_iff key other,
)

pub lookup-insert_self {ℓ} :
    {A : Type ℓ} (key : String) (a : A) (dict : List (String × A))
    → lookup key (insert key a dict) ≡ some a
lookup-insert_self key a dict = simp (eq_refl, lookup-insert)
