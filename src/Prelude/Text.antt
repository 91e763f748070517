-- ===== src/Prelude/Text.antt =====
-- Text as the list of its code points, which the program's ASCII texts are byte for byte.
use Prim.Native.Char.{code}
use Prim.Native.String.{String}
use Prim.Native.Nat.{ℕ, zero, suc, ◌+◌, ◌/◌, ◌%◌}
use mathlib.Core.Path.{◌≡◌, refl}
use mathlib.Core.Bool.{Bool, true, false, ◌&&◌, ◌||◌}
use mathlib.Core.List.{List, [], ◌∷◌, ◌++◌}
use native.Mathlib.Omega.{arith}
use observe_x.Prelude.Tests.{◌==◌, ltb, leb, if◌then◌else◌}

abbrev pub Text : Type 0
Text = List ℕ

abbrev pub codes : String → Text
codes String.[] = []
codes (String.◌∷◌ c s) = code c ∷ codes s

unfoldable pub text_eq : Text → Text → Bool
text_eq [] [] = true
text_eq [] (_ ∷ _) = false
text_eq (_ ∷ _) [] = false
text_eq (a ∷ as') (b ∷ bs) = a == b && text_eq as' bs

pub text_eq-eq : (a b : Text) → text_eq a b ≡ true → a ≡ b
unfolding text_eq
text_eq-eq [] [] h = refl
text_eq-eq [] (_ ∷ _) h = cc
text_eq-eq (_ ∷ _) [] h = cc
text_eq-eq (a ∷ as') (b ∷ bs) h = ground (arith, text_eq-eq as' bs)

pub text_eq_refl : (s : Text) → text_eq s s ≡ true
unfolding text_eq
text_eq_refl [] = refl
text_eq_refl (c ∷ cs) = ground (arith, text_eq_refl cs)

unfoldable pub is_member : Text → List Text → Bool
is_member a [] = false
is_member a (b ∷ bs) = text_eq a b || is_member a bs

abbrev pub is_letter : ℕ → Bool
is_letter c = (leb b'a' c && leb c b'z') || (leb b'A' c && leb c b'Z')

abbrev pub is_digit : ℕ → Bool
is_digit c = leb b'0' c && leb c b'9'

-- strings.Join.
unfoldable pub join : Text → List Text → Text
join sep [] = []
join sep (x ∷ []) = x
join sep (x ∷ (y ∷ ys)) = x ++ (sep ++ join sep (y ∷ ys))

-- How often a code point occurs.
unfoldable pub count : ℕ → Text → ℕ
count c [] = 0
count c (x ∷ xs) = let rest = count c xs in if x == c then suc rest else rest

pub count-append : (c : ℕ) (xs ys : Text) → count c (xs ++ ys) ≡ count c xs + count c ys
unfolding count
count-append c [] ys = omega arith
count-append c (x ∷ xs) ys = ground (arith, count-append c xs ys)

-- The decimal digits of %d; as fuel the number itself is enough.
unfoldable pub digits : ℕ → ℕ → Text
digits zero n = (b'0' + n % 10) ∷ []
digits (suc fuel) n =
    let rest = digits fuel (n / 10) in
    if ltb n 10 then (b'0' + n % 10) ∷ [] else rest ++ (b'0' + n % 10) ∷ []

pub digits-count : (c fuel n : ℕ) → is_digit c ≡ false → count c (digits fuel n) ≡ 0
unfolding digits count
digits-count c zero n h = ground (arith, n % 10)
digits-count c (suc fuel) n h = grind (
  arith,
  digits-count c fuel (n / 10) h,
  count-append c (digits fuel (n / 10)) ((b'0' + n % 10) ∷ []),
)
