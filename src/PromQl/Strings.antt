-- ===== src/PromQl/Strings.antt =====
-- The string literals of pkg/promql/lex.go.
use observe_x.Prelude.{
  ℕ, suc, true, false, ◌||◌, some, [], ◌∷◌, ◌++◌, length, length-append, append_assoc, ◌==◌, ◌≢◌,
  ◌⊎◌, ◌≡◌, refl, ap, sym, arith,
}
use observe_x.Prelude.Text.{Text}
use observe_x.PromQl.Lexer.{unescape, read_string_tail, read_string}

-- A text as it is written between quotes: a backslash before each quote and each backslash.
unfoldable pub escape : Text → Text
escape [] = []
escape (c ∷ cs) = elim (c == b'"' || c == b'\\') [
  | true ↦ b'\\' ∷ (c ∷ escape cs)
  | false ↦ c ∷ escape cs
]

abbrev pub quote : Text → Text
quote s = b'"' ∷ escape s ++ b'"' ∷ []

-- A text before the closing quote.
escaped : Text → Text → Text
escaped s rest = escape s ++ b'"' ∷ rest

read_plain :
    (c : ℕ) (rest : Text) (s : Text) (n : ℕ)
    → c ≢ b'"'
    → c ≢ b'\\'
    → read_string_tail rest ≡ some (s, n)
    → read_string_tail (c ∷ rest) ≡ some (c ∷ s, suc n)
unfolding read_string_tail
read_plain c [] s n h h' e = cc
read_plain c (d ∷ rest) s n h h' e = ground (arith, h, h', e)

read_escaped :
    (c : ℕ) (rest : Text) (s : Text) (n : ℕ)
    → (c ≡ b'"') ⊎ (c ≡ b'\\')
    → read_string_tail rest ≡ some (s, n)
    → read_string_tail (b'\\' ∷ (c ∷ rest)) ≡ some (c ∷ s, suc (suc n))
unfolding read_string_tail unescape
read_escaped c rest s n h e = ground (arith, h, e)

read_closing : (rest : Text) → read_string_tail (b'"' ∷ rest) ≡ some ([], 1)
unfolding read_string_tail
read_closing [] = refl
read_closing (c ∷ cs) = refl

read_string_tail-escape :
    (s rest : Text) → read_string_tail (escaped s rest) ≡ some (s, suc (length (escape s)))
unfolding escape escaped
read_string_tail-escape [] rest = read_closing rest
read_string_tail-escape (c ∷ cs) rest = ground (
  arith,
  read_string_tail-escape cs rest,
  read_plain c (escaped cs rest) cs (suc (length (escape cs))),
  read_escaped c (escaped cs rest) cs (suc (length (escape cs))),
)

read_opening :
    (t s : Text) (n : ℕ)
    → read_string_tail t ≡ some (s, n)
    → read_string (b'"' ∷ t) ≡ some (s, suc n)
unfolding read_string read_string_tail
read_opening [] s n h = cc
read_opening (c ∷ cs) s n h = simp h

-- A text of any bytes, quoted with a backslash before each quote and each backslash, is read back whole, whatever follows, and takes up as many bytes as were written.
pub read_string-quote : (s rest : Text) → read_string (quote s ++ rest) ≡ some (s, length (quote s))
unfolding escaped
read_string-quote s rest =
    let shape : quote s ++ rest ≡ b'"' ∷ escaped s rest =
      ap (λ t. b'"' ∷ t) (append_assoc (escape s) (b'"' ∷ []) rest) in
    let size : suc (suc (length (escape s))) ≡ length (quote s) =
      omega (arith, length-append (escape s) (b'"' ∷ [])) in
    simp (shape, sym size, read_opening (escaped s rest) s _ (read_string_tail-escape s rest))
