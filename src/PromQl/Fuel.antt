-- ===== src/PromQl/Fuel.antt =====
-- The fuel of the loop of tokenize in pkg/promql/lex.go.
use observe_x.Prelude.{
  ℕ, zero, suc, ◌+◌, ◌≤◌, Bool, true, false, ◌&&◌, ◌||◌, Option, none, some, List, [], ◌∷◌, ◌++◌,
  length, length-append, length-drop, drop, ◌==◌, if◌then◌else◌, ◌≡◌, refl, arith,
}
use observe_x.Prelude.Text.{Text, is_digit}
use observe_x.PromQl.Run.{
  bad_token, ok, err, ◌>>=◌, Ensures, returns, fails, Ensures->>=, Ensures-starved,
}
use observe_x.PromQl.Token.{TokenKind, tk_duration, Token}
use observe_x.PromQl.Lexer.{
  is_ident_start, is_ident_cont, read_while, read_number, read_ident, read_string_tail, read_string,
  next_is, emit, emit_string, next_digit, lex_one, lex, fold_durations, folds, tokenize,
}

read_while-length :
    (test : ℕ → Bool) (c : ℕ) (cs : Text) → test c ≡ true → 1 ≤ length (read_while test (c ∷ cs))
unfolding read_while
read_while-length test c cs h = ground (arith, h)

-- A round of the loop gives one token at most, and takes at least one byte.
data Fits : Option (List Token × ℕ) → Type 0 where
  refuses : Fits none
  takes : {toks : List Token} {n : ℕ} → length toks ≤ 1 → 1 ≤ n → Fits (some (toks, n))

Fits-if :
    {yes no : Option (List Token × ℕ)} (test : Bool)
    → (test ≡ true → Fits yes)
    → (test ≡ false → Fits no)
    → Fits (if test then yes else no)
Fits-if true y n = y refl
Fits-if false y n = n refl

Fits-emit_string : (pos : ℕ) (c : ℕ) (rest : Text) → Fits (emit_string pos (read_string (c ∷ rest)))
unfolding emit_string read_string
Fits-emit_string pos c [] = refuses
Fits-emit_string pos c (d ∷ rest) = by_quote (c == b'"') (read_string_tail (d ∷ rest))
  where
    by_quote :
        (quote : Bool) (tail : Option (Text × ℕ))
        → Fits (
            emit_string pos
              (if quote then elim tail [ none ↦ none | some (s, n) ↦ some (s, suc n) ] else none))
    by_quote true none = refuses
    by_quote true (some (s, n)) = takes (omega arith) (omega arith)
    by_quote false tail = refuses

single : {kind : TokenKind} {val : Text} {pos : ℕ} → Fits (emit kind val pos 1)
single = takes (omega arith) (omega arith)

double : {kind : TokenKind} {val : Text} {pos : ℕ} → Fits (emit kind val pos 2)
double = takes (omega arith) (omega arith)

lex_one-Fits : (pos c : ℕ) (rest : Text) → Fits (lex_one pos c rest)
unfolding lex_one read_number read_ident
lex_one-Fits pos c rest =
    Fits-if (c == b' ' || (c == b'\t' || (c == b'\n' || c == b'\r')))
      (λ _. takes (omega arith) (omega arith))
      (λ _.
        Fits-if (c == b'{') (λ _. single)
          (λ _.
            Fits-if (c == b'}') (λ _. single)
              (λ _.
                Fits-if (c == b'(') (λ _. single)
                  (λ _.
                    Fits-if (c == b')') (λ _. single)
                      (λ _.
                        Fits-if (c == b'[') (λ _. single)
                          (λ _.
                            Fits-if (c == b']') (λ _. single)
                              (λ _.
                                Fits-if (c == b',') (λ _. single)
                                  (λ _.
                                    Fits-if (c == b'"') (λ _. Fits-emit_string pos c rest)
                                      (λ _.
                                        Fits-if (c == b'!')
                                          (λ _.
                                            Fits-if (next_is b'=' rest) (λ _. double)
                                              (λ _.
                                                Fits-if (next_is b'~' rest) (λ _. double)
                                                  (λ _. refuses)))
                                          (λ _.
                                            Fits-if (c == b'=')
                                              (λ _.
                                                Fits-if (next_is b'=' rest) (λ _. double)
                                                  (λ _.
                                                    Fits-if (next_is b'~' rest) (λ _. double)
                                                      (λ _. single)))
                                              (λ _.
                                                Fits-if (c == b'>')
                                                  (λ _.
                                                    Fits-if (next_is b'=' rest) (λ _. double)
                                                      (λ _. single))
                                                  (λ _.
                                                    Fits-if (c == b'<')
                                                      (λ _.
                                                        Fits-if (next_is b'=' rest) (λ _. double)
                                                          (λ _. single))
                                                      (λ _.
                                                        Fits-if (c == b'+') (λ _. single)
                                                          (λ _.
                                                            Fits-if (c == b'-') (λ _. single)
                                                            (λ _.
                                                            Fits-if (c == b'*') (λ _. single)
                                                            (λ _.
                                                            Fits-if (c == b'/') (λ _. single)
                                                            (λ _.
                                                            Fits-if
                                                            (is_digit c
                                                            || (c == b'.' && next_digit rest))
                                                            (λ h. takes (omega arith) (
                                                            read_while-length
                                                            (λ d. is_digit d || d == b'.') c rest
                                                            (ground (arith, h))))
                                                            (λ _.
                                                            Fits-if (is_ident_start c)
                                                            (λ h. takes (omega arith) (
                                                            read_while-length is_ident_cont c rest
                                                            (ground (arith, h))))
                                                            (λ _. refuses)))))))))))))))))))

-- The text's length is fuel enough, and no token is empty.
pub lex-length :
    (fuel pos : ℕ) (text : Text)
    → length text ≤ fuel
    → Ensures (λ toks. length toks ≤ length text) (lex fuel pos text)
unfolding lex
lex-length fuel pos [] h = returns (omega arith)
lex-length zero pos (c ∷ rest) h = Ensures-starved h
lex-length (suc fuel) pos (c ∷ rest) h =
    round (lex_one pos c rest) (lex_one-Fits pos c rest) (λ n much.
      lex-length fuel (pos + n) (drop n (c ∷ rest))
        (omega (arith, h, much, length-drop n (c ∷ rest))))
  where
    round :
        (o : Option (List Token × ℕ))
        → Fits o
        → ((n : ℕ)
            → 1 ≤ n
            → Ensures
                (λ toks. length toks ≤ length (drop n (c ∷ rest)))
                (lex fuel (pos + n) (drop n (c ∷ rest))))
        → Ensures
            (λ toks. length toks ≤ length (c ∷ rest))
            (elim o [
              | none ↦ err bad_token
              | some (toks, n) ↦
                  lex fuel (pos + n) (drop n (c ∷ rest)) >>= λ more. ok (toks ++ more)
            ])
    round none refuses next = fails
    round (some (toks, n)) (takes few much) next = Ensures->>= (next n much) (λ more le.
        returns (omega (arith, le, few, much, length-append toks more, length-drop n (c ∷ rest))))

fold_durations-length : (toks : List Token) → length (fold_durations toks) ≤ length toks
unfolding fold_durations
fold_durations-length [] = omega arith
fold_durations-length (t ∷ []) = omega arith
fold_durations-length (t ∷ (u ∷ rest)) =
    by_fold (folds t u) (fold_durations-length rest) (fold_durations-length (u ∷ rest))
  where
    by_fold :
        (fold : Bool)
        → length (fold_durations rest) ≤ length rest
        → length (fold_durations (u ∷ rest)) ≤ suc (length rest)
        → length (elim fold [
          | true ↦
              record { kind = tk_duration; val = t.val ++ u.val; pos = t.pos } ∷ fold_durations rest
          | false ↦ t ∷ fold_durations (u ∷ rest)
        ])
          ≤ suc (suc (length rest))
    by_fold true a b = omega (arith, a)
    by_fold false a b = omega (arith, b)

-- tokenize ends on every query: with an error, or with at most as many tokens as the query has bytes.
pub tokenize-length : (src : Text) → Ensures (λ toks. length toks ≤ length src) (tokenize src)
unfolding tokenize
tokenize-length src =
    Ensures->>= (lex-length (length src) 0 src (omega arith))
      (λ toks le. returns (omega (arith, le, fold_durations-length toks)))
