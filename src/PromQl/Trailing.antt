-- ===== src/PromQl/Trailing.antt =====
-- What pkg/promql/parser.go does with the tokens behind a complete expression.
use observe_x.Prelude.{Bool, true, false, ℕ, suc, ◌+◌, ◌*◌, length, arith, List, [], ◌∷◌, ◌≡◌, refl}
use observe_x.Prelude.Text.{Text}
use observe_x.PromQl.Run.{ok}
use observe_x.PromQl.Token.{
  TokenKind, tk_ident, tk_number, tk_string, tk_rbrace, tk_rparen, tk_rbracket, tk_comma, tk_eq,
  tk_regex_mat, tk_regex_no_mt, tk_by, tk_without, tk_duration, ◌is◌, Token,
}
use observe_x.PromQl.Ast.{vector_selector, Floats}
use observe_x.PromQl.Selectors.{peek_is, parse_range, parse_selector_tail}
use observe_x.PromQl.Parser.{
  parse_expr, parse_bin_add, parse_bin_mul, parse_primary, primary_of, add_loop, mul_loop, parse,
}

-- The kinds of token that cannot carry on an expression that is a name.
unfoldable pub is_stray : TokenKind → Bool
is_stray tk_ident = true
is_stray tk_number = true
is_stray tk_string = true
is_stray tk_rbrace = true
is_stray tk_rparen = true
is_stray tk_rbracket = true
is_stray tk_comma = true
is_stray tk_eq = true
is_stray tk_regex_mat = true
is_stray tk_regex_no_mt = true
is_stray tk_by = true
is_stray tk_without = true
is_stray tk_duration = true
is_stray _ = false

abbrev pub token : TokenKind → Text → ℕ → Token
token kind val pos = record { kind = kind; val = val; pos = pos }

parse_expr-name :
    {F : Type 0} (floats : Floats F) (f i j : ℕ) (kind : TokenKind) (name other : Text)
    (rest : List Token)
    → is_stray kind ≡ true
    → parse_expr floats
        (suc (suc (suc (suc (suc (suc f))))))
        (token tk_ident name i ∷ (token kind other j ∷ rest))
      ≡ ok (vector_selector (record { metric = name; matches = [] }), token kind other j ∷ rest)
unfolding is_stray parse_expr parse_bin_add parse_bin_mul parse_primary primary_of add_loop mul_loop
    peek_is parse_selector_tail parse_range ◌is◌
parse_expr-name floats f i j tk_ident name other rest h = refl
parse_expr-name floats f i j tk_number name other rest h = refl
parse_expr-name floats f i j tk_string name other rest h = refl
parse_expr-name floats f i j tk_rbrace name other rest h = refl
parse_expr-name floats f i j tk_rparen name other rest h = refl
parse_expr-name floats f i j tk_rbracket name other rest h = refl
parse_expr-name floats f i j tk_comma name other rest h = refl
parse_expr-name floats f i j tk_eq name other rest h = refl
parse_expr-name floats f i j tk_regex_mat name other rest h = refl
parse_expr-name floats f i j tk_regex_no_mt name other rest h = refl
parse_expr-name floats f i j tk_by name other rest h = refl
parse_expr-name floats f i j tk_without name other rest h = refl
parse_expr-name floats f i j tk_duration name other rest h = refl
parse_expr-name floats f i j _ name other rest h = cc

-- A name with a token behind it that cannot carry on the expression, as in `m offset 5m` or `sum by (job) (m)`, parses as the selector of the name: all that follows it is dropped without an error.
pub parse-name :
    {F : Type 0} (floats : Floats F) (i j : ℕ) (kind : TokenKind) (name other : Text)
    (rest : List Token)
    → is_stray kind ≡ true
    → parse floats (token tk_ident name i ∷ (token kind other j ∷ rest))
      ≡ ok (vector_selector (record { metric = name; matches = [] }))
unfolding parse
parse-name floats i j kind name other rest h =
    let fuel : 8 * suc (suc (length rest)) + 8
        ≡ suc (suc (suc (suc (suc (suc (8 * length rest + 18)))))) =
      omega arith in
    simp (fuel, parse_expr-name floats (8 * length rest + 18) i j kind name other rest h)
