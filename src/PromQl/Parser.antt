-- ===== src/PromQl/Parser.antt =====
-- The recursive descent of pkg/promql/parser.go. Each call of a function of the mutual block, and each round of a
-- loop, costs a unit of fuel.
use observe_x.Prelude.{
  ℕ, zero, suc, ◌+◌, ◌*◌, Bool, true, false, ◌||◌, none, some, List, [], ◌∷◌, length,
}
use observe_x.Prelude.Text.{Text}
use observe_x.PromQl.Run.{bad_syntax, bad_number, Result, ok, err, out_of_fuel, ◌>>=◌}
use observe_x.PromQl.Token.{
  TokenKind, tk_ident, tk_number, tk_lparen, tk_rparen, tk_comma, tk_neq, tk_plus, tk_minus,
  tk_star, tk_slash, tk_gt, tk_lt, tk_gte, tk_lte, tk_eq_cmp, ◌is◌, Token,
}
use observe_x.PromQl.Ast.{Node, Nodes, num_lit, bin_expr, no_nodes, more_nodes, Floats}
use observe_x.PromQl.Selectors.{Parser, eat, expect, finish_call, parse_selector_tail, peek_is}

module _ {F : Type 0} (floats : Floats F) where
  abbrev pub is_cmp : List Token → Bool
  is_cmp ts =
      peek_is tk_gt ts
      || (peek_is tk_lt ts
          || (peek_is tk_gte ts
              || (peek_is tk_lte ts || (peek_is tk_eq_cmp ts || peek_is tk_neq ts))))

  unfoldable mutual
    unfolding peek_is eat expect finish_call parse_selector_tail ◌is◌

    -- parseExpr and parseBinCmp.
    pub parse_expr : ℕ → Parser (Node F)
    parse_expr zero ts = out_of_fuel
    parse_expr (suc f) ts = parse_bin_add f ts >>= λ left. elim (is_cmp left.1) [
      | true ↦ eat left.1 >>= λ op.
          parse_bin_add f op.1 >>= λ right. ok (bin_expr op.0.val left.0 right.0, right.1)
      | false ↦ ok left
    ]

    pub parse_bin_add : ℕ → Parser (Node F)
    parse_bin_add zero ts = out_of_fuel
    parse_bin_add (suc f) ts = parse_bin_mul f ts >>= λ left. add_loop f left.0 left.1

    -- The loop of parseBinAdd.
    pub add_loop : ℕ → Node F → Parser (Node F)
    add_loop zero left ts = out_of_fuel
    add_loop (suc f) left ts = elim (peek_is tk_plus ts || peek_is tk_minus ts) [
      | true ↦ eat ts >>= λ op.
          parse_bin_mul f op.1 >>= λ right. add_loop f (bin_expr op.0.val left right.0) right.1
      | false ↦ ok (left, ts)
    ]

    pub parse_bin_mul : ℕ → Parser (Node F)
    parse_bin_mul zero ts = out_of_fuel
    parse_bin_mul (suc f) ts = parse_primary f ts >>= λ left. mul_loop f left.0 left.1

    -- The loop of parseBinMul.
    pub mul_loop : ℕ → Node F → Parser (Node F)
    mul_loop zero left ts = out_of_fuel
    mul_loop (suc f) left ts = elim (peek_is tk_star ts || peek_is tk_slash ts) [
      | true ↦ eat ts >>= λ op.
          parse_primary f op.1 >>= λ right. mul_loop f (bin_expr op.0.val left right.0) right.1
      | false ↦ ok (left, ts)
    ]

    -- parsePrimary and parseIdentLike.
    pub parse_primary : ℕ → Parser (Node F)
    parse_primary zero ts = out_of_fuel
    parse_primary (suc f) [] = err bad_syntax
    parse_primary (suc f) (t ∷ ts) = primary_of f t.kind t.val ts

    -- The switch of parsePrimary, behind the token it looks at.
    pub primary_of : ℕ → TokenKind → Text → Parser (Node F)
    primary_of zero kind val ts = out_of_fuel
    primary_of (suc f) tk_number val ts = elim (floats.parse_float val) [
      | none ↦ err bad_number
      | some v ↦ ok (num_lit v, ts)
    ]
    primary_of (suc f) tk_lparen val ts =
        parse_expr f ts >>= λ inner. expect tk_rparen inner.1 >>= λ close. ok (inner.0, close.1)
    primary_of (suc f) tk_ident val ts = elim (peek_is tk_lparen ts) [
      | true ↦ parse_call f val ts
      | false ↦ parse_selector_tail floats f val ts
    ]
    primary_of (suc f) _ val ts = err bad_syntax

    -- parseCallOrAggr.
    pub parse_call : ℕ → Text → Parser (Node F)
    parse_call zero name ts = out_of_fuel
    parse_call (suc f) name ts = expect tk_lparen ts >>= λ opening.
        elim (peek_is tk_rparen opening.1) [
          | true ↦
              expect tk_rparen opening.1 >>= λ close. finish_call floats f name no_nodes close.1
          | false ↦ parse_args f opening.1 >>= λ args.
              expect tk_rparen args.1 >>= λ close. finish_call floats f name args.0 close.1
        ]

    -- The loop over the arguments.
    pub parse_args : ℕ → Parser (Nodes F)
    parse_args zero ts = out_of_fuel
    parse_args (suc f) ts = parse_expr f ts >>= λ a. elim (peek_is tk_comma a.1) [
      | true ↦
          eat a.1 >>= λ comma. parse_args f comma.1 >>= λ more. ok (more_nodes a.0 more.0, more.1)
      | false ↦ ok (more_nodes a.0 no_nodes, a.1)
    ]

  -- The call of parseExpr in Translate.
  unfoldable pub parse : List Token → Result (Node F)
  unfolding parse_expr
  parse ts = parse_expr (8 * length ts + 8) ts >>= λ ast. ok ast.0
