-- ===== src/PromQl/Descent.antt =====
-- The fuel of the recursive descent of pkg/promql/parser.go: what each function takes from the tokens, and how
-- deep it goes for it.
use observe_x.Prelude.{ℕ, zero, suc, ◌+◌, ◌*◌, ◌<◌, ◌||◌, List, [], ◌∷◌, length, ◌≢◌, arith}
use observe_x.Prelude.Text.{Text}
use observe_x.PromQl.Run.{
  out_of_fuel, Ensures, returns, fails, Ensures->>=, Ensures-weaken, Ensures-elim, Ensures-option,
  Ensures-fueled, Ensures-starved,
}
use observe_x.PromQl.Token.{
  TokenKind, tk_ident, tk_number, tk_lparen, tk_rparen, tk_comma, tk_plus, tk_minus, tk_star,
  tk_slash, Token,
}
use observe_x.PromQl.Ast.{Node, no_nodes, Floats}
use observe_x.PromQl.Selectors.{peek_is}
use observe_x.PromQl.Parser.{
  is_cmp, parse_expr, parse_bin_add, add_loop, parse_bin_mul, mul_loop, parse_primary, primary_of,
  parse_call, parse_args, parse,
}
use observe_x.PromQl.Shrinking.{
  Keeps, Shrinks, eat-Shrinks, expect-Shrinks, finish_call-Keeps, parse_selector_tail-Keeps,
}

module _ {F : Type 0} (floats : Floats F) where
  mutual
    unfolding parse_expr parse_bin_add add_loop parse_bin_mul mul_loop parse_primary primary_of
        parse_call parse_args

    parse_expr-Shrinks :
        (f : ℕ) (ts : List Token)
        → 6 * length ts + 3 < f
        → Ensures (Shrinks ts) (parse_expr floats f ts)
    parse_expr-Shrinks zero ts h = Ensures-starved h
    parse_expr-Shrinks (suc f) ts h =
        Ensures->>= (parse_bin_add-Shrinks f ts (omega (arith, h))) (λ left a.
          Ensures-elim (is_cmp floats left.1)
            (λ _. Ensures->>= (eat-Shrinks left.1) (λ op b.
              Ensures->>= (parse_bin_add-Shrinks f op.1 (omega (arith, h, a, b)))
                (λ right c. returns (omega (arith, a, b, c)))))
            (λ _. returns a))

    parse_bin_add-Shrinks :
        (f : ℕ) (ts : List Token)
        → 6 * length ts + 2 < f
        → Ensures (Shrinks ts) (parse_bin_add floats f ts)
    parse_bin_add-Shrinks zero ts h = Ensures-starved h
    parse_bin_add-Shrinks (suc f) ts h =
        Ensures->>= (parse_bin_mul-Shrinks f ts (omega (arith, h))) (λ left a.
          Ensures-weaken (λ r b. omega (arith, a, b))
            (add_loop-Keeps f left.0 left.1 (omega (arith, h, a))))

    add_loop-Keeps :
        (f : ℕ) (left : Node F) (ts : List Token)
        → 6 * length ts < f
        → Ensures (Keeps ts) (add_loop floats f left ts)
    add_loop-Keeps zero left ts h = Ensures-starved h
    add_loop-Keeps (suc f) left ts h =
        Ensures-elim (peek_is tk_plus ts || peek_is tk_minus ts)
          (λ _. Ensures->>= (eat-Shrinks ts) (λ op a.
            Ensures->>= (parse_bin_mul-Shrinks f op.1 (omega (arith, h, a))) (λ right b.
              Ensures-weaken (λ r c. omega (arith, a, b, c))
                (add_loop-Keeps f _ right.1 (omega (arith, h, a, b))))))
          (λ _. returns (omega arith))

    parse_bin_mul-Shrinks :
        (f : ℕ) (ts : List Token)
        → 6 * length ts + 1 < f
        → Ensures (Shrinks ts) (parse_bin_mul floats f ts)
    parse_bin_mul-Shrinks zero ts h = Ensures-starved h
    parse_bin_mul-Shrinks (suc f) ts h =
        Ensures->>= (parse_primary-Shrinks f ts (omega (arith, h))) (λ left a.
          Ensures-weaken (λ r b. omega (arith, a, b))
            (mul_loop-Keeps f left.0 left.1 (omega (arith, h, a))))

    mul_loop-Keeps :
        (f : ℕ) (left : Node F) (ts : List Token)
        → 6 * length ts < f
        → Ensures (Keeps ts) (mul_loop floats f left ts)
    mul_loop-Keeps zero left ts h = Ensures-starved h
    mul_loop-Keeps (suc f) left ts h =
        Ensures-elim (peek_is tk_star ts || peek_is tk_slash ts)
          (λ _. Ensures->>= (eat-Shrinks ts) (λ op a.
            Ensures->>= (parse_primary-Shrinks f op.1 (omega (arith, h, a))) (λ right b.
              Ensures-weaken (λ r c. omega (arith, a, b, c))
                (mul_loop-Keeps f _ right.1 (omega (arith, h, a, b))))))
          (λ _. returns (omega arith))

    parse_primary-Shrinks :
        (f : ℕ) (ts : List Token)
        → 6 * length ts < f
        → Ensures (Shrinks ts) (parse_primary floats f ts)
    parse_primary-Shrinks zero ts h = Ensures-starved h
    parse_primary-Shrinks (suc f) [] h = fails
    parse_primary-Shrinks (suc f) (t ∷ ts) h =
        Ensures-weaken (λ r a. omega (arith, a))
          (primary_of-Keeps f t.kind t.val ts (omega (arith, h)))

    primary_of-Keeps :
        (f : ℕ) (kind : TokenKind) (val : Text) (ts : List Token)
        → 6 * length ts + 5 < f
        → Ensures (Keeps ts) (primary_of floats f kind val ts)
    primary_of-Keeps zero kind val ts h = Ensures-starved h
    primary_of-Keeps (suc f) tk_number val ts h =
        Ensures-option (floats.parse_float val) (λ _. fails) (λ v _. returns (omega arith))
    primary_of-Keeps (suc f) tk_lparen val ts h =
        Ensures->>= (parse_expr-Shrinks f ts (omega (arith, h))) (λ inner a.
          Ensures->>= (expect-Shrinks tk_rparen inner.1) (λ close b. returns (omega (arith, a, b))))
    primary_of-Keeps (suc f) tk_ident val ts h =
        Ensures-elim (peek_is tk_lparen ts)
          (λ _.
            Ensures-weaken (λ r a. omega (arith, a))
              (parse_call-Shrinks f val ts (omega (arith, h))))
          (λ _. parse_selector_tail-Keeps floats f val ts (omega (arith, h)))
    primary_of-Keeps (suc f) _ val ts h = fails

    parse_call-Shrinks :
        (f : ℕ) (name : Text) (ts : List Token)
        → 6 * length ts < f
        → Ensures (Shrinks ts) (parse_call floats f name ts)
    parse_call-Shrinks zero name ts h = Ensures-starved h
    parse_call-Shrinks (suc f) name ts h = Ensures->>= (expect-Shrinks tk_lparen ts) (λ opening a.
        Ensures-elim (peek_is tk_rparen opening.1)
          (λ _. Ensures->>= (expect-Shrinks tk_rparen opening.1) (λ close b.
            Ensures-weaken (λ r c. omega (arith, a, b, c))
              (finish_call-Keeps floats f name no_nodes close.1 (omega (arith, h, a, b)))))
          (λ _. Ensures->>= (parse_args-Shrinks f opening.1 (omega (arith, h, a))) (λ args b.
            Ensures->>= (expect-Shrinks tk_rparen args.1) (λ close c.
              Ensures-weaken (λ r d. omega (arith, a, b, c, d))
                (finish_call-Keeps floats f name args.0 close.1 (omega (arith, h, a, b, c)))))))

    parse_args-Shrinks :
        (f : ℕ) (ts : List Token)
        → 6 * length ts + 4 < f
        → Ensures (Shrinks ts) (parse_args floats f ts)
    parse_args-Shrinks zero ts h = Ensures-starved h
    parse_args-Shrinks (suc f) ts h =
        Ensures->>= (parse_expr-Shrinks f ts (omega (arith, h))) (λ a b.
          Ensures-elim (peek_is tk_comma a.1)
            (λ _. Ensures->>= (eat-Shrinks a.1) (λ comma c.
              Ensures->>= (parse_args-Shrinks f comma.1 (omega (arith, h, b, c)))
                (λ more d. returns (omega (arith, b, c, d)))))
            (λ _. returns b))

  -- The fuel of `parse` is enough.
  pub parse-fueled : (ts : List Token) → parse floats ts ≢ out_of_fuel
  unfolding parse
  parse-fueled ts = Ensures-fueled (
      Ensures->>= {Q = λ _. List Token} (parse_expr-Shrinks (8 * length ts + 8) ts (omega arith))
        (λ ast _. returns []))
