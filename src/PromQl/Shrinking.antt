-- ===== src/PromQl/Shrinking.antt =====
-- What the parts of pkg/promql/parser.go in PromQl/Selectors take from the tokens, and the fuel of their loops.
use observe_x.Prelude.{
  ℕ, zero, suc, ◌≤◌, ◌<◌, Bool, true, false, ◌||◌, List, [], ◌∷◌, length, if◌then◌else◌, ◌≢◌, arith,
}
use observe_x.Prelude.Text.{Text}
use observe_x.PromQl.Run.{
  ok, err, out_of_fuel, bad_syntax, Ensures, returns, fails, Ensures->>=, Ensures-weaken,
  Ensures-elim, Ensures-intro, Ensures-starved,
}
use observe_x.PromQl.Token.{
  TokenKind, tk_ident, tk_string, tk_lbrace, tk_rbrace, tk_lparen, tk_rparen, tk_lbracket,
  tk_rbracket, tk_comma, tk_eq, tk_neq, tk_regex_mat, tk_regex_no_mt, tk_by, tk_without,
  tk_duration, ◌is◌, Token,
}
use observe_x.PromQl.Ast.{VectorSelector, Nodes, Floats}
use observe_x.PromQl.Selectors.{
  peek_is, eat, expect, matcher_op, skip_comma, parse_matchers, parse_labels, parse_modifier,
  is_aggr_name, parse_duration, parse_range, parse_selector_tail, aggr_args, finish_call,
}

-- A run that leaves fewer tokens than it was given, and one that leaves no more.
abbrev pub Shrinks {ℓ} : {A : Type ℓ} → List Token → A × List Token → Type 0
Shrinks ts r = length r.1 < length ts

abbrev pub Keeps {ℓ} : {A : Type ℓ} → List Token → A × List Token → Type 0
Keeps ts r = length r.1 ≤ length ts

pub eat-Shrinks : (ts : List Token) → Ensures (Shrinks ts) (eat ts)
unfolding eat
eat-Shrinks [] = fails
eat-Shrinks (t ∷ ts) = returns (omega arith)

pub expect-Shrinks : (k : TokenKind) (ts : List Token) → Ensures (Shrinks ts) (expect k ts)
unfolding expect
expect-Shrinks k [] = fails
expect-Shrinks k (t ∷ ts) = by_kind (t.kind is k)
  where
    by_kind :
        (test : Bool) → Ensures (Shrinks (t ∷ ts)) (if test then ok (t, ts) else err bad_syntax)
    by_kind true = returns (omega arith)
    by_kind false = fails

pub skip_comma-length : (ts : List Token) → length (skip_comma ts) ≤ length ts
unfolding skip_comma
skip_comma-length [] = omega arith
skip_comma-length (t ∷ ts) = ground arith

pub matcher_op-fueled : (k : TokenKind) → matcher_op k ≢ out_of_fuel
unfolding matcher_op
matcher_op-fueled tk_eq = cc
matcher_op-fueled tk_neq = cc
matcher_op-fueled tk_regex_mat = cc
matcher_op-fueled tk_regex_no_mt = cc
matcher_op-fueled _ = cc

pub parse_matchers-Keeps :
    (f : ℕ) (ts : List Token) → length ts < f → Ensures (Keeps ts) (parse_matchers f ts)
unfolding parse_matchers
parse_matchers-Keeps zero ts h = Ensures-starved h
parse_matchers-Keeps (suc f) [] h = fails
parse_matchers-Keeps (suc f) (t ∷ ts) h =
    Ensures-elim (t.kind is tk_rbrace) (λ _. returns (omega arith))
      (λ _. Ensures->>= (expect-Shrinks tk_ident (t ∷ ts)) (λ name a.
        Ensures->>= (eat-Shrinks name.1) (λ op_tok b.
          Ensures->>= (Ensures-intro (matcher_op-fueled op_tok.0.kind) (λ op e. e)) (λ op _.
            Ensures->>= (expect-Shrinks tk_string op_tok.1) (λ val c.
              Ensures->>=
                (parse_matchers-Keeps f (skip_comma val.1)
                  (omega (arith, h, a, b, c, skip_comma-length val.1)))
                (λ more d. returns (omega (arith, a, b, c, d, skip_comma-length val.1))))))))

pub parse_labels-Keeps :
    (f : ℕ) (ts : List Token) → length ts < f → Ensures (Keeps ts) (parse_labels f ts)
unfolding parse_labels
parse_labels-Keeps zero ts h = Ensures-starved h
parse_labels-Keeps (suc f) ts h = Ensures->>= (expect-Shrinks tk_ident ts) (λ id a.
    Ensures-elim (peek_is tk_comma id.1)
      (λ _.
        Ensures->>=
          (parse_labels-Keeps f (skip_comma id.1) (omega (arith, h, a, skip_comma-length id.1)))
          (λ more b. returns (omega (arith, a, b, skip_comma-length id.1))))
      (λ _. returns (omega (arith, a))))

pub parse_modifier-Keeps :
    (f : ℕ) (ts : List Token) → length ts ≤ f → Ensures (Keeps ts) (parse_modifier f ts)
unfolding parse_modifier
parse_modifier-Keeps f ts h =
    Ensures-elim (peek_is tk_by ts || peek_is tk_without ts)
      (λ _. Ensures->>= (eat-Shrinks ts) (λ modifier a.
        Ensures->>= (expect-Shrinks tk_lparen modifier.1) (λ opening b.
          Ensures->>= (parse_labels-Keeps f opening.1 (omega (arith, h, a, b))) (λ labs c.
            Ensures->>= (expect-Shrinks tk_rparen labs.1)
              (λ close d. returns (omega (arith, a, b, c, d)))))))
      (λ _. returns (omega arith))

module _ {F : Type 0} (floats : Floats F) where
  pub parse_duration-fueled : (s : Text) → parse_duration floats s ≢ out_of_fuel
  unfolding parse_duration
  parse_duration-fueled s = ground arith

  pub parse_range-Keeps :
      (vs : VectorSelector) (ts : List Token) → Ensures (Keeps ts) (parse_range floats vs ts)
  unfolding parse_range
  parse_range-Keeps vs ts =
      Ensures-elim (peek_is tk_lbracket ts)
        (λ _. Ensures->>= (eat-Shrinks ts) (λ opening a.
          Ensures->>= (expect-Shrinks tk_duration opening.1) (λ dt b.
            Ensures->>= (expect-Shrinks tk_rbracket dt.1) (λ close c.
              Ensures->>= (Ensures-intro (parse_duration-fueled dt.0.val) (λ dur e. e))
                (λ dur _. returns (omega (arith, a, b, c)))))))
        (λ _. returns (omega arith))

  pub parse_selector_tail-Keeps :
      (f : ℕ) (metric : Text) (ts : List Token)
      → length ts ≤ f
      → Ensures (Keeps ts) (parse_selector_tail floats f metric ts)
  unfolding parse_selector_tail
  parse_selector_tail-Keeps f metric ts h =
      Ensures-elim (peek_is tk_lbrace ts)
        (λ _. Ensures->>= (eat-Shrinks ts) (λ opening a.
          Ensures->>= (parse_matchers-Keeps f opening.1 (omega (arith, h, a)))
            (λ ms b. Ensures-weaken (λ r c. omega (arith, a, b, c)) (parse_range-Keeps _ ms.1))))
        (λ _. parse_range-Keeps _ ts)

  pub aggr_args-fueled : (name : Text) (args : Nodes F) → aggr_args floats name args ≢ out_of_fuel
  unfolding aggr_args
  aggr_args-fueled name args = ground arith

  pub finish_call-Keeps :
      (f : ℕ) (name : Text) (args : Nodes F) (ts : List Token)
      → length ts ≤ f
      → Ensures (Keeps ts) (finish_call floats f name args ts)
  unfolding finish_call
  finish_call-Keeps f name args ts h =
      Ensures-elim (is_aggr_name name)
        (λ _.
          Ensures->>= (Ensures-intro (aggr_args-fueled name args) (λ a e. e))
            (λ a _. Ensures->>= (parse_modifier-Keeps f ts h) (λ m le. returns le)))
        (λ _. returns (omega arith))
