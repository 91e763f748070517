-- ===== src/PromQl/Selectors.antt =====
-- The parts of pkg/promql/parser.go that do not call each other: tokens, matchers, ranges and modifiers. The state of
-- the parser is the list of the tokens that are left; each round of a loop costs a unit of fuel.
use observe_x.Prelude.{
  ℕ, zero, suc, ◌-◌, Bool, true, false, ◌||◌, Option, none, some, List, [], ◌∷◌, length, take, drop,
  ltb, if◌then◌else◌, map,
}
use observe_x.Prelude.Text.{Text, codes, text_eq, is_member}
use observe_x.PromQl.Run.{
  bad_syntax, bad_duration, bad_arguments, Result, ok, err, out_of_fuel, ◌>>=◌,
}
use observe_x.PromQl.Token.{
  TokenKind, tk_ident, tk_string, tk_lbrace, tk_rbrace, tk_lparen, tk_rparen, tk_lbracket,
  tk_rbracket, tk_comma, tk_eq, tk_neq, tk_regex_mat, tk_regex_no_mt, tk_by, tk_without,
  tk_duration, ◌is◌, Token,
}
use observe_x.PromQl.Ast.{
  MatcherOp, match_eq, match_neq, match_regex, match_not_regex, Matcher, VectorSelector, Node,
  Nodes, vector_selector, range_selector, call_expr, aggr_expr, num_lit, no_nodes, more_nodes,
  Floats,
}

abbrev pub Parser {ℓ} : Type ℓ → Type ℓ
Parser A = List Token → Result (A × List Token)

-- Whether the next token is of a kind.
unfoldable pub peek_is : TokenKind → List Token → Bool
unfolding ◌is◌
peek_is k [] = false
peek_is k (t ∷ ts) = t.kind is k

-- eat.
unfoldable pub eat : Parser Token
eat [] = err bad_syntax
eat (t ∷ ts) = ok (t, ts)

unfoldable pub expect : TokenKind → Parser Token
unfolding ◌is◌
expect k [] = err bad_syntax
expect k (t ∷ ts) = if t.kind is k then ok (t, ts) else err bad_syntax

unfoldable pub matcher_op : TokenKind → Result MatcherOp
matcher_op tk_eq = ok match_eq
matcher_op tk_neq = ok match_neq
matcher_op tk_regex_mat = ok match_regex
matcher_op tk_regex_no_mt = ok match_not_regex
matcher_op _ = err bad_syntax

-- A comma is taken if it is there.
unfoldable pub skip_comma : List Token → List Token
unfolding peek_is
skip_comma [] = []
skip_comma (t ∷ ts) = if t.kind is tk_comma then ts else t ∷ ts

-- The loop over the matchers in parseSelectorTail, behind the opening brace.
unfoldable pub parse_matchers : ℕ → Parser (List Matcher)
unfolding expect eat matcher_op skip_comma ◌is◌
parse_matchers zero ts = out_of_fuel
parse_matchers (suc f) [] = err bad_syntax
parse_matchers (suc f) (t ∷ ts) = elim (t.kind is tk_rbrace) [
  | true ↦ ok ([], ts)
  | false ↦ expect tk_ident (t ∷ ts) >>= λ name. eat name.1 >>= λ op_tok.
      matcher_op op_tok.0.kind >>= λ op. expect tk_string op_tok.1 >>= λ val.
      parse_matchers f (skip_comma val.1) >>= λ more.
      ok (record { name = name.0.val; op = op; val = val.0.val } ∷ more.0, more.1)
]

-- The last n bytes.
unfoldable pub last_bytes : ℕ → Text → Text
last_bytes n s = drop (length s - n) s

unfoldable pub unit_size : Text → Option ℕ
unfolding text_eq
unit_size u =
    if text_eq u (codes "ms")
    then some 1000000
    else if text_eq u (codes "s")
    then some 1000000000
    else if text_eq u (codes "m")
    then some 60000000000
    else if text_eq u (codes "h")
    then some 3600000000000
    else if text_eq u (codes "d")
    then some 86400000000000
    else if text_eq u (codes "w")
    then some 604800000000000
    else if text_eq u (codes "y")
    then some 31536000000000000
    else none

unfoldable pub is_aggr_name : Text → Bool
unfolding is_member
is_aggr_name s = is_member s (map codes ("sum" ∷ "avg" ∷ "min" ∷ "max" ∷ "count" ∷ "quantile" ∷ []))

-- The loop over the labels of a modifier.
unfoldable pub parse_labels : ℕ → Parser (List Text)
unfolding expect peek_is skip_comma
parse_labels zero ts = out_of_fuel
parse_labels (suc f) ts = expect tk_ident ts >>= λ id. elim (peek_is tk_comma id.1) [
  | true ↦ parse_labels f (skip_comma id.1) >>= λ more. ok (id.0.val ∷ more.0, more.1)
  | false ↦ ok (id.0.val ∷ [], id.1)
]

-- The optional modifier: the labels of `by` and those of `without`.
unfoldable pub parse_modifier : ℕ → Parser (List Text × List Text)
unfolding eat expect parse_labels peek_is
parse_modifier f ts = elim (peek_is tk_by ts || peek_is tk_without ts) [
  | true ↦ eat ts >>= λ modifier. expect tk_lparen modifier.1 >>= λ opening.
      parse_labels f opening.1 >>= λ labs. expect tk_rparen labs.1 >>= λ close.
      ok (if modifier.0.kind is tk_by then (labs.0, []) else ([], labs.0), close.1)
  | false ↦ ok (([], []), ts)
]

module _ {F : Type 0} (floats : Floats F) where
  pub duration_unit : Text → Text
  unfolding last_bytes text_eq
  duration_unit s = if text_eq (last_bytes 2 s) (codes "ms") then codes "ms" else last_bytes 1 s

  -- parseDuration.
  unfoldable pub parse_duration : Text → Result F
  unfolding duration_unit unit_size
  parse_duration s =
      let unit = duration_unit s in
      if ltb (length s) 2
      then err bad_duration
      else elim (floats.parse_float (take (length s - length unit) s)) [
        | none ↦ err bad_duration
        | some n ↦ elim (unit_size unit) [
          | none ↦ err bad_duration
          | some mult ↦ ok (floats.scale mult n)
        ]
      ]

  -- The optional range behind a selector.
  unfoldable pub parse_range : VectorSelector → Parser (Node F)
  unfolding eat expect parse_duration peek_is
  parse_range vs ts = elim (peek_is tk_lbracket ts) [
    | true ↦ eat ts >>= λ opening. expect tk_duration opening.1 >>= λ dt.
        expect tk_rbracket dt.1 >>= λ close. parse_duration dt.0.val >>= λ dur.
        ok (range_selector (record { v = vs; dur = dur; dur_text = dt.0.val }), close.1)
    | false ↦ ok (vector_selector vs, ts)
  ]

  -- parseSelectorTail.
  unfoldable pub parse_selector_tail : ℕ → Text → Parser (Node F)
  unfolding eat parse_matchers parse_range peek_is
  parse_selector_tail f metric ts = elim (peek_is tk_lbrace ts) [
    | true ↦ eat ts >>= λ opening. parse_matchers f opening.1 >>= λ ms.
        parse_range (record { metric = metric; matches = ms.0 }) ms.1
    | false ↦ parse_range (record { metric = metric; matches = [] }) ts
  ]

  -- The argument of an aggregation and its scalar.
  unfoldable pub aggr_args : Text → Nodes F → Result (Node F × Option F)
  unfolding text_eq
  aggr_args name args =
      if text_eq name (codes "quantile")
      then elim args [
        | more_nodes phi rest ↦ elim rest [
          | more_nodes arg end ↦ elim end [
            | no_nodes ↦ elim phi [ num_lit v ↦ ok (arg, some v) | _ ↦ err bad_arguments ]
            | more_nodes _ _ ↦ err bad_arguments
          ]
          | no_nodes ↦ err bad_arguments
        ]
        | no_nodes ↦ err bad_arguments
      ]
      else elim args [
        | more_nodes arg rest ↦ elim rest [
          | no_nodes ↦ ok (arg, none)
          | more_nodes _ _ ↦ err bad_arguments
        ]
        | no_nodes ↦ err bad_arguments
      ]

  -- parseCallOrAggr behind the closing parenthesis.
  unfoldable pub finish_call : ℕ → Text → Nodes F → Parser (Node F)
  unfolding aggr_args parse_modifier is_aggr_name
  finish_call f name args ts = elim (is_aggr_name name) [
    | true ↦ aggr_args name args >>= λ a.
        parse_modifier f ts >>= λ m. ok (aggr_expr name a.0 m.0.0 m.0.1 a.1, m.1)
    | false ↦ ok (call_expr name args, ts)
  ]
