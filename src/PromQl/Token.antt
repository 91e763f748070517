-- ===== src/PromQl/Token.antt =====
-- The tokens of pkg/promql/lex.go.
use observe_x.Prelude.{ℕ, Bool, true, false}
use observe_x.Prelude.Text.{Text}

pub data TokenKind : Type 0 where
  tk_ident tk_number tk_string tk_lbrace tk_rbrace tk_lparen tk_rparen : TokenKind
  tk_lbracket tk_rbracket tk_comma tk_eq tk_neq tk_regex_mat tk_regex_no_mt : TokenKind
  tk_plus tk_minus tk_star tk_slash tk_by tk_without tk_duration : TokenKind
  tk_gt tk_lt tk_gte tk_lte tk_eq_cmp : TokenKind

infix 50 ◌is◌
unfoldable pub ◌is◌ : TokenKind → TokenKind → Bool
tk_ident is tk_ident = true
tk_number is tk_number = true
tk_string is tk_string = true
tk_lbrace is tk_lbrace = true
tk_rbrace is tk_rbrace = true
tk_lparen is tk_lparen = true
tk_rparen is tk_rparen = true
tk_lbracket is tk_lbracket = true
tk_rbracket is tk_rbracket = true
tk_comma is tk_comma = true
tk_eq is tk_eq = true
tk_neq is tk_neq = true
tk_regex_mat is tk_regex_mat = true
tk_regex_no_mt is tk_regex_no_mt = true
tk_plus is tk_plus = true
tk_minus is tk_minus = true
tk_star is tk_star = true
tk_slash is tk_slash = true
tk_by is tk_by = true
tk_without is tk_without = true
tk_duration is tk_duration = true
tk_gt is tk_gt = true
tk_lt is tk_lt = true
tk_gte is tk_gte = true
tk_lte is tk_lte = true
tk_eq_cmp is tk_eq_cmp = true
_ is _ = false

pub record Token : Type 0 where
  pub kind : TokenKind
  pub val : Text
  pub pos : ℕ
