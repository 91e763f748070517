-- ===== src/PromQl/Lexer.antt =====
-- tokenize of pkg/promql/lex.go. The text is the list of the bytes that are left, `pos` the offset of
-- its first byte.
use observe_x.Prelude.{
  ℕ, zero, suc, ◌+◌, Bool, true, false, ◌&&◌, ◌||◌, Option, none, some, List, [], ◌∷◌, ◌++◌, length,
  drop, ◌==◌, if◌then◌else◌,
}
use observe_x.Prelude.Text.{Text, codes, text_eq, is_member, is_letter, is_digit}
use observe_x.Prelude.{map}
use observe_x.PromQl.Run.{bad_token, Result, ok, err, out_of_fuel, ◌>>=◌}
use observe_x.PromQl.Token.{
  TokenKind, tk_ident, tk_number, tk_string, tk_lbrace, tk_rbrace, tk_lparen, tk_rparen,
  tk_lbracket, tk_rbracket, tk_comma, tk_eq, tk_neq, tk_regex_mat, tk_regex_no_mt, tk_plus,
  tk_minus, tk_star, tk_slash, tk_by, tk_without, tk_duration, tk_gt, tk_lt, tk_gte, tk_lte,
  tk_eq_cmp, ◌is◌, Token,
}

abbrev pub is_ident_start : ℕ → Bool
is_ident_start c = c == b'_' || is_letter c

abbrev pub is_ident_cont : ℕ → Bool
is_ident_cont c = is_ident_start c || (is_digit c || c == b':')

abbrev pub duration_units : List Text
duration_units = map codes ("ms" ∷ "s" ∷ "m" ∷ "h" ∷ "d" ∷ "w" ∷ "y" ∷ [])

-- isDurationUnit.
unfoldable pub is_duration_unit : Text → Bool
unfolding is_member
is_duration_unit s = is_member s duration_units

-- The longest prefix of bytes that pass the test: the loops of readNumber and readIdent.
unfoldable pub read_while : (ℕ → Bool) → Text → Text
read_while test [] = []
read_while test (c ∷ cs) = elim (test c) [ true ↦ c ∷ read_while test cs | false ↦ [] ]

unfoldable pub read_number : Text → Text
unfolding read_while
read_number = read_while (λ c. is_digit c || c == b'.')

unfoldable pub read_ident : Text → Text
unfolding read_while
read_ident = read_while is_ident_cont

-- What an escape stands for.
unfoldable pub unescape : ℕ → ℕ
unescape c = if c == b'n' then b'\n' else if c == b't' then b'\t' else c

abbrev pub write_byte : ℕ → ℕ → Option (Text × ℕ) → Option (Text × ℕ)
write_byte c n none = none
write_byte c n (some (s, m)) = some (c ∷ s, n + m)

-- The loop of readString behind the opening quote: the text, and how many bytes it took up.
unfoldable pub read_string_tail : Text → Option (Text × ℕ)
unfolding unescape
read_string_tail [] = none
read_string_tail (c ∷ []) = if c == b'"' then some ([], 1) else none
read_string_tail (c ∷ (d ∷ rest)) = elim (c == b'"') [
  | true ↦ some ([], 1)
  | false ↦ elim (c == b'\\') [
    | true ↦ write_byte (unescape d) 2 (read_string_tail rest)
    | false ↦ write_byte c 1 (read_string_tail (d ∷ rest))
  ]
]

-- readString.
unfoldable pub read_string : Text → Option (Text × ℕ)
unfolding read_string_tail
read_string [] = none
read_string (c ∷ []) = none
read_string (c ∷ (d ∷ rest)) =
    if c == b'"'
    then elim (read_string_tail (d ∷ rest)) [ none ↦ none | some (s, n) ↦ some (s, suc n) ]
    else none

abbrev pub next_is : ℕ → Text → Bool
next_is c [] = false
next_is c (d ∷ ds) = d == c

-- What one round of the loop adds to the tokens, and how many bytes it takes up.
abbrev pub emit : TokenKind → Text → ℕ → ℕ → Option (List Token × ℕ)
emit kind val pos n = some (record { kind = kind; val = val; pos = pos } ∷ [], n)

unfoldable pub ident_kind : Text → TokenKind
unfolding text_eq
ident_kind s =
    if text_eq s (codes "by")
    then tk_by
    else if text_eq s (codes "without")
    then tk_without
    else tk_ident

unfoldable pub emit_string : ℕ → Option (Text × ℕ) → Option (List Token × ℕ)
emit_string pos none = none
emit_string pos (some (s, n)) = emit tk_string s pos n

unfoldable pub next_digit : Text → Bool
next_digit [] = false
next_digit (d ∷ ds) = is_digit d

-- One round of the loop of tokenize, at the byte `c`.
unfoldable pub lex_one : ℕ → ℕ → Text → Option (List Token × ℕ)
unfolding ident_kind emit_string next_digit read_string read_number read_ident
lex_one pos c rest =
    if c == b' ' || (c == b'\t' || (c == b'\n' || c == b'\r'))
    then some ([], 1)
    else if c == b'{'
    then emit tk_lbrace (codes "{") pos 1
    else if c == b'}'
    then emit tk_rbrace (codes "}") pos 1
    else if c == b'('
    then emit tk_lparen (codes "(") pos 1
    else if c == b')'
    then emit tk_rparen (codes ")") pos 1
    else if c == b'['
    then emit tk_lbracket (codes "[") pos 1
    else if c == b']'
    then emit tk_rbracket (codes "]") pos 1
    else if c == b','
    then emit tk_comma (codes ",") pos 1
    else if c == b'"'
    then emit_string pos (read_string (c ∷ rest))
    else if c == b'!'
    then (if next_is b'=' rest
        then emit tk_neq (codes "!=") pos 2
        else if next_is b'~' rest
        then emit tk_regex_no_mt (codes "!~") pos 2
        else none)
    else if c == b'='
    then (if next_is b'=' rest
        then emit tk_eq_cmp (codes "==") pos 2
        else if next_is b'~' rest
        then emit tk_regex_mat (codes "=~") pos 2
        else emit tk_eq (codes "=") pos 1)
    else if c == b'>'
    then (if next_is b'=' rest
        then emit tk_gte (codes ">=") pos 2
        else emit tk_gt (codes ">") pos 1)
    else if c == b'<'
    then (if next_is b'=' rest
        then emit tk_lte (codes "<=") pos 2
        else emit tk_lt (codes "<") pos 1)
    else if c == b'+'
    then emit tk_plus (codes "+") pos 1
    else if c == b'-'
    then emit tk_minus (codes "-") pos 1
    else if c == b'*'
    then emit tk_star (codes "*") pos 1
    else if c == b'/'
    then emit tk_slash (codes "/") pos 1
    else if is_digit c || (c == b'.' && next_digit rest)
    then (let s = read_number (c ∷ rest) in emit tk_number s pos (length s))
    else if is_ident_start c
    then (let s = read_ident (c ∷ rest) in emit (ident_kind s) s pos (length s))
    else none

-- The loop of tokenize.
unfoldable pub lex : ℕ → ℕ → Text → Result (List Token)
unfolding lex_one
lex fuel pos [] = ok []
lex zero pos (c ∷ rest) = out_of_fuel
lex (suc fuel) pos (c ∷ rest) = elim (lex_one pos c rest) [
  | none ↦ err bad_token
  | some (toks, n) ↦ lex fuel (pos + n) (drop n (c ∷ rest)) >>= λ more. ok (toks ++ more)
]

unfoldable pub folds : Token → Token → Bool
unfolding ◌is◌ is_duration_unit
folds t u = t.kind is tk_number && (u.kind is tk_ident && is_duration_unit u.val)

-- foldDurations.
unfoldable pub fold_durations : List Token → List Token
unfolding folds
fold_durations [] = []
fold_durations (t ∷ []) = t ∷ []
fold_durations (t ∷ (u ∷ rest)) = elim (folds t u) [
  | true ↦ record { kind = tk_duration; val = t.val ++ u.val; pos = t.pos } ∷ fold_durations rest
  | false ↦ t ∷ fold_durations (u ∷ rest)
]

-- tokenize.
unfoldable pub tokenize : Text → Result (List Token)
unfolding lex fold_durations
tokenize src = lex (length src) 0 src >>= λ toks. ok (fold_durations toks)
