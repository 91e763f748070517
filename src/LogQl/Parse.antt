-- ===== src/LogQl/Parse.antt =====
-- The selectors and line filters of pkg/logql/logql.go, as texts of bytes.
use observe_x.Prelude.{
  ℕ, zero, suc, Bool, true, false, not, ◌&&◌, ◌||◌, Option, none, some, List, [], ◌∷◌, length, drop,
  ◌==◌, if◌then◌else◌,
}
use observe_x.Prelude.Text.{Text, codes}
use observe_x.Auth.{trim_left, trim_right}
use observe_x.PromQl.Run.{bad_syntax, Result, ok, err, out_of_fuel, ◌>>=◌}

-- strings.TrimSpace.
abbrev pub trim : Text → Text
trim s = trim_left (trim_right s)

-- strings.HasPrefix.
unfoldable pub has_prefix : Text → Text → Bool
has_prefix s [] = true
has_prefix [] (_ ∷ _) = false
has_prefix (c ∷ cs) (p ∷ ps) = c == p && has_prefix cs ps

-- strings.HasSuffix, for one byte.
unfoldable pub ends_in : ℕ → Text → Bool
ends_in c [] = false
ends_in c (d ∷ []) = d == c
ends_in c (d ∷ (e ∷ rest)) = ends_in c (e ∷ rest)

-- Without the last byte.
unfoldable pub drop_last : Text → Text
drop_last [] = []
drop_last (c ∷ []) = []
drop_last (c ∷ (d ∷ rest)) = c ∷ drop_last (d ∷ rest)

abbrev pub behind : ℕ → Option (Text × Text) → Option (Text × Text)
behind c none = none
behind c (some (before, after)) = some (c ∷ before, after)

-- What stands before and after the first occurrence of a byte, as by strings.Index, and the last, as by LastIndex.
unfoldable pub split_first : ℕ → Text → Option (Text × Text)
split_first c [] = none
split_first c (d ∷ ds) = elim (d == c) [
  | true ↦ some ([], ds)
  | false ↦ behind d (split_first c ds)
]

unfoldable pub split_last : ℕ → Text → Option (Text × Text)
split_last c [] = none
split_last c (d ∷ ds) = elim (split_last c ds) [
  | some (before, after) ↦ some (d ∷ before, after)
  | none ↦ if d == c then some ([], ds) else none
]

-- A quote that no backslash stands before.
abbrev pub is_quote : ℕ → ℕ → Bool
is_quote prev c = c == b'"' && not (prev == b'\\')

abbrev pub flip_if : Bool → Bool → Bool
flip_if test b = if test then not b else b

abbrev pub add_to_first : ℕ → List Text → List Text
add_to_first c [] = (c ∷ []) ∷ []
add_to_first c (piece ∷ pieces) = (c ∷ piece) ∷ pieces

-- The loop of splitTopLevelCommas; the depth is the brackets opened less those closed.
unfoldable pub split_commas : ℕ → Bool → ℕ → ℕ → Text → List Text
split_commas prev in_str opened closed [] = [] ∷ []
split_commas prev in_str opened closed (c ∷ cs) =
    let skip = split_commas c (flip_if (is_quote prev c) in_str) opened closed cs in
    let deeper = split_commas c in_str (suc opened) closed cs in
    let shallower = split_commas c in_str opened (suc closed) cs in
    let next = split_commas c in_str opened closed cs in
    if is_quote prev c || in_str
    then add_to_first c skip
    else if c == b'{' || (c == b'[' || c == b'(')
    then add_to_first c deeper
    else if c == b'}' || (c == b']' || c == b')')
    then add_to_first c shallower
    else if c == b',' && opened == closed
    then [] ∷ next
    else add_to_first c next

-- indexOpOutsideString: what stands before and after the operator.
unfoldable pub split_op : ℕ → Bool → Text → Text → Option (Text × Text)
unfolding has_prefix
split_op prev in_str op [] = none
split_op prev in_str op (c ∷ cs) =
    let in_str' = flip_if (is_quote prev c) in_str in
    elim (not in_str' && has_prefix (c ∷ cs) op) [
      | true ↦ some ([], drop (length op) (c ∷ cs))
      | false ↦ behind c (split_op c in_str' op cs)
    ]

pub data MatcherOp : Type 0 where
  matches_re not_matches_re not_equal equal : MatcherOp

pub record LqMatcher : Type 0 where
  pub name : Text
  pub op : MatcherOp
  pub val : Text

-- The operators in the order in which parseMatcher looks for them.
abbrev pub matcher_ops : List (Text × MatcherOp)
matcher_ops =
    (codes "=~", matches_re)
    ∷ (codes "!~", not_matches_re)
    ∷ (codes "!=", not_equal)
    ∷ (codes "=", equal)
    ∷ []

-- A quoted value, without its quotes.
unfoldable pub unquote : Text → Option Text
unfolding ends_in drop_last
unquote [] = none
unquote (c ∷ cs) = if c == b'"' && ends_in b'"' cs then some (drop_last cs) else none

unfoldable pub parse_matcher_with : List (Text × MatcherOp) → Text → Result LqMatcher
unfolding unquote split_op
parse_matcher_with [] s = err bad_syntax
parse_matcher_with (o ∷ os) s = elim (split_op 0 false o.0 s) [
  | none ↦ parse_matcher_with os s
  | some (before, after) ↦ elim before [
    | [] ↦ parse_matcher_with os s
    | b ∷ bs ↦ elim (unquote (trim after)) [
      | none ↦ err bad_syntax
      | some val ↦ ok (record { name = trim (b ∷ bs); op = o.1; val = val })
    ]
  ]
]

-- parseMatcher.
abbrev pub parse_matcher : Text → Result LqMatcher
parse_matcher s = parse_matcher_with matcher_ops s

-- The loop of parseStreamSelector over the parts.
unfoldable pub parse_parts : List Text → Result (List LqMatcher)
unfolding parse_matcher_with trim_left trim_right
parse_parts [] = ok []
parse_parts (part ∷ parts) = elim (trim part) [
  | [] ↦ parse_parts parts
  | c ∷ cs ↦ parse_matcher (c ∷ cs) >>= λ m. parse_parts parts >>= λ ms. ok (m ∷ ms)
]

-- parseStreamSelector, on a text that is trimmed: the matchers and the rest.
unfoldable pub parse_trimmed : Text → Result (List LqMatcher × Text)
unfolding split_first split_commas parse_parts
parse_trimmed [] = err bad_syntax
parse_trimmed (c ∷ cs) = elim (c == b'{') [
  | false ↦ err bad_syntax
  | true ↦ elim (split_first b'}' cs) [
    | none ↦ err bad_syntax
    | some (inner, after) ↦
        parse_parts (split_commas 0 false 0 0 inner) >>= λ ms. ok (ms, trim after)
  ]
]

abbrev pub parse_stream_selector : Text → Result (List LqMatcher × Text)
parse_stream_selector q = parse_trimmed (trim q)

pub data FilterOp : Type 0 where
  contains matches excludes not_matches : FilterOp

pub record LqLineFilter : Type 0 where
  pub op : FilterOp
  pub val : Text

-- The operator at the front, and what is behind its two bytes.
unfoldable pub filter_op : Text → Option (FilterOp × Text)
unfolding has_prefix
filter_op s =
    if has_prefix s (codes "|=")
    then some (contains, drop 2 s)
    else if has_prefix s (codes "|~")
    then some (matches, drop 2 s)
    else if has_prefix s (codes "!=")
    then some (excludes, drop 2 s)
    else if has_prefix s (codes "!~")
    then some (not_matches, drop 2 s)
    else none

-- The search for the closing quote: the bytes before it, as they stand, and those after it.
unfoldable pub split_quote : Text → Option (Text × Text)
split_quote [] = none
split_quote (c ∷ []) = if c == b'"' then some ([], []) else none
split_quote (c ∷ (d ∷ rest)) = elim (c == b'\\') [
  | true ↦ behind c (behind d (split_quote rest))
  | false ↦ elim (c == b'"') [
    | true ↦ some ([], d ∷ rest)
    | false ↦ behind c (split_quote (d ∷ rest))
  ]
]

-- The quoted argument of a filter, and what is behind it.
unfoldable pub quoted : Text → Option (Text × Text)
unfolding split_quote
quoted [] = none
quoted (c ∷ cs) = if c == b'"' then split_quote cs else none

-- The loop of parseLineFilters, on a text that is trimmed.
unfoldable pub parse_line_filters : ℕ → Text → Result (List LqLineFilter)
unfolding filter_op quoted trim_left trim_right
parse_line_filters fuel [] = ok []
parse_line_filters zero (c ∷ cs) = out_of_fuel
parse_line_filters (suc fuel) (c ∷ cs) = elim (filter_op (c ∷ cs)) [
  | none ↦ err bad_syntax
  | some (op, after) ↦ elim (quoted (trim after)) [
    | none ↦ err bad_syntax
    | some (val, rest) ↦
        parse_line_filters fuel (trim rest) >>= λ more. ok (record { op = op; val = val } ∷ more)
  ]
]
