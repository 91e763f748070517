-- ===== src/LogQl/Fuel.antt =====
-- The parsing of pkg/logql/logql.go ends.
use observe_x.Prelude.{
  ℕ, zero, suc, ◌≤◌, Bool, true, false, Option, none, some, List, [], ◌∷◌, length, length-drop,
  ◌==◌, if◌then◌else◌, ◌≡◌, ◌≢◌, arith,
}
use observe_x.Prelude.Text.{Text}
use observe_x.Auth.{trim_left, trim_right, cons_unless_blank}
use observe_x.PromQl.Run.{
  Result, ok, out_of_fuel, ◌>>=◌, Ensures, returns, fails, Ensures->>=, Ensures-elim,
  Ensures-option, Ensures-intro, Ensures-starved, Ensures-weaken,
}
use observe_x.LogQl.Parse.{
  trim, split_first, split_commas, split_quote, quoted, filter_op, behind, matcher_ops,
  parse_matcher, parse_matcher_with, parse_parts, parse_trimmed, parse_stream_selector,
  parse_line_filters, MatcherOp, FilterOp,
}

trim_left-length : (s : Text) → length (trim_left s) ≤ length s
unfolding trim_left
trim_left-length [] = omega arith
trim_left-length (c ∷ cs) = ground (arith, trim_left-length cs)

cons_unless_blank-length : (c : ℕ) (s : Text) → length (cons_unless_blank c s) ≤ suc (length s)
unfolding cons_unless_blank
cons_unless_blank-length c [] = ground arith
cons_unless_blank-length c (d ∷ ds) = omega arith

trim_right-length : (s : Text) → length (trim_right s) ≤ length s
unfolding trim_right
trim_right-length [] = omega arith
trim_right-length (c ∷ cs) =
    omega (arith, trim_right-length cs, cons_unless_blank-length c (trim_right cs))

trim-length : (s : Text) → length (trim s) ≤ length s
trim-length s = omega (arith, trim_left-length (trim_right s), trim_right-length s)

-- A text whose remainder, if there is one, is no longer than a bound.
data Leaves (n : ℕ) : Option (Text × Text) → Type 0 where
  nothing : Leaves n none
  leaves : (before after : Text) → length after ≤ n → Leaves n (some (before, after))

behind-Leaves :
    {n m : ℕ} (c : ℕ) (o : Option (Text × Text)) → n ≤ m → Leaves n o → Leaves m (behind c o)
behind-Leaves c none h nothing = nothing
behind-Leaves c (some (before, after)) h (leaves _ _ h') =
    leaves (c ∷ before) after (omega (arith, h, h'))

split_quote-Leaves : (s : Text) → Leaves (length s) (split_quote s)
unfolding split_quote
split_quote-Leaves [] = nothing
split_quote-Leaves (c ∷ []) = by_quote (c == b'"')
  where
    by_quote : (test : Bool) → Leaves 1 (if test then some ([], []) else none)
    by_quote true = leaves [] [] (omega arith)
    by_quote false = nothing
split_quote-Leaves (c ∷ (d ∷ rest)) =
    by_byte (c == b'\\') (c == b'"') (split_quote-Leaves rest) (split_quote-Leaves (d ∷ rest))
  where
    by_byte :
        (escape quote : Bool)
        → Leaves (length rest) (split_quote rest)
        → Leaves (suc (length rest)) (split_quote (d ∷ rest))
        → Leaves (suc (suc (length rest))) (elim escape [
          | true ↦ behind c (behind d (split_quote rest))
          | false ↦ elim quote [
            | true ↦ some ([], d ∷ rest)
            | false ↦ behind c (split_quote (d ∷ rest))
          ]
        ])
    by_byte true quote skip next =
        behind-Leaves c _ (omega arith)
          (behind-Leaves {m = suc (length rest)} d _ (omega arith) skip)
    by_byte false true skip next = leaves [] (d ∷ rest) (omega arith)
    by_byte false false skip next = behind-Leaves c _ (omega arith) next

quoted-Leaves : (s : Text) → Leaves (length s) (quoted s)
unfolding quoted
quoted-Leaves [] = nothing
quoted-Leaves (c ∷ cs) = by_quote (c == b'"') (split_quote cs) (split_quote-Leaves cs)
  where
    by_quote :
        (test : Bool) (o : Option (Text × Text))
        → Leaves (length cs) o
        → Leaves (suc (length cs)) (if test then o else none)
    by_quote true none nothing = nothing
    by_quote true (some (before, after)) (leaves _ _ h) = leaves before after (omega (arith, h))
    by_quote false o h = nothing

filter_op-length :
    (c : ℕ) (cs : Text) (op : FilterOp) (after : Text)
    → filter_op (c ∷ cs) ≡ some (op, after)
    → length after ≤ length cs
unfolding filter_op
filter_op-length c cs op after e = ground (arith, length-drop 1 cs)

parse_matcher_with-fueled :
    (os : List (Text × MatcherOp)) (s : Text) → parse_matcher_with os s ≢ out_of_fuel
unfolding parse_matcher_with
parse_matcher_with-fueled [] s = cc
parse_matcher_with-fueled (o ∷ os) s = ground (arith, parse_matcher_with-fueled os s)

parse_parts-Ensures :
    (parts : List Text) → Ensures (λ ms. length ms ≤ length parts) (parse_parts parts)
unfolding parse_parts
parse_parts-Ensures [] = returns (omega arith)
parse_parts-Ensures (part ∷ parts) = by_part (trim part) (parse_parts-Ensures parts)
  where
    by_part :
        (t : Text)
        → Ensures (λ ms. length ms ≤ length parts) (parse_parts parts)
        → Ensures
            (λ ms. length ms ≤ suc (length parts))
            (elim t [
              | [] ↦ parse_parts parts
              | c ∷ cs ↦ parse_matcher (c ∷ cs) >>= λ m. parse_parts parts >>= λ ms. ok (m ∷ ms)
            ])
    by_part [] later = Ensures-weaken (λ ms h. omega (arith, h)) later
    by_part (c ∷ cs) later =
        Ensures->>= (Ensures-intro (parse_matcher_with-fueled matcher_ops (c ∷ cs)) (λ m e. e))
          (λ m _. Ensures->>= later (λ ms h. returns (omega (arith, h))))

parse_trimmed-Ensures : (s : Text) → Ensures (λ r. 0 ≤ length r.0) (parse_trimmed s)
unfolding parse_trimmed
parse_trimmed-Ensures [] = fails
parse_trimmed-Ensures (c ∷ cs) =
    Ensures-elim (c == b'{')
      (λ _.
        Ensures-option (split_first b'}' cs) (λ _. fails)
          (λ split _.
            Ensures->>= (parse_parts-Ensures (split_commas 0 false 0 0 split.0))
              (λ ms _. returns (omega arith))))
      (λ _. fails)

pub parse_stream_selector-Ensures :
    (q : Text) → Ensures (λ r. 0 ≤ length r.0) (parse_stream_selector q)
parse_stream_selector-Ensures q = parse_trimmed-Ensures (trim q)

Leaves-Ensures :
    {A : Type 0} {P : A → Type 0} {absent : Result A} {present : Text → Text → Result A} {n : ℕ}
    (o : Option (Text × Text))
    → Leaves n o
    → Ensures P absent
    → ((before after : Text) → length after ≤ n → Ensures P (present before after))
    → Ensures P (elim o [ none ↦ absent | some (before, after) ↦ present before after ])
Leaves-Ensures none nothing a k = a
Leaves-Ensures (some (before, after)) (leaves _ _ h) a k = k before after h

-- The text's length is fuel enough for the line filters.
pub parse_line_filters-Ensures :
    (fuel : ℕ) (s : Text)
    → length s ≤ fuel
    → Ensures (λ fs. length fs ≤ length s) (parse_line_filters fuel s)
unfolding parse_line_filters
parse_line_filters-Ensures fuel [] h = returns (omega arith)
parse_line_filters-Ensures zero (c ∷ cs) h = Ensures-starved h
parse_line_filters-Ensures (suc fuel) (c ∷ cs) h =
    Ensures-option (filter_op (c ∷ cs)) (λ _. fails)
      (λ o e. Leaves-Ensures (quoted (trim o.1)) (quoted-Leaves (trim o.1)) fails (λ val rest short.
        let left : length (trim rest) ≤ length cs =
          omega
            (arith, short, trim-length rest, trim-length o.1, filter_op-length c cs o.0 o.1 e) in
        Ensures->>= (parse_line_filters-Ensures fuel (trim rest) (omega (arith, left, h)))
          (λ more few. returns (omega (arith, few, left)))))
