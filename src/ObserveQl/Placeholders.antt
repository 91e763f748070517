-- ===== src/ObserveQl/Placeholders.antt =====
-- The placeholders in the SQL text of pkg/observeql/planner.go.
use observe_x.Prelude.Marks.{marks}
use observe_x.Prelude.{
  ℕ, ◌+◌, ◌≡◌, refl, ◌∙◌, true, List, [], ◌∷◌, ◌++◌, append_assoc, length, length-append, arith,
  Bool-cases, inl, inr,
}
use observe_x.Prelude.Text.{Text, text_eq, text_eq-eq, is_member, count, count-append}
use observe_x.ObserveQl.Ast.{
  Value, ident, text, number, no_value, OrExpr, or_expr, AndExprs, no_ands, more_ands, AndExpr,
  and_expr, Cmps, no_cmps, more_cmps, Cmp, negation, group, predicate, no_cmp,
}
use observe_x.ObserveQl.Render.{
  Param, text_param, number_param, Result, ok, err, panic, ◌>>=◌, ident_re, ident_tail, ident_quote,
}

-- A result is no panic, and what it holds has the property.
abbrev pub Always {ℓ} : {A : Type ℓ} → (A → Type 0) → Result A → Type 0
Always P (ok a) = P a
Always P (err _) = Unit {0}
Always P panic = ⊥

pub Always->>= {ℓ κ} :
    {A : Type ℓ} {B : Type κ} {P : A → Type 0} (Q : B → Type 0) (r : Result A) (f : A → Result B)
    → Always P r
    → ((a : A) → P a → Always Q (f a))
    → Always Q (r >>= f)
Always->>= Q (ok a) f p h = h a p
Always->>= Q (err _) f p h = tt
Always->>= Q panic f p h = p

ident_tail-marks : (s : Text) → ident_tail s ≡ true → marks s ≡ 0
unfolding ident_tail count
ident_tail-marks [] h = refl
ident_tail-marks (c ∷ cs) h = ground (arith, ident_tail-marks cs)

pub ident_re-marks : (s : Text) → ident_re s ≡ true → marks s ≡ 0
unfolding ident_re count
ident_re-marks [] h = refl
ident_re-marks (c ∷ cs) h = ground (arith, ident_tail-marks cs)

-- The columns that are allowed, and the tables, are identifiers.
abbrev pub AllIdents : List Text → Type 0
AllIdents [] = Unit {0}
AllIdents (s ∷ ss) = (ident_re s ≡ true) × AllIdents ss

pub member-ident_re :
    (s : Text) (ss : List Text) → AllIdents ss → is_member s ss ≡ true → ident_re s ≡ true
unfolding is_member
member-ident_re s [] h m = cc
member-ident_re s (t ∷ ts) h m = elim (Bool-cases (text_eq s t)) [
  | inl e ↦ rw (text_eq-eq s t e) h.0
  | inr e ↦ member-ident_re s ts h.1 (ground arith)
]

pub ident_quote-marks :
    (s : Text) → ident_re s ≡ true → (q : Text) × (ident_quote s ≡ ok q) × (marks q ≡ 0)
unfolding ident_quote count
ident_quote-marks s h = (
  b'`' ∷ s ++ b'`' ∷ [],
  ground arith,
  ground (arith, count-append b'?' s (b'`' ∷ []), ident_re-marks s h),
)

module _ {N : Type 0} where
  -- The literals of a value, and of an expression from the left to the right.
  unfoldable pub value_literals : Value N → List (Param N)
  value_literals (ident s) = []
  value_literals (text s) = text_param s ∷ []
  value_literals (number n) = number_param n ∷ []
  value_literals no_value = []

  unfoldable mutual
    unfolding value_literals

    pub or_literals : OrExpr N → List (Param N)
    or_literals (or_expr a rest) = and_literals a ++ ors_literals rest

    pub ors_literals : AndExprs N → List (Param N)
    ors_literals no_ands = []
    ors_literals (more_ands a rest) = and_literals a ++ ors_literals rest

    pub and_literals : AndExpr N → List (Param N)
    and_literals (and_expr c rest) = cmp_literals c ++ ands_literals rest

    pub ands_literals : Cmps N → List (Param N)
    ands_literals no_cmps = []
    ands_literals (more_cmps c rest) = cmp_literals c ++ ands_literals rest

    pub cmp_literals : Cmp N → List (Param N)
    cmp_literals (negation c) = cmp_literals c
    cmp_literals (group e) = or_literals e
    cmp_literals (predicate p) = value_literals p.lhs ++ value_literals p.rhs
    cmp_literals no_cmp = []

  -- A rendering does not panic; if it succeeds it has appended these literals to the parameters, and its
  -- text has `n` placeholders and one more for each of them.
  abbrev pub Binds : ℕ → List (Param N) → List (Param N) → Result (Text × List (Param N)) → Type 0
  Binds n params lits (ok (sql, params')) =
      (params' ≡ params ++ lits) × (marks sql ≡ n + length lits)
  Binds n params lits (err _) = Unit {0}
  Binds n params lits panic = ⊥

  -- One rendering after the other.
  pub Binds->>= :
      (n k : ℕ) (params xs ys : List (Param N)) (r : Result (Text × List (Param N)))
      (f : Text × List (Param N) → Result (Text × List (Param N)))
      → Binds k params xs r
      → ((sql : Text)
          → marks sql ≡ k + length xs
          → Binds (n + length xs) (params ++ xs) ys (f (sql, params ++ xs)))
      → Binds n params (xs ++ ys) (r >>= f)
  Binds->>= n k params xs ys (ok (sql, params')) f (e, m) h =
      rw e (weaken (f (sql, params ++ xs)) (h sql m))
    where
      weaken :
          (r : Result (Text × List (Param N)))
          → Binds (n + length xs) (params ++ xs) ys r
          → Binds n params (xs ++ ys) r
      weaken (ok (s, ps)) (e, m) =
          (e ∙ append_assoc params xs ys, omega (arith, m, length-append xs ys))
      weaken (err _) b = tt
      weaken panic b = b
  Binds->>= n k params xs ys (err _) f b h = tt
  Binds->>= n k params xs ys panic f b h = b
