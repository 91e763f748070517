-- ===== src/ObserveQl/Expressions.antt =====
-- The WHERE expression of pkg/observeql/planner.go.
use mathlib.Core.Path.{subst}
use observe_x.Prelude.Marks.{marks}
use observe_x.Prelude.{
  ◌+◌, ◌≡◌, refl, sym, List, ◌∷◌, ◌++◌, append-nil, arith, Bool-cases, inl, inr,
}
use observe_x.Prelude.Text.{Text, codes, is_member, count, count-append}
use observe_x.ObserveQl.Ast.{
  Value, ident, text, number, no_value, Operator, eq, Predicate, OrExpr, or_expr, AndExprs, no_ands,
  more_ands, AndExpr, and_expr, Cmps, no_cmps, more_cmps, Cmp, negation, group, predicate, no_cmp,
}
use observe_x.ObserveQl.Render.{
  Param, Result, ok, err, panic, ◌>>=◌, render_value, render_predicate, op_text, in_or, in_and,
  render_or, render_ors, render_and, render_ands, render_cmp,
}
use observe_x.ObserveQl.Placeholders.{
  AllIdents, member-ident_re, ident_quote-marks, value_literals, or_literals, ors_literals,
  and_literals, ands_literals, cmp_literals, Binds, Binds->>=,
}

in_or-marks : (l r : Text) → marks (in_or l r) ≡ marks l + marks r
unfolding count
in_or-marks l r =
    omega (
      arith,
      count-append b'?' l (codes " OR " ++ (r ++ codes ")")),
      count-append b'?' r (codes ")"),
    )

in_and-marks : (l r : Text) → marks (in_and l r) ≡ marks l + marks r
unfolding count
in_and-marks l r = omega (
  arith,
  count-append b'?' l (codes " AND " ++ (r ++ codes ")")),
  count-append b'?' r (codes ")"),
)

op_text-marks : (o : Operator) → marks (op_text o) ≡ 0
unfolding count
op_text-marks eq = refl
op_text-marks _ = refl

module _ {N : Type 0} (allowed : List Text) (idents : AllIdents allowed) where
  value-Binds :
      (v : Value N) (params : List (Param N))
      → Binds 0 params (value_literals v) (render_value allowed v params)
  unfolding render_value value_literals
  value-Binds (ident s) params = elim (Bool-cases (is_member s allowed)) [
    | inl m ↦
        let (q, e, z) = ident_quote-marks s (member-ident_re s allowed idents m) in
        rw (m, render_value, e) (sym (append-nil params), z)
    | inr m ↦ rw (m, render_value) tt
  ]
  value-Binds (text s) params = (refl, unfold count in refl)
  value-Binds (number n) params = (refl, unfold count in refl)
  value-Binds no_value params = tt

  wrap_not :
      (params lits : List (Param N)) (r : Result (Text × List (Param N)))
      → Binds 0 params lits r
      → Binds 0 params lits (r >>= λ s. ok (codes "NOT (" ++ (s.0 ++ codes ")"), s.1))
  unfolding count
  wrap_not params lits (ok (sql, ps)) (e, m) =
      (e, omega (arith, m, count-append b'?' sql (codes ")")))
  wrap_not params lits (err _) b = tt
  wrap_not params lits panic b = b

  wrap_group :
      (params lits : List (Param N)) (r : Result (Text × List (Param N)))
      → Binds 0 params lits r
      → Binds 0 params lits (r >>= λ s. ok (b'(' ∷ s.0 ++ codes ")", s.1))
  unfolding count
  wrap_group params lits (ok (sql, ps)) (e, m) =
      (e, omega (arith, m, count-append b'?' sql (codes ")")))
  wrap_group params lits (err _) b = tt
  wrap_group params lits panic b = b

  between :
      (l : Text) (o : Operator) (params lits : List (Param N)) (r : Result (Text × List (Param N)))
      → Binds 0 params lits r
      → Binds (marks l) params lits (r >>= λ s. ok (l ++ (b' ' ∷ op_text o ++ (b' ' ∷ s.0)), s.1))
  unfolding count
  between l o params lits (ok (sql, ps)) (e, m) = (
    e,
    omega (
      arith,
      m,
      op_text-marks o,
      count-append b'?' l (b' ' ∷ op_text o ++ (b' ' ∷ sql)),
      count-append b'?' (op_text o) (b' ' ∷ sql),
    ),
  )
  between l o params lits (err _) b = tt
  between l o params lits panic b = b

  predicate-Binds :
      (p : Predicate N) (params : List (Param N))
      → Binds 0 params
          (value_literals p.lhs ++ value_literals p.rhs)
          (render_predicate allowed p params)
  unfolding render_predicate
  predicate-Binds p params =
      Binds->>= 0 0 params (value_literals p.lhs) (value_literals p.rhs)
        (render_value allowed p.lhs params) _ (value-Binds p.lhs params)
        (λ sql m.
          subst
            (λ n. Binds n (params ++ value_literals p.lhs) (value_literals p.rhs) (
              render_value allowed p.rhs (params ++ value_literals p.lhs) >>= λ s.
              ok (sql ++ (b' ' ∷ op_text p.op ++ (b' ' ∷ s.0)), s.1)))
            m
            (between sql p.op (params ++ value_literals p.lhs) (value_literals p.rhs)
              (render_value allowed p.rhs (params ++ value_literals p.lhs))
              (value-Binds p.rhs (params ++ value_literals p.lhs))))

  mutual
    unfolding render_or or_literals

    or-Binds :
        (e : OrExpr N) (params : List (Param N))
        → Binds 0 params (or_literals e) (render_or allowed e params)
    or-Binds (or_expr a rest) params =
        Binds->>= 0 0 params (and_literals a) (ors_literals rest) (render_and allowed a params)
          (λ l. render_ors allowed rest l.0 l.1) (and-Binds a params)
          (λ sql m.
            subst
              (λ n.
                Binds n (params ++ and_literals a) (ors_literals rest)
                  (render_ors allowed rest sql (params ++ and_literals a)))
              m (ors-Binds rest sql (params ++ and_literals a)))

    ors-Binds :
        (rest : AndExprs N) (left : Text) (params : List (Param N))
        → Binds (marks left) params (ors_literals rest) (render_ors allowed rest left params)
    ors-Binds no_ands left params = (sym (append-nil params), omega arith)
    ors-Binds (more_ands a rest) left params =
        Binds->>= (marks left) 0 params (and_literals a) (ors_literals rest)
          (render_and allowed a params) (λ r. render_ors allowed rest (in_or left r.0) r.1)
          (and-Binds a params)
          (λ sql m.
            subst
              (λ n.
                Binds n (params ++ and_literals a) (ors_literals rest)
                  (render_ors allowed rest (in_or left sql) (params ++ and_literals a)))
              (omega (arith, in_or-marks left sql, m))
              (ors-Binds rest (in_or left sql) (params ++ and_literals a)))

    and-Binds :
        (a : AndExpr N) (params : List (Param N))
        → Binds 0 params (and_literals a) (render_and allowed a params)
    and-Binds (and_expr c rest) params =
        Binds->>= 0 0 params (cmp_literals c) (ands_literals rest) (render_cmp allowed c params)
          (λ l. render_ands allowed rest l.0 l.1) (cmp-Binds c params)
          (λ sql m.
            subst
              (λ n.
                Binds n (params ++ cmp_literals c) (ands_literals rest)
                  (render_ands allowed rest sql (params ++ cmp_literals c)))
              m (ands-Binds rest sql (params ++ cmp_literals c)))

    ands-Binds :
        (rest : Cmps N) (left : Text) (params : List (Param N))
        → Binds (marks left) params (ands_literals rest) (render_ands allowed rest left params)
    ands-Binds no_cmps left params = (sym (append-nil params), omega arith)
    ands-Binds (more_cmps c rest) left params =
        Binds->>= (marks left) 0 params (cmp_literals c) (ands_literals rest)
          (render_cmp allowed c params) (λ r. render_ands allowed rest (in_and left r.0) r.1)
          (cmp-Binds c params)
          (λ sql m.
            subst
              (λ n.
                Binds n (params ++ cmp_literals c) (ands_literals rest)
                  (render_ands allowed rest (in_and left sql) (params ++ cmp_literals c)))
              (omega (arith, in_and-marks left sql, m))
              (ands-Binds rest (in_and left sql) (params ++ cmp_literals c)))

    cmp-Binds :
        (c : Cmp N) (params : List (Param N))
        → Binds 0 params (cmp_literals c) (render_cmp allowed c params)
    cmp-Binds (negation c) params =
        wrap_not params (cmp_literals c) (render_cmp allowed c params) (cmp-Binds c params)
    cmp-Binds (group e) params =
        wrap_group params (or_literals e) (render_or allowed e params) (or-Binds e params)
    cmp-Binds (predicate p) params = predicate-Binds p params
    cmp-Binds no_cmp params = tt

  -- The WHERE expression never panics; if it renders, its literals are appended to the parameters and
  -- there is one placeholder for each.
  pub render_or-Binds :
      (e : OrExpr N) (params : List (Param N))
      → Binds 0 params (or_literals e) (render_or allowed e params)
  render_or-Binds e params = or-Binds e params
