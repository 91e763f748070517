-- ===== src/ObserveQl/Blank.antt =====
-- The SQL text of PlanQuery (pkg/observeql/planner.go) without its literals.
use observe_x.Prelude.{◌≡◌, refl, ap, ◌∙◌, List, [], Bool-cases, inl, inr}
use observe_x.Prelude.Text.{Text, is_member}
use observe_x.ObserveQl.Ast.{
  Value, ident, text, number, no_value, OrExpr, or_expr, AndExprs, no_ands, more_ands, AndExpr,
  and_expr, Cmps, no_cmps, more_cmps, Cmp, negation, group, predicate, no_cmp,
}
use observe_x.ObserveQl.Render.{
  Param, Result, ok, err, panic, ◌>>=◌, ident_quote, render_value, render_predicate, in_or, in_and,
  render_or, render_ors, render_and, render_ands, render_cmp,
}

-- A result without the parameters.
abbrev pub erase : {N : Type 0} → Result (Text × List (Param N)) → Result Text
erase r = r >>= λ s. ok s.0

-- Values and expressions with every literal forgotten.
module _ {N : Type 0} where
  unfoldable pub blank_value : Value N → Value (Unit {0})
  blank_value (ident s) = ident s
  blank_value (text s) = text []
  blank_value (number n) = number tt
  blank_value no_value = no_value

  unfoldable mutual
    unfolding blank_value

    pub blank_or : OrExpr N → OrExpr (Unit {0})
    blank_or (or_expr a rest) = or_expr (blank_and a) (blank_ors rest)

    pub blank_ors : AndExprs N → AndExprs (Unit {0})
    blank_ors no_ands = no_ands
    blank_ors (more_ands a rest) = more_ands (blank_and a) (blank_ors rest)

    pub blank_and : AndExpr N → AndExpr (Unit {0})
    blank_and (and_expr c rest) = and_expr (blank_cmp c) (blank_cmps rest)

    pub blank_cmps : Cmps N → Cmps (Unit {0})
    blank_cmps no_cmps = no_cmps
    blank_cmps (more_cmps c rest) = more_cmps (blank_cmp c) (blank_cmps rest)

    pub blank_cmp : Cmp N → Cmp (Unit {0})
    blank_cmp (negation c) = negation (blank_cmp c)
    blank_cmp (group e) = group (blank_or e)
    blank_cmp (predicate p) =
        predicate (record { lhs = blank_value p.lhs; op = p.op; rhs = blank_value p.rhs })
    blank_cmp no_cmp = no_cmp

  -- Renderings of the same text stay so under continuations that only read the text alike.
  erase->>= :
      (r : Result (Text × List (Param N))) (r' : Result (Text × List (Param (Unit {0}))))
      (f : Text × List (Param N) → Result (Text × List (Param N)))
      (f' : Text × List (Param (Unit {0})) → Result (Text × List (Param (Unit {0}))))
      → erase r ≡ erase r'
      → ((sql : Text) (ps : List (Param N)) (ps' : List (Param (Unit {0})))
          → erase (f (sql, ps)) ≡ erase (f' (sql, ps')))
      → erase (r >>= f) ≡ erase (r' >>= f')
  erase->>= (ok (s, ps)) (ok (s', ps')) f f' e h = h s ps ps' ∙ ap (λ t. erase (f' (t, ps'))) cc
  erase->>= (ok x) (err _) f f' e h = cc
  erase->>= (ok x) panic f f' e h = cc
  erase->>= (err _) (ok x) f f' e h = cc
  erase->>= (err _) (err _) f f' e h = e
  erase->>= (err _) panic f f' e h = cc
  erase->>= panic (ok x) f f' e h = cc
  erase->>= panic (err _) f f' e h = cc
  erase->>= panic panic f f' e h = refl

  quoted :
      (r : Result Text) (ps : List (Param N)) (ps' : List (Param (Unit {0})))
      → erase (r >>= λ q. ok (q, ps)) ≡ erase (r >>= λ q. ok (q, ps'))
  quoted (ok q) ps ps' = refl
  quoted (err _) ps ps' = refl
  quoted panic ps ps' = refl

  module _ (allowed : List Text) where
    value_blank :
        (v : Value N) (ps : List (Param N)) (ps' : List (Param (Unit {0})))
        → erase (render_value allowed v ps) ≡ erase (render_value allowed (blank_value v) ps')
    unfolding render_value blank_value
    value_blank (ident s) ps ps' = elim (Bool-cases (is_member s allowed)) [
      | inl m ↦ rw m (quoted (ident_quote s) ps ps')
      | inr m ↦ rw m refl
    ]
    value_blank (text s) ps ps' = refl
    value_blank (number n) ps ps' = refl
    value_blank no_value ps ps' = refl

    mutual
      unfolding render_or blank_or render_predicate

      pub or_blank :
          (e : OrExpr N) (ps : List (Param N)) (ps' : List (Param (Unit {0})))
          → erase (render_or allowed e ps) ≡ erase (render_or allowed (blank_or e) ps')
      or_blank (or_expr a rest) ps ps' =
          erase->>= (render_and allowed a ps) _ _ _ (and_blank a ps ps')
            (λ sql qs qs'. ors_blank rest sql qs qs')

      ors_blank :
          (rest : AndExprs N) (left : Text) (ps : List (Param N)) (ps' : List (Param (Unit {0})))
          → erase (render_ors allowed rest left ps)
            ≡ erase (render_ors allowed (blank_ors rest) left ps')
      ors_blank no_ands left ps ps' = refl
      ors_blank (more_ands a rest) left ps ps' =
          erase->>= (render_and allowed a ps) _ _ _ (and_blank a ps ps')
            (λ sql qs qs'. ors_blank rest (in_or left sql) qs qs')

      and_blank :
          (a : AndExpr N) (ps : List (Param N)) (ps' : List (Param (Unit {0})))
          → erase (render_and allowed a ps) ≡ erase (render_and allowed (blank_and a) ps')
      and_blank (and_expr c rest) ps ps' =
          erase->>= (render_cmp allowed c ps) _ _ _ (cmp_blank c ps ps')
            (λ sql qs qs'. ands_blank rest sql qs qs')

      ands_blank :
          (rest : Cmps N) (left : Text) (ps : List (Param N)) (ps' : List (Param (Unit {0})))
          → erase (render_ands allowed rest left ps)
            ≡ erase (render_ands allowed (blank_cmps rest) left ps')
      ands_blank no_cmps left ps ps' = refl
      ands_blank (more_cmps c rest) left ps ps' =
          erase->>= (render_cmp allowed c ps) _ _ _ (cmp_blank c ps ps')
            (λ sql qs qs'. ands_blank rest (in_and left sql) qs qs')

      cmp_blank :
          (c : Cmp N) (ps : List (Param N)) (ps' : List (Param (Unit {0})))
          → erase (render_cmp allowed c ps) ≡ erase (render_cmp allowed (blank_cmp c) ps')
      cmp_blank (negation c) ps ps' =
          erase->>= (render_cmp allowed c ps) _ _ _ (cmp_blank c ps ps') (λ sql qs qs'. refl)
      cmp_blank (group e) ps ps' =
          erase->>= (render_or allowed e ps) _ _ _ (or_blank e ps ps') (λ sql qs qs'. refl)
      cmp_blank (predicate p) ps ps' =
          erase->>= (render_value allowed p.lhs ps) _ _ _ (value_blank p.lhs ps ps') (λ l qs qs'.
            erase->>= (render_value allowed p.rhs qs) _ _ _ (value_blank p.rhs qs qs')
              (λ sql rs rs'. refl))
      cmp_blank no_cmp ps ps' = refl
