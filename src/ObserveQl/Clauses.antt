-- ===== src/ObserveQl/Clauses.antt =====
-- The SELECT and GROUP BY clauses of pkg/observeql/planner.go.
use observe_x.Prelude.Marks.{marks, total}
use observe_x.Prelude.{◌≡◌, refl, true, List, [], ◌∷◌, ◌++◌, arith, Bool-cases, inl, inr}
use observe_x.Prelude.Text.{Text, codes, is_member, count, count-append}
use observe_x.ObserveQl.Ast.{
  star, column_arg, no_arg, Column, named, call, no_column, Selection, all, columns,
}
use observe_x.ObserveQl.Render.{
  Result, ok, ◌>>=◌, ident_re, ident_quote, render_column, allowed_functions, to_lower,
}
use observe_x.ObserveQl.Planner.{render_columns, render_select, render_group}
use observe_x.ObserveQl.Placeholders.{
  Always, Always->>=, AllIdents, member-ident_re, ident_re-marks, ident_quote-marks,
}

abbrev pub IsClean : Result Text → Type 0
IsClean = Always (λ s. marks s ≡ 0)

abbrev pub AreClean : Result (List Text) → Type 0
AreClean = Always (λ ss. total ss ≡ 0)

cons-AreClean :
    (r : Result Text) (rs : Result (List Text))
    → IsClean r
    → AreClean rs
    → AreClean (r >>= λ s. rs >>= λ rest. ok (s ∷ rest))
cons-AreClean r rs c cs =
    Always->>= (λ ss. total ss ≡ 0) r _ c
      (λ s z. Always->>= (λ ss. total ss ≡ 0) rs _ cs (λ ss zs. omega (arith, z, zs)))

functions-AllIdents : AllIdents allowed_functions
unfolding ident_re
functions-AllIdents = (refl, (refl, (refl, (refl, (refl, tt)))))

pub quoted-IsClean : (s : Text) → ident_re s ≡ true → IsClean (ident_quote s)
quoted-IsClean s h = let (q, e, z) = ident_quote-marks s h in rw e z

function-marks :
    (name : Text) → is_member (to_lower name) allowed_functions ≡ true → marks (to_lower name) ≡ 0
function-marks name f =
    ident_re-marks (to_lower name)
      (member-ident_re (to_lower name) allowed_functions functions-AllIdents f)

module _ (allowed : List Text) (idents : AllIdents allowed) where
  argument-IsClean :
      (fn a : Text)
      → marks fn ≡ 0
      → ident_re a ≡ true
      → IsClean (ident_quote a >>= λ q. ok (fn ++ (b'(' ∷ q ++ b')' ∷ [])))
  unfolding count
  argument-IsClean fn a f h =
      let (q, e, z) = ident_quote-marks a h in
      rw e (
        omega (
          arith,
          f,
          z,
          count-append b'?' fn (b'(' ∷ q ++ b')' ∷ []),
          count-append b'?' q (b')' ∷ []),
        ))

  column-IsClean : (c : Column) → IsClean (render_column allowed c)
  unfolding render_column count
  column-IsClean (named name) = elim (Bool-cases (is_member name allowed)) [
    | inl m ↦ rw m (quoted-IsClean name (member-ident_re name allowed idents m))
    | inr m ↦ rw m tt
  ]
  column-IsClean (call name star) =
      elim (Bool-cases (is_member (to_lower name) allowed_functions)) [
        | inl f ↦
            rw f (
              omega (arith, function-marks name f, count-append b'?' (to_lower name) (codes "(*)")))
        | inr f ↦ rw f tt
      ]
  column-IsClean (call name no_arg) =
      elim (Bool-cases (is_member (to_lower name) allowed_functions)) [
        | inl f ↦ rw f tt
        | inr f ↦ rw f tt
      ]
  column-IsClean (call name (column_arg a)) =
      elim (Bool-cases (is_member (to_lower name) allowed_functions)) [
        | inr f ↦ rw f tt
        | inl f ↦ elim (Bool-cases (is_member a allowed)) [
          | inl m ↦
              rw (f, m)
                (argument-IsClean (to_lower name) a (function-marks name f)
                  (member-ident_re a allowed idents m))
          | inr m ↦ rw (f, m) tt
        ]
      ]
  column-IsClean no_column = tt

  pub columns-AreClean : (cs : List Column) → AreClean (render_columns allowed cs)
  unfolding render_columns
  columns-AreClean [] = refl
  columns-AreClean (c ∷ cs) =
      cons-AreClean (render_column allowed c) (render_columns allowed cs) (column-IsClean c)
        (columns-AreClean cs)

  pub select-AreClean : (s : Selection) → AreClean (render_select allowed s)
  unfolding render_select count
  select-AreClean all = refl
  select-AreClean (columns cs) = columns-AreClean cs

  pub group-AreClean : (cs : List Text) → AreClean (render_group allowed cs)
  unfolding render_group
  group-AreClean [] = refl
  group-AreClean (c ∷ cs) = elim (Bool-cases (is_member c allowed)) [
    | inl m ↦ rw m (
        cons-AreClean (ident_quote c) (render_group allowed cs)
          (quoted-IsClean c (member-ident_re c allowed idents m)) (group-AreClean cs))
    | inr m ↦ rw m tt
  ]
