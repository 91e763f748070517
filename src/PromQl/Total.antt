-- ===== src/PromQl/Total.antt =====
-- Translate of pkg/promql/promql.go as a whole.
use observe_x.Prelude.{ℕ, Bool, [], length, ◌≡◌, ◌≢◌}
use observe_x.Prelude.Text.{Text, text_eq}
use observe_x.Prelude.Marks.{marks}
use observe_x.PromQl.Run.{
  ok, out_of_fuel, Ensures, fails, Ensures->>=, Ensures-elim, Ensures-intro, Ensures-fueled,
  Ensures-value,
}
use observe_x.PromQl.Ast.{Floats}
use observe_x.PromQl.Sql.{QueryParams, Translation, with_defaults}
use observe_x.PromQl.Translate.{translate}
use observe_x.PromQl.Placeholders.{IsBoundIfPlain, lower-IsBound}
use observe_x.PromQl.Fuel.{tokenize-length}
use observe_x.PromQl.Descent.{parse-fueled}

module _ (compiles : Text → Bool) {F : Type 0} (floats : Floats F) where
  translate-IsBound :
      (now : ℕ) (p : QueryParams)
      → Ensures (IsBoundIfPlain compiles floats) (translate compiles floats now p)
  unfolding translate
  translate-IsBound now p =
      Ensures-elim (text_eq p.query []) (λ _. fails)
        (λ _. Ensures->>= (tokenize-length p.query) (λ toks _.
          Ensures->>= (Ensures-intro (parse-fueled floats toks) (λ ast e. e))
            (λ ast _. lower-IsBound compiles floats ast (with_defaults now p))))

  -- Translate ends on every query and parameters: with a translation or with an error, whatever ParseFloat, %g and regexp.Compile give.
  pub translate-fueled : (now : ℕ) (p : QueryParams) → translate compiles floats now p ≢ out_of_fuel
  translate-fueled now p = Ensures-fueled (translate-IsBound now p)

  -- If %g writes no number with a question mark, then the SQL of a translation has exactly one placeholder for each argument to be bound.
  pub translate-marks :
      ((x : F) → marks (floats.format_float x) ≡ 0)
      → (now : ℕ) (p : QueryParams) (t : Translation) → translate compiles floats now p ≡ ok t
      → marks t.sql ≡ length t.args
  translate-marks plain now p t e = Ensures-value (translate-IsBound now p) e plain
