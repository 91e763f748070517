-- ===== src/Sloburn/Rates.antt =====
-- The burn rates of pkg/sloburn/sloburn.go, from registration on.
use Prim.Native.String.{String}
use text.Mathlib.Text.{◌==◌ as str_eq}
use observe_x.Prelude.{
  ℕ, suc, ◌+◌, ◌*◌, ◌/◌, ◌&&◌, not, ltb, Bool, ◌∷◌, refl, if◌then◌else◌, ◌≤◌, true, false, none,
  some, List, [], Option-cases, inl, inr, ◌≡◌, ap, sym, arith,
}
use observe_x.Prelude.Dict.{lookup, lookup-insert_self}
use observe_x.Sloburn.State.{
  is_after, Slo, SloState, Evaluator, Floats, ok, longest, validate, register,
}
use observe_x.Sloburn.Evaluate.{in_window, total_in, rate_of, burn_rate_over}
use observe_x.Sloburn.Counts.{Event, counts, bucketed_in, are_past, observe_all, observe_all-counts}

-- How many of the events are of the SLO, of the kind, and in a minute that starts behind the beginning of the window.
unfoldable pub started_in : String → Bool → List Event → ℕ → ℕ → ℕ
started_in name kind [] window now = 0
started_in name kind (e ∷ es) window now =
    let rest = started_in name kind es window now in
    if str_eq e.slo_name name
      && ((if kind then e.is_good else not e.is_good) && ltb now (60 * (e.at / 60) + window))
    then suc rest
    else rest

in_window-started :
    (at window now : ℕ)
    → window ≤ now
    → at ≤ now
    → in_window (at / 60) window now ≡ ltb now (60 * (at / 60) + window)
unfolding in_window is_after
in_window-started at window now h h' = grind arith

bucketed-started :
    (name : String) (kind : Bool) (es : List Event) (window now : ℕ)
    → window ≤ now
    → are_past now es ≡ true
    → bucketed_in name kind es window now ≡ started_in name kind es window now
unfolding bucketed_in started_in are_past
bucketed-started name kind [] window now h past = refl
bucketed-started name kind (e ∷ es) window now h past =
    ground (arith, bucketed-started name kind es window now h, in_window-started e.at window now h)

module _ {F : Type 0} (floats : Floats F) where
  register-lookup :
      (evaluator next : Evaluator F) (slo : Slo F)
      → lookup slo.name evaluator ≡ none
      → register floats evaluator slo ≡ ok next
      → lookup slo.name next
        ≡ some (record {
          slo = slo;
          max_keep = longest slo.window_pairs 0;
          good_buckets = [];
          bad_buckets = [];
        })
  unfolding register
  register-lookup evaluator next slo absent run = elim (Option-cases (validate floats slo)) [
    | inl valid ↦ grind (arith, run, valid, absent, lookup-insert_self {A = SloState F} slo.name)
    | inr (reason, e) ↦ ground (arith, run, e)
  ]

  -- After the registration of a new SLO and any run of Observe on events up to now, the burn rate over a window no longer than the SLO's longest, and than the time since 1970, is the rate of those events of that SLO whose minute starts later than the beginning of the window. An event in the minute in which the window begins is left out; all others in the window count, each once.
  pub observe_all-burn_rate :
      (evaluator next final : Evaluator F) (slo : Slo F) (events : List Event) (window now : ℕ)
      (budget : F)
      → lookup slo.name evaluator ≡ none
      → register floats evaluator slo ≡ ok next
      → are_past now events ≡ true
      → window ≤ longest slo.window_pairs 0
      → window ≤ now
      → observe_all next events ≡ ok final
      → (s : SloState F) × (lookup slo.name final ≡ some s)
        × (s.slo ≡ slo)
        × (burn_rate_over floats s window now budget
            ≡ rate_of floats
                (started_in slo.name true events window now)
                (started_in slo.name false events window now)
                budget)
  unfolding burn_rate_over total_in
  observe_all-burn_rate evaluator next final slo events window now budget absent added past short
        since run =
      let found = register-lookup evaluator next slo absent added in
      let good =
        observe_all-counts next final events slo.name _ true window now past short found run in
      let bad =
        observe_all-counts next final events slo.name _ false window now past short found run in
      let same : bad.0 ≡ good.0 = cc (bad.1, good.1) in
      let kept : counts false good.0 window now ≡ counts false bad.0 window now =
        ap (λ s. counts false s window now) (sym same) in
      let bad_count : counts false good.0 window now ≡ started_in slo.name false events window now =
        omega (arith, kept, bad.3, bucketed-started slo.name false events window now since past) in
      let good_count : counts true good.0 window now ≡ started_in slo.name true events window now =
        omega (arith, good.3, bucketed-started slo.name true events window now since past) in
      (good.0, good.1, good.2, same_rate good_count bad_count)
    where
      same_rate :
          {g g' b b' : ℕ}
          → g ≡ g'
          → b ≡ b'
          → rate_of floats g b budget ≡ rate_of floats g' b' budget
      same_rate e e' = cc (e, e')
