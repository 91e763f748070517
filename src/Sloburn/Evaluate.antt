-- ===== src/Sloburn/Evaluate.antt =====
-- Evaluate and burnRate of pkg/sloburn/sloburn.go. A Decision leaves out SLO and EvaluatedAt, which repeat
-- the arguments.
use Prim.Native.String.{String}
use observe_x.Prelude.{
  ℕ, ◌+◌, ◌/◌, Bool, true, false, ◌&&◌, Option, none, some, List, [], ◌∷◌, ltb, leb, ◌==◌,
  if◌then◌else◌,
}
use observe_x.Prelude.Dict.{lookup}
use observe_x.Sloburn.State.{
  Severity, sev_page, sev_ticket, sev_ok, sev_named, WindowPair, Bucket, SloState, Evaluator,
  Floats, unknown_slo, Result, ok, err, is_after,
}

-- Whether the minute lies in the window that ends now.
unfoldable pub in_window : ℕ → ℕ → ℕ → Bool
unfolding is_after
in_window epoch window now = is_after epoch now window && leb epoch (now / 60)

-- A loop of burnRate, over the good counts or over the bad ones.
unfoldable pub total_in : (Bucket → ℕ) → List Bucket → ℕ → ℕ → ℕ
unfolding in_window
total_in field [] window now = 0
total_in field (b ∷ bs) window now =
    let rest = total_in field bs window now in
    if in_window b.epoch window now then field b + rest else rest

-- severityRank.
unfoldable pub severity_rank : Severity → ℕ
severity_rank sev_page = 2
severity_rank sev_ticket = 1
severity_rank sev_ok = 0
severity_rank (sev_named _) = 0

-- A pair that is not there is the zero value of WindowPair.
pub record Decision (F : Type 0) : Type 0 where
  pub severity : Severity
  pub burn_long : F
  pub burn_short : F
  pub pair : Option (WindowPair F)
  pub error_budget : F

module _ {F : Type 0} where
  -- sort.SliceStable by falling rank.
  unfoldable pub insert_pair : WindowPair F → List (WindowPair F) → List (WindowPair F)
  unfolding severity_rank
  insert_pair p [] = p ∷ []
  insert_pair p (q ∷ qs) =
      let later = insert_pair p qs in
      if ltb (severity_rank p.severity) (severity_rank q.severity) then q ∷ later else p ∷ (q ∷ qs)

  unfoldable pub sort_pairs : List (WindowPair F) → List (WindowPair F)
  unfolding insert_pair
  sort_pairs [] = []
  sort_pairs (p ∷ ps) = insert_pair p (sort_pairs ps)

  module _ (floats : Floats F) where
    -- The quotient of burnRate, from its counts.
    unfoldable pub rate_of : ℕ → ℕ → F → F
    rate_of good bad budget =
        if floats.at_most budget floats.nought
        then floats.nought
        else if good + bad == 0
        then floats.nought
        else floats.quotient (floats.ratio bad (good + bad)) budget

    -- burnRate.
    unfoldable pub burn_rate_over : SloState F → ℕ → ℕ → F → F
    unfolding rate_of total_in
    burn_rate_over s window now budget =
        rate_of (total_in (λ b. b.good) s.good_buckets window now)
          (total_in (λ b. b.bad) s.bad_buckets window now) budget

    -- Whether both windows of a pair burn at its rate.
    unfoldable pub trips : SloState F → ℕ → F → WindowPair F → Bool
    unfolding burn_rate_over
    trips s now budget p =
        floats.at_most p.burn_rate (burn_rate_over s p.long now budget)
        && floats.at_most p.burn_rate (burn_rate_over s p.short now budget)

    -- The loop of Evaluate.
    unfoldable pub walk_pairs : SloState F → ℕ → F → List (WindowPair F) → Decision F → Decision F
    walk_pairs s now budget [] d = d
    walk_pairs s now budget (p ∷ ps) d =
        let seen = record d {
          burn_long = burn_rate_over s p.long now budget;
          burn_short = burn_rate_over s p.short now budget;
          pair = some p;
        } in
        elim (trips s now budget p) [
          | true ↦ record seen { severity = p.severity }
          | false ↦ elim (floats.less d.burn_long seen.burn_long) [
            | true ↦ walk_pairs s now budget ps seen
            | false ↦ walk_pairs s now budget ps d
          ]
        ]

    -- The decision before the loop.
    abbrev pub initial : F → Decision F
    initial budget = record {
      severity = sev_ok;
      burn_long = floats.nought;
      burn_short = floats.nought;
      pair = none;
      error_budget = budget;
    }

    -- Evaluate.
    unfoldable pub evaluate : Evaluator F → String → ℕ → Result (Decision F)
    evaluate e name now = elim (lookup name e) [
      | none ↦ err unknown_slo
      | some s ↦
          let budget = floats.rest_of_one s.slo.target in
          ok (walk_pairs s now budget (sort_pairs s.slo.window_pairs) (initial budget))
    ]
