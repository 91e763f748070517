-- ===== src/Sloburn/Tests.antt =====
-- Concrete runs of pkg/sloburn/sloburn.go.
use observe_x.Prelude.{
  ℕ, ◌-◌, ◌*◌, ◌/◌, true, false, some, List, [], ◌∷◌, ltb, leb, ◌≡◌, refl, arith,
}
use observe_x.Prelude.Dict.{lookup}
use observe_x.Sloburn.State.{
  sev_page, sev_ticket, sev_ok, WindowPair, Slo, SloState, Evaluator, Floats, ok, observe, register,
  longest, observe_state,
}
use observe_x.Sloburn.Evaluate.{Decision, total_in, rate_of, burn_rate_over, evaluate}
use observe_x.Sloburn.Counts.{Event, are_past, observe_all}
use observe_x.Sloburn.Rates.{started_in, observe_all-burn_rate}
use observe_x.Sloburn.Decisions.{Decides, evaluate-Decides}

-- Whole per cent, for float64.
abbrev percent : Floats ℕ
percent = record {
  nought = 0;
  one = 100;
  rest_of_one = λ x. 100 - x;
  ratio = λ a b. 100 * a / b;
  quotient = λ a b. a / b;
  at_most = leb;
  less = ltb;
}

abbrev hourly : WindowPair ℕ
hourly = record { long = 3600; short = 300; burn_rate = 14; severity = sev_page }

abbrev daily : WindowPair ℕ
daily = record { long = 86400; short = 7200; burn_rate = 3; severity = sev_ticket }

abbrev checkout : Slo ℕ
checkout = record { name = "checkout"; target = 99; window_pairs = daily ∷ hourly ∷ [] }

abbrev registered : SloState ℕ
registered = record { slo = checkout; max_keep = 86400; good_buckets = []; bad_buckets = [] }

abbrev two_events : List Event
two_events =
    record { slo_name = "checkout"; is_good = false; at = 100000 }
    ∷ record { slo_name = "checkout"; is_good = true; at = 100030 }
    ∷ []

abbrev after_two : Evaluator ℕ
after_two = ("checkout", observe_state (observe_state registered false 100000) true 100030) ∷ []

added : register percent [] checkout ≡ ok (("checkout", registered) ∷ [])
unfolding register longest
added = refl

ran : observe_all (("checkout", registered) ∷ []) two_events ≡ ok after_two
unfolding observe_all observe
ran = refl

-- One bad event of two uses half of the error budget's hundredfold.
rate_of_two :
    burn_rate_over percent
      (observe_state (observe_state registered false 100000) true 100030)
      300
      100060
      1
    ≡ 50
unfolding burn_rate_over observe_state total_in
rate_of_two = refl

observe_all-burn_rate_example :
    (s : SloState ℕ) × (lookup "checkout" after_two ≡ some s)
    × (s.slo ≡ checkout)
    × (burn_rate_over percent s 300 100060 1
        ≡ rate_of percent
            (started_in "checkout" true two_events 300 100060)
            (started_in "checkout" false two_events 300 100060)
            1)
unfolding are_past longest lookup
observe_all-burn_rate_example =
    observe_all-burn_rate percent [] (("checkout", registered) ∷ []) after_two checkout two_events
      300 100060 1 refl added refl (omega arith) (omega arith) ran

evaluate-Decides_example :
    (d : Decision ℕ) × (evaluate percent after_two "checkout" 100060 ≡ ok d)
    × Decides percent
        (observe_state (observe_state registered false 100000) true 100030)
        100060
        1
        (daily ∷ hourly ∷ [])
        sev_ok
        d
unfolding lookup observe_state
evaluate-Decides_example =
    evaluate-Decides percent after_two "checkout"
      (observe_state (observe_state registered false 100000) true 100030) 100060 refl
