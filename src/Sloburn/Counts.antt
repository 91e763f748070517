-- ===== src/Sloburn/Counts.antt =====
-- What the buckets of pkg/sloburn/sloburn.go count over a run of Observe.
use Prim.Native.String.{String}
use text.Mathlib.Text.{◌==◌ as str_eq}
use observe_x.Prelude.{
  ℕ, suc, ◌+◌, ◌/◌, ◌≤◌, Bool, true, false, not, ◌&&◌, some, List, [], ◌∷◌, leb, Option-cases, inl,
  inr, ◌⊎◌, if◌then◌else◌, ◌≡◌, ◌∙◌, refl, arith,
}
use text.Mathlib.TextEquality.{eq_iff}
use observe_x.Prelude.Dict.{lookup, lookup-insert}
use observe_x.Sloburn.State.{
  Bucket, SloState, Evaluator, Error, Result, ok, err, is_after, add_to_bucket, trim_older,
  observe_state, observe,
}
use observe_x.Sloburn.Evaluate.{in_window, total_in}

add_to_bucket-total :
    (field : Bucket → ℕ) (bs : List Bucket) (epoch g b window now : ℕ)
    → (amount : ℕ)
    → ((e x y : ℕ)
        → field (record { epoch = e; good = x + g; bad = y + b })
          ≡ field (record { epoch = e; good = x; bad = y }) + amount)
    → field (record { epoch = epoch; good = g; bad = b }) ≡ amount
    → total_in field (add_to_bucket bs epoch g b) window now
      ≡ total_in field bs window now + (if in_window epoch window now then amount else 0)
unfolding add_to_bucket total_in
add_to_bucket-total field [] epoch g b window now amount grow start = grind (arith, start)
add_to_bucket-total field (x ∷ xs) epoch g b window now amount grow start = grind (
  arith,
  grow x.epoch x.good x.bad,
  add_to_bucket-total field xs epoch g b window now amount grow start,
)

-- A minute in the window is kept, if the window ends no earlier than the observation and is no longer than what is kept.
in_window-is_after :
    (epoch window keep at now : ℕ)
    → at ≤ now
    → window ≤ keep
    → in_window epoch window now ≡ true
    → is_after epoch at (keep + 60) ≡ true
unfolding in_window is_after
in_window-is_after epoch window keep at now h h' e = grind arith

trim_older-total :
    (field : Bucket → ℕ) (bs : List Bucket) (window keep at now : ℕ)
    → at ≤ now
    → window ≤ keep
    → total_in field (trim_older bs at (keep + 60)) window now ≡ total_in field bs window now
unfolding trim_older total_in
trim_older-total field [] window keep at now h h' = refl
trim_older-total field (x ∷ xs) window keep at now h h' = grind (
  arith,
  trim_older-total field xs window keep at now h h',
  in_window-is_after x.epoch window keep at now h h',
)

-- One event given to Observe.
pub record Event : Type 0 where
  pub slo_name : String
  pub is_good : Bool
  pub at : ℕ

-- How many of the events are of the SLO, of the kind, and in a minute that burnRate counts.
unfoldable pub bucketed_in : String → Bool → List Event → ℕ → ℕ → ℕ
unfolding in_window
bucketed_in name kind [] window now = 0
bucketed_in name kind (e ∷ es) window now =
    let rest = bucketed_in name kind es window now in
    if str_eq e.slo_name name
      && ((if kind then e.is_good else not e.is_good) && in_window (e.at / 60) window now)
    then suc rest
    else rest

-- No event is later than now.
unfoldable pub are_past : ℕ → List Event → Bool
are_past now [] = true
are_past now (e ∷ es) = leb e.at now && are_past now es

-- Observe, on one event after another.
unfoldable pub observe_all : {F : Type 0} → Evaluator F → List Event → Result (Evaluator F)
observe_all evaluator [] = ok evaluator
observe_all evaluator (e ∷ es) = elim (observe evaluator e.slo_name e.is_good e.at) [
  | ok next ↦ observe_all next es
  | err reason ↦ err reason
]

abbrev pub counts : {F : Type 0} → Bool → SloState F → ℕ → ℕ → ℕ
counts kind s window now =
    if kind
    then total_in (λ b. b.good) s.good_buckets window now
    else total_in (λ b. b.bad) s.bad_buckets window now

Result-cases {ℓ} :
    {A : Type ℓ} (r : Result A) → ((a : A) × (r ≡ ok a)) ⊎ ((reason : Error) × (r ≡ err reason))
Result-cases (ok a) = inl (a, refl)
Result-cases (err reason) = inr (reason, refl)

module _ {F : Type 0} where
  observe_state-counts :
      (s : SloState F) (is_good kind : Bool) (at window now : ℕ)
      → at ≤ now
      → window ≤ s.max_keep
      → counts kind (observe_state s is_good at) window now
        ≡ counts kind s window now
          + (if (if kind then is_good else not is_good) && in_window (at / 60) window now
              then 1
              else 0)
  unfolding observe_state
  observe_state-counts s true true at window now h h' =
      trim_older-total (λ b. b.good) (add_to_bucket s.good_buckets (at / 60) 1 0) window s.max_keep
        at now h h'
      ∙ add_to_bucket-total (λ b. b.good) s.good_buckets (at / 60) 1 0 window now 1 (λ e x y. refl)
          refl
  observe_state-counts s true false at window now h h' =
      omega (arith, trim_older-total (λ b. b.bad) s.bad_buckets window s.max_keep at now h h')
  observe_state-counts s false true at window now h h' =
      omega (arith, trim_older-total (λ b. b.good) s.good_buckets window s.max_keep at now h h')
  observe_state-counts s false false at window now h h' =
      trim_older-total (λ b. b.bad) (add_to_bucket s.bad_buckets (at / 60) 0 1) window s.max_keep at
        now h h'
      ∙ add_to_bucket-total (λ b. b.bad) s.bad_buckets (at / 60) 0 1 window now 1 (λ e x y. refl)
          refl

  -- What Observe does to the state of the SLO `name`.
  step : String → Event → SloState F → SloState F
  step name e s = if str_eq e.slo_name name then observe_state s e.is_good e.at else s

  observe-lookup :
      (evaluator next : Evaluator F) (e : Event) (name : String) (s : SloState F)
      → lookup name evaluator ≡ some s
      → observe evaluator e.slo_name e.is_good e.at ≡ ok next
      → lookup name next ≡ some (step name e s)
  unfolding observe step
  observe-lookup evaluator next e name s found run =
      elim (Option-cases (lookup e.slo_name evaluator)) [
        | inl absent ↦ ground (arith, absent, run)
        | inr (s', e') ↦ grind (
          arith,
          run,
          e',
          found,
          lookup-insert e.slo_name name (observe_state s' e.is_good e.at) evaluator,
          eq_iff e.slo_name name,
        )
      ]

  step-kept :
      (name : String) (e : Event) (s : SloState F)
      → ((step name e s).slo ≡ s.slo) × ((step name e s).max_keep ≡ s.max_keep)
  unfolding step observe_state
  step-kept name e s = ground arith

  step-counts :
      (name : String) (e : Event) (s : SloState F) (kind : Bool) (window now : ℕ)
      → e.at ≤ now
      → window ≤ s.max_keep
      → counts kind (step name e s) window now
        ≡ counts kind s window now
          + (if str_eq e.slo_name name
                && ((if kind then e.is_good else not e.is_good) && in_window (e.at / 60) window now)
              then 1
              else 0)
  unfolding step
  step-counts name e s kind window now h h' =
      ground (arith, observe_state-counts s e.is_good kind e.at window now h h')

  -- The events up to now leave the SLO defined as it was, and add to its counts in a window what they are, if the window is no longer than what the SLO keeps.
  pub observe_all-counts :
      (evaluator final : Evaluator F) (events : List Event) (name : String) (s : SloState F)
      (kind : Bool) (window now : ℕ)
      → are_past now events ≡ true
      → window ≤ s.max_keep
      → lookup name evaluator ≡ some s
      → observe_all evaluator events ≡ ok final
      → (s' : SloState F) × (lookup name final ≡ some s')
        × (s'.slo ≡ s.slo)
        × (counts kind s' window now
            ≡ counts kind s window now + bucketed_in name kind events window now)
  unfolding observe_all bucketed_in are_past
  observe_all-counts evaluator final [] name s kind window now past short found run =
      (s, ground (arith, run, found), refl, omega arith)
  observe_all-counts evaluator final (e ∷ es) name s kind window now past short found run =
      elim (Result-cases (observe evaluator e.slo_name e.is_good e.at)) [
        | inl (next, f) ↦
            let ending =
              observe_all-counts next final es name (step name e s) kind window now
                (ground (arith, past)) (omega (arith, short, (step-kept name e s).1))
                (observe-lookup evaluator next e name s found f) (ground (arith, run, f)) in
            (
              ending.0,
              ending.1,
              ending.2 ∙ (step-kept name e s).0,
              grind (
                arith,
                ending.3,
                step-counts name e s kind window now (ground (arith, past)) short,
              ),
            )
        | inr (reason, f) ↦ ground (arith, run, f)
      ]
