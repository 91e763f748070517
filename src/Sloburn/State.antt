-- ===== src/Sloburn/State.antt =====
-- The evaluator of pkg/sloburn/sloburn.go: its SLOs and their counters. Times and windows are whole seconds,
-- times not before 1970 and windows not negative; `F` is the type float64.
use Prim.Native.String.{String}
use text.Mathlib.Text.{◌==◌ as str_eq}
use observe_x.Prelude.{
  ℕ, ◌+◌, ◌-◌, ◌/◌, Bool, true, ◌||◌, Option, none, some, List, [], ◌∷◌, ltb, leb, ◌==◌,
  if◌then◌else◌,
}
use observe_x.Prelude.Dict.{lookup, insert}

-- The type Severity is a string.
pub data Severity : Type 0 where
  sev_page sev_ticket sev_ok : Severity
  sev_named : String → Severity

pub record WindowPair (F : Type 0) : Type 0 where
  pub long : ℕ
  pub short : ℕ
  pub burn_rate : F
  pub severity : Severity

pub record Slo (F : Type 0) : Type 0 where
  pub name : String
  pub target : F
  pub window_pairs : List (WindowPair F)

pub record Bucket : Type 0 where
  pub epoch : ℕ
  pub good : ℕ
  pub bad : ℕ

pub record SloState (F : Type 0) : Type 0 where
  pub slo : Slo F
  pub max_keep : ℕ
  pub good_buckets : List Bucket
  pub bad_buckets : List Bucket

-- The map of the evaluator.
abbrev pub Evaluator : Type 0 → Type 0
Evaluator F = List (String × SloState F)

-- The float64 operations: 0, 1 - x, the quotient of two counts, x / y and x <= y.
pub record Floats (F : Type 0) : Type 0 where
  pub nought : F
  pub one : F
  pub rest_of_one : F → F
  pub ratio : ℕ → ℕ → F
  pub quotient : F → F → F
  pub at_most : F → F → Bool
  pub less : F → F → Bool

pub data Error : Type 0 where
  name_required bad_target pairs_required unknown_slo : Error

pub data Result {ℓ} (A : Type ℓ) : Type ℓ where
  ok : A → Result A
  err : Error → Result A

-- Whether the minute is after the one of the time `at - back`, whose number Go's division rounds towards zero.
unfoldable pub is_after : ℕ → ℕ → ℕ → Bool
is_after epoch at back =
    if leb back at
    then ltb ((at - back) / 60) epoch
    else ((if (back - at) / 60 == 0 then ltb 0 epoch else true))

-- addToBucket.
unfoldable pub add_to_bucket : List Bucket → ℕ → ℕ → ℕ → List Bucket
add_to_bucket [] epoch g b = record { epoch = epoch; good = g; bad = b } ∷ []
add_to_bucket (x ∷ xs) epoch g b =
    let later = add_to_bucket xs epoch g b in
    if x.epoch == epoch then record x { good = x.good + g; bad = x.bad + b } ∷ xs else x ∷ later

-- trimOlder, with the cutoff of `at - back`.
unfoldable pub trim_older : List Bucket → ℕ → ℕ → List Bucket
unfolding is_after
trim_older [] at back = []
trim_older (x ∷ xs) at back =
    let later = trim_older xs at back in if is_after x.epoch at back then x ∷ later else later

module _ {F : Type 0} where
  -- The longest window of the pairs.
  unfoldable pub longest : List (WindowPair F) → ℕ → ℕ
  longest [] keep = keep
  longest (p ∷ ps) keep = if ltb keep p.long then longest ps p.long else longest ps keep

  -- Observe, on the state of the SLO.
  unfoldable pub observe_state : SloState F → Bool → ℕ → SloState F
  unfolding add_to_bucket trim_older
  observe_state s is_good at =
      let back = s.max_keep + 60 in
      let good' = if is_good then add_to_bucket s.good_buckets (at / 60) 1 0 else s.good_buckets in
      let bad' = if is_good then s.bad_buckets else add_to_bucket s.bad_buckets (at / 60) 0 1 in
      record s { good_buckets = trim_older good' at back; bad_buckets = trim_older bad' at back }

  -- Observe.
  unfoldable pub observe : Evaluator F → String → Bool → ℕ → Result (Evaluator F)
  unfolding lookup insert observe_state
  observe e name is_good at = elim (lookup name e) [
    | none ↦ err unknown_slo
    | some s ↦ ok (insert name (observe_state s is_good at) e)
  ]

  module _ (floats : Floats F) where
    -- validate.
    unfoldable pub validate : Slo F → Option Error
    validate slo =
        if str_eq slo.name ""
        then some name_required
        else if floats.at_most slo.target floats.nought || floats.at_most floats.one slo.target
        then some bad_target
        else elim slo.window_pairs [ [] ↦ some pairs_required | _ ∷ _ ↦ none ]

    -- Register.
    unfoldable pub register : Evaluator F → Slo F → Result (Evaluator F)
    unfolding validate longest lookup insert
    register e slo = elim (validate slo) [
      | some reason ↦ err reason
      | none ↦ ok (
          insert slo.name
            (elim (lookup slo.name e) [
              | some s ↦ record s { slo = slo; max_keep = longest slo.window_pairs 0 }
              | none ↦ record {
                slo = slo;
                max_keep = longest slo.window_pairs 0;
                good_buckets = [];
                bad_buckets = [];
              }
            ])
            e)
    ]
