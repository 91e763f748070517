-- ===== src/PromQl/Run.antt =====
-- The outcome of a run of pkg/promql or pkg/logql, and what holds of it.
use mathlib.Core.Path.{subst}
use observe_x.Prelude.{ℕ, ◌<◌, arith, ◌≡◌, ◌≢◌, refl, Bool, true, false, Option, none, some}

pub data Error : Type 0 where
  empty_query bad_token bad_syntax bad_number bad_duration bad_arguments bad_regex unsupported :
      Error

-- `out_of_fuel` has no counterpart in the program.
pub data Result {ℓ} (A : Type ℓ) : Type ℓ where
  ok : A → Result A
  err : Error → Result A
  out_of_fuel : Result A

infixl 5 ◌>>=◌
abbrev pub ◌>>=◌ {ℓ κ} : {A : Type ℓ} {B : Type κ} → Result A → (A → Result B) → Result B
ok a >>= f = f a
err e >>= f = err e
out_of_fuel >>= f = out_of_fuel

-- The run has kept within its fuel, and its value, if it has one, satisfies the predicate.
pub data Ensures {ℓ κ} {A : Type ℓ} (P : A → Type κ) : Result A → Type (ℓ ⊔ κ) where
  returns : {value : A} → P value → Ensures P (ok value)
  fails : {error : Error} → Ensures P (err error)

-- One run after another.
pub Ensures->>= {ℓ κ ℓ' κ'} :
    {A : Type ℓ} {B : Type ℓ'} {P : A → Type κ} {Q : B → Type κ'} {first : Result A}
    {next : A → Result B}
    → Ensures P first
    → ((value : A) → P value → Ensures Q (next value))
    → Ensures Q (first >>= next)
Ensures->>= (returns {value} p) k = k value p
Ensures->>= fails k = fails

pub Ensures-weaken {ℓ κ κ'} :
    {A : Type ℓ} {P : A → Type κ} {Q : A → Type κ'} {run : Result A}
    → ((value : A) → P value → Q value)
    → Ensures P run
    → Ensures Q run
Ensures-weaken k (returns {value} p) = returns (k value p)
Ensures-weaken k fails = fails

-- A run that branches on a test, and on an option.
pub Ensures-elim {ℓ κ} :
    {A : Type ℓ} {P : A → Type κ} {yes no : Result A} (test : Bool)
    → (test ≡ true → Ensures P yes)
    → (test ≡ false → Ensures P no)
    → Ensures P (elim test [ true ↦ yes | false ↦ no ])
Ensures-elim true y n = y refl
Ensures-elim false y n = n refl

pub Ensures-option {ℓ κ ℓ'} :
    {A : Type ℓ} {B : Type ℓ'} {P : A → Type κ} {absent : Result A} {present : B → Result A}
    (o : Option B)
    → (o ≡ none → Ensures P absent)
    → ((x : B) → o ≡ some x → Ensures P (present x))
    → Ensures P (elim o [ none ↦ absent | some x ↦ present x ])
Ensures-option none n y = n refl
Ensures-option (some x) n y = y x refl

pub Ensures-fueled {ℓ κ} :
    {A : Type ℓ} {P : A → Type κ} {run : Result A} → Ensures P run → run ≢ out_of_fuel
Ensures-fueled (returns p) = cc
Ensures-fueled fails = cc

pub Ensures-value {ℓ κ} :
    {A : Type ℓ} {P : A → Type κ} {run : Result A} {value : A}
    → Ensures P run
    → run ≡ ok value
    → P value
Ensures-value {P = P} (returns p) e = subst P (cc) p
Ensures-value fails e = cc

pub Ensures-intro {ℓ κ} :
    {A : Type ℓ} {P : A → Type κ} {run : Result A}
    → run ≢ out_of_fuel
    → ((value : A) → run ≡ ok value → P value)
    → Ensures P run
Ensures-intro {run = ok value} fueled k = returns (k value refl)
Ensures-intro {run = err error} fueled k = fails
Ensures-intro {run = out_of_fuel} fueled k = elim (fueled refl) [ ]

-- A bound that no run without fuel meets.
pub Ensures-starved {ℓ κ} :
    {A : Type ℓ} {P : A → Type κ} {run : Result A} {n : ℕ} → n < 0 → Ensures P run
Ensures-starved h = let never : true ≢ true = omega (arith, h) in elim (never refl) [ ]
