-- ===== src/PromQl/Follows.antt =====
-- Two runs of which the second gives a value where the first does.
use mathlib.Core.Path.{subst}
use observe_x.Prelude.{Bool, true, false, Option, none, some, ◌≡◌, refl}
use observe_x.PromQl.Run.{Error, Result, ok, err, out_of_fuel, ◌>>=◌}

-- If the first run gives a value then so does the second, and the values are related.
pub data Follows {ℓ κ ℓ'} {A : Type ℓ} {B : Type κ} (E : A → B → Type ℓ')
    : Result A → Result B → Type (ℓ ⊔ κ ⊔ ℓ') where
  both : {a : A} {b : B} → E a b → Follows E (ok a) (ok b)
  failed : {e : Error} {second : Result B} → Follows E (err e) second
  starved : {second : Result B} → Follows E out_of_fuel second

pub Follows->>= {ℓ κ ℓ' ι ι' ι''} :
    {A : Type ℓ} {B : Type κ} {E : A → B → Type ℓ'} {A' : Type ι} {B' : Type ι'}
    {E' : A' → B' → Type ι''} {first : Result A} {second : Result B} {next : A → Result A'}
    {next' : B → Result B'}
    → Follows E first second
    → ((a : A) (b : B) → E a b → Follows E' (next a) (next' b))
    → Follows E' (first >>= next) (second >>= next')
Follows->>= (both {a} {b} e) k = k a b e
Follows->>= failed k = failed
Follows->>= starved k = starved

pub Follows-refl {ℓ} : {A : Type ℓ} (r : Result A) → Follows (◌≡◌ {A = A}) r r
Follows-refl (ok a) = both refl
Follows-refl (err e) = failed
Follows-refl out_of_fuel = starved

pub Follows-value {ℓ κ ℓ'} :
    {A : Type ℓ} {B : Type κ} {E : A → B → Type ℓ'} {first : Result A} {second : Result B} (a : A)
    → Follows E first second
    → first ≡ ok a
    → (b : B) × (second ≡ ok b) × E a b
Follows-value {E = E} a (both {a = a'} {b} same) e = (b, refl, subst (λ x. E x b) (cc e) same)
Follows-value a failed e = cc
Follows-value a starved e = cc

pub Follows-elim {ℓ κ ℓ'} :
    {A : Type ℓ} {B : Type κ} {E : A → B → Type ℓ'} {yes no : Result A} {yes' no' : Result B}
    (test : Bool)
    → Follows E yes yes'
    → Follows E no no'
    → Follows E (elim test [ true ↦ yes | false ↦ no ]) (elim test [ true ↦ yes' | false ↦ no' ])
Follows-elim true y n = y
Follows-elim false y n = n

pub Follows-option {ℓ κ ℓ' ι} :
    {A : Type ℓ} {B : Type κ} {C : Type ι} {E : A → B → Type ℓ'} {absent : Result A}
    {absent' : Result B} {present : C → Result A} {present' : C → Result B} (o o' : Option C)
    → o ≡ o'
    → Follows E absent absent'
    → ((x : C) → Follows E (present x) (present' x))
    → Follows E
        (elim o [ none ↦ absent | some x ↦ present x ])
        (elim o' [ none ↦ absent' | some x ↦ present' x ])
Follows-option {C = C} {E = E} {absent} {absent'} {present} {present'} o o' e n y =
    subst
      (λ q.
        Follows E (elim o [ none ↦ absent | some x ↦ present x ])
          (elim q [ none ↦ absent' | some x ↦ present' x ]))
      e (same o n y)
  where
    same :
        (q : Option C)
        → Follows E absent absent'
        → ((x : C) → Follows E (present x) (present' x))
        → Follows E
            (elim q [ none ↦ absent | some x ↦ present x ])
            (elim q [ none ↦ absent' | some x ↦ present' x ])
    same none n y = n
    same (some x) n y = y x
