-- ===== src/Supervisor/Backoff.antt =====
-- trimBefore and nextBackoff of pkg/supervisor/supervisor.go.
use observe_x.Prelude.{
  ℕ, ◌+◌, ◌-◌, ◌*◌, ◌≤◌, ◌≡◌, refl, List, [], ◌∷◌, ◌++◌, arith, length, ltb, if◌then◌else◌,
  Bool-cases, inl, inr,
}
use observe_x.Supervisor.{trim_before, next_backoff}

-- Times that do not fall along the list, from `lo` on up to `hi`.
abbrev pub Timeline : ℕ → ℕ → List ℕ → Type 0
Timeline lo hi [] = lo ≤ hi
Timeline lo hi (t ∷ ts) = (lo ≤ t) × Timeline t hi ts

-- The times of a window, one by one.
pub not_before : List ℕ → ℕ → List ℕ
not_before [] cutoff = []
not_before (t ∷ ts) cutoff =
    let rest = not_before ts cutoff in if ltb t cutoff then rest else t ∷ rest

not_before_all :
    (lo hi : ℕ) (ts : List ℕ) (cutoff : ℕ)
    → Timeline lo hi ts
    → cutoff ≤ lo
    → not_before ts cutoff ≡ ts
unfolding not_before
not_before_all lo hi [] cutoff h c = refl
not_before_all lo hi (t ∷ ts) cutoff h c = ground (arith, not_before_all t hi ts cutoff h.1)

-- On a history in the order of time, trimBefore keeps exactly the times that are not before the cutoff.
pub trim_before-eq-not_before :
    (lo hi : ℕ) (ts : List ℕ) (cutoff : ℕ)
    → Timeline lo hi ts
    → trim_before ts cutoff ≡ not_before ts cutoff
unfolding trim_before not_before
trim_before-eq-not_before lo hi [] cutoff h = refl
trim_before-eq-not_before lo hi (t ∷ ts) cutoff h =
    ground (arith, trim_before-eq-not_before t hi ts cutoff h.1, not_before_all t hi ts cutoff h.1)

pub length-trim_before : (ts : List ℕ) (cutoff : ℕ) → length (trim_before ts cutoff) ≤ length ts
unfolding trim_before
length-trim_before [] cutoff = omega arith
length-trim_before (t ∷ ts) cutoff = ground (arith, length-trim_before ts cutoff)

Timeline-lower : (lo lo' hi : ℕ) (ts : List ℕ) → lo ≤ lo' → Timeline lo' hi ts → Timeline lo hi ts
Timeline-lower lo lo' hi [] l h = omega arith
Timeline-lower lo lo' hi (t ∷ ts) l h = (omega arith, h.1)

pub trim_before-Timeline :
    (lo hi : ℕ) (ts : List ℕ) (cutoff : ℕ)
    → Timeline lo hi ts
    → Timeline lo hi (trim_before ts cutoff)
unfolding trim_before
trim_before-Timeline lo hi [] cutoff h = h
trim_before-Timeline lo hi (t ∷ ts) cutoff h = elim (Bool-cases (ltb t cutoff)) [
  | inl old ↦
      rw (old, trim_before)
        (Timeline-lower lo t hi (trim_before ts cutoff) h.0
          (trim_before-Timeline t hi ts cutoff h.1))
  | inr new ↦ rw (new, trim_before) h
]

pub Timeline-append :
    (lo hi now : ℕ) (ts : List ℕ) → Timeline lo hi ts → hi ≤ now → Timeline lo now (ts ++ now ∷ [])
Timeline-append lo hi now [] h l = (omega arith, omega arith)
Timeline-append lo hi now (t ∷ ts) h l = (h.0, Timeline-append t hi now ts h.1 l)

pub Timeline-raise :
    (lo hi now : ℕ) (ts : List ℕ) → Timeline lo hi ts → hi ≤ now → Timeline lo now ts
Timeline-raise lo hi now [] h l = omega arith
Timeline-raise lo hi now (t ∷ ts) h l = (h.0, Timeline-raise t hi now ts h.1 l)

pub Timeline-le : (lo hi : ℕ) (ts : List ℕ) → Timeline lo hi ts → lo ≤ hi
Timeline-le lo hi [] h = h
Timeline-le lo hi (t ∷ ts) h = omega (arith, h.0, Timeline-le t hi ts h.1)

-- Nothing is trimmed from a history that lies in the window.
pub trim_before-recent :
    (window lo hi now : ℕ) (ts : List ℕ)
    → Timeline lo hi ts
    → now ≤ lo + window
    → trim_before ts (now - window) ≡ ts
unfolding trim_before
trim_before-recent window lo hi now [] h w = refl
trim_before-recent window lo hi now (t ∷ ts) h w = ground arith

-- If the jitter takes at most a fifth off, the next delay is neither below the current one nor above
-- the maximum.
pub next_backoff_bounds :
    (jittered : ℕ → ℕ) (curr max' : ℕ)
    → ((n : ℕ) → n * 8 ≤ jittered n * 10)
    → curr ≤ max'
    → (curr ≤ next_backoff jittered curr max') × (next_backoff jittered curr max' ≤ max')
unfolding next_backoff
next_backoff_bounds jittered curr max' j h = ground (arith, j (curr * 2))
