-- ===== src/Cep/Window.antt =====
-- What the sliding window of pkg/cep/cep.go counts.
use native.Mathlib.Nat.{div-add-mod, mod-lt, mul-suc, mul-le-mul_left}
use observe_x.Prelude.{
  ℕ, zero, suc, ◌+◌, ◌/◌, ◌%◌, ◌≤◌, ◌<◌, ◌≡◌, refl, ap, ◌∙◌, List, [], ◌∷◌, length,
  length-replicate, ltb, ◌==◌, if◌then◌else◌, replicate, arith, Bool-cases, inl, inr, ◌⊎◌,
}
use observe_x.Cep.{
  Bucket, SlidingWindow, new_sliding_window, count_in, update_at, add, sum_buckets, sum,
}

-- A bucket with a count lies at the index of its epoch, and no epoch is ahead of the current one.
abbrev pub Aligned : ℕ → ℕ → ℕ → List Bucket → Type 0
Aligned span current i [] = Unit {0}
Aligned span current i (b ∷ bs) =
    ((b.count ≡ 0) ⊎ (b.epoch % span ≡ i)) × (b.epoch ≤ current) × Aligned span current (suc i) bs

-- Two epochs at the same index, of which the earlier one is not the later one, are a round apart.
lt_or_le : (a b : ℕ) → (a < b) ⊎ (b ≤ a)
lt_or_le a b = elim (Bool-cases (ltb a b)) [
  | inl l ↦ inl (ground arith)
  | inr g ↦ inr (ground arith)
]

round_apart :
    (span e current : ℕ) → 0 < span → e % span ≡ current % span → e < current → e + span ≤ current
round_apart span e current p h l =
    let low = div-add-mod e span in
    let high = div-add-mod current span in
    elim (lt_or_le (e / span) (current / span)) [
      | inl less ↦ omega (arith, low, high, h, mul-suc span (e / span), mul-le-mul_left span less)
      | inr more ↦ absurd (omega (arith, low, high, h, l, mul-le-mul_left span more))
    ]

div_monotone : (size a b : ℕ) → 0 < size → a ≤ b → a / size ≤ b / size
div_monotone size a b p l = elim (lt_or_le (b / size) (a / size)) [
  | inr done ↦ done
  | inl less ↦ absurd (
      omega (
        arith,
        l,
        div-add-mod a size,
        div-add-mod b size,
        mod-lt b p,
        mul-suc size (b / size),
        mul-le-mul_left size less,
      ))
]

update-sum :
    (span later current i k n : ℕ) (bs : List Bucket)
    → 0 < span
    → current ≤ later
    → k < length bs
    → current % span ≡ i + k
    → Aligned span current i bs
    → sum_buckets span later (update_at k (count_in current n) bs)
      ≡ sum_buckets span later bs + (if ltb later (current + span) then n else 0)
unfolding sum_buckets update_at count_in
update-sum span later current i k n [] p m l e a = absurd (omega arith)
update-sum span later current i zero n (b ∷ bs) p m l e a = elim (Bool-cases (b.epoch == current)) [
  | inl same ↦ ground (arith, p)
  | inr other ↦ elim a.0 [
    | inl zero_count ↦ ground (arith, p, zero_count)
    | inr placed ↦
        let far =
          round_apart span b.epoch current p (omega (arith, placed, e)) (ground (arith, a.1)) in
        ground (arith, p, far)
  ]
]
update-sum span later current i (suc k) n (b ∷ bs) p m l e a =
    ground
      (arith, update-sum span later current (suc i) k n bs p m (omega arith) (omega (arith, e)) a.2)

length-update_at :
    (k : ℕ) (f : Bucket → Bucket) (bs : List Bucket) → length (update_at k f bs) ≡ length bs
unfolding update_at
length-update_at k f [] = refl
length-update_at zero f (b ∷ bs) = refl
length-update_at (suc k) f (b ∷ bs) = ap suc (length-update_at k f bs)

update-Aligned :
    (span current i k n : ℕ) (bs : List Bucket)
    → current % span ≡ i + k
    → Aligned span current i bs
    → Aligned span current i (update_at k (count_in current n) bs)
unfolding update_at count_in
update-Aligned span current i k n [] e a = tt
update-Aligned span current i zero n (b ∷ bs) e a = elim (Bool-cases (b.epoch == current)) [
  | inl same ↦ rw (same, count_in) (inr (ground (arith, e)), ground arith, a.2)
  | inr other ↦ rw (other, count_in) (inr (omega (arith, e)), omega arith, a.2)
]
update-Aligned span current i (suc k) n (b ∷ bs) e a =
    (a.0, a.1, update-Aligned span current (suc i) k n bs (omega (arith, e)) a.2)

later-Aligned :
    (span current later i : ℕ) (bs : List Bucket)
    → current ≤ later
    → Aligned span current i bs
    → Aligned span later i bs
later-Aligned span current later i [] l a = tt
later-Aligned span current later i (b ∷ bs) l a =
    (a.0, omega (arith, a.1), later-Aligned span current later (suc i) bs l a.2)

fresh-Aligned :
    (span current i n : ℕ) → Aligned span current i (replicate n (record { epoch = 0; count = 0 }))
fresh-Aligned span current i zero = tt
fresh-Aligned span current i (suc n) = (inl refl, omega arith, fresh-Aligned span current (suc i) n)

fresh-sum :
    (span current n : ℕ)
    → sum_buckets span current (replicate n (record { epoch = 0; count = 0 })) ≡ 0
unfolding sum_buckets
fresh-sum span current zero = refl
fresh-sum span current (suc n) = ground (arith, fresh-sum span current n)

-- Calls of add, the last one first, with their times; none is later than `now`.
abbrev pub InOrder : ℕ → List (ℕ × ℕ) → Type 0
InOrder now [] = Unit {0}
InOrder now ((t, n) ∷ calls) = (t ≤ now) × InOrder t calls

unfoldable pub add_all : List (ℕ × ℕ) → SlidingWindow → SlidingWindow
add_all [] w = w
add_all ((t, n) ∷ calls) w = add t n (add_all calls w)

-- What was added in the last `span` epochs.
pub added : ℕ → ℕ → ℕ → List (ℕ × ℕ) → ℕ
added size span now [] = 0
added size span now ((t, n) ∷ calls) =
    added size span now calls + (if ltb (now / size) (t / size + span) then n else 0)

record IsWindow (w : SlidingWindow) (size span now : ℕ) (calls : List (ℕ × ℕ)) : Type 0 where
  size_eq : w.bucket_size ≡ size
  span_eq : length w.buckets ≡ span
  aligned : Aligned span (now / size) 0 w.buckets
  sums : (later : ℕ) → now ≤ later → sum later w ≡ added size span later calls

add-IsWindow :
    (w : SlidingWindow) (size span now t n : ℕ) (calls : List (ℕ × ℕ))
    → 0 < size
    → 0 < span
    → now ≤ t
    → IsWindow w size span now calls
    → IsWindow (add t n w) size span t ((t, n) ∷ calls)
unfolding add added sum
add-IsWindow w size span now t n calls s p l h =
    let up =
      later-Aligned span (now / size) (t / size) 0 w.buckets (div_monotone size now t s l)
        h.aligned in
    let keeps = length-update_at (t / size % span) (count_in (t / size) n) w.buckets ∙ h.span_eq in
    record {
      size_eq = h.size_eq;
      span_eq = rw (h.size_eq, h.span_eq) keeps;
      aligned =
          rw (h.size_eq, h.span_eq)
            (update-Aligned span (t / size) 0 (t / size % span) n w.buckets (omega arith) up);
      sums = λ later le.
          let before = rw (h.size_eq, h.span_eq) at (h.sums later (omega (arith, l, le))) in
          rw (h.size_eq, h.span_eq, keeps)
            (update-sum span (later / size) (t / size) 0 (t / size % span) n w.buckets p
                (div_monotone size t later s le) (rw h.span_eq (mod-lt (t / size) p)) (omega arith)
                up
              ∙ ap (λ x. x + (if ltb (later / size) (t / size + span) then n else 0)) before);
    }

later_IsWindow :
    (w : SlidingWindow) (size span now later : ℕ) (calls : List (ℕ × ℕ))
    → 0 < size
    → now ≤ later
    → IsWindow w size span now calls
    → IsWindow w size span later calls
later_IsWindow w size span now later calls s l h = record {
  size_eq = h.size_eq;
  span_eq = h.span_eq;
  aligned =
      later-Aligned span (now / size) (later / size) 0 w.buckets (div_monotone size now later s l)
        h.aligned;
  sums = λ t le. h.sums t (omega (arith, l, le));
}

all-IsWindow :
    (w : SlidingWindow) (size span now : ℕ) (calls : List (ℕ × ℕ))
    → 0 < size
    → 0 < span
    → IsWindow w size span 0 []
    → InOrder now calls
    → IsWindow (add_all calls w) size span now calls
unfolding add_all
all-IsWindow w size span now [] s p h o = later_IsWindow w size span 0 now [] s (omega arith) h
all-IsWindow w size span now ((t, n) ∷ calls) s p h o =
    later_IsWindow _ size span t now ((t, n) ∷ calls) s o.0 (
      add-IsWindow (add_all calls w) size span t t n calls s p (omega arith)
        (all-IsWindow w size span t calls s p h o.1))

replicated-IsWindow :
    (size n window : ℕ)
    → let w : SlidingWindow = record {
      buckets = replicate n (record { epoch = 0; count = 0 });
      bucket_size = size;
      window = window;
    } in
      (0 < n) → (0 < length w.buckets) × IsWindow w size (length w.buckets) 0 []
unfolding sum added
replicated-IsWindow size n window p =
    let empty : Bucket = record { epoch = 0; count = 0 } in
    (
      omega (arith, p, length-replicate n empty),
      record {
        size_eq = refl;
        span_eq = refl;
        aligned = fresh-Aligned _ (0 / size) 0 n;
        sums = λ later le. fresh-sum _ (later / size) n;
      },
    )

positive_default : (n d : ℕ) → 0 < d → 0 < (if n == 0 then d else n)
positive_default n d p = ground (arith, p)

positive_floor : (n : ℕ) → 0 < (if ltb n 1 then 1 else n)
positive_floor n = ground arith

new-IsWindow :
    (window size : ℕ)
    → let w = new_sliding_window window size in
      (0 < w.bucket_size)
      × (0 < length w.buckets)
      × IsWindow w w.bucket_size (length w.buckets) 0 []
unfolding new_sliding_window
new-IsWindow window size =
    let size' = if size == 0 then 60000000000 else size in
    let span = if ltb window size' then size' else window in
    let (p, h) =
      replicated-IsWindow size' (if ltb (span / size') 1 then 1 else span / size') span
        (positive_floor (span / size')) in
    (positive_default size 60000000000 (omega arith), p, h)

-- After any calls of add at times that do not fall, sum is what was added in the epochs of the window:
-- as many epochs, up to the current one, as there are buckets. There is at least one bucket, and the
-- buckets' size is not zero.
pub sum-added :
    (window size now : ℕ) (calls : List (ℕ × ℕ))
    → InOrder now calls
    → (0 < (new_sliding_window window size).bucket_size)
      × (0 < length (new_sliding_window window size).buckets)
      × (sum now (add_all calls (new_sliding_window window size))
          ≡ added
              (new_sliding_window window size).bucket_size
              (length (new_sliding_window window size).buckets)
              now
              calls)
sum-added window size now calls o =
    let (s, p, h) = new-IsWindow window size in
    (
      s,
      p,
      (all-IsWindow (new_sliding_window window size) _ _ now calls s p h o).sums now (omega arith),
    )
