-- ===== src/Cep.antt =====
-- The sliding window of pkg/cep/cep.go. A bucket's epoch is the number of bucket sizes since 1970.
mod Window
mod Rules
mod Latency
mod Edges
mod Tests
use observe_x.Prelude.{
  ℕ, zero, suc, ◌+◌, ◌-◌, ◌*◌, ◌/◌, ◌%◌, Bool, true, false, ◌&&◌, List, [], ◌∷◌, length, ltb, leb,
  ◌==◌, if◌then◌else◌, replicate,
}

pub record Bucket : Type 0 where
  pub epoch : ℕ
  pub count : ℕ

pub record SlidingWindow : Type 0 where
  pub buckets : List Bucket
  pub bucket_size : ℕ
  pub window : ℕ

-- newSlidingWindow; a zero stands for every size that is not positive.
unfoldable pub new_sliding_window : ℕ → ℕ → SlidingWindow
new_sliding_window window bucket_size =
    let size = if bucket_size == 0 then 60000000000 else bucket_size in
    let span = if ltb window size then size else window in
    let n = if ltb (span / size) 1 then 1 else span / size in
    record {
      buckets = replicate n (record { epoch = 0; count = 0 });
      bucket_size = size;
      window = span;
    }

unfoldable pub count_in : ℕ → ℕ → Bucket → Bucket
count_in epoch n b =
    if b.epoch == epoch
    then record b { count = b.count + n }
    else record { epoch = epoch; count = n }

unfoldable pub update_at : ℕ → (Bucket → Bucket) → List Bucket → List Bucket
update_at i f [] = []
update_at zero f (b ∷ bs) = f b ∷ bs
update_at (suc i) f (b ∷ bs) = b ∷ update_at i f bs

-- slidingWindow.add.
unfoldable pub add : ℕ → ℕ → SlidingWindow → SlidingWindow
unfolding count_in update_at
add now n w =
    let epoch = now / w.bucket_size in
    record w { buckets = update_at (epoch % length w.buckets) (count_in epoch n) w.buckets }

-- The loop of slidingWindow.sum, over `min ≤ epoch ≤ current`; since the epochs are natural numbers, the
-- lower bound is compared without its subtraction.
unfoldable pub sum_buckets : ℕ → ℕ → List Bucket → ℕ
sum_buckets span current [] = 0
sum_buckets span current (b ∷ bs) =
    let rest = sum_buckets span current bs in
    if ltb current (b.epoch + span) && leb b.epoch current then b.count + rest else rest

-- slidingWindow.sum.
unfoldable pub sum : ℕ → SlidingWindow → ℕ
unfolding sum_buckets
sum now w = sum_buckets (length w.buckets) (now / w.bucket_size) w.buckets
