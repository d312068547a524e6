-- ===== src/Performance/Latency.antt =====
-- LatencyTracker of pkg/performance/scaling.go.
-- The rank of a percentile is computed in float64; it is the parameter `rank`, of the number of
-- samples less one and the percentile. Latencies are natural numbers.
pub mod Sorting
pub mod Ranks
mod Tests
use syntor.Common.{
  ℕ, zero, suc, ◌+◌, ◌-◌, ◌/◌, ◌≤◌, Bool, List, [], ◌∷◌, ◌++◌, Option, none, some, ltb, leb, ◌==◌,
  if◌then◌else◌, length, drop, get_elem?,
}

pub record LatencyTracker : Type 0 where
  pub samples : List ℕ
  pub max_samples : ℕ

-- NewLatencyTracker
unfoldable pub new_latency_tracker : ℕ → LatencyTracker
new_latency_tracker max = record { samples = []; max_samples = if max == 0 then 1000 else max }

-- LatencyTracker.Record
unfoldable pub record_latency : ℕ → LatencyTracker → LatencyTracker
record_latency latency lt =
    let kept = if leb lt.max_samples (length lt.samples) then drop 1 lt.samples else lt.samples in
    record lt { samples = kept ++ latency ∷ [] }

unfoldable pub total : List ℕ → ℕ
total [] = 0
total (s ∷ ss) = s + total ss

-- Average
unfoldable pub average : LatencyTracker → ℕ
unfolding total
average lt = if length lt.samples == 0 then 0 else total lt.samples / length lt.samples

-- The inner loop of the sort: so many comparisons of neighbours, from the front.
unfoldable pub bubble : ℕ → List ℕ → List ℕ
bubble zero xs = xs
bubble (suc k) [] = []
bubble (suc k) (x ∷ []) = x ∷ []
bubble (suc k) (x ∷ y ∷ rest) =
    let swapped = y ∷ bubble k (x ∷ rest) in
    let kept = x ∷ bubble k (y ∷ rest) in if ltb y x then swapped else kept

-- The outer loop, with the number of comparisons of its next round.
unfoldable pub rounds : ℕ → List ℕ → List ℕ
unfolding bubble
rounds zero xs = xs
rounds (suc k) xs = rounds k (bubble (suc k) xs)

unfoldable pub sort_samples : List ℕ → List ℕ
unfolding rounds
sort_samples xs = rounds (length xs - 1) xs

module _ {Percent : Type 0} (rank : ℕ → Percent → ℕ) where
  -- Percentile: `none` is an index out of range.
  unfoldable pub percentile : Percent → LatencyTracker → Option ℕ
  unfolding sort_samples
  percentile p lt =
      if length lt.samples == 0
      then some 0
      else get_elem? (sort_samples lt.samples) (rank (length lt.samples - 1) p)

-- Clear
unfoldable pub clear_samples : LatencyTracker → LatencyTracker
clear_samples lt = record lt { samples = [] }
