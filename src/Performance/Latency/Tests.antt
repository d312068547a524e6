-- ===== src/Performance/Latency/Tests.antt =====
-- Runs of the latency tracker.
use syntor.Common.{ℕ, ◌*◌, ◌/◌, ◌≡◌, refl, [], ◌∷◌, some}
use syntor.Performance.Latency.{
  LatencyTracker, new_latency_tracker, record_latency, average, sort_samples, percentile,
}
use syntor.Performance.Latency.Ranks.{record_all}

-- The rank of a percentile in whole hundredths, rounded down.
abbrev hundredths : ℕ → ℕ → ℕ
hundredths n p = n * p / 100

abbrev three_latencies : LatencyTracker
three_latencies = record_all (40 ∷ 10 ∷ 30 ∷ 20 ∷ []) (new_latency_tracker 3)

average_three : average three_latencies ≡ 20
unfolding average record_all record_latency new_latency_tracker
average_three = refl

median_three : percentile hundredths 50 three_latencies ≡ some 20
unfolding percentile record_all record_latency new_latency_tracker
median_three = refl

sort_three : sort_samples (3 ∷ 1 ∷ 2 ∷ []) ≡ 1 ∷ 2 ∷ 3 ∷ []
unfolding sort_samples
sort_three = refl
