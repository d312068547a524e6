-- ===== src/Performance/Throughput.antt =====
-- ThroughputCounter of pkg/performance/scaling.go.
-- Times and the window are natural numbers of one unit; each operation is given the time it reads.
-- The quotient by the window's seconds is the parameter `per_window`.
pub mod Window
mod Tests
use syntor.Common.{
  ℕ, zero, suc, ◌+◌, Bool, List, [], ◌∷◌, ◌++◌, ltb, ◌==◌, if◌then◌else◌, length, drop,
}
use syntor.Performance.Latency.{total}

pub record ThroughputCounter : Type 0 where
  pub counts : List ℕ
  pub timestamps : List ℕ
  pub window_size : ℕ

-- NewThroughputCounter; a second is the number of units in one.
unfoldable pub new_throughput_counter : ℕ → ℕ → ThroughputCounter
new_throughput_counter second window = record {
  counts = [];
  timestamps = [];
  window_size = if window == 0 then second else window;
}

-- `t.After(now.Add(-window))`
unfoldable pub is_recent : ℕ → ℕ → ℕ → Bool
is_recent now window t = ltb now (t + window)

-- The loop of cleanup: the index of the first recent timestamp.
unfoldable pub first_recent : ℕ → ℕ → List ℕ → ℕ
unfolding is_recent
first_recent now window [] = 0
first_recent now window (t ∷ ts) =
    let later = suc (first_recent now window ts) in if is_recent now window t then 0 else later

-- cleanup; the slices from index 0 are the lists themselves.
unfoldable pub cleanup : ℕ → ThroughputCounter → ThroughputCounter
unfolding first_recent
cleanup now tc =
    let i = first_recent now tc.window_size tc.timestamps in
    record tc { counts = drop i tc.counts; timestamps = drop i tc.timestamps }

-- Increment
unfoldable pub increment : ℕ → ℕ → ThroughputCounter → ThroughputCounter
unfolding cleanup
increment now delta tc =
    let tc = cleanup now tc in
    record tc { counts = tc.counts ++ delta ∷ []; timestamps = tc.timestamps ++ now ∷ [] }

module _ {Rate : Type 0} (zero_rate : Rate) (per_window : ℕ → ℕ → Rate) where
  -- Rate, with the counter after its cleanup
  unfoldable pub rate : ℕ → ThroughputCounter → Rate × ThroughputCounter
  unfolding cleanup
  rate now tc =
      let tc = cleanup now tc in
      (if length tc.counts == 0 then zero_rate else per_window (total tc.counts) tc.window_size, tc)
