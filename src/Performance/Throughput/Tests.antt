-- ===== src/Performance/Throughput/Tests.antt =====
-- A run of the throughput counter.
use syntor.Common.{ℕ, ◌≡◌, [], ◌∷◌, refl}
use syntor.Performance.Latency.{total}
use syntor.Performance.Throughput.{new_throughput_counter, rate}
use syntor.Performance.Throughput.Window.{increment_all}

-- The quotient as the pair of its parts.
abbrev parts : ℕ → ℕ → ℕ × ℕ
parts n window = (n, window)

rate_in_window :
    (rate
      (0, 1)
      parts
      13
      (increment_all ((1, 5) ∷ (4, 2) ∷ (12, 3) ∷ []) (new_throughput_counter 1000 10))).0
    ≡ (5, 10)
unfolding rate increment_all new_throughput_counter total
rate_in_window = refl
