-- ===== src/Performance/Scaler/Tests.antt =====
-- Runs of the scaler, with float64 as whole hundredths.
use syntor.Common.{
  ℕ, ◌+◌, ◌/◌, ◌≡◌, ◌≤◌, refl, String, [], ◌∷◌, Option, none, some, ltb, str_eq, arith, Bool-cases,
  inl, inr, subst,
}
use syntor.Common.Dict.{lookup}
use syntor.Performance.Scaler.{
  Floats, ScalingMetrics, ScalingPolicy, ScalingDecision, AutoScaler, Delta, get_current_count,
  evaluate_policy, determine_scaling_action, calculate_average_metrics, value_or,
}
use syntor.Performance.Scaler.Monitor.{InLimits, ticks, ticks-InLimits}

abbrev hundredths : Floats ℕ
hundredths = record {
  zero_float = 0;
  add_float = λ a b. a + b;
  div_count = λ a n. a / n;
  lt_float = ltb;
  int_ratio = λ a n. a / n;
}

abbrev one_to_three : ScalingPolicy ℕ
one_to_three = record {
  min_instances = 1;
  max_instances = 3;
  target_cpu = 70;
  target_memory = 80;
  target_queue_depth = 100;
  target_latency = 100;
  scale_up_threshold = 80;
  scale_down_threshold = 30;
  cooldown_period = 60;
  scale_up_step = 5;
  scale_down_step = 1;
}

abbrev busy : ScalingMetrics ℕ
busy = record {
  cpu_utilization = 95;
  memory_utilization = 20;
  queue_depth = 3;
  message_rate = 1;
  average_latency = 5;
  error_rate = 0;
  active_tasks = 2;
  timestamp = 0;
}

abbrev git_scaler : AutoScaler ℕ
git_scaler = record {
  policies = ("git", one_to_three) ∷ [];
  current_counts = ("git", 2) ∷ [];
  last_scale_time = [];
  metrics_history = ("git", busy ∷ []) ∷ [];
  history_size = 10;
}

abbrev to_three : ScalingDecision
to_three = record {
  agent_type = "git";
  current_count = 2;
  desired_count = 3;
  reason = "CPU utilization above threshold";
  timestamp = 7;
}

abbrev accepts : String → Delta → Option String
accepts agent delta = none

git_to_three : evaluate_policy hundredths 7 "git" one_to_three git_scaler ≡ some to_three
unfolding evaluate_policy lookup determine_scaling_action calculate_average_metrics
git_to_three = refl

git_scaler-InLimits : InLimits git_scaler
unfolding lookup get_current_count value_or
git_scaler-InLimits agent policy found = elim (Bool-cases (str_eq "git" agent)) [
  | inl e ↦
      let p : one_to_three ≡ policy = ground (arith, e, found) in
      subst
        (λ p.
          (p.min_instances ≤ p.max_instances)
          × (p.min_instances ≤ get_current_count agent git_scaler)
          × (get_current_count agent git_scaler ≤ p.max_instances))
        p (ground (arith, e))
  | inr e ↦ absurd (ground (arith, e, found))
]

ticks-InLimits_example : InLimits (ticks accepts hundredths (7 ∷ 8 ∷ []) git_scaler)
unfolding lookup
ticks-InLimits_example =
    ticks-InLimits accepts hundredths (7 ∷ 8 ∷ []) git_scaler (refl, tt) git_scaler-InLimits
