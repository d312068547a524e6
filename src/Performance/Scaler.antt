-- ===== src/Performance/Scaler.antt =====
-- AutoScaler of pkg/performance/scaling.go.
-- Counts, queue depths, times and durations are natural numbers; every operation is given the time
-- it reads. A subtraction of a step that ends below 0 is clamped to the minimum by the source, so
-- that it may stop at 0 here. Float64 and its conversions are a `Floats` record; the callback
-- `onScale` is a parameter.
pub mod Limits
pub mod Monitor
mod Tests
use syntor.Common.{
  ℕ, zero, suc, ◌+◌, ◌-◌, ◌/◌, String, Bool, true, false, ◌&&◌, List, [], ◌∷◌, ◌++◌, Option, none,
  some, ltb, leb, ◌==◌, if◌then◌else◌, length, drop,
}
use syntor.Common.Dict.{Dict, lookup, insert}

-- What the source uses of float64; `int_ratio a n` is `int(float64(a) / float64(n))`.
pub record Floats (F : Type 0) : Type 0 where
  pub zero_float : F
  pub add_float : F → F → F
  pub div_count : F → ℕ → F
  pub lt_float : F → F → Bool
  pub int_ratio : ℕ → ℕ → ℕ

pub record ScalingDecision : Type 0 where
  pub agent_type : String
  pub current_count : ℕ
  pub desired_count : ℕ
  pub reason : String
  pub timestamp : ℕ

pub record ScalingMetrics (F : Type 0) : Type 0 where
  pub cpu_utilization : F
  pub memory_utilization : F
  pub queue_depth : ℕ
  pub message_rate : F
  pub average_latency : ℕ
  pub error_rate : F
  pub active_tasks : ℕ
  pub timestamp : ℕ

pub record ScalingPolicy (F : Type 0) : Type 0 where
  pub min_instances : ℕ
  pub max_instances : ℕ
  pub target_cpu : F
  pub target_memory : F
  pub target_queue_depth : ℕ
  pub target_latency : ℕ
  pub scale_up_threshold : F
  pub scale_down_threshold : F
  pub cooldown_period : ℕ
  pub scale_up_step : ℕ
  pub scale_down_step : ℕ

pub record AutoScaler (F : Type 0) : Type 0 where
  pub policies : Dict (ScalingPolicy F)
  pub current_counts : Dict ℕ
  pub last_scale_time : Dict ℕ
  pub metrics_history : Dict (List (ScalingMetrics F))
  pub history_size : ℕ

-- A signed number of instances.
pub data Delta : Type 0 where
  up : ℕ → Delta
  down : ℕ → Delta

unfoldable pub is_zero : Delta → Bool
is_zero (up n) = n == 0
is_zero (down n) = n == 0

-- `count + action`
unfoldable pub moved : ℕ → Delta → ℕ
moved count (up n) = count + n
moved count (down n) = count - n

-- `desired - current`
unfoldable pub difference : ℕ → ℕ → Delta
difference desired current =
    if leb current desired then up (desired - current) else down (current - desired)

-- NewAutoScaler
unfoldable pub new_auto_scaler : (F : Type 0) → ℕ → AutoScaler F
new_auto_scaler F history_size = record {
  policies = [];
  current_counts = [];
  last_scale_time = [];
  metrics_history = [];
  history_size = if history_size == 0 then 10 else history_size;
}

-- `as.currentCounts[agentType]`, and the same of the other maps
unfoldable pub value_or {ℓ} : {V : Type ℓ} → V → Option V → V
value_or default none = default
value_or default (some v) = v

module _ {F : Type 0} where
  -- RegisterAgentType
  unfoldable pub register_agent_type : String → ScalingPolicy F → ℕ → AutoScaler F → AutoScaler F
  register_agent_type agent policy count sc = record sc {
    policies = insert agent policy sc.policies;
    current_counts = insert agent count sc.current_counts;
    metrics_history = insert agent [] sc.metrics_history;
  }

  -- RecordMetrics
  unfoldable pub record_metrics : ℕ → String → ScalingMetrics F → AutoScaler F → AutoScaler F
  unfolding value_or
  record_metrics now agent metrics sc =
      let history = value_or [] (lookup agent sc.metrics_history) in
      let kept = if leb sc.history_size (length history) then drop 1 history else history in
      record sc {
        metrics_history =
            insert agent (kept ++ record metrics { timestamp = now } ∷ []) sc.metrics_history;
      }

  -- GetCurrentCount
  unfoldable pub get_current_count : String → AutoScaler F → ℕ
  unfolding value_or
  get_current_count agent sc = value_or 0 (lookup agent sc.current_counts)

  -- SetCurrentCount
  unfoldable pub set_current_count : String → ℕ → AutoScaler F → AutoScaler F
  set_current_count agent count sc = record sc {
    current_counts = insert agent count sc.current_counts;
  }

  -- The clamping of evaluateAgentType
  unfoldable pub clamp : ScalingPolicy F → ℕ → ℕ
  clamp policy desired =
      let raised = if ltb desired policy.min_instances then policy.min_instances else desired in
      if ltb policy.max_instances raised then policy.max_instances else raised

  -- The cooldown test: a scaling less than the period ago.
  unfoldable pub in_cooldown : ℕ → Option ℕ → ScalingPolicy F → Bool
  in_cooldown now none policy = false
  in_cooldown now (some last) policy = ltb (now - last) policy.cooldown_period

module _ {F : Type 0} (ops : Floats F) where
  zero_metrics : ScalingMetrics F
  zero_metrics = record {
    cpu_utilization = ops.zero_float;
    memory_utilization = ops.zero_float;
    queue_depth = 0;
    message_rate = ops.zero_float;
    average_latency = 0;
    error_rate = ops.zero_float;
    active_tasks = 0;
    timestamp = 0;
  }

  -- The loop of calculateAverageMetrics
  unfoldable pub sum_metrics : List (ScalingMetrics F) → ScalingMetrics F → ScalingMetrics F
  sum_metrics [] avg = avg
  sum_metrics (m ∷ ms) avg = sum_metrics ms (record avg {
    cpu_utilization = ops.add_float avg.cpu_utilization m.cpu_utilization;
    memory_utilization = ops.add_float avg.memory_utilization m.memory_utilization;
    queue_depth = avg.queue_depth + m.queue_depth;
    message_rate = ops.add_float avg.message_rate m.message_rate;
    average_latency = avg.average_latency + m.average_latency;
    error_rate = ops.add_float avg.error_rate m.error_rate;
    active_tasks = avg.active_tasks + m.active_tasks;
  })

  -- calculateAverageMetrics
  unfoldable pub calculate_average_metrics : List (ScalingMetrics F) → ScalingMetrics F
  unfolding sum_metrics zero_metrics
  calculate_average_metrics history =
      let n = length history in
      let sum = sum_metrics history zero_metrics in
      record sum {
        cpu_utilization = ops.div_count sum.cpu_utilization n;
        memory_utilization = ops.div_count sum.memory_utilization n;
        queue_depth = ops.int_ratio sum.queue_depth n;
        message_rate = ops.div_count sum.message_rate n;
        average_latency = ops.int_ratio sum.average_latency n;
        error_rate = ops.div_count sum.error_rate n;
        active_tasks = ops.int_ratio sum.active_tasks n;
      }

  -- determineScalingAction
  unfoldable pub determine_scaling_action : ScalingMetrics F → ScalingPolicy F → ℕ → Delta × String
  determine_scaling_action metrics policy current =
      if ops.lt_float policy.scale_up_threshold metrics.cpu_utilization
      then (up policy.scale_up_step, "CPU utilization above threshold")
      else if ops.lt_float policy.scale_up_threshold metrics.memory_utilization
      then (up policy.scale_up_step, "Memory utilization above threshold")
      else if ltb policy.target_queue_depth metrics.queue_depth
      then (up policy.scale_up_step, "Queue depth above target")
      else if ltb policy.target_latency metrics.average_latency
      then (up policy.scale_up_step, "Latency above target")
      else if ops.lt_float metrics.cpu_utilization policy.scale_down_threshold
          && ops.lt_float metrics.memory_utilization policy.scale_down_threshold
          && ltb metrics.queue_depth (policy.target_queue_depth / 2)
          && ltb policy.min_instances current
      then (down policy.scale_down_step, "Low resource utilization")
      else (up 0, "")

  -- evaluateAgentType
  unfoldable pub evaluate_policy :
      ℕ → String → ScalingPolicy F → AutoScaler F → Option ScalingDecision
  unfolding value_or in_cooldown is_zero moved clamp get_current_count
  evaluate_policy now agent policy sc =
      let history = value_or [] (lookup agent sc.metrics_history) in
      let current = get_current_count agent sc in
      let (action, reason) =
        determine_scaling_action (calculate_average_metrics history) policy current in
      let desired = clamp policy (moved current action) in
      if length history == 0
      then none
      else if in_cooldown now (lookup agent sc.last_scale_time) policy
      then none
      else if is_zero action
      then none
      else if desired == current
      then none
      else some record {
        agent_type = agent;
        current_count = current;
        desired_count = desired;
        reason = reason;
        timestamp = now;
      }

  -- EvaluateAgentType
  unfoldable pub evaluate_agent_type : ℕ → String → AutoScaler F → Option ScalingDecision
  evaluate_agent_type now agent sc = elim (lookup agent sc.policies) [
    | none ↦ none
    | some policy ↦ evaluate_policy now agent policy sc
  ]

  -- The loop of Evaluate over the entries of the map
  unfoldable pub evaluate_entries : ℕ → Dict (ScalingPolicy F) → AutoScaler F → List ScalingDecision
  evaluate_entries now [] sc = []
  evaluate_entries now (e ∷ es) sc =
      let rest = evaluate_entries now es sc in
      elim (evaluate_policy now e.0 e.1 sc) [ none ↦ rest | some d ↦ d ∷ rest ]

  -- Evaluate
  unfoldable pub evaluate : ℕ → AutoScaler F → List ScalingDecision
  evaluate now sc = evaluate_entries now sc.policies sc

module _ {F : Type 0} {Failure : Type 0} (on_scale : String → Delta → Option Failure) where
  -- ApplyDecision, with its error
  unfoldable pub apply_decision : ℕ → ScalingDecision → AutoScaler F → Option Failure × AutoScaler F
  apply_decision now d sc =
      elim (on_scale d.agent_type (difference d.desired_count d.current_count)) [
        | some failure ↦ (some failure, sc)
        | none ↦ (
          none,
          record sc {
            current_counts = insert d.agent_type d.desired_count sc.current_counts;
            last_scale_time = insert d.agent_type now sc.last_scale_time;
          },
        )
      ]

  -- The inner loop of StartMonitoring, which drops the errors
  unfoldable pub apply_all : ℕ → List ScalingDecision → AutoScaler F → AutoScaler F
  apply_all now [] sc = sc
  apply_all now (d ∷ ds) sc = apply_all now ds (apply_decision now d sc).1

  -- A tick of StartMonitoring
  unfoldable pub tick : Floats F → ℕ → AutoScaler F → AutoScaler F
  tick ops now sc = apply_all now (evaluate ops now sc) sc
