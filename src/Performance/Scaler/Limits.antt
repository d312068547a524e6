-- ===== src/Performance/Scaler/Limits.antt =====
-- What a decision of the scaler keeps to.
use syntor.Common.{
  ℕ, ◌+◌, ◌≤◌, ◌<◌, String, ◌≡◌, ◌≢◌, ◌⊎◌, inl, inr, refl, subst, Bool, false, [], none, some, ◌==◌,
  if◌then◌else◌, length, arith,
}
use syntor.Common.Dict.{lookup}
use syntor.Performance.Scaler.{
  Floats, ScalingDecision, ScalingMetrics, ScalingPolicy, AutoScaler, Delta, up, down, is_zero,
  moved, value_or, get_current_count, calculate_average_metrics, determine_scaling_action, clamp,
  in_cooldown, evaluate_policy,
}

-- The action moves by one of the steps of the policy, or not at all.
abbrev IsStep : {F : Type 0} → ScalingPolicy F → Delta → Type 0
IsStep policy action =
    (action ≡ up policy.scale_up_step) ⊎ (action ≡ down policy.scale_down_step) ⊎ (action ≡ up 0)

module _ {F : Type 0} (ops : Floats F) where
  determine_scaling_action-IsStep :
      (metrics : ScalingMetrics F) (policy : ScalingPolicy F) (current : ℕ)
      → IsStep policy (determine_scaling_action ops metrics policy current).0
  unfolding determine_scaling_action
  determine_scaling_action-IsStep metrics policy current = ground arith

clamp-Bounds :
    {F : Type 0} (policy : ScalingPolicy F) (n : ℕ)
    → policy.min_instances ≤ policy.max_instances
    → (policy.min_instances ≤ clamp policy n) × (clamp policy n ≤ policy.max_instances)
unfolding clamp
clamp-Bounds policy n h = ground arith

clamp-moved :
    {F : Type 0} (policy : ScalingPolicy F) (current : ℕ) (action : Delta)
    → policy.min_instances ≤ current
    → current ≤ policy.max_instances
    → IsStep policy action
    → (clamp policy (moved current action) ≤ current + policy.scale_up_step)
      × (current ≤ clamp policy (moved current action) + policy.scale_down_step)
unfolding clamp moved
clamp-moved policy current action low high (inl e) = rw e (ground arith)
clamp-moved policy current action low high (inr (inl e)) = rw e (ground arith)
clamp-moved policy current action low high (inr (inr e)) = rw e (ground arith)

-- What a decision says of the scaler it is taken in.
pub record IsSound {F : Type 0} (now : ℕ) (agent : String) (policy : ScalingPolicy F)
    (sc : AutoScaler F) (d : ScalingDecision) : Type 0 where
  pub for_agent : d.agent_type ≡ agent
  pub from_current : d.current_count ≡ get_current_count agent sc
  pub changes : d.desired_count ≢ d.current_count
  pub rested : in_cooldown now (lookup agent sc.last_scale_time) policy ≡ false
  pub seen : 0 < length (value_or [] (lookup agent sc.metrics_history))
  pub in_limits :
      policy.min_instances ≤ policy.max_instances
      → (policy.min_instances ≤ d.desired_count) × (d.desired_count ≤ policy.max_instances)
  pub by_steps :
      policy.min_instances ≤ d.current_count
      → d.current_count ≤ policy.max_instances
      → (d.desired_count ≤ d.current_count + policy.scale_up_step)
        × (d.current_count ≤ d.desired_count + policy.scale_down_step)

if_none_else :
    {D : Type 0} (a b c f : Bool) (made d : D)
    → (if a then none else if b then none else if c then none else if f then none else some made)
      ≡ some d
    → (a ≡ false) × (b ≡ false) × (c ≡ false) × (f ≡ false) × (made ≡ d)
if_none_else a b c f made d e = ground arith

module _ {F : Type 0} (ops : Floats F) where
  -- A decision is taken only for an agent type with metrics and out of its cooldown. It is for
  -- that type, starts from its current count and changes it, by at most the policy's steps when
  -- the count is within the limits, and it ends within the limits when they are in order.
  pub evaluate_policy-IsSound :
      (now : ℕ) (agent : String) (policy : ScalingPolicy F) (sc : AutoScaler F)
      (d : ScalingDecision)
      → evaluate_policy ops now agent policy sc ≡ some d
      → IsSound now agent policy sc d
  unfolding evaluate_policy
  evaluate_policy-IsSound now agent policy sc d e =
      let history = value_or [] (lookup agent sc.metrics_history) in
      let current = get_current_count agent sc in
      let (action, reason) =
        determine_scaling_action ops (calculate_average_metrics ops history) policy current in
      let step =
        determine_scaling_action-IsStep ops (calculate_average_metrics ops history) policy
          current in
      let desired = clamp policy (moved current action) in
      let (a, b, c, f, same) =
        if_none_else (length history == 0)
          (in_cooldown now (lookup agent sc.last_scale_time) policy) (is_zero action)
          (desired == current)
          (record {
            agent_type = agent;
            current_count = current;
            desired_count = desired;
            reason = reason;
            timestamp = now;
          })
          d e in
      subst (IsSound now agent policy sc) same record {
        for_agent = refl;
        from_current = refl;
        changes = λ g. ground (arith, f, g);
        rested = b;
        seen = ground (arith, a);
        in_limits = clamp-Bounds policy (moved current action);
        by_steps = λ low high. clamp-moved policy current action low high step;
      }
