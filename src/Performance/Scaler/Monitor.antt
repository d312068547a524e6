-- ===== src/Performance/Scaler/Monitor.antt =====
-- StartMonitoring: what any number of ticks keeps.
use syntor.Common.{
  ℕ, ◌+◌, ◌≤◌, ◌<◌, String, ◌≡◌, inl, inr, refl, sym, ap, subst, ◌∙◌, true, List, [], ◌∷◌, Option,
  none, some, str_eq, All, arith, Bool-cases, Option-cases, some-inj, eq_iff, eq_refl,
}
use syntor.Common.Dict.{Dict, lookup, insert, lookup-insert, IsMap, Each}
use syntor.Performance.Scaler.{
  Floats, ScalingDecision, ScalingPolicy, AutoScaler, Delta, difference, value_or,
  get_current_count, in_cooldown, evaluate_policy, evaluate_agent_type, evaluate_entries, evaluate,
  apply_decision, apply_all, tick,
}
use syntor.Performance.Scaler.Limits.{evaluate_policy-IsSound}

Each-rest :
    {V : Type 0} (e : String × V) (rest : Dict V)
    → lookup e.0 rest ≡ none
    → (m : Dict V) → Each (λ k v. lookup k rest ≡ some v) m
    → Each (λ k v. lookup k (e ∷ rest) ≡ some v) m
unfolding lookup
Each-rest e rest new [] h = tt
Each-rest e rest new ((k, v) ∷ m) (found, h) =
    (ground (arith, new, found, eq_iff e.0 k), Each-rest e rest new m h)

-- In a map, every entry is the one that its key finds.
IsMap-Each : {V : Type 0} (m : Dict V) → IsMap m → Each (λ k v. lookup k m ≡ some v) m
unfolding lookup
IsMap-Each [] h = tt
IsMap-Each (e ∷ rest) (new, h) =
    (ground (arith, eq_refl e.0), Each-rest e rest new rest (IsMap-Each rest h))

in_cooldown_lem :
    {F : Type 0} (now later : ℕ) (policy : ScalingPolicy F) (last : Option ℕ)
    → last ≡ some now
    → now ≤ later
    → later < now + policy.cooldown_period
    → in_cooldown later last policy ≡ true
unfolding in_cooldown
in_cooldown_lem now later policy last e after soon = rw e (ground arith)

module _ {F : Type 0} where
  -- The limits of every registered type are in order, and its count is within them.
  abbrev pub InLimits : AutoScaler F → Type 0
  InLimits sc =
      (agent : String) (policy : ScalingPolicy F)
      → lookup agent sc.policies ≡ some policy
      → (policy.min_instances ≤ policy.max_instances)
        × (policy.min_instances ≤ get_current_count agent sc)
        × (get_current_count agent sc ≤ policy.max_instances)

  abbrev WithinLimits : Dict (ScalingPolicy F) → ScalingDecision → Type 0
  WithinLimits policies d =
      (policy : ScalingPolicy F)
      → lookup d.agent_type policies ≡ some policy
      → (policy.min_instances ≤ d.desired_count) × (d.desired_count ≤ policy.max_instances)

  module _ {Failure : Type 0} (on_scale : String → Delta → Option Failure) where
    -- The scaler after a decision that the callback accepts.
    abbrev scaled : ℕ → ScalingDecision → AutoScaler F → AutoScaler F
    scaled now d sc = record sc {
      current_counts = insert d.agent_type d.desired_count sc.current_counts;
      last_scale_time = insert d.agent_type now sc.last_scale_time;
    }

    apply_decision_accepted :
        (now : ℕ) (d : ScalingDecision) (sc : AutoScaler F)
        → on_scale d.agent_type (difference d.desired_count d.current_count) ≡ none
        → apply_decision on_scale now d sc ≡ (none, scaled now d sc)
    unfolding apply_decision
    apply_decision_accepted now d sc e = rw (apply_decision, e) refl

    apply_decision_refused :
        (now : ℕ) (d : ScalingDecision) (sc : AutoScaler F) (failure : Failure)
        → on_scale d.agent_type (difference d.desired_count d.current_count) ≡ some failure
        → apply_decision on_scale now d sc ≡ (some failure, sc)
    unfolding apply_decision
    apply_decision_refused now d sc failure e = rw (apply_decision, e) refl

    scaled-InLimits :
        (now : ℕ) (d : ScalingDecision) (sc : AutoScaler F)
        → WithinLimits sc.policies d
        → InLimits sc
        → InLimits (scaled now d sc)
    unfolding get_current_count value_or
    scaled-InLimits now d sc within h agent policy found =
        let there = lookup-insert sc.current_counts d.agent_type d.desired_count agent in
        let old = h agent policy found in
        elim (Bool-cases (str_eq d.agent_type agent)) [
          | inl e ↦
              let same : d.agent_type ≡ agent = ground (arith, eq_iff d.agent_type agent) in
              let new = within policy (ap (λ a. lookup a sc.policies) same ∙ found) in
              ground (arith, there, e, new, old)
          | inr e ↦ ground (arith, there, e, old)
        ]

    apply_decision-InLimits :
        (now : ℕ) (d : ScalingDecision) (sc : AutoScaler F)
        → WithinLimits sc.policies d
        → InLimits sc
        → InLimits (apply_decision on_scale now d sc).1
          × ((apply_decision on_scale now d sc).1.policies ≡ sc.policies)
    apply_decision-InLimits now d sc within h =
        elim (Option-cases (on_scale d.agent_type (difference d.desired_count d.current_count))) [
          | inl e ↦
              subst (λ r. InLimits r.1 × (r.1.policies ≡ sc.policies))
                (sym (apply_decision_accepted now d sc e)) (scaled-InLimits now d sc within h, refl)
          | inr (failure, e) ↦
              subst (λ r. InLimits r.1 × (r.1.policies ≡ sc.policies))
                (sym (apply_decision_refused now d sc failure e)) (h, refl)
        ]

    apply_all-InLimits :
        (now : ℕ) (ds : List ScalingDecision) (sc : AutoScaler F)
        → All (WithinLimits sc.policies) ds
        → InLimits sc
        → InLimits (apply_all on_scale now ds sc)
          × ((apply_all on_scale now ds sc).policies ≡ sc.policies)
    unfolding apply_all
    apply_all-InLimits now [] sc within h = (h, refl)
    apply_all-InLimits now (d ∷ ds) sc (first, within) h =
        let next = (apply_decision on_scale now d sc).1 in
        let (k, same) = apply_decision-InLimits now d sc first h in
        let (l, all_same) =
          apply_all-InLimits now ds next (subst (λ ps. All (WithinLimits ps) ds) (sym same) within)
            k in
        (l, all_same ∙ same)

  module _ (ops : Floats F) where
    evaluate_entries_undecided :
        (now : ℕ) (e : String × ScalingPolicy F) (es : Dict (ScalingPolicy F)) (sc : AutoScaler F)
        → evaluate_policy ops now e.0 e.1 sc ≡ none
        → evaluate_entries ops now (e ∷ es) sc ≡ evaluate_entries ops now es sc
    unfolding evaluate_entries
    evaluate_entries_undecided now e es sc made = rw (evaluate_entries, made) refl

    evaluate_entries_decided :
        (now : ℕ) (e : String × ScalingPolicy F) (es : Dict (ScalingPolicy F)) (sc : AutoScaler F)
        (d : ScalingDecision)
        → evaluate_policy ops now e.0 e.1 sc ≡ some d
        → evaluate_entries ops now (e ∷ es) sc ≡ d ∷ evaluate_entries ops now es sc
    unfolding evaluate_entries
    evaluate_entries_decided now e es sc d made = rw (evaluate_entries, made) refl

    evaluate_entries-WithinLimits :
        (now : ℕ) (es : Dict (ScalingPolicy F)) (sc : AutoScaler F)
        → InLimits sc
        → Each (λ k p. lookup k sc.policies ≡ some p) es
        → All (WithinLimits sc.policies) (evaluate_entries ops now es sc)
    unfolding evaluate_entries
    evaluate_entries-WithinLimits now [] sc h each = tt
    evaluate_entries-WithinLimits now (e ∷ es) sc h (found, each) =
        let ih = evaluate_entries-WithinLimits now es sc h each in
        elim (Option-cases (evaluate_policy ops now e.0 e.1 sc)) [
          | inl made ↦
              subst (All (WithinLimits sc.policies))
                (sym (evaluate_entries_undecided now e es sc made)) ih
          | inr (d, made) ↦
              let sound = evaluate_policy-IsSound ops now e.0 e.1 sc d made in
              let ordered = (h e.0 e.1 found).0 in
              let within : WithinLimits sc.policies d = λ policy there.
                let same : e.1 ≡ policy =
                  some-inj
                    (sym found ∙ ap (λ a. lookup a sc.policies) (sym sound.for_agent) ∙ there) in
                subst
                  (λ p. (p.min_instances ≤ d.desired_count) × (d.desired_count ≤ p.max_instances))
                  same (sound.in_limits ordered) in
              subst (All (WithinLimits sc.policies))
                (sym (evaluate_entries_decided now e es sc d made)) (within, ih)
        ]

    evaluate_agent_type_found :
        (now : ℕ) (agent : String) (policy : ScalingPolicy F) (sc : AutoScaler F)
        → lookup agent sc.policies ≡ some policy
        → evaluate_agent_type ops now agent sc ≡ evaluate_policy ops now agent policy sc
    unfolding evaluate_agent_type
    evaluate_agent_type_found now agent policy sc found = rw (evaluate_agent_type, found) refl

    evaluate_agent_type_rests :
        (now : ℕ) (agent : String) (policy : ScalingPolicy F) (sc : AutoScaler F)
        → lookup agent sc.policies ≡ some policy
        → in_cooldown now (lookup agent sc.last_scale_time) policy ≡ true
        → evaluate_agent_type ops now agent sc ≡ none
    evaluate_agent_type_rests now agent policy sc found resting =
        elim (Option-cases (evaluate_policy ops now agent policy sc)) [
          | inl made ↦ evaluate_agent_type_found now agent policy sc found ∙ made
          | inr (d, made) ↦
              let sound = evaluate_policy-IsSound ops now agent policy sc d made in
              absurd (ground (arith, resting, sound.rested))
        ]

  module _ {Failure : Type 0} (on_scale : String → Delta → Option Failure) (ops : Floats F) where
    -- The ticks of StartMonitoring, at the given times.
    unfoldable pub ticks : List ℕ → AutoScaler F → AutoScaler F
    ticks [] sc = sc
    ticks (now ∷ times) sc = ticks times (tick on_scale ops now sc)

    tick-InLimits :
        (now : ℕ) (sc : AutoScaler F)
        → IsMap sc.policies
        → InLimits sc
        → InLimits (tick on_scale ops now sc) × ((tick on_scale ops now sc).policies ≡ sc.policies)
    unfolding tick evaluate
    tick-InLimits now sc keys h =
        apply_all-InLimits on_scale now (evaluate ops now sc) sc
          (evaluate_entries-WithinLimits ops now sc.policies sc h (IsMap-Each sc.policies keys)) h

    -- However often the monitor ticks, and whichever of its decisions the callback refuses, the
    -- count of every registered type stays within the limits of its policy, when it starts there.
    pub ticks-InLimits :
        (times : List ℕ) (sc : AutoScaler F)
        → IsMap sc.policies
        → InLimits sc
        → InLimits (ticks times sc)
    unfolding ticks
    ticks-InLimits [] sc keys h = h
    ticks-InLimits (now ∷ times) sc keys h =
        let (k, same) = tick-InLimits now sc keys h in
        ticks-InLimits times (tick on_scale ops now sc) (subst IsMap (sym same) keys) k

    -- After a decision that the callback accepts, the type is not scaled again before the cooldown
    -- of its policy is over.
    pub evaluate_agent_type-apply_decision :
        (now later : ℕ) (d : ScalingDecision) (policy : ScalingPolicy F) (sc : AutoScaler F)
        → on_scale d.agent_type (difference d.desired_count d.current_count) ≡ none
        → lookup d.agent_type sc.policies ≡ some policy
        → now ≤ later
        → later < now + policy.cooldown_period
        → evaluate_agent_type ops later d.agent_type (apply_decision on_scale now d sc).1 ≡ none
    evaluate_agent_type-apply_decision now later d policy sc accepted found after soon =
        let scaled_now : lookup d.agent_type (insert d.agent_type now sc.last_scale_time)
            ≡ some now =
          ground (
            arith,
            lookup-insert sc.last_scale_time d.agent_type now d.agent_type,
            eq_refl d.agent_type,
          ) in
        subst (λ r. evaluate_agent_type ops later d.agent_type r.1 ≡ none)
          (sym (apply_decision_accepted on_scale now d sc accepted))
          (evaluate_agent_type_rests ops later d.agent_type policy (scaled on_scale now d sc) found
            (in_cooldown_lem now later policy
              (lookup d.agent_type (insert d.agent_type now sc.last_scale_time)) scaled_now after
              soon))
