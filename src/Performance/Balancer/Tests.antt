-- ===== src/Performance/Balancer/Tests.antt =====
-- Runs of the load balancer.
use syntor.Common.{ℕ, ◌+◌, ◌≡◌, refl, [], ◌∷◌, none, some, leb, contains, arith}
use syntor.Common.Dict.{lookup, insert}
use syntor.Performance.Balancer.{
  Weights, LoadBalancer, new_load_balancer, add_instance, remove_instance, next_instance,
}
use syntor.Performance.Balancer.Rotation.{next_times, next_times_round}
use syntor.Performance.Balancer.Removal.{next_instance-remove_instance}

-- Weights in whole numbers, with the draw in the middle.
abbrev whole : Weights ℕ
whole = record {
  zero_weight = 0;
  add_weight = λ a b. a + b;
  le_weight = leb;
  times_random = λ w. w;
}

abbrev three_instances : LoadBalancer ℕ
unfolding add_instance new_load_balancer
three_instances =
    record (add_instance "c" 1 (add_instance "b" 1 (add_instance "a" 1 (new_load_balancer ℕ "")))) {
      current_index = 2;
    }

heaviest :
    next_instance whole (record three_instances { algorithm = "weighted" })
    ≡ some ("c", record three_instances { algorithm = "weighted" })
unfolding next_instance three_instances lookup insert
heaviest = refl

next_times_round_example :
    next_times whole 3 three_instances ≡ some ("c" ∷ "a" ∷ "b" ∷ [], three_instances)
unfolding three_instances
next_times_round_example = next_times_round whole three_instances refl (omega arith)

next_instance-remove_instance_example :
    next_instance whole (remove_instance "a" three_instances) ≡ none
unfolding three_instances contains
next_instance-remove_instance_example =
    next_instance-remove_instance whole "a" three_instances refl refl refl (omega arith)
