-- ===== src/Performance/Balancer.antt =====
-- LoadBalancer of pkg/performance/scaling.go.
-- Weights are float64: their operations and the random draw are a `Weights` record.
pub mod Rotation
pub mod Removal
mod Tests
use syntor.Common.{
  ℕ, zero, suc, ◌+◌, ◌-◌, ◌%◌, String, Bool, List, [], ◌∷◌, ◌++◌, Option, none, some, str_eq, ◌==◌,
  if◌then◌else◌, length, get_elem?,
}
use syntor.Common.Dict.{Dict, lookup, insert, delete}

-- What the source uses of float64.
pub record Weights (W : Type 0) : Type 0 where
  pub zero_weight : W
  pub add_weight : W → W → W
  pub le_weight : W → W → Bool
  pub times_random : W → W

pub record LoadBalancer (W : Type 0) : Type 0 where
  pub instances : List String
  pub weights : Dict W
  pub current_index : ℕ
  pub algorithm : String

-- NewLoadBalancer
unfoldable pub new_load_balancer : (W : Type 0) → String → LoadBalancer W
new_load_balancer W algorithm = record {
  instances = [];
  weights = [];
  current_index = 0;
  algorithm = if str_eq algorithm "" then "round-robin" else algorithm;
}

-- The loop of RemoveInstance: the first occurrence goes.
unfoldable pub remove_first : String → List String → List String
remove_first id [] = []
remove_first id (inst ∷ rest) =
    let kept = inst ∷ remove_first id rest in if str_eq inst id then rest else kept

module _ {W : Type 0} where
  -- AddInstance
  unfoldable pub add_instance : String → W → LoadBalancer W → LoadBalancer W
  add_instance id weight lb = record lb {
    instances = lb.instances ++ id ∷ [];
    weights = insert id weight lb.weights;
  }

  -- RemoveInstance
  unfoldable pub remove_instance : String → LoadBalancer W → LoadBalancer W
  unfolding remove_first
  remove_instance id lb = record lb {
    instances = remove_first id lb.instances;
    weights = delete id lb.weights;
  }

  -- `lb.weights[id]`
  unfoldable pub weight_of : Weights W → LoadBalancer W → String → W
  weight_of ops lb id = elim (lookup id lb.weights) [ none ↦ ops.zero_weight | some w ↦ w ]

  -- The first loop of weightedSelect
  unfoldable pub total_weight : Weights W → LoadBalancer W → List String → W → W
  unfolding weight_of
  total_weight ops lb [] sum = sum
  total_weight ops lb (id ∷ ids) sum =
      total_weight ops lb ids (ops.add_weight sum (weight_of ops lb id))

  -- The second loop of weightedSelect
  unfoldable pub reach : Weights W → LoadBalancer W → W → List String → W → Option String
  unfolding weight_of
  reach ops lb r [] cumulative = none
  reach ops lb r (id ∷ ids) cumulative =
      let sum = ops.add_weight cumulative (weight_of ops lb id) in
      let later = reach ops lb r ids sum in if ops.le_weight r sum then some id else later

  -- weightedSelect: `none` is an index out of range.
  unfoldable pub weighted_select : Weights W → LoadBalancer W → Option String
  unfolding reach total_weight
  weighted_select ops lb =
      let r = ops.times_random (total_weight ops lb lb.instances ops.zero_weight) in
      elim (reach ops lb r lb.instances ops.zero_weight) [
        | none ↦ get_elem? lb.instances (length lb.instances - 1)
        | some id ↦ some id
      ]

  -- The round robin of Next
  unfoldable pub next_in_turn : LoadBalancer W → Option (String × LoadBalancer W)
  next_in_turn lb = elim (get_elem? lb.instances lb.current_index) [
    | none ↦ none
    | some instance_id ↦
        some
          (instance_id, record lb { current_index = (lb.current_index + 1) % length lb.instances })
  ]

  unfoldable pub next_weighted : Weights W → LoadBalancer W → Option (String × LoadBalancer W)
  unfolding weighted_select
  next_weighted ops lb = elim (weighted_select ops lb) [ none ↦ none | some id ↦ some (id, lb) ]

  -- Next: `none` is an index out of range, at which the program stops.
  unfoldable pub next_instance : Weights W → LoadBalancer W → Option (String × LoadBalancer W)
  unfolding next_in_turn next_weighted
  next_instance ops lb =
      if length lb.instances == 0
      then some ("", lb)
      else if str_eq lb.algorithm "weighted"
      then next_weighted ops lb
      else next_in_turn lb
