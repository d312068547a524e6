-- ===== src/Performance/Balancer/Removal.antt =====
-- What RemoveInstance does to the round robin.
use syntor.Common.{
  ℕ, zero, suc, ◌+◌, ◌<◌, ◌≤◌, String, ◌≡◌, inl, inr, refl, ap, true, false, List, [], ◌∷◌, none,
  str_eq, ◌==◌, length, get_elem?, contains, arith, Bool-cases,
}
use syntor.Performance.Balancer.{
  Weights, LoadBalancer, remove_first, remove_instance, next_in_turn, next_instance,
}

length-remove_first :
    (id : String) (ids : List String)
    → contains id ids ≡ true
    → suc (length (remove_first id ids)) ≡ length ids
unfolding remove_first contains
length-remove_first id [] h = absurd (ground arith)
length-remove_first id (x ∷ ids) h = elim (Bool-cases (str_eq x id)) [
  | inl e ↦ rw e refl
  | inr e ↦
      let there : contains id ids ≡ true = ground (arith, e, h) in
      rw e (ap suc (length-remove_first id ids there))
]

get_elem?-beyond : (xs : List String) (i : ℕ) → length xs ≤ i → get_elem? xs i ≡ none
get_elem?-beyond [] i h = refl
get_elem?-beyond (x ∷ xs) zero h = absurd (omega arith)
get_elem?-beyond (x ∷ xs) (suc i) h = get_elem?-beyond xs i (omega arith)

module _ {W : Type 0} (ops : Weights W) where
  next_in_turn_beyond :
      (lb : LoadBalancer W) → length lb.instances ≤ lb.current_index → next_in_turn lb ≡ none
  unfolding next_in_turn
  next_in_turn_beyond lb h =
      rw (next_in_turn, get_elem?-beyond lb.instances lb.current_index h) refl

  -- When the round robin stands at the last of several instances, the removal of any one of them
  -- makes the next call index out of range, at which the program stops.
  pub next_instance-remove_instance :
      (id : String) (lb : LoadBalancer W)
      → str_eq lb.algorithm "weighted" ≡ false
      → contains id lb.instances ≡ true
      → lb.current_index + 1 ≡ length lb.instances
      → 0 < lb.current_index
      → next_instance ops (remove_instance id lb) ≡ none
  unfolding next_instance remove_instance
  next_instance-remove_instance id lb turns there last several =
      let n = length-remove_first id lb.instances there in
      let some_left : (length (remove_first id lb.instances) == 0) ≡ false =
        ground (arith, n, last, several) in
      rw (some_left, turns) (next_in_turn_beyond (remove_instance id lb) (omega (arith, n, last)))
