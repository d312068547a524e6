-- ===== src/Performance/Balancer/Rotation.antt =====
-- The round robin gives every instance its turn.
use syntor.Common.{
  ℕ, zero, suc, ◌+◌, ◌-◌, ◌%◌, ◌<◌, ◌≤◌, String, ◌≡◌, inl, inr, refl, sym, ap, subst, ◌∙◌, false,
  List, [], ◌∷◌, ◌++◌, Option, none, some, str_eq, ◌==◌, length, length-drop, get_elem?, take, drop,
  arith, Option-cases,
}
use native.Mathlib.Nat.{mod-eq_of_lt, mod_self}
use syntor.Performance.Balancer.{Weights, LoadBalancer, next_in_turn, next_instance}

get_elem?-drop :
    (xs : List String) (i : ℕ)
    → i < length xs
    → (x : String) × (get_elem? xs i ≡ some x) × (drop i xs ≡ x ∷ drop (suc i) xs)
get_elem?-drop [] i h = absurd (omega arith)
get_elem?-drop (x ∷ xs) zero h = (x, refl, refl)
get_elem?-drop (x ∷ xs) (suc i) h = get_elem?-drop xs i (omega arith)

get_elem?_nonempty :
    (xs : List String) (i : ℕ) (x : String) → get_elem? xs i ≡ some x → (length xs == 0) ≡ false
get_elem?_nonempty [] i x h = absurd (ground arith)
get_elem?_nonempty (y ∷ xs) i x h = ground arith

take-suc :
    (k : ℕ) (i : ℕ) (xs : List String) (x : String) (rest : List String)
    → drop i xs ≡ x ∷ rest
    → take (suc k) (drop i xs) ≡ x ∷ take k rest
take-suc k i xs x rest e = rw e refl

take-length : (xs : List String) → take (length xs) xs ≡ xs
take-length [] = refl
take-length (x ∷ xs) = ap (λ l. x ∷ l) (take-length xs)

module _ {W : Type 0} (ops : Weights W) where
  -- So many calls of Next, with what they return; `none` as soon as one is out of range.
  unfoldable pub next_times : ℕ → LoadBalancer W → Option (List String × LoadBalancer W)
  next_times zero lb = some ([], lb)
  next_times (suc n) lb = elim (next_instance ops lb) [
    | none ↦ none
    | some (id, lb) ↦ elim (next_times n lb) [ none ↦ none | some (ids, lb) ↦ some (id ∷ ids, lb) ]
  ]

  abbrev at_index : ℕ → LoadBalancer W → LoadBalancer W
  at_index i lb = record lb { current_index = i }

  next_in_turn_lem :
      (lb : LoadBalancer W) (id : String)
      → get_elem? lb.instances lb.current_index ≡ some id
      → next_in_turn lb ≡ some (id, at_index ((lb.current_index + 1) % length lb.instances) lb)
  unfolding next_in_turn
  next_in_turn_lem lb id found = rw (next_in_turn, found) refl

  next_instance_lem :
      (lb : LoadBalancer W) (id : String)
      → str_eq lb.algorithm "weighted" ≡ false
      → get_elem? lb.instances lb.current_index ≡ some id
      → next_instance ops lb ≡ some (id, at_index ((lb.current_index + 1) % length lb.instances) lb)
  unfolding next_instance
  next_instance_lem lb id turns found =
      let some_left : (length lb.instances == 0) ≡ false =
        get_elem?_nonempty lb.instances lb.current_index id found in
      rw (some_left, turns) (next_in_turn_lem lb id found)

  next_times-suc :
      (n : ℕ) (lb then_lb last : LoadBalancer W) (id : String) (ids : List String)
      → next_instance ops lb ≡ some (id, then_lb)
      → next_times n then_lb ≡ some (ids, last)
      → next_times (suc n) lb ≡ some (id ∷ ids, last)
  unfolding next_times
  next_times-suc n lb then_lb last id ids first later = rw (next_times, first, later) refl

  next_times-add :
      (m n : ℕ) (lb then_lb last : LoadBalancer W) (ids more : List String)
      → next_times m lb ≡ some (ids, then_lb)
      → next_times n then_lb ≡ some (more, last)
      → next_times (m + n) lb ≡ some (ids ++ more, last)
  unfolding next_times
  next_times-add zero n lb then_lb last ids more first later =
      let n_same : n ≡ zero + n = omega arith in
      let f : ◌≡◌ {A = List String × LoadBalancer W} ([], lb) (ids, then_lb) = ground arith in
      subst (λ m. next_times m lb ≡ some (ids ++ more, last)) n_same
        (subst (λ p. next_times n lb ≡ some (p.0 ++ more, last)) f
          (subst (λ p. next_times n p.1 ≡ some (more, last)) (sym f) later))
  next_times-add (suc m) n lb then_lb last ids more first later =
      elim (Option-cases (next_instance ops lb)) [
        | inl e ↦ absurd (
            let g : ◌≡◌ {A = Option (List String × LoadBalancer W)} none (some (ids, then_lb)) =
              sym (rw (next_times, e) refl) ∙ first in
            ground arith)
        | inr ((id, l), e) ↦ elim (Option-cases (next_times m l)) [
          | inl f ↦ absurd (
              let g : ◌≡◌ {A = Option (List String × LoadBalancer W)} none (some (ids, then_lb)) =
                sym (rw (next_times, e, f) refl) ∙ first in
              ground arith)
          | inr ((rest, k), f) ↦
              let g : ◌≡◌ {A = Option (List String × LoadBalancer W)} (some (id ∷ rest, k))
                  (some (ids, then_lb)) =
                sym (next_times-suc m lb l k id rest e f) ∙ first in
              let h : ◌≡◌ {A = List String × LoadBalancer W} (id ∷ rest, k) (ids, then_lb) =
                ground arith in
              let ih =
                next_times-add m n l k last rest more f
                  (subst (λ b. next_times n b ≡ some (more, last)) (sym (ap (λ p. p.1) h)) later) in
              let moved : suc (m + n) ≡ suc m + n = omega arith in
              subst (λ n. next_times n lb ≡ some (ids ++ more, last)) moved
                (subst (λ p. next_times (suc (m + n)) lb ≡ some (p.0 ++ more, last)) h
                  (next_times-suc (m + n) lb l last id (rest ++ more) e ih))
        ]
      ]

  -- Calls that do not pass the end return the instances from the index on.
  next_times_turn :
      (k i : ℕ) (lb : LoadBalancer W)
      → str_eq lb.algorithm "weighted" ≡ false
      → i < length lb.instances
      → i + k ≤ length lb.instances
      → next_times k (at_index i lb)
        ≡ some (take k (drop i lb.instances), at_index ((i + k) % length lb.instances) lb)
  unfolding next_times
  next_times_turn zero i lb turns inside fits =
      let same : i ≡ (i + 0) % length lb.instances =
        omega arith ∙ sym (mod-eq_of_lt (omega arith)) in
      ap (λ j. some ([], at_index j lb)) same
  next_times_turn (suc zero) i lb turns inside fits =
      let (x, found, dropped) = get_elem?-drop lb.instances i inside in
      let first = next_instance_lem (at_index i lb) x turns found in
      subst
        (λ l.
          next_times 1 (at_index i lb)
          ≡ some (take 1 l, at_index ((i + 1) % length lb.instances) lb))
        (sym dropped)
        (next_times-suc 0 (at_index i lb) (at_index ((i + 1) % length lb.instances) lb)
          (at_index ((i + 1) % length lb.instances) lb) x [] first refl)
  next_times_turn (suc (suc k)) i lb turns inside fits =
      let (x, found, dropped) = get_elem?-drop lb.instances i inside in
      let first = next_instance_lem (at_index i lb) x turns found in
      let after : (i + 1) % length lb.instances ≡ suc i =
        mod-eq_of_lt (omega arith) ∙ omega arith in
      let moved : suc i + suc k ≡ i + suc (suc k) = omega arith in
      let ih = next_times_turn (suc k) (suc i) lb turns (omega arith) (omega arith) in
      subst
        (λ l.
          next_times (suc (suc k)) (at_index i lb)
          ≡ some (take (suc (suc k)) l, at_index ((i + suc (suc k)) % length lb.instances) lb))
        (sym dropped)
        (next_times-suc (suc k) (at_index i lb) (at_index (suc i) lb)
          (at_index ((i + suc (suc k)) % length lb.instances) lb) x
          (take (suc k) (drop (suc i) lb.instances))
          (subst (λ j. next_instance ops (at_index i lb) ≡ some (x, at_index j lb)) after first)
          (subst
            (λ m.
              next_times (suc k) (at_index (suc i) lb)
              ≡ some
                  (take (suc k) (drop (suc i) lb.instances), at_index (m % length lb.instances) lb))
            moved ih))

  -- In the round robin, from an index within the instances, as many calls as there are instances
  -- return each of them in turn, from the index on and then from the front, and leave the balancer as
  -- it was, so that further calls repeat them.
  pub next_times_round :
      (lb : LoadBalancer W)
      → str_eq lb.algorithm "weighted" ≡ false
      → lb.current_index < length lb.instances
      → next_times (length lb.instances) lb
        ≡ some (drop lb.current_index lb.instances ++ take lb.current_index lb.instances, lb)
  next_times_round lb turns inside =
      let n = length lb.instances in
      let i = lb.current_index in
      let whole : (n - i) + i ≡ n = omega arith in
      let wrap : (i + (n - i)) % n ≡ 0 = ap (λ m. m % n) (omega arith) ∙ mod_self n in
      let same : (0 + i) % n ≡ i = ap (λ m. m % n) (omega arith) ∙ mod-eq_of_lt inside in
      let rest : take (n - i) (drop i lb.instances) ≡ drop i lb.instances =
        ap (λ m. take m (drop i lb.instances)) (sym (length-drop i lb.instances))
        ∙ take-length (drop i lb.instances) in
      let first = next_times_turn (n - i) i lb turns inside (omega arith) in
      let second = next_times_turn i 0 lb turns (omega arith) (omega arith) in
      subst (λ m. next_times m lb ≡ some (drop i lb.instances ++ take i lb.instances, lb)) whole
        (next_times-add (n - i) i lb (at_index 0 lb) lb (drop i lb.instances) (take i lb.instances)
          (subst (λ l. next_times (n - i) lb ≡ some (l, at_index 0 lb)) rest
            (subst
              (λ j.
                next_times (n - i) lb ≡ some (take (n - i) (drop i lb.instances), at_index j lb))
              wrap first))
          (subst (λ j. next_times i (at_index 0 lb) ≡ some (take i lb.instances, at_index j lb))
            same second))
