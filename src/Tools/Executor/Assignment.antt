-- ===== src/Tools/Executor/Assignment.antt =====
-- The results that ExecuteBatch assigns by index, in any order.
use syntor.Common.{
  ℕ, zero, suc, ◌<◌, ◌≡◌, ◌≢◌, ◌⊎◌, inl, inr, refl, sym, ap, subst, ◌∙◌, List, [], ◌∷◌, some,
  length, get_elem?, ◌==◌, All, Any, arith, Bool-cases,
}
use mathlib.Core.List.{Permᴰ}
use syntor.Tools.Executor.{set_result, set_results}

pub All-Permᴰ : {A : Type 0} (P : A → Type 0) (xs ys : List A) → Permᴰ xs ys → All P ys → All P xs
All-Permᴰ P _ _ Permᴰ.nil h = tt
All-Permᴰ P _ _ (Permᴰ.cons e p) (x, h) = (subst P (sym e) x, All-Permᴰ P _ _ p h)
All-Permᴰ P _ _ (Permᴰ.swap e f) (x, (y, h)) = (subst P (sym e) y, (subst P (sym f) x, h))
All-Permᴰ P _ _ (Permᴰ.trans p q) h = All-Permᴰ P _ _ p (All-Permᴰ P _ _ q h)

pub Any-Permᴰ : {A : Type 0} (P : A → Type 0) (xs ys : List A) → Permᴰ xs ys → Any P ys → Any P xs
Any-Permᴰ P _ _ Permᴰ.nil h = h
Any-Permᴰ P _ _ (Permᴰ.cons e p) (inl x) = inl (subst P (sym e) x)
Any-Permᴰ P _ _ (Permᴰ.cons e p) (inr h) = inr (Any-Permᴰ P _ _ p h)
Any-Permᴰ P _ _ (Permᴰ.swap e f) (inl x) = inr (inl (subst P (sym f) x))
Any-Permᴰ P _ _ (Permᴰ.swap e f) (inr (inl y)) = inl (subst P (sym e) y)
Any-Permᴰ P _ _ (Permᴰ.swap e f) (inr (inr h)) = inr (inr h)
Any-Permᴰ P _ _ (Permᴰ.trans p q) h = Any-Permᴰ P _ _ p (Any-Permᴰ P _ _ q h)

module _ {A : Type 0} where
  length-set_result : (i : ℕ) (r : A) (xs : List A) → length (set_result i r xs) ≡ length xs
  unfolding set_result
  length-set_result i r [] = refl
  length-set_result zero r (x ∷ xs) = refl
  length-set_result (suc i) r (x ∷ xs) = ap suc (length-set_result i r xs)

  pub length-set_results :
      (rs : List (ℕ × A)) (xs : List A) → length (set_results rs xs) ≡ length xs
  unfolding set_results
  length-set_results [] xs = refl
  length-set_results ((i, r) ∷ rs) xs =
      length-set_results rs (set_result i r xs) ∙ length-set_result i r xs

  get_elem?-set_result :
      (i : ℕ) (r : A) (xs : List A) → i < length xs → get_elem? (set_result i r xs) i ≡ some r
  unfolding set_result
  get_elem?-set_result i r [] h = absurd (omega arith)
  get_elem?-set_result zero r (x ∷ xs) h = refl
  get_elem?-set_result (suc i) r (x ∷ xs) h = get_elem?-set_result i r xs (omega arith)

  get_elem?-set_result_other :
      (i j : ℕ) (r : A) (xs : List A) → i ≢ j → get_elem? (set_result i r xs) j ≡ get_elem? xs j
  unfolding set_result
  get_elem?-set_result_other i j r [] h = refl
  get_elem?-set_result_other zero zero r (x ∷ xs) h = absurd (h refl)
  get_elem?-set_result_other zero (suc j) r (x ∷ xs) h = refl
  get_elem?-set_result_other (suc i) zero r (x ∷ xs) h = refl
  get_elem?-set_result_other (suc i) (suc j) r (x ∷ xs) h =
      get_elem?-set_result_other i j r xs (λ e. h (ap suc e))

  -- No result has the index: it stays.
  pub set_results_other :
      (rs : List (ℕ × A)) (xs : List A) (i : ℕ)
      → All (λ p. p.0 ≢ i) rs
      → get_elem? (set_results rs xs) i ≡ get_elem? xs i
  unfolding set_results
  set_results_other [] xs i h = refl
  set_results_other ((j, r) ∷ rs) xs i (differs, h) =
      set_results_other rs (set_result j r xs) i h ∙ get_elem?-set_result_other j i r xs differs

  elsewhere :
      (j : ℕ) (s : A) (rs : List (ℕ × A)) (xs : List A) (i : ℕ) (r : A)
      → j ≢ i
      → Any (λ p. p.0 ≡ i) ((j, s) ∷ rs) ⊎ (get_elem? xs i ≡ some r)
      → Any (λ p. p.0 ≡ i) rs ⊎ (get_elem? (set_result j s xs) i ≡ some r)
  elsewhere j s rs xs i r differs (inl (inl e)) = absurd (differs e)
  elsewhere j s rs xs i r differs (inl (inr h)) = inl h
  elsewhere j s rs xs i r differs (inr there) =
      inr (get_elem?-set_result_other j i s xs differs ∙ there)

  -- All results of the index are the one, and it is there already or among them.
  pub set_results_at :
      (rs : List (ℕ × A)) (xs : List A) (i : ℕ) (r : A)
      → i < length xs
      → All (λ p. p.0 ≡ i → p.1 ≡ r) rs
      → Any (λ p. p.0 ≡ i) rs ⊎ (get_elem? xs i ≡ some r)
      → get_elem? (set_results rs xs) i ≡ some r
  unfolding set_results
  set_results_at [] xs i r h all (inl none_left) = absurd none_left
  set_results_at [] xs i r h all (inr there) = there
  set_results_at ((j, s) ∷ rs) xs i r h (same, all) where_is =
      let inside : i < length (set_result j s xs) = omega (arith, length-set_result j s xs) in
      elim (Bool-cases (j == i)) [
        | inl e ↦
            let eq : j ≡ i = ground (arith, e) in
            let set : get_elem? (set_result j s xs) i ≡ some r =
              subst (λ k. get_elem? (set_result j s xs) k ≡ some s) eq
                (get_elem?-set_result j s xs (omega arith))
              ∙ ap some (same eq) in
            set_results_at rs (set_result j s xs) i r inside all (inr set)
        | inr n ↦
            let differs : j ≢ i = λ e. ground (arith, n, e) in
            set_results_at rs (set_result j s xs) i r inside all
              (elsewhere j s rs xs i r differs where_is)
      ]
