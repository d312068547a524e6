-- ===== src/Performance/Latency/Sorting.antt =====
-- The sort of the samples is a sort.
use syntor.Common.{
  ℕ, zero, suc, ◌+◌, ◌-◌, ◌≤◌, ◌≡◌, inl, inr, refl, sym, ap, subst, List, [], ◌∷◌, ◌++◌, ltb,
  length, arith, Bool-cases, All,
}
use mathlib.Core.List.{Perm, append-nil, append_assoc}
use mathlib.Core.List.Perm
use syntor.Performance.Latency.{bubble, rounds, sort_samples}

All-both : (P Q : ℕ → Type 0) (xs : List ℕ) → All P xs → All Q xs → All (λ x. P x × Q x) xs
All-both P Q [] p q = tt
All-both P Q (x ∷ xs) (p, ps) (q, qs) = ((p, q), All-both P Q xs ps qs)

-- Each number is at most every later one.
abbrev pub IsAscending : List ℕ → Type 0
IsAscending [] = Unit
IsAscending (x ∷ xs) = All (λ y. x ≤ y) xs × IsAscending xs

-- A round of so many comparisons on one number more moves the greatest to the end.
abbrev IsBubbled : ℕ → List ℕ → List ℕ → Type 1
IsBubbled k xs tail =
    (init : List ℕ) × (max : ℕ) × (bubble k (xs ++ tail) ≡ init ++ max ∷ tail)
    × (length init ≡ k)
    × Perm (init ++ max ∷ []) xs
    × All (λ x. x ≤ max) init
    × All (λ x. x ≤ max) xs
    × ((P : ℕ → Type 0) → All P xs → All P init × P max)

bubble-IsBubbled : (k : ℕ) (xs tail : List ℕ) → length xs ≡ k + 1 → IsBubbled k xs tail
unfolding bubble
bubble-IsBubbled zero [] tail n = absurd (omega arith)
bubble-IsBubbled zero (x ∷ []) tail n =
    ([], x, refl, refl, Perm.rfl, tt, (omega arith, tt), λ P h. (tt, h.0))
bubble-IsBubbled zero (x ∷ y ∷ xs) tail n = absurd (omega arith)
bubble-IsBubbled (suc k) [] tail n = absurd (omega arith)
bubble-IsBubbled (suc k) (x ∷ []) tail n = absurd (omega arith)
bubble-IsBubbled (suc k) (x ∷ y ∷ rest) tail n = elim (Bool-cases (ltb y x)) [
  | inl less ↦
      let (init, max, e, l, p, below, all, carry) =
        bubble-IsBubbled k (x ∷ rest) tail (omega arith) in
      (
        y ∷ init,
        max,
        rw less (ap (λ zs. y ∷ zs) e),
        omega (arith, l),
        Perm.trans (Perm.cons y p) (Perm.swap x y rest),
        (ground arith, below),
        (all.0, (ground arith, all.1)),
        λ P h. let (hi, hm) = carry P (h.0, h.1.1) in ((h.1.0, hi), hm),
      )
  | inr more ↦
      let (init, max, e, l, p, below, all, carry) =
        bubble-IsBubbled k (y ∷ rest) tail (omega arith) in
      (
        x ∷ init,
        max,
        rw more (ap (λ zs. x ∷ zs) e),
        omega (arith, l),
        Perm.cons x p,
        (ground arith, below),
        (ground arith, all),
        λ P h. let (hi, hm) = carry P h.1 in ((h.0, hi), hm),
      )
]

rounds-sort :
    (k : ℕ) (xs tail : List ℕ)
    → length xs ≡ k + 1
    → IsAscending tail
    → All (λ x. All (λ t. x ≤ t) tail) xs
    → IsAscending (rounds k (xs ++ tail)) × Perm (rounds k (xs ++ tail)) (xs ++ tail)
unfolding rounds
rounds-sort zero [] tail n asc h = absurd (omega arith)
rounds-sort zero (x ∷ []) tail n asc h = ((h.0, asc), Perm.rfl)
rounds-sort zero (x ∷ y ∷ xs) tail n asc h = absurd (omega arith)
rounds-sort (suc k) xs tail n asc h =
    let (init, max, e, l, p, below, all, carry) = bubble-IsBubbled (suc k) xs tail n in
    let (hi, hm) = carry (λ x. All (λ t. x ≤ t) tail) h in
    let (sorted, perm) =
      rounds-sort k init (max ∷ tail) (omega (arith, l)) (hm, asc)
        (All-both (λ x. x ≤ max) (λ x. All (λ t. x ≤ t) tail) init below hi) in
    let regroup : (init ++ max ∷ []) ++ tail ≡ init ++ max ∷ tail =
      append_assoc init (max ∷ []) tail in
    let back : Perm (init ++ max ∷ tail) (xs ++ tail) =
      subst (λ zs. Perm zs (xs ++ tail)) regroup (Perm.append_right tail p) in
    (
      subst (λ zs. IsAscending (rounds k zs)) (sym e) sorted,
      subst (λ zs. Perm (rounds k zs) (xs ++ tail)) (sym e) (Perm.trans perm back),
    )

nothing_after : (xs : List ℕ) → All (λ x. All (λ t. x ≤ t) []) xs
nothing_after [] = tt
nothing_after (x ∷ xs) = (tt, nothing_after xs)

-- The nested loops of Percentile sort: the result is in ascending order and has the same samples,
-- each as often.
pub sort_samples_lem : (xs : List ℕ) → IsAscending (sort_samples xs) × Perm (sort_samples xs) xs
unfolding sort_samples rounds
sort_samples_lem [] = (tt, Perm.rfl)
sort_samples_lem (x ∷ xs) =
    let one_less : length xs ≡ length (x ∷ xs) - 1 = omega arith in
    subst (λ k. IsAscending (rounds k (x ∷ xs)) × Perm (rounds k (x ∷ xs)) (x ∷ xs)) one_less
      (subst (λ zs. IsAscending (rounds (length xs) zs) × Perm (rounds (length xs) zs) zs)
        (append-nil (x ∷ xs))
        (rounds-sort (length xs) (x ∷ xs) [] (omega arith) tt (nothing_after (x ∷ xs))))
