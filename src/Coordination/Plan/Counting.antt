-- ===== src/Coordination/Plan/Counting.antt =====
-- Sets of step numbers as lists without repetitions, and their sizes.
use syntor.Common.{
  ℕ, suc, ◌≤◌, ◌≡◌, ◌⊎◌, inl, inr, ap, subst, true, false, List, [], ◌∷◌, ◌==◌, if◌then◌else◌,
  length, arith, Bool-cases,
}
use syntor.Coordination.Plan.{is_done}

-- No number stands in the list twice.
abbrev pub IsDistinct : List ℕ → Type 0
IsDistinct [] = Unit
IsDistinct (n ∷ ns) = (is_done n ns ≡ false) × IsDistinct ns

-- The list without the first place of the number.
remove : ℕ → List ℕ → List ℕ
remove n [] = []
remove n (m ∷ ms) = let others = m ∷ remove n ms in if m == n then ms else others

length-remove : (n : ℕ) (ms : List ℕ) → is_done n ms ≡ true → length ms ≡ suc (length (remove n ms))
unfolding is_done remove
length-remove n [] e = absurd (ground arith)
length-remove n (m ∷ ms) e = let ih = length-remove n ms in ground (arith, ih)

is_done-remove :
    (n k : ℕ) (ms : List ℕ)
    → (is_done k (remove n ms) ≡ true → is_done k ms ≡ true)
      × (is_done k ms ≡ true → (k ≡ n) ⊎ (is_done k (remove n ms) ≡ true))
unfolding is_done remove
is_done-remove n k [] = (λ e. absurd (ground arith), λ e. absurd (ground arith))
is_done-remove n k (m ∷ ms) = let ih = is_done-remove n k ms in ground (arith, ih)

remove-IsDistinct :
    (n : ℕ) (ms : List ℕ)
    → IsDistinct (remove n ms)
    → is_done n (remove n ms) ≡ false
    → IsDistinct ms
unfolding is_done remove
remove-IsDistinct n [] d e = tt
remove-IsDistinct n (m ∷ ms) d e =
    let kept = is_done-remove n m ms in
    elim (Bool-cases (m == n)) [
      | inl same ↦
          let gone : remove n (m ∷ ms) ≡ ms = ground arith in
          let p : m ≡ n = ground arith in
          let e' = ap (is_done n) gone in
          let q = ap (λ k. is_done k ms) p in (ground (arith, e', q), subst IsDistinct gone d)
      | inr other ↦
          let stays : remove n (m ∷ ms) ≡ m ∷ remove n ms = ground arith in
          let (new, d') = subst IsDistinct stays d in
          let e' : is_done n (m ∷ remove n ms) ≡ false = subst (λ l. is_done n l ≡ false) stays e in
          (ground arith, remove-IsDistinct n ms d' (ground arith))
    ]

-- Distinct numbers that are all in a list no longer than they fill it, and it repeats none.
pub pigeonhole :
    (xs ys : List ℕ)
    → IsDistinct xs
    → ((n : ℕ) → is_done n xs ≡ true → is_done n ys ≡ true)
    → length ys ≤ length xs
    → ((n : ℕ) → is_done n ys ≡ true → is_done n xs ≡ true) × IsDistinct ys
unfolding is_done
pigeonhole [] [] d sub short = (λ n e. e, tt)
pigeonhole [] (y ∷ ys) d sub short = absurd (omega arith)
pigeonhole (x ∷ xs) ys (new, d) sub short =
    let there : is_done x ys ≡ true = sub x (ground arith) in
    let l = length-remove x ys there in
    let (back, distinct) =
      pigeonhole xs (remove x ys) d
        (λ n e.
          let k = (is_done-remove x n ys).1 (sub n (ground arith)) in
          elim k [ inl p ↦ absurd (ground (arith, ap (λ n. is_done n xs) p)) | inr r ↦ r ])
        (omega arith) in
    (
      λ n e. elim ((is_done-remove x n ys).1 e) [
        | inl p ↦ ground (arith, p)
        | inr r ↦ let b = back n r in ground arith
      ],
      remove-IsDistinct x ys distinct (elim (Bool-cases (is_done x (remove x ys))) [
        | inl still ↦ let again = back x still in absurd (ground arith)
        | inr gone ↦ gone
      ]),
    )

-- Distinct numbers that are all in a list are no more than the list has.
pub length_le :
    (xs ys : List ℕ)
    → IsDistinct xs
    → ((n : ℕ) → is_done n xs ≡ true → is_done n ys ≡ true)
    → length xs ≤ length ys
unfolding is_done
length_le [] ys d sub = omega arith
length_le (x ∷ xs) ys (new, d) sub =
    let there : is_done x ys ≡ true = sub x (ground arith) in
    let l = length-remove x ys there in
    let ih = length_le xs (remove x ys) d (λ n e.
      elim ((is_done-remove x n ys).1 (sub n (ground arith))) [
        | inl p ↦ absurd (ground (arith, ap (λ n. is_done n xs) p))
        | inr r ↦ r
      ]) in
    omega arith
