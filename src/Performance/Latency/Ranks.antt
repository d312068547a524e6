-- ===== src/Performance/Latency/Ranks.antt =====
-- The samples that a tracker keeps, and its percentiles.
use syntor.Common.{
  ℕ, zero, suc, ◌+◌, ◌-◌, ◌≤◌, ◌<◌, ◌≡◌, inl, inr, refl, sym, ap, subst, ◌∙◌, false, List, [], ◌∷◌,
  ◌++◌, some, leb, ◌==◌, length, drop, get_elem?, length-append, length-drop, arith, Bool-cases,
  All, Any, All-mono,
}
use mathlib.Core.List.{append-nil, append_assoc}
use syntor.Performance.Latency.{
  LatencyTracker, new_latency_tracker, record_latency, bubble, rounds, sort_samples, percentile,
}
use syntor.Performance.Latency.Sorting.{IsAscending, sort_samples_lem}

unfoldable pub record_all : List ℕ → LatencyTracker → LatencyTracker
record_all [] lt = lt
record_all (s ∷ ss) lt = record_all ss (record_latency s lt)

drop-drop_one : (n : ℕ) (xs : List ℕ) → drop 1 (drop n xs) ≡ drop (suc n) xs
drop-drop_one zero [] = refl
drop-drop_one zero (x ∷ xs) = refl
drop-drop_one (suc n) [] = refl
drop-drop_one (suc n) (x ∷ xs) = drop-drop_one n xs

drop-nil : (n : ℕ) → drop {A = ℕ} n [] ≡ []
drop-nil zero = refl
drop-nil (suc n) = refl

drop-append : (n : ℕ) (xs ys : List ℕ) → n ≤ length xs → drop n xs ++ ys ≡ drop n (xs ++ ys)
drop-append zero xs ys h = refl
drop-append (suc n) [] ys h = absurd (omega arith)
drop-append (suc n) (x ∷ xs) ys h = drop-append n xs ys (omega arith)

-- The tracker keeps the newest of all the samples.
abbrev pub IsWindow : List ℕ → LatencyTracker → Type 0
IsWindow all lt = lt.samples ≡ drop (length all - lt.max_samples) all

record_latency-IsWindow :
    (all : List ℕ) (s : ℕ) (lt : LatencyTracker)
    → 0 < lt.max_samples
    → IsWindow all lt
    → IsWindow (all ++ s ∷ []) (record_latency s lt)
      × ((record_latency s lt).max_samples ≡ lt.max_samples)
unfolding record_latency
record_latency-IsWindow all s lt pos w =
    let n = length-append all (s ∷ []) in
    let old = length all - lt.max_samples in
    let l : length lt.samples ≡ length all - old = ap length w ∙ length-drop old all in
    let m : length (all ++ s ∷ []) ≡ length all + 1 = omega (arith, n) in
    elim (Bool-cases (leb lt.max_samples (length lt.samples))) [
      | inl full ↦
          let next : length (all ++ s ∷ []) - lt.max_samples ≡ suc old = ground (arith, l, m) in
          let dropped : drop 1 lt.samples ≡ drop (suc old) all =
            ap (drop 1) w ∙ drop-drop_one old all in
          let fits : suc old ≤ length all = ground (arith, l) in
          (rw (full, next, dropped, sym (drop-append (suc old) all (s ∷ []) fits)) refl, refl)
      | inr room ↦
          let next : length (all ++ s ∷ []) - lt.max_samples ≡ old = ground (arith, l, m) in
          let fits : old ≤ length all = omega arith in
          (rw (room, next, w, sym (drop-append old all (s ∷ []) fits)) refl, refl)
    ]

record_all-IsWindow :
    (all new : List ℕ) (lt : LatencyTracker)
    → 0 < lt.max_samples
    → IsWindow all lt
    → IsWindow (all ++ new) (record_all new lt) × ((record_all new lt).max_samples ≡ lt.max_samples)
unfolding record_all
record_all-IsWindow all [] lt pos w =
    (w ∙ ap (λ xs. drop (length xs - lt.max_samples) xs) (sym (append-nil all)), refl)
record_all-IsWindow all (s ∷ ss) lt pos w =
    let (next, same) = record_latency-IsWindow all s lt pos w in
    let (ih, max) =
      record_all-IsWindow (all ++ s ∷ []) ss (record_latency s lt)
        (subst (λ m. 0 < m) (sym same) pos) next in
    (
      subst (λ xs. IsWindow xs (record_all ss (record_latency s lt))) (append_assoc all (s ∷ []) ss)
          ih,
      max ∙ same,
    )

length-bubble : (k : ℕ) (xs : List ℕ) → length (bubble k xs) ≡ length xs
unfolding bubble
length-bubble zero xs = refl
length-bubble (suc k) [] = refl
length-bubble (suc k) (x ∷ []) = refl
length-bubble (suc k) (x ∷ y ∷ rest) =
    let a = length-bubble k (x ∷ rest) in let b = length-bubble k (y ∷ rest) in ground arith

length-rounds : (k : ℕ) (xs : List ℕ) → length (rounds k xs) ≡ length xs
unfolding rounds
length-rounds zero xs = refl
length-rounds (suc k) xs = length-rounds k (bubble (suc k) xs) ∙ length-bubble (suc k) xs

bubble-All : (P : ℕ → Type 0) (k : ℕ) (xs : List ℕ) → All P xs → All P (bubble k xs)
unfolding bubble
bubble-All P zero xs h = h
bubble-All P (suc k) [] h = h
bubble-All P (suc k) (x ∷ []) h = h
bubble-All P (suc k) (x ∷ y ∷ rest) (hx, (hy, h)) =
    let a = bubble-All P k (x ∷ rest) (hx, h) in
    let b = bubble-All P k (y ∷ rest) (hy, h) in ground arith

rounds-All : (P : ℕ → Type 0) (k : ℕ) (xs : List ℕ) → All P xs → All P (rounds k xs)
unfolding rounds
rounds-All P zero xs h = h
rounds-All P (suc k) xs h = rounds-All P k (bubble (suc k) xs) (bubble-All P (suc k) xs h)

get_elem?-some : (xs : List ℕ) (i : ℕ) → i < length xs → (v : ℕ) × (get_elem? xs i ≡ some v)
get_elem?-some [] i h = absurd (omega arith)
get_elem?-some (x ∷ xs) zero h = (x, refl)
get_elem?-some (x ∷ xs) (suc i) h = get_elem?-some xs i (omega arith)

get_elem?-All : (P : ℕ → Type 0) (xs : List ℕ) (i v : ℕ) → All P xs → get_elem? xs i ≡ some v → P v
get_elem?-All P [] i v h e = absurd (ground arith)
get_elem?-All P (x ∷ xs) zero v h e = let k : x ≡ v = ground arith in subst P k h.0
get_elem?-All P (x ∷ xs) (suc i) v h e = get_elem?-All P xs i v h.1 e

get_elem?-le :
    (xs : List ℕ) (i j v w : ℕ)
    → IsAscending xs
    → i ≤ j
    → get_elem? xs i ≡ some v
    → get_elem? xs j ≡ some w
    → v ≤ w
get_elem?-le [] i j v w s h e f = absurd (ground arith)
get_elem?-le (x ∷ xs) zero zero v w s h e f = ground arith
get_elem?-le (x ∷ xs) zero (suc j) v w s h e f =
    let k : x ≡ v = ground arith in subst (λ v. v ≤ w) k (get_elem?-All (λ y. x ≤ y) xs j w s.0 f)
get_elem?-le (x ∷ xs) (suc i) zero v w s h e f = absurd (omega arith)
get_elem?-le (x ∷ xs) (suc i) (suc j) v w s h e f = get_elem?-le xs i j v w s.1 (omega arith) e f

-- After any latencies, a new tracker of a positive size holds the newest of them in the order
-- they came, as many as its size and all of them when they are fewer.
pub record_all-samples :
    (max : ℕ) (new : List ℕ)
    → 0 < max
    → (record_all new (new_latency_tracker max)).samples ≡ drop (length new - max) new
unfolding new_latency_tracker
record_all-samples max new pos =
    let m : (new_latency_tracker max).max_samples ≡ max = ground arith in
    let (kept, same) =
      record_all-IsWindow [] new (new_latency_tracker max) (omega (arith, m))
        (sym (drop-nil (0 - (new_latency_tracker max).max_samples))) in
    subst (λ n. (record_all new (new_latency_tracker max)).samples ≡ drop (length new - n) new)
      (same ∙ m) kept

member_self : (xs : List ℕ) → All (λ v. Any (λ s. s ≡ v) xs) xs
member_self [] = tt
member_self (x ∷ xs) = (
  inl refl,
  All-mono (λ v. Any (λ s. s ≡ v) xs) (λ v. Any (λ s. s ≡ v) (x ∷ xs)) xs (λ v h. inr h)
      (member_self xs),
)

module _ {Percent : Type 0} (rank : ℕ → Percent → ℕ) where
  -- A percentile of a tracker with samples is one of its samples, whenever the rank lies within
  -- them; of two percentiles, the one with the higher rank is at least the other.
  pub percentile_lem :
      (p q : Percent) (lt : LatencyTracker)
      → 0 < length lt.samples
      → rank (length lt.samples - 1) p ≤ rank (length lt.samples - 1) q
      → rank (length lt.samples - 1) q ≤ length lt.samples - 1
      → (v w : ℕ) × (percentile rank p lt ≡ some v)
        × (percentile rank q lt ≡ some w)
        × Any (λ s. s ≡ v) lt.samples
        × Any (λ s. s ≡ w) lt.samples
        × (v ≤ w)
  unfolding percentile sort_samples
  percentile_lem p q lt pos le within =
      let n = length lt.samples in
      let l : length (sort_samples lt.samples) ≡ n = length-rounds (n - 1) lt.samples in
      let (v, e) = get_elem?-some (sort_samples lt.samples) (rank (n - 1) p) (omega (arith, l)) in
      let (w, f) = get_elem?-some (sort_samples lt.samples) (rank (n - 1) q) (omega (arith, l)) in
      let among =
        rounds-All (λ v. Any (λ s. s ≡ v) lt.samples) (n - 1) lt.samples (member_self lt.samples) in
      let there : (n == 0) ≡ false = ground arith in
      (
        v,
        w,
        rw there e,
        rw there f,
        get_elem?-All (λ v. Any (λ s. s ≡ v) lt.samples) (sort_samples lt.samples) (rank (n - 1) p)
            v among e,
        get_elem?-All (λ v. Any (λ s. s ≡ v) lt.samples) (sort_samples lt.samples) (rank (n - 1) q)
            w among f,
        get_elem?-le (sort_samples lt.samples) (rank (n - 1) p) (rank (n - 1) q) v w
            (sort_samples_lem lt.samples).0 le e f,
      )
