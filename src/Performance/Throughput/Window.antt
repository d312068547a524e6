-- ===== src/Performance/Throughput/Window.antt =====
-- The increments that a counter holds are those of its window.
use syntor.Common.{
  ℕ, zero, suc, ◌≤◌, ◌<◌, ◌≡◌, inl, inr, refl, sym, ap, ap₂, subst, ◌∙◌, true, false, List, [], ◌∷◌,
  ◌++◌, map, ◌==◌, if◌then◌else◌, length, drop, arith, Bool-cases, All,
}
use mathlib.Core.List.{append-nil, append_assoc}
use syntor.Performance.Latency.{total}
use syntor.Performance.Throughput.{
  ThroughputCounter, new_throughput_counter, is_recent, first_recent, cleanup, increment, rate,
}

-- The increments of a history, each with its time, that lie in the window before the time.
unfoldable pub in_window : ℕ → ℕ → List (ℕ × ℕ) → List (ℕ × ℕ)
unfolding is_recent
in_window now window [] = []
in_window now window (e ∷ es) =
    let rest = in_window now window es in if is_recent now window e.0 then e ∷ rest else rest

-- The times of a history do not decrease.
abbrev pub InOrder : List (ℕ × ℕ) → Type 0
InOrder [] = Unit
InOrder (e ∷ es) = All (λ f. e.0 ≤ f.0) es × InOrder es

in_window_recent :
    (now window : ℕ) (e : ℕ × ℕ) (es : List (ℕ × ℕ))
    → is_recent now window e.0 ≡ true
    → All (λ f. e.0 ≤ f.0) es
    → in_window now window es ≡ es
unfolding in_window is_recent
in_window_recent now window e [] r h = refl
in_window_recent now window e (f ∷ fs) r h =
    let recent : is_recent now window f.0 ≡ true = ground (arith, h.0) in
    rw (recent, in_window_recent now window e fs r h.1) refl

-- Dropping the first that are old leaves the recent ones, when they stand in order.
drop-first_recent :
    (now window : ℕ) (es : List (ℕ × ℕ))
    → InOrder es
    → drop (first_recent now window (map (λ e. e.0) es)) es ≡ in_window now window es
unfolding in_window is_recent first_recent
drop-first_recent now window [] h = refl
drop-first_recent now window (e ∷ es) h = elim (Bool-cases (is_recent now window e.0)) [
  | inl r ↦ rw (r, in_window_recent now window e es r h.0) refl
  | inr old ↦ rw old (drop-first_recent now window es h.1)
]

drop-map :
    {A : Type 0} {B : Type 0} (f : A → B) (n : ℕ) (xs : List A)
    → drop n (map f xs) ≡ map f (drop n xs)
drop-map f zero xs = refl
drop-map f (suc n) [] = refl
drop-map f (suc n) (x ∷ xs) = drop-map f n xs

in_window-All :
    (P : ℕ × ℕ → Type 0) (now window : ℕ) (es : List (ℕ × ℕ))
    → All P es
    → All P (in_window now window es)
unfolding in_window
in_window-All P now window [] h = tt
in_window-All P now window (e ∷ es) h = let k = in_window-All P now window es h.1 in ground arith

in_window-InOrder :
    (now window : ℕ) (es : List (ℕ × ℕ)) → InOrder es → InOrder (in_window now window es)
unfolding in_window
in_window-InOrder now window [] h = tt
in_window-InOrder now window (e ∷ es) h =
    let k = in_window-InOrder now window es h.1 in
    let l = in_window-All (λ f. e.0 ≤ f.0) now window es h.0 in ground arith

-- What is out of an earlier window is out of a later one.
in_window-in_window :
    (last now window : ℕ) (es : List (ℕ × ℕ))
    → last ≤ now
    → in_window now window (in_window last window es) ≡ in_window now window es
unfolding in_window is_recent
in_window-in_window last now window [] h = refl
in_window-in_window last now window (e ∷ es) h =
    let ih = in_window-in_window last now window es h in
    elim (Bool-cases (is_recent last window e.0)) [
      | inl r ↦ elim (Bool-cases (is_recent now window e.0)) [
        | inl s ↦ rw (r, s, ih) refl
        | inr s ↦ rw (r, s) ih
      ]
      | inr o ↦ let s : is_recent now window e.0 ≡ false = ground (arith, h, o) in rw (o, s) ih
    ]

in_window-append :
    (now window : ℕ) (es : List (ℕ × ℕ)) (delta : ℕ)
    → 0 < window
    → in_window now window (es ++ (now, delta) ∷ []) ≡ in_window now window es ++ (now, delta) ∷ []
unfolding in_window is_recent
in_window-append now window [] delta pos =
    let s : is_recent now window now ≡ true = ground (arith, pos) in rw s refl
in_window-append now window (e ∷ es) delta pos =
    let ih = in_window-append now window es delta pos in
    elim (Bool-cases (is_recent now window e.0)) [ inl s ↦ rw (s, ih) refl | inr s ↦ rw s ih ]

-- The counter holds just the increments.
abbrev Holds : List (ℕ × ℕ) → ThroughputCounter → Type 0
Holds es tc = (tc.counts ≡ map (λ e. e.1) es) × (tc.timestamps ≡ map (λ e. e.0) es)

cleanup-Holds :
    (last now : ℕ) (all : List (ℕ × ℕ)) (tc : ThroughputCounter)
    → last ≤ now
    → InOrder all
    → Holds (in_window last tc.window_size all) tc
    → Holds (in_window now tc.window_size all) (cleanup now tc)
unfolding cleanup
cleanup-Holds last now all tc h order held =
    let w = tc.window_size in
    let kept = in_window last w all in
    let i = first_recent now w (map (λ e. e.0) kept) in
    let dropped : drop i kept ≡ in_window now w all =
      drop-first_recent now w kept (in_window-InOrder last w all order)
      ∙ in_window-in_window last now w all h in
    (
      rw (held.1, held.0, drop-map (λ e. e.1) i kept, dropped) refl,
      rw (held.1, drop-map (λ e. e.0) i kept, dropped) refl,
    )

-- Increments at given times, one after another.
unfoldable pub increment_all : List (ℕ × ℕ) → ThroughputCounter → ThroughputCounter
unfolding increment
increment_all [] tc = tc
increment_all (e ∷ es) tc = increment_all es (increment e.0 e.1 tc)

map-append :
    {A : Type 0} {B : Type 0} (f : A → B) (xs ys : List A) → map f (xs ++ ys) ≡ map f xs ++ map f ys
map-append f [] ys = refl
map-append f (x ∷ xs) ys = ap (λ l. f x ∷ l) (map-append f xs ys)

All-left : (P : ℕ × ℕ → Type 0) (xs ys : List (ℕ × ℕ)) → All P (xs ++ ys) → All P xs
All-left P [] ys h = tt
All-left P (x ∷ xs) ys (p, h) = (p, All-left P xs ys h)

InOrder-left : (xs ys : List (ℕ × ℕ)) → InOrder (xs ++ ys) → InOrder xs
InOrder-left [] ys h = tt
InOrder-left (x ∷ xs) ys (p, h) = (All-left (λ f. x.0 ≤ f.0) xs ys p, InOrder-left xs ys h)

InOrder-right : (xs ys : List (ℕ × ℕ)) → InOrder (xs ++ ys) → InOrder ys
InOrder-right [] ys h = h
InOrder-right (x ∷ xs) ys (p, h) = InOrder-right xs ys h

increment-Holds :
    (last now delta : ℕ) (all : List (ℕ × ℕ)) (tc : ThroughputCounter)
    → 0 < tc.window_size
    → last ≤ now
    → InOrder all
    → Holds (in_window last tc.window_size all) tc
    → Holds (in_window now tc.window_size (all ++ (now, delta) ∷ [])) (increment now delta tc)
unfolding increment cleanup
increment-Holds last now delta all tc pos le order held =
    let w = tc.window_size in
    let (c, t) = cleanup-Holds last now all tc le order held in
    let appended = in_window-append now w all delta pos in
    (
      ap (λ l. l ++ delta ∷ []) c
          ∙ sym (map-append (λ e. e.1) (in_window now w all) ((now, delta) ∷ []))
          ∙ ap (map (λ e. e.1)) (sym appended),
      ap (λ l. l ++ now ∷ []) t
          ∙ sym (map-append (λ e. e.0) (in_window now w all) ((now, delta) ∷ []))
          ∙ ap (map (λ e. e.0)) (sym appended),
    )

increment_all-Holds :
    (last now : ℕ) (all es : List (ℕ × ℕ)) (tc : ThroughputCounter)
    → 0 < tc.window_size
    → last ≤ now
    → All (λ e. last ≤ e.0) es
    → All (λ e. e.0 ≤ now) es
    → InOrder (all ++ es)
    → Holds (in_window last tc.window_size all) tc
    → Holds (in_window now tc.window_size (all ++ es)) (cleanup now (increment_all es tc))
unfolding increment_all
increment_all-Holds last now all [] tc pos le after before order held =
    subst (λ l. Holds (in_window now tc.window_size l) (cleanup now tc)) (sym (append-nil all))
      (cleanup-Holds last now all tc le (InOrder-left all [] order) held)
increment_all-Holds last now all ((at, delta) ∷ es) tc pos le (a, after) (b, before) order held =
    let next =
      increment-Holds last at delta all tc pos a (InOrder-left all ((at, delta) ∷ es) order) held in
    let regroup = append_assoc all ((at, delta) ∷ []) es in
    subst
      (λ l.
        Holds (in_window now tc.window_size l)
          (cleanup now (increment_all es (increment at delta tc))))
      regroup
      (increment_all-Holds at now (all ++ (at, delta) ∷ []) es (increment at delta tc) pos b
        (InOrder-right all ((at, delta) ∷ es) order).0 before (subst InOrder (sym regroup) order)
        next)

length-map_counts : (es : List (ℕ × ℕ)) → length (map (λ e. e.1) es) ≡ length es
length-map_counts [] = refl
length-map_counts (e ∷ es) = ap suc (length-map_counts es)

increment_all_window :
    (es : List (ℕ × ℕ)) (tc : ThroughputCounter)
    → (increment_all es tc).window_size ≡ tc.window_size
unfolding increment_all
increment_all_window [] tc = refl
increment_all_window (e ∷ es) tc = increment_all_window es (increment e.0 e.1 tc)

new_throughput_counter_window :
    (second window : ℕ) → 0 < window → (new_throughput_counter second window).window_size ≡ window
unfolding new_throughput_counter
new_throughput_counter_window second window pos = ground arith

new_throughput_counter-Holds : (second window : ℕ) → Holds [] (new_throughput_counter second window)
unfolding new_throughput_counter
new_throughput_counter-Holds second window = (refl, refl)

after_zero : (es : List (ℕ × ℕ)) → All (λ e. 0 ≤ e.0) es
after_zero [] = tt
after_zero (e ∷ es) = (omega arith, after_zero es)

module _ {Rate : Type 0} (zero_rate : Rate) (per_window : ℕ → ℕ → Rate) where
  -- After increments of a new counter with a positive window, at times that do not decrease and
  -- none of them later than now, the rate is that of the sum of the increments in the window
  -- before now, and the rate of nothing when there is none.
  pub rate-increment_all :
      (second window now : ℕ) (es : List (ℕ × ℕ))
      → 0 < window
      → InOrder es
      → All (λ e. e.0 ≤ now) es
      → (rate zero_rate per_window now (increment_all es (new_throughput_counter second window))).0
        ≡ (if length (in_window now window es) == 0
            then zero_rate
            else per_window (total (map (λ e. e.1) (in_window now window es))) window)
  unfolding rate in_window
  rate-increment_all second window now es pos order before =
      let new = new_throughput_counter second window in
      let size = new_throughput_counter_window second window pos in
      let same = increment_all_window es new ∙ size in
      let held =
        increment_all-Holds 0 now [] es new (subst (λ w. 0 < w) (sym size) pos) (omega arith)
          (after_zero es) before order (new_throughput_counter-Holds second window) in
      let counted : (cleanup now (increment_all es new)).counts
          ≡ map (λ e. e.1) (in_window now window es) =
        subst
          (λ w. (cleanup now (increment_all es new)).counts ≡ map (λ e. e.1) (in_window now w es))
          size held.0 in
      let n = length-map_counts (in_window now window es) in
      ap₂ (λ c w. if length c == 0 then zero_rate else per_window (total c) w) counted same
      ∙ ap
          (λ k.
            if k == 0
            then zero_rate
            else per_window (total (map (λ e. e.1) (in_window now window es))) window)
          n
