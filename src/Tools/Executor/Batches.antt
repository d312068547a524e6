-- ===== src/Tools/Executor/Batches.antt =====
-- ExecuteBatch: the results are those of the calls, whatever the order of the goroutines.
use syntor.Common.{
  ℕ, zero, suc, ◌+◌, ◌≤◌, ◌<◌, ◌≡◌, ◌≢◌, inl, inr, refl, sym, ap, subst, ◌∙◌, String, true, false,
  List, [], ◌∷◌, some, if◌then◌else◌, length, replicate, length-replicate, get_elem?-lt, take,
  get_elem?, All, Any, All-mono, Any-mono, arith, Bool-cases,
}
use mathlib.Core.List.{Permᴰ}
use syntor.Tools.{ToolCall, ToolResult, ExecuteOptions}
use syntor.Tools.Executor.Assignment.{
  All-Permᴰ, Any-Permᴰ, length-set_results, set_results_other, set_results_at,
}
use syntor.Tools.Executor.Categories.{parallel_calls_at, parallel_calls-All, sequential_calls-le}
use syntor.Tools.Executor.{
  Executor, empty_result, is_modifying, parallel_calls, sequential_calls, set_results,
  execute_single, run_calls, execute_batch,
}

module _ {Params : Type 0} {Output : Type 0} {World : Type 0} (show_duration : ℕ → String)
    (output_of : String → Output) (opts : ExecuteOptions) (e : Executor Params Output World) where
  abbrev single : ToolCall Params → World → ToolResult Output × World
  single = execute_single show_duration output_of opts e

  abbrev calls_run : List (ℕ × ToolCall Params) → World → List (ℕ × ToolResult Output) × World
  calls_run = run_calls show_duration output_of opts e

  -- The world after the modifying calls of a list, in order.
  unfoldable pub world_after : List (ToolCall Params) → World → World
  world_after [] w = w
  world_after (c ∷ cs) w = world_after cs (if is_modifying c.name then (single c w).1 else w)

  run_calls_index :
      (P : ℕ → Type 0) (cs : List (ℕ × ToolCall Params)) (w : World)
      → All (λ p. P p.0) cs
      → All (λ p. P p.0) (calls_run cs w).0
  unfolding run_calls
  run_calls_index P [] w h = tt
  run_calls_index P (c ∷ cs) w (h, hs) = (h, run_calls_index P cs (single c.1 w).1 hs)

  run_calls-Any :
      (P : ℕ → Type 0) (cs : List (ℕ × ToolCall Params)) (w : World)
      → Any (λ p. P p.0) cs
      → Any (λ p. P p.0) (calls_run cs w).0
  unfolding run_calls
  run_calls-Any P [] w h = absurd h
  run_calls-Any P (c ∷ cs) w (inl h) = inl h
  run_calls-Any P (c ∷ cs) w (inr h) = inr (run_calls-Any P cs (single c.1 w).1 h)

  -- Calls that leave the world as it is all see the same one.
  run_calls_reading :
      (cs : List (ℕ × ToolCall Params)) (w : World) (i : ℕ) (c : ToolCall Params)
      → All (λ p. (v : World) → (single p.1 v).1 ≡ v) cs
      → All (λ p. p.0 ≡ i → p.1 ≡ c) cs
      → All (λ p. p.0 ≡ i → p.1 ≡ (single c w).0) (calls_run cs w).0
  unfolding run_calls
  run_calls_reading [] w i c reads only = tt
  run_calls_reading (d ∷ cs) w i c (r, reads) (o, only) = (
    λ at. ap (λ c. (single c w).0) (o at),
    subst (λ v. All (λ p. p.0 ≡ i → p.1 ≡ (single c w).0) (calls_run cs v).0) (sym (r w))
        (run_calls_reading cs w i c reads only),
  )

  run_calls_unchanged :
      (cs : List (ℕ × ToolCall Params)) (w : World)
      → All (λ p. (v : World) → (single p.1 v).1 ≡ v) cs
      → (calls_run cs w).1 ≡ w
  unfolding run_calls
  run_calls_unchanged [] w h = refl
  run_calls_unchanged (c ∷ cs) w (r, h) =
      subst (λ v. (calls_run cs v).1 ≡ w) (sym (r w)) (run_calls_unchanged cs w h)

  sequential_world :
      (k : ℕ) (calls : List (ToolCall Params)) (w : World)
      → (calls_run (sequential_calls k calls) w).1 ≡ world_after calls w
  unfolding run_calls sequential_calls world_after
  sequential_world k [] w = refl
  sequential_world k (call ∷ calls) w = elim (Bool-cases (is_modifying call.name)) [
    | inl m ↦ rw m (sequential_world (suc k) calls (single call w).1)
    | inr m ↦ rw m (sequential_world (suc k) calls w)
  ]

  -- A modifying call has the result of its run after the modifying calls before it.
  sequential_calls_at :
      (k : ℕ) (calls : List (ToolCall Params)) (w : World) (i : ℕ) (c : ToolCall Params)
      → get_elem? calls i ≡ some c
      → is_modifying c.name ≡ true
      → Any (λ p. p.0 ≡ k + i) (sequential_calls k calls)
        × All
            (λ p. p.0 ≡ k + i → p.1 ≡ (single c (world_after (take i calls) w)).0)
            (calls_run (sequential_calls k calls) w).0
  unfolding run_calls sequential_calls world_after
  sequential_calls_at k [] w i c found m = absurd (ground arith)
  sequential_calls_at k (call ∷ calls) w zero c found m =
      let same : call ≡ c = ground arith in
      let n : is_modifying call.name ≡ true = ap (λ c. is_modifying c.name) same ∙ m in
      let rest = sequential_calls (suc k) calls in
      let later =
        run_calls_index (λ j. suc k ≤ j) rest (single call w).1
          (sequential_calls-le (suc k) calls) in
      rw n (
        inl (omega arith),
        (
          (λ at. ap (λ c. (single c w).0) same),
          All-mono (λ p. suc k ≤ p.0) (λ p. p.0 ≡ k + 0 → p.1 ≡ (single c w).0)
              (calls_run rest (single call w).1).0 (λ p h at. absurd (omega arith)) later,
        ),
      )
  sequential_calls_at k (call ∷ calls) w (suc i) c found m =
      elim (Bool-cases (is_modifying call.name)) [
        | inl n ↦
            let (any, all) =
              moved_on (single call w).1 (world_step (single call w).1 (rw n refl))
                (sequential_calls_at (suc k) calls (single call w).1 i c found m) in
            rw n (inr any, ((λ at. absurd (omega arith)), all))
        | inr n ↦ rw n (
            moved_on w (world_step w (rw n refl)) (sequential_calls_at (suc k) calls w i c found m))
      ]
    where
      before : World
      before = world_after (call ∷ take i calls) w

      world_step :
          (v : World)
          → v ≡ (if is_modifying call.name then (single call w).1 else w)
          → world_after (take i calls) v ≡ before
      world_step v e = ap (world_after (take i calls)) e

      moved_on :
          (v : World)
          → world_after (take i calls) v ≡ before
          → Any (λ p. p.0 ≡ suc k + i) (sequential_calls (suc k) calls)
            × All
                (λ p. p.0 ≡ suc k + i → p.1 ≡ (single c (world_after (take i calls) v)).0)
                (calls_run (sequential_calls (suc k) calls) v).0
          → Any (λ p. p.0 ≡ k + suc i) (sequential_calls (suc k) calls)
            × All
                (λ p. p.0 ≡ k + suc i → p.1 ≡ (single c before).0)
                (calls_run (sequential_calls (suc k) calls) v).0
      moved_on v same (any, all) = (
        Any-mono (λ p. p.0 ≡ suc k + i) (λ p. p.0 ≡ k + suc i) (sequential_calls (suc k) calls)
            (λ p h. omega arith) any,
        All-mono (λ p. p.0 ≡ suc k + i → p.1 ≡ (single c (world_after (take i calls) v)).0)
            (λ p. p.0 ≡ k + suc i → p.1 ≡ (single c before).0)
            (calls_run (sequential_calls (suc k) calls) v).0
            (λ p h at. h (omega arith) ∙ ap (λ u. (single c u).0) same) all,
      )

  sequential_calls_other :
      (k : ℕ) (calls : List (ToolCall Params)) (i : ℕ) (c : ToolCall Params)
      → get_elem? calls i ≡ some c
      → is_modifying c.name ≡ false
      → All (λ p. p.0 ≢ k + i) (sequential_calls k calls)
  unfolding sequential_calls
  sequential_calls_other k [] i c found m = absurd (ground arith)
  sequential_calls_other k (call ∷ calls) zero c found m =
      let same : call ≡ c = ground arith in
      let n : is_modifying call.name ≡ false = ap (λ c. is_modifying c.name) same ∙ m in
      rw n (
        All-mono (λ p. suc k ≤ p.0) (λ p. p.0 ≢ k + 0) (sequential_calls (suc k) calls)
          (λ p h e. omega arith) (sequential_calls-le (suc k) calls))
  sequential_calls_other k (call ∷ calls) (suc i) c found m =
      let ih =
        All-mono (λ p. p.0 ≢ suc k + i) (λ p. p.0 ≢ k + suc i) (sequential_calls (suc k) calls)
          (λ p h e. h (omega arith)) (sequential_calls_other (suc k) calls i c found m) in
      elim (Bool-cases (is_modifying call.name)) [
        | inr n ↦ rw n ih
        | inl n ↦ rw n ((λ e. omega arith), ih)
      ]

  -- The call is a modifying one, or it leaves the world as it is.
  abbrev pub OnlyReads : ToolCall Params → Type 0
  OnlyReads c = is_modifying c.name ≡ false → (v : World) → (single c v).1 ≡ v

  assigned_at :
      (calls : List (ToolCall Params)) (order : List (ℕ × ToolCall Params)) (w : World)
      → Permᴰ order (parallel_calls 0 calls)
      → All (λ p. (v : World) → (single p.1 v).1 ≡ v) order
      → (i : ℕ) (c : ToolCall Params) → get_elem? calls i ≡ some c
      → get_elem?
          (set_results
            (calls_run (sequential_calls 0 calls) w).0
            (set_results (calls_run order w).0 (replicate (length calls) (empty_result "" ""))))
          i
        ≡ some (single c (if is_modifying c.name then world_after (take i calls) w else w)).0
  assigned_at calls order w perm reading i c found =
      let sequential = sequential_calls 0 calls in
      let empty : List (ToolResult Output) = replicate (length calls) (empty_result "" "") in
      let inside_empty : i < length empty = omega (
        arith,
        length-replicate (length calls) (empty_result {Output = Output} "" ""),
        get_elem?-lt calls i c found,
      ) in
      let inside : i < length (set_results (calls_run order w).0 empty) =
        omega (arith, length-set_results (calls_run order w).0 empty, inside_empty) in
      let start : 0 + i ≡ i = omega arith in
      elim (Bool-cases (is_modifying c.name)) [
        | inl m ↦
            let (any, all) = sequential_calls_at 0 calls w i c found m in
            let before = world_after (take i calls) w in
            rw m (
              set_results_at (calls_run sequential w).0 (set_results (calls_run order w).0 empty) i
                (single c before).0 inside
                (subst
                  (λ j. All (λ p. p.0 ≡ j → p.1 ≡ (single c before).0) (calls_run sequential w).0)
                  start all)
                (inl (
                  run_calls-Any (λ j. j ≡ i) sequential w
                    (subst (λ j. Any (λ p. p.0 ≡ j) sequential) start any))))
        | inr m ↦
            let (any, all) = parallel_calls_at 0 calls i c found m in
            let parallel = parallel_calls 0 calls in
            let there =
              Any-Permᴰ (λ p. p.0 ≡ i) order parallel perm
                (subst (λ j. Any (λ p. p.0 ≡ j) parallel) start any) in
            let only =
              All-Permᴰ (λ p. p.0 ≡ i → p.1 ≡ c) order parallel perm
                (subst (λ j. All (λ p. p.0 ≡ j → p.1 ≡ c) parallel) start all) in
            let other =
              subst (λ j. All (λ p. p.0 ≢ j) sequential) start
                (sequential_calls_other 0 calls i c found m) in
            rw m (
              set_results_other (calls_run sequential w).0 (set_results (calls_run order w).0 empty)
                i (run_calls_index (λ j. j ≢ i) sequential w other)
              ∙ set_results_at (calls_run order w).0 empty i (single c w).0 inside_empty
                  (run_calls_reading order w i c reading only)
                  (inl (run_calls-Any (λ j. j ≡ i) order w there)))
      ]

  -- In whatever order the parallel calls of a batch run, and when these only read, there is one
  -- result for each call, under its index: that of its single execution, in the first world for a
  -- parallel call and after the modifying calls before it for a modifying one. The modifying calls
  -- make the last world, in the order of the batch.
  pub execute_batch_lem :
      (calls : List (ToolCall Params)) (order : List (ℕ × ToolCall Params)) (w : World)
      → Permᴰ order (parallel_calls 0 calls)
      → All OnlyReads calls
      → (length (execute_batch show_duration output_of opts e calls order w).0 ≡ length calls)
        × ((execute_batch show_duration output_of opts e calls order w).1 ≡ world_after calls w)
        × ((i : ℕ) (c : ToolCall Params)
            → get_elem? calls i ≡ some c
            → get_elem? (execute_batch show_duration output_of opts e calls order w).0 i
              ≡ some (single c (if is_modifying c.name then world_after (take i calls) w else w)).0)
  unfolding execute_batch
  execute_batch_lem calls order w perm reads =
      let sequential = sequential_calls 0 calls in
      let empty : List (ToolResult Output) = replicate (length calls) (empty_result "" "") in
      let reading =
        All-Permᴰ (λ p. (v : World) → (single p.1 v).1 ≡ v) order (parallel_calls 0 calls) perm
          (parallel_calls-All (λ c. (v : World) → (single c v).1 ≡ v) 0 calls reads) in
      let unchanged = run_calls_unchanged order w reading in
      let first = set_results (calls_run order w).0 empty in
      let n : length first ≡ length calls =
        length-set_results (calls_run order w).0 empty
        ∙ length-replicate (length calls) (empty_result "" "") in
      subst
        (λ v.
          (length (set_results (calls_run sequential v).0 first) ≡ length calls)
          × ((calls_run sequential v).1 ≡ world_after calls w)
          × ((i : ℕ) (c : ToolCall Params)
              → get_elem? calls i ≡ some c
              → get_elem? (set_results (calls_run sequential v).0 first) i
                ≡ some
                    (single c (if is_modifying c.name then world_after (take i calls) w else w)).0))
        (sym unchanged)
        (
          length-set_results (calls_run sequential w).0 first ∙ n,
          sequential_world 0 calls w,
          λ i c found. assigned_at calls order w perm reading i c found,
        )
