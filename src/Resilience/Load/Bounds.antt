-- ===== src/Resilience/Load/Bounds.antt =====
-- How many callers Backpressure and Semaphore let in at once.
use syntor.Common.{
  ℕ, zero, suc, ◌+◌, ◌≤◌, ◌<◌, ◌≡◌, ◌↔◌, ◌⊎◌, refl, ◌∙◌, Bool, true, false, List, [], ◌∷◌, Option,
  arith, if◌then◌else◌,
}
use syntor.Resilience.Load.{
  Backpressure, new_backpressure, acquire, release, is_overloaded, rand_thousandths, execute,
  rate_limit_exceeded, Semaphore, new_semaphore, try_acquire, acquire_slot, acquired, blocked,
  release_slot, available,
}

-- Calls of Backpressure.Execute that overlap: one arrives, or one of those that run returns.
pub data Event : Type 0 where
  arrives : ℕ → Event
  returns : Event

-- The controller, and how many admitted functions run.
pub record System : Type 0 where
  pub control : Backpressure
  pub running : ℕ

abbrev after_arrival : ℕ → Backpressure × Bool → System
after_arrival running (bp, ok) = record {
  control = bp;
  running = if ok then suc running else running;
}

unfoldable pub step : System → Event → System
unfolding acquire release
step s (arrives now) = after_arrival s.running (acquire now s.control)
step s returns = elim s.running [
  | zero ↦ s
  | suc k ↦ record { control = release s.control; running = k }
]

unfoldable pub run : System → List Event → System
unfolding step
run s [] = s
run s (e ∷ es) = run (step s e) es

pub record IsBounded (s : System) : Type 0 where
  pub counted : s.control.current_load ≡ s.running
  pub bounded : s.running ≤ s.control.max_concurrent

step-max : (s : System) (e : Event) → (step s e).control.max_concurrent ≡ s.control.max_concurrent
unfolding step
step-max s (arrives now) = ground arith
step-max s returns = ground arith

step-IsBounded : (s : System) (e : Event) → IsBounded s → IsBounded (step s e)
unfolding step
step-IsBounded s (arrives now) b = ground arith
step-IsBounded s returns b = ground arith

run-IsBounded : (s : System) (es : List Event) → IsBounded s → IsBounded (run s es)
unfolding run
run-IsBounded s [] b = b
run-IsBounded s (e ∷ es) b = run-IsBounded (step s e) es (step-IsBounded s e b)

run-max :
    (s : System) (es : List Event) → (run s es).control.max_concurrent ≡ s.control.max_concurrent
unfolding run
run-max s [] = refl
run-max s (e ∷ es) = run-max (step s e) es ∙ step-max s e

-- However calls of Backpressure.Execute overlap, and whenever load is shed, the current load is the
-- number of admitted functions that still run, and it is never above the maximum.
pub run-new_load :
    (max threshold probability : ℕ) (es : List Event)
    → let s =
        run (record { control = new_backpressure max threshold probability; running = 0 }) es in
      (s.control.current_load ≡ s.running) × (s.running ≤ max)
unfolding new_backpressure
run-new_load max threshold probability es =
    let start : System = record {
      control = new_backpressure max threshold probability;
      running = 0;
    } in
    let b = run-IsBounded start es (record { counted = refl; bounded = omega arith }) in
    (b.counted, rw (run-max start es) at b.bounded)

-- A call of Backpressure.Execute, with no other caller in between, leaves the load as it was; and
-- it is rejected exactly when the load is at the maximum, or is at the shedding threshold and the
-- draw is below the shedding probability.
pub execute_load :
    {E : Type 0} (now : ℕ) (result : Option E) (bp : Backpressure)
    → ((execute now result bp).0 ≡ bp)
      × (((execute now result bp).1 ≡ rate_limit_exceeded) ↔ (
          (bp.max_concurrent ≤ bp.current_load)
          ⊎ ((is_overloaded bp ≡ true) × (rand_thousandths now < bp.shed_probability))))
unfolding execute
execute_load now result bp = ground arith

-- What callers of a Semaphore do: a caller that holds no slot asks for one, by TryAcquire or by
-- Acquire, or one that holds a slot releases it.
pub data Use : Type 0 where
  tries : Use
  waits : Bool → Bool → Use
  releases : Use

pub record Holders : Type 0 where
  pub semaphore : Semaphore
  pub holding : ℕ

-- The semaphore after a use, and how many slots its callers hold.
unfoldable pub step_use : Holders → Use → Holders
unfolding try_acquire acquire_slot release_slot
step_use h tries =
    let (s, ok) = try_acquire h.semaphore in
    record { semaphore = s; holding = if ok then suc h.holding else h.holding }
step_use h (waits done prefers) =
    let (s, result) = acquire_slot done prefers h.semaphore in
    record { semaphore = s; holding = elim result [ acquired ↦ suc h.holding | _ ↦ h.holding ] }
step_use h releases = elim h.holding [
  | zero ↦ h
  | suc k ↦ record { semaphore = release_slot h.semaphore; holding = k }
]

unfoldable pub run_uses : Holders → List Use → Holders
unfolding step_use
run_uses h [] = h
run_uses h (u ∷ us) = run_uses (step_use h u) us

record IsExact (h : Holders) : Type 0 where
  exact : h.semaphore.held ≡ h.holding
  within : h.holding ≤ h.semaphore.capacity

step_use-IsExact :
    (h : Holders) (u : Use)
    → IsExact h
    → IsExact (step_use h u) × ((step_use h u).semaphore.capacity ≡ h.semaphore.capacity)
unfolding step_use
step_use-IsExact h tries e = ground arith
step_use-IsExact h (waits done prefers) e = ground arith
step_use-IsExact h releases e = ground arith

run_uses-IsExact :
    (h : Holders) (us : List Use)
    → IsExact h
    → IsExact (run_uses h us) × ((run_uses h us).semaphore.capacity ≡ h.semaphore.capacity)
unfolding run_uses
run_uses-IsExact h [] e = (e, refl)
run_uses-IsExact h (u ∷ us) e =
    let (e', c) = step_use-IsExact h u e in
    let (e'', c') = run_uses-IsExact (step_use h u) us e' in (e'', c' ∙ c)

-- Whatever the callers of a new semaphore do, where each releases only a slot that it holds, they
-- never hold more slots than its capacity, the slots available are those they do not hold, and
-- Acquire with a live context blocks exactly when they hold them all.
pub run-new_holding :
    (capacity : ℕ) (us : List Use) (prefers : Bool)
    → let h = run_uses (record { semaphore = new_semaphore capacity; holding = 0 }) us in
      (h.holding ≤ capacity)
      × (available h.semaphore + h.holding ≡ capacity)
      × (((acquire_slot false prefers h.semaphore).1 ≡ blocked) ↔ (h.holding ≡ capacity))
unfolding new_semaphore available acquire_slot
run-new_holding capacity us prefers =
    let start : Holders = record { semaphore = new_semaphore capacity; holding = 0 } in
    let (e, c) = run_uses-IsExact start us (record { exact = refl; within = omega arith }) in
    ground arith
