-- ===== src/Resilience/Breaker/Recovery.antt =====
-- How a half-open breaker closes again, and when it cannot.
use syntor.Common.{
  ◌+◌, ◌≤◌, ◌<◌, ◌≡◌, refl, sym, ap, ◌∙◌, List, [], ◌∷◌, none, some, All, length, arith, dec_lt,
}
use syntor.Resilience.Breaker.{closed, open_, half_open, too_many_requests, CircuitBreaker, execute}
use syntor.Resilience.Breaker.Calls.{Call, run_calls}

abbrev pub Succeeds : Call → Type 0
Succeeds c = c.outcome ≡ none

execute_half_open :
    (cb : CircuitBreaker) (c : Call)
    → cb.state ≡ half_open
    → cb.half_open_calls < cb.half_open_max_calls
    → Succeeds c
    → let cb' = (execute c.at c.outcome c.done cb).0 in
      (cb.success_count + 1 < cb.success_threshold
        → (cb'.state ≡ half_open)
          × (cb'.success_count ≡ cb.success_count + 1)
          × (cb'.half_open_calls ≡ cb.half_open_calls + 1)
          × (cb'.config ≡ cb.config))
      × (cb.success_threshold ≤ cb.success_count + 1 → cb'.state ≡ closed)
unfolding execute
execute_half_open cb c o h s = ground arith

execute_refused :
    (cb : CircuitBreaker) (c : Call)
    → cb.state ≡ half_open
    → cb.half_open_max_calls ≤ cb.half_open_calls
    → execute c.at c.outcome c.done cb ≡ (cb, some too_many_requests)
unfolding execute
execute_refused cb c o h = ground arith

execute_probe :
    (cb : CircuitBreaker) (c : Call)
    → cb.state ≡ open_
    → cb.last_state_change + cb.timeout ≤ c.at
    → Succeeds c
    → 1 < cb.success_threshold
    → let cb' = (execute c.at c.outcome c.done cb).0 in
      (cb'.state ≡ half_open)
      × (cb'.success_count ≡ 1)
      × (cb'.half_open_calls ≡ 1)
      × (cb'.config ≡ cb.config)
unfolding execute
execute_probe cb c o h s t = ground arith

run_calls_refused :
    (cb : CircuitBreaker) (cs : List Call)
    → cb.state ≡ half_open
    → cb.half_open_max_calls ≤ cb.half_open_calls
    → run_calls cb cs ≡ cb
unfolding run_calls
run_calls_refused cb [] o h = refl
run_calls_refused cb (c ∷ cs) o h = rw (execute_refused cb c o h) (run_calls_refused cb cs o h)

-- A half-open breaker that has seen only its own successful calls.
record Probing (cb : CircuitBreaker) : Type 0 where
  probing : cb.state ≡ half_open
  all_counted : cb.success_count ≡ cb.half_open_calls

run_calls_recovers :
    (cb : CircuitBreaker) (cs : List Call)
    → Probing cb
    → cb.success_threshold ≤ cb.half_open_max_calls
    → cb.success_count < cb.success_threshold
    → cb.success_count + length cs ≡ cb.success_threshold
    → All Succeeds cs
    → (run_calls cb cs).state ≡ closed
unfolding run_calls
run_calls_recovers cb [] p m b e a = absurd (omega arith)
run_calls_recovers cb (c ∷ []) p m b e a =
    (execute_half_open cb c p.probing (omega (arith, p.all_counted)) a.0).1 (omega arith)
run_calls_recovers cb (c ∷ d ∷ cs) p m b e a =
    let (o, s, n, g) =
      (execute_half_open cb c p.probing (omega (arith, p.all_counted)) a.0).0 (omega arith) in
    run_calls_recovers (execute c.at c.outcome c.done cb).0 (d ∷ cs)
      (record { probing = o; all_counted = omega (arith, s, n, p.all_counted) }) (rw g m)
      (rw (g, s) (omega arith)) (rw (g, s) (omega arith)) a.1

run_calls_stays :
    (cb : CircuitBreaker) (cs : List Call)
    → Probing cb
    → cb.half_open_max_calls < cb.success_threshold
    → All Succeeds cs
    → (run_calls cb cs).state ≡ half_open
unfolding run_calls
run_calls_stays cb [] p m a = p.probing
run_calls_stays cb (c ∷ cs) p m a = elim (dec_lt cb.half_open_calls cb.half_open_max_calls) [
  | yes below ↦
      let (o, s, n, g) =
        (execute_half_open cb c p.probing below a.0).0 (omega (arith, p.all_counted)) in
      run_calls_stays (execute c.at c.outcome c.done cb).0 cs
        (record { probing = o; all_counted = omega (arith, s, n, p.all_counted) }) (rw g m) a.1
  | no full ↦ ap (λ b. b.state) (run_calls_refused cb (c ∷ cs) p.probing (omega arith)) ∙ p.probing
]

-- Recovery by a single caller: where the success threshold is more than 1 and at most the
-- half-open maximum, an open breaker whose timeout has passed is closed after as many successful
-- calls as the success threshold.
pub recovers :
    (cb : CircuitBreaker) (c : Call) (cs : List Call)
    → cb.state ≡ open_
    → cb.last_state_change + cb.timeout ≤ c.at
    → 1 < cb.success_threshold
    → cb.success_threshold ≤ cb.half_open_max_calls
    → length (c ∷ cs) ≡ cb.success_threshold
    → All Succeeds (c ∷ cs)
    → (run_calls cb (c ∷ cs)).state ≡ closed
unfolding run_calls
recovers cb c cs o h t m e a =
    let (o', s, n, g) = execute_probe cb c o h a.0 t in
    run_calls_recovers (execute c.at c.outcome c.done cb).0 cs
      (record { probing = o'; all_counted = s ∙ sym n }) (rw g m) (rw (g, s) t)
      (rw (g, s) (omega arith)) a.1

-- A half-open breaker counts the calls it has let through and never takes one off again. So where
-- the half-open maximum is below the success threshold, as in the default configuration, and the
-- threshold is more than 1, an open breaker whose timeout has passed stays half-open through every
-- later run of calls by a single caller whose function would succeed: it never closes.
pub never_closes :
    (cb : CircuitBreaker) (c : Call) (cs : List Call)
    → cb.state ≡ open_
    → cb.last_state_change + cb.timeout ≤ c.at
    → 1 < cb.success_threshold
    → cb.half_open_max_calls < cb.success_threshold
    → All Succeeds (c ∷ cs)
    → (run_calls cb (c ∷ cs)).state ≡ half_open
unfolding run_calls
never_closes cb c cs o h t m a =
    let (o', s, n, g) = execute_probe cb c o h a.0 t in
    run_calls_stays (execute c.at c.outcome c.done cb).0 cs
      (record { probing = o'; all_counted = s ∙ sym n }) (rw g m) a.1
