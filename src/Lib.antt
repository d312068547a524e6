-- ===== src/Lib.antt =====
-- The verification of syntor, a multi-agent orchestration system in Go.
--
-- The program's parts modelled here, and the files that model them:
--   Common     the names the modules share: Boolean tests, lists, and Go's `map[string]V` (Dict)
--   Resilience pkg/resilience
--     Breaker    circuit_breaker.go: CircuitBreaker and its methods; a history is a list of events,
--                since a request and the report of its result are two steps
--     Retry      retry.go: Retryer.Execute and ExecuteWithCallback, the delays
--     Limiter    rate_limiter.go: RateLimiter (token bucket), WaitN
--     Load       rate_limiter.go: Backpressure and Semaphore
--     Recovery   recovery.go: the checkpoint store and RecoveryManager; a state map is a reference,
--                whose contents belong to the world
--     Detector   recovery.go: FailureDetector
--   Coordination pkg/coordination
--     Plan       executor.go, protocol.go: ExecutePlan, which runs the steps of a plan in waves
--     Handoffs   executor.go: the statuses of the handoffs that Execute starts, their cancelling and
--                cleanup, and the timeline
--   Herald     pkg/herald
--     Trust      trust.go, types.go: tiers, policies and the local Check; a path is its bytes
--     Approval   approval.go: the local ApprovalHandler, and WaitForApproval on the answers of the
--                service, which is not part of the repository
--   Subagent   pkg/subagent
--     Trust      manager.go: the trust tracker, its promotions and demotions
--     Context    context.go: the context builder, its presets and the validator
--     Budget     context.go: TokenTracker and ToolCallTracker
--     Lifecycle  manager.go: Spawn, execute with its retries, Cancel and Cleanup; the executor's answers
--                are a function of the attempt
--     Parallel   parallel.go: DependencyGraph, ExecuteWithDependencies and ExecuteAll; the order in
--                which agents end, and what each run returns, are parameters
--   Performance pkg/performance
--     Batch      batch.go: BatchProcessor with its background loop, BatchAggregator; what follows the
--                unlocking in a method is a step of its own
--     Latency    scaling.go: LatencyTracker, its sort and its percentiles
--     Throughput scaling.go: ThroughputCounter
--     Balancer   scaling.go: LoadBalancer
--     Scaler     scaling.go: AutoScaler; a tick is a round of StartMonitoring
--   Tools      types.go of pkg/tools: calls, results, tools; what tools act on is a state
--     Registry   registry.go: Registry
--     Executor   executor.go: ExecuteSingle, ExecuteBatch, CheckApprovals; goroutines are the order
--                in which the calls run, each as a whole
--     Security   security/autoallow.go, validator.go, manager.go: the automatic allowance, the
--                validators of paths and commands, and Manager, which the executor asks
--
-- How the code corresponds. A struct is a record, a method a function from the record (and the
-- clock, as the argument `now`) to the new record and the result; what a method does
-- under its mutex is one step, so that callers at the same time are histories of such steps. (The two
-- locked parts at the end of a sub-agent's execution, its record and the check for a promotion, are
-- one step.) Go's `int` and `time.Duration` are
-- natural numbers: the modelled fields are counts, thresholds and times that the code keeps from
-- falling below 0, a negative configuration value acts like 0 or is replaced like 0 where that is
-- said, and 64-bit overflow is not modelled. Texts are native strings. What is not code of the
-- repository (float64, time formatting, the functions that callers pass in, the context) is a
-- parameter with the laws that the code relies on, and every theorem with such a parameter has an
-- instance. A loop over a list is a recursion on the list; the retry loop recurs on the attempts
-- left, a wait on the rounds that the scheduler gives it, and the loop of a plan's waves on fuel, one
-- round for each step and one more, and that of ExecuteWithDependencies on one for each node and one
-- more, which is shown to be enough. Steps that run at the same time are
-- the list of their results in the order in which they arrive.
--
-- Not modelled: clients of services (Herald's HTTP interface, brokers, databases, language models),
-- the command line and the terminal interface, and what only reads or writes files, since their
-- behaviour is that of code outside the repository.
pub mod Common
pub mod Coordination
pub mod Herald
pub mod Performance
pub mod Tools
pub mod Resilience
pub mod Subagent
