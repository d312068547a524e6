-- ===== src/Subagent/Budget.antt =====
-- TokenTracker and ToolCallTracker of pkg/subagent/context.go.
-- Amounts are natural numbers: a limit below 0 acts like 0, and a negative amount of tokens is not
-- modelled. `false` is the error of an operation, and `none` the answer -1 of Remaining.
pub mod Limits
mod Tests
use syntor.Common.{
  ℕ, ◌+◌, ◌-◌, Bool, true, false, ◌&&◌, Option, none, some, ltb, leb, ◌==◌, if◌then◌else◌,
}

pub record TokenTracker : Type 0 where
  pub limit : ℕ
  pub used : ℕ

unfoldable pub new_token_tracker : ℕ → TokenTracker
new_token_tracker limit = record { limit = limit; used = 0 }

-- TokenTracker.Add
unfoldable pub add : ℕ → TokenTracker → TokenTracker × Bool
add tokens t =
    if ltb 0 t.limit && ltb t.limit (t.used + tokens)
    then (t, false)
    else (record t { used = t.used + tokens }, true)

-- TokenTracker.Remaining
unfoldable pub remaining_tokens : TokenTracker → Option ℕ
remaining_tokens t = if t.limit == 0 then none else some (t.limit - t.used)

pub record ToolCallTracker : Type 0 where
  pub limit : ℕ
  pub count : ℕ

unfoldable pub new_tool_call_tracker : ℕ → ToolCallTracker
new_tool_call_tracker limit = record { limit = limit; count = 0 }

unfoldable pub increment : ToolCallTracker → ToolCallTracker × Bool
increment t =
    if ltb 0 t.limit && leb t.limit t.count
    then (t, false)
    else (record t { count = t.count + 1 }, true)

-- ToolCallTracker.Remaining
unfoldable pub remaining_calls : ToolCallTracker → Option ℕ
remaining_calls t = if t.limit == 0 then none else some (t.limit - t.count)
