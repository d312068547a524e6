-- ===== src/Tools/Executor/Safety.antt =====
-- What a batch may change.
use syntor.Common.{ℕ, ◌≡◌, inl, inr, sym, subst, String, false, List, [], ◌∷◌}
use syntor.Tools.{ToolCall, Tool, ExecuteOptions}
use syntor.Tools.Executor.{Executor, sequential_calls, execute_single, run_calls, execute_batch}
use syntor.Tools.Executor.Gates.{Passes, execute_single_gates}

module _ {Params : Type 0} {Output : Type 0} {World : Type 0} (show_duration : ℕ → String)
    (output_of : String → Output) (opts : ExecuteOptions) (e : Executor Params Output World)
    (P : World → Type 0) where
  -- A call that passes every gate, in a run that is no dry run, keeps the property.
  abbrev pub IsKept : Type 0
  IsKept =
      (call : ToolCall Params) (tool : Tool Params Output World) (timeout : ℕ) (w : World)
      → Passes e call tool
      → opts.dry_run ≡ false
      → P w
      → P (tool.execute timeout call.parameters w).1

  execute_single-keeps :
      IsKept
      → (call : ToolCall Params) (w : World) → P w
      → P (execute_single show_duration output_of opts e call w).1
  execute_single-keeps kept call w h =
      elim (execute_single_gates show_duration output_of opts e call w) [
        | inl (code, message, why, err, success, output, same) ↦ subst P (sym same) h
        | inr (tool, passes, inl (dry, (reports, same))) ↦ subst P (sym same) h
        | inr (tool, passes, inr (real, (timeout, chosen, reports, same))) ↦
            subst P (sym same) (kept call tool timeout w passes real h)
      ]

  run_calls-keeps :
      IsKept
      → (cs : List (ℕ × ToolCall Params)) (w : World) → P w
      → P (run_calls show_duration output_of opts e cs w).1
  unfolding run_calls
  run_calls-keeps kept [] w h = h
  run_calls-keeps kept (c ∷ cs) w h =
      run_calls-keeps kept cs (execute_single show_duration output_of opts e c.1 w).1
        (execute_single-keeps kept c.1 w h)

  -- A batch, in any order, keeps each property of the world that the executions keep which pass
  -- every gate: a tool that is not registered, or is given invalid parameters, or that the
  -- security check refuses, or any tool in a dry run, changes nothing.
  pub execute_batch-keeps :
      IsKept
      → (calls : List (ToolCall Params)) (order : List (ℕ × ToolCall Params)) (w : World) → P w
      → P (execute_batch show_duration output_of opts e calls order w).1
  unfolding execute_batch
  execute_batch-keeps kept calls order w h =
      run_calls-keeps kept (sequential_calls 0 calls)
        (run_calls show_duration output_of opts e order w).1 (run_calls-keeps kept order w h)
