-- ===== src/Tools/Executor/Tests.antt =====
-- Runs of the executor: a counter that a reading tool returns and a writing tool increases.
use syntor.Common.{
  ℕ, zero, suc, ◌+◌, ◌≡◌, ◌⊎◌, refl, String, true, false, List, [], ◌∷◌, none, some, take,
  get_elem?, arith,
}
use syntor.Common.Dict.{lookup}
use mathlib.Core.List.{Permᴰ}
use syntor.Tools.{ToolCall, Tool, Outcome, returned, ExecuteOptions, SecurityChecker}
use syntor.Tools.Registry.{get_tool, get_definition}
use syntor.Tools.Executor.{
  Executor, is_modifying, run_tool, violation, parallel_calls, execute_single, execute_batch,
}
use syntor.Tools.Executor.Gates.{Refuses, DryRuns, Runs, Passes, execute_single_gates}
use syntor.Tools.Executor.Batches.{world_after, execute_batch_lem}
use syntor.Tools.Executor.Safety.{execute_batch-keeps}

abbrev outcome_of : ℕ → Outcome ℕ
outcome_of n = returned (
    some record {
      call_id = "";
      tool_name = "";
      success = true;
      output = some n;
      error = none;
      truncated = false;
    })

abbrev reader : Tool ℕ ℕ ℕ
reader = record {
  tool_name = "read_file";
  description = "the counter";
  validate = λ p. none;
  execute = λ timeout p w. (outcome_of w, w);
}

abbrev writer : Tool ℕ ℕ ℕ
writer = record {
  tool_name = "write_file";
  description = "adds to the counter";
  validate = λ p. elim p [ zero ↦ some "nothing to add" | suc n ↦ none ];
  execute = λ timeout p w. (outcome_of (w + p), w + p);
}

abbrev no_seven : SecurityChecker ℕ
no_seven = record {
  check = λ call def. elim call.parameters [ zero ↦ none | suc n ↦ none ];
  requires_approval = λ call def plan. false;
}

abbrev counter : Executor ℕ ℕ ℕ
counter = record {
  registry = record {
    tools = ("read_file", reader) ∷ ("write_file", writer) ∷ [];
    definitions = [];
  };
  security_checker = some no_seven;
  max_concurrent = 5;
  default_timeout = 120;
}

abbrev options : ExecuteOptions
options = record {
  require_approval = false;
  working_dir = "";
  timeout = 0;
  dry_run = false;
  plan_mode = false;
}

abbrev shown : ℕ → String
shown d = "2m0s"

abbrev ignored : String → ℕ
ignored s = 0

abbrev read_call : ToolCall ℕ
read_call = record { id = "r"; name = "read_file"; parameters = 0 }

abbrev write_call : ToolCall ℕ
write_call = record { id = "w"; name = "write_file"; parameters = 5 }

abbrev wrong_call : ToolCall ℕ
wrong_call = record { id = "x"; name = "write_file"; parameters = 0 }

abbrev batch : List (ToolCall ℕ)
batch = read_call ∷ write_call ∷ read_call ∷ write_call ∷ []

abbrev other_order : List (ℕ × ToolCall ℕ)
other_order = (2, read_call) ∷ (0, read_call) ∷ []

other_order-Permᴰ : Permᴰ other_order (parallel_calls 0 batch)
unfolding parallel_calls is_modifying
other_order-Permᴰ = Permᴰ.swap refl refl

execute_single_gates_example :
    Refuses shown ignored options counter wrong_call 3
    ⊎ ((tool : Tool ℕ ℕ ℕ) × Passes counter wrong_call tool
        × ((options.dry_run ≡ true) × DryRuns shown ignored options counter wrong_call 3
            ⊎ (options.dry_run ≡ false) × Runs shown ignored options counter tool wrong_call 3))
execute_single_gates_example = execute_single_gates shown ignored options counter wrong_call 3

read_call_reads : (v : ℕ) → (execute_single shown ignored options counter read_call v).1 ≡ v
unfolding execute_single lookup get_tool violation get_definition run_tool
read_call_reads v = refl

execute_batch_lem_example :
    get_elem? (execute_batch shown ignored options counter batch other_order 1).0 3
    ≡ some
        (execute_single shown ignored options counter write_call
          (world_after shown ignored options counter (take 3 batch) 1)).0
unfolding is_modifying
execute_batch_lem_example =
    (execute_batch_lem shown ignored options counter batch other_order 1 other_order-Permᴰ (
      (λ r. read_call_reads),
      ((λ r. absurd (ground arith)), ((λ r. read_call_reads), ((λ r. absurd (ground arith)), tt))),
    )).2
      3 write_call refl

abbrev AtLeastOne : ℕ → Type 0
AtLeastOne zero = ⊥
AtLeastOne (suc n) = Unit

execute_batch-keeps_example :
    AtLeastOne
      (execute_batch shown ignored
        (record options { dry_run = true })
        counter
        batch
        other_order
        1).1
execute_batch-keeps_example =
    execute_batch-keeps shown ignored (record options { dry_run = true }) counter AtLeastOne
      (λ call tool timeout w passes real h. absurd (ground arith)) batch other_order 1 tt
