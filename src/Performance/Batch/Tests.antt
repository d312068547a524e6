-- ===== src/Performance/Batch/Tests.antt =====
-- Batches at concrete inputs.
use syntor.Common.{true, ℕ, ◌+◌, ◌≡◌, refl, List, [], ◌∷◌}
use syntor.Performance.Batch.{
  new_batch_processor, stop, add_batch, add_item, loop_take, process_batch, receive_signal, signal,
  take_batch,
}
use syntor.Performance.Batch.Taking.{Delivers}
use syntor.Performance.Batch.Delivery.{
  Event, adds, adds_batch, processes, signals, takes, receives, loop_takes, run, run-new_items,
}

-- The first batch is processed after the second.
abbrev history : List (Event ℕ)
history =
    adds 1
    ∷ adds_batch (2 ∷ 3 ∷ [])
    ∷ signals
    ∷ receives
    ∷ adds 4
    ∷ loop_takes
    ∷ adds 5
    ∷ takes
    ∷ processes 1
    ∷ processes 0
    ∷ adds 6
    ∷ []

history_batches :
    (run (new_batch_processor 2 true) history).processed ≡ (5 ∷ []) ∷ (1 ∷ 2 ∷ 3 ∷ 4 ∷ []) ∷ []
unfolding run new_batch_processor add_item process_batch take_batch loop_take receive_signal signal
    add_batch
history_batches = refl

run-new_items_example :
    Delivers (stop (run (new_batch_processor 2 true) history)) (1 ∷ 2 ∷ 3 ∷ 4 ∷ 5 ∷ 6 ∷ [])
run-new_items_example = (run-new_items 2 history).2

abbrev sum : List ℕ → ℕ
sum [] = 0
sum (n ∷ ns) = n + sum ns
