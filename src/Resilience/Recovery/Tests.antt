-- ===== src/Resilience/Recovery/Tests.antt =====
-- Checkpoints in the memory store, and the theorems at concrete inputs.
use syntor.Common.{ℕ, ◌≡◌, refl, String, List, [], ◌∷◌, some, arith, eq_iff}
use syntor.Common.Dict.{lookup, insert}
use syntor.Resilience.Recovery.{
  Checkpoint, in_memory_store, RecoveryManager, next_checkpoint, save_checkpoint, create_checkpoint,
  created, recover, generate_checkpoint_id, memory_load, memory_save, extract,
}
use syntor.Resilience.Recovery.Versions.{
  Event, saves, deletes, registers_restorer, run, restored, recover-next_checkpoint,
}

-- A world of one map, of one number, to which every reference leads; times are formatted alike.
abbrev format : ℕ → String
format now = "20240101000000"

abbrev manager : RecoveryManager {S = String} ℕ (in_memory_store String) format
manager = record {
  contents = [];
  state_extractors = ("a", λ w. "map of a") ∷ [];
  state_restorers = ("a", λ w s. some w) ∷ [];
}

abbrev saved : Checkpoint String
saved = record {
  id = "a-20240101000000-v1";
  agent_id = "a";
  timestamp = 3;
  state = "map of a";
  version = 1;
}

saved_next : next_checkpoint ℕ (in_memory_store String) format "new" "a" 3 42 manager ≡ saved
unfolding next_checkpoint lookup memory_load generate_checkpoint_id extract
saved_next = refl

saved_created :
    create_checkpoint ℕ (in_memory_store String) format "new" "a" 3 42 manager
    ≡ created saved (record manager { contents = ("a", saved) ∷ [] })
unfolding create_checkpoint save_checkpoint next_checkpoint lookup insert memory_load memory_save
    generate_checkpoint_id extract
saved_created = refl

abbrev others : List (Event String ℕ)
others =
    saves (record saved { agent_id = "b" })
    ∷ deletes "c"
    ∷ registers_restorer "b" (λ w s. some w)
    ∷ []

-- The map held 42 at the checkpoint and holds 7 at recovery, which is what is restored.
recover-next_checkpoint_example :
    recover ℕ (in_memory_store String) format "a" 7 (run format manager (saves saved ∷ others))
    ≡ restored format saved (some 7)
unfolding next_checkpoint lookup memory_load generate_checkpoint_id extract
recover-next_checkpoint_example =
    (recover-next_checkpoint format (λ w s. w) (λ w m. some m) (λ w. "map of a") "new" "a" 3 42 7
      manager manager others refl refl
      (
        (λ e. ground (arith, eq_iff "b" "a")),
        ((λ e. ground (arith, eq_iff "c" "a")), ((λ e. ground (arith, eq_iff "b" "a")), tt)),
      )).0
