-- ===== src/Resilience/Recovery.antt =====
-- The checkpoints of pkg/resilience/recovery.go.
-- A Go map is a reference: `S` is the type of references to state maps, whose contents belong to the
-- world, of type `W`, on which the extractors and restorers that agents register act. A checkpoint
-- holds the reference. CreateCheckpoint calls the store twice without a lock, which `next_checkpoint`
-- and `save_checkpoint` are. Formatting of a time is the parameter `format`.
pub mod Versions
mod Tests
use syntor.Common.{
  ℕ, ◌+◌, ◌%◌, ◌≡◌, subst, String, str_append, str_eq, Bool, true, false, List, [], ◌∷◌, Option,
  none, some, ◌==◌, if◌then◌else◌, arith,
}
use syntor.Common.Dict.{Dict, lookup, insert, delete, lookup-insert, lookup-delete}

pub record Checkpoint (S : Type 0) : Type 0 where
  pub id : String
  pub agent_id : String
  pub timestamp : ℕ
  pub state : S
  pub version : ℕ

pub data Error : Type 0 where
  no_checkpoint recovery_failed checkpoint_failed : Error

-- The interface CheckpointStore: `none` is an error.
pub record CheckpointStore (S : Type 0) : Type 1 where
  pub Contents : Type 0
  pub save : Contents → Checkpoint S → Option Contents
  pub load : Contents → String → Option (Checkpoint S)
  pub remove : Contents → String → Contents

-- InMemoryCheckpointStore: a map from agent ids.
abbrev pub InMemory : Type 0 → Type 0
InMemory S = Dict (Checkpoint S)

module _ {S : Type 0} where
  unfoldable pub memory_save : InMemory S → Checkpoint S → Option (InMemory S)
  memory_save m cp = some (insert cp.agent_id cp m)

  unfoldable pub memory_load : InMemory S → String → Option (Checkpoint S)
  memory_load m agent = lookup agent m

  unfoldable pub memory_delete : InMemory S → String → InMemory S
  memory_delete m agent = delete agent m

-- NewInMemoryCheckpointStore implements the interface.
abbrev pub in_memory_store : (S : Type 0) → CheckpointStore S
in_memory_store S = record {
  Contents = InMemory S;
  save = memory_save;
  load = memory_load;
  remove = memory_delete;
}

abbrev pub digit : ℕ → String
digit n =
    if n == 0
    then "0"
    else if n == 1
    then "1"
    else if n == 2
    then "2"
    else if n == 3
    then "3"
    else if n == 4
    then "4"
    else if n == 5
    then "5"
    else if n == 6
    then "6"
    else if n == 7
    then "7"
    else if n == 8
    then "8"
    else "9"

-- generateCheckpointID
unfoldable pub generate_checkpoint_id : String → String → ℕ → String
generate_checkpoint_id agent stamp version =
    str_append agent (str_append "-" (str_append stamp (str_append "-v" (digit (version % 10)))))

-- The version of the checkpoint that is there; CreateCheckpoint counts on from it.
abbrev pub version_of : {S : Type 0} → Option (Checkpoint S) → ℕ
version_of none = 0
version_of (some cp) = cp.version

module _ {S : Type 0} (W : Type 0) (store : CheckpointStore S) (format : ℕ → String) where
  pub record RecoveryManager : Type 0 where
    pub contents : store.Contents
    pub state_extractors : Dict (W → S)
    pub state_restorers : Dict (W → S → Option W)

  unfoldable pub register_state_extractor : String → (W → S) → RecoveryManager → RecoveryManager
  register_state_extractor agent extractor rm = record rm {
    state_extractors = insert agent extractor rm.state_extractors;
  }

  unfoldable pub register_state_restorer :
      String → (W → S → Option W) → RecoveryManager → RecoveryManager
  register_state_restorer agent restorer rm = record rm {
    state_restorers = insert agent restorer rm.state_restorers;
  }

  -- The state of an agent with no extractor is a new map, `empty`.
  unfoldable pub extract : S → String → W → RecoveryManager → S
  extract empty agent world rm = elim (lookup agent rm.state_extractors) [
    | none ↦ empty
    | some extractor ↦ extractor world
  ]

  -- CreateCheckpoint up to the call of Save: the checkpoint that it will save
  unfoldable pub next_checkpoint : S → String → ℕ → W → RecoveryManager → Checkpoint S
  unfolding extract
  next_checkpoint empty agent now world rm =
      let version = version_of (store.load rm.contents agent) + 1 in
      record {
        id = generate_checkpoint_id agent (format now) version;
        agent_id = agent;
        timestamp = now;
        state = extract empty agent world rm;
        version = version;
      }

  pub data Created : Type 0 where
    created : Checkpoint S → RecoveryManager → Created
    save_failed : Error → Created

  -- The rest of CreateCheckpoint
  unfoldable pub save_checkpoint : Checkpoint S → RecoveryManager → Created
  save_checkpoint cp rm = elim (store.save rm.contents cp) [
    | none ↦ save_failed checkpoint_failed
    | some contents ↦ created cp (record rm { contents = contents })
  ]

  -- CreateCheckpoint, with no other caller in between
  unfoldable pub create_checkpoint : S → String → ℕ → W → RecoveryManager → Created
  unfolding next_checkpoint save_checkpoint
  create_checkpoint empty agent now world rm =
      save_checkpoint (next_checkpoint empty agent now world rm) rm

  pub data Recovered : Type 0 where
    recovered : Checkpoint S → W → Recovered
    not_recovered : Error → Recovered

  -- The rest of Recover, with the checkpoint that was loaded.
  restore : String → W → RecoveryManager → Checkpoint S → Recovered
  restore agent world rm cp = elim (lookup agent rm.state_restorers) [
    | none ↦ recovered cp world
    | some restorer ↦ elim (restorer world cp.state) [
      | none ↦ not_recovered recovery_failed
      | some world' ↦ recovered cp world'
    ]
  ]

  unfoldable pub recover : String → W → RecoveryManager → Recovered
  unfolding restore
  recover agent world rm = elim (store.load rm.contents agent) [
    | none ↦ not_recovered no_checkpoint
    | some cp ↦ restore agent world rm cp
  ]

  unfoldable pub has_checkpoint : String → RecoveryManager → Bool
  has_checkpoint agent rm = elim (store.load rm.contents agent) [ none ↦ false | some cp ↦ true ]

  unfoldable pub delete_checkpoint : String → RecoveryManager → RecoveryManager
  delete_checkpoint agent rm = record rm { contents = store.remove rm.contents agent }
