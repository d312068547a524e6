-- ===== src/Resilience/Recovery/Versions.antt =====
-- What a saved checkpoint in the memory store is good for, and until when.
use syntor.Common.{
  ℕ, ◌+◌, ◌≡◌, ◌≢◌, refl, ap, ◌∙◌, String, List, [], ◌∷◌, Option, none, some, false, All, eq_iff,
  eq_refl, arith,
}
use syntor.Common.Dict.{lookup, lookup-insert, lookup-delete}
use syntor.Resilience.Recovery.{
  Checkpoint, Created, in_memory_store, memory_save, memory_load, memory_delete, recovery_failed,
  no_checkpoint, has_checkpoint, RecoveryManager, version_of, extract, next_checkpoint,
  save_checkpoint, created, save_failed, recover, restore, Recovered, recovered, not_recovered,
  register_state_extractor, register_state_restorer, delete_checkpoint,
}

-- The steps that change a manager: the saving of a checkpoint that some caller of CreateCheckpoint
-- has made, a deletion, and the registrations.
pub data Event (S W : Type 0) : Type 0 where
  saves : Checkpoint S → Event S W
  deletes : String → Event S W
  registers_extractor : String → (W → S) → Event S W
  registers_restorer : String → (W → S → Option W) → Event S W

-- The step changes the agent's checkpoint or its restorer.
abbrev pub Touches : {S : Type 0} {W : Type 0} → String → Event S W → Type 0
Touches agent (saves cp) = cp.agent_id ≡ agent
Touches agent (deletes other) = other ≡ agent
Touches agent (registers_extractor other extractor) = ⊥
Touches agent (registers_restorer other restorer) = other ≡ agent

module _ {S : Type 0} {W : Type 0} (format : ℕ → String) where
  abbrev kept :
      Created W (in_memory_store S) format
      → RecoveryManager W (in_memory_store S) format
      → RecoveryManager W (in_memory_store S) format
  kept (created cp rm') rm = rm'
  kept (save_failed e) rm = rm

  unfoldable pub step :
      RecoveryManager W (in_memory_store S) format
      → Event S W
      → RecoveryManager W (in_memory_store S) format
  step rm (saves cp) = kept (save_checkpoint W (in_memory_store S) format cp rm) rm
  step rm (deletes agent) = delete_checkpoint W (in_memory_store S) format agent rm
  step rm (registers_extractor agent extractor) =
      register_state_extractor W (in_memory_store S) format agent extractor rm
  step rm (registers_restorer agent restorer) =
      register_state_restorer W (in_memory_store S) format agent restorer rm

  unfoldable pub run :
      RecoveryManager W (in_memory_store S) format
      → List (Event S W)
      → RecoveryManager W (in_memory_store S) format
  unfolding step
  run rm [] = rm
  run rm (e ∷ es) = run (step rm e) es

  -- The agent has this checkpoint and this restorer.
  abbrev Holds :
      String
      → Checkpoint S
      → (W → S → Option W)
      → RecoveryManager W (in_memory_store S) format
      → Type 0
  Holds agent cp restorer rm =
      (lookup agent rm.contents ≡ some cp) × (lookup agent rm.state_restorers ≡ some restorer)

  step-Holds :
      (agent : String) (cp : Checkpoint S) (restorer : W → S → Option W)
      (rm : RecoveryManager W (in_memory_store S) format) (e : Event S W)
      → ¬ (Touches agent e)
      → Holds agent cp restorer rm
      → Holds agent cp restorer (step rm e)
  unfolding step save_checkpoint memory_save delete_checkpoint memory_delete
      register_state_extractor register_state_restorer
  step-Holds agent cp restorer rm (saves other) apart (has, restores) = (
    ground (
      arith,
      lookup-insert rm.contents other.agent_id other agent,
      eq_iff other.agent_id agent,
      apart,
      has,
    ),
    restores,
  )
  step-Holds agent cp restorer rm (deletes other) apart (has, restores) = (
    ground (arith, lookup-delete rm.contents other agent, eq_iff other agent, apart, has),
    restores,
  )
  step-Holds agent cp restorer rm (registers_extractor other extractor) apart h = h
  step-Holds agent cp restorer rm (registers_restorer other r) apart (has, restores) = (
    has,
    ground (
      arith,
      lookup-insert rm.state_restorers other r agent,
      eq_iff other agent,
      apart,
      restores,
    ),
  )

  run-Holds :
      (agent : String) (cp : Checkpoint S) (restorer : W → S → Option W)
      (rm : RecoveryManager W (in_memory_store S) format) (es : List (Event S W))
      → All (λ e. ¬ (Touches agent e)) es
      → Holds agent cp restorer rm
      → Holds agent cp restorer (run rm es)
  unfolding run
  run-Holds agent cp restorer rm [] apart h = h
  run-Holds agent cp restorer rm (e ∷ es) (first, apart) h =
      run-Holds agent cp restorer (step rm e) es apart (step-Holds agent cp restorer rm e first h)

  -- What Recover makes of the restorer's answer.
  abbrev pub restored : Checkpoint S → Option W → Recovered W (in_memory_store S) format
  restored cp none = not_recovered recovery_failed
  restored cp (some world) = recovered cp world

  recover-Holds :
      (agent : String) (cp : Checkpoint S) (restorer : W → S → Option W) (later : W)
      (rm : RecoveryManager W (in_memory_store S) format)
      → Holds agent cp restorer rm
      → recover W (in_memory_store S) format agent later rm ≡ restored cp (restorer later cp.state)
  unfolding recover memory_load restore
  recover-Holds agent cp restorer later rm (has, restores) = ground (arith, has, restores)

  -- With the memory store, a checkpoint serves for recovery until it is replaced. Let an agent have
  -- an extractor when its checkpoint is made and, when it is saved, however long afterwards, a
  -- restorer that reads the contents of the map it is given. Then after any further saves, deletions
  -- and registrations that do not concern the agent, Recover returns this checkpoint when the
  -- restorer succeeds, and the recovery error when it fails. The restorer is given the map that the
  -- extractor returned with the contents that it has in the world at recovery, not those at the time
  -- of the checkpoint. The version is one more than that of the agent's checkpoint when this one was
  -- made, or 1.
  pub recover-next_checkpoint :
      {M : Type 0} (contents : W → S → M) (restore_from : W → M → Option W) (extractor : W → S)
      (empty : S) (agent : String) (now : ℕ) (world later : W)
      (before rm : RecoveryManager W (in_memory_store S) format) (es : List (Event S W))
      → lookup agent before.state_extractors ≡ some extractor
      → lookup agent rm.state_restorers ≡ some (λ w s. restore_from w (contents w s))
      → All (λ e. ¬ (Touches agent e)) es
      → let cp = next_checkpoint W (in_memory_store S) format empty agent now world before in
        (recover W (in_memory_store S) format agent later (run rm (saves cp ∷ es))
          ≡ restored cp (restore_from later (contents later (extractor world))))
        × (cp.version ≡ version_of (lookup agent before.contents) + 1)
  unfolding run step save_checkpoint memory_save memory_load next_checkpoint extract
  recover-next_checkpoint contents restore_from extractor empty agent now world later before rm es
        extracts restores apart =
      let cp = next_checkpoint W (in_memory_store S) format empty agent now world before in
      let restorer = λ (w : W) (s : S). restore_from w (contents w s) in
      let state : cp.state ≡ extractor world = ground (arith, extracts) in
      let first : Holds agent cp restorer (step rm (saves cp)) =
        (ground (arith, lookup-insert rm.contents agent cp agent, eq_refl agent), restores) in
      (
        recover-Holds agent cp restorer later (run rm (saves cp ∷ es))
              (run-Holds agent cp restorer (step rm (saves cp)) es apart first)
            ∙ ap (λ s. restored cp (restorer later s)) state,
        refl,
      )

  -- After DeleteCheckpoint the agent has no checkpoint: HasCheckpoint says so, and Recover fails
  -- with the error for that; every other agent's checkpoint is as it was.
  pub recover-delete :
      (agent : String) (world : W) (rm : RecoveryManager W (in_memory_store S) format)
      → let rm' = delete_checkpoint W (in_memory_store S) format agent rm in
        (recover W (in_memory_store S) format agent world rm' ≡ not_recovered no_checkpoint)
        × (has_checkpoint W (in_memory_store S) format agent rm' ≡ false)
        × ((other : String) → other ≢ agent → lookup other rm'.contents ≡ lookup other rm.contents)
  unfolding recover has_checkpoint delete_checkpoint memory_load memory_delete
  recover-delete agent world rm = (
    ground (arith, lookup-delete rm.contents agent agent, eq_refl agent),
    ground (arith, lookup-delete rm.contents agent agent, eq_refl agent),
    λ other ne. ground (arith, lookup-delete rm.contents agent other, eq_iff agent other),
  )
