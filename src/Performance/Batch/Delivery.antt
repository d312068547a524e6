-- ===== src/Performance/Batch/Delivery.antt =====
-- No item is lost or doubled on its way to the processor.
use syntor.Common.{
  ℕ, ◌≤◌, ◌<◌, ◌≡◌, ◌⊎◌, inl, inr, refl, sym, ap, subst, ◌∙◌, true, List, [], ◌∷◌, ◌++◌, length,
  arith, Bool-cases,
}
use mathlib.Core.List.{append-nil, append_assoc}
use mathlib.Core.List.Perm
use syntor.Performance.Batch.{
  BatchProcessor, new_batch_processor, add_item, add_batch, signal, trigger_flush, take_batch,
  process_batch, receive_signal, loop_take, stop,
}
use syntor.Performance.Batch.Taking.{
  Delivers, Delivers-moved, Delivers-added, take_batch_empty, take_batch-Delivers,
  process_batch-Delivers, take_batch-kept, process_batch-kept, stop-Delivers, stop_alone,
}

-- The steps of callers and of the loop: additions and their signals, the two halves of a flush, and
-- the loop's receipt of the signal and its taking of the buffer.
pub data Event {ℓ} (T : Type ℓ) : Type ℓ where
  adds : T → Event T
  adds_batch : List T → Event T
  processes : ℕ → Event T
  signals takes receives loop_takes : Event T

module _ {ℓ} {T : Type ℓ} where
  abbrev pub added : List (Event T) → List T
  added [] = []
  added (adds item ∷ es) = item ∷ added es
  added (adds_batch items ∷ es) = items ++ added es
  added (processes i ∷ es) = added es
  added (signals ∷ es) = added es
  added (takes ∷ es) = added es
  added (receives ∷ es) = added es
  added (loop_takes ∷ es) = added es

  unfoldable pub step : BatchProcessor T → Event T → BatchProcessor T
  step bp (adds item) = add_item item bp
  step bp (adds_batch items) = add_batch items bp
  step bp (processes i) = process_batch i bp
  step bp signals = signal bp
  step bp takes = take_batch bp
  step bp receives = receive_signal bp
  step bp loop_takes = loop_take bp

  unfoldable pub run : BatchProcessor T → List (Event T) → BatchProcessor T
  unfolding step
  run bp [] = bp
  run bp (e ∷ es) = run (step bp e) es

  -- A buffer that is full has a signal or a flush under way.
  abbrev pub IsSignalled : BatchProcessor T → Type 0
  IsSignalled bp =
      bp.batch_size ≤ length bp.buffer
      → (0 < bp.pending_signals) ⊎ (bp.flush_signal ≡ true) ⊎ (bp.flushing ≡ true)

  abbrev IsGood : List T → BatchProcessor T → Type ℓ
  IsGood items bp =
      Delivers bp items × (bp.has_processor ≡ true) × (0 < bp.batch_size) × IsSignalled bp

  step-Delivers :
      (bp : BatchProcessor T) (e : Event T) (items : List T)
      → bp.has_processor ≡ true
      → Delivers bp items
      → Delivers (step bp e) (items ++ added (e ∷ []))
  unfolding step add_item add_batch signal trigger_flush receive_signal loop_take
  step-Delivers bp (adds item) items has h =
      Delivers-added bp (add_item item bp) items (item ∷ []) (ground arith) (ground arith)
        (ground arith) h
  step-Delivers bp (adds_batch more) items has h =
      subst (λ l. Delivers (add_batch more bp) (items ++ l)) (sym (append-nil more))
        (Delivers-added bp (add_batch more bp) items more (ground arith) (ground arith)
          (ground arith) h)
  step-Delivers bp (processes i) items has h =
      subst (Delivers (process_batch i bp)) (sym (append-nil items))
        (process_batch-Delivers bp i items has h)
  step-Delivers bp signals items has h =
      subst (Delivers (signal bp)) (sym (append-nil items))
        (Delivers-moved bp (signal bp) items (ground arith) (ground arith) (ground arith) h)
  step-Delivers bp takes items has h =
      subst (Delivers (take_batch bp)) (sym (append-nil items)) (take_batch-Delivers bp items h)
  step-Delivers bp receives items has h =
      subst (Delivers (receive_signal bp)) (sym (append-nil items))
        (Delivers-moved bp (receive_signal bp) items (ground arith) (ground arith) (ground arith) h)
  step-Delivers bp loop_takes items has h =
      subst (Delivers (loop_take bp)) (sym (append-nil items)) (elim (Bool-cases bp.flushing) [
        | inl on ↦
            Delivers-moved (take_batch bp) (loop_take bp) items (ground arith) (ground arith)
              (ground arith) (take_batch-Delivers bp items h)
        | inr off ↦
            Delivers-moved bp (loop_take bp) items (ground arith) (ground arith) (ground arith) h
      ])

  step-IsSignalled :
      (bp : BatchProcessor T) (e : Event T)
      → bp.has_processor ≡ true
      → 0 < bp.batch_size
      → IsSignalled bp
      → ((step bp e).has_processor ≡ true) × (0 < (step bp e).batch_size) × IsSignalled (step bp e)
  unfolding step add_item add_batch signal trigger_flush receive_signal loop_take
  step-IsSignalled bp (adds item) has pos h = ground arith
  step-IsSignalled bp (adds_batch items) has pos h = ground arith
  step-IsSignalled bp (processes i) has pos h = ground (arith, process_batch-kept bp i)
  step-IsSignalled bp signals has pos h = ground arith
  step-IsSignalled bp takes has pos h = ground (arith, take_batch-kept bp, take_batch_empty bp)
  step-IsSignalled bp receives has pos h = ground arith
  step-IsSignalled bp loop_takes has pos h = ground (arith, take_batch-kept bp, take_batch_empty bp)

  added-cons : (e : Event T) (es : List (Event T)) → added (e ∷ es) ≡ added (e ∷ []) ++ added es
  added-cons (adds item) es = refl
  added-cons (adds_batch items) es = ap (λ xs. xs ++ added es) (sym (append-nil items))
  added-cons (processes i) es = refl
  added-cons signals es = refl
  added-cons takes es = refl
  added-cons receives es = refl
  added-cons loop_takes es = refl

  run-IsGood :
      (bp : BatchProcessor T) (es : List (Event T)) (items : List T)
      → IsGood items bp
      → IsGood (items ++ added es) (run bp es)
  unfolding run
  run-IsGood bp [] items g = subst (λ l. IsGood l bp) (sym (append-nil items)) g
  run-IsGood bp (e ∷ es) items (delivered, has, pos, signalled) =
      let (has', pos', signalled') = step-IsSignalled bp e has pos signalled in
      subst (λ l. IsGood l (run (step bp e) es))
        (append_assoc items (added (e ∷ [])) (added es)
          ∙ ap (λ l. items ++ l) (sym (added-cons e es)))
        (run-IsGood (step bp e) es (items ++ added (e ∷ []))
          (step-Delivers bp e items has delivered, has', pos', signalled'))

  -- Over any interleaving of the steps of the callers and the loop of a new batch processor that has
  -- a processing function, the items added are, in their order, those of some batches one after the
  -- other and then those of the buffer; each of these batches was given to the function once or is
  -- still in the hand of the caller that took it, and nothing else was given to it. So no item is
  -- lost or doubled, but batches may reach the function in another order. A buffer that has reached
  -- the batch size has a signal or a flush under way, and the next signal, receipt and taking empty
  -- it. Stop, with no other caller at the same time, empties it too, loses no item, and leaves no
  -- batch in hand if there was none.
  pub run-new_items :
      (batch_size : ℕ) (es : List (Event T))
      → let bp = run (new_batch_processor batch_size true) es in
        Delivers bp (added es)
        × (bp.batch_size ≤ length bp.buffer → (loop_take (receive_signal (signal bp))).buffer ≡ [])
        × Delivers (stop bp) (added es)
        × ((stop bp).buffer ≡ [])
        × (bp.in_hand ≡ [] → (stop bp).in_hand ≡ [])
  unfolding new_batch_processor loop_take receive_signal signal trigger_flush
  run-new_items batch_size es =
      let start = new_batch_processor batch_size true in
      let bp = run start es in
      let good : IsGood [] start = (([], refl, Perm.rfl), refl, ground arith, ground arith) in
      let (delivered, has, pos, signalled) = run-IsGood start es [] good in
      let (stopped, empty) = stop-Delivers bp (added es) has delivered in
      (
        delivered,
        λ full.
            let next = receive_signal (signal bp) in
            ground (arith, signalled full, take_batch_empty next),
        stopped,
        empty,
        stop_alone bp,
      )
