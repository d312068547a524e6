-- ===== src/Performance/Batch.antt =====
-- BatchProcessor and BatchAggregator of pkg/performance/batch.go.
-- What a method does under the mutex is one step. What it does after the unlocking is another one,
-- before which other callers may do theirs: Add and AddBatch signal, and Flush calls the processor.
-- The background loop receives a signal in one step and takes the buffer in another. A batch that
-- the processor refuses counts as processed, since the code does not keep it either.
pub mod Taking
pub mod Delivery
pub mod Aggregation
mod Tests
use syntor.Common.{
  ℕ, zero, suc, ◌+◌, Bool, true, false, List, [], ◌∷◌, ◌++◌, Option, none, some, leb, ltb, ◌==◌,
  if◌then◌else◌, length,
}

module _ {ℓ} (T : Type ℓ) where
  pub record BatchProcessor : Type ℓ where
    pub batch_size : ℕ
    -- whether the processor is not nil
    pub has_processor : Bool
    pub buffer : List T
    -- how many callers have found the buffer full and not signalled yet
    pub pending_signals : ℕ
    -- whether flushChan holds a signal
    pub flush_signal : Bool
    -- whether the loop has received a signal and not taken the buffer yet
    pub flushing : Bool
    -- the batches that calls of Flush have taken and not given to the processor yet
    pub in_hand : List (List T)
    -- the batches that the processor was given, in that order
    pub processed : List (List T)

-- The entry at an index, and the others.
unfoldable pub pick {ℓ} : {A : Type ℓ} → ℕ → List A → Option (A × List A)
pick i [] = none
pick zero (x ∷ xs) = some (x, xs)
pick (suc i) (x ∷ xs) = elim (pick i xs) [ none ↦ none | some (y, rest) ↦ some (y, x ∷ rest) ]

module _ {ℓ} {T : Type ℓ} where
  -- NewBatchProcessor
  unfoldable pub new_batch_processor : ℕ → Bool → BatchProcessor T
  new_batch_processor batch_size has_processor = record {
    batch_size = if batch_size == 0 then 100 else batch_size;
    has_processor = has_processor;
    buffer = [];
    pending_signals = 0;
    flush_signal = false;
    flushing = false;
    in_hand = [];
    processed = [];
  }

  -- AddBatch, under the mutex
  unfoldable pub add_batch : List T → BatchProcessor T → BatchProcessor T
  add_batch items bp =
      let added = record bp { buffer = bp.buffer ++ items } in
      if leb bp.batch_size (length added.buffer)
      then record added { pending_signals = bp.pending_signals + 1 }
      else added

  -- BatchProcessor.Add, under the mutex
  unfoldable pub add_item : T → BatchProcessor T → BatchProcessor T
  add_item item bp =
      let added = record bp { buffer = bp.buffer ++ item ∷ [] } in
      if leb bp.batch_size (length added.buffer)
      then record added { pending_signals = bp.pending_signals + 1 }
      else added

  -- The channel holds one signal; a further one is dropped.
  unfoldable pub trigger_flush : BatchProcessor T → BatchProcessor T
  trigger_flush bp = record bp { flush_signal = true }

  -- The rest of Add or AddBatch, by a caller that found the buffer full
  unfoldable pub signal : BatchProcessor T → BatchProcessor T
  unfolding trigger_flush
  signal bp = elim bp.pending_signals [
    | zero ↦ bp
    | suc k ↦ trigger_flush (record bp { pending_signals = k })
  ]

  -- BatchProcessor.Flush, under the mutex
  unfoldable pub take_batch : BatchProcessor T → BatchProcessor T
  take_batch bp = elim bp.buffer [
    | [] ↦ bp
    | item ∷ items ↦ record bp { buffer = []; in_hand = bp.in_hand ++ bp.buffer ∷ [] }
  ]

  -- The rest of Flush, by the caller that has the batch at an index
  unfoldable pub process_batch : ℕ → BatchProcessor T → BatchProcessor T
  unfolding pick
  process_batch i bp = elim (pick i bp.in_hand) [
    | none ↦ bp
    | some (batch, others) ↦
        if bp.has_processor
        then record bp { in_hand = others; processed = bp.processed ++ batch ∷ [] }
        else record bp { in_hand = others }
  ]

  -- The loop receives the signal.
  unfoldable pub receive_signal : BatchProcessor T → BatchProcessor T
  receive_signal bp =
      if bp.flush_signal then record bp { flush_signal = false; flushing = true } else bp

  -- The loop takes the buffer, for the signal that it received.
  unfoldable pub loop_take : BatchProcessor T → BatchProcessor T
  unfolding take_batch
  loop_take bp = if bp.flushing then record (take_batch bp) { flushing = false } else bp

  -- BatchProcessor.Stop, once the loop has returned: Flush, with no other caller in between
  unfoldable pub stop : BatchProcessor T → BatchProcessor T
  unfolding take_batch process_batch
  stop bp = elim bp.buffer [
    | [] ↦ bp
    | item ∷ items ↦ process_batch (length bp.in_hand) (take_batch bp)
  ]

module _ {ℓ} (T : Type ℓ) where
  pub record BatchAggregator : Type ℓ where
    pub items : List T
    pub size : ℕ

module _ {ℓ κ} {T : Type ℓ} {R : Type κ} (processor : List T → R) where
  -- NewBatchAggregator
  unfoldable pub new_batch_aggregator : ℕ → BatchAggregator T
  new_batch_aggregator size = record { items = []; size = size }

  -- BatchAggregator.Add: the processor's answer, where a batch is full
  unfoldable pub aggregate : T → BatchAggregator T → BatchAggregator T × Option R
  aggregate item ba =
      let all = ba.items ++ item ∷ [] in
      if ltb (length all) ba.size
      then (record ba { items = all }, none)
      else (record ba { items = [] }, some (processor all))

  -- BatchAggregator.Flush
  unfoldable pub flush_rest : BatchAggregator T → BatchAggregator T × Option R
  flush_rest ba = elim ba.items [
    | [] ↦ (ba, none)
    | item ∷ items ↦ (record ba { items = [] }, some (processor ba.items))
  ]
