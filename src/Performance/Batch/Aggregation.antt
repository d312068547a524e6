-- ===== src/Performance/Batch/Aggregation.antt =====
-- What an aggregator hands to its processor.
use syntor.Common.{
  ℕ, ◌+◌, ◌<◌, ◌≡◌, inl, inr, refl, sym, ap, subst, ◌∙◌, List, [], ◌∷◌, ◌++◌, Option, none, some,
  map, ltb, ◌==◌, if◌then◌else◌, length, length-append, arith, Bool-cases, List-cases, All,
}
use mathlib.Core.List.{append-nil, append_assoc}
use syntor.Performance.Batch.{BatchAggregator, new_batch_aggregator, aggregate, flush_rest}
use syntor.Performance.Batch.Taking.{joined}

module _ {ℓ κ} {T : Type ℓ} {R : Type κ} (processor : List T → R) where
  abbrev pub answer_list : Option R → List R
  answer_list none = []
  answer_list (some r) = r ∷ []

  -- The aggregator after the items, and the processor's answers.
  abbrev pub aggregate_all : List T → BatchAggregator T → BatchAggregator T × List R
  aggregate_all [] ba = (ba, [])
  aggregate_all (item ∷ items) ba =
      let (next, answer) = aggregate processor item ba in
      let (end, answers) = aggregate_all items next in (end, answer_list answer ++ answers)

  -- The batches stand for the items up to the aggregator's state, `before` being the items that
  -- it held.
  abbrev IsSplit : ℕ → List T → List T → BatchAggregator T × List R → Type (ℓ ⊔ κ)
  IsSplit size before items (end, answers) =
      (batches : List (List T)) × (answers ≡ map processor batches)
      × All (λ batch. length batch ≡ size) batches
      × (joined batches ++ end.items ≡ before ++ items)
      × (length end.items < size)
      × (end.size ≡ size)

  aggregate_all-IsSplit :
      (items : List T) (ba : BatchAggregator T)
      → length ba.items < ba.size
      → IsSplit ba.size ba.items items (aggregate_all items ba)
  unfolding aggregate
  aggregate_all-IsSplit [] ba room = ([], refl, tt, sym (append-nil ba.items), room, refl)
  aggregate_all-IsSplit (item ∷ items) ba room =
      let all = ba.items ++ item ∷ [] in
      let n : length all ≡ length ba.items + 1 = length-append ba.items (item ∷ []) in
      let regroup = append_assoc ba.items (item ∷ []) items in
      let P = λ (p : BatchAggregator T × Option R).
        IsSplit ba.size ba.items (item ∷ items)
          ((aggregate_all items p.0).0, answer_list p.1 ++ (aggregate_all items p.0).1) in
      elim (Bool-cases (ltb (length all) ba.size)) [
        | inl more ↦
            let kept = record ba { items = all } in
            let waits : aggregate processor item ba ≡ (kept, none) = ground arith in
            let (bs, e, a, j, r, s) = aggregate_all-IsSplit items kept (ground arith) in
            subst P (sym waits) (bs, e, a, j ∙ regroup, r, s)
        | inr full ↦
            let emptied : BatchAggregator T = record ba { items = [] } in
            let hands : aggregate processor item ba ≡ (emptied, some (processor all)) =
              ground arith in
            let (bs, e, a, j, r, s) = aggregate_all-IsSplit items emptied (ground arith) in
            subst P (sym hands) (
              all ∷ bs,
              ap (λ rs. processor all ∷ rs) e,
              (ground arith, a),
              append_assoc all (joined bs) (aggregate_all items emptied).0.items
                  ∙ ap (λ xs. all ++ xs) j
                  ∙ regroup,
              r,
              s,
            )
      ]

  flush_rest_lem :
      (ba : BatchAggregator T)
      → ((flush_rest processor ba).0.items ≡ [])
        × ((flush_rest processor ba).1
            ≡ (if length ba.items == 0 then none else some (processor ba.items)))
  unfolding flush_rest
  flush_rest_lem ba = elim (List-cases ba.items) [
    | inl empty ↦ let n = ap length empty in ground arith
    | inr (i, rest, e) ↦ let n = ap length e in ground arith
  ]

  -- With a batch size above 0, a new aggregator gives the processor its items in order, in batches
  -- of exactly that size, and keeps the rest, which is less than a batch: the answers of Add are the
  -- processor's for those batches, and Flush then gives it the rest, if there is one, and empties
  -- the aggregator.
  pub aggregate_all_lem :
      (size : ℕ) (items : List T)
      → 0 < size
      → let (end, answers) = aggregate_all items (new_batch_aggregator processor size) in
        ((batches : List (List T)) × (answers ≡ map processor batches)
          × All (λ batch. length batch ≡ size) batches
          × (joined batches ++ end.items ≡ items)
          × (length end.items < size))
        × ((flush_rest processor end).0.items ≡ [])
        × ((flush_rest processor end).1
            ≡ (if length end.items == 0 then none else some (processor end.items)))
  unfolding new_batch_aggregator
  aggregate_all_lem size items pos =
      let start = new_batch_aggregator processor size in
      let end = (aggregate_all items start).0 in
      let (bs, e, a, j, r, s) = aggregate_all-IsSplit items start pos in
      ((bs, e, a, j, r), (flush_rest_lem end).0, (flush_rest_lem end).1)
