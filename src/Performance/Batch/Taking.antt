-- ===== src/Performance/Batch/Taking.antt =====
-- What a step of BatchProcessor does to the batches that are taken, processed or in hand.
use syntor.Common.{
  ℕ, zero, suc, ◌≡◌, inl, inr, refl, sym, ap, subst, ◌∙◌, true, List, [], ◌∷◌, ◌++◌, none, some,
  length, arith, some-inj, List-cases, Option-cases, Bool-cases,
}
use mathlib.Core.List.{Perm, append-nil, append_assoc}
use mathlib.Core.List.Perm
use syntor.Performance.Batch.{BatchProcessor, pick, take_batch, process_batch, stop}

pick-Perm {ℓ} :
    {A : Type ℓ} (i : ℕ) (xs : List A) (x : A) (rest : List A)
    → pick i xs ≡ some (x, rest)
    → Perm (x ∷ rest) xs
unfolding pick
pick-Perm i [] x rest e = absurd (ground arith)
pick-Perm zero (y ∷ ys) x rest e = subst (λ p. Perm (p.0 ∷ p.1) (y ∷ ys)) (some-inj e) Perm.rfl
pick-Perm (suc i) (y ∷ ys) x rest e = elim (Option-cases (pick i ys)) [
  | inl gone ↦
      let k : pick (suc i) (y ∷ ys) ≡ none = rw (pick, gone) refl in absurd (ground (arith, k, e))
  | inr ((z, others), there) ↦
      let k : pick (suc i) (y ∷ ys) ≡ some (z, y ∷ others) = rw (pick, there) refl in
      subst (λ p. Perm (p.0 ∷ p.1) (y ∷ ys)) (some-inj (sym k ∙ e))
        (Perm.trans (Perm.swap y z others) (Perm.cons y (pick-Perm i ys z others there)))
]

module _ {ℓ} {T : Type ℓ} where
  -- The batches one after the other.
  abbrev pub joined : List (List T) → List T
  joined [] = []
  joined (xs ∷ xss) = xs ++ joined xss

  joined-snoc : (xss : List (List T)) (xs : List T) → joined (xss ++ xs ∷ []) ≡ joined xss ++ xs
  joined-snoc [] xs = append-nil xs
  joined-snoc (ys ∷ xss) xs =
      ap (λ zs. ys ++ zs) (joined-snoc xss xs) ∙ sym (append_assoc ys (joined xss) xs)

  -- The items are those of some batches, taken in this order, and then the buffer; and each of these
  -- batches was given to the processor, or is in the hand of a caller.
  abbrev pub Delivers : BatchProcessor T → List T → Type ℓ
  Delivers bp items =
      (taken : List (List T)) × (joined taken ++ bp.buffer ≡ items)
      × Perm (bp.processed ++ bp.in_hand) taken

  pub Delivers-moved :
      (bp bp' : BatchProcessor T) (items : List T)
      → bp'.buffer ≡ bp.buffer
      → bp'.processed ≡ bp.processed
      → bp'.in_hand ≡ bp.in_hand
      → Delivers bp items
      → Delivers bp' items
  Delivers-moved bp bp' items b p h (taken, same, perm) =
      (taken, ap (λ t. joined taken ++ t) b ∙ same, rw (p, h) perm)

  pub Delivers-added :
      (bp bp' : BatchProcessor T) (items more : List T)
      → bp'.buffer ≡ bp.buffer ++ more
      → bp'.processed ≡ bp.processed
      → bp'.in_hand ≡ bp.in_hand
      → Delivers bp items
      → Delivers bp' (items ++ more)
  Delivers-added bp bp' items more b p h (taken, same, perm) = (
    taken,
    ap (λ t. joined taken ++ t) b
        ∙ sym (append_assoc (joined taken) bp.buffer more)
        ∙ ap (λ t. t ++ more) same,
    rw (p, h) perm,
  )

  pub take_batch_empty : (bp : BatchProcessor T) → (take_batch bp).buffer ≡ []
  unfolding take_batch
  take_batch_empty bp = elim (List-cases bp.buffer) [
    | inl empty ↦ ground arith
    | inr (i, rest, full) ↦ ground arith
  ]

  pub take_batch-Delivers :
      (bp : BatchProcessor T) (items : List T) → Delivers bp items → Delivers (take_batch bp) items
  unfolding take_batch
  take_batch-Delivers bp items (taken, same, perm) = elim (List-cases bp.buffer) [
    | inl empty ↦
        let e : take_batch bp ≡ bp = ground arith in
        subst (λ b. Delivers b items) (sym e) (taken, same, perm)
    | inr (i, rest, full) ↦
        let e : take_batch bp ≡ record bp { buffer = []; in_hand = bp.in_hand ++ bp.buffer ∷ [] } =
          ground arith in
        subst (λ b. Delivers b items) (sym e)
          (
            taken ++ bp.buffer ∷ [],
            append-nil (joined (taken ++ bp.buffer ∷ [])) ∙ joined-snoc taken bp.buffer ∙ same,
            subst (λ l. Perm l (taken ++ bp.buffer ∷ []))
                (append_assoc bp.processed bp.in_hand (bp.buffer ∷ []))
                (Perm.append_right (bp.buffer ∷ []) perm),
          )
  ]

  pub process_batch-Delivers :
      (bp : BatchProcessor T) (i : ℕ) (items : List T)
      → bp.has_processor ≡ true
      → Delivers bp items
      → Delivers (process_batch i bp) items
  unfolding process_batch
  process_batch-Delivers bp i items has (taken, same, perm) =
      elim (Option-cases (pick i bp.in_hand)) [
        | inl none_there ↦
            let e : process_batch i bp ≡ bp = ground arith in
            subst (λ b. Delivers b items) (sym e) (taken, same, perm)
        | inr ((batch, others), there) ↦
            let e : process_batch i bp
                ≡ record bp { in_hand = others; processed = bp.processed ++ batch ∷ [] } =
              rw (process_batch, there, has) refl in
            subst (λ b. Delivers b items) (sym e)
              (
                taken,
                same,
                Perm.trans
                    (subst (λ l. Perm l (bp.processed ++ bp.in_hand))
                      (sym (append_assoc bp.processed (batch ∷ []) others))
                      (Perm.append_left bp.processed (pick-Perm i bp.in_hand batch others there)))
                    perm,
              )
      ]

  pub take_batch-kept :
      (bp : BatchProcessor T)
      → ((take_batch bp).batch_size ≡ bp.batch_size)
        × ((take_batch bp).has_processor ≡ bp.has_processor)
  unfolding take_batch
  take_batch-kept bp = ground arith

  pub process_batch-kept :
      (bp : BatchProcessor T) (i : ℕ)
      → ((process_batch i bp).batch_size ≡ bp.batch_size)
        × ((process_batch i bp).has_processor ≡ bp.has_processor)
        × ((process_batch i bp).buffer ≡ bp.buffer)
        × ((process_batch i bp).pending_signals ≡ bp.pending_signals)
        × ((process_batch i bp).flush_signal ≡ bp.flush_signal)
        × ((process_batch i bp).flushing ≡ bp.flushing)
  unfolding process_batch
  process_batch-kept bp i = ground arith

  pub stop-Delivers :
      (bp : BatchProcessor T) (items : List T)
      → bp.has_processor ≡ true
      → Delivers bp items
      → Delivers (stop bp) items × ((stop bp).buffer ≡ [])
  unfolding stop
  stop-Delivers bp items has h = elim (List-cases bp.buffer) [
    | inl empty ↦
        let e : stop bp ≡ bp = ground arith in
        (subst (λ b. Delivers b items) (sym e) h, ap (λ b. b.buffer) e ∙ empty)
    | inr (i, rest, full) ↦
        let taken = take_batch bp in
        let e : stop bp ≡ process_batch (length bp.in_hand) taken = ground arith in
        (
          subst (λ b. Delivers b items) (sym e)
              (process_batch-Delivers taken (length bp.in_hand) items
                (ground (arith, take_batch-kept bp)) (take_batch-Delivers bp items h)),
          ground (arith, process_batch-kept taken (length bp.in_hand), take_batch_empty bp),
        )
  ]

  process_only :
      (bp : BatchProcessor T) (batch : List T)
      → bp.in_hand ≡ batch ∷ []
      → (process_batch 0 bp).in_hand ≡ []
  unfolding process_batch pick
  process_only bp batch only =
      let found : pick 0 bp.in_hand ≡ some (batch, []) = ap (pick 0) only in
      elim (Bool-cases bp.has_processor) [
        | inl has ↦ ground (arith, found, has)
        | inr lacks ↦ ground (arith, found, lacks)
      ]

  pub stop_alone : (bp : BatchProcessor T) → bp.in_hand ≡ [] → (stop bp).in_hand ≡ []
  unfolding stop take_batch
  stop_alone bp alone = elim (List-cases bp.buffer) [
    | inl empty ↦ let e : stop bp ≡ bp = ground arith in ap (λ b. b.in_hand) e ∙ alone
    | inr (i, rest, full) ↦
        let taken = take_batch bp in
        let e : stop bp ≡ process_batch (length bp.in_hand) taken = ground arith in
        let hand : taken.in_hand ≡ bp.in_hand ++ bp.buffer ∷ [] = ground arith in
        ap (λ b. b.in_hand) (e ∙ ap (λ h. process_batch (length h) taken) alone)
        ∙ process_only taken bp.buffer (hand ∙ ap (λ h. h ++ bp.buffer ∷ []) alone)
  ]
