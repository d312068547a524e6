-- ===== src/Subagent/Trust/Promotion.antt =====
-- How many successes in a row the two promotions take.
use syntor.Common.{
  ℕ, ◌+◌, ◌<◌, ◌≡◌, refl, ap, ◌∙◌, String, true, List, [], ◌∷◌, Option, none, some, ltb, ◌==◌,
  if◌then◌else◌, arith, eq_refl, length,
}
use syntor.Common.Dict.{lookup}
use syntor.Subagent.Trust.{
  PromotionCriteria, TrustRecord, Manager, fresh_record, counted, get_trust_level,
}
use syntor.Subagent.Trust.Agents.{Event, executes, run, or_fresh, executed, next, history}
use syntor.Subagent.Trust.Refinement.{run-history}

-- So many successes of an agent type in a row, at the given times.
abbrev pub successes : String → List ℕ → List Event
successes agent [] = []
successes agent (t ∷ ts) = executes agent true t ∷ successes agent ts

abbrev pub level_after : ℕ → ℕ → ℕ
level_after needed n = if ltb n needed then 0 else if n == needed then 1 else 2

-- A record that has succeeded so many times and done nothing else.
abbrev HasEarned : ℕ → ℕ → TrustRecord → Type 0
HasEarned needed n r =
    (r.consecutive_successes ≡ n)
    × (r.user_overrides ≡ 0)
    × (r.total_failures ≡ 0)
    × (r.current_trust ≡ level_after needed n)

next-own :
    (c : PromotionCriteria) (agent : String) (o : Option TrustRecord) (t : ℕ)
    → next c true agent o (executes agent true t) ≡ some (executed c true true t (or_fresh agent o))
next-own c agent o t = rw (eq_refl agent)

history-HasEarned :
    (c : PromotionCriteria) (agent : String) (n : ℕ) (r : TrustRecord) (ts : List ℕ)
    → 0 < c.min_success_count
    → HasEarned c.min_success_count n r
    → (r' : TrustRecord) × (history c true agent (some r) (successes agent ts) ≡ some r')
      × HasEarned c.min_success_count (n + length ts) r'
unfolding counted
history-HasEarned c agent n r [] pos h = (r, refl, ground arith)
history-HasEarned c agent n r (t ∷ ts) pos h =
    let r1 = executed c true true t r in
    let earned : HasEarned c.min_success_count (n + 1) r1 = ground arith in
    let (r', e, h') = history-HasEarned c agent (n + 1) r1 ts pos earned in
    let own = ap (λ o. history c true agent o (successes agent ts)) (next-own c agent (some r) t) in
    (r', ◌∙◌ {c = some r'} own e, ground arith)

history-successes :
    (c : PromotionCriteria) (agent : String) (t : ℕ) (ts : List ℕ)
    → 0 < c.min_success_count
    → (r' : TrustRecord) × (history c true agent none (successes agent (t ∷ ts)) ≡ some r')
      × HasEarned c.min_success_count (1 + length ts) r'
unfolding counted fresh_record
history-successes c agent t ts pos =
    let r1 = executed c true true t (fresh_record agent) in
    let earned : HasEarned c.min_success_count 1 r1 = ground arith in
    let (r', e, h') = history-HasEarned c agent 1 r1 ts pos earned in
    (r', ap (λ o. history c true agent o (successes agent ts)) (next-own c agent none t) ∙ e, h')

-- With automatic promotion, an agent type that the manager does not know yet is at level 0 while
-- its successes, with nothing else in between, are fewer than the criteria ask, at level 1 when
-- they are as many, and at level 2 from the next one on.
pub successes_earn :
    (m : Manager) (agent : String) (ts : List ℕ)
    → m.auto_promote ≡ true
    → 0 < m.promotion_criteria.min_success_count
    → lookup agent m.trust_tracker ≡ none
    → get_trust_level agent (run m (successes agent ts))
      ≡ level_after m.promotion_criteria.min_success_count (length ts)
unfolding get_trust_level run
successes_earn m agent [] auto pos unknown = ground arith
successes_earn m agent (t ∷ ts) auto pos unknown =
    let c = m.promotion_criteria in
    let (r', e, h) = history-successes c agent t ts pos in
    let es = successes agent (t ∷ ts) in
    let found : lookup agent (run m es).trust_tracker ≡ some r' =
      run-history m agent es
      ∙ ap (λ o. history c m.auto_promote agent o es) unknown
      ∙ ap (λ b. history c b agent none es) auto
      ∙ e in
    ground (arith, found, h)
