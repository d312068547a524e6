-- ===== src/Subagent/Trust/Earning.antt =====
-- How agent types earn trust, and lose it.
use syntor.Common.{
  ℕ, ◌<◌, ◌≤◌, ◌≡◌, ◌≢◌, ◌⊎◌, inl, inr, sym, ap, subst, ◌∙◌, String, Bool, true, false, List, [],
  ◌∷◌, Option, none, some, arith, eq_iff, All, Option-cases,
}
use syntor.Common.Dict.{lookup}
use syntor.Subagent.Trust.{
  PromotionCriteria, TrustRecord, Manager, new_manager, fresh_record, counted, get_trust_level,
  level2_background,
}
use syntor.Subagent.Trust.Agents.{Event, executes, overrides, demotes, promotes, run, next, history}
use syntor.Subagent.Trust.Refinement.{run-history}

-- A record's level is one of the three, and its successes in a row are among all of them.
abbrev pub IsSound : Option TrustRecord → Type 0
IsSound none = Unit
IsSound (some r) =
    (r.current_trust ≤ level2_background) × (r.consecutive_successes ≤ r.total_successes)

next-IsSound :
    (c : PromotionCriteria) (auto : Bool) (agent : String) (o : Option TrustRecord) (e : Event)
    → IsSound o
    → IsSound (next c auto agent o e)
unfolding counted fresh_record
next-IsSound c auto agent none (executes other true now) h = ground arith
next-IsSound c auto agent none (executes other false now) h = ground arith
next-IsSound c auto agent none (overrides other) h = ground arith
next-IsSound c auto agent none (demotes other) h = ground arith
next-IsSound c auto agent none (promotes other) h = ground arith
next-IsSound c auto agent (some r) (executes other true now) h = ground arith
next-IsSound c auto agent (some r) (executes other false now) h = ground arith
next-IsSound c auto agent (some r) (overrides other) h = ground arith
next-IsSound c auto agent (some r) (demotes other) h = ground arith
next-IsSound c auto agent (some r) (promotes other) h = ground arith

-- A record that no automatic promotion raises above a level: a user has overridden the agent, or
-- it has failed twice.
abbrev pub IsBarred : ℕ → Option TrustRecord → Type 0
IsBarred level none = ⊥
IsBarred level (some r) =
    (r.current_trust ≤ level) × ((0 < r.user_overrides) ⊎ (2 ≤ r.total_failures))

-- The event is not a forced promotion of the agent type.
abbrev pub IsUnforced : String → Event → Type 0
IsUnforced agent (executes other success now) = Unit
IsUnforced agent (overrides other) = Unit
IsUnforced agent (demotes other) = Unit
IsUnforced agent (promotes other) = other ≢ agent

history-IsSound :
    (c : PromotionCriteria) (auto : Bool) (agent : String) (o : Option TrustRecord)
    (es : List Event)
    → IsSound o
    → IsSound (history c auto agent o es)
history-IsSound c auto agent o [] h = h
history-IsSound c auto agent o (e ∷ es) h =
    history-IsSound c auto agent (next c auto agent o e) es (next-IsSound c auto agent o e h)

-- After any history of a new manager, every agent type is at one of the three levels, and a
-- record's successes in a row are at most its successes.
pub run-new-IsSound :
    (c : PromotionCriteria) (auto : Bool) (agent : String) (es : List Event)
    → IsSound (lookup agent (run (new_manager c auto) es).trust_tracker)
      × (get_trust_level agent (run (new_manager c auto) es) ≤ level2_background)
unfolding new_manager get_trust_level lookup
run-new-IsSound c auto agent es =
    let m = new_manager c auto in
    let sound : IsSound (lookup agent (run m es).trust_tracker) =
      subst IsSound (sym (run-history m agent es)) (history-IsSound c auto agent none es tt) in
    (
      sound,
      elim (Option-cases (lookup agent (run m es).trust_tracker)) [
        | inl gone ↦ ground arith
        | inr (r, there) ↦ let s = subst IsSound there sound in ground arith
      ],
    )

-- The event is not a forced demotion of the agent type.
abbrev pub IsUndemoted : String → Event → Type 0
IsUndemoted agent (executes other success now) = Unit
IsUndemoted agent (overrides other) = Unit
IsUndemoted agent (demotes other) = other ≢ agent
IsUndemoted agent (promotes other) = Unit

abbrev IsTop : Option TrustRecord → Type 0
IsTop none = ⊥
IsTop (some r) = r.current_trust ≡ level2_background

next-IsTop :
    (c : PromotionCriteria) (auto : Bool) (agent : String) (r : TrustRecord) (e : Event)
    → IsUndemoted agent e
    → IsTop (some r)
    → IsTop (next c auto agent (some r) e)
unfolding counted
next-IsTop c auto agent r (executes other true now) u h = ground arith
next-IsTop c auto agent r (executes other false now) u h = ground arith
next-IsTop c auto agent r (overrides other) u h = ground arith
next-IsTop c auto agent r (demotes other) u h = ground (arith, eq_iff other agent)
next-IsTop c auto agent r (promotes other) u h = ground arith

history-IsTop :
    (c : PromotionCriteria) (auto : Bool) (agent : String) (o : Option TrustRecord)
    (es : List Event)
    → All (IsUndemoted agent) es
    → IsTop o
    → IsTop (history c auto agent o es)
history-IsTop c auto agent o [] u h = h
history-IsTop c auto agent none (e ∷ es) u h = absurd h
history-IsTop c auto agent (some r) (e ∷ es) (u, us) h =
    history-IsTop c auto agent (next c auto agent (some r) e) es us
      (next-IsTop c auto agent r e u h)

-- An agent type at the highest level stays there however often it fails and its users override it:
-- only a forced demotion takes it down.
pub top_stays :
    (m : Manager) (agent : String) (r : TrustRecord) (es : List Event)
    → lookup agent m.trust_tracker ≡ some r
    → r.current_trust ≡ level2_background
    → All (IsUndemoted agent) es
    → get_trust_level agent (run m es) ≡ level2_background
unfolding get_trust_level
top_stays m agent r es there top undemoted =
    let c = m.promotion_criteria in
    let stays = history-IsTop c m.auto_promote agent (some r) es undemoted top in
    let now : IsTop (lookup agent (run m es).trust_tracker) =
      subst IsTop
        (sym (run-history m agent es ∙ ap (λ o. history c m.auto_promote agent o es) there))
        stays in
    elim (Option-cases (lookup agent (run m es).trust_tracker)) [
      | inl gone ↦ absurd (subst IsTop gone now)
      | inr (r', there') ↦ let b = subst IsTop there' now in ground arith
    ]
