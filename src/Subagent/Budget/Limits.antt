-- ===== src/Subagent/Budget/Limits.antt =====
-- What the trackers let through, over any sequence of requests.
use syntor.Common.{
  ℕ, zero, suc, ◌+◌, ◌-◌, ◌<◌, ◌≤◌, ◌≡◌, refl, true, List, [], ◌∷◌, none, some, ltb, leb,
  if◌then◌else◌, arith,
}
use syntor.Subagent.Budget.{
  TokenTracker, new_token_tracker, add, remaining_tokens, ToolCallTracker, new_tool_call_tracker,
  increment, remaining_calls,
}

-- The tracker after the requests, and how much of them it accepted.
unfoldable pub adds : List ℕ → TokenTracker → TokenTracker × ℕ
unfolding add
adds [] t = (t, 0)
adds (n ∷ ns) t =
    let (t', accepted) = add n t in
    let (end, total) = adds ns t' in (end, (if accepted then n else 0) + total)

adds_lem :
    (ns : List ℕ) (t : TokenTracker)
    → (0 < t.limit → t.used ≤ t.limit)
    → ((adds ns t).0.limit ≡ t.limit)
      × ((adds ns t).0.used ≡ t.used + (adds ns t).1)
      × (0 < t.limit → (adds ns t).0.used ≤ t.limit)
unfolding adds
adds_lem [] t h = ground arith
adds_lem (n ∷ ns) t h = let ih = adds_lem ns (add n t).0 (ground arith) in ground (arith, ih)

-- Over any sequence of requests to a new token tracker, the tokens used are those of the requests
-- that were accepted; with a limit above 0 they never exceed it, and what remains is the limit less
-- them, while a request is accepted exactly when that much remains; without one every request is
-- accepted.
pub adds-new :
    (limit : ℕ) (ns : List ℕ) (n : ℕ)
    → let (t, total) = adds ns (new_token_tracker limit) in
      (t.used ≡ total)
      × (0 < limit
          → (total ≤ limit)
            × (remaining_tokens t ≡ some (limit - total))
            × ((add n t).1 ≡ leb n (limit - total)))
      × (limit ≡ 0 → (remaining_tokens t ≡ none) × ((add n t).1 ≡ true))
unfolding new_token_tracker add remaining_tokens
adds-new limit ns n =
    let ih = adds_lem ns (new_token_tracker limit) (ground arith) in ground (arith, ih)

-- The tracker after so many calls.
unfoldable pub increments : ℕ → ToolCallTracker → ToolCallTracker
unfolding increment
increments zero t = t
increments (suc n) t = (increment (increments n t)).0

abbrev pub min : ℕ → ℕ → ℕ
min a b = if leb a b then a else b

increments_limit : (limit n : ℕ) → (increments n (new_tool_call_tracker limit)).limit ≡ limit
unfolding increments new_tool_call_tracker
increments_limit limit zero = refl
increments_limit limit (suc n) = let ih = increments_limit limit n in ground (arith, ih)

-- A new tracker of tool calls with a limit above 0 accepts exactly that many: after any number of
-- calls it has counted that number or the limit, the smaller of the two, the rest remains, and it
-- accepts one more exactly when the limit is not reached. Without a limit it counts every call.
pub increments-new :
    (limit n : ℕ)
    → let t = increments n (new_tool_call_tracker limit) in
      (0 < limit
        → (t.count ≡ min n limit)
          × (remaining_calls t ≡ some (limit - min n limit))
          × ((increment t).1 ≡ ltb n limit))
      × (limit ≡ 0 → (t.count ≡ n) × (remaining_calls t ≡ none) × ((increment t).1 ≡ true))
unfolding new_tool_call_tracker increments remaining_calls
increments-new limit zero = ground arith
increments-new limit (suc n) =
    let ih = increments-new limit n in let l = increments_limit limit n in ground (arith, ih, l)
