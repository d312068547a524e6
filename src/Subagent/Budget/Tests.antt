-- ===== src/Subagent/Budget/Tests.antt =====
-- The trackers at concrete inputs.
use syntor.Common.{ℕ, ◌≡◌, refl, List, [], ◌∷◌}
use syntor.Subagent.Budget.{new_token_tracker}
use syntor.Subagent.Budget.Limits.{adds}

-- The second request is too large.
abbrev requests : List ℕ
requests = 60 ∷ 50 ∷ 40 ∷ []

requests_used : (adds requests (new_token_tracker 100)).0.used ≡ 100
unfolding adds new_token_tracker
requests_used = refl
