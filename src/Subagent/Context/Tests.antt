-- ===== src/Subagent/Context/Tests.antt =====
-- Contexts at concrete inputs; a path with no first byte 47 ('/') is put under the root by `abs`.
use syntor.Common.{
  ℕ, ◌≡◌, ◌↔◌, refl, inl, inr, List, [], ◌∷◌, Option, none, some, ◌==◌, if◌then◌else◌,
}
use syntor.Subagent.Context.{Context, restricted_context, validate_path}
use syntor.Subagent.Context.Grants.{validate_path_lem, restricted_context_lem, Begins}

abbrev abs : List ℕ → Option (List ℕ)
abs [] = none
abs (b ∷ bs) = some (if b == 47 then b ∷ bs else 47 ∷ b ∷ bs)

-- "/w", "w/f" and "/wx"
abbrev work : List ℕ
work = 47 ∷ 119 ∷ []

abbrev file : List ℕ
file = 119 ∷ 47 ∷ 102 ∷ []

abbrev sibling : List ℕ
sibling = 47 ∷ 119 ∷ 120 ∷ []

abbrev sandbox : Context
sandbox = restricted_context "s" work

validate_path_lem_example : validate_path abs (restricted_context "s" work) file ≡ none
unfolding restricted_context
validate_path_lem_example =
    (validate_path_lem abs (restricted_context "s" work) file).1
      (47 ∷ file, refl, λ h. absurd h, inr (inl (47 ∷ 102 ∷ [], refl)))

-- A directory beside the working directory passes too.
restricted_context_lem_example : (validate_path abs sandbox sibling ≡ none) ↔ Begins sibling work
restricted_context_lem_example = (restricted_context_lem abs "s" "glob" work sibling sibling refl).3
