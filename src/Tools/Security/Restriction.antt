-- ===== src/Tools/Security/Restriction.antt =====
-- restrictRules: what a project's file can allow.
use syntor.Common.{
  ◌≡◌, ◌⊎◌, inl, inr, refl, sym, ap, subst, ◌∙◌, String, str_eq, true, false, List, [], ◌∷◌, ◌++◌,
  none, some, Any, arith, Bool-cases, Option-cases, eq_iff,
}
use syntor.Common.Dict.{Dict, lookup, insert, lookup-insert}
use syntor.Tools.{Value}
use syntor.Tools.Security.{Library}
use syntor.Tools.Security.AutoAllow.{
  AutoAllowRule, tighten, merge_rules, rules_by_tool, restrict_rules, text_of, extract_path_param,
  matches_any, begins_with_any, matches_command_prefix, is_rule_of, find_rule, check_path_param,
  check_command, refusal_of, evaluate_call,
}

begins_with_any-append :
    (v : String) (ps qs : List String)
    → begins_with_any v (ps ++ qs) ≡ false
    → begins_with_any v ps ≡ false
unfolding begins_with_any
begins_with_any-append v [] qs h = refl
begins_with_any-append v (p ∷ ps) qs h =
    let ih = begins_with_any-append v ps qs in ground (arith, h, ih)

-- A rule in the map of a project's rules is one of the project's.
lookup-rules_by_tool :
    (rs : List AutoAllowRule) (m : Dict AutoAllowRule) (name : String) (pr : AutoAllowRule)
    → lookup name (rules_by_tool rs m) ≡ some pr
    → Any (λ x. x.tool ≡ name) rs ⊎ (lookup name m ≡ some pr)
unfolding rules_by_tool
lookup-rules_by_tool [] m name pr h = inr h
lookup-rules_by_tool (r ∷ rs) m name pr h =
    elim (lookup-rules_by_tool rs (insert r.tool r m) name pr h) [
      | inl later ↦ inl (inr later)
      | inr there ↦ elim (Bool-cases (str_eq r.tool name)) [
        | inl e ↦ inl (inl (ground (arith, e, eq_iff r.tool name)))
        | inr e ↦ inr (ground (arith, e, there, lookup-insert m r.tool r name))
      ]
    ]

-- A rule found in the merged list is a tightened global one.
module _ (lib : Library) where
  matches_any-append :
      (v : String) (ps qs : List String)
      → matches_any lib v (ps ++ qs) ≡ false
      → matches_any lib v ps ≡ false
  unfolding matches_any
  matches_any-append v [] qs h = refl
  matches_any-append v (p ∷ ps) qs h = let ih = matches_any-append v ps qs in ground (arith, h, ih)

  check_path_param-tighten :
      (g pr : AutoAllowRule) (path : String)
      → check_path_param lib (tighten g pr) path ≡ none
      → check_path_param lib g path ≡ none
  unfolding check_path_param tighten
  check_path_param-tighten g pr path h =
      let k = matches_any-append path g.deny_patterns pr.deny_patterns in ground (arith, h, k)

  check_command-tighten :
      (g pr : AutoAllowRule) (cmd : String)
      → check_command lib (tighten g pr) cmd ≡ none
      → check_command lib g cmd ≡ none
  unfolding check_command tighten matches_command_prefix
  check_command-tighten g pr cmd h =
      let k = begins_with_any-append (lib.trim_space cmd) g.deny_commands pr.deny_commands in
      ground (arith, h, k)

  -- No refusal is that of neither check.
  abbrev Accepts : AutoAllowRule → String → Dict Value → Type 0
  Accepts rule name params =
      (check_path_param lib rule (extract_path_param name params) ≡ none)
      × (str_eq name "bash" ≡ true
          → check_command lib rule (text_of (lookup "command" params)) ≡ none)

  refusal_of-Accepts :
      (rule : AutoAllowRule) (name : String) (params : Dict Value)
      → refusal_of lib rule name params ≡ none
      → Accepts rule name params
  unfolding refusal_of
  refusal_of-Accepts rule name params h =
      elim (Option-cases (check_path_param lib rule (extract_path_param name params))) [
        | inl e ↦ (
          e,
          λ bash.
              let k : refusal_of lib rule name params
                  ≡ check_command lib rule (text_of (lookup "command" params)) =
                rw (refusal_of, e, bash) refl in
              sym k ∙ h,
        )
        | inr (reason, e) ↦
            let k : refusal_of lib rule name params ≡ some reason = rw (refusal_of, e) refl in
            let f : some reason ≡ none = sym k ∙ h in absurd (ground arith)
      ]

  Accepts-refusal_of :
      (rule : AutoAllowRule) (name : String) (params : Dict Value)
      → Accepts rule name params
      → refusal_of lib rule name params ≡ none
  unfolding refusal_of
  Accepts-refusal_of rule name params (path, command) = elim (Bool-cases (str_eq name "bash")) [
    | inl bash ↦ rw (refusal_of, path, bash) (command bash)
    | inr not_bash ↦ rw (refusal_of, path, not_bash) refl
  ]

  refusal_of-tighten :
      (g pr : AutoAllowRule) (name : String) (params : Dict Value)
      → refusal_of lib (tighten g pr) name params ≡ none
      → refusal_of lib g name params ≡ none
  refusal_of-tighten g pr name params h =
      let (path, command) = refusal_of-Accepts (tighten g pr) name params h in
      Accepts-refusal_of g name params (
        check_path_param-tighten g pr (extract_path_param name params) path,
        λ bash. check_command-tighten g pr (text_of (lookup "command" params)) (command bash),
      )

  merge_rules_gone :
      (g : AutoAllowRule) (gs : List AutoAllowRule) (m : Dict AutoAllowRule)
      → lookup g.tool m ≡ none
      → merge_rules (g ∷ gs) m ≡ merge_rules gs m
  unfolding merge_rules
  merge_rules_gone g gs m e = rw (merge_rules, e) refl

  merge_rules_listed :
      (g pr : AutoAllowRule) (gs : List AutoAllowRule) (m : Dict AutoAllowRule)
      → lookup g.tool m ≡ some pr
      → merge_rules (g ∷ gs) m ≡ tighten g pr ∷ merge_rules gs m
  unfolding merge_rules
  merge_rules_listed g pr gs m e = rw (merge_rules, e) refl

  -- The rule found is a global one that the project lists, tightened.
  abbrev IsTightened : List AutoAllowRule → Dict AutoAllowRule → String → AutoAllowRule → Type 0
  IsTightened global m name r =
      (g pr : AutoAllowRule) × Any (λ x. x ≡ g) global
      × (is_rule_of lib name g ≡ true)
      × (lookup g.tool m ≡ some pr)
      × (r ≡ tighten g pr)

  IsTightened-later :
      (g : AutoAllowRule) (gs : List AutoAllowRule) (m : Dict AutoAllowRule) (name : String)
      (r : AutoAllowRule)
      → IsTightened gs m name r
      → IsTightened (g ∷ gs) m name r
  IsTightened-later g gs m name r (h, pr, there, is, listed, same) =
      (h, pr, inr there, is, listed, same)

  find_rule-merge_rules :
      (global : List AutoAllowRule) (m : Dict AutoAllowRule) (name : String) (r : AutoAllowRule)
      → find_rule lib (merge_rules global m) name ≡ some r
      → IsTightened global m name r
  unfolding find_rule merge_rules is_rule_of tighten
  find_rule-merge_rules [] m name r h = absurd (ground arith)
  find_rule-merge_rules (g ∷ gs) m name r h = elim (Option-cases (lookup g.tool m)) [
    | inl e ↦
        let k = sym (ap (λ l. find_rule lib l name) (merge_rules_gone g gs m e)) ∙ h in
        IsTightened-later g gs m name r (find_rule-merge_rules gs m name r k)
    | inr (pr, e) ↦
        let k = sym (ap (λ l. find_rule lib l name) (merge_rules_listed g pr gs m e)) ∙ h in
        elim (Bool-cases (is_rule_of lib name g)) [
          | inl is ↦ (g, pr, inl refl, is, e, ground (arith, is, k))
          | inr other ↦
              IsTightened-later g gs m name r
                (find_rule-merge_rules gs m name r (ground (arith, other, k)))
        ]
  ]

  evaluate_call-allowed :
      (rules : List AutoAllowRule) (name : String) (params : Dict Value)
      → (evaluate_call lib rules name params).0 ≡ true
      → (r : AutoAllowRule) × (find_rule lib rules name ≡ some r)
        × (refusal_of lib r name params ≡ none)
  unfolding evaluate_call
  evaluate_call-allowed rules name params h = elim (Option-cases (find_rule lib rules name)) [
    | inl e ↦
        let k : (evaluate_call lib rules name params).0 ≡ false = rw (evaluate_call, e) refl in
        absurd (ground (arith, k, h))
    | inr (r, e) ↦ elim (Option-cases (refusal_of lib r name params)) [
      | inl f ↦ (r, e, f)
      | inr (reason, f) ↦
          let k : (evaluate_call lib rules name params).0 ≡ false = rw (evaluate_call, e, f) refl in
          absurd (ground (arith, k, h))
    ]
  ]

  evaluate_call_one :
      (g : AutoAllowRule) (name : String) (params : Dict Value)
      → is_rule_of lib name g ≡ true
      → refusal_of lib g name params ≡ none
      → (evaluate_call lib (g ∷ []) name params).0 ≡ true
  unfolding evaluate_call find_rule
  evaluate_call_one g name params is accepted =
      let found : find_rule lib (g ∷ []) name ≡ some g = rw (find_rule, is) refl in
      rw (evaluate_call, found, accepted) refl

  -- What the policy allows under a project's restriction is allowed by one of the global rules
  -- alone, and one whose tool the project lists.
  pub evaluate_call-restrict_rules :
      (global project : List AutoAllowRule) (name : String) (params : Dict Value)
      → (evaluate_call lib (restrict_rules global project) name params).0 ≡ true
      → (g : AutoAllowRule) × Any (λ x. x ≡ g) global
        × Any (λ x. x.tool ≡ g.tool) project
        × ((evaluate_call lib (g ∷ []) name params).0 ≡ true)
  unfolding restrict_rules lookup
  evaluate_call-restrict_rules global project name params h =
      let (r, found, accepted) =
        evaluate_call-allowed (restrict_rules global project) name params h in
      let (g, pr, there, is, listed, same) =
        find_rule-merge_rules global (rules_by_tool project []) name r found in
      (
        g,
        there,
        listed_among g.tool pr (lookup-rules_by_tool project [] g.tool pr listed),
        evaluate_call_one g name params is (
            refusal_of-tighten g pr name params
              (subst (λ r. refusal_of lib r name params ≡ none) same accepted)),
      )
    where
      listed_among :
          (name : String) (pr : AutoAllowRule)
          → Any (λ x. x.tool ≡ name) project ⊎ (lookup name [] ≡ some pr)
          → Any (λ x. x.tool ≡ name) project
      listed_among name pr (inl h) = h
      listed_among name pr (inr e) = absurd (ground arith)
