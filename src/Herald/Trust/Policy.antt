-- ===== src/Herald/Trust/Policy.antt =====
-- What Check lets through under any policy.
use syntor.Common.{
  Any, str_eq, ℕ, ◌≡◌, ◌↔◌, ◌⊎◌, inl, inr, refl, String, Bool, true, false, List, [], ◌∷◌, Option,
  none, some, arith, eq_iff, contains, Bool-cases,
}
use syntor.Common.Dict.{lookup}
use syntor.Herald.Trust.{
  TrustPolicy, refused, path_denied, path_not_allowed, op_write, op_execute, matches_any, flag,
  is_empty, check_path, check_operation, check,
}
use syntor.Herald.Trust.Patterns.{Takes, matches_any-Any}

flag→≡ : (o : Option Bool) → flag o ≡ true → o ≡ some true
flag→≡ none e = absurd (ground arith)
flag→≡ (some b) e = ground arith

-- What the path restrictions ask of a policy: no denied pattern takes the target, and an allowed
-- one does unless there is none.
abbrev pub PathAllowed : TrustPolicy → List ℕ → Type 0
PathAllowed policy target =
    ¬ (Any (Takes target) policy.denied_paths)
    × ((policy.allowed_paths ≡ []) ⊎ Any (Takes target) policy.allowed_paths)

is_empty-≡ : (ps : List (List ℕ)) → (is_empty ps ≡ true) ↔ (ps ≡ [])
is_empty-≡ [] = (λ e. refl, λ e. refl)
is_empty-≡ (p ∷ ps) = (λ e. absurd (ground arith), λ e. absurd (ground arith))

check_path_lem :
    (policy : TrustPolicy) (target : List ℕ)
    → ((check_path policy target ≡ none) × PathAllowed policy target)
      ⊎ ((check_path policy target ≡ some (refused (path_denied target)))
          × ¬ (PathAllowed policy target))
      ⊎ ((check_path policy target ≡ some (refused (path_not_allowed target)))
          × ¬ (PathAllowed policy target))
unfolding check_path
check_path_lem policy target =
    let (denied, denied') = matches_any-Any target policy.denied_paths in
    let (allowed, allowed') = matches_any-Any target policy.allowed_paths in
    let (empty, empty') = is_empty-≡ policy.allowed_paths in
    elim (Bool-cases (matches_any target policy.denied_paths)) [
      | inl d ↦ inr (inl (ground (arith, d), λ h. h.0 (denied d)))
      | inr d ↦
          let clear : ¬ (Any (Takes target) policy.denied_paths) =
            λ h. let k = denied' h in ground (arith, k, d) in
          elim (Bool-cases (is_empty policy.allowed_paths)) [
            | inl e ↦ inl (ground (arith, d, e), (clear, inl (empty e)))
            | inr e ↦ elim (Bool-cases (matches_any target policy.allowed_paths)) [
              | inl a ↦ inl (ground (arith, d, e, a), (clear, inr (allowed a)))
              | inr a ↦ inr (
                  inr (
                    ground (arith, d, e, a),
                    λ h. elim h.1 [
                      | inl none_listed ↦ let k = empty' none_listed in ground (arith, k, e)
                      | inr taken ↦ let k = allowed' taken in ground (arith, k, a)
                    ],
                  ))
            ]
          ]
    ]

contains-Any : (op : String) (ops : List String) → (contains op ops ≡ true) ↔ Any (λ o. o ≡ op) ops
unfolding contains
contains-Any op [] = (λ e. absurd (ground arith), λ h. absurd h)
contains-Any op (o ∷ ops) =
    let (others, back) = contains-Any op ops in
    let name = eq_iff o op in
    (
      λ e. elim (Bool-cases (str_eq o op)) [
        | inl this ↦ inl (ground (arith, name, this))
        | inr not_this ↦ inr (others (ground (arith, not_this, e)))
      ],
      λ h. elim h [
        | inl this ↦ ground (arith, name, this)
        | inr later ↦ let m = back later in ground (arith, m)
      ],
    )

check_operation_lem :
    (policy : TrustPolicy) (op : String)
    → ((check_operation policy op).allowed ≡ true)
      ↔ ((contains op policy.allowed_operations ≡ true) ⊎ (lookup op policy.approvals ≡ some true))
unfolding check_operation
check_operation_lem policy op = (
  λ e. ground (arith, flag→≡ (lookup op policy.approvals)),
  λ e. ground (arith, flag→≡ (lookup op policy.approvals)),
)

-- Check in terms of its tests, with what the path restrictions amount to.
check_tests :
    (policy : TrustPolicy) (op : String) (target : List ℕ) (Q : Type 0)
    → ((check_path policy target ≡ none) × Q)
      ⊎ ((check_path policy target ≡ some (refused (path_denied target))) × ¬ Q)
      ⊎ ((check_path policy target ≡ some (refused (path_not_allowed target))) × ¬ Q)
    → ((check policy op target).allowed ≡ true) ↔ (
        (contains op policy.denied_operations ≡ false)
        × ((op ≡ op_write) ⊎ (op ≡ op_execute) → Q)
        × ((contains op policy.allowed_operations ≡ true)
            ⊎ (lookup op policy.approvals ≡ some true)))
unfolding check
check_tests policy op target Q paths =
    ground (arith, paths, check_operation_lem policy op, eq_iff op op_write, eq_iff op op_execute)

-- Check permits an operation exactly when it is not among the policy's denied ones; and, for a write
-- or an execution, no denied pattern takes the target and an allowed one does unless there is none;
-- and it is among the allowed ones or the policy requires its approval. A pattern that ends in a
-- star takes the paths that begin with what is before it, any other its path and those below it.
pub check_lem :
    (policy : TrustPolicy) (op : String) (target : List ℕ)
    → ((check policy op target).allowed ≡ true) ↔ (
        ¬ (Any (λ o. o ≡ op) policy.denied_operations)
        × ((op ≡ op_write) ⊎ (op ≡ op_execute) → PathAllowed policy target)
        × (Any (λ o. o ≡ op) policy.allowed_operations ⊎ (lookup op policy.approvals ≡ some true)))
check_lem policy op target =
    let (tests, back) =
      check_tests policy op target (PathAllowed policy target) (check_path_lem policy target) in
    let (denied, denied') = contains-Any op policy.denied_operations in
    let (allowed, allowed') = contains-Any op policy.allowed_operations in
    (
      λ e.
          let (fine, paths, permits) = tests e in
          (
            λ h. let k = denied' h in ground (arith, k, fine),
            paths,
            elim permits [ inl a ↦ inl (allowed a) | inr a ↦ inr a ],
          ),
      λ (clear, paths, permits). back (
        elim (Bool-cases (contains op policy.denied_operations)) [
          | inl k ↦ absurd (clear (denied k))
          | inr k ↦ k
        ],
        paths,
        elim permits [ inl a ↦ inl (allowed' a) | inr a ↦ inr a ],
      ),
    )
