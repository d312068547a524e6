-- ===== src/Subagent/Context/Grants.antt =====
-- What a context lets an agent do.
use syntor.Common.{
  ℕ, ◌≡◌, ◌↔◌, ◌⊎◌, inl, inr, refl, sym, subst, String, true, ◌||◌, List, [], ◌∷◌, ◌++◌, Option,
  none, some, contains, arith, eq_iff, Any, Bool-cases, Option-cases,
}
use syntor.Subagent.Context.{
  Context, inherit_from, restricted_context, trusted_context, read_only_tools, is_empty,
  validate_tool, has_prefix, has_any_prefix, validate_path, validate_bash, validate_network,
  bash_not_allowed, network_not_allowed, with_denied_paths,
}

-- The path begins with the bytes of the directory.
abbrev pub Begins : List ℕ → List ℕ → Type 0
Begins path dir = (rest : List ℕ) × (path ≡ dir ++ rest)

has_prefix→Begins : (path dir : List ℕ) → has_prefix path dir ≡ true → Begins path dir
unfolding has_prefix
has_prefix→Begins path [] e = (path, refl)
has_prefix→Begins [] (y ∷ dir) e = absurd (ground arith)
has_prefix→Begins (x ∷ path) (y ∷ dir) e =
    let (rest, q) = has_prefix→Begins path dir (ground arith) in (rest, ground arith)

has_prefix-append : (dir rest : List ℕ) → has_prefix (dir ++ rest) dir ≡ true
unfolding has_prefix
has_prefix-append [] rest = refl
has_prefix-append (y ∷ dir) rest = ground (arith, has_prefix-append dir rest)

Begins→has_prefix : (path dir : List ℕ) → Begins path dir → has_prefix path dir ≡ true
Begins→has_prefix path dir (rest, e) =
    subst (λ p. has_prefix p dir ≡ true) (sym e) (has_prefix-append dir rest)

has_any_prefix_iff :
    (path : List ℕ) (dirs : List (List ℕ))
    → (has_any_prefix path dirs ≡ true) ↔ Any (Begins path) dirs
unfolding has_any_prefix
has_any_prefix_iff path [] = (λ e. absurd (ground arith), λ h. absurd h)
has_any_prefix_iff path (d ∷ ds) =
    let (to, from) = has_any_prefix_iff path ds in
    (
      λ e. elim (Bool-cases (has_prefix path d)) [
        | inl y ↦ inl (has_prefix→Begins path d y)
        | inr n ↦ inr (to (ground arith))
      ],
      λ h. elim h [
        | inl b ↦ ground (arith, Begins→has_prefix path d b)
        | inr a ↦ ground (arith, from a)
      ],
    )

has_any_prefix-append :
    (path : List ℕ) (xs ys : List (List ℕ))
    → has_any_prefix path (xs ++ ys) ≡ has_any_prefix path xs || has_any_prefix path ys
unfolding has_any_prefix
has_any_prefix-append path [] ys = refl
has_any_prefix-append path (x ∷ xs) ys = ground (arith, has_any_prefix-append path xs ys)

module _ (abs : List ℕ → Option (List ℕ)) where
  -- ValidatePath accepts a path exactly when it has an absolute path that begins with none of the
  -- denied paths, and with one of the allowed paths unless there is none.
  pub validate_path_lem :
      (c : Context) (path : List ℕ)
      → (validate_path abs c path ≡ none) ↔ (
          (p : List ℕ) × (abs path ≡ some p)
          × ¬ (Any (Begins p) c.constraints.denied_paths)
          × ((is_empty c.constraints.allowed_paths ≡ true)
              ⊎ Any (Begins p) c.constraints.allowed_paths))
  unfolding validate_path
  validate_path_lem c path = elim (Option-cases (abs path)) [
    | inl gone ↦ (λ e. absurd (ground arith), λ h. absurd (ground (arith, h.1)))
    | inr (p, there) ↦
        let (to, from) = has_any_prefix_iff p c.constraints.denied_paths in
        let (to', from') = has_any_prefix_iff p c.constraints.allowed_paths in
        (
          λ e. (p, there, λ h. ground (arith, from h), ground (arith, to')),
          λ (x, found, free, inside).
              let same : x ≡ p = ground arith in
              let free' = subst (λ x. ¬ (Any (Begins x) c.constraints.denied_paths)) same free in
              let inside' =
                subst
                  (λ x.
                    (is_empty c.constraints.allowed_paths ≡ true)
                    ⊎ Any (Begins x) c.constraints.allowed_paths)
                  same inside in
              ground (arith, to, from', free', inside'),
        )
  ]

  -- A child context made by InheritFrom is given what its parent has: for every tool, path, the
  -- shell and the network the validator answers as for the parent; and if paths are then denied
  -- to it, it can still use no path that its parent cannot.
  pub inherit_from_lem :
      (parent : Context) (name : String) (path : List ℕ) (denied : List (List ℕ))
      → let child = inherit_from (some parent) in
        let denied_child = with_denied_paths (parent.constraints.denied_paths ++ denied) child in
        (validate_tool child name ≡ validate_tool parent name)
        × (validate_path abs child path ≡ validate_path abs parent path)
        × (validate_bash child ≡ validate_bash parent)
        × (validate_network child ≡ validate_network parent)
        × (validate_path abs denied_child path ≡ none → validate_path abs parent path ≡ none)
  unfolding inherit_from validate_tool validate_path validate_bash validate_network
      with_denied_paths
  inherit_from_lem parent name path denied = (
    refl,
    refl,
    refl,
    refl,
    elim (Option-cases (abs path)) [
      | inl gone ↦ ground arith
      | inr (p, there) ↦
          ground (arith, has_any_prefix-append p parent.constraints.denied_paths denied)
    ],
  )

  -- A restricted context lets an agent use the four tools that only read and no other, neither the
  -- shell nor the network, and exactly the paths whose absolute path begins with the bytes of its
  -- working directory.
  pub restricted_context_lem :
      (id name : String) (dir path p : List ℕ)
      → abs path ≡ some p
      → let c = restricted_context id dir in
        ((validate_tool c name ≡ none) ↔ (contains name read_only_tools ≡ true))
        × (validate_bash c ≡ some bash_not_allowed)
        × (validate_network c ≡ some network_not_allowed)
        × ((validate_path abs c path ≡ none) ↔ Begins p dir)
  unfolding restricted_context validate_tool validate_bash validate_network validate_path
      has_any_prefix
  restricted_context_lem id name dir path p there =
      let to = has_prefix→Begins p dir in
      let from = Begins→has_prefix p dir in
      (ground arith, refl, refl, (λ e. to (ground arith), λ b. ground (arith, from b)))

  -- A trusted context adds the two tools that write, and the shell, both as a tool and as a right,
  -- and no right to the network; the paths are those of a restricted one.
  pub trusted_context_lem :
      (id name : String) (dir path : List ℕ)
      → let c = trusted_context id dir in
        ((validate_tool c name ≡ none) ↔ (
          (contains name read_only_tools ≡ true)
          ⊎ (name ≡ "write_file")
          ⊎ (name ≡ "edit_file")
          ⊎ (name ≡ "bash")))
        × (validate_bash c ≡ none)
        × (validate_network c ≡ some network_not_allowed)
        × (validate_path abs c path ≡ validate_path abs (restricted_context id dir) path)
  unfolding trusted_context restricted_context validate_tool validate_bash validate_network
      validate_path contains
  trusted_context_lem id name dir path = (
    ground (arith, eq_iff "write_file" name, eq_iff "edit_file" name, eq_iff "bash" name),
    refl,
    refl,
    refl,
  )
