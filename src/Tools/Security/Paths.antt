-- ===== src/Tools/Security/Paths.antt =====
-- PathValidator and CommandValidator of pkg/tools/security/validator.go; an error is its text.
use syntor.Common.{
  ◌≡◌, eq_refl, inl, inr, refl, sym, subst, ◌∙◌, String, str_append, str_eq, Bool, true, false, not,
  ◌&&◌, ◌||◌, List, [], ◌∷◌, ◌++◌, Option, none, some, starts_with, slice, len, find?,
  if◌then◌else◌, arith, Option-cases,
}
use syntor.Tools.Security.{Library}

pub record PathValidator : Type 0 where
  pub working_dir : String
  pub denied_paths : List String
  pub denied_names : List String
  pub allowed_paths : List String

-- NewPathValidator
unfoldable pub new_path_validator : String → PathValidator
new_path_validator working_dir = record {
  working_dir = working_dir;
  denied_paths =
      "/etc/shadow" ∷ "/etc/passwd" ∷ "/etc/sudoers" ∷ "~/.ssh" ∷ "~/.gnupg" ∷ "~/.aws/credentials"
      ∷ "~/.config/gcloud" ∷ [];
  denied_names =
      ".env" ∷ ".env.local" ∷ ".env.production" ∷ "*.pem" ∷ "*.key" ∷ "*.p12" ∷ "*.pfx" ∷ "id_rsa"
      ∷ "id_ed25519" ∷ "credentials.json" ∷ "secrets.yaml" ∷ "secrets.yml" ∷ [];
  allowed_paths = [];
}

-- SetWorkingDir, AddDeniedPath and AddAllowedPath
unfoldable pub set_working_dir : String → PathValidator → PathValidator
set_working_dir dir v = record v { working_dir = dir }

unfoldable pub add_denied_path : String → PathValidator → PathValidator
add_denied_path path v = record v { denied_paths = v.denied_paths ++ path ∷ [] }

unfoldable pub add_allowed_path : String → PathValidator → PathValidator
add_allowed_path path v = record v { allowed_paths = v.allowed_paths ++ path ∷ [] }

-- `strings.Contains`
abbrev pub contains_text : String → String → Bool
contains_text s part = elim (find? s part) [ none ↦ false | some at ↦ true ]

-- `path[1:]`
abbrev pub after_first : String → String
after_first path = slice path 1 (len path)

abbrev pub text_or_empty : Option String → String
text_or_empty none = ""
text_or_empty (some s) = s

if_none :
    (a b c d : Bool) (p q r s : String)
    → (if a then some p else if b then some q else if c then some r else if d then some s else none)
      ≡ none
    → (a ≡ false) × (b ≡ false) × (c ≡ false) × (d ≡ false)
if_none a b c d p q r s h = ground arith

module _ (lib : Library) where
  -- The expansion of a home directory; `none` is its error.
  unfoldable pub expand_home : String → Option String
  expand_home path =
      if starts_with path "~"
      then elim lib.user_home_dir [
        | none ↦ none
        | some home ↦ some (lib.join home (after_first path))
      ]
      else some path

  -- The check for a path traversal
  unfoldable pub is_traversal : String → String → Bool
  is_traversal path abs_path = contains_text path ".." && not (str_eq (lib.clean abs_path) abs_path)

  -- The loop over the denied paths
  unfoldable pub is_denied_path : String → List String → Bool
  is_denied_path abs_path [] = false
  is_denied_path abs_path (denied ∷ rest) =
      let expanded =
        if starts_with denied "~"
        then lib.join (text_or_empty lib.user_home_dir) (after_first denied)
        else denied in
      starts_with abs_path expanded || is_denied_path abs_path rest

  -- The loop over the denied names
  unfoldable pub is_denied_name : String → List String → Bool
  is_denied_name base [] = false
  is_denied_name base (pattern ∷ rest) =
      (if contains_text pattern "*" then lib.glob_match pattern base else str_eq base pattern)
      || is_denied_name base rest

  -- Whether a write lies outside of the working directory
  unfoldable pub is_outside : PathValidator → String → Bool
  is_outside v abs_path =
      not (str_eq v.working_dir "")
      && not (starts_with abs_path (text_or_empty (lib.abs v.working_dir)))

  -- The checks of an absolute path
  unfoldable pub check_abs : PathValidator → String → String → Bool → Option String
  check_abs v path abs_path write =
      if is_traversal path abs_path
      then some "path traversal detected"
      else if is_denied_path abs_path v.denied_paths
      then some (str_append "access to path denied: " path)
      else if is_denied_name (lib.base_name abs_path) v.denied_names
      then some (str_append "access to sensitive file denied: " (lib.base_name abs_path))
      else if write && is_outside v abs_path
      then some (str_append "write operations restricted to working directory: " v.working_dir)
      else none

  -- ValidatePath
  unfoldable pub validate_path : PathValidator → String → Bool → Option String
  validate_path v path write = elim (expand_home path) [
    | none ↦ some "cannot expand home directory"
    | some path ↦ elim (lib.abs path) [
      | none ↦ some "invalid path"
      | some abs_path ↦ check_abs v path abs_path write
    ]
  ]

  -- What an accepted path is.
  pub record IsAccepted (v : PathValidator) (path : String) (write : Bool) : Type 0 where
    pub expanded : String
    pub abs_path : String
    pub is_expanded : expand_home path ≡ some expanded
    pub is_abs : lib.abs expanded ≡ some abs_path
    pub no_denied_path : is_denied_path abs_path v.denied_paths ≡ false
    pub no_denied_name : is_denied_name (lib.base_name abs_path) v.denied_names ≡ false
    pub inside : write ≡ true → is_outside v abs_path ≡ false

  pub validate_path_found :
      (v : PathValidator) (path p a : String) (write : Bool)
      → expand_home path ≡ some p
      → lib.abs p ≡ some a
      → validate_path v path write ≡ check_abs v p a write
  unfolding validate_path
  validate_path_found v path p a write e f = rw (validate_path, e, f) refl

  check_abs-IsAccepted :
      (v : PathValidator) (path p a : String) (write : Bool)
      → expand_home path ≡ some p
      → lib.abs p ≡ some a
      → check_abs v p a write ≡ none
      → IsAccepted v path write
  unfolding check_abs
  check_abs-IsAccepted v path p a write e f h =
      let (t, d, n, o) =
        if_none (is_traversal p a) (is_denied_path a v.denied_paths)
          (is_denied_name (lib.base_name a) v.denied_names) (write && is_outside v a)
          "path traversal detected" (str_append "access to path denied: " p)
          (str_append "access to sensitive file denied: " (lib.base_name a))
          (str_append "write operations restricted to working directory: " v.working_dir) h in
      record {
        expanded = p;
        abs_path = a;
        is_expanded = e;
        is_abs = f;
        no_denied_path = d;
        no_denied_name = n;
        inside = λ w. ground (arith, w, o);
      }

  pub IsAccepted-check_abs :
      (v : PathValidator) (path p : String) (write : Bool)
      → (accepted : IsAccepted v path write) → lib.clean accepted.abs_path ≡ accepted.abs_path
      → check_abs v p accepted.abs_path write ≡ none
  unfolding check_abs is_traversal
  IsAccepted-check_abs v path p write accepted cleaned =
      let same : str_eq (lib.clean accepted.abs_path) accepted.abs_path ≡ true =
        subst (λ c. str_eq c accepted.abs_path ≡ true) (sym cleaned) (eq_refl accepted.abs_path) in
      ground (arith, same, accepted.no_denied_path, accepted.no_denied_name, accepted.inside)

  pub validate_path-IsAccepted :
      (v : PathValidator) (path : String) (write : Bool)
      → validate_path v path write ≡ none
      → IsAccepted v path write
  unfolding validate_path
  validate_path-IsAccepted v path write h = elim (Option-cases (expand_home path)) [
    | inl e ↦ absurd (
        let k : some "cannot expand home directory" ≡ none = sym (rw (validate_path, e) refl) ∙ h in
        ground arith)
    | inr (p, e) ↦ elim (Option-cases (lib.abs p)) [
      | inl f ↦ absurd (
          let k : some "invalid path" ≡ none = sym (rw (validate_path, e, f) refl) ∙ h in
          ground arith)
      | inr (a, f) ↦
          check_abs-IsAccepted v path p a write e f
            (sym (validate_path_found v path p a write e f) ∙ h)
    ]
  ]
