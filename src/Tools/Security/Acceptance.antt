-- ===== src/Tools/Security/Acceptance.antt =====
-- Which paths ValidatePath of pkg/tools/security/validator.go accepts.
use syntor.Common.{
  ◌≡◌, ◌≢◌, ◌↔◌, ◌⊎◌, inl, inr, refl, ◌∙◌, String, Bool, true, false, List, [], ◌∷◌, none, some,
  starts_with, All, arith, eq_iff, Bool-cases, Option-cases,
}
use syntor.Tools.Security.{Library}
use syntor.Tools.Security.Paths.{
  PathValidator, contains_text, after_first, text_or_empty, expand_home, is_denied_path,
  is_denied_name, is_outside, validate_path, IsAccepted, validate_path-IsAccepted,
  validate_path_found, IsAccepted-check_abs,
}

module _ (lib : Library) where
  -- A path that begins with a tilde stands for one in the home directory, which there must be.
  abbrev pub Expands : String → String → Type 0
  Expands path p =
      (starts_with path "~" ≡ false) × (p ≡ path)
      ⊎ (starts_with path "~" ≡ true)
        × ((home : String) × (lib.user_home_dir ≡ some home)
            × (p ≡ lib.join home (after_first path)))

  -- The path does not begin with the denied one, which may stand for one in the home directory.
  abbrev pub Avoids : String → String → Type 0
  Avoids abs_path denied =
      (starts_with denied "~" ≡ false → starts_with abs_path denied ≡ false)
      × (starts_with denied "~" ≡ true
          → starts_with abs_path (lib.join (text_or_empty lib.user_home_dir) (after_first denied))
            ≡ false)

  -- The name is not the denied one, nor does it match it as a pattern if there is a star in it.
  abbrev pub Differs : String → String → Type 0
  Differs base pattern =
      (contains_text pattern "*" ≡ false → base ≢ pattern)
      × (contains_text pattern "*" ≡ true → lib.glob_match pattern base ≡ false)

  -- What the validator asks of a path, and for a write where there is a working directory.
  pub record Permits (v : PathValidator) (path : String) (write : Bool) : Type 0 where
    pub expanded : String
    pub abs_path : String
    pub is_expanded : Expands path expanded
    pub is_abs : lib.abs expanded ≡ some abs_path
    pub avoids : All (Avoids abs_path) v.denied_paths
    pub differs : All (Differs (lib.base_name abs_path)) v.denied_names
    pub inside :
        write ≡ true
        → v.working_dir ≢ ""
        → starts_with abs_path (text_or_empty (lib.abs v.working_dir)) ≡ true

  expand_home-Expands : (path p : String) → (expand_home lib path ≡ some p) ↔ Expands path p
  unfolding expand_home
  expand_home-Expands path p = elim (Bool-cases (starts_with path "~")) [
    | inr plain ↦ (λ e. inl (plain, ground (arith, plain, e)), λ x. ground (arith, plain, x))
    | inl tilde ↦ elim (Option-cases lib.user_home_dir) [
      | inl homeless ↦ (
        λ e. absurd (ground (arith, tilde, homeless, e)),
        λ x. elim x [
          | inl (plain, same) ↦ absurd (ground (arith, tilde, plain))
          | inr (t, (home, there, same)) ↦ absurd (ground (arith, homeless, there))
        ],
      )
      | inr (home, there) ↦ (
        λ e. inr (tilde, (home, there, ground (arith, tilde, there, e))),
        λ x. elim x [
          | inl (plain, same) ↦ absurd (ground (arith, tilde, plain))
          | inr (t, (other, here, same)) ↦ ground (arith, tilde, there, here, same)
        ],
      )
    ]
  ]

  is_denied_path-Avoids :
      (a : String) (ds : List String) → (is_denied_path lib a ds ≡ false) ↔ All (Avoids a) ds
  unfolding is_denied_path
  is_denied_path-Avoids a [] = (λ e. tt, λ h. refl)
  is_denied_path-Avoids a (d ∷ ds) =
      let (to, from) = is_denied_path-Avoids a ds in
      (
        λ e. (
          (λ plain. ground (arith, plain, e), λ tilde. ground (arith, tilde, e)),
          to (ground (arith, e)),
        ),
        λ h. let rest = from h.1 in ground (arith, h.0, rest),
      )

  is_denied_name-Differs :
      (base : String) (ps : List String)
      → (is_denied_name lib base ps ≡ false) ↔ All (Differs base) ps
  unfolding is_denied_name
  is_denied_name-Differs base [] = (λ e. tt, λ h. refl)
  is_denied_name-Differs base (p ∷ ps) =
      let (to, from) = is_denied_name-Differs base ps in
      let name = eq_iff base p in
      (
        λ e. (
          (λ plain same. ground (arith, plain, e, name, same), λ star. ground (arith, star, e)),
          to (ground (arith, e)),
        ),
        λ h. let rest = from h.1 in ground (arith, h.0, rest, name),
      )

  is_outside-inside :
      (v : PathValidator) (a : String)
      → (is_outside lib v a ≡ false)
        ↔ (v.working_dir ≢ "" → starts_with a (text_or_empty (lib.abs v.working_dir)) ≡ true)
  unfolding is_outside
  is_outside-inside v a =
      let name = eq_iff v.working_dir "" in
      (λ e set. ground (arith, e, name, set), λ h. ground (arith, h, name))

  -- Where an absolute path is clean, a path is accepted just when it has an absolute form, after
  -- the expansion of a home directory, that begins with no denied path, whose name is no denied
  -- name and matches no denied pattern, and that for a write, where a working directory is set,
  -- begins with the text of its absolute form (the empty text if it has none). With no working
  -- directory set, a write may go wherever a read may.
  pub validate_path_iff :
      (v : PathValidator) (path : String) (write : Bool)
      → ((p a : String) → lib.abs p ≡ some a → lib.clean a ≡ a)
      → (validate_path lib v path write ≡ none) ↔ Permits v path write
  validate_path_iff v path write cleans = (
    λ h.
        let k = validate_path-IsAccepted lib v path write h in
        record {
          expanded = k.expanded;
          abs_path = k.abs_path;
          is_expanded = (expand_home-Expands path k.expanded).0 k.is_expanded;
          is_abs = k.is_abs;
          avoids = (is_denied_path-Avoids k.abs_path v.denied_paths).0 k.no_denied_path;
          differs =
              (is_denied_name-Differs (lib.base_name k.abs_path) v.denied_names).0 k.no_denied_name;
          inside = λ w. (is_outside-inside v k.abs_path).0 (k.inside w);
        },
    λ p.
        let expanded = (expand_home-Expands path p.expanded).1 p.is_expanded in
        let accepted : IsAccepted lib v path write = record {
          expanded = p.expanded;
          abs_path = p.abs_path;
          is_expanded = expanded;
          is_abs = p.is_abs;
          no_denied_path = (is_denied_path-Avoids p.abs_path v.denied_paths).1 p.avoids;
          no_denied_name =
              (is_denied_name-Differs (lib.base_name p.abs_path) v.denied_names).1 p.differs;
          inside = λ w. (is_outside-inside v p.abs_path).1 (p.inside w);
        } in
        validate_path_found lib v path p.expanded p.abs_path write expanded p.is_abs
        ∙ IsAccepted-check_abs lib v path p.expanded write accepted
            (cleans p.expanded p.abs_path p.is_abs),
  )
