-- ===== src/Common/Dict.antt =====
-- Go's `map[string]V` as an association list with one entry for each key.
use Prim.Native.String.{String}
use mathlib.Core.Path.{◌≡◌, refl, subst}
use mathlib.Core.Logic.{inl, inr}
use mathlib.Core.Option.{Option, none, some}
use mathlib.Core.List.{List, [], ◌∷◌}
use native.Mathlib.Omega.{arith}
use text.Mathlib.TextEquality.{eq_iff}
use syntor.Common.Tests.{Bool-cases, str_eq, if◌then◌else◌}

abbrev pub Dict {ℓ} : Type ℓ → Type ℓ
Dict V = List (String × V)

module _ {ℓ} {V : Type ℓ} where
  -- `m[key]`, and whether it is there
  unfoldable pub lookup : String → Dict V → Option V
  lookup key [] = none
  lookup key (e ∷ rest) = if str_eq e.0 key then some e.1 else lookup key rest

  -- `m[key] = value`
  unfoldable pub insert : String → V → Dict V → Dict V
  insert key value [] = (key, value) ∷ []
  insert key value (e ∷ rest) =
      let other = e ∷ insert key value rest in if str_eq e.0 key then (key, value) ∷ rest else other

  -- `delete(m, key)`; every entry of the key goes, also where a list has several.
  unfoldable pub delete : String → Dict V → Dict V
  delete key [] = []
  delete key (e ∷ rest) = let kept = delete key rest in if str_eq e.0 key then kept else e ∷ kept

  pub lookup-insert :
      (m : Dict V) (key : String) (value : V) (at : String)
      → (lookup at (insert key value m)) ≡ (if str_eq key at then some value else lookup at m)
  unfolding lookup insert
  lookup-insert [] key value at = refl
  lookup-insert (e ∷ rest) key value at =
      let ih = lookup-insert rest key value at in
      ground (arith, ih, eq_iff e.0 key, eq_iff e.0 at, eq_iff key at)

  pub lookup-delete :
      (m : Dict V) (key at : String)
      → (lookup at (delete key m)) ≡ (if str_eq key at then none else lookup at m)
  unfolding lookup delete
  lookup-delete [] key at = ground arith
  lookup-delete (e ∷ rest) key at =
      let ih = lookup-delete rest key at in
      ground (arith, ih, eq_iff e.0 key, eq_iff e.0 at, eq_iff key at)

-- Each key stands in one entry.
abbrev pub IsMap {ℓ} : {V : Type ℓ} → Dict V → Type ℓ
IsMap [] = Unit
IsMap (e ∷ rest) = (lookup e.0 rest ≡ none) × IsMap rest

module _ {ℓ} {V : Type ℓ} where
  pub insert-IsMap : (m : Dict V) (key : String) (value : V) → IsMap m → IsMap (insert key value m)
  unfolding lookup insert
  insert-IsMap [] key value h = (refl, tt)
  insert-IsMap (e ∷ rest) key value h =
      let there = lookup-insert rest key value e.0 in
      ground (arith, there, insert-IsMap rest key value h.1, eq_iff e.0 key, eq_iff key e.0)

  pub delete-IsMap : (m : Dict V) (key : String) → IsMap m → IsMap (delete key m)
  unfolding lookup delete
  delete-IsMap [] key h = tt
  delete-IsMap (e ∷ rest) key h =
      let there = lookup-delete rest key e.0 in
      ground (arith, there, delete-IsMap rest key h.1, eq_iff e.0 key, eq_iff key e.0)

module _ {ℓ κ} {V : Type ℓ} (P : String → V → Type κ) where
  -- Every entry satisfies the predicate.
  abbrev pub Each : Dict V → Type κ
  Each [] = Unit
  Each (e ∷ rest) = P e.0 e.1 × Each rest

  pub Each-insert :
      (m : Dict V) (key : String) (value : V) → P key value → Each m → Each (insert key value m)
  unfolding insert
  Each-insert [] key value p all = (p, tt)
  Each-insert (e ∷ rest) key value p all =
      let ih = Each-insert rest key value p all.1 in ground (arith, ih, eq_iff e.0 key)

  pub Each-delete : (m : Dict V) (key : String) → Each m → Each (delete key m)
  unfolding delete
  Each-delete [] key all = tt
  Each-delete (e ∷ rest) key all =
      let ih = Each-delete rest key all.1 in ground (arith, ih, eq_iff e.0 key)

  pub Each-lookup :
      (m : Dict V) (key : String) (value : V) → Each m → lookup key m ≡ some value → P key value
  unfolding lookup
  Each-lookup [] key value all e = absurd (ground arith)
  Each-lookup (e ∷ rest) key value all found = elim (Bool-cases (str_eq e.0 key)) [
    | inl same ↦
        let k : e.0 ≡ key = ground (arith, eq_iff e.0 key) in
        let v : e.1 ≡ value = ground arith in subst (λ k. P k value) k (subst (P e.0) v all.0)
    | inr other ↦ Each-lookup rest key value all.1 (ground arith)
  ]
