-- ===== src/Herald/Trust/Patterns.antt =====
-- Which paths a pattern of a trust policy takes, as matchPath and the loops of Check compute it.
use syntor.Common.{
  Any, ℕ, suc, zero, ◌+◌, ◌-◌, ◌≡◌, ◌≢◌, ◌↔◌, ◌⊎◌, inl, inr, refl, ap, subst, sym, ◌∙◌, Bool, true,
  false, ◌&&◌, ◌||◌, List, [], ◌∷◌, ◌++◌, some, arith, leb, ◌==◌, if◌then◌else◌, length, take, drop,
  get_elem?, length-append, Bool-cases,
}
use syntor.Herald.Trust.{match_last, bytes_eq, star, slash, match_path, matches_any}

bytes_eq_refl : (xs : List ℕ) → bytes_eq xs xs ≡ true
unfolding bytes_eq
bytes_eq_refl [] = refl
bytes_eq_refl (x ∷ xs) = ground (arith, bytes_eq_refl xs)

bytes_eq→≡ : (xs ys : List ℕ) → bytes_eq xs ys ≡ true → xs ≡ ys
unfolding bytes_eq
bytes_eq→≡ [] [] e = refl
bytes_eq→≡ [] (y ∷ ys) e = absurd (ground arith)
bytes_eq→≡ (x ∷ xs) [] e = absurd (ground arith)
bytes_eq→≡ (x ∷ xs) (y ∷ ys) e = ground (arith, bytes_eq→≡ xs ys)

take-drop : (n : ℕ) (xs : List ℕ) → xs ≡ take n xs ++ drop n xs
take-drop zero xs = refl
take-drop (suc n) [] = refl
take-drop (suc n) (x ∷ xs) = ap (λ t. x ∷ t) (take-drop n xs)

take-append : (xs ys : List ℕ) → take (length xs) (xs ++ ys) ≡ xs
take-append [] ys = refl
take-append (x ∷ xs) ys = ap (λ t. x ∷ t) (take-append xs ys)

append_assoc : (xs ys zs : List ℕ) → (xs ++ ys) ++ zs ≡ xs ++ (ys ++ zs)
append_assoc [] ys zs = refl
append_assoc (x ∷ xs) ys zs = ap (λ t. x ∷ t) (append_assoc xs ys zs)

get_elem?-snoc : (xs : List ℕ) (x : ℕ) → get_elem? (xs ++ x ∷ []) (length xs) ≡ some x
get_elem?-snoc [] x = refl
get_elem?-snoc (y ∷ ys) x = get_elem?-snoc ys x

-- Whether the target begins with the bytes.
starts : List ℕ → List ℕ → Bool
unfolding bytes_eq
starts before target =
    leb (length before) (length target) && bytes_eq (take (length before) target) before

starts_lem :
    (before target : List ℕ)
    → (starts before target ≡ true) ↔ ((rest : List ℕ) × (target ≡ before ++ rest))
unfolding starts
starts_lem before target = (
  λ e. (
    drop (length before) target,
    take-drop (length before) target
        ∙ ap (λ t. t ++ drop (length before) target)
            (bytes_eq→≡ (take (length before) target) before (ground arith)),
  ),
  λ (rest, e).
      subst (λ t. starts before t ≡ true) (sym e)
        (ground (arith, length-append before rest, take-append before rest, bytes_eq_refl before)),
)

match_path-snoc :
    (target before : List ℕ) (last : ℕ)
    → match_path target (before ++ last ∷ []) ≡ (
        if last == star
        then starts before target
        else bytes_eq target (before ++ last ∷ [])
          || starts ((before ++ last ∷ []) ++ slash ∷ []) target)
unfolding match_path match_last starts
match_path-snoc target before last =
    let pattern = before ++ last ∷ [] in
    let n : length pattern ≡ length before + 1 = length-append before (last ∷ []) in
    let k : length (pattern ++ slash ∷ []) ≡ length before + 1 + 1 =
      omega (arith, length-append pattern (slash ∷ [])) in
    let m : length before + 1 - 1 ≡ length before = omega arith in
    rw (k, n, m, get_elem?-snoc before last) (ground (arith, m, take-append before (last ∷ [])))

-- A pattern that ends in a star takes the paths that begin with what is before the star, and no
-- other; a pattern that ends in another byte takes that path, and those that begin with the
-- pattern and a slash, and no other.
pub match_path_lem :
    (target before : List ℕ) (last : ℕ)
    → (last ≡ star
        → (match_path target (before ++ last ∷ []) ≡ true)
          ↔ ((rest : List ℕ) × (target ≡ before ++ rest)))
      × (last ≢ star
          → (match_path target (before ++ last ∷ []) ≡ true) ↔ (
              (target ≡ before ++ last ∷ [])
              ⊎ ((rest : List ℕ) × (target ≡ before ++ last ∷ slash ∷ rest))))
match_path_lem target before last =
    let pattern = before ++ last ∷ [] in
    let tested = match_path-snoc target before last in
    let (to, from) = starts_lem before target in
    let (to', from') = starts_lem (pattern ++ slash ∷ []) target in
    let joined = λ (rest : List ℕ).
      append_assoc pattern (slash ∷ []) rest ∙ append_assoc before (last ∷ []) (slash ∷ rest) in
    (
      λ e. (λ m. to (ground arith), λ r. ground (arith, from r)),
      λ ne. (
        λ m. elim (Bool-cases (bytes_eq target pattern)) [
          | inl same ↦ inl (bytes_eq→≡ target pattern same)
          | inr other ↦ let (rest, e) = to' (ground arith) in inr (rest, e ∙ joined rest)
        ],
        λ h. elim h [
          | inl same ↦
              ground
                (arith, subst (λ t. bytes_eq t pattern ≡ true) (sym same) (bytes_eq_refl pattern))
          | inr found ↦ ground (arith, from' (found.0, found.1 ∙ sym (joined found.0)))
        ],
      ),
    )

-- The pattern takes the target: it ends in a star, and the target begins with what is before that;
-- or it ends in another byte, and the target is the pattern, or begins with it and a slash.
abbrev pub Takes : List ℕ → List ℕ → Type 0
Takes target pattern =
    (before : List ℕ) × (last : ℕ) × (pattern ≡ before ++ last ∷ [])
    × ((last ≡ star) × ((rest : List ℕ) × (target ≡ before ++ rest))
        ⊎ (last ≢ star)
          × ((target ≡ before ++ last ∷ [])
              ⊎ ((rest : List ℕ) × (target ≡ before ++ last ∷ slash ∷ rest))))

snoc-cases :
    (xs : List ℕ) → (xs ≡ []) ⊎ ((before : List ℕ) × (last : ℕ) × (xs ≡ before ++ last ∷ []))
snoc-cases [] = inl refl
snoc-cases (x ∷ xs) = elim (snoc-cases xs) [
  | inl empty ↦ inr ([], x, ap (λ t. x ∷ t) empty)
  | inr (before, last, e) ↦ inr (x ∷ before, last, ap (λ t. x ∷ t) e)
]

match_path-Takes :
    (target before : List ℕ) (last : ℕ)
    → match_path target (before ++ last ∷ []) ≡ true
    → Takes target (before ++ last ∷ [])
match_path-Takes target before last m =
    let (starred, plain) = match_path_lem target before last in
    elim (Bool-cases (last == star)) [
      | inl is ↦
          let e : last ≡ star = ground arith in (before, last, refl, inl (e, (starred e).0 m))
      | inr other ↦
          let ne : last ≢ star = ground arith in (before, last, refl, inr (ne, (plain ne).0 m))
    ]

match_path_iff :
    (target pattern : List ℕ) → (match_path target pattern ≡ true) ↔ Takes target pattern
unfolding match_path match_last
match_path_iff target pattern = (
  λ m. elim (snoc-cases pattern) [
    | inl empty ↦
        let none_taken : match_path target [] ≡ false = refl in
        absurd (ground (arith, ap (match_path target) empty, none_taken, m))
    | inr (before, last, e) ↦
        subst (Takes target) (sym e)
          (match_path-Takes target before last (sym (ap (match_path target) e) ∙ m))
  ],
  λ (before, last, e, how).
      let (starred, plain) = match_path_lem target before last in
      ap (match_path target) e ∙ elim how [
        | inl (is, begins) ↦ (starred is).1 begins
        | inr (other, same) ↦ (plain other).1 same
      ],
)

pub matches_any-Any :
    (target : List ℕ) (ps : List (List ℕ)) → (matches_any target ps ≡ true) ↔ Any (Takes target) ps
unfolding matches_any
matches_any-Any target [] = (λ e. absurd (ground arith), λ h. absurd h)
matches_any-Any target (p ∷ ps) =
    let (to, from) = match_path_iff target p in
    let (others, back) = matches_any-Any target ps in
    (
      λ e. elim (Bool-cases (match_path target p)) [
        | inl this ↦ inl (to this)
        | inr not_this ↦ inr (others (ground (arith, not_this, e)))
      ],
      λ h. elim h [
        | inl this ↦ let m = from this in ground (arith, m)
        | inr later ↦ let m = back later in ground (arith, m)
      ],
    )
