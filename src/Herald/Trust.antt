-- ===== src/Herald/Trust.antt =====
-- The trust policies of pkg/herald/trust.go and the tiers of types.go, checked locally.
-- A tier is a number (a tier below T0 is not modelled), an operation its text, a path its bytes.
-- The texts of `Reason` are the constructors of `Reason`.
pub mod Tiers
pub mod Patterns
pub mod Policy
mod Tests
use syntor.Common.{
  ℕ, ◌+◌, ◌-◌, String, str_eq, Bool, true, false, not, ◌&&◌, ◌||◌, List, [], ◌∷◌, ◌++◌, Option,
  none, some, ltb, leb, ◌==◌, if◌then◌else◌, contains, length, take, get_elem?,
}
use syntor.Common.Dict.{Dict, lookup, insert}

-- The constants T0 to T4.
abbrev pub t0 : ℕ
t0 = 0

abbrev pub t1 : ℕ
t1 = 1

abbrev pub t2 : ℕ
t2 = 2

abbrev pub t3 : ℕ
t3 = 3

abbrev pub t4 : ℕ
t4 = 4

abbrev pub op_read : String
op_read = "read"

abbrev pub op_write : String
op_write = "write"

abbrev pub op_execute : String
op_execute = "execute"

abbrev pub op_network : String
op_network = "network"

-- TrustTier.RequiresApproval
unfoldable pub requires_approval : ℕ → String → Bool
requires_approval t op_type =
    if str_eq op_type op_read
    then ltb t t1
    else if str_eq op_type op_write
    then ltb t t2
    else if str_eq op_type op_execute
    then ltb t t3
    else if str_eq op_type op_network
    then ltb t t4
    else true

-- The fields that Check reads.
pub record TrustPolicy : Type 0 where
  pub tier : ℕ
  pub allowed_operations : List String
  pub denied_operations : List String
  pub allowed_paths : List (List ℕ)
  pub denied_paths : List (List ℕ)
  pub approvals : Dict Bool

pub data Reason : Type 0 where
  no_reason : Reason
  explicitly_denied : String → Reason
  path_denied path_not_allowed : List ℕ → Reason
  not_permitted : String → ℕ → Reason

pub record PermissionCheck : Type 0 where
  pub allowed : Bool
  pub needs_approval : Bool
  pub reason : Reason

abbrev pub refused : Reason → PermissionCheck
refused why = record { allowed = false; needs_approval = false; reason = why }

abbrev pub tier_policy : ℕ → List String → Dict Bool → TrustPolicy
tier_policy tier operations approvals = record {
  tier = tier;
  allowed_operations = operations;
  denied_operations = [];
  allowed_paths = [];
  denied_paths = [];
  approvals = approvals;
}

-- DefaultTrustChecker
unfoldable pub default_trust_checker : ℕ → TrustPolicy
default_trust_checker tier =
    let policy = tier_policy tier in
    if tier == t4
    then policy (op_read ∷ op_write ∷ op_execute ∷ op_network ∷ []) []
    else if tier == t3
    then policy (op_read ∷ op_write ∷ op_execute ∷ []) ((op_network, true) ∷ [])
    else if tier == t2
    then policy (op_read ∷ op_write ∷ []) ((op_execute, true) ∷ (op_network, true) ∷ [])
    else if tier == t1
    then policy (op_read ∷ []) ((op_write, true) ∷ (op_execute, true) ∷ (op_network, true) ∷ [])
    else if tier == t0
    then policy []
        ((op_read, true) ∷ (op_write, true) ∷ (op_execute, true) ∷ (op_network, true) ∷ [])
    else policy [] []

-- Go's `==` on strings of bytes.
unfoldable pub bytes_eq : List ℕ → List ℕ → Bool
bytes_eq [] [] = true
bytes_eq [] (y ∷ ys) = false
bytes_eq (x ∷ xs) [] = false
bytes_eq (x ∷ xs) (y ∷ ys) = x == y && bytes_eq xs ys

abbrev pub star : ℕ
star = 42

abbrev pub slash : ℕ
slash = 47

-- matchPath, with the pattern's length and its last byte.
unfoldable pub match_last : ℕ → Option ℕ → List ℕ → List ℕ → Bool
unfolding bytes_eq
match_last n none target pattern = false
match_last n (some last) target pattern =
    if last == star
    then leb (n - 1) (length target) && bytes_eq (take (n - 1) target) (take (n - 1) pattern)
    else bytes_eq target pattern
      || ltb n (length target) && bytes_eq (take (n + 1) target) (pattern ++ slash ∷ [])

unfoldable pub match_path : List ℕ → List ℕ → Bool
unfolding match_last
match_path target pattern =
    match_last (length pattern) (get_elem? pattern (length pattern - 1)) target pattern

-- The loops over a list of patterns in Check.
unfoldable pub matches_any : List ℕ → List (List ℕ) → Bool
unfolding match_path
matches_any target [] = false
matches_any target (p ∷ ps) = match_path target p || matches_any target ps

-- `tc.policy.RequiresApproval[op]`, false where there is no entry
abbrev pub flag : Option Bool → Bool
flag none = false
flag (some b) = b

abbrev pub is_empty : List (List ℕ) → Bool
is_empty [] = true
is_empty (p ∷ ps) = false

-- The path restrictions of Check, for write and execute operations: the check's early return.
unfoldable pub check_path : TrustPolicy → List ℕ → Option PermissionCheck
unfolding matches_any
check_path policy target =
    if matches_any target policy.denied_paths
    then some (refused (path_denied target))
    else if not (is_empty policy.allowed_paths) && not (matches_any target policy.allowed_paths)
    then some (refused (path_not_allowed target))
    else none

-- The rest of Check, after the path restrictions.
unfoldable pub check_operation : TrustPolicy → String → PermissionCheck
unfolding contains lookup
check_operation policy op =
    let needs = flag (lookup op policy.approvals) in
    if contains op policy.allowed_operations
    then record { allowed = true; needs_approval = needs; reason = no_reason }
    else if needs
    then record { allowed = true; needs_approval = true; reason = no_reason }
    else refused (not_permitted op policy.tier)

-- TrustChecker.Check
unfoldable pub check : TrustPolicy → String → List ℕ → PermissionCheck
unfolding contains check_path check_operation
check policy op target =
    if contains op policy.denied_operations
    then refused (explicitly_denied op)
    else if str_eq op op_write || str_eq op op_execute
    then elim (check_path policy target) [ some answer ↦ answer | none ↦ check_operation policy op ]
    else check_operation policy op
