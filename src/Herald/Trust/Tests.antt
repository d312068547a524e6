-- ===== src/Herald/Trust/Tests.antt =====
-- Checks of policies, and their theorems at concrete inputs.
use syntor.Common.{arith, eq_iff, ℕ, ◌≡◌, refl, true, false, inl, inr, List, [], ◌∷◌}
use syntor.Herald.Trust.{TrustPolicy, op_read, op_write, op_network, op_execute, t2, check}
use syntor.Herald.Trust.Policy.{check_lem}

-- "/ab", "/ab/c" and "/abc"
abbrev ab : List ℕ
ab = 47 ∷ 97 ∷ 98 ∷ []

abbrev ab_c : List ℕ
ab_c = 47 ∷ 97 ∷ 98 ∷ 47 ∷ 99 ∷ []

abbrev abc : List ℕ
abc = 47 ∷ 97 ∷ 98 ∷ 99 ∷ []

abbrev policy : TrustPolicy
policy = record {
  tier = t2;
  allowed_operations = op_read ∷ op_write ∷ [];
  denied_operations = op_network ∷ [];
  allowed_paths = ab ∷ [];
  denied_paths = [];
  approvals = (op_execute, true) ∷ [];
}

policy_refuses : (check policy op_write abc).allowed ≡ false
unfolding check
policy_refuses = refl

check_lem_example : (check policy op_write ab_c).allowed ≡ true
check_lem_example = (check_lem policy op_write ab_c).1 (
  λ h. elim h [ inl e ↦ ground (arith, eq_iff op_network op_write) | inr h ↦ absurd h ],
  λ e. (
    λ h. absurd h,
    inr (
        inl (
          47 ∷ 97 ∷ [],
          98,
          refl,
          inr ((λ (e : ◌≡◌ {A = ℕ} 98 42). omega arith), inr (99 ∷ [], refl)),
        )),
  ),
  inl (inr (inl refl)),
)
