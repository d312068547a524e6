-- ===== src/Herald/Trust/Tiers.antt =====
-- The policy that a tier has by default.
use syntor.Common.{
  ℕ, zero, suc, sym, subst, ◌≤◌, ◌≡◌, ◌⊎◌, inl, inr, refl, String, true, List, arith,
}
use syntor.Herald.Trust.{
  op_read, op_write, op_execute, op_network, requires_approval, default_trust_checker, check, t4,
  no_reason,
}

-- The four operations that a tier knows.
abbrev pub IsKnown : String → Type 0
IsKnown op = (op ≡ op_read) ⊎ (op ≡ op_write) ⊎ (op ≡ op_execute) ⊎ (op ≡ op_network)

by_tier : (P : ℕ → Type 0) → P 0 → P 1 → P 2 → P 3 → P 4 → (t : ℕ) → t ≤ t4 → P t
by_tier P p0 p1 p2 p3 p4 zero h = p0
by_tier P p0 p1 p2 p3 p4 (suc zero) h = p1
by_tier P p0 p1 p2 p3 p4 (suc (suc zero)) h = p2
by_tier P p0 p1 p2 p3 p4 (suc (suc (suc zero))) h = p3
by_tier P p0 p1 p2 p3 p4 (suc (suc (suc (suc zero)))) h = p4
by_tier P p0 p1 p2 p3 p4 (suc (suc (suc (suc (suc t))))) h = absurd (omega arith)

by_operation :
    (P : String → Type 0)
    → P op_read
    → P op_write
    → P op_execute
    → P op_network
    → (op : String) → IsKnown op
    → P op
by_operation P r w x n op (inl e) = subst P (sym e) r
by_operation P r w x n op (inr (inl e)) = subst P (sym e) w
by_operation P r w x n op (inr (inr (inl e))) = subst P (sym e) x
by_operation P r w x n op (inr (inr (inr e))) = subst P (sym e) n

-- The check gives what the tier says.
abbrev Agrees : List ℕ → ℕ → String → Type 0
Agrees target t op =
    check (default_trust_checker t) op target
    ≡ record { allowed = true; needs_approval = requires_approval t op; reason = no_reason }

Agrees-at :
    (target : List ℕ) (op : String)
    → Agrees target 0 op
    → Agrees target 1 op
    → Agrees target 2 op
    → Agrees target 3 op
    → Agrees target 4 op
    → (t : ℕ) → t ≤ t4
    → Agrees target t op
Agrees-at target op = by_tier (λ t. Agrees target t op)

-- Under the default policy of a tier from T0 to T4, each of the four operations is permitted on
-- every target, and the check asks for approval exactly when TrustTier.RequiresApproval says that
-- the tier requires it.
pub check-default :
    (t : ℕ) (op : String) (target : List ℕ)
    → t ≤ t4
    → IsKnown op
    → check (default_trust_checker t) op target
      ≡ record { allowed = true; needs_approval = requires_approval t op; reason = no_reason }
unfolding check default_trust_checker requires_approval
check-default t op target h known =
    by_operation (Agrees target t) (Agrees-at target op_read refl refl refl refl refl t h)
      (Agrees-at target op_write refl refl refl refl refl t h)
      (Agrees-at target op_execute refl refl refl refl refl t h)
      (Agrees-at target op_network refl refl refl refl refl t h) op known
