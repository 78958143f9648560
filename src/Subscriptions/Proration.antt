-- ===== src/Subscriptions/Proration.antt =====
-- The prorated refund of an immediate cancellation.
use native.Mathlib.Nat.{
  div-le_of_le-mul, mul-le-mul_left, mul_comm, div-add-mod', lt-div-mul-add, add-mul,
}
use llmxy.Prelude.{ℕ, ◌+◌, ◌*◌, ◌/◌, ◌≤◌, ◌<◌, ◌≡◌, arith, ℤ, pos, ◌≤ℤ◌}
use llmxy.Subscriptions.{mul_div, share_of}

share_unused :
    (price quota left : ℕ)
    → left ≤ quota
    → 1 ≤ price
    → 1 ≤ quota
    → share_of (pos price) (pos quota) (pos left) ≡ pos (price * left / quota)
unfolding share_of mul_div
share_unused price quota left h p q =
    let capped : price * left / quota ≤ price =
      div-le_of_le-mul quota (rw (mul_comm quota price) (mul-le-mul_left price h)) in
    ground (arith, capped)

-- The refund is never negative and never more than the price, whatever remains. If no more remains
-- than the plan's positive quota, it is the unused share of the positive price, rounded down.
pub share_of_lem :
    (price quota : ℕ) (remaining : ℤ)
    → (pos 0 ≤ℤ share_of (pos price) (pos quota) remaining)
      × (share_of (pos price) (pos quota) remaining ≤ℤ pos price)
      × ((left : ℕ)
          → remaining ≡ pos left
          → left ≤ quota
          → 1 ≤ price
          → 1 ≤ quota
          → (refund : ℕ) × (share_of (pos price) (pos quota) remaining ≡ pos refund)
            × (refund * quota ≤ price * left)
            × (price * left < (refund + 1) * quota))
share_of_lem price quota remaining = (
  unfold share_of in ground arith,
  unfold share_of in ground arith,
  λ left e h p q. (
    price * left / quota,
    rw e (share_unused price quota left h p q),
    omega (arith, div-add-mod' (price * left) quota),
    omega (arith, lt-div-mul-add {a = price * left} q, add-mul (price * left / quota) 1 quota),
  ),
)
