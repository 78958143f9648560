-- ===== src/Billing/Pricing/Rounding.antt =====
-- The float quotient of `calc_cost_cents` rounds up to the same number of cents as the exact one.
use native.Mathlib.Nat.{mul-le-mul_right}
use llmxy.Prelude.{ℕ, ◌+◌, ◌*◌, ◌≤◌, ◌<◌, ◌≡◌, ◌==◌, ==_iff, arith, Bool-cases, inl, inr}

-- 2 ^ 53, up to which every integer is a double.
abbrev pub double_exact : ℕ
double_exact = 9_007_199_254_740_992

-- The double `num / den` is `micro / 10_000_000` rounded to the nearest: it is off by at most one part
-- in 2 ^ 53, and where the quotient is an integer it is that integer.
pub record IsQuotient (micro num den : ℕ) : Type 0 where
  pub positive : 1 ≤ den
  pub not_above : num * 10_000_000 * double_exact ≤ micro * den * double_exact + micro * den
  pub not_below : micro * den * double_exact ≤ num * 10_000_000 * double_exact + micro * den
  pub exact : (k : ℕ) → micro ≡ k * 10_000_000 → num ≡ k * den

upper :
    (m c num den : ℕ)
    → m + 1 ≤ c * 10_000_000
    → m * den + den ≤ double_exact * den
    → num * 10_000_000 * double_exact ≤ m * den * double_exact + m * den
    → (m + 1) * den ≤ c * 10_000_000 * den
    → num ≤ c * den
upper m c num den h small near wide = omega arith

lower :
    (m c num den : ℕ)
    → 1 ≤ den
    → m * den + den ≤ double_exact * den
    → m * den * double_exact ≤ num * 10_000_000 * double_exact + m * den
    → (c * 10_000_000 + 1) * den ≤ (m + 10_000_000) * den
    → c * den < num + den
lower m c num den pos small near wide = omega arith

near : (m den : ℕ) → m + 1 ≤ double_exact → (m + 1) * den ≤ double_exact * den
near m den h = mul-le-mul_right den h

-- The whole cents that cover the micro-cents are the ceiling of the double.
pub ceil_of_quotient :
    (m c num den : ℕ)
    → m < double_exact
    → IsQuotient m num den
    → m ≤ c * 10_000_000
    → c * 10_000_000 < m + 10_000_000
    → (num ≤ c * den) × (c * den < num + den)
ceil_of_quotient m c num den small q covers tight =
    let close = near m den (omega (arith, small)) in
    (
      elim (Bool-cases (m == c * 10_000_000)) [
        | inl whole ↦ let e = q.exact c ((==_iff m (c * 10_000_000)).0 whole) in omega (arith, e)
        | inr part ↦
            let more : m + 1 ≤ c * 10_000_000 = ground (arith, part, covers) in
            upper m c num den more (omega (arith, close)) (q.not_above) (mul-le-mul_right den more)
      ],
      lower m c num den q.positive (omega (arith, close)) (q.not_below)
          (mul-le-mul_right den (omega (arith, tight))),
    )
