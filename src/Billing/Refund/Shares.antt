-- ===== src/Billing/Refund/Shares.antt =====
-- The loop of `refund_to_sources` over the breakdown.
use llmxy.Prelude.{
  ℕ, ℤ, pos, ◌+ℤ◌, ◌-ℤ◌, ◌≤ℤ◌, leb_ℤ, min_ℤ, int_laws, none, some, +ℤ_parts, -ℤ_parts, eq_of_parts,
  Option, List, [], ◌∷◌, Bool, true, false, All, ◌≡◌, refl, arith, Bool-cases, inl, inr, ap,
  pos_part, neg_part, ◌∙◌, is_some, +ℤ_zero, zero_+ℤ,
}
use llmxy.Datetime.{Datetime}
use llmxy.Models.{Subscription, Breakdown, Source, sub, wallet}
use llmxy.Table.{get, update, IsKeyed}
use llmxy.Table.Laws.{get-update, update-IsKeyed}
use llmxy.Db.{sub_id}
use llmxy.Db.Sums.{total, total-update, remaining_of, amount_of}
use llmxy.Billing.Accounts.{active_subscriptions}
use llmxy.Billing.Accounts.Laws.{active-absent}
use llmxy.Billing.Charge.Drain.Greedy.{IsPositive}
use llmxy.Billing.Refund.{wallet_amount, Spread, spread, give_to, refund_subs, given, give_back}

abbrev pub sub_amount : Source × ℤ → ℤ
sub_amount (sub sid, amt) = amt
sub_amount (wallet, amt) = pos 0

abbrev pub handed : Spread → ℤ
handed s = s.to_wallet +ℤ total given s.sub_refunds

pub total-split :
    (bd : Breakdown) → total wallet_amount bd +ℤ total sub_amount bd ≡ total amount_of bd
unfolding total
total-split [] = omega int_laws
total-split ((sub sid, amt) ∷ bd) =
    omega (int_laws, ap pos_part (total-split bd), ap neg_part (total-split bd))
total-split ((wallet, amt) ∷ bd) =
    omega (int_laws, ap pos_part (total-split bd), ap neg_part (total-split bd))

pub parts_nonneg :
    (bd : Breakdown)
    → IsPositive bd
    → (pos 0 ≤ℤ total wallet_amount bd) × (pos 0 ≤ℤ total sub_amount bd)
unfolding total
parts_nonneg [] p = omega arith
parts_nonneg ((sub sid, amt) ∷ bd) p = let ih = parts_nonneg bd p.1 in omega (int_laws, ih)
parts_nonneg ((wallet, amt) ∷ bd) p = let ih = parts_nonneg bd p.1 in omega (int_laws, ih)

handed-give_back :
    (b : Bool) (sid : ℕ) (give : ℤ) (s : Spread)
    → handed (give_back b sid give s) ≡ give +ℤ handed s
unfolding total
handed-give_back true sid give s = omega int_laws
handed-give_back false sid give s = omega int_laws

min_next :
    (amt rem rest : ℤ)
    → pos 1 ≤ℤ amt
    → pos 1 ≤ℤ rem
    → pos 0 ≤ℤ rest
    → (pos 0 ≤ℤ rem -ℤ min_ℤ amt rem)
      × (min_ℤ amt rem +ℤ min_ℤ (rem -ℤ min_ℤ amt rem) rest ≡ min_ℤ rem (amt +ℤ rest))
min_next amt rem rest h p q =
    let t : ℤ = min_ℤ amt rem in
    let u : ℤ = min_ℤ (rem -ℤ t) rest in
    (
      ground (arith, -ℤ_parts rem t),
      eq_of_parts (t +ℤ u) (min_ℤ rem (amt +ℤ rest))
          (ground (arith, +ℤ_parts t u, -ℤ_parts rem t, +ℤ_parts amt rest)),
    )

min_of_zero :
    (rem rest amt : ℤ)
    → pos 0 ≤ℤ rem
    → leb_ℤ rem (pos 0) ≡ true
    → pos 0 ≤ℤ rest
    → pos 1 ≤ℤ amt
    → min_ℤ rem rest ≡ min_ℤ rem (amt +ℤ rest)
min_of_zero rem rest amt h stop p q = ground (arith, +ℤ_parts amt rest)

pub spread_wallet :
    (active : List Subscription) (amt : ℤ) (bd : Breakdown) (rem : ℤ)
    → spread active ((wallet, amt) ∷ bd) rem ≡ spread active bd rem
unfolding spread
spread_wallet active amt bd rem = refl

module _ (active : List Subscription) (sid : ℕ) (amt : ℤ) (bd : Breakdown) (rem : ℤ) where
  pub spread_stop :
      leb_ℤ rem (pos 0) ≡ true → spread active ((sub sid, amt) ∷ bd) rem ≡ spread active bd rem
  unfolding spread
  spread_stop h = ground arith

  pub spread_go :
      leb_ℤ rem (pos 0) ≡ false
      → spread active ((sub sid, amt) ∷ bd) rem
        ≡ give_back
            (is_some (get sub_id sid active))
            sid
            (min_ℤ amt rem)
            (spread active bd (rem -ℤ min_ℤ amt rem))
  unfolding spread
  spread_go h = ground arith

-- The loop hands out all that is asked for, up to the subscriptions' shares.
pub handed-spread :
    (active : List Subscription) (bd : Breakdown) (rem : ℤ)
    → IsPositive bd
    → pos 0 ≤ℤ rem
    → handed (spread active bd rem) ≡ min_ℤ rem (total sub_amount bd)
unfolding total
handed-spread active [] rem p h = unfold spread in rw (+ℤ_zero (pos 0)) (ground arith)
handed-spread active ((wallet, amt) ∷ bd) rem p h =
    rw (spread_wallet active amt bd rem, zero_+ℤ (total sub_amount bd))
      (handed-spread active bd rem p.1 h)
handed-spread active ((sub sid, amt) ∷ bd) rem p h = elim (Bool-cases (leb_ℤ rem (pos 0))) [
  | inl stop ↦
      let rest = parts_nonneg bd p.1 in
      rw (spread_stop active sid amt bd rem stop, handed-spread active bd rem p.1 h)
        (min_of_zero rem (total sub_amount bd) amt h stop rest.1 p.0)
  | inr more ↦
      let give : ℤ = min_ℤ amt rem in
      let next =
        min_next amt rem (total sub_amount bd) p.0 (ground arith) (parts_nonneg bd p.1).1 in
      rw
        (
          spread_go active sid amt bd rem more,
          handed-give_back (is_some (get sub_id sid active)) sid give
              (spread active bd (rem -ℤ give)),
          handed-spread active bd (rem -ℤ give) p.1 next.0,
        )
        next.1
]

-- Every id that the loop refunds is one of the active subscriptions.
abbrev pub AreIn : List Subscription → List (ℕ × ℤ) → Type 0
AreIn active = All (λ r. is_some (get sub_id r.0 active) ≡ true)

give_back-AreIn :
    (active : List Subscription) (sid : ℕ) (give : ℤ) (s : Spread)
    → AreIn active s.sub_refunds
    → AreIn active (give_back (is_some (get sub_id sid active)) sid give s).sub_refunds
give_back-AreIn active sid give s a = elim (Bool-cases (is_some (get sub_id sid active))) [
  | inl there ↦ rw (there, give_back) (there, a)
  | inr gone ↦ rw (gone, give_back) a
]

pub spread-AreIn :
    (active : List Subscription) (bd : Breakdown) (rem : ℤ)
    → AreIn active (spread active bd rem).sub_refunds
spread-AreIn active [] rem = unfold spread in tt
spread-AreIn active ((wallet, amt) ∷ bd) rem =
    rw (spread_wallet active amt bd rem) (spread-AreIn active bd rem)
spread-AreIn active ((sub sid, amt) ∷ bd) rem = elim (Bool-cases (leb_ℤ rem (pos 0))) [
  | inl stop ↦ rw (spread_stop active sid amt bd rem stop) (spread-AreIn active bd rem)
  | inr more ↦
      rw (spread_go active sid amt bd rem more)
        (give_back-AreIn active sid _ _ (spread-AreIn active bd _))
]

is_some-get {ℓ} : {A : Type ℓ} (o : Option A) → is_some o ≡ true → (a : A) × (o ≡ some a)
is_some-get none h = cc
is_some-get (some a) h = (a, refl)

AreIn-update :
    (sid : ℕ) (give : ℤ) (rs : List (ℕ × ℤ)) (table : List Subscription)
    → AreIn table rs
    → AreIn (update sub_id sid (give_to give) table) rs
AreIn-update sid give [] table a = tt
AreIn-update sid give ((k, g) ∷ rs) table a = (
  ground (arith, get-update sub_id k sid (give_to give) table (λ r. refl)),
  AreIn-update sid give rs table a.1,
)

gained :
    (mid r give all rest : ℤ) → mid +ℤ r ≡ all +ℤ (r +ℤ give) → mid +ℤ rest ≡ all +ℤ (give +ℤ rest)
gained mid r give all rest e = omega (int_laws, ap pos_part e, ap neg_part e)

-- Refunds to subscriptions in the table add up in the table.
pub total-refund_subs :
    (rs : List (ℕ × ℤ)) (table : List Subscription)
    → IsKeyed sub_id table
    → All (λ r. is_some (get sub_id r.0 table) ≡ true) rs
    → total remaining_of (refund_subs rs table) ≡ total remaining_of table +ℤ total given rs
unfolding refund_subs total
total-refund_subs [] table u a = rw (+ℤ_zero (total remaining_of table))
total-refund_subs ((sid, give) ∷ rs) table u a =
    let (row, e) = is_some-get (get sub_id sid table) a.0 in
    let table' = update sub_id sid (give_to give) table in
    let ih =
      total-refund_subs rs table' (update-IsKeyed sub_id sid (give_to give) table (λ r. refl) u)
        (AreIn-update sid give rs table a.1) in
    ih ∙ gained _ _ _ _ _ (total-update sub_id remaining_of (give_to give) sid table row u e)

-- The active subscriptions stand in the table.
pub AreIn-active :
    (rs : List (ℕ × ℤ)) (table : List Subscription) (uid : ℕ) (now : Datetime)
    → IsKeyed sub_id table
    → AreIn (active_subscriptions table uid now) rs
    → AreIn table rs
AreIn-active [] table uid now u a = tt
AreIn-active ((k, g) ∷ rs) table uid now u a = (there, AreIn-active rs table uid now u a.1)
  where
    there : is_some (get sub_id k table) ≡ true
    there = ground (arith, a.0, active-absent table uid now k)
