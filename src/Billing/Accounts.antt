-- ===== src/Billing/Accounts.antt =====
-- What a user may spend: `active_subscriptions`, `available_cents`, `has_quota` and `check_balance`
-- of api/app/services/billing.py. `now` is the clock's reading in the call. Subscriptions that end at
-- the same instant keep the table's order, which the query leaves open.
pub mod Gate
pub mod Laws
use llmxy.Prelude.{
  ℕ, ℤ, pos, ◌+ℤ◌, leb_ℤ, ltb_ℤ, max_ℤ, Option, none, some, List, [], ◌∷◌, Bool, true, false, ◌&&◌,
  ◌==◌, leb, if◌then◌else◌, filter,
}
use llmxy.Datetime.{Datetime, stamp, before}
use llmxy.Models.{User, ApiKey, Subscription, sub_active}
use llmxy.Db.{Db}
use llmxy.Db.Sums.{total, remaining_of}

-- The WHERE clause of the query.
abbrev pub is_spendable : ℕ → Datetime → Subscription → Bool
is_spendable uid now s =
    (s.user_id == uid)
    && sub_active s.status
    && before now s.current_period_end
    && ltb_ℤ (pos 0) s.remaining_cents

-- ORDER BY current_period_end ASC
unfoldable pub insert_by_end : Subscription → List Subscription → List Subscription
insert_by_end s [] = s ∷ []
insert_by_end s (t ∷ ts) =
    let rest = insert_by_end s ts in
    if leb (stamp s.current_period_end) (stamp t.current_period_end) then s ∷ t ∷ ts else t ∷ rest

unfoldable pub sort_by_end : List Subscription → List Subscription
unfolding insert_by_end
sort_by_end [] = []
sort_by_end (s ∷ ss) = insert_by_end s (sort_by_end ss)

unfoldable pub active_subscriptions : List Subscription → ℕ → Datetime → List Subscription
unfolding sort_by_end
active_subscriptions table uid now = sort_by_end (filter (is_spendable uid now) table)

unfoldable pub available_cents : Db → User → Datetime → ℤ
available_cents db user now =
    total remaining_of (active_subscriptions db.subscriptions user.id now)
    +ℤ max_ℤ (pos 0) user.balance_cents

-- The reasons that the checks give with a refusal.
pub data Refusal : Type 0 where
  key_exceeded no_funds insufficient : Refusal

-- `api_key.quota_cents > 0 and api_key.used_cents >= api_key.quota_cents`; 0 is no limit.
abbrev pub key_exhausted : Option ApiKey → Bool
key_exhausted none = false
key_exhausted (some k) = ltb_ℤ (pos 0) k.quota_cents && leb_ℤ k.quota_cents k.used_cents

abbrev pub nonempty : List Subscription → Bool
nonempty [] = false
nonempty (s ∷ ss) = true

-- `none` is `(True, "")`, and a refusal comes with its reason.
unfoldable pub has_quota : Db → User → Option ApiKey → Datetime → Option Refusal
has_quota db user api_key now =
    if key_exhausted api_key
    then some key_exceeded
    else if nonempty (active_subscriptions db.subscriptions user.id now)
    then none
    else if ltb_ℤ (pos 0) user.balance_cents
    then none
    else some no_funds

unfoldable pub check_balance : User → Option ApiKey → Option Refusal
check_balance user api_key =
    if key_exhausted api_key
    then some key_exceeded
    else if leb_ℤ user.balance_cents (pos 0)
    then some insufficient
    else none
