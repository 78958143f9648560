-- ===== src/Billing/Renew/Scan.antt =====
-- `_scan_once` of api/app/services/subscriptions_renewal.py, one pass of the renewal worker. `locked`
-- says which rows another transaction holds, and SKIP LOCKED leaves out; a renewal that raises is
-- logged.
pub mod Steps
pub mod Rows
pub mod Laws
use llmxy.Prelude.{
  ℕ, Option, none, some, List, [], ◌∷◌, Bool, true, false, not, ◌&&◌, leb, if◌then◌else◌, filter,
}
use llmxy.Datetime.{Datetime, not_after}
use llmxy.Models.{Subscription, SubStatus, sub_active}
use llmxy.Db.{Db}
use llmxy.Billing.Renew.{Renewal, renew_subscription}

abbrev pub sub_past_due : SubStatus → Bool
sub_past_due SubStatus.past_due = true
sub_past_due SubStatus.active = false
sub_past_due SubStatus.expired = false
sub_past_due SubStatus.canceled = false

-- `status in ("active", "past_due")` and the end of the period has come.
abbrev pub is_due : Datetime → (ℕ → Bool) → Subscription → Bool
is_due now locked s =
    not_after s.current_period_end now
    && (if sub_active s.status then true else sub_past_due s.status)
    && not (locked s.id)

-- ORDER BY id
unfoldable pub insert_by_id : Subscription → List Subscription → List Subscription
insert_by_id s [] = s ∷ []
insert_by_id s (t ∷ ts) =
    let rest = insert_by_id s ts in if leb s.id t.id then s ∷ t ∷ ts else t ∷ rest

unfoldable pub sort_by_id : List Subscription → List Subscription
unfolding insert_by_id
sort_by_id [] = []
sort_by_id (s ∷ ss) = insert_by_id s (sort_by_id ss)

abbrev pub after_renewal : Db → Option Renewal → Db
after_renewal db none = db
after_renewal db (some r) = r.db

unfoldable pub renew_all : Datetime → List Subscription → Db → Db
renew_all now [] db = db
renew_all now (s ∷ ss) db = renew_all now ss (after_renewal db (renew_subscription now db s))

unfoldable pub scan_once : Datetime → (ℕ → Bool) → Db → Db
unfolding sort_by_id renew_all
scan_once now locked db =
    renew_all now (sort_by_id (filter (is_due now locked) db.subscriptions)) db
