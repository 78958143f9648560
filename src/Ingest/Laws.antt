-- ===== src/Ingest/Laws.antt =====
-- What an ingested entry costs is what its logs say, and Redis still holds what the database holds.
use mathlib.Core.Path.{subst}
use llmxy.Prelude.{
  ℕ, ◌+◌, ◌≤◌, ℤ, pos, ◌+ℤ◌, ◌-ℤ◌, ◌≤ℤ◌, leb_ℤ, Option, none, some, List, [], ◌∷◌, Bool, false, ◌⊎◌,
  All, ◌≡◌, refl, sym, ap, ◌∙◌, arith, Bool-cases, inl, inr, ltb, if◌then◌else◌, String, str_eq,
  eq_iff, or_else, some_inj, >>=-eq-some,
}
use llmxy.Datetime.{Datetime}
use llmxy.Models.{User, ApiKey, Model, Breakdown, RefId, text}
use llmxy.Table.{get}
use llmxy.Table.Laws.{get-update}
use llmxy.Db.{Db, user_id, update_balance}
use llmxy.Billing.Pricing.{calc_cost_cents}
use llmxy.Billing.Accounts.{active_subscriptions}
use llmxy.Billing.Charge.{Charged, charge_user, charge_wallet, drain, settle}
use llmxy.Billing.Charge.Laws.{IsReady, cents, charge_user_lem}
use llmxy.Billing.Others.{SparesOthers, SparesOthers-refl, charge_user-SparesOthers}
use llmxy.ImageRelay.Moves.{Holds-nil, kept_all}
use llmxy.QuotaCache.Redis.{Redis, Documented}
use llmxy.QuotaCache.Check.Laws.{Mirrors}
use llmxy.QuotaCache.Apply.{apply_charge}
use llmxy.QuotaCache.Apply.Charge.{apply_charge-Mirrors}
use llmxy.Ingest.{
  Entry, UsageLog, Ingested, Paid, find_model, find_key, is_image, status_of, billable_relay,
  cls_cost, charge_note, relay_log, cls_logs, window_of, charge_total, mirror, commit, finish_tx,
  bill, route_entry, ingest_entry,
}

-- The sum of the costs in the logs.
unfoldable pub costs : List UsageLog → ℕ
costs [] = 0
costs (l ∷ ls) = l.cost_cents + costs ls

-- The session's user is the row that the charge wrote.
charge_wallet-row :
    (rem : ℤ) (user : User) (users : List User) (out : User × List User × Breakdown)
    → get user_id user.id users ≡ some user
    → charge_wallet rem user users ≡ some out
    → get user_id user.id out.1 ≡ some out.0
unfolding charge_wallet update_balance
charge_wallet-row rem user users out g e = elim (Bool-cases (leb_ℤ rem (pos 0))) [
  | inl stop ↦
      subst (λ (o : User × List User × Breakdown). get user_id user.id o.1 ≡ some o.0)
        (some_inj (rw stop at e)) g
  | inr more ↦
      subst (λ (o : User × List User × Breakdown). get user_id user.id o.1 ≡ some o.0)
        (some_inj (rw (more, g) at e))
        (ground (
          arith,
          g,
          get-update user_id user.id user.id
              (λ u. record u { balance_cents = u.balance_cents -ℤ rem }) users (λ r. refl),
        ))
]

charge_user-row :
    (mirrors : Bool) (now : Datetime) (db : Db) (user : User) (key : Option ApiKey) (cost : ℤ)
    (ref_id : Option RefId) (note : Option String) (c : Charged)
    → get user_id user.id db.users ≡ some user
    → charge_user mirrors now db user key cost ref_id note ≡ some c
    → get user_id user.id c.db.users ≡ some c.user
unfolding charge_user settle
charge_user-row mirrors now db user key cost ref_id remark c g e =
    elim (Bool-cases (leb_ℤ cost (pos 0))) [
      | inl free ↦
          subst (λ (x : Charged). get user_id user.id x.db.users ≡ some x.user)
            (some_inj (rw free at e)) g
      | inr costs_some ↦
          let d = drain (active_subscriptions db.subscriptions user.id now) cost db.subscriptions in
          let (out, paid, is) =
            >>=-eq-some (charge_wallet d.remaining user db.users) _ (rw costs_some at e) in
          subst (λ (x : Charged). get user_id user.id x.db.users ≡ some x.user) (some_inj is)
            (charge_wallet-row d.remaining user db.users out g paid)
    ]

-- The classifier's log shows what the classifier cost.
abbrev cls_price : List Model → Option ℕ → Option String → ℕ → ℕ
cls_price models id status n =
    if str_eq (or_else status "") "ok" then calc_cost_cents (find_model models id) n 0 else 0

costs-cls_logs :
    (models : List Model) (e : Entry) (uid n : ℕ) (id : Option ℕ) (status : Option String)
    → costs (cls_logs e uid id status (cls_price models id status n)) ≡ cls_price models id status n
unfolding costs cls_logs calc_cost_cents
costs-cls_logs models e uid n none status = elim (Bool-cases (str_eq (or_else status "") "ok")) [
  | inl ok ↦ rw ok refl
  | inr other ↦ rw other refl
]
costs-cls_logs models e uid n (some id) none = refl
costs-cls_logs models e uid n (some id) (some s) = elim (Bool-cases (str_eq s "")) [
  | inl empty ↦ let is : s ≡ "" = (eq_iff s "").0 empty in rw is refl
  | inr full ↦ rw full (omega arith)
]

own-cls_logs :
    (e : Entry) (uid : ℕ) (id : Option ℕ) (status : Option String) (cost : ℕ)
    → All (λ l. l.user_id ≡ uid) (cls_logs e uid id status cost)
unfolding cls_logs
own-cls_logs e uid none status cost = tt
own-cls_logs e uid (some id) none cost = tt
own-cls_logs e uid (some id) (some s) cost = elim (Bool-cases (str_eq s "")) [
  | inl empty ↦ rw empty tt
  | inr full ↦ rw full (refl, tt)
]

module _ {R : Type 0} (redis : Redis R) (doc : Documented redis) where
  -- The accounts have lost what the logs say, which are the user's, no other user's account has changed,
  -- and Redis holds what the database holds about the user.
  pub record IsBilled (db : Db) (now : Datetime) (uid : ℕ) (i : Ingested R) : Type 0 where
    pub user : User
    pub row : get user_id uid i.db.users ≡ some user
    pub conserved : cents i.db +ℤ pos (costs i.logs) ≡ cents db
    pub own_logs : All (λ l. l.user_id ≡ uid) i.logs
    pub spares : SparesOthers uid db i.db
    pub mirrored : Mirrors redis i.db now user i.quota

  module _ (timestamp : Datetime → ℕ) (invalid rejected mirrors : Bool) (now : Datetime) where
    -- What the transaction charges, with the mirror written after it.
    record IsPaid (db : Db) (uid : ℕ) (kid : Option ℕ) (total : ℕ) (r : R) (p : Paid) : Type 0 where
      user : User
      row : get user_id uid p.db.users ≡ some user
      conserved : cents p.db +ℤ pos total ≡ cents db
      spares : SparesOthers uid db p.db
      mirrored :
          Mirrors redis p.db now user
            (mirror redis timestamp false invalid rejected uid kid total p r)

    charge_total-IsPaid :
        (db : Db) (e : Entry) (user : User) (total : ℕ) (note : String) (r : R)
        → IsReady db user user
        → Mirrors redis db now user r
        → (p : Paid) × (charge_total mirrors timestamp now db e (some user) total note ≡ some p)
          × IsPaid db user.id e.api_key_id total r p
    unfolding charge_total mirror
    charge_total-IsPaid db e user total note r h m = elim (Bool-cases (ltb 0 total)) [
      | inl some_cost ↦
          let at_least : 1 ≤ total = ground (arith, some_cost) in
          let costly : pos 1 ≤ℤ pos total = ground (arith, some_cost) in
          let key = find_key db e.api_key_id in
          let ref : Option RefId = some (text e.request_id) in
          let (c, returns, is) =
            charge_user_lem mirrors now db user user key (pos total) ref (some note) h costly in
          let ws = window_of timestamp c.api_key in
          let (d, again, held) =
            apply_charge-Mirrors redis doc mirrors invalid now db user key (pos total) ref
              (some note) e.api_key_id ws r h costly m in
          let same : d ≡ c = some_inj (sym again ∙ returns) in
          let paid : Paid = record {
            db = c.db;
            structured = c.structured;
            window_start_epoch = ws;
          } in
          let full = Holds-nil total c.structured (is.positive, is.amounts) at_least in
          (
            paid,
            rw (some_cost, returns) refl,
            record {
              user = c.user;
              row =
                  charge_user-row mirrors now db user key (pos total) ref (some note) c h.row_found
                    returns;
              conserved = is.conserved;
              spares =
                  charge_user-SparesOthers mirrors now db user user key (pos total) ref (some note)
                    c h returns;
              mirrored = rw full (
                  subst
                    (λ (x : Charged). Mirrors redis x.db now x.user (
                      apply_charge redis false invalid user.id e.api_key_id (pos total) ws
                        x.structured r))
                    same held);
            },
          )
      | inr free ↦ (
        record { db = db; structured = []; window_start_epoch = 0 },
        rw free refl,
        record {
          user = user;
          row = h.row_found;
          conserved = ap (λ n. cents db +ℤ pos n) (zero_cost total free) ∙ kept_all _;
          spares = SparesOthers-refl user.id db;
          mirrored = m;
        },
      )
    ]
      where
        zero_cost : (n : ℕ) → ltb 0 n ≡ false → n ≡ 0
        zero_cost n h = ground arith

    unbilled :
        (db : Db) (user : User) (r : R)
        → IsReady db user user
        → Mirrors redis db now user r
        → IsBilled db now user.id (record { db = db; logs = []; quota = r })
    unfolding costs
    unbilled db user r h m = record {
      user = user;
      row = h.row_found;
      conserved = kept_all _;
      own_logs = tt;
      spares = SparesOthers-refl user.id db;
      mirrored = m;
    }

    commit-cases :
        (paid : Option Paid)
        → (commit redis timestamp false invalid rejected paid ≡ paid)
          ⊎ (commit redis timestamp false invalid rejected paid ≡ none)
    unfolding commit
    commit-cases paid = elim (Bool-cases rejected) [
      | inl refused ↦ inr (rw refused refl)
      | inr accepted ↦ inl (rw accepted refl)
    ]

    bill-IsBilled :
        (models : List Model) (db : Db) (e : Entry) (user : User) (mid : Option ℕ) (r : R)
        → IsReady db user user
        → Mirrors redis db now user r
        → IsBilled db now user.id
            (bill redis timestamp false invalid rejected mirrors now models db e user.id mid r)
    unfolding bill finish_tx relay_log
    bill-IsBilled models db e user mid r h m =
        elim (Bool-cases (is_image (find_model models mid))) [
          | inl image ↦ rw image (unbilled db user r h m)
          | inr chat ↦
              let cost = billable_relay models e mid in
              let cls = cls_cost models e in
              let (p, returns, is) =
                charge_total-IsPaid db e user (cost + cls) (charge_note e cls cost) r h m in
              let shown : costs (
                    relay_log e user.id mid cost (status_of e)
                    ∷ cls_logs e user.id e.cls_model_id e.cls_status cls)
                  ≡ cost + cls =
                unfold costs relay_log cls_cost in
                ap (λ n. cost + n)
                  (costs-cls_logs models e user.id e.cls_prompt_tokens e.cls_model_id
                    e.cls_status) in
              elim (commit-cases (some p)) [
                | inr refused ↦
                    rw (chat, h.row_found, returns, refused)
                      (record {
                        user = user;
                        row = h.row_found;
                        conserved = unfold costs in kept_all _;
                        own_logs = (refl, tt);
                        spares = SparesOthers-refl user.id db;
                        mirrored = m;
                      })
                | inl accepted ↦
                    rw (chat, h.row_found, returns, accepted)
                      (record {
                        user = is.user;
                        row = is.row;
                        conserved = ap (λ n. cents p.db +ℤ pos n) shown ∙ is.conserved;
                        own_logs = (refl, own-cls_logs e user.id e.cls_model_id e.cls_status cls);
                        spares = is.spares;
                        mirrored = is.mirrored;
                      })
              ]
        ]

    -- The entry names a user, whose row is there, and Redis answers and holds what the database holds
    -- about the user. Whatever else the entry says, and whether or not the database accepts the rows,
    -- the accounts together lose exactly what the logs that are added say, the logs are the user's, no
    -- wallet and no subscription of another user changes, and Redis holds again what the database then
    -- holds.
    pub ingest_entry-IsBilled :
        (models : List Model) (db : Db) (e : Entry) (user : User) (r : R)
        → e.user_id ≡ some user.id
        → IsReady db user user
        → Mirrors redis db now user r
        → IsBilled db now user.id
            (ingest_entry redis timestamp false invalid rejected mirrors now models db e r)
    unfolding ingest_entry
    ingest_entry-IsBilled models db e user r named h m = elim (Bool-cases e.billed_sync) [
      | inl synced ↦ rw synced (unbilled db user r h m)
      | inr open_entry ↦ rw (open_entry, named) (by_model e.model_id)
    ]
      where
        by_model :
            (mid : Option (Option ℕ))
            → IsBilled db now user.id (
                route_entry redis timestamp false invalid rejected mirrors now models db e
                  (some user.id)
                  mid
                  r)
        by_model none = unbilled db user r h m
        by_model (some mid) = bill-IsBilled models db e user mid r h m
