-- ===== src/ImageRelay/Moves.antt =====
-- The moves of a relay: a hold, its release and the reconciliation.
use mathlib.Core.Option as Option
use mathlib.Core.Path.{subst}
use llmxy.Prelude.{
  ℕ, zero, suc, ◌-◌, ◌≤◌, ◌<◌, ℤ, pos, ◌+ℤ◌, ◌-ℤ◌, ◌≤ℤ◌, min_ℤ, int_laws, -ℤ_parts, pos_part,
  neg_part, eq_of_parts, some, [], ◌∷◌, Bool, false, ltb_ℤ, ◌≡◌, refl, sym, ap, ◌∙◌, arith,
  Bool-cases, inl, inr, String, ltb,
}
use llmxy.Datetime.{Datetime}
use llmxy.Models.{Breakdown}
use llmxy.Db.Sums.{total, amount_of}
use llmxy.Billing.Charge.{Charged, charge_user}
use llmxy.Billing.Charge.Drain.Greedy.{IsPositive}
use llmxy.Billing.Charge.Laws.{cents, charge_user_lem}
use llmxy.Billing.Others.{
  SparesOthers, SparesOthers-refl, SparesOthers-trans, charge_user-SparesOthers,
  refund_to_sources-SparesOthers,
}
use llmxy.Billing.Refund.{is_nil}
use llmxy.Billing.Refund.Laws.{refund_to_sources_lem}
use llmxy.ImageRelay.Ready.{StaysReady, charge_user-Continues, refund_to_sources-Continues}
use llmxy.ImageRelay.{
  Request, State, charged_state, refunded_state, charge, refund, reconcile, release, note_text,
  ref_of,
}

abbrev pub IsOpen : State → Type 0
IsOpen st = StaysReady st.db st.user

-- The session goes on with the same user, whose tables are ready, and no other user's account changed.
pub record Goes (st st' : State) : Type 0 where
  pub open_after : IsOpen st'
  pub same_user : st'.user.id ≡ st.user.id
  pub spares : SparesOthers st.user.id st.db st'.db

pub Goes-refl : (st : State) → IsOpen st → Goes st st
Goes-refl st o = record {
  open_after = o;
  same_user = refl;
  spares = SparesOthers-refl st.user.id st.db;
}

pub Goes-trans : (a b c : State) → Goes a b → Goes b c → Goes a c
Goes-trans a b c f g = record {
  open_after = g.open_after;
  same_user = g.same_user ∙ f.same_user;
  spares =
      SparesOthers-trans a.user.id a.db b.db c.db f.spares
        (subst (λ uid. SparesOthers uid b.db c.db) f.same_user g.spares);
}

-- The deductions of a hold of `n` cents.
abbrev pub Holds : ℕ → Breakdown → Type 0
Holds n bd = IsPositive bd × (total amount_of bd ≡ pos n)

pub kept_all : (a : ℤ) → a +ℤ pos 0 ≡ a
kept_all a = omega int_laws

pub Holds-nil : (n : ℕ) (bd : Breakdown) → Holds n bd → 1 ≤ n → is_nil bd ≡ false
unfolding total
Holds-nil n [] h l = ground (arith, h.1)
Holds-nil n (b ∷ bd) h l = refl

module _ (mirrors : Bool) (now : Datetime) (req : Request) where
  pub charge_lem :
      (st : State) (n : ℕ) (tag : String)
      → IsOpen st
      → (c : Charged) × (charge mirrors now req st (pos n) tag ≡ some c)
        × Goes st (charged_state c)
        × Holds n c.structured
        × (cents c.db +ℤ pos n ≡ cents st.db)
  unfolding charge
  charge_lem st zero tag (row, h) = (
    record { db = st.db; user = st.user; api_key = st.api_key; structured = [] },
    unfold charge_user in refl,
    Goes-refl st (row, h),
    (tt, unfold total in refl),
    kept_all _,
  )
  charge_lem st (suc n) tag (row, h) =
      let (c, returns, is) =
        charge_user_lem mirrors now st.db st.user row st.api_key (pos (suc n)) (ref_of req)
          (note_text req tag) h (omega arith) in
      (
        c,
        returns,
        (let (ready, same) =
              charge_user-Continues mirrors now st.db st.user row st.api_key (pos (suc n))
                (ref_of req) (note_text req tag) c h returns in
            record {
              open_after = ready;
              same_user = same;
              spares =
                  charge_user-SparesOthers mirrors now st.db st.user row st.api_key (pos (suc n))
                    (ref_of req) (note_text req tag) c h returns;
            }),
        (is.positive, is.amounts),
        is.conserved,
      )

  refund_lem :
      (st : State) (n : ℕ) (bd : Breakdown) (amount : ℤ)
      → IsOpen st
      → Holds n bd
      → pos 1 ≤ℤ amount
      → amount ≤ℤ pos n
      → (st' : State) × (refund mirrors now req st bd amount ≡ some st')
        × Goes st st'
        × (cents st'.db ≡ cents st.db +ℤ amount)
  unfolding refund
  refund_lem st n bd amount (row, h) held some_cents within =
      let (r, returns, handed, gained) =
        refund_to_sources_lem mirrors now st.db st.user row st.api_key bd amount (ref_of req)
          (note_text req " [image-refund]") h held.0
          (Holds-nil n bd held (ground (arith, some_cents, within))) some_cents in
      (
        refunded_state r,
        ap (Option.map refunded_state) returns,
        (let (ready, same) =
              refund_to_sources-Continues mirrors now st.db st.user row st.api_key bd amount
                (ref_of req) (note_text req " [image-refund]") r h returns in
            record {
              open_after = ready;
              same_user = same;
              spares =
                  refund_to_sources-SparesOthers mirrors now st.db st.user row st.api_key bd amount
                    (ref_of req) (note_text req " [image-refund]") r h returns;
            }),
        gained ∙ ap (λ a. cents st.db +ℤ a) (handed ∙ rw (held.1) (whole amount n within)),
      )
    where
      whole : (a : ℤ) (n : ℕ) → a ≤ℤ pos n → min_ℤ a (pos n) ≡ a
      whole a n l = ground arith

  given_back : (c c' : ℤ) (e a : ℕ) → c' ≡ c +ℤ (pos e -ℤ pos a) → c' +ℤ pos a ≡ c +ℤ pos e
  given_back c c' e a h = omega (int_laws, ap pos_part h, ap neg_part h)

  topped_up : (c c' : ℤ) (e a : ℕ) → c' +ℤ (pos a -ℤ pos e) ≡ c → c' +ℤ pos a ≡ c +ℤ pos e
  topped_up c c' e a h = omega (int_laws, ap pos_part h, ap neg_part h)

  excess : (e a : ℕ) → a < e → (pos 1 ≤ℤ pos e -ℤ pos a) × (pos e -ℤ pos a ≤ℤ pos e)
  excess e a l = (omega (int_laws, l), omega (int_laws, l))

  missing : (e a : ℕ) → e < a → pos a -ℤ pos e ≡ pos (a - e)
  missing e a l = eq_of_parts _ _ (ground (arith, -ℤ_parts (pos a) (pos e), l))

  pub reconcile_lem :
      (st : State) (bd : Breakdown) (estimate actual : ℕ)
      → IsOpen st
      → Holds estimate bd
      → (st' : State) × (reconcile mirrors now req st bd estimate (pos actual) ≡ some st')
        × Goes st st'
        × (cents st'.db +ℤ pos actual ≡ cents st.db +ℤ pos estimate)
  unfolding reconcile
  reconcile_lem st bd estimate actual o held =
      elim (Bool-cases (ltb_ℤ (pos actual) (pos estimate))) [
        | inl less ↦
            let (some_cents, within) = excess estimate actual (ground (arith, less)) in
            let (st', returns, goes, gained) =
              refund_lem st estimate bd (pos estimate -ℤ pos actual) o held some_cents within in
            (st', rw less returns, goes, given_back _ _ estimate actual gained)
        | inr not_less ↦ elim (Bool-cases (ltb_ℤ (pos estimate) (pos actual))) [
          | inl more ↦
              let diff = missing estimate actual (ground (arith, more)) in
              let (c, returns, goes, h, lost) =
                charge_lem st (actual - estimate) " [image-adjust]" o in
              (
                charged_state c,
                rw (not_less, more, diff) (ap (Option.map charged_state) returns),
                goes,
                topped_up _ _ estimate actual (rw diff lost),
              )
          | inr not_more ↦ (
            st,
            rw (not_less, not_more) refl,
            Goes-refl st o,
            ap (λ n. cents st.db +ℤ pos n) (ground (arith, not_less, not_more)),
          )
        ]
      ]

  pub release_lem :
      (st : State) (bd : Breakdown) (estimate : ℕ)
      → IsOpen st
      → Holds estimate bd
      → (st' : State) × (release mirrors now req st bd estimate ≡ some st')
        × Goes st st'
        × (cents st'.db ≡ cents st.db +ℤ pos estimate)
  unfolding release
  release_lem st bd estimate o held = elim (Bool-cases (ltb 0 estimate)) [
    | inl some_cents ↦
        let (st', returns, open', gained) =
          refund_lem st estimate bd (pos estimate) o held (ground (arith, some_cents))
            (omega arith) in
        (st', rw some_cents returns, open', gained)
    | inr nothing ↦ (
      st,
      rw nothing refl,
      Goes-refl st o,
      sym (ap (λ n. cents st.db +ℤ pos n) (free estimate nothing) ∙ kept_all _),
    )
  ]
    where
      free : (n : ℕ) → ltb 0 n ≡ false → n ≡ 0
      free n h = ground arith
