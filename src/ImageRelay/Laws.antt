-- ===== src/ImageRelay/Laws.antt =====
-- A relayed image request costs what its log says: the accounts lose exactly that.
use llmxy.Prelude.{
  ℕ, int_laws, ◌+◌, ◌*◌, negsuc, ◌≤ℤ◌, arith, ℤ, pos, ◌+ℤ◌, ltb_ℤ, some, List, [], ◌∷◌, Bool, ◌≡◌,
  refl, ◌∙◌, Bool-cases, inl, inr, ◌⊎◌, ltb, ◌&&◌,
}
use llmxy.Datetime.{Datetime}
use llmxy.Models.{Model, Channel, Breakdown}
use llmxy.Providers.{TextOps}
use llmxy.Billing.Pricing.{ceil_div, QuoteMeta, quote_image_cost_cents}
use llmxy.Billing.Accounts.{available_cents}
use llmxy.Billing.Charge.Laws.{cents}
use llmxy.Billing.Others.{SparesOthers, SparesOthers-refl}
use llmxy.ImageRelay.{
  Usage, unreported, unreadable, counts, usage_cost, is_token, ok, Request, Reply, Body, Support,
  support_of, ready, lacking, State, Outcome, answered, raised, Step, skipped, stopped, won, failed,
  charged_state, is_success, actual_cost, log_of, after_call, hold_and_call, attempt, follow, relay,
  execute_image_relay, requested_n, no_candidates, insufficient_balance, message, upstream_body,
  no_upstream, mark, failure_status,
}
use llmxy.ImageRelay.Moves.{
  Goes, Goes-refl, Goes-trans, IsOpen, Holds, kept_all, charge_lem, reconcile_lem, release_lem,
}

-- The end of a relay that began with the session `st`: an answer has cost what its log says, and
-- nothing unless the log says that it succeeded; an error has cost nothing. No other user paid.
abbrev pub IsSettled : {B : Type 0} → State → Outcome B → Type 0
IsSettled st (answered db log status body) =
    (cents db +ℤ log.cost_cents ≡ cents st.db)
    × ((log.status ≡ ok) ⊎ (log.cost_cents ≡ pos 0))
    × (log.user_id ≡ st.user.id)
    × SparesOthers st.user.id st.db db
IsSettled st (raised e db) = (cents db ≡ cents st.db) × SparesOthers st.user.id st.db db

-- A usage that can be read and has no negative count.
abbrev pub IsSound : Usage → Type 0
IsSound unreported = Unit
IsSound unreadable = ⊥
IsSound (counts in_tok out_tok) = (pos 0 ≤ℤ in_tok) × (pos 0 ≤ℤ out_tok)

from_zero : (a : ℤ) → pos 0 ≤ℤ a → (n : ℕ) × (a ≡ pos n)
from_zero (pos n) h = (n, refl)
from_zero (negsuc n) h = absurd (omega arith)

add_pos : (x y : ℕ) → pos x +ℤ pos y ≡ pos (x + y)
add_pos x y = omega int_laws

-- Then the cost is a natural number of cents.
usage_cost-pos :
    (model : Model) (by_images : ℕ) (usage : Usage)
    → IsSound usage
    → (n : ℕ) × (usage_cost model (pos by_images) usage ≡ some (pos n))
unfolding usage_cost
usage_cost-pos model by_images unreported h = (by_images, refl)
usage_cost-pos model by_images unreadable h = absurd h
usage_cost-pos model by_images (counts in_tok out_tok) h =
    let (a, is_a) = from_zero in_tok h.0 in
    let (b, is_b) = from_zero out_tok h.1 in
    (
      ceil_div (a * model.prompt_rate + b * model.completion_rate) 10_000_000,
      rw (is_a, is_b, add_pos (a * model.prompt_rate) (b * model.completion_rate)) refl,
    )

module _ (mirrors : Bool) (now : Datetime) (req : Request) where
  module _ {B : Type 0} where
    -- What one candidate leaves: a success costs what its log says, a failure nothing.
    abbrev Fine : State → Step B → Type 0
    Fine st (skipped m) = Unit
    Fine st stopped = Unit
    Fine st (won st' log reply) =
        (cents st'.db +ℤ log.cost_cents ≡ cents st.db)
        × (log.status ≡ ok)
        × (log.user_id ≡ st'.user.id)
        × Goes st st'
    Fine st (failed st' reply) = Goes st st' × (cents st'.db ≡ cents st.db)

    actual_cost-pos :
        (model : Model) (details : QuoteMeta) (reply : Reply B)
        → IsSound reply.usage
        → (n : ℕ) × (actual_cost req model details reply ≡ some (pos n))
    unfolding actual_cost
    actual_cost-pos model details reply h =
        let images = pos reply.images in
        let by_images =
          (quote_image_cost_cents model req.size req.quality images req.prompt_text).0 in
        elim (Bool-cases (is_token details)) [
          | inl tokens ↦ rw tokens (usage_cost-pos model by_images reply.usage h)
          | inr per_image ↦ (by_images, rw per_image refl)
        ]

    after_call-Fine :
        (st held : State) (model : Model) (estimate : ℕ) (details : QuoteMeta) (reply : Reply B)
        (bd : Breakdown)
        → IsSound reply.usage
        → Goes st held
        → Holds estimate bd
        → cents held.db +ℤ pos estimate ≡ cents st.db
        → (s : Step B) × (after_call mirrors now req model estimate details reply held bd ≡ some s)
          × Fine st s
    unfolding after_call
    after_call-Fine st held model estimate details reply bd sound g h lost =
        elim (Bool-cases (is_success reply)) [
          | inl success ↦
              let (actual, costs) = actual_cost-pos model details reply sound in
              let (st', returns, goes, spent) =
                reconcile_lem mirrors now req held bd estimate actual g.open_after h in
              (
                won st' (log_of mirrors now req st' model (pos actual) reply.images ok) reply,
                rw (success, costs, returns) refl,
                (spent ∙ lost, refl, refl, Goes-trans st held st' g goes),
              )
          | inr failure ↦
              let (st', returns, goes, gained) =
                release_lem mirrors now req held bd estimate g.open_after h in
              (
                failed st' reply,
                rw (failure, returns) refl,
                (Goes-trans st held st' g goes, gained ∙ lost),
              )
        ]

    hold_and_call-Fine :
        (st : State) (model : Model) (reply : Reply B)
        → IsSound reply.usage
        → IsOpen st
        → (s : Step B) × (hold_and_call mirrors now req st model reply ≡ some s) × Fine st s
    unfolding hold_and_call
    hold_and_call-Fine st model reply sound o =
        let (estimate, details) =
          quote_image_cost_cents model req.size req.quality (requested_n req.n) req.prompt_text in
        elim (Bool-cases
          (ltb 0 estimate && ltb_ℤ (available_cents st.db st.user now) (pos estimate))) [
            | inl short ↦ (stopped, rw short refl, tt)
            | inr enough ↦
                let (c, returns, goes, held, lost) =
                  charge_lem mirrors now req st estimate " [image-hold]" o in
                let (s, done, fine) =
                  after_call-Fine st (charged_state c) model estimate details reply c.structured
                    sound goes held lost in
                (s, rw (enough, returns) done, fine)
          ]

    attempt-Fine :
        (st : State) (model : Model) (support : Support) (reply : Reply B)
        → IsSound reply.usage
        → IsOpen st
        → (s : Step B) × (attempt mirrors now req st model support reply ≡ some s) × Fine st s
    unfolding attempt
    attempt-Fine st model ready reply sound o = hold_and_call-Fine st model reply sound o
    attempt-Fine st model (lacking m) reply sound o = (skipped m, refl, tt)

    module _ (str : TextOps) (images : Model → Channel → Reply B) where
      abbrev Ends : State → Model → State → List (Model × Channel) → ℕ → Body B → Type 0
      Ends start first st chain status body =
          (o : Outcome B) × (relay mirrors now req str images first chain st status body ≡ some o)
          × IsSettled start o

      marked :
          (start st : State)
          → Goes start st
          → SparesOthers start.user.id start.db (mark mirrors now req st)
      marked start st g = record { subs = g.spares.subs; users = g.spares.users }

      relay-next :
          (start : State) (first : Model) (st : State) (model : Model) (channel : Channel)
          (rest : List (Model × Channel)) (status : ℕ) (body : Body B) (s : Step B)
          → attempt mirrors now req st model (support_of str model channel) (images model channel)
            ≡ some s
          → Fine st s
          → Goes start st
          → cents st.db ≡ cents start.db
          → ((st' : State) (status' : ℕ) (body' : Body B)
              → Goes start st'
              → cents st'.db ≡ cents start.db
              → Ends start first st' rest status' body')
          → Ends start first st ((model, channel) ∷ rest) status body
      unfolding relay follow
      relay-next start first st model channel rest status body (skipped m) h f g e ih =
          let (out, done, settled) = ih st 502 (message m) g e in (out, rw h done, settled)
      relay-next start first st model channel rest status body stopped h f g e ih =
          (raised insufficient_balance st.db, rw h refl, (e, g.spares))
      relay-next start first st model channel rest status body (won st' log reply) h f g e ih =
          let (spent, is_ok, owner, goes) = f in
          let all = Goes-trans start st st' g goes in
          (
            answered (mark mirrors now req st') log reply.status_code (upstream_body reply.body),
            rw h refl,
            (spent ∙ e, inl is_ok, owner ∙ all.same_user, marked start st' all),
          )
      relay-next start first st model channel rest status body (failed st' reply) h f g e ih =
          let (out, done, settled) =
            ih st' reply.status_code (upstream_body reply.body) (Goes-trans start st st' g f.0)
              (f.1 ∙ e) in
          (out, rw h done, settled)

      relay-IsSettled :
          ((model : Model) (channel : Channel) → IsSound (images model channel).usage)
          → (start : State) (first : Model) (st : State) (chain : List (Model × Channel))
            (status : ℕ) (body : Body B)
          → Goes start st
          → cents st.db ≡ cents start.db
          → Ends start first st chain status body
      relay-IsSettled sound start first st [] status body g e = (
        answered (mark mirrors now req st)
            (log_of mirrors now req st first (pos 0) 0 (failure_status status)) status body,
        unfold relay in refl,
        (kept_all _ ∙ e, inr refl, g.same_user, marked start st g),
      )
      relay-IsSettled sound start first st ((model, channel) ∷ rest) status body g e =
          let (s, done, fine) =
            attempt-Fine st model (support_of str model channel) (images model channel)
              (sound model channel) g.open_after in
          relay-next start first st model channel rest status body s done fine g e
            (λ st' status' body' g' e'.
              relay-IsSettled sound start first st' rest status' body' g' e')

      -- The tables are ready, and no upstream reports a usage that cannot be read or has a negative
      -- count. The relay returns: either with an answer, and then the accounts together have lost
      -- exactly what the usage log of the user says, which is nothing unless it says that the request
      -- succeeded; or with an error, and then they hold together what they held before, whatever was
      -- tried and given back. Either way no wallet and no subscription of another user has changed.
      pub execute_image_relay_lem :
          (st : State) (chain : List (Model × Channel))
          → ((model : Model) (channel : Channel) → IsSound (images model channel).usage)
          → IsOpen st
          → (o : Outcome B) × (execute_image_relay mirrors now req str images st chain ≡ some o)
            × IsSettled st o
      unfolding execute_image_relay
      execute_image_relay_lem st [] sound o =
          (raised no_candidates st.db, refl, (refl, SparesOthers-refl st.user.id st.db))
      execute_image_relay_lem st ((model, channel) ∷ rest) sound o =
          relay-IsSettled sound st model st ((model, channel) ∷ rest) 502 (message no_upstream)
            (Goes-refl st o) refl
