-- ===== src/Outbox/Refines.antt =====
-- server/services/webhooks.ts: a batch is made of the steps of the services, those of others included.
use opencoi.Base.{
  ℕ, suc, ◌≡◌, refl, sym, subst, Bool, true, false, List, [], ◌∷◌, arith, Text, All, Bool-cases,
  inl, inr, Option-cases, ◌||◌, text_eq, text_eq_refl, leb,
}
use opencoi.Webhooks.{PublicWebhookTarget}
use opencoi.Outbox.{WebhookDeliveryRow, Database, webhook_endpoint_is_active}
use opencoi.Outbox.Claim.{
  ClaimedDeliveryRow, ClaimResult, granted, refused, claim_throws, recover_stale_deliveries,
}
use opencoi.Outbox.Batch.{
  Attempt, Settled, resolved, rejected, Tried, tried, disabled_before_send, BatchResult,
  after_claim_result, after_resolution, after_decryption, try_delivery, finish_attempt,
  attempt_candidate, attempt_candidates, run_webhook_delivery_batch, validated_timeout,
}
use opencoi.Outbox.Steps.{
  InAttempt, Step, recovers, claims, releases, completes, Steps, done, after_step, Steps-trans,
  Steps-Within,
}
use opencoi.Outbox.Keys.{IsKeyed, Steps-IsKeyed}
use opencoi.Outbox.Granted.{claim_delivery-InAttempt, claim_delivery-leased}
use opencoi.Outbox.Fencing.{Steps-InAttempt}

-- A set of tokens with one more.
abbrev pub also : (Text → Bool) → Text → Text → Bool
also taken token t = taken t || text_eq t token

-- What others do to the database.
abbrev pub IsOthers : (Text → Bool) → (Database → Database) → Type 0
IsOthers taken during = (db : Database) → Steps taken db (during db)

-- The token of an attempt is new, and what others do meanwhile is made of steps that do not take it.
pub record IsFair (taken : Text → Bool) (a : Attempt) : Type 0 where
  pub fresh : taken a.claim_token ≡ false
  pub resolution : IsOthers (also taken a.claim_token) a.during_resolution
  pub delivery : IsOthers (also taken a.claim_token) a.during_delivery

one : {taken : Text → Bool} {a b : Database} → Step taken a b → Steps taken a b
one s = after_step s done

also-token : (taken : Text → Bool) (token : Text) → also taken token token ≡ true
also-token taken token = ground (arith, text_eq_refl token)

module _ (taken : Text → Bool) (timeout : ℕ) (a : Attempt) (fair : IsFair taken a) where
  after_resolution-Steps :
      (row : ClaimedDeliveryRow) (secret : Text) (s : Settled PublicWebhookTarget) (db : Database)
      → Steps (also taken a.claim_token) db (after_resolution timeout a row secret s db).0
  unfolding after_resolution
  after_resolution-Steps row secret (rejected message) db = done
  after_resolution-Steps row secret (resolved target) db =
      elim (Bool-cases
        (webhook_endpoint_is_active db.webhook_endpoints row.organization_id row.endpoint_id)) [
          | inl e ↦ elim (Bool-cases (leb timeout a.elapsed_ms)) [
            | inl k ↦ rw (e, k) done
            | inr k ↦ rw (e, k) (fair.delivery db)
          ]
          | inr e ↦ rw e done
        ]

  try_delivery-Steps :
      (row : ClaimedDeliveryRow) (db : Database)
      → Steps (also taken a.claim_token) db (try_delivery timeout a row db).0
  unfolding try_delivery
  try_delivery-Steps row db = by_secret (a.decrypt_secret row.signing_secret_ciphertext)
    where
      by_secret :
          (s : Settled Text)
          → Steps (also taken a.claim_token) db (after_decryption timeout a row s db).0
      by_secret (rejected message) = done
      by_secret (resolved secret) =
          Steps-trans (fair.resolution db) (after_resolution-Steps row secret _ _)

  finish_attempt-Steps :
      (row : ClaimedDeliveryRow) (t : Tried) (counts : BatchResult) (db : Database)
      → All (InAttempt row) db.webhook_deliveries
      → Steps taken db (finish_attempt a row t counts db).0
  unfolding finish_attempt
  finish_attempt-Steps row disabled_before_send counts db h = one (releases row a.completed_at db)
  finish_attempt-Steps row (tried result) counts db h =
      one (completes row result a.completed_at db h)

  after_claim_result-Steps :
      (counts : BatchResult) (db : Database) (r : ClaimResult)
      → ((row : ClaimedDeliveryRow)
          → r ≡ granted row
          → (row.claim_token ≡ a.claim_token) × All (InAttempt row) db.webhook_deliveries)
      → Steps taken db (after_claim_result timeout a counts (db, r)).0
  after_claim_result-Steps counts db refused h = done
  after_claim_result-Steps counts db claim_throws h = done
  after_claim_result-Steps counts db (granted row) h =
      let (q, k) = h row refl in
      let p = try_delivery-Steps row db in
      let held =
        Steps-InAttempt row (also taken a.claim_token)
          (subst (λ t. also taken a.claim_token t ≡ true) (sym q) (also-token taken a.claim_token))
          _ _ p k in
      Steps-trans (Steps-Within (λ t e. ground arith) p) (finish_attempt-Steps row _ _ _ held)

  attempt_candidate-Steps :
      (c : WebhookDeliveryRow) (counts : BatchResult) (db : Database)
      → IsKeyed db
      → Steps taken db (attempt_candidate timeout a c counts db).0
  unfolding attempt_candidate
  attempt_candidate-Steps c counts db k =
      after_step (claims c.organization_id c.id a.claim_token a.attempt_at db fair.fresh) (
        after_claim_result-Steps counts _ _ (λ row e. (
          (claim_delivery-leased c.organization_id c.id a.claim_token a.attempt_at db row
              e).1.row_token,
          claim_delivery-InAttempt c.organization_id c.id a.claim_token a.attempt_at db row k e,
        )))

attempt_candidates-Steps :
    (taken : Text → Bool) (timeout : ℕ) (attempts : ℕ → Attempt)
    → ((i : ℕ) → IsFair taken (attempts i))
    → (i : ℕ) (cs : List WebhookDeliveryRow) (counts : BatchResult) (db : Database) → IsKeyed db
    → Steps taken db (attempt_candidates timeout attempts i cs counts db).0
unfolding attempt_candidates
attempt_candidates-Steps taken timeout attempts f i [] counts db k = done
attempt_candidates-Steps taken timeout attempts f i (c ∷ cs) counts db k =
    let p = attempt_candidate-Steps taken timeout (attempts i) (f i) c counts db k in
    elim (Option-cases (attempt_candidate timeout (attempts i) c counts db).1) [
      | inl e ↦ rw (e, attempt_candidates) p
      | inr (next, e) ↦
          rw (e, attempt_candidates)
            (Steps-trans p (
              attempt_candidates-Steps taken timeout attempts f (suc i) cs next _
                (Steps-IsKeyed taken _ _ p k)))
    ]

-- A batch, whatever it awaits and however it ends, changes the outbox by the steps of the services
-- alone, where the tokens are new and what others do meanwhile are such steps that take no token of the
-- attempt: each of its completions is of a claim whose delivery, if it still holds it, is in the attempt
-- that was leased.
pub run_webhook_delivery_batch-Steps :
    (taken : Text → Bool) (started_at limit timeout_ms : ℕ) (attempts : ℕ → Attempt) (db : Database)
    → ((i : ℕ) → IsFair taken (attempts i))
    → IsKeyed db
    → Steps taken db (run_webhook_delivery_batch started_at limit timeout_ms attempts db).0
unfolding run_webhook_delivery_batch
run_webhook_delivery_batch-Steps taken started_at limit timeout_ms attempts db f k =
    elim (Option-cases (validated_timeout timeout_ms)) [
      | inl e ↦ rw (e, run_webhook_delivery_batch) done
      | inr (timeout, e) ↦
          let recovered : Steps taken db (recover_stale_deliveries started_at db).0 =
            one (recovers started_at db) in
          rw (e, run_webhook_delivery_batch)
            (Steps-trans recovered (
              attempt_candidates-Steps taken timeout attempts f 0 _ _ _
                (Steps-IsKeyed taken _ _ recovered k)))
    ]
