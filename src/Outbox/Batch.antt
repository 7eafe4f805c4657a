-- ===== src/Outbox/Batch.antt =====
-- server/services/webhooks.ts: `runWebhookDeliveryBatch`. What it awaits is a parameter, with what
-- else happens to the database meanwhile.
use opencoi.Base.{
  ℕ, ◌+◌, ◌-◌, ◌*◌, Bool, false, not, ◌&&◌, Option, none, some, List, [], ◌∷◌, leb, ltb, ◌==◌,
  if◌then◌else◌, Text, codes, take, length, update_where, get_or, suc,
}
use opencoi.Webhooks.{PublicWebhookTarget}
use opencoi.Outbox.{
  WebhookDeliveryRow, Database, succeeded, failed, dead_letter, webhook_endpoint_is_active,
}
use opencoi.Outbox.Feed.{DomainEvent, domain_event_from_row}
use opencoi.Outbox.Claim.{
  max_attempts, ClaimedDeliveryRow, granted, refused, claim_throws, ClaimResult, claim_delivery,
  holds, release_disabled_claim, recover_stale_deliveries, due_delivery_candidates,
}

pub record WebhookHttpResult : Type 0 where
  pub ok : Bool
  pub status : Option ℕ
  pub body_excerpt : Text
  pub error : Option Text

-- What a call or an awaited promise ends in; a rejection with its message.
pub data Settled (A : Type 0) : Type 0 where
  resolved : A → Settled A
  rejected : Text → Settled A

-- What a candidate meets: the clock, the random token, the calls that it makes, the milliseconds that
-- have passed when the target is resolved, and what others do to the database during the awaits.
pub record Attempt : Type 0 where
  pub attempt_at : ℕ
  pub claim_token : Text
  pub decrypt_secret : Text → Settled Text
  pub resolve_target : Text → Settled PublicWebhookTarget
  pub during_resolution : Database → Database
  pub elapsed_ms : ℕ
  pub deliver : PublicWebhookTarget → DomainEvent → Text → Settled WebhookHttpResult
  pub during_delivery : Database → Database
  pub completed_at : ℕ

-- `validatedTimeout` of a natural number
unfoldable pub validated_timeout : ℕ → Option ℕ
validated_timeout value = if leb 1 value && leb value 60000 then some value else none

abbrev pub retry_delays_seconds : List ℕ
retry_delays_seconds = 60 ∷ 5 * 60 ∷ 30 * 60 ∷ 2 * 60 * 60 ∷ 8 * 60 * 60 ∷ 24 * 60 * 60 ∷ []

unfoldable pub retry_at : ℕ → ℕ → ℕ
retry_at now attempt =
    let index = if ltb (attempt - 1) 5 then attempt - 1 else 5 in
    now + get_or retry_delays_seconds index 86400 * 1000

-- How the `try` ends: nothing was sent to a disabled endpoint, or a result of it.
pub data Tried : Type 0 where
  disabled_before_send : Tried
  tried : WebhookHttpResult → Tried

-- `catch` of an attempt
abbrev pub caught : Text → Tried
caught message =
    tried (record { ok = false; status = none; body_excerpt = []; error = some message })

abbrev pub after_delivery : Settled WebhookHttpResult → Tried
after_delivery (resolved result) = tried result
after_delivery (rejected message) = caught message

-- The request to a target, if there is one, and how the `try` ends.
unfoldable pub after_resolution :
    ℕ
    → Attempt
    → ClaimedDeliveryRow
    → Text
    → Settled PublicWebhookTarget
    → Database
    → Database × Tried × Option PublicWebhookTarget
after_resolution timeout_ms a row secret (rejected message) db = (db, caught message, none)
after_resolution timeout_ms a row secret (resolved target) db =
    if not (webhook_endpoint_is_active db.webhook_endpoints row.organization_id row.endpoint_id)
    then (db, disabled_before_send, none)
    else if leb timeout_ms a.elapsed_ms
    then (db, caught (codes "Webhook attempt exceeded its deadline"), none)
    else (
      a.during_delivery db,
      after_delivery (a.deliver target (domain_event_from_row row.event) secret),
      some target,
    )

abbrev pub after_decryption :
    ℕ
    → Attempt
    → ClaimedDeliveryRow
    → Settled Text
    → Database
    → Database × Tried × Option PublicWebhookTarget
after_decryption timeout_ms a row (rejected message) db = (db, caught message, none)
after_decryption timeout_ms a row (resolved secret) db =
    after_resolution timeout_ms a row secret (a.resolve_target row.endpoint_url)
      (a.during_resolution db)

-- The `try` of an attempt.
unfoldable pub try_delivery :
    ℕ → Attempt → ClaimedDeliveryRow → Database → Database × Tried × Option PublicWebhookTarget
try_delivery timeout_ms a row db =
    after_decryption timeout_ms a row (a.decrypt_secret row.signing_secret_ciphertext) db

unfoldable pub succeeded_row : WebhookHttpResult → ℕ → WebhookDeliveryRow → WebhookDeliveryRow
succeeded_row result at d = record d {
  status = succeeded;
  claim_token = none;
  claimed_at = none;
  response_status = result.status;
  response_body_excerpt = some result.body_excerpt;
  error_message = none;
  delivered_at = some at;
  updated_at = at;
}

-- `result.error?.slice(0, 2_000) ?? "Webhook delivery failed"`
abbrev pub error_excerpt : Option Text → Text
error_excerpt none = codes "Webhook delivery failed"
error_excerpt (some message) = take 2000 message

unfoldable pub failed_delivery_row :
    WebhookHttpResult → ℕ → ℕ → WebhookDeliveryRow → WebhookDeliveryRow
failed_delivery_row result attempt at d = record d {
  status = if leb max_attempts attempt then dead_letter else failed;
  claim_token = none;
  claimed_at = none;
  response_status = result.status;
  response_body_excerpt = some result.body_excerpt;
  error_message = some (error_excerpt result.error);
  next_attempt_at = retry_at at attempt;
  updated_at = at;
}

-- The row after the result of its attempt.
unfoldable pub completed_row : WebhookHttpResult → ℕ → ℕ → WebhookDeliveryRow → WebhookDeliveryRow
completed_row result attempt at =
    if result.ok then succeeded_row result at else failed_delivery_row result attempt at

unfoldable pub complete_delivery :
    ClaimedDeliveryRow → WebhookHttpResult → ℕ → Database → Database × Bool
complete_delivery row result at db =
    let changed =
      update_where (holds row) (completed_row result row.attempt_count at) db.webhook_deliveries in
    (record db { webhook_deliveries = changed.0 }, length changed.1 == 1)

pub record BatchResult : Type 0 where
  pub claimed : ℕ
  pub succeeded : ℕ
  pub failed : ℕ
  pub dead_lettered : ℕ

unfoldable pub count_completed :
    ClaimedDeliveryRow → WebhookHttpResult → Bool → BatchResult → BatchResult
count_completed row result changed counts =
    if not changed
    then counts
    else if result.ok
    then record counts { succeeded = counts.succeeded + 1 }
    else if leb max_attempts row.attempt_count
    then record counts { dead_lettered = counts.dead_lettered + 1 }
    else record counts { failed = counts.failed + 1 }

-- What follows the `try`.
unfoldable pub finish_attempt :
    Attempt → ClaimedDeliveryRow → Tried → BatchResult → Database → Database × BatchResult
finish_attempt a row disabled_before_send counts db =
    let released = release_disabled_claim row a.completed_at db in
    (released.0, if released.1 then record counts { claimed = counts.claimed - 1 } else counts)
finish_attempt a row (tried result) counts db =
    let completed = complete_delivery row result a.completed_at db in
    (completed.0, count_completed row result completed.1 counts)

-- One candidate of the loop; `none` where it throws.
abbrev pub after_claim_result :
    ℕ → Attempt → BatchResult → Database × ClaimResult → Database × Option BatchResult
after_claim_result timeout_ms a counts (db, refused) = (db, some counts)
after_claim_result timeout_ms a counts (db, claim_throws) = (db, none)
after_claim_result timeout_ms a counts (db, granted row) =
    let result = try_delivery timeout_ms a row db in
    let finished =
      finish_attempt a row result.1 (record counts { claimed = counts.claimed + 1 }) result.0 in
    (finished.0, some finished.1)

unfoldable pub attempt_candidate :
    ℕ → Attempt → WebhookDeliveryRow → BatchResult → Database → Database × Option BatchResult
attempt_candidate timeout_ms a candidate counts db =
    after_claim_result timeout_ms a counts
      (claim_delivery candidate.organization_id candidate.id a.claim_token a.attempt_at db)

-- The loop over the candidates.
unfoldable pub attempt_candidates :
    ℕ
    → (ℕ → Attempt)
    → ℕ
    → List WebhookDeliveryRow
    → BatchResult
    → Database
    → Database × Option BatchResult
attempt_candidates timeout_ms attempts i [] counts db = (db, some counts)
attempt_candidates timeout_ms attempts i (c ∷ cs) counts db =
    let done = attempt_candidate timeout_ms (attempts i) c counts db in
    elim done.1 [
      | none ↦ (done.0, none)
      | some next ↦ attempt_candidates timeout_ms attempts (suc i) cs next done.0
    ]

unfoldable pub run_webhook_delivery_batch :
    ℕ → ℕ → ℕ → (ℕ → Attempt) → Database → Database × Option BatchResult
run_webhook_delivery_batch started_at limit timeout_ms attempts db =
    elim (validated_timeout timeout_ms) [
      | none ↦ (db, none)
      | some timeout ↦
          let recovered = recover_stale_deliveries started_at db in
          attempt_candidates timeout attempts 0
            (due_delivery_candidates started_at limit recovered.0)
            (record { claimed = 0; succeeded = 0; failed = 0; dead_lettered = recovered.1 })
            recovered.0
    ]
