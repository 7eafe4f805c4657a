-- ===== src/Outbox/Bounds.antt =====
-- server/services/webhooks.ts: when a failed delivery is tried again, and what a batch counts.
use opencoi.Base.{
  ℕ, zero, suc, ◌+◌, ◌≤◌, ◌≡◌, subst, Bool, none, some, List, [], ◌∷◌, arith, Bool-cases, inl, inr,
  Option-cases, some-inj, length, filter, take,
}
use opencoi.Base.Sort.{sort}
use opencoi.Outbox.{WebhookDeliveryRow, Database}
use opencoi.Outbox.Feed.{clamp_limit}
use opencoi.Outbox.Claim.{
  ClaimedDeliveryRow, ClaimResult, granted, refused, claim_throws, recover_stale_deliveries,
  release_disabled_claim, due_delivery_candidates, compare_deliveries, is_delivery_due,
}
use opencoi.Outbox.Batch.{
  retry_at, Attempt, Tried, tried, disabled_before_send, BatchResult, WebhookHttpResult,
  after_claim_result, finish_attempt, count_completed, attempt_candidate, attempt_candidates,
  run_webhook_delivery_batch, validated_timeout,
}

-- A failed attempt puts the next one off by a minute at least and a day at most, and a later attempt
-- never by less than an earlier one.
pub retry_at-bounds :
    (now attempt later : ℕ)
    → attempt ≤ later
    → (now + 60000 ≤ retry_at now attempt)
      × (retry_at now attempt ≤ now + 86400000)
      × (retry_at now attempt ≤ retry_at now later)
unfolding retry_at
retry_at-bounds now attempt later h = ground arith

-- What the loop keeps of its counts: it settles no more deliveries than it claimed, besides those that
-- were dead letters when it began.
record Within (claims dead : ℕ) (r : BatchResult) : Type 0 where
  claimed : r.claimed ≤ claims
  settled : r.succeeded + r.failed + r.dead_lettered ≤ r.claimed + dead

more : (claims dead : ℕ) (r : BatchResult) → Within claims dead r → Within (suc claims) dead r
more claims dead r h = record { claimed = omega (arith, h.claimed); settled = h.settled }

count_completed-Within :
    (claims dead : ℕ) (row : ClaimedDeliveryRow) (result : WebhookHttpResult) (changed : Bool)
    (r : BatchResult)
    → Within claims dead r
    → Within
        (suc claims)
        dead
        (count_completed row result changed (record r { claimed = r.claimed + 1 }))
unfolding count_completed
count_completed-Within claims dead row result changed r h = ground (arith, h.claimed, h.settled)

finish_attempt-Within :
    (claims dead : ℕ) (a : Attempt) (row : ClaimedDeliveryRow) (t : Tried) (r : BatchResult)
    (db : Database)
    → Within claims dead r
    → Within (suc claims) dead (finish_attempt a row t (record r { claimed = r.claimed + 1 }) db).1
unfolding finish_attempt
finish_attempt-Within claims dead a row (tried result) r db h =
    count_completed-Within claims dead row result _ r h
finish_attempt-Within claims dead a row disabled_before_send r db h =
    elim (Bool-cases (release_disabled_claim row a.completed_at db).1) [
      | inl e ↦
          rw e (record { claimed = omega (arith, h.claimed); settled = omega (arith, h.settled) })
      | inr e ↦
          rw e (record { claimed = omega (arith, h.claimed); settled = omega (arith, h.settled) })
    ]

after_claim_result-Within :
    (claims dead timeout : ℕ) (a : Attempt) (r next : BatchResult) (c : Database × ClaimResult)
    → (after_claim_result timeout a r c).1 ≡ some next
    → Within claims dead r
    → Within (suc claims) dead next
after_claim_result-Within claims dead timeout a r next (db, refused) e h =
    subst (Within (suc claims) dead) (some-inj e) (more claims dead r h)
after_claim_result-Within claims dead timeout a r next (db, claim_throws) e h = ground arith
after_claim_result-Within claims dead timeout a r next (db, granted row) e h =
    subst (Within (suc claims) dead) (some-inj e) (finish_attempt-Within claims dead a row _ r _ h)

attempt_candidate-Within :
    (claims dead timeout : ℕ) (a : Attempt) (c : WebhookDeliveryRow) (r next : BatchResult)
    (db : Database)
    → (attempt_candidate timeout a c r db).1 ≡ some next
    → Within claims dead r
    → Within (suc claims) dead next
unfolding attempt_candidate
attempt_candidate-Within claims dead timeout a c r next db =
    after_claim_result-Within claims dead timeout a r next _

attempt_candidates-Within :
    (claims dead timeout : ℕ) (attempts : ℕ → Attempt) (i : ℕ) (cs : List WebhookDeliveryRow)
    (r final : BatchResult) (db : Database)
    → (attempt_candidates timeout attempts i cs r db).1 ≡ some final
    → Within claims dead r
    → Within (length cs + claims) dead final
unfolding attempt_candidates
attempt_candidates-Within claims dead timeout attempts i [] r final db e h =
    subst (Within (0 + claims) dead) (some-inj e)
      (record { claimed = omega (arith, h.claimed); settled = h.settled })
attempt_candidates-Within claims dead timeout attempts i (c ∷ cs) r final db e h =
    elim (Option-cases (attempt_candidate timeout (attempts i) c r db).1) [
      | inl q ↦ absurd (stopped q)
      | inr (next, q) ↦
          subst (λ n. Within n dead final) (omega arith)
            (attempt_candidates-Within (suc claims) dead timeout attempts (suc i) cs next final _
              (continued next q)
              (attempt_candidate-Within claims dead timeout (attempts i) c r next db q h))
    ]
  where
    stopped : (attempt_candidate timeout (attempts i) c r db).1 ≡ none → ⊥
    stopped q = ground (arith, rw (q, attempt_candidates) at e)

    continued :
        (next : BatchResult)
        → (attempt_candidate timeout (attempts i) c r db).1 ≡ some next
        → (attempt_candidates timeout attempts
            (suc i)
            cs
            next
            (attempt_candidate timeout (attempts i) c r db).0).1
          ≡ some final
    continued next q = rw (q, attempt_candidates) at e

length-take : (n : ℕ) (rows : List WebhookDeliveryRow) → length (take n rows) ≤ n
unfolding take
length-take zero rows = omega arith
length-take (suc n) [] = omega arith
length-take (suc n) (r ∷ rows) = omega (arith, length-take n rows)

candidates_bounded :
    (now limit : ℕ) (db : Database) → length (due_delivery_candidates now limit db) ≤ 100
unfolding due_delivery_candidates
candidates_bounded now limit db = ground (
  arith,
  length-take (clamp_limit limit 100) (
      sort compare_deliveries
        (filter (is_delivery_due db.webhook_endpoints now) db.webhook_deliveries)),
)

-- A batch that ends claims at most 100 deliveries, and what it settles, as succeeded, failed or dead
-- letters, is no more than what it claimed and the dead letters that its recovery made.
pub run_webhook_delivery_batch-bounds :
    (started_at limit timeout_ms : ℕ) (attempts : ℕ → Attempt) (db : Database) (r : BatchResult)
    → (run_webhook_delivery_batch started_at limit timeout_ms attempts db).1 ≡ some r
    → (r.claimed ≤ 100)
      × (r.succeeded + r.failed + r.dead_lettered
          ≤ r.claimed + (recover_stale_deliveries started_at db).1)
unfolding run_webhook_delivery_batch
run_webhook_delivery_batch-bounds started_at limit timeout_ms attempts db r e =
    elim (Option-cases (validated_timeout timeout_ms)) [
      | inl q ↦ absurd (refused_timeout q)
      | inr (timeout, q) ↦
          let recovered = recover_stale_deliveries started_at db in
          let w =
            attempt_candidates-Within 0 recovered.1 timeout attempts 0
              (due_delivery_candidates started_at limit recovered.0) _ r recovered.0
              (rw (q, run_webhook_delivery_batch) at e)
              (record { claimed = omega arith; settled = omega arith }) in
          (omega (arith, w.claimed, candidates_bounded started_at limit recovered.0), w.settled)
    ]
  where
    refused_timeout : validated_timeout timeout_ms ≡ none → ⊥
    refused_timeout q = ground (arith, rw (q, run_webhook_delivery_batch) at e)
