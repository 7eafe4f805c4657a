-- ===== src/Uploads/Bounded.antt =====
-- server/http/uploadCapacity.ts: the number of active uploads.
use opencoi.Base.{ℕ, suc, ◌≤◌, ◌≡◌, refl, Bool, false, some, List, [], ◌∷◌, arith, if◌then◌else◌}
use opencoi.Uploads.{
  Request, Limiter, create_upload_capacity_limiter, handle, release_request, release, Event,
  arrives, finishes, closes, step, run,
}

-- The accepted requests that are not released.
unfoldable pub open_requests : List Request → ℕ
open_requests [] = 0
open_requests (r ∷ rs) = if r.released then open_requests rs else suc (open_requests rs)

pub record IsConsistent (l : Limiter) : Type 0 where
  pub counts : l.active ≡ open_requests l.requests
  pub bounded : l.active ≤ l.maximum_active
  pub some_capacity : 1 ≤ l.maximum_active
  pub at_most_16 : l.maximum_active ≤ 16

release_request_counts :
    (id : ℕ) (rs : List Request)
    → (if (release_request id rs).0
        then suc (open_requests (release_request id rs).1)
        else open_requests (release_request id rs).1)
      ≡ open_requests rs
unfolding release_request open_requests
release_request_counts id [] = refl
release_request_counts id (r ∷ rs) = ground (arith, release_request_counts id rs)

handle-IsConsistent :
    (l : Limiter) (id : ℕ) (b : Bool) → IsConsistent l → IsConsistent (handle l id b).0
unfolding handle open_requests
handle-IsConsistent l id b h = ground arith

release-IsConsistent : (l : Limiter) (id : ℕ) → IsConsistent l → IsConsistent (release l id)
unfolding release
release-IsConsistent l id h = ground (arith, release_request_counts id l.requests)

step-IsConsistent : (l : Limiter) (e : Event) → IsConsistent l → IsConsistent (step l e)
unfolding step
step-IsConsistent l (arrives id b) h = handle-IsConsistent l id b h
step-IsConsistent l (finishes id) h = release-IsConsistent l id h
step-IsConsistent l (closes id) h = release-IsConsistent l id h

run-IsConsistent : (l : Limiter) (es : List Event) → IsConsistent l → IsConsistent (run l es)
unfolding run
run-IsConsistent l [] h = h
run-IsConsistent l (e ∷ es) h = run-IsConsistent (step l e) es (step-IsConsistent l e h)

-- From a new limiter on, whatever requests arrive and whatever responses finish or close, in any
-- order and as often as they like: `active` is the number of accepted requests that are not released, is
-- never above the maximum, and the maximum is from 1 to 16.
pub run_new-IsConsistent :
    (n : ℕ) (l : Limiter) (es : List Event)
    → create_upload_capacity_limiter n ≡ some l
    → IsConsistent (run l es)
unfolding create_upload_capacity_limiter open_requests
run_new-IsConsistent n l es h = run-IsConsistent l es (ground arith)

release_request_twice :
    (id : ℕ) (rs : List Request)
    → release_request id (release_request id rs).1 ≡ (false, (release_request id rs).1)
unfolding release_request
release_request_twice id [] = refl
release_request_twice id (r ∷ rs) = ground (arith, release_request_twice id rs)

-- A response that both finishes and closes gives its place back once: the second event changes
-- nothing.
pub release_twice : (l : Limiter) (id : ℕ) → release (release l id) id ≡ release l id
unfolding release
release_twice l id = rw (release_request_twice id l.requests)
