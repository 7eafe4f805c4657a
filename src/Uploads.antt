-- ===== src/Uploads.antt =====
-- server/http/uploadCapacity.ts: the limiter of simultaneous uploads. `maximumActive` is an integer
-- here; the numbers that `Number.isSafeInteger` refuses are none.
pub mod Bounded
mod Examples
use opencoi.Base.{
  ℕ, suc, ◌+◌, ◌-◌, Bool, true, false, ◌||◌, Option, none, some, List, [], ◌∷◌, ltb, leb,
  if◌then◌else◌, ◌==◌,
}

-- One accepted request: its `released` flag.
pub record Request : Type 0 where
  pub id : ℕ
  pub released : Bool

-- The variables that a limiter's handlers share, and the closures that the accepted requests hold.
pub record Limiter : Type 0 where
  pub maximum_active : ℕ
  pub active : ℕ
  pub requests : List Request

unfoldable pub create_upload_capacity_limiter : ℕ → Option Limiter
create_upload_capacity_limiter maximum_active =
    if ltb maximum_active 1 || ltb 16 maximum_active
    then none
    else some (record { maximum_active = maximum_active; active = 0; requests = [] })

pub data Reply : Type 0 where
  -- 503 with Retry-After, as problem details under /api/v1
  capacity_reached : Bool → Reply
  next : Reply

-- The handler of a request, which is known by the number that no other has.
unfoldable pub handle : Limiter → ℕ → Bool → Limiter × Reply
handle limiter id is_api_v1 =
    if leb limiter.maximum_active limiter.active then (limiter, capacity_reached is_api_v1) else (
      record limiter {
        active = limiter.active + 1;
        requests = record { id = id; released = false } ∷ limiter.requests;
      },
      next,
    )

-- Call one request's `release`: whether `active` goes down, and the flags then.
unfoldable pub release_request : ℕ → List Request → Bool × List Request
release_request id [] = (false, [])
release_request id (r ∷ rs) =
    let rest = release_request id rs in
    if r.id == id
    then (if r.released then (false, r ∷ rs) else (true, record r { released = true } ∷ rs))
    else (rest.0, r ∷ rest.1)

-- A `finish` or `close` event of a response.
unfoldable pub release : Limiter → ℕ → Limiter
release limiter id =
    let (lowers, requests) = release_request id limiter.requests in
    record limiter {
      active = if lowers then limiter.active - 1 else limiter.active;
      requests = requests;
    }

pub data Event : Type 0 where
  arrives : ℕ → Bool → Event
  finishes closes : ℕ → Event

unfoldable pub step : Limiter → Event → Limiter
unfolding handle release
step limiter (arrives id is_api_v1) = (handle limiter id is_api_v1).0
step limiter (finishes id) = release limiter id
step limiter (closes id) = release limiter id

unfoldable pub run : Limiter → List Event → Limiter
run limiter [] = limiter
run limiter (e ∷ es) = run (step limiter e) es
