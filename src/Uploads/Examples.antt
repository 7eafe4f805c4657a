-- ===== src/Uploads/Examples.antt =====
-- A limiter of two uploads with three requests.
use opencoi.Base.{◌≡◌, true, false, refl, List, [], ◌∷◌}
use opencoi.Uploads.{
  Limiter, Event, arrives, finishes, closes, run, step, handle, release, release_request,
  create_upload_capacity_limiter,
}
use opencoi.Uploads.Bounded.{IsConsistent, run_new-IsConsistent}

abbrev fresh : Limiter
fresh = record { maximum_active = 2; active = 0; requests = [] }

abbrev events : List Event
events =
    arrives 1 true
    ∷ arrives 2 false
    ∷ arrives 3 true
    ∷ finishes 1
    ∷ closes 1
    ∷ arrives 4 true
    ∷ closes 2
    ∷ []

abbrev full : Limiter
full = record {
  maximum_active = 2;
  active = 2;
  requests = record { id = 2; released = false } ∷ record { id = 1; released = false } ∷ [];
}

one_active : (run fresh events).active ≡ 1
unfolding run step handle release release_request
one_active = refl

run_new-IsConsistent_example : IsConsistent (run fresh events)
unfolding create_upload_capacity_limiter
run_new-IsConsistent_example = run_new-IsConsistent 2 fresh events refl
