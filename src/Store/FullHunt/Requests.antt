-- ===== src/Store/FullHunt/Requests.antt =====
-- `request_full_hunt` and `settle_full_hunt_request` of hunter-rs/src/store.rs, one after the other.

use bug_hunter.Prelude.{
  ℕ, ◌<◌, ◌≤◌, ◌≡◌, refl, ◌∙◌, ap, true, false, none, some, arith, if◌then◌else◌,
}
use bug_hunter.Prelude.Tables.{first_where_passes, first_where-update_any}
use bug_hunter.Store.Rows.{Job, Repo, Store, unwrap_or}
use bug_hunter.Store.Jobs.{get_job, get_repo_by_id, optional}
use bug_hunter.Store.FullHunt.{
  live_repo, next_request, with_request, request_full_hunt, answers, settled,
  settle_full_hunt_request,
}
use bug_hunter.Scheduler.Rotation.{full_hunt_urgent}

module _ (rid : ℕ) (s : Store) (r : Repo) (here : get_repo_by_id rid s ≡ some r) where
  found_live : live_repo rid r ≡ true
  unfolding get_repo_by_id
  found_live = first_where_passes (live_repo rid) s.repos r here

  -- A new request is later than any that the repository made or attempted, and jumps the rotation.
  pub request_full_hunt-urgent :
      (now : ℕ)
      → (get_repo_by_id rid (request_full_hunt rid now s).1 ≡ some (with_request now r))
        × (full_hunt_urgent (with_request now r) ≡ true)
        × (unwrap_or r.full_hunt_requested_at 0 < next_request now r)
        × (unwrap_or r.full_hunt_request_attempted 0 < next_request now r)
        × (now ≤ next_request now r)
  unfolding get_repo_by_id request_full_hunt full_hunt_urgent
  request_full_hunt-urgent now = (
    first_where-update_any (live_repo rid) (live_repo rid) (with_request now) s.repos (λ x. refl)
        ∙ rw (here, found_live),
    ground arith,
    omega arith,
    omega arith,
    omega arith,
  )

abbrev AcceptedBy : ℕ → ℕ → Store → Type 0
AcceptedBy job q s = optional (get_job job s) none (λ j. j.full_hunt_request) ≡ some q

settle_found :
    (rid job q : ℕ) (s : Store) (r : Repo)
    → get_repo_by_id rid s ≡ some r
    → AcceptedBy job q s
    → get_repo_by_id rid (settle_full_hunt_request rid job s)
      ≡ some (if answers (some q) rid r then settled r else r)
unfolding get_repo_by_id settle_full_hunt_request get_job
settle_found rid job q s r here accepted =
    rw (accepted, settle_full_hunt_request)
      (first_where-update_any (live_repo rid) (answers (some q) rid) settled s.repos (λ x. refl)
        ∙ rw here)

same_jobs :
    (rid job q now : ℕ) (s : Store)
    → AcceptedBy job q s
    → AcceptedBy job q (request_full_hunt rid now s).1
unfolding request_full_hunt get_job
same_jobs rid job q now s e = e

-- Settling the request that a chain accepted leaves the repository with no request, and changes
-- nothing else of its row; where another request was made since, the row keeps that one, which is
-- later than the accepted one.
pub settle_full_hunt_request-accepted :
    (rid job now q : ℕ) (s : Store) (r : Repo) (j : Job)
    → get_repo_by_id rid s ≡ some r
    → r.full_hunt_requested_at ≡ some q
    → get_job job s ≡ some j
    → j.full_hunt_request ≡ some q
    → (get_repo_by_id rid (settle_full_hunt_request rid job s)
        ≡ some (record r { full_hunt_requested_at = none }))
      × (get_repo_by_id rid (settle_full_hunt_request rid job (request_full_hunt rid now s).1)
          ≡ some (record r { full_hunt_requested_at = some (next_request now r) }))
      × (q < next_request now r)
settle_full_hunt_request-accepted rid job now q s r j here asked found accepted =
    let live = found_live rid s r here in
    let fresh = request_full_hunt-urgent rid s r here now in
    let answered : answers (some q) rid r ≡ true = ground arith in
    let later : q < next_request now r = ground (arith, fresh.2) in
    let newer : answers (some q) rid (with_request now r) ≡ false = ground arith in
    (
      settle_found rid job q s r here (rw found accepted) ∙ ap some (rw answered refl),
      settle_found rid job q (request_full_hunt rid now s).1 (with_request now r) fresh.0
            (same_jobs rid job q now s (rw found accepted))
          ∙ ap some (rw newer refl),
      later,
    )
