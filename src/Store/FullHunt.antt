-- ===== src/Store/FullHunt.antt =====
-- The full re-hunt requests of hunter-rs/src/store.rs. A request is a number on the repository's
-- row; a hunt chain records the one it accepted.
pub mod Requests
use Prim.Native.Nat.{max}
use mathlib.Core.Option
use bug_hunter.Prelude.{
  ℕ, suc, ◌+◌, ◌<◌, ◌≤◌, ◌≡◌, refl, sym, ◌∙◌, ap, Bool, true, false, not, ◌&&◌, Option, none, some,
  ◌==◌, arith, ==_iff, if◌then◌else◌,
}
use bug_hunter.Prelude.Tables.{
  first_where, exists_where, update_where, first_where_sound, first_where-update_any,
}
use bug_hunter.Store.Rows.{Job, Repo, Store, is_some, is_id, unwrap_or}
use bug_hunter.Store.Jobs.{update_jobs, get_job, get_repo_by_id, optional}

abbrev pub live_repo : ℕ → Repo → Bool
live_repo rid r = r.id == rid && r.live

unfoldable pub set_last_full_hunt : ℕ → (now : ℕ) → Store → Store
set_last_full_hunt rid now s = record s {
  repos = update_where (λ r. r.id == rid) (λ r. record r { last_full_hunt_at = some now }) s.repos;
}

-- MAX(now, the last value requested + 1, the last one attempted + 1).
abbrev pub next_request : (now : ℕ) → Repo → ℕ
next_request now r =
    max now (
      max (unwrap_or r.full_hunt_requested_at 0 + 1)
        (unwrap_or r.full_hunt_request_attempted 0 + 1))

abbrev pub with_request : (now : ℕ) → Repo → Repo
with_request now r = record r { full_hunt_requested_at = some (next_request now r) }

unfoldable pub request_full_hunt : ℕ → (now : ℕ) → Store → Bool × Store
request_full_hunt rid now s = (
  exists_where (live_repo rid) s.repos,
  record s { repos = update_where (live_repo rid) (with_request now) s.repos },
)

unfoldable pub mark_full_hunt_attempted : ℕ → (request : ℕ) → Store → Store
mark_full_hunt_attempted rid request s = record s {
  repos =
      update_where (λ r. r.id == rid) (λ r. record r { full_hunt_request_attempted = some request })
        s.repos;
}

-- `full_hunt_requested_at = (SELECT full_hunt_request …)`: NULL is equal to nothing.
abbrev pub answers : Option ℕ → ℕ → Repo → Bool
answers accepted rid r =
    r.id == rid && optional accepted false (λ q. is_id r.full_hunt_requested_at q)

abbrev pub settled : Repo → Repo
settled r = record r { full_hunt_requested_at = none }

unfoldable pub settle_full_hunt_request : (rid job : ℕ) → Store → Store
unfolding get_job
settle_full_hunt_request rid job s =
    let accepted : Option ℕ = optional (get_job job s) none (λ j. j.full_hunt_request) in
    record s { repos = update_where (answers accepted rid) settled s.repos }

unfoldable pub mark_full_history : ℕ → (request : Option ℕ) → Store → Store
mark_full_history job request =
    update_jobs (λ j. j.id == job)
      (λ j. record j { full_history = true; full_hunt_request = request })

unfoldable pub job_full_history : ℕ → Store → Bool
unfolding get_job
job_full_history job s = optional (get_job job s) false (λ j. j.full_history)
