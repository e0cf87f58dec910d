-- ===== src/Tests/Writes.antt =====
-- The theorems on re-hunt requests, pull-request rows, fix outcomes and verdicts, at concrete inputs.
use bug_hunter.Prelude.{◌<◌, ◌≤◌, ◌≡◌, refl, true, [], ◌∷◌, none, some}
use bug_hunter.Domain.Status.{
  queued, fixing, new, wontfix, suspended, once, reason_required, awaits_verdict,
}
use bug_hunter.Store.Rows.{Store, PrState, Repo, unwrap_or}
use bug_hunter.Store.Findings.{get_finding, get_pr_state, claim_in_progress}
use bug_hunter.Store.Jobs.{get_repo_by_id, get_job}
use bug_hunter.Store.FullHunt.{
  next_request, with_request, request_full_hunt, settle_full_hunt_request,
}
use bug_hunter.Store.FullHunt.Requests.{request_full_hunt-urgent, settle_full_hunt_request-accepted}
use bug_hunter.Store.PullRequests.{blank}
use bug_hunter.Store.PullRequests.Harvest.{
  merged, closed, number, HarvestOf, write_pr, write_prs, write_pr-HarvestOf,
  write_prs-keep_harvest,
}
use bug_hunter.Scheduler.Rotation.{full_hunt_urgent}
use bug_hunter.Scheduler.Fix.{shipped, record_fix_outcome}
use bug_hunter.Scheduler.Fix.Status.{Agrees, record_fix_outcome-Agrees}
use bug_hunter.Server.Operator.{
  recheck, unqueue, VerdictBody, conflict, check_verdict, verdict, verdict_status, only_verdict,
}
use bug_hunter.Server.Verdicts.{Lawful, verdict-Lawful}
use bug_hunter.Server.Conflicts.{verdict-claimed, recheck-unqueue_conflict}
use bug_hunter.Tests.Samples.{a_store, a_repo, a_finding, a_job}

request_full_hunt-urgent_example :
    (get_repo_by_id 1 (request_full_hunt 1 50 a_store).1 ≡ some (with_request 50 a_repo))
    × (full_hunt_urgent (with_request 50 a_repo) ≡ true)
    × (unwrap_or a_repo.full_hunt_requested_at 0 < next_request 50 a_repo)
    × (unwrap_or a_repo.full_hunt_request_attempted 0 < next_request 50 a_repo)
    × (50 ≤ next_request 50 a_repo)
unfolding get_repo_by_id
request_full_hunt-urgent_example = request_full_hunt-urgent 1 a_store a_repo refl 50

-- A repository with request 40, which job 3 has accepted.
abbrev asked_repo : Repo
asked_repo = record a_repo { full_hunt_requested_at = some 40 }

abbrev asked : Store
asked = record a_store {
  repos = asked_repo ∷ [];
  jobs = record (a_job 3 suspended none) { full_hunt_request = some 40 } ∷ [];
}

settle_full_hunt_request-accepted_example :
    (get_repo_by_id 1 (settle_full_hunt_request 1 3 asked)
      ≡ some (record asked_repo { full_hunt_requested_at = none }))
    × (get_repo_by_id 1 (settle_full_hunt_request 1 3 (request_full_hunt 1 40 asked).1)
        ≡ some (record asked_repo { full_hunt_requested_at = some (next_request 40 asked_repo) }))
    × (40 < next_request 40 asked_repo)
unfolding get_repo_by_id get_job
settle_full_hunt_request-accepted_example =
    settle_full_hunt_request-accepted 1 3 40 40 asked asked_repo
      (record (a_job 3 suspended none) { full_hunt_request = some 40 }) refl refl refl refl

abbrev harvested_pr : PrState
harvested_pr = record (blank 7) { pr_number = some 12; harvested_at = some 99 }

abbrev harvested : Store
harvested = record a_store { pr_states = harvested_pr ∷ [] }

write_pr-HarvestOf_example :
    (q : PrState) × (get_pr_state 7 (write_pr 7 (number 13) harvested) ≡ some q)
    × HarvestOf (some 13) harvested_pr q
unfolding get_pr_state
write_pr-HarvestOf_example = write_pr-HarvestOf 7 (number 13) harvested harvested_pr refl

write_prs-keep_harvest_example :
    (q : PrState) × (get_pr_state 7 (write_prs 7 (closed 12 200 ∷ merged 12 201 ∷ []) harvested)
      ≡ some q)
    × (q.pr_number ≡ some 12)
    × (q.harvested_at ≡ some 99)
unfolding get_pr_state
write_prs-keep_harvest_example =
    write_prs-keep_harvest 7 12 99 (closed 12 200 ∷ merged 12 201 ∷ []) harvested harvested_pr refl
      refl refl (refl, (refl, tt))

abbrev at_work : Store
at_work = record a_store { findings = a_finding 7 fixing ∷ [] }

record_fix_outcome-Agrees_example :
    Agrees 7
      (record_fix_outcome 7 3 (some once) (shipped "https://example.org/pull/12") "" 5 at_work)
unfolding get_finding
record_fix_outcome-Agrees_example =
    record_fix_outcome-Agrees 7 3 (some once) (shipped "https://example.org/pull/12") "" 5 at_work
      (a_finding 7 fixing, refl, refl)

abbrev triage : Store
triage = record a_store { findings = a_finding 7 new ∷ [] }

abbrev dismissal : VerdictBody
dismissal = record { id = 7; status = "wontfix"; reason = some "by design" }

verdict-Lawful_example : Lawful dismissal triage (verdict dismissal 5 triage triage)
verdict-Lawful_example = verdict-Lawful dismissal 5 triage

verdict-claimed_example :
    let s' = (claim_in_progress 7 new queued 5 triage).1 in
    verdict dismissal 6 triage s' ≡ (conflict, s')
unfolding check_verdict verdict_status only_verdict get_finding reason_required awaits_verdict
verdict-claimed_example =
    verdict-claimed dismissal 5 6 triage wontfix queued (a_finding 7 new) refl (λ e. cc)

recheck-unqueue_conflict_example :
    (let s' = (claim_in_progress 7 new queued 5 triage).1 in recheck 7 6 triage s' ≡ (conflict, s'))
    × (let t' = (claim_in_progress 7 queued fixing 5 a_store).1 in
        unqueue 7 6 a_store t' ≡ (conflict, t'))
unfolding get_finding
recheck-unqueue_conflict_example =
    recheck-unqueue_conflict 7 5 6 triage (a_finding 7 new) (a_finding 7 queued) queued fixing
      a_store refl refl (λ e. cc) refl refl (λ e. cc)
