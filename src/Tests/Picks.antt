-- ===== src/Tests/Picks.antt =====
-- The theorems on the scheduler's choices, at concrete inputs.
use bug_hunter.Prelude.{arith, ◌≡◌, refl, ◌≢◌, ◌↔◌, true, none, some}
use Prim.Native.Nat.{max}
use bug_hunter.Domain.Status.{suspended}
use bug_hunter.Domain.Kinds.{fix, test_gap}
use bug_hunter.Store.Rows.{is_some}
use bug_hunter.Scheduler.Attempt.{
  RunResult, job_state, PausedBy, job_state-suspended, resume_reservation, cold_reservation,
  cold_reservation_lem,
}
use bug_hunter.Scheduler.Rotation.{
  due, last_run, all_repo_kinds, Answers, rotation_kind, rotation_kind-Answers,
}
use bug_hunter.Scheduler.Select.Resume.{preview, run}
use bug_hunter.Scheduler.Select.Tiers.{tier, target}
use bug_hunter.Scheduler.Select.Tiers.Priority.{Chosen, target-Chosen}
use bug_hunter.Scheduler.Select.Resume.{finding_pick}
use bug_hunter.Scheduler.Select.Resume.SameWork.{WorksOn, finding_pick-WorksOn}
use bug_hunter.Domain.Status.{queued}
use bug_hunter.Tests.Samples.{a_finding}
use bug_hunter.Prelude.Members.{In}
use bug_hunter.Scheduler.Select.Tiers.{pr_of}
use bug_hunter.Scheduler.Select.Tiers.Oldest.{InLine, OfForced, Belongs, tier-Ordered}
use bug_hunter.Scheduler.Select.Rounds.{select, out_of_fuel}
use bug_hunter.Scheduler.Select.Rounds.Work.{work}
use bug_hunter.Scheduler.Select.Rounds.Terminates.{select-terminates}
use bug_hunter.Scheduler.Select.Rounds.Preview.{select-preview}
use bug_hunter.Tests.Samples.{a_store, a_repo, a_world, some_intervals}

abbrev capped : RunResult
capped = record {
  exited_zero = none;
  killed_reason = some "cap";
  tokens_new = 0;
  session_file = some "s.jsonl";
}

job_state-suspended_example :
    (job_state capped ≡ suspended) ↔ ((is_some capped.session_file ≡ true) × PausedBy capped)
job_state-suspended_example = job_state-suspended capped

capped_pauses : job_state capped ≡ suspended
unfolding job_state
capped_pauses = refl

reserves_the_rest : resume_reservation 40_000 100_000 30_000 ≡ 110_000
unfolding resume_reservation
reserves_the_rest = refl

cold_reservation_lem_example : cold_reservation 10 ≡ max 10 40_000
cold_reservation_lem_example = cold_reservation_lem 10

rotation_kind-Answers_example :
    Answers
      (due some_intervals a_repo 1000)
      (λ j. last_run j a_repo)
      all_repo_kinds
      (rotation_kind some_intervals a_repo 1000)
rotation_kind-Answers_example = rotation_kind-Answers some_intervals a_repo 1000

test_gaps_are_due : rotation_kind some_intervals a_repo 1000 ≡ some test_gap
unfolding rotation_kind
test_gaps_are_due = refl

select-preview_example :
    ((select 1 a_world preview none a_store).1 ≡ a_store)
    × ((select 1 a_world preview none a_store).0 ≢ out_of_fuel)
select-preview_example = select-preview 0 a_world none a_store

select-terminates_example : (select 2 a_world run none a_store).0 ≢ out_of_fuel
unfolding work
select-terminates_example = select-terminates 2 a_world none a_store (omega arith)

target-Chosen_example : Chosen (λ k. tier k none a_store) (target none a_store)
target-Chosen_example = target-Chosen none a_store

finding_pick-WorksOn_example :
    WorksOn fix (a_finding 7 queued) (finding_pick a_world run fix (a_finding 7 queued) a_store).0
finding_pick-WorksOn_example = finding_pick-WorksOn a_world run fix (a_finding 7 queued) a_store

tier-Ordered_example :
    InLine fix a_store.pr_states (tier fix none a_store)
    × (In (a_finding 7 queued) (tier fix none a_store) ↔ (
        In (a_finding 7 queued) a_store.findings
        × OfForced none (a_finding 7 queued)
        × Belongs fix (a_finding 7 queued) (pr_of 7 a_store.pr_states)))
tier-Ordered_example = tier-Ordered fix none a_store (a_finding 7 queued)
