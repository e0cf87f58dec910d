-- ===== src/Tests/Rows.antt =====
-- The theorems on the store's statements, on a database with one finding and one suspended fix.
use bug_hunter.Prelude.{ℕ, ◌≡◌, refl, true, false, [], ◌∷◌, String, none, some, ◌⊎◌, arith, ◌<◌}
use bug_hunter.Domain.Status.{queued, fixing, wontfix, suspended, running}
use bug_hunter.Domain.Kinds.{finding, fix}
use bug_hunter.Store.Rows.{Store, Job}
use bug_hunter.Store.Findings.{claim_in_progress, set_verdict_if, get_finding}
use bug_hunter.Store.Findings.Race.{claim-verdict_exclusive}
use bug_hunter.Store.Findings.Streak.{Counted, fail_fix, fail_fix-counts}
use bug_hunter.Store.Jobs.{
  CreatedJob, created, create_job, get_job, resumable, stranded, retire_stranded_suspensions,
}
use bug_hunter.Store.Jobs.Chain.{resume_origin_job, ancestors}
use bug_hunter.Store.Jobs.Handover.{create_job-supersedes, create_job-picks_up}
use bug_hunter.Store.Jobs.Links.{AllInOrder, create_job-InOrder}
use bug_hunter.Store.Jobs.Origin.{IsRoot, PointsBack, resume_origin_job-IsRoot}
use bug_hunter.Store.Jobs.Stranded.{held, suspension_accounted, Swept, retire_stranded-Swept}
use bug_hunter.Store.Jobs.Handover.{Superseded}
use bug_hunter.Prelude.Members.{AllTwo}
use bug_hunter.Tests.Samples.{a_store, a_job, a_finding}

claim-verdict_exclusive_example :
    (let s' = (claim_in_progress 7 queued fixing 5 a_store).1 in
      set_verdict_if 7 queued wontfix "not worth it" 6 s' ≡ (false, s'))
    × (let (won, s') = set_verdict_if 7 queued wontfix "not worth it" 5 a_store in
        (claim_in_progress 7 queued fixing 6 s').0 ≡ false)
claim-verdict_exclusive_example =
    claim-verdict_exclusive 7 queued fixing wontfix "not worth it" 5 6 a_store (λ e. cc) (λ e. cc)

claim_wins : (claim_in_progress 7 queued fixing 5 a_store).0 ≡ true
unfolding claim_in_progress
claim_wins = refl

fail_fix-counts_example : Counted none 0 "build failed" 3 (fail_fix 2 7 "build failed" 5 a_store).0
unfolding get_finding
fail_fix-counts_example = fail_fix-counts 2 7 "build failed" 5 a_store (a_finding 7 queued) refl

abbrev no_note : ℕ → String
no_note id = ""

abbrev fresh_start : CreatedJob × Store
fresh_start = created no_note (finding fix) 1 (some 7) none running none none 10 a_store

abbrev resumed : CreatedJob × Store
resumed = created no_note (finding fix) 1 (some 7) none running none (some 3) 10 a_store

create_job-supersedes_example :
    Superseded no_note (finding fix) (some 7) 1 running a_store fresh_start.1 fresh_start.0
unfolding create_job
create_job-supersedes_example =
    create_job-supersedes no_note (finding fix) 1 (some 7) none running none 10 a_store
      fresh_start.1 fresh_start.0 (omega arith, tt) refl

fresh_supersedes : fresh_start.0.superseded ≡ 3 ∷ []
fresh_supersedes = refl

create_job-picks_up_example :
    (resumable resumed.1 (a_job 3 suspended none) ≡ false)
    × (resumed.0.superseded ≡ [])
    × ((n : Job) × (get_job resumed.0.id resumed.1 ≡ some n)
        × (n.pinned_sha ≡ some "abc")
        × (n.blocker ≡ none))
unfolding create_job get_job
create_job-picks_up_example =
    create_job-picks_up no_note (finding fix) 1 (some 7) none running none 3 10 a_store resumed.1
      resumed.0 (a_job 3 suspended none) (a_job 3 suspended none) refl refl refl

create_job-InOrder_example : AllInOrder resumed.1
unfolding create_job get_job
create_job-InOrder_example =
    create_job-InOrder no_note (finding fix) 1 (some 7) none running none (some 3) 10 a_store
      resumed.1 resumed.0 ((λ p e. cc, omega arith), tt) refl refl

-- A chain of three attempts.
abbrev chained : Store
chained = record a_store {
  jobs = a_job 9 suspended (some 8) ∷ a_job 8 suspended (some 3) ∷ a_job 3 suspended none ∷ [];
}

points_back : (id p : ℕ) → p < id → PointsBack (a_job id suspended (some p))
points_back id p lt q e = ground arith

resume_origin_job-IsRoot_example :
    IsRoot chained.jobs (a_job 9 suspended (some 8)) (resume_origin_job 9 chained)
unfolding ancestors
resume_origin_job-IsRoot_example =
    resume_origin_job-IsRoot chained 9 (a_job 9 suspended (some 8))
      (points_back 9 8 (omega arith), (points_back 8 3 (omega arith), (λ q e. cc, tt))) refl
      (omega arith)

chained_origin : resume_origin_job 9 chained ≡ 3
unfolding resume_origin_job ancestors
chained_origin = refl

suspension_accounted_example :
    (resumable a_store (a_job 3 suspended none) ≡ true)
    ⊎ (stranded a_store (a_job 3 suspended none) ≡ true)
    ⊎ (held a_store (a_job 3 suspended none) ≡ true)
suspension_accounted_example = suspension_accounted a_store (a_job 3 suspended none) refl

abbrev job_note : Job → String
job_note j = ""

abbrev moved_on : Store
moved_on = record a_store { findings = a_finding 7 wontfix ∷ [] }

retire_stranded-Swept_example :
    AllTwo
      (Swept job_note moved_on)
      moved_on.jobs
      (retire_stranded_suspensions job_note moved_on).1.jobs
retire_stranded-Swept_example = retire_stranded-Swept job_note moved_on

moved_on_retires : (retire_stranded_suspensions job_note moved_on).0 ≡ 3 ∷ []
unfolding retire_stranded_suspensions
moved_on_retires = refl
