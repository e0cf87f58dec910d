-- ===== src/Daemon/Reconcile.antt =====
-- `reconcile_and_log` of hunter-rs/src/daemon.rs, with `Store::reconcile_orphaned_jobs`: what a
-- process that died in the middle of a job left behind. The event log is left out.
use bug_hunter.Prelude.{
  ℕ, ◌-◌, Bool, ◌&&◌, ◌||◌, List, [], ◌∷◌, String, Option, none, some, leb, if◌then◌else◌,
}
use bug_hunter.Prelude.Tables.{rows_where, sort_by}
use bug_hunter.Domain.Status.{queued, fixing, status_eq, running, state_eq}
use bug_hunter.Store.Rows.{Finding, Job, Store}
use bug_hunter.Store.Findings.{set_finding_status}
use bug_hunter.Store.Jobs.{has_repo, newer, suspend_orphan, orphan_job}
use bug_hunter.Store.Jobs.Chain.{resume_origin_job, ancestor_tokens}
use bug_hunter.Scheduler.Select.Tiers.{newer_finding}

-- What lies on disk for a chain: its transcript with the tokens of all its attempts, and whether a
-- process still runs in its tree.
pub record Ledgers : Type 0 where
  pub usage : (origin : ℕ) → Option (String × ℕ)
  pub in_use : (origin : ℕ) → Bool

unfoldable pub orphan_work : Ledgers → Store → Job → Option (String × ℕ)
orphan_work l s j =
    let origin = resume_origin_job j.id s in
    elim (l.usage origin) [
      | none ↦ none
      | some (file, tokens) ↦
          if leb tokens (ancestor_tokens j.id s) || l.in_use origin
          then none
          else some (file, tokens - ancestor_tokens j.id s)
    ]

abbrev pub is_running : Store → Job → Bool
is_running s j = state_eq j.state running && has_repo s.repos j

abbrev pub list_running_jobs : Store → List Job
list_running_jobs s = sort_by newer (rows_where (is_running s) s.jobs)

abbrev pub is_fixing : Finding → Bool
is_fixing f = status_eq f.status fixing

abbrev pub list_fixing : Store → List Finding
list_fixing s = sort_by newer_finding (rows_where is_fixing s.findings)

abbrev pub suspended_note : String
suspended_note =
    "reconciled at cycle startup -- prior process died mid-job; transcript kept for the resume"

abbrev pub killed_note : String
killed_note = "reconciled at cycle startup -- prior process died mid-job"

abbrev pub suspend_one : Option (String × ℕ) → ℕ → (now : ℕ) → Store → Store
suspend_one none id now s = s
suspend_one (some (file, own)) id now s = suspend_orphan id file own suspended_note now s

-- The loop that keeps the work of the jobs that did some.
unfoldable pub suspend_orphans : Ledgers → List Job → (now : ℕ) → Store → Store
unfolding orphan_work
suspend_orphans l [] now s = s
suspend_orphans l (j ∷ js) now s =
    suspend_orphans l js now (suspend_one (orphan_work l s j) j.id now s)

unfoldable pub requeue_all : List Finding → (now : ℕ) → Store → Store
requeue_all [] now s = s
requeue_all (f ∷ fs) now s = requeue_all fs now (set_finding_status f.id queued now s)

unfoldable pub orphan_all : List Job → (now : ℕ) → Store → Store
orphan_all [] now s = s
orphan_all (j ∷ js) now s = orphan_all js now (orphan_job j.id killed_note now s)

unfoldable pub reconcile_orphaned_jobs : (now : ℕ) → Store → (List Finding × List Job) × Store
unfolding requeue_all orphan_all
reconcile_orphaned_jobs now s =
    let stuck = list_fixing s in
    let requeued = requeue_all stuck now s in
    let orphaned = list_running_jobs requeued in
    ((stuck, orphaned), orphan_all orphaned now requeued)

unfoldable pub reconcile_and_log : Ledgers → (now : ℕ) → Store → Store
unfolding suspend_orphans reconcile_orphaned_jobs
reconcile_and_log l now s =
    (reconcile_orphaned_jobs now (suspend_orphans l (list_running_jobs s) now s)).1
