-- ===== src/Daemon/Recovered.antt =====
-- `reconcile_and_log` of hunter-rs/src/daemon.rs: what is in progress after it.
use bug_hunter.Prelude.{ℕ, ◌≡◌, refl, ◌∙◌, ap, Bool, false, ◌&&◌, List, [], ◌∷◌}
use bug_hunter.Prelude.Tables.{exists_where}
use bug_hunter.Prelude.Sweeps.{Covered, Covered-done, Covered-step, Covered-start}
use bug_hunter.Domain.Status.{queued, running, state_eq}
use bug_hunter.Store.Rows.{Finding, Job, Repo, Store}
use bug_hunter.Store.Findings.{set_finding_status}
use bug_hunter.Store.Jobs.{has_repo, newer, orphan_job}
use bug_hunter.Scheduler.Select.Tiers.{newer_finding}
use bug_hunter.Daemon.Reconcile.{
  Ledgers, is_running, list_running_jobs, is_fixing, list_fixing, requeue_all, orphan_all,
  reconcile_orphaned_jobs, reconcile_and_log, suspend_orphans, killed_note,
}

requeue_all-clears :
    (fs : List Finding) (now : ℕ) (s : Store)
    → Covered (λ f. f.id) is_fixing fs s.findings
    → exists_where is_fixing (requeue_all fs now s).findings ≡ false
unfolding requeue_all set_finding_status
requeue_all-clears [] now s c = Covered-done (λ f. f.id) is_fixing s.findings c
requeue_all-clears (f ∷ fs) now s c =
    requeue_all-clears fs now (set_finding_status f.id queued now s)
      (Covered-step (λ g. g.id) is_fixing f fs _ s.findings (λ g. refl) c)

abbrev runs_in : List Repo → Job → Bool
runs_in repos j = state_eq j.state running && has_repo repos j

-- The loop over the jobs leaves the other tables alone.
orphan_all-clears :
    (repos : List Repo) (js : List Job) (now : ℕ) (s : Store)
    → s.repos ≡ repos
    → Covered (λ j. j.id) (runs_in repos) js s.jobs
    → (exists_where (runs_in repos) (orphan_all js now s).jobs ≡ false)
      × ((orphan_all js now s).repos ≡ repos)
      × ((orphan_all js now s).findings ≡ s.findings)
unfolding orphan_all orphan_job
orphan_all-clears repos [] now s same c =
    (Covered-done (λ j. j.id) (runs_in repos) s.jobs c, same, refl)
orphan_all-clears repos (j ∷ js) now s same c =
    orphan_all-clears repos js now (orphan_job j.id killed_note now s) same
      (Covered-step (λ k. k.id) (runs_in repos) j js _ s.jobs (λ k. refl) c)

reconciled :
    (now : ℕ) (s : Store)
    → let s' = (reconcile_orphaned_jobs now s).1 in
      (exists_where is_fixing s'.findings ≡ false) × (exists_where (is_running s') s'.jobs ≡ false)
unfolding reconcile_orphaned_jobs
reconciled now s =
    let t : Store = requeue_all (list_fixing s) now s in
    let (none_run, repos, findings) =
      orphan_all-clears t.repos (list_running_jobs t) now t refl
        (Covered-start (λ j. j.id) (is_running t) newer t.jobs) in
    (
      ap (exists_where is_fixing) findings
          ∙ requeue_all-clears (list_fixing s) now s
              (Covered-start (λ f. f.id) is_fixing newer_finding s.findings),
      ap (λ rs. exists_where (runs_in rs) (orphan_all (list_running_jobs t) now t).jobs) repos
          ∙ none_run,
    )

-- After the reconciliation at startup no finding is at `fixing` and no job of a stored repository
-- is running, whatever lies on disk.
pub reconcile_and_log-clears :
    (l : Ledgers) (now : ℕ) (s : Store)
    → let s' = reconcile_and_log l now s in
      (exists_where is_fixing s'.findings ≡ false) × (exists_where (is_running s') s'.jobs ≡ false)
unfolding reconcile_and_log
reconcile_and_log-clears l now s = reconciled now (suspend_orphans l (list_running_jobs s) now s)
