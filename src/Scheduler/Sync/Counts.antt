-- ===== src/Scheduler/Sync/Counts.antt =====
-- What a sync of hunter-rs/src/scheduler.rs reports.
use bug_hunter.Prelude.{
  ℕ, ◌+◌, ◌≤◌, Bool, ◌&&◌, String, Option, none, some, List, [], ◌∷◌, ◌≡◌, arith, if◌then◌else◌,
  Bool-cases, Option-cases, inl, inr,
}
use bug_hunter.Prelude.Tables.{count_where, rows_where, sort_by}
use bug_hunter.Prelude.Counts.{count-sort_by, count-rows_where}
use bug_hunter.Domain.Status.{pr_open, status_eq}
use bug_hunter.Store.Rows.{Finding, Repo, Store, is_some}
use bug_hunter.Store.Findings.{get_pr_state}
use bug_hunter.Store.Jobs.{get_repo_by_id}
use bug_hunter.Scheduler.Select.Tiers.{newer_finding}
use bug_hunter.Forge.States.{PrView, PrState, opened, merged, closed}
use bug_hunter.Scheduler.Sync.{
  SyncResult, Faults, Seen, unparseable, unviewed, viewed, sync_state, sync_seen, given_url,
  sync_url, sync_one, sync_each, sync_prs, sync_data,
}

-- The findings that a pass has dealt with, and those of them that it flagged.
abbrev pub dealt_with : SyncResult → ℕ
dealt_with r = r.synced + r.merged + r.closed + r.errors

abbrev Grown : ℕ → (r r' : SyncResult) → Type 0
Grown n r r' =
    (dealt_with r' ≡ dealt_with r + n) × (r'.attention + r.synced ≤ r'.synced + r.attention)

module _ (decimal : ℕ → String) (look : Repo → String → Seen) (now : ℕ) where
  state-Grown :
      (st : PrState) (x : Faults) (fid number : ℕ) (pr : PrView) (r : SyncResult) (s : Store)
      → Grown 1 r (sync_state decimal st x fid number pr now (r, s)).0
  state-Grown merged x fid number pr r s = (omega arith, omega arith)
  state-Grown closed x fid number pr r s = elim (Bool-cases x.mark_closed) [
    | inl e ↦ rw e (omega arith, omega arith)
    | inr e ↦ rw e (omega arith, omega arith)
  ]
  state-Grown opened x fid number pr r s =
      elim (Bool-cases
        (is_some (sync_data decimal (get_pr_state fid s) number pr now).needs_attention)) [
          | inl e ↦ rw e (omega arith, omega arith)
          | inr e ↦ rw e (omega arith, omega arith)
        ]

  seen-Grown :
      (v : Seen) (x : Faults) (fid : ℕ) (r : SyncResult) (s : Store)
      → Grown 1 r (sync_seen decimal v x fid now (r, s)).0
  seen-Grown unparseable x fid r s = (omega arith, omega arith)
  seen-Grown unviewed x fid r s = (omega arith, omega arith)
  seen-Grown (viewed number pr) x fid r s = state-Grown pr.state x fid number pr r s

  url-Grown :
      (f : Finding) (url : Option String) (x : Faults) (r : SyncResult) (s : Store)
      → Grown (if is_some url then 1 else 0) r (sync_url decimal look f url x now (r, s)).0
  url-Grown f none x r s = (omega arith, omega arith)
  url-Grown f (some url) x r s = elim (Option-cases (get_repo_by_id f.repo_id s)) [
    | inl e ↦ rw e (omega arith, omega arith)
    | inr (repo, e) ↦ rw e (seen-Grown (look repo url) x f.id r s)
  ]

  each-Grown :
      (faults : ℕ → Faults) (fs : List Finding) (r : SyncResult) (s : Store)
      → Grown
          (count_where (λ f. is_some (given_url f.pr_url)) fs)
          r
          (sync_each decimal look faults now fs (r, s)).0
  unfolding sync_one
  each-Grown faults [] r s = (omega arith, omega arith)
  each-Grown faults (f ∷ fs) r s =
      let next = sync_one decimal look f (faults f.id) now (r, s) in
      let first = url-Grown f (given_url f.pr_url) (faults f.id) r s in
      let rest = each-Grown faults fs next.0 next.1 in (omega arith, omega arith)

-- A pass accounts for every finding at `pr_open` that has a pull request's URL, once: as synced,
-- merged, closed or an error. It flags at most those that it synced.
pub sync_prs-counts :
    (decimal : ℕ → String) (look : Repo → String → Seen) (faults : ℕ → Faults) (now : ℕ) (s : Store)
    → let r = (sync_prs decimal look faults now s).0 in
      (dealt_with r
        ≡ count_where (λ f. status_eq f.status pr_open && is_some (given_url f.pr_url)) s.findings)
      × (r.attention ≤ r.synced)
unfolding sync_prs
sync_prs-counts decimal look faults now s =
    let q : Finding → Bool = λ f. is_some (given_url f.pr_url) in
    let opened_rows = rows_where (λ f. status_eq f.status pr_open) s.findings in
    let (all, flagged) =
      each-Grown decimal look now faults (sort_by newer_finding opened_rows)
        (record { synced = 0; merged = 0; closed = 0; attention = 0; errors = 0 }) s in
    let sorted = count-sort_by q newer_finding opened_rows in
    let kept = count-rows_where q (λ f. status_eq f.status pr_open) s.findings in
    (omega arith, omega arith)
