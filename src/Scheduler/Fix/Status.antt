-- ===== src/Scheduler/Fix/Status.antt =====
-- What `record_fix_outcome` of hunter-rs/src/scheduler.rs says of a finding, and what it stored.

use bug_hunter.Prelude.{
  subst, ℕ, ◌≡◌, refl, Bool, true, false, String, Option, none, some, ltb, if◌then◌else◌,
  Bool-cases, inl, inr,
}
use bug_hunter.Domain.Status.{
  FindingStatus, queued, fixing, ClosureClass, class_status, superseded, BudgetOverride,
}
use bug_hunter.Store.Rows.{Store, VerdictAnchor}
use bug_hunter.Store.Findings.{
  has_id, set_anchored_verdict, set_finding_pr_open, clear_fix_attempts, record_fix_attempt,
  with_verdict,
}
use bug_hunter.Scheduler.Select.GiveUp.{
  release_claim, hold_blocked, held, hold_failed, record_fix_failure, max_consecutive_same_failure,
}
use bug_hunter.Scheduler.Fix.{
  FixOutcome, blocked, declined, shipped, suspended, failed, FixSummary, now_blocked, now_decided,
  now_shipped, now_suspended, now_requeued, hold_error, decline_status, anchor_of, hold_summary,
  failure_summary, record_fix_outcome,
}
use bug_hunter.Scheduler.Fix.Moves.{
  At, unmoved, moved, released, release_claim-At, wind_up-At, clear_fix_attempts-At,
  write_anchor-At, hold_blocked-At,
}

-- The status that a summary of a fix attempt announces.
abbrev pub announced : FixSummary → FindingStatus
announced now_blocked = FindingStatus.blocked
announced (now_decided st) = st
announced now_shipped = FindingStatus.pr_open
announced now_suspended = queued
announced now_requeued = queued
announced hold_error = queued

decline_not_fixing : (c : Option ClosureClass) → released (decline_status c) ≡ decline_status c
unfolding decline_status class_status
decline_not_fixing none = refl
decline_not_fixing (some superseded) = refl
decline_not_fixing (some _) = refl

-- The summary and the database agree on the finding.
abbrev pub Agrees : ℕ → FixSummary × Store → Type 0
Agrees fid r = At fid (announced r.0) r.1

set_anchored_verdict-At :
    (fid : ℕ) (st to : FindingStatus) (reason : String) (a : Option VerdictAnchor) (now : ℕ)
    (s : Store)
    → At fid st s
    → At fid to (set_anchored_verdict fid to reason a now s)
unfolding set_anchored_verdict
set_anchored_verdict-At fid st to reason a now s here =
    write_anchor-At fid a to _
      (moved fid st s here to (with_verdict to reason now) (λ f. (refl, refl)))

set_finding_pr_open-At :
    (fid : ℕ) (st : FindingStatus) (url : String) (now : ℕ) (s : Store)
    → At fid st s
    → At fid FindingStatus.pr_open (set_finding_pr_open fid url now s)
unfolding set_finding_pr_open
set_finding_pr_open-At fid st url now s here =
    moved fid st s here FindingStatus.pr_open _ (λ f. (refl, refl))

record_fix_failure-Agrees :
    (fid job : ℕ) (mode : Option BudgetOverride) (failure report : String) (now : ℕ) (s : Store)
    → At fid fixing s
    → Agrees fid (failure_summary fid mode now (record_fix_failure fid job failure report now s))
unfolding record_fix_failure record_fix_attempt
record_fix_failure-Agrees fid job mode failure report now s here =
    let counted : Store = (record_fix_attempt fid failure now s).1 in
    let still : At fid fixing counted =
      unmoved fid fixing s here (has_id fid) _ (λ f. (refl, refl)) in
    elim (Bool-cases (ltb (record_fix_attempt fid failure now s).0 max_consecutive_same_failure)) [
      | inl few ↦ rw (few, record_fix_failure) (wind_up-At fid mode now fixing counted still)
      | inr many ↦
          rw (many, record_fix_failure)
            (after (hold_blocked fid job report now counted)
              (hold_blocked-At fid job report now counted still))
    ]
  where
    after :
        (r : Bool × Store)
        → At fid (if r.0 then FindingStatus.blocked else queued) r.1
        → Agrees fid (failure_summary fid mode now (if r.0 then held else hold_failed, r.1))
    after (true, t) at = wind_up-At fid mode now FindingStatus.blocked t at
    after (false, t) at = at

-- Whatever a fix attempt amounts to, a finding that was claimed for it ends at the status that the
-- summary announces, and so never at `fixing`: blocked, its decline's status, with its pull request
-- open, or queued again.
pub record_fix_outcome-Agrees :
    (fid job : ℕ) (mode : Option BudgetOverride) (o : FixOutcome) (report : String) (now : ℕ)
    (s : Store)
    → At fid fixing s
    → Agrees fid (record_fix_outcome fid job mode o report now s)
unfolding record_fix_outcome
record_fix_outcome-Agrees fid job mode (blocked why) report now s here =
    after (hold_blocked fid job why now s) (hold_blocked-At fid job why now s here)
  where
    after :
        (r : Bool × Store)
        → At fid (if r.0 then FindingStatus.blocked else queued) r.1
        → Agrees fid (hold_summary r)
    after (true, t) at = at
    after (false, t) at = at
record_fix_outcome-Agrees fid job mode (declined c reason anchor) report now s here =
    let to : FindingStatus = decline_status c in
    let decided : Store = set_anchored_verdict fid to reason (anchor_of to anchor) now s in
    subst (λ st. At fid st (release_claim fid now (clear_fix_attempts fid now decided)))
      (decline_not_fixing c)
      (release_claim-At fid now to (clear_fix_attempts fid now decided) (
        clear_fix_attempts-At fid now to decided
          (set_anchored_verdict-At fid fixing to reason (anchor_of to anchor) now s here)))
record_fix_outcome-Agrees fid job mode (shipped url) report now s here =
    let opened : Store = set_finding_pr_open fid url now s in
    wind_up-At fid mode now FindingStatus.pr_open (clear_fix_attempts fid now opened) (
      clear_fix_attempts-At fid now FindingStatus.pr_open opened
        (set_finding_pr_open-At fid fixing url now s here))
record_fix_outcome-Agrees fid job mode suspended report now s here =
    wind_up-At fid mode now fixing s here
record_fix_outcome-Agrees fid job mode (failed failure) report now s here =
    record_fix_failure-Agrees fid job mode failure report now s here
