-- ===== src/Scheduler/Fix.antt =====
-- `record_fix_outcome` of hunter-rs/src/scheduler.rs: how a finished fix attempt moves its finding.
-- The event log and the worker's files are left out.
pub mod Moves
pub mod Status
use bug_hunter.Prelude.{ℕ, Bool, true, false, String, Option, none, some, if◌then◌else◌}
use bug_hunter.Domain.Status.{
  FindingStatus, new, rejected, status_eq, ClosureClass, class_status, BudgetOverride,
}
use bug_hunter.Store.Rows.{Store, VerdictAnchor}
use bug_hunter.Store.Findings.{set_anchored_verdict, set_finding_pr_open, clear_fix_attempts}
use bug_hunter.Scheduler.Select.GiveUp.{
  spend_override, release_claim, hold_blocked, FixFailure, requeued, held, hold_failed,
  record_fix_failure,
}

-- A decline carries what its verdict would be anchored to, were it a rejection.
pub data FixOutcome : Type 0 where
  blocked : (report : String) → FixOutcome
  declined : (class : Option ClosureClass) (reason : String) → VerdictAnchor → FixOutcome
  shipped : (pr_url : String) → FixOutcome
  suspended : FixOutcome
  failed : (failure : String) → FixOutcome

-- The summary's outcome, or the error of a hold that could not be recorded.
pub data FixSummary : Type 0 where
  now_blocked now_shipped now_suspended now_requeued hold_error : FixSummary
  now_decided : FindingStatus → FixSummary

unfoldable pub decline_status : Option ClosureClass → FindingStatus
unfolding class_status
decline_status none = new
decline_status (some c) = class_status c

-- Only a rejection is anchored.
abbrev pub anchor_of : FindingStatus → VerdictAnchor → Option VerdictAnchor
anchor_of st a = if status_eq st rejected then some a else none

abbrev pub hold_summary : Bool × Store → FixSummary × Store
hold_summary (true, s) = (now_blocked, s)
hold_summary (false, s) = (hold_error, s)

-- What follows the outcomes that return no error: a one-shot override is spent, the claim released.
abbrev pub wind_up : ℕ → Option BudgetOverride → (now : ℕ) → Store → Store
wind_up fid mode now s = release_claim fid now (spend_override fid mode now s)

abbrev pub failure_summary :
    ℕ → Option BudgetOverride → (now : ℕ) → FixFailure × Store → FixSummary × Store
failure_summary fid mode now (requeued, s) = (now_requeued, wind_up fid mode now s)
failure_summary fid mode now (held, s) = (now_blocked, wind_up fid mode now s)
failure_summary fid mode now (hold_failed, s) = (hold_error, s)

-- `report` is the text of a failure streak's hold.
unfoldable pub record_fix_outcome :
    (fid job : ℕ)
    → Option BudgetOverride
    → FixOutcome
    → (report : String) → (now : ℕ) → Store
    → FixSummary × Store
record_fix_outcome fid job mode (blocked why) report now s =
    hold_summary (hold_blocked fid job why now s)
record_fix_outcome fid job mode (declined class reason anchor) report now s = (
  now_decided (decline_status class),
  release_claim fid now (
      clear_fix_attempts fid now (
        set_anchored_verdict fid (decline_status class) reason
          (anchor_of (decline_status class) anchor) now s)),
)
record_fix_outcome fid job mode (shipped url) report now s = (
  now_shipped,
  wind_up fid mode now (clear_fix_attempts fid now (set_finding_pr_open fid url now s)),
)
record_fix_outcome fid job mode suspended report now s = (now_suspended, wind_up fid mode now s)
record_fix_outcome fid job mode (failed failure) report now s =
    failure_summary fid mode now (record_fix_failure fid job failure report now s)
