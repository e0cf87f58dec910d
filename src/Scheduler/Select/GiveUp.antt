-- ===== src/Scheduler/Select/GiveUp.antt =====
-- The failure paths of hunter-rs/src/scheduler.rs that count a given-up chain against its finding:
-- `count_given_up_chain`, `handle_recheck_failure`, `record_fix_failure`, `hold_blocked` and
-- `record_harvest_failure`. What they write to the event log is left out, with its texts; the
-- flag is whether the count ended the work.
use bug_hunter.Prelude.{ℕ, Bool, true, false, String, Option, none, some, ltb, if◌then◌else◌}
use bug_hunter.Domain.Status.{new, queued, fixing, BudgetOverride, once}
use bug_hunter.Domain.Kinds.{FindingJobKind, fix, engage, harvest, recheck}
use bug_hunter.Store.Rows.{Store}
use bug_hunter.Store.Findings.{
  set_finding_status, set_budget_override, record_recheck_attempt, clear_recheck_attempts,
  record_fix_attempt, block_fix_job, finalize_in_progress, record_harvest_attempt,
  clear_harvest_attempts, mark_pr_harvested, set_attention_aside,
}

abbrev pub max_consecutive_same_failure : ℕ
max_consecutive_same_failure = 3

abbrev is_once : Option BudgetOverride → Bool
is_once (some once) = true
is_once _ = false

abbrev pub spend_override : ℕ → Option BudgetOverride → (now : ℕ) → Store → Store
spend_override fid mode now s = if is_once mode then set_budget_override fid none now s else s

-- True when the summary's outcome is `stuck`: the finding is back in the inbox.
unfoldable pub handle_recheck_failure :
    ℕ → String → Option BudgetOverride → (now : ℕ) → Store → Bool × Store
handle_recheck_failure fid failure mode now s =
    let (streak, counted) = record_recheck_attempt fid failure now s in
    if ltb streak max_consecutive_same_failure
    then (false, spend_override fid mode now counted)
    else (
      true,
      spend_override fid mode now
          (clear_recheck_attempts fid now (set_finding_status fid new now counted)),
    )

unfoldable pub release_claim : ℕ → (now : ℕ) → Store → Store
release_claim fid now = finalize_in_progress fid fixing queued now

-- A block that fails leaves the finding at `fixing`, so it is put back to `queued`.
unfoldable pub hold_blocked : (fid job : ℕ) → String → (now : ℕ) → Store → Bool × Store
unfolding release_claim
hold_blocked fid job report now s = elim (block_fix_job fid job report now s) [
  | some s' ↦ (true, s')
  | none ↦ (false, release_claim fid now s)
]

-- `requeued`: counted only. `held`: the summary's outcome is `blocked`. `hold_failed`: the error of
-- a block that could not be recorded.
pub data FixFailure : Type 0 where
  requeued held hold_failed : FixFailure

-- `report` is the text of the streak's hold.
unfoldable pub record_fix_failure :
    (fid job : ℕ) (failure report : String) → (now : ℕ) → Store → FixFailure × Store
unfolding hold_blocked
record_fix_failure fid job failure report now s =
    let (streak, counted) = record_fix_attempt fid failure now s in
    if ltb streak max_consecutive_same_failure
    then (requeued, counted)
    else (let (ok, s') = hold_blocked fid job report now counted in
        (if ok then held else hold_failed, s'))

abbrev pub is_held : FixFailure → Bool
is_held held = true
is_held _ = false

unfoldable pub record_harvest_failure : ℕ → String → (now : ℕ) → Store → Bool × Store
record_harvest_failure fid failure now s =
    let (streak, counted) = record_harvest_attempt fid failure s in
    if ltb streak max_consecutive_same_failure
    then (false, counted)
    else (true, clear_harvest_attempts fid (mark_pr_harvested fid now counted))

abbrev pub chain_gave_up : String
chain_gave_up = "resume chain gave up"

unfoldable pub count_given_up_chain :
    FindingJobKind → (fid job : ℕ) → (report : String) → (now : ℕ) → Store → Bool × Store
unfolding handle_recheck_failure record_fix_failure record_harvest_failure
count_given_up_chain recheck fid job report now s =
    handle_recheck_failure fid chain_gave_up none now s
count_given_up_chain fix fid job report now s =
    let (what, s') = record_fix_failure fid job chain_gave_up report now s in (is_held what, s')
count_given_up_chain harvest fid job report now s = record_harvest_failure fid chain_gave_up now s
count_given_up_chain engage fid job report now s = (true, set_attention_aside fid now s)
