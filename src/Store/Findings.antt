-- ===== src/Store/Findings.antt =====
-- The writes of hunter-rs/src/store.rs to `findings`, `verdict_anchors` and `pr_state`.
pub mod Race
pub mod Streak
use bug_hunter.Prelude.{
  ℕ, suc, ◌+◌, Bool, true, false, not, ◌&&◌, ◌||◌, List, [], ◌∷◌, String, Option, none, some,
  str_eq, ◌==◌, if◌then◌else◌,
}
use bug_hunter.Prelude.Tables.{rows_where, first_where, exists_where, update_where, count_where}
use bug_hunter.Domain.Status.{
  FindingStatus, new, queued, fixing, blocked, pr_open, closed, rejected, wontfix, status_eq,
  BudgetOverride, JobState, suspended, is_suppressed,
}
use bug_hunter.Domain.Kinds.{JobKind, finding, fix, kind_eq}
use bug_hunter.Store.Rows.{
  Finding, Job, PrState, VerdictAnchor, Store, is_some, coalesce, is_id, is_text,
}

-- `WHERE id = ?`.
abbrev pub has_id : ℕ → Finding → Bool
has_id fid f = f.id == fid

-- `WHERE id = ? AND status = ?`.
abbrev pub has_status : ℕ → FindingStatus → Finding → Bool
has_status fid st f = f.id == fid && status_eq f.status st

abbrev pub update_findings : (Finding → Bool) → (Finding → Finding) → Store → Store
update_findings p g s = record s { findings = update_where p g s.findings }

abbrev pub update_pr : ℕ → (PrState → PrState) → Store → Store
update_pr fid g s = record s { pr_states = update_where (λ p. p.finding_id == fid) g s.pr_states }

unfoldable pub get_finding : ℕ → Store → Option Finding
get_finding fid s = first_where (has_id fid) s.findings

unfoldable pub get_pr_state : ℕ → Store → Option PrState
get_pr_state fid s = first_where (λ p. p.finding_id == fid) s.pr_states

unfoldable pub set_finding_status : ℕ → FindingStatus → (now : ℕ) → Store → Store
set_finding_status fid st now =
    update_findings (has_id fid) (λ f. record f { status = st; updated_at = now })

abbrev pub without_anchor : ℕ → List (ℕ × VerdictAnchor) → List (ℕ × VerdictAnchor)
without_anchor fid = rows_where (λ a. not (a.0 == fid))

-- DELETE, or an INSERT that replaces on conflict.
unfoldable pub write_anchor : ℕ → Option VerdictAnchor → Store → Store
write_anchor fid none s = record s { anchors = without_anchor fid s.anchors }
write_anchor fid (some a) s = record s { anchors = (fid, a) ∷ without_anchor fid s.anchors }

unfoldable pub verdict_anchor : ℕ → Store → Option VerdictAnchor
verdict_anchor fid s = elim (first_where (λ a. a.0 == fid) s.anchors) [
  | none ↦ none
  | some (k, a) ↦ some a
]

abbrev pub with_verdict : FindingStatus → String → ℕ → Finding → Finding
with_verdict st reason now f = record f {
  status = st;
  verdict_reason = some reason;
  updated_at = now;
}

unfoldable pub set_anchored_verdict :
    ℕ → FindingStatus → String → Option VerdictAnchor → (now : ℕ) → Store → Store
unfolding write_anchor
set_anchored_verdict fid st reason anchor now s =
    write_anchor fid anchor (update_findings (has_id fid) (with_verdict st reason now) s)

unfoldable pub set_finding_verdict : ℕ → FindingStatus → String → (now : ℕ) → Store → Store
unfolding set_anchored_verdict
set_finding_verdict fid st reason now = set_anchored_verdict fid st reason none now

unfoldable pub set_verdict_if :
    ℕ → (from st : FindingStatus) → String → (now : ℕ) → Store → Bool × Store
unfolding write_anchor
set_verdict_if fid from st reason now s =
    if exists_where (has_status fid from) s.findings
    then (
      true,
      write_anchor fid none (update_findings (has_status fid from) (with_verdict st reason now) s),
    )
    else (false, s)

unfoldable pub claim_in_progress : ℕ → (from to : FindingStatus) → (now : ℕ) → Store → Bool × Store
claim_in_progress fid from to now s = (
  exists_where (has_status fid from) s.findings,
  update_findings (has_status fid from) (λ f. record f { status = to; updated_at = now }) s,
)

unfoldable pub finalize_in_progress :
    ℕ → (expected fallback : FindingStatus) → (now : ℕ) → Store → Store
unfolding claim_in_progress
finalize_in_progress fid expected fallback now s = (claim_in_progress fid expected fallback now s).1

-- `WHERE finding_id = ? AND finding_id IN (SELECT id FROM findings WHERE status IN (rejected, wontfix))`.
unfoldable pub reconfirm_anchor : ℕ → String → Option String → Store → Store
unfolding is_suppressed
reconfirm_anchor fid sha holds_while s =
    if exists_where (λ f. f.id == fid && is_suppressed f.status) s.findings
    then record s {
      anchors =
          update_where (λ a. a.0 == fid)
            (λ a. (
              a.0,
              record {
                sha = sha;
                files = a.1.files;
                holds_while = coalesce holds_while a.1.holds_while;
              },
            ))
            s.anchors;
    }
    else s

-- The analysis columns that a refiled row overwrites are represented by its summary.
unfoldable pub reopen_suppressed : ℕ → (summary : String) → (now : ℕ) → Store → Bool × Store
unfolding is_suppressed write_anchor
reopen_suppressed fid summary now s =
    let lapsed = λ (f : Finding). f.id == fid && is_suppressed f.status in
    if exists_where lapsed s.findings
    then (
      true,
      write_anchor fid none (
          update_findings lapsed
            (λ f. record f {
              status = new;
              verdict_reason = none;
              summary = summary;
              updated_at = now;
            })
            s),
    )
    else (false, s)

unfoldable pub set_finding_pr_open : ℕ → String → (now : ℕ) → Store → Store
set_finding_pr_open fid url now =
    update_findings (has_id fid)
      (λ f. record f { status = pr_open; pr_url = some url; updated_at = now })

unfoldable pub set_budget_override : ℕ → Option BudgetOverride → (now : ℕ) → Store → Store
set_budget_override fid mode now =
    update_findings (has_id fid) (λ f. record f { budget_override = mode; updated_at = now })

unfoldable pub clear_all_overrides : (now : ℕ) → Store → ℕ × Store
clear_all_overrides now s = (
  count_where (λ f. is_some f.budget_override) s.findings,
  update_findings (λ f. is_some f.budget_override)
      (λ f. record f { budget_override = none; updated_at = now }) s,
)

-- Same failure as last time: one more. Another one: back to 1.
abbrev pub next_streak : Option String → ℕ → String → ℕ
next_streak last attempts failure = if is_text last failure then attempts + 1 else 1

unfoldable pub record_fix_attempt : ℕ → String → (now : ℕ) → Store → ℕ × Store
unfolding get_finding
record_fix_attempt fid failure now s =
    let attempts : ℕ = elim (get_finding fid s) [
      | none ↦ next_streak none 0 failure
      | some f ↦ next_streak f.last_fix_failure f.fix_attempts failure
    ] in
    (
      attempts,
      update_findings (has_id fid)
          (λ f. record f {
            fix_attempts = attempts;
            last_fix_failure = some failure;
            updated_at = now;
          })
          s,
    )

unfoldable pub clear_fix_attempts : ℕ → (now : ℕ) → Store → Store
clear_fix_attempts fid now =
    update_findings (has_id fid)
      (λ f. record f { fix_attempts = 0; last_fix_failure = none; updated_at = now })

unfoldable pub record_recheck_attempt : ℕ → String → (now : ℕ) → Store → ℕ × Store
unfolding get_finding
record_recheck_attempt fid failure now s =
    let attempts : ℕ = elim (get_finding fid s) [
      | none ↦ next_streak none 0 failure
      | some f ↦ next_streak f.last_recheck_failure f.recheck_attempts failure
    ] in
    (
      attempts,
      update_findings (has_id fid)
          (λ f. record f {
            recheck_attempts = attempts;
            last_recheck_failure = some failure;
            updated_at = now;
          })
          s,
    )

unfoldable pub clear_recheck_attempts : ℕ → (now : ℕ) → Store → Store
clear_recheck_attempts fid now =
    update_findings (has_id fid)
      (λ f. record f { recheck_attempts = 0; last_recheck_failure = none; updated_at = now })

unfoldable pub record_harvest_attempt : ℕ → String → Store → ℕ × Store
unfolding get_pr_state
record_harvest_attempt fid failure s =
    let attempts : ℕ = elim (get_pr_state fid s) [
      | none ↦ next_streak none 0 failure
      | some p ↦ next_streak p.last_harvest_failure p.harvest_attempts failure
    ] in
    (
      attempts,
      update_pr fid
          (λ p. record p { harvest_attempts = attempts; last_harvest_failure = some failure }) s,
    )

unfoldable pub clear_harvest_attempts : ℕ → Store → Store
clear_harvest_attempts fid =
    update_pr fid (λ p. record p { harvest_attempts = 0; last_harvest_failure = none })

unfoldable pub mark_pr_harvested : ℕ → (harvested_at : ℕ) → Store → Store
mark_pr_harvested fid harvested_at =
    update_pr fid (λ p. record p { harvested_at = some harvested_at })

unfoldable pub set_attention_aside : ℕ → (now : ℕ) → Store → Store
set_attention_aside fid now = update_pr fid λ p. record p {
  last_engaged_activity_at = coalesce p.last_activity_at (some now);
  addressed_fingerprint = p.attention_fingerprint;
  addressed_head_sha = p.head_sha;
  needs_attention = none;
  attention_since = none;
}

-- The classification lands only on `closed`; the stamp lands regardless.
unfoldable pub record_closed_harvest :
    ℕ
    → FindingStatus
    → String
    → Option VerdictAnchor
    → (harvested_at now : ℕ) → Store
    → Bool × Store
unfolding write_anchor mark_pr_harvested
record_closed_harvest fid st reason anchor harvested_at now s =
    if exists_where (has_status fid closed) s.findings
    then (
      true,
      mark_pr_harvested fid harvested_at (
          write_anchor fid anchor
            (update_findings (has_status fid closed) (with_verdict st reason now) s)),
    )
    else (false, mark_pr_harvested fid harvested_at s)

-- The two updates of the transaction that holds a fix, on one row each.
abbrev pub held_job : ℕ → String → List Job → Job → Job
held_job now reason jobs j = record j {
  state = suspended;
  blocker = some reason;
  finished_at = coalesce j.finished_at (some now);
  session_file = coalesce j.session_file (elim j.resumed_from [
    | none ↦ none
    | some p ↦ elim (first_where (λ (k : Job). k.id == p) jobs) [
      | none ↦ none
      | some k ↦ k.session_file
    ]
  ]);
}

abbrev pub held_finding : ℕ → Finding → Finding
held_finding now f = record f {
  status = blocked;
  updated_at = now;
  fix_attempts = 0;
  last_fix_failure = none;
}

-- `WHERE id = ? AND finding_id = ? AND kind = 'fix'`.
abbrev pub fix_job : (job fid : ℕ) → Job → Bool
fix_job job fid j = j.id == job && is_id j.finding_id fid && kind_eq j.kind (finding fix)

-- `none` is `RowNotFound`: the transaction is rolled back.
unfoldable pub block_fix_job : (fid job : ℕ) → String → (now : ℕ) → Store → Option Store
block_fix_job fid job reason now s =
    if exists_where (fix_job job fid) s.jobs
    then (if exists_where (has_id fid) s.findings
        then some (record s {
          jobs = update_where (fix_job job fid) (held_job now reason s.jobs) s.jobs;
          findings = update_where (has_id fid) (held_finding now) s.findings;
        })
        else none)
    else none
