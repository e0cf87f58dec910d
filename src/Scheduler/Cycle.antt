-- ===== src/Scheduler/Cycle.antt =====
-- One cycle of hunter-rs/src/scheduler.rs: `run_cycle`, `run_cycle_inner`, `dispatch`, the disk gate
-- and `budget_gate`. What the executors of the job kinds do is given as `Executors`. The event log
-- is left out, and so are the fields of a summary that only the log and the dashboard read.
pub mod Turn
use Prim.Native.String.{◌++◌ as str_append}
use bug_hunter.Prelude.{
  ℕ, suc, ◌+◌, ◌*◌, ◌/◌, Bool, true, false, String, Option, none, some, ltb, if◌then◌else◌,
}
use bug_hunter.Prelude.Tables.{exists_where}
use bug_hunter.Domain.Status.{pr_open, status_eq, JobState, done, killed, failed}
use bug_hunter.Domain.Kinds.{RepoJobKind, FindingJobKind, JobKind, repo, finding, finding_kind_name}
use bug_hunter.Store.Rows.{Finding, Repo, Store}
use bug_hunter.Store.Jobs.{get_repo_by_id}
use bug_hunter.Store.Findings.{get_finding}
use bug_hunter.Backends.Floats.{ℤ, pos, FloatOps}
use bug_hunter.Backends.Decide.{Verdict, granted, denied, Outlook}
use bug_hunter.Scheduler.Attempt.{cold_reservation}
use bug_hunter.Scheduler.Estimate.{anticipated_tokens}
use bug_hunter.Scheduler.Sync.{SyncResult, Seen, Faults, unless_fails, sync_prs}
use bug_hunter.Scheduler.Select.Resume.{
  World, run, ResumePlan, Candidate, scan, on_finding, continue, bump_rotation,
}
use bug_hunter.Scheduler.Select.Rounds.{Selection, unknown_repo, picked, out_of_fuel, select}
use bug_hunter.Scheduler.Select.Rounds.Work.{work}

pub record CycleSummary : Type 0 where
  pub kind : Option JobKind
  pub state : Option JobState
  pub error : Option String
  pub denied : Option String
  pub retry_at : Option ℤ
  pub idle : Option String
  pub sync : Option SyncResult

abbrev pub no_summary : CycleSummary
no_summary = record {
  kind = none;
  state = none;
  error = none;
  denied = none;
  retry_at = none;
  idle = none;
  sync = none;
}

-- `anyhow::Result<CycleSummary>`.
pub data Ran : Type 0 where
  ok : CycleSummary → Ran
  crashed : String → Ran

pub record Executors : Type 0 where
  pub repo_job : RepoJobKind → Repo → Option ResumePlan → Store → Ran × Store
  pub finding_job : FindingJobKind → Finding → Option ResumePlan → Store → Ran × Store

-- `statvfs` is `none` where the file system cannot be measured, and else its available blocks and
-- their size. `decimal` is how Rust prints a number, `quoted` a text
-- with `{:?}`; `bump_fails` says whether the write of a turn fails.
pub record Environment : Type 0 where
  pub world : World
  pub look : Repo → String → Seen
  pub faults : ℕ → Faults
  pub bump_fails : Bool
  pub statvfs : Option (ℕ × ℕ)
  pub min_free_disk_bytes : ℕ
  pub work_root : String
  pub decimal : ℕ → String
  pub quoted : String → String

abbrev pub disk_retry_ms : ℕ
disk_retry_ms = 300_000

abbrev pub saturating_mul : ℕ → ℕ → ℕ
saturating_mul a b =
    if ltb 18_446_744_073_709_551_615 (a * b) then 18_446_744_073_709_551_615 else a * b

abbrev pub mebibytes : Environment → ℕ → String
mebibytes e bytes = str_append (e.decimal (bytes / 1_048_576)) " MiB"

unfoldable pub disk_denial : Environment → (free : ℕ) → Option String
disk_denial e free =
    if ltb free e.min_free_disk_bytes
    then some (
        str_append "disk: " (
          str_append (mebibytes e free) (
            str_append " free under "
              (str_append e.work_root (str_append " < " (mebibytes e e.min_free_disk_bytes))))))
    else none

unfoldable pub disk_gate : Environment → Option String
unfolding disk_denial
disk_gate e = elim e.statvfs [
  | none ↦ none
  | some (blocks, size) ↦ disk_denial e (saturating_mul blocks size)
]

abbrev pub job_kind : Candidate → JobKind
job_kind (scan k rid label) = repo k
job_kind (on_finding k fid rid label mode) = finding k
job_kind (continue label mode plan) = plan.kind

abbrev pub candidate_repo : Candidate → ℕ
candidate_repo (scan k rid label) = rid
candidate_repo (on_finding k fid rid label mode) = rid
candidate_repo (continue label mode plan) = plan.repo_id

abbrev pub not_found : Environment → String → ℕ → String
not_found e what id = str_append what (str_append (e.decimal id) " not found")

abbrev pub run_repo_job :
    Executors → Environment → RepoJobKind → ℕ → Option ResumePlan → Store → Ran × Store
run_repo_job x e k rid plan s = elim (get_repo_by_id rid s) [
  | none ↦ (crashed (not_found e "repo " rid), s)
  | some r ↦ x.repo_job k r plan s
]

abbrev pub run_finding_job :
    Executors → Environment → FindingJobKind → ℕ → Option ResumePlan → Store → Ran × Store
run_finding_job x e k fid plan s = elim (get_finding fid s) [
  | none ↦ (crashed (not_found e "finding " fid), s)
  | some f ↦ x.finding_job k f plan s
]

abbrev pub run_resume :
    Executors → Environment → JobKind → (target : Option ℕ) → ResumePlan → Store → Ran × Store
run_resume x e (repo k) target plan s = run_repo_job x e k plan.repo_id (some plan) s
run_resume x e (finding k) none plan s = (
  crashed (str_append "resume of a " (str_append (finding_kind_name k) " job with no finding")),
  s,
)
run_resume x e (finding k) (some fid) plan s = run_finding_job x e k fid (some plan) s

unfoldable pub dispatch : Executors → Environment → Candidate → Store → Ran × Store
unfolding get_repo_by_id get_finding finding_kind_name
dispatch x e (scan k rid label) s = run_repo_job x e k rid none s
dispatch x e (on_finding k fid rid label mode) s = run_finding_job x e k fid none s
dispatch x e (continue label mode plan) s = run_resume x e plan.kind plan.finding_id plan s

abbrev pub is_end : Option JobState → Bool
is_end (some done) = true
is_end (some killed) = true
is_end (some failed) = true
is_end _ = false

abbrev pub attempt_ended : CycleSummary → Bool
attempt_ended r = is_end r.state

-- The write of `last_{kind}_at` of a rotation scan; its failure is logged.
abbrev pub record_turn : Environment → Candidate → Store → Store
record_turn e c s =
    unless_fails e.bump_fails (bump_rotation (job_kind c) (candidate_repo c) e.world.now) s

abbrev pub with_sync : Option SyncResult → CycleSummary → CycleSummary
with_sync none r = r
with_sync (some sum) r = record r { sync = some sum }

abbrev pub after_dispatch : Environment → Candidate → Option SyncResult → Ran × Store → Ran × Store
after_dispatch e c sync (crashed why, s) = (crashed why, record_turn e c s)
after_dispatch e c sync (ok r, s) =
    (ok (with_sync sync r), if attempt_ended r then record_turn e c s else s)

-- Step (0) of a cycle.
unfoldable pub first_sync : Environment → Store → Option SyncResult × Store
unfolding sync_prs
first_sync e s =
    if exists_where (λ f. status_eq f.status pr_open) s.findings
    then (let (sum, s') = sync_prs e.decimal e.look e.faults e.world.now s in (some sum, s'))
    else (none, s)

-- With this fuel the selection ends.
unfoldable pub pick_next : World → (force_repo : Option String) → Store → Selection × Store
unfolding select
pick_next w force_repo s = select (suc (work s)) w run force_repo s

abbrev pub nothing_to_do : String
nothing_to_do = "no queued findings, no enabled repos"

-- A selection that forces no repository knows it.
abbrev pub unknown_text : Environment → (force_repo : Option String) → String
unknown_text e none = ""
unknown_text e (some name) = str_append "unknown repo " (e.quoted name)

abbrev pub run_picked :
    Executors
    → Environment
    → (force_repo : Option String) → Option SyncResult
    → Selection × Store
    → Ran × Store
run_picked x e force_repo sync (unknown_repo, s) = (crashed (unknown_text e force_repo), s)
run_picked x e force_repo sync (out_of_fuel, s) = (crashed "out of fuel", s)
run_picked x e force_repo sync (picked none, s) =
    (ok (record no_summary { idle = some nothing_to_do; sync = sync }), s)
run_picked x e force_repo sync (picked (some c), s) = after_dispatch e c sync (dispatch x e c s)

abbrev pub run_synced :
    Executors
    → Environment
    → (force_repo : Option String) → (full : Option String) → Option SyncResult × Store
    → Ran × Store
run_synced x e force_repo none (sync, s) =
    run_picked x e force_repo sync (pick_next e.world force_repo s)
run_synced x e force_repo (some reason) (sync, s) = (
  ok (record no_summary {
    denied = some reason;
    retry_at = some (pos (e.world.now + disk_retry_ms));
    sync = sync;
  }),
  s,
)

unfoldable pub run_cycle_inner :
    Executors → Environment → (force_repo : Option String) → Store → Ran × Store
unfolding first_sync disk_gate pick_next dispatch
run_cycle_inner x e force_repo s = run_synced x e force_repo (disk_gate e) (first_sync e s)

abbrev pub summary_of : Ran → CycleSummary
summary_of (ok r) = r
summary_of (crashed why) = record no_summary { error = some why }

unfoldable pub run_cycle :
    Executors → Environment → (force_repo : Option String) → Store → CycleSummary × Store
unfolding run_cycle_inner
run_cycle x e force_repo s =
    let (ran, s') = run_cycle_inner x e force_repo s in (summary_of ran, s')

-- `decide` is the backend's answer for a reservation, `none` where it fails.
pub data BudgetDecision : Type 0 where
  approved : (cap : Option ℤ) (anticipated : ℕ) → BudgetDecision
  over_budget : CycleSummary → BudgetDecision

abbrev pub reservation_for : World → (repo_id : ℕ) → JobKind → Option ResumePlan → Store → ℕ
reservation_for w rid kind (some plan) s = plan.anticipated
reservation_for w rid kind none s =
    cold_reservation (anticipated_tokens rid kind w.cache_ttl_ms w.now s)

abbrev pub verdict_for : {F : Type 0} → (use_override : Bool) → Outlook F → Verdict F
verdict_for use_override o = if use_override then o.prioritized else o.normal

abbrev pub as_i64 : {F : Type 0} → FloatOps F → Option F → Option ℤ
as_i64 fl none = none
as_i64 fl (some at) = some (fl.trunc at)

abbrev pub budget_of : {F : Type 0} → FloatOps F → JobKind → ℕ → Verdict F → BudgetDecision
budget_of fl kind anticipated (granted cap reason) = approved cap anticipated
budget_of fl kind anticipated (denied reason at) =
    over_budget
      (record no_summary { kind = some kind; denied = some reason; retry_at = as_i64 fl at })

unfoldable pub budget_gate :
    {F : Type 0}
    → FloatOps F
    → (decide : ℕ → Option (Outlook F)) → World
    → (repo_id : ℕ) → JobKind
    → (use_override : Bool) → Option ResumePlan
    → Store
    → Option BudgetDecision
unfolding cold_reservation anticipated_tokens
budget_gate fl decide w rid kind use_override resume s =
    let anticipated = reservation_for w rid kind resume s in
    elim (decide anticipated) [
      | none ↦ none
      | some o ↦ some (budget_of fl kind anticipated (verdict_for use_override o))
    ]
