-- ===== src/Store/Jobs.antt =====
-- The statements of hunter-rs/src/store.rs on `jobs` and on the columns of `repos` that a job moves.
pub mod Chain
pub mod Handover
pub mod Links
pub mod Open
pub mod Origin
pub mod Stranded
use bug_hunter.Prelude.{
  ℕ, zero, suc, ◌+◌, Bool, true, false, not, ◌&&◌, ◌||◌, List, [], ◌∷◌, map, String, Option, none,
  some, ◌==◌, ltb, if◌then◌else◌,
}
use bug_hunter.Prelude.Tables.{
  rows_where, first_where, exists_where, update_where, count_where, sort_by,
}
use bug_hunter.Domain.Status.{
  FindingStatus, queued, rechecking, fixing, blocked, pr_open, merged, closed, status_eq, JobState,
  suspended, running, killed, failed, denied, state_eq,
}
use bug_hunter.Domain.Kinds.{
  RepoJobKind, hunt, test_gap, dep_update, refactor, modernization, standards, JobKind, repo,
  finding, fix, engage, harvest, recheck, kind_eq, is_finding,
}
use bug_hunter.Store.Rows.{Finding, Job, Repo, Store, is_some, coalesce, is_id}

abbrev pub update_jobs : (Job → Bool) → (Job → Job) → Store → Store
update_jobs p g s = record s { jobs = update_where p g s.jobs }

abbrev pub update_repos : ℕ → (Repo → Repo) → Store → Store
update_repos rid g s = record s { repos = update_where (λ r. r.id == rid) g s.repos }

unfoldable pub get_job : ℕ → Store → Option Job
get_job id s = first_where (λ j. j.id == id) s.jobs

unfoldable pub get_repo_by_id : ℕ → Store → Option Repo
get_repo_by_id rid s = first_where (λ r. r.id == rid && r.live) s.repos

abbrev pub retired : JobState → Option String → String → Job → Job
retired st reason notes j = record j {
  state = st;
  killed_reason = coalesce reason j.killed_reason;
  notes = some notes;
}

unfoldable pub retire_job : ℕ → JobState → Option String → String → Store → Store
retire_job id st reason notes = update_jobs (λ j. j.id == id) (retired st reason notes)

-- A successor row is the record that a suspension has been picked up.
abbrev pub continued : List Job → Job → Bool
continued jobs j = exists_where (λ s. is_id s.resumed_from j.id) jobs

abbrev pub optional : {A B : Type 0} → Option A → B → (A → B) → B
optional none d f = d
optional (some a) d f = f a

-- ORDER BY id.
abbrev pub older : Job → Job → Bool
older a b = ltb a.id b.id

-- JOIN repos r ON r.id = j.repo_id.
abbrev pub has_repo : List Repo → Job → Bool
has_repo repos j = exists_where (λ r. r.id == j.repo_id) repos

-- The suspension that a fresh job of this kind, finding and repository replaces.
abbrev pub superseded_by : List Repo → List Job → JobKind → (id : ℕ) → Option ℕ → ℕ → Job → Bool
superseded_by repos jobs kind id fid rid j =
    state_eq j.state suspended
    && has_repo repos j
    && kind_eq j.kind kind
    && not (j.id == id)
    && (if is_finding kind then optional fid false (is_id j.finding_id) else j.repo_id == rid)
    && not (continued jobs j)

-- The INSERT of `create_job`: what a resume inherits, it copies from the attempt it continues.
abbrev pub inserted :
    JobKind → ℕ → Option ℕ → Option ℕ → JobState → Option ℕ → Option ℕ → (now : ℕ) → Store → Job
inserted kind rid fid cap st estimated resumed_from now s =
    let parent : Option Job =
      optional resumed_from none (λ p. first_where (λ j. j.id == p) s.jobs) in
    record {
      id = s.next_job;
      kind = kind;
      repo_id = rid;
      finding_id = fid;
      state = st;
      session_file = none;
      cap_tokens = cap;
      tokens_new = none;
      killed_reason = none;
      notes = none;
      started_at = some now;
      finished_at = none;
      estimated_tokens = estimated;
      resumed_from = resumed_from;
      pinned_sha = optional parent none (λ p. p.pinned_sha);
      blocker = optional parent none (λ p. p.blocker);
      full_history = optional parent false (λ p. p.full_history);
      full_hunt_request = optional parent none (λ p. p.full_hunt_request);
    }

pub record CreatedJob : Type 0 where
  pub id : ℕ
  pub superseded : List ℕ

abbrev pub ids : List Job → List ℕ
ids = map (λ j. j.id)

-- The body of the transaction, once the repository is known to be live: the INSERT, and the
-- retirement of what a fresh job replaces. The retirement notes name the two jobs; their text is
-- left to `note`.
abbrev pub created :
    (note : ℕ → String)
    → JobKind
    → (rid : ℕ) → (fid cap : Option ℕ) → JobState
    → (estimated resumed_from : Option ℕ) → (now : ℕ) → Store
    → CreatedJob × Store
created note kind rid fid cap st estimated resumed_from now s =
    let job = inserted kind rid fid cap st estimated resumed_from now s in
    let jobs = job ∷ s.jobs in
    let old =
      λ (j : Job). not (is_some resumed_from) && superseded_by s.repos jobs kind job.id fid rid j in
    (
      record { id = job.id; superseded = ids (sort_by older (rows_where old jobs)) },
      record s {
        next_job = suc s.next_job;
        jobs = update_where old (λ j. retired killed (some "superseded") (note j.id) j) jobs;
      },
    )

-- `none` is the refusal for a deleted repository, which leaves everything as it was.
unfoldable pub create_job :
    (note : ℕ → String)
    → JobKind
    → (rid : ℕ) → (fid cap : Option ℕ) → JobState
    → (estimated resumed_from : Option ℕ) → (now : ℕ) → Store
    → Option (CreatedJob × Store)
create_job note kind rid fid cap st estimated resumed_from now s =
    if exists_where (λ r. r.id == rid && r.live) s.repos
    then some (created note kind rid fid cap st estimated resumed_from now s)
    else none

unfoldable pub fail_unstarted_job : ℕ → String → (now : ℕ) → Store → Store
fail_unstarted_job id notes now =
    update_jobs (λ j. j.id == id)
      (λ j. record j { state = failed; notes = some notes; finished_at = some now })

unfoldable pub set_pinned_sha : ℕ → String → Store → Store
set_pinned_sha id sha = update_jobs (λ j. j.id == id) (λ j. record j { pinned_sha = some sha })

unfoldable pub pinned_sha : ℕ → Store → Option String
unfolding get_job
pinned_sha id s = optional (get_job id s) none (λ j. j.pinned_sha)

unfoldable pub job_blocker : ℕ → Store → Option String
unfolding get_job
job_blocker id s = optional (get_job id s) none (λ j. j.blocker)

pub record JobOutcome : Type 0 where
  pub state : JobState
  pub tokens_new : ℕ
  pub killed_reason : Option String
  pub session_file : Option String
  pub notes : Option String
  pub finished_at : ℕ

unfoldable pub complete_job : ℕ → JobOutcome → Store → Store
complete_job id o =
    update_jobs (λ j. j.id == id)
      λ j. record j {
        state = o.state;
        tokens_new = some o.tokens_new;
        killed_reason = o.killed_reason;
        session_file = o.session_file;
        notes = o.notes;
        finished_at = some o.finished_at;
      }

unfoldable pub suspend_orphan : ℕ → String → ℕ → String → (finished_at : ℕ) → Store → Store
suspend_orphan id session tokens notes finished_at =
    update_jobs (λ j. j.id == id)
      λ j. record j {
        state = suspended;
        killed_reason = some "orphaned";
        session_file = some session;
        tokens_new = some tokens;
        notes = some notes;
        finished_at = some finished_at;
      }

unfoldable pub orphan_job : ℕ → String → (finished_at : ℕ) → Store → Store
orphan_job id notes finished_at =
    update_jobs (λ j. j.id == id)
      λ j. record j {
        state = killed;
        killed_reason = some "orphaned";
        notes = some notes;
        finished_at = some finished_at;
      }

unfoldable pub fail_job : ℕ → String → Store → Store
fail_job id notes =
    update_jobs (λ j. j.id == id) (λ j. record j { state = failed; notes = some notes })

-- The finding statuses at which a suspended job of this kind may be continued.
abbrev pub actionable : JobKind → FindingStatus → Bool
actionable (repo k) st = true
actionable (finding fix) st = status_eq st queued
actionable (finding recheck) st = status_eq st rechecking
actionable (finding engage) st = status_eq st pr_open
actionable (finding harvest) st = status_eq st merged || status_eq st closed

abbrev pub on_finding : List Finding → Job → (FindingStatus → Bool) → Bool
on_finding findings j p = exists_where (λ f. is_id j.finding_id f.id && p f.status) findings

abbrev pub of_live_repo : List Repo → Job → Bool
of_live_repo repos j = exists_where (λ r. r.id == j.repo_id && r.live) repos

abbrev pub resumable : Store → Job → Bool
resumable s j =
    state_eq j.state suspended
    && of_live_repo s.repos j
    && is_some j.session_file
    && not (continued s.jobs j)
    && (not (is_finding j.kind) || on_finding s.findings j (actionable j.kind))

-- ORDER BY id DESC.
abbrev pub newer : Job → Job → Bool
newer a b = ltb b.id a.id

unfoldable pub list_resumable_jobs : Store → List Job
list_resumable_jobs s = sort_by newer (rows_where (resumable s) s.jobs)

-- A fix may also wait at `blocked`, for the operator, or at `fixing`, between claim and job.
abbrev pub kept : JobKind → FindingStatus → Bool
kept (repo k) st = false
kept (finding fix) st = status_eq st queued || status_eq st blocked || status_eq st fixing
kept (finding recheck) st = status_eq st rechecking
kept (finding engage) st = status_eq st pr_open
kept (finding harvest) st = status_eq st merged || status_eq st closed

abbrev pub stranded : Store → Job → Bool
stranded s j =
    state_eq j.state suspended
    && has_repo s.repos j
    && not (continued s.jobs j)
    && on_finding s.findings j (λ st. not (kept j.kind st))

unfoldable pub retire_stranded_suspensions : (note : Job → String) → Store → List ℕ × Store
retire_stranded_suspensions note s = (
  ids (sort_by older (rows_where (stranded s) s.jobs)),
  update_jobs (stranded s) (λ j. retired killed (some "finding-moved") (note j) j) s,
)

unfoldable pub set_last_kind_at : ℕ → RepoJobKind → (now : ℕ) → Store → Store
set_last_kind_at rid hunt now = update_repos rid (λ r. record r { last_hunt_at = some now })
set_last_kind_at rid test_gap now = update_repos rid (λ r. record r { last_test_gap_at = some now })
set_last_kind_at rid dep_update now =
    update_repos rid (λ r. record r { last_dep_update_at = some now })
set_last_kind_at rid refactor now = update_repos rid (λ r. record r { last_refactor_at = some now })
set_last_kind_at rid modernization now =
    update_repos rid (λ r. record r { last_modernization_at = some now })
set_last_kind_at rid standards now =
    update_repos rid (λ r. record r { last_standards_at = some now })
