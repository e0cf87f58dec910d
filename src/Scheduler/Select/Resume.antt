-- ===== src/Scheduler/Select/Resume.antt =====
-- `resume_plan`, `finding_pick` and `pick_resume` of hunter-rs/src/scheduler.rs. The file system
-- is a parameter: which chains still have their tree, which transcripts lie in their chain's
-- session directory, and the context that a transcript ended with.
pub mod SameWork
use bug_hunter.Prelude.{
  ℕ, Bool, true, false, not, ◌&&◌, ◌||◌, List, [], ◌∷◌, String, Option, none, some, str_eq, ◌==◌,
  if◌then◌else◌,
}
use bug_hunter.Domain.Status.{BudgetOverride, failed, killed}
use bug_hunter.Domain.Kinds.{JobKind, RepoJobKind, FindingJobKind, repo, finding, fix, kind_eq}
use bug_hunter.Store.Rows.{Finding, Job, Repo, Store, is_some, is_id, unwrap_or}
use bug_hunter.Store.Jobs.{
  get_repo_by_id, pinned_sha, job_blocker, set_last_kind_at, retire_job, list_resumable_jobs,
}
use bug_hunter.Store.Jobs.Chain.{resume_origin_job, resume_chain_stats}
use bug_hunter.Scheduler.Attempt.{resume_reservation, too_many, too_costly}
use bug_hunter.Scheduler.Rotation.{Intervals}
use bug_hunter.Scheduler.Estimate.{anticipated_tokens}
use bug_hunter.Scheduler.Select.GiveUp.{count_given_up_chain}

-- What the selection reads outside of the database, and the texts that it writes.
pub record World : Type 0 where
  pub now : ℕ
  pub cache_ttl_ms : ℕ
  pub intervals : Intervals
  pub has_tree : (origin : ℕ) → Bool
  pub in_session_dir : (origin : ℕ) → String → Bool
  pub ctx_at_suspension : String → Option ℕ
  pub is_cloned : Repo → Bool
  pub report : Job → String

-- Whether a selection records what it finds on the way.
pub data Pick : Type 0 where
  run preview : Pick

pub record ResumePlan : Type 0 where
  pub kind : JobKind
  pub repo_id : ℕ
  pub repo_name : String
  pub finding_id : Option ℕ
  pub predecessor_id : ℕ
  pub origin_job_id : ℕ
  pub session_file : String
  pub pinned : String
  pub anticipated : ℕ
  pub ctx : ℕ
  pub typical : ℕ
  pub chain_spent : ℕ
  pub handoff : Bool

pub data Resumable : Type 0 where
  resume : ResumePlan → Resumable
  gave_up : Resumable
  refused : Resumable

-- `if let JobKind::Repo(kind) = job.kind { set_last_kind_at }`.
abbrev pub bump_rotation : JobKind → ℕ → (now : ℕ) → Store → Store
bump_rotation (repo k) rid now s = set_last_kind_at rid k now s
bump_rotation (finding k) rid now s = s

-- The chain is past the ceiling, and no operator has queued it again.
unfoldable pub is_given_up : World → Job → Store → Bool
is_given_up w j s =
    let z = anticipated_tokens j.repo_id j.kind w.cache_ttl_ms w.now s in
    let chain = resume_chain_stats j.id s in
    (too_many chain || too_costly z chain)
    && not (kind_eq j.kind (finding fix) && is_some (job_blocker j.id s))

unfoldable pub plan_of : World → Job → Repo → String → String → Store → ResumePlan
plan_of w j r session sha s =
    let z = anticipated_tokens j.repo_id j.kind w.cache_ttl_ms w.now s in
    let spent = (resume_chain_stats j.id s).total in
    let ctx = unwrap_or (w.ctx_at_suspension session) z in
    record {
      kind = j.kind;
      repo_id = j.repo_id;
      repo_name = r.name;
      finding_id = j.finding_id;
      predecessor_id = j.id;
      origin_job_id = resume_origin_job j.id s;
      session_file = session;
      pinned = sha;
      anticipated = resume_reservation ctx z spent;
      ctx = ctx;
      typical = z;
      chain_spent = spent;
      handoff = false;
    }

-- The workspace is gone: retired by the scheduler, skipped by a preview.
unfoldable pub retire_gone : World → Pick → Job → Store → Store
retire_gone w run j s = retire_job j.id killed (some "workdir-gone") (w.report j) s
retire_gone w preview j s = s

-- The chain is given up: the rotation is bumped first, then the row is retired.
unfoldable pub retire_chain : World → Pick → Job → Store → Resumable × Store
retire_chain w run j s = (
  gave_up,
  retire_job j.id failed (some "give-up") (w.report j) (bump_rotation j.kind j.repo_id w.now s),
)
retire_chain w preview j s = (refused, s)

unfoldable pub resume_plan : World → Pick → Job → Store → Resumable × Store
unfolding retire_gone retire_chain plan_of
resume_plan w mode j s = elim j.session_file [
  | none ↦ (refused, s)
  | some session ↦ elim (get_repo_by_id j.repo_id s) [
    | none ↦ (refused, s)
    | some r ↦ elim (pinned_sha j.id s) [
      | none ↦ (refused, retire_gone w mode j s)
      | some sha ↦
          let origin = resume_origin_job j.id s in
          if w.has_tree origin && w.in_session_dir origin session
          then (if is_given_up w j s
              then retire_chain w mode j s
              else (resume (plan_of w j r session sha s), s))
          else (refused, retire_gone w mode j s)
    ]
  ]
]

pub data Candidate : Type 0 where
  scan : RepoJobKind → (repo_id : ℕ) → (label : Option String) → Candidate
  on_finding :
      FindingJobKind
      → (finding_id repo_id : ℕ) → (label : Option String) → Option BudgetOverride
      → Candidate
  continue : (label : Option String) → Option BudgetOverride → ResumePlan → Candidate

abbrev pub finding_label : Finding → String
finding_label f = if str_eq f.summary "" then f.fingerprint else f.summary

abbrev pub finding_candidate : FindingJobKind → Finding → Candidate
finding_candidate kind f = on_finding kind f.id f.repo_id (some (finding_label f)) f.budget_override

abbrev pub non_empty : String → Option String
non_empty name = if str_eq name "" then none else some name

abbrev pub repo_candidate : RepoJobKind → Repo → Candidate
repo_candidate kind r = scan kind r.id (non_empty r.name)

-- The loop of `finding_pick` over the suspensions read at its start. `none` when a given-up chain
-- ended the finding's work.
abbrev pub is_for : FindingJobKind → Finding → Job → Bool
is_for kind f j = is_id j.finding_id f.id && kind_eq j.kind (finding kind)

-- The arms of the loop's match, `rest` being the loop over the suspensions left.
abbrev pub after_plan :
    World
    → FindingJobKind
    → Finding
    → Job
    → (rest : Store → Option Candidate × Store) → Resumable × Store
    → Option Candidate × Store
after_plan w kind f j rest (resume p, s) =
    (some (continue (some (finding_label f)) f.budget_override p), s)
after_plan w kind f j rest (gave_up, s) =
    let (ended, s') = count_given_up_chain kind f.id j.id (w.report j) w.now s in
    if ended then (none, s') else rest s'
after_plan w kind f j rest (refused, s) = rest s

unfoldable pub pick_among :
    World → Pick → FindingJobKind → Finding → List Job → Store → Option Candidate × Store
pick_among w mode kind f [] s = (some (finding_candidate kind f), s)
pick_among w mode kind f (j ∷ js) s =
    let rest : Store → Option Candidate × Store = pick_among w mode kind f js in
    if is_for kind f j then after_plan w kind f j rest (resume_plan w mode j s) else rest s

unfoldable pub finding_pick :
    World → Pick → FindingJobKind → Finding → Store → Option Candidate × Store
unfolding pick_among
finding_pick w mode kind f s = pick_among w mode kind f (list_resumable_jobs s) s

-- `pick_resume`: the newest suspension, of the forced repository if there is one, that can be
-- continued.
abbrev pub of_force_job : Option ℕ → Job → Bool
of_force_job none j = true
of_force_job (some rid) j = j.repo_id == rid

abbrev pub or_next :
    (rest : Store → Option Candidate × Store) → Resumable × Store → Option Candidate × Store
or_next rest (resume p, s) = (some (continue (non_empty p.repo_name) none p), s)
or_next rest (gave_up, s) = rest s
or_next rest (refused, s) = rest s

unfoldable pub resume_among :
    World → Pick → (force : Option ℕ) → List Job → Store → Option Candidate × Store
resume_among w mode force [] s = (none, s)
resume_among w mode force (j ∷ js) s =
    let rest : Store → Option Candidate × Store = resume_among w mode force js in
    if of_force_job force j then or_next rest (resume_plan w mode j s) else rest s

unfoldable pub pick_resume : World → Pick → (force : Option ℕ) → Store → Option Candidate × Store
unfolding resume_among
pick_resume w mode force s = resume_among w mode force (list_resumable_jobs s) s
