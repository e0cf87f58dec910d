-- ===== src/Scheduler/Select/Rounds/Owes.antt =====
-- `finding_pick` of hunter-rs/src/scheduler.rs: the work it leaves for the finding tiers.
use bug_hunter.Prelude.{
  ℕ, ◌≤◌, ◌<◌, ◌≡◌, refl, Bool, true, false, ◌&&◌, List, [], ◌∷◌, Option, none, some, arith,
  Bool-cases, Option-cases, inl, inr, if◌then◌else◌,
}
use bug_hunter.Domain.Kinds.{JobKind, repo, finding, hunt, FindingJobKind}
use bug_hunter.Store.Rows.{Finding, Job, Store}
use bug_hunter.Store.Jobs.{retire_job, set_last_kind_at, get_repo_by_id, pinned_sha}
use bug_hunter.Store.Jobs.Chain.{resume_origin_job}
use bug_hunter.Scheduler.Select.GiveUp.{count_given_up_chain}
use bug_hunter.Scheduler.Select.Resume.{
  World, run, Candidate, Resumable, resume, gave_up, refused, bump_rotation, retire_gone,
  retire_chain, resume_plan, is_given_up, is_for, after_plan, pick_among,
}
use bug_hunter.Scheduler.Select.Rounds.Work.{work, left, Keeps, Keeps-trans, same_rows-Keeps}
use bug_hunter.Scheduler.Select.Rounds.Progress.{Counts, count_given_up_chain-Counts}

bump_rotation-Keeps :
    (kind : FindingJobKind) (fid : ℕ) (k : JobKind) (rid now : ℕ) (s : Store)
    → Keeps kind fid s (bump_rotation k rid now s)
unfolding set_last_kind_at
bump_rotation-Keeps kind fid (repo hunt) rid now s = same_rows-Keeps kind fid s _ refl refl
bump_rotation-Keeps kind fid (repo _) rid now s = same_rows-Keeps kind fid s _ refl refl
bump_rotation-Keeps kind fid (finding k) rid now s = (omega arith, λ e. e)

module _ (kind : FindingJobKind) (fid : ℕ) (w : World) (j : Job) (s : Store) where
  retire_gone-Keeps : Keeps kind fid s (retire_gone w run j s)
  unfolding retire_gone retire_job
  retire_gone-Keeps = same_rows-Keeps kind fid s _ refl refl

  retire_chain-Keeps : Keeps kind fid s (retire_chain w run j s).1
  unfolding retire_chain retire_job
  retire_chain-Keeps =
      let bumped : Store = bump_rotation j.kind j.repo_id w.now s in
      Keeps-trans kind fid s bumped _ (bump_rotation-Keeps kind fid j.kind j.repo_id w.now s)
        (same_rows-Keeps kind fid bumped _ refl refl)

  -- Planning a resume writes jobs and repositories only.
  resume_plan-Keeps : Keeps kind fid s (resume_plan w run j s).1
  unfolding resume_plan
  resume_plan-Keeps = elim (Option-cases j.session_file) [
    | inl gone ↦ rw (gone, resume_plan) same
    | inr (session, has) ↦ elim (Option-cases (get_repo_by_id j.repo_id s)) [
      | inl gone ↦ rw (has, gone, resume_plan) same
      | inr (r, live) ↦ elim (Option-cases (pinned_sha j.id s)) [
        | inl gone ↦ rw (has, live, gone, resume_plan) retire_gone-Keeps
        | inr (sha, pin) ↦
            elim (Bool-cases (
              w.has_tree (resume_origin_job j.id s)
              && w.in_session_dir (resume_origin_job j.id s) session)) [
                | inl tree ↦ elim (Bool-cases (is_given_up w j s)) [
                  | inl over ↦ rw (has, live, pin, tree, over, resume_plan) retire_chain-Keeps
                  | inr on ↦ rw (has, live, pin, tree, on, resume_plan) same
                ]
                | inr gone ↦ rw (has, live, pin, gone, resume_plan) retire_gone-Keeps
              ]
      ]
    ]
  ]
    where
      same : Keeps kind fid s s
      same = (omega arith, λ e. e)

-- What a pick owes: without a candidate, less work than `n`.
abbrev pub Owes : ℕ → Option Candidate × Store → Type 0
Owes n (none, s) = work s < n
Owes n (some c, s) = Unit

after_plan-Owes :
    (n : ℕ) (w : World) (kind : FindingJobKind) (f : Finding) (j : Job)
    (rest : Store → Option Candidate × Store)
    → ((t : Store) → left kind f.id t ≡ true → work t ≤ n → Owes n (rest t))
    → (r : Resumable × Store) → left kind f.id r.1 ≡ true
    → work r.1 ≤ n
    → Owes n (after_plan w kind f j rest r)
after_plan-Owes n w kind f j rest h (resume p, s) e le = tt
after_plan-Owes n w kind f j rest h (refused, s) e le = h s e le
after_plan-Owes n w kind f j rest h (gave_up, s) e le =
    counted (count_given_up_chain kind f.id j.id (w.report j) w.now s)
      (count_given_up_chain-Counts kind f.id j.id (w.report j) w.now s e)
  where
    counted :
        (r : Bool × Store)
        → Counts kind f.id (work s) r
        → Owes n (if r.0 then (none, r.1) else rest r.1)
    counted (true, t) c = omega (arith, c, le)
    counted (false, t) c = h t c.1 (omega (arith, c.0, le))

pub pick_among-Owes :
    (n : ℕ) (w : World) (kind : FindingJobKind) (f : Finding) (js : List Job) (s : Store)
    → left kind f.id s ≡ true
    → work s ≤ n
    → Owes n (pick_among w run kind f js s)
unfolding pick_among
pick_among-Owes n w kind f [] s e le = tt
pick_among-Owes n w kind f (j ∷ js) s e le =
    let rest = pick_among-Owes n w kind f js in
    let plan = resume_plan-Keeps kind f.id w j s in
    elim (Bool-cases (is_for kind f j)) [
      | inl t ↦
          rw (t, pick_among)
            (after_plan-Owes n w kind f j (pick_among w run kind f js) rest (resume_plan w run j s)
              (plan.1 e) (omega (arith, plan.0, le)))
      | inr t ↦ rw (t, pick_among) (rest s e le)
    ]
