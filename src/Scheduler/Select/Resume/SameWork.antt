-- ===== src/Scheduler/Select/Resume/SameWork.antt =====
-- `finding_pick` of hunter-rs/src/scheduler.rs: what the picked candidate works on.
use bug_hunter.Prelude.{
  ℕ, ◌≡◌, refl, ◌∙◌, ap, Bool, true, false, ◌&&◌, List, [], ◌∷◌, Option, none, some, arith,
  Bool-cases, Option-cases, inl, inr, ==_iff, if◌then◌else◌,
}
use bug_hunter.Domain.Kinds.{JobKind, FindingJobKind, repo, finding, kind_eq, finding_kind_eq}
use bug_hunter.Store.Rows.{Finding, Job, Store, is_id}
use bug_hunter.Store.Jobs.{get_repo_by_id, pinned_sha, list_resumable_jobs}
use bug_hunter.Store.Jobs.Chain.{resume_origin_job}
use bug_hunter.Scheduler.Select.GiveUp.{count_given_up_chain}
use bug_hunter.Scheduler.Select.Resume.{
  World, Pick, run, preview, Resumable, resume, gave_up, refused, is_given_up, plan_of,
  retire_chain, resume_plan, Candidate, scan, on_finding, continue, finding_label, is_for,
  after_plan, pick_among, finding_pick,
}

-- A plan, if there is one, continues this job.
abbrev PlanOf : Job → Resumable × Store → Type 0
PlanOf j (resume p, s) =
    (p.kind ≡ j.kind) × (p.finding_id ≡ j.finding_id) × (p.predecessor_id ≡ j.id)
PlanOf j (_, s) = Unit

module _ (w : World) (j : Job) (s : Store) where
  retire_chain-PlanOf : (mode : Pick) → PlanOf j (retire_chain w mode j s)
  unfolding retire_chain
  retire_chain-PlanOf run = tt
  retire_chain-PlanOf preview = tt

  resume_plan-PlanOf : (mode : Pick) → PlanOf j (resume_plan w mode j s)
  unfolding resume_plan plan_of
  resume_plan-PlanOf mode = elim (Option-cases j.session_file) [
    | inl gone ↦ rw (gone, resume_plan) tt
    | inr (session, has) ↦ elim (Option-cases (get_repo_by_id j.repo_id s)) [
      | inl gone ↦ rw (has, gone, resume_plan) tt
      | inr (r, live) ↦ elim (Option-cases (pinned_sha j.id s)) [
        | inl gone ↦ rw (has, live, gone, resume_plan) tt
        | inr (sha, pin) ↦
            elim (Bool-cases (
              w.has_tree (resume_origin_job j.id s)
              && w.in_session_dir (resume_origin_job j.id s) session)) [
                | inl tree ↦ elim (Bool-cases (is_given_up w j s)) [
                  | inl over ↦
                      rw (has, live, pin, tree, over, resume_plan) (retire_chain-PlanOf mode)
                  | inr on ↦ rw (has, live, pin, tree, on, resume_plan) (refl, refl, refl)
                ]
                | inr gone ↦ rw (has, live, pin, gone, resume_plan) tt
              ]
      ]
    ]
  ]

-- A candidate for this job kind on this finding, with its label and override.
abbrev pub WorksOn : FindingJobKind → Finding → Option Candidate → Type 0
WorksOn kind f none = Unit
WorksOn kind f (some (scan k rid label)) = ⊥
WorksOn kind f (some (on_finding k fid rid label mode)) =
    (k ≡ kind) × (fid ≡ f.id) × (rid ≡ f.repo_id) × (mode ≡ f.budget_override)
WorksOn kind f (some (continue label mode p)) =
    (p.kind ≡ finding kind)
    × (p.finding_id ≡ some f.id)
    × (label ≡ some (finding_label f))
    × (mode ≡ f.budget_override)

finding_kind_eq→≡ : (a b : FindingJobKind) → finding_kind_eq a b ≡ true → a ≡ b
finding_kind_eq→≡ a b h = ground arith

is_kind : (k : JobKind) (kind : FindingJobKind) → kind_eq k (finding kind) ≡ true → k ≡ finding kind
is_kind (repo r) kind h = cc
is_kind (finding a) kind h = ap finding (finding_kind_eq→≡ a kind h)

is_its_id : (o : Option ℕ) (n : ℕ) → is_id o n ≡ true → o ≡ some n
is_its_id none n h = cc
is_its_id (some m) n h = ap some ((==_iff m n).0 h)

module _ (w : World) (mode : Pick) (kind : FindingJobKind) (f : Finding) where
  -- A plan for a job on this finding and of this kind; otherwise what the loop goes on to pick.
  after_plan-WorksOn :
      (j : Job) (rest : Store → Option Candidate × Store)
      → is_for kind f j ≡ true
      → ((t : Store) → WorksOn kind f (rest t).0)
      → (r : Resumable × Store) → PlanOf j r
      → WorksOn kind f (after_plan w kind f j rest r).0
  after_plan-WorksOn j rest e h (resume p, s) (same_kind, same_finding, same_job) = (
    same_kind ∙ is_kind j.kind kind (ground arith),
    same_finding ∙ is_its_id j.finding_id f.id (ground arith),
    refl,
    refl,
  )
  after_plan-WorksOn j rest e h (refused, s) p = h s
  after_plan-WorksOn j rest e h (gave_up, s) p =
      counted (count_given_up_chain kind f.id j.id (w.report j) w.now s)
    where
      counted : (r : Bool × Store) → WorksOn kind f (if r.0 then (none, r.1) else rest r.1).0
      counted (true, t) = tt
      counted (false, t) = h t

  pick_among-WorksOn :
      (js : List Job) (s : Store) → WorksOn kind f (pick_among w mode kind f js s).0
  unfolding pick_among
  pick_among-WorksOn [] s = (refl, refl, refl, refl)
  pick_among-WorksOn (j ∷ js) s =
      let rest = pick_among-WorksOn js in
      elim (Bool-cases (is_for kind f j)) [
        | inl t ↦
            rw (t, pick_among)
              (after_plan-WorksOn j (pick_among w mode kind f js) t rest (resume_plan w mode j s)
                (resume_plan-PlanOf w j s mode))
        | inr t ↦ rw (t, pick_among) (rest s)
      ]

  -- A pick for a finding, run or preview, is work of its tier's kind on that very finding, started
  -- fresh or continued, with the finding's budget override.
  pub finding_pick-WorksOn : (s : Store) → WorksOn kind f (finding_pick w mode kind f s).0
  unfolding finding_pick
  finding_pick-WorksOn s = pick_among-WorksOn (list_resumable_jobs s) s
