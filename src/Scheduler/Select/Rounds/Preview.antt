-- ===== src/Scheduler/Select/Rounds/Preview.antt =====
-- `preview_next` of hunter-rs/src/scheduler.rs: its writes and its rounds.
use bug_hunter.Prelude.{
  ℕ, suc, ◌≡◌, refl, sym, subst, ◌≢◌, true, List, [], ◌∷◌, String, Option, none, some, arith,
  Bool-cases, Option-cases, inl, inr,
}
use bug_hunter.Domain.Kinds.{FindingJobKind}
use bug_hunter.Store.Rows.{Finding, Job, Store, is_some}
use bug_hunter.Store.Jobs.{list_resumable_jobs}
use bug_hunter.Scheduler.Select.Tiers.{target}
use bug_hunter.Scheduler.Select.Resume.{
  World, preview, Candidate, Resumable, resume, gave_up, refused, resume_plan, pick_among,
  finding_pick, resume_among, pick_resume, is_for, of_force_job, after_plan, or_next,
}
use bug_hunter.Scheduler.Select.Rounds.{
  Selection, out_of_fuel, select, round, background, resolve_force, finish,
}

-- What a preview makes of a suspension: the store as it was, and never a given-up chain.
abbrev Quiet : Store → Resumable × Store → Type 0
Quiet s r = (r.1 ≡ s) × (r.0 ≢ gave_up)

resume_plan-Quiet : (w : World) (j : Job) (s : Store) → Quiet s (resume_plan w preview j s)
unfolding resume_plan
resume_plan-Quiet w j s = ground arith

-- A pick that left the store as it was, and that is there.
abbrev Found : Store → Option Candidate × Store → Type 0
Found s r = (r.1 ≡ s) × (is_some r.0 ≡ true)

after_plan-Found :
    (w : World) (kind : FindingJobKind) (f : Finding) (j : Job)
    (rest : Store → Option Candidate × Store) (s : Store) (r : Resumable × Store)
    → Quiet s r
    → Found s (rest s)
    → Found s (after_plan w kind f j rest r)
after_plan-Found w kind f j rest s (resume p, s') q g = (q.0, refl)
after_plan-Found w kind f j rest s (gave_up, s') q g = absurd (q.1 refl)
after_plan-Found w kind f j rest s (refused, s') q g = subst (λ t. Found s (rest t)) (sym q.0) g

pick_among-Found :
    (w : World) (kind : FindingJobKind) (f : Finding) (js : List Job) (s : Store)
    → Found s (pick_among w preview kind f js s)
unfolding pick_among
pick_among-Found w kind f [] s = (refl, refl)
pick_among-Found w kind f (j ∷ js) s =
    let rest = pick_among-Found w kind f js s in
    elim (Bool-cases (is_for kind f j)) [
      | inl e ↦
          rw (e, pick_among)
            (after_plan-Found w kind f j (pick_among w preview kind f js) s
              (resume_plan w preview j s) (resume_plan-Quiet w j s) rest)
      | inr e ↦ rw (e, pick_among) rest
    ]

or_next_unchanged :
    (rest : Store → Option Candidate × Store) (s : Store) (r : Resumable × Store)
    → Quiet s r
    → (rest s).1 ≡ s
    → (or_next rest r).1 ≡ s
or_next_unchanged rest s (resume p, s') q g = q.0
or_next_unchanged rest s (gave_up, s') q g = absurd (q.1 refl)
or_next_unchanged rest s (refused, s') q g = subst (λ t. (rest t).1 ≡ s) (sym q.0) g

resume_among_unchanged :
    (w : World) (force : Option ℕ) (js : List Job) (s : Store)
    → (resume_among w preview force js s).1 ≡ s
unfolding resume_among
resume_among_unchanged w force [] s = refl
resume_among_unchanged w force (j ∷ js) s =
    let rest = resume_among_unchanged w force js s in
    elim (Bool-cases (of_force_job force j)) [
      | inl e ↦
          rw (e, resume_among)
            (or_next_unchanged (resume_among w preview force js) s (resume_plan w preview j s)
              (resume_plan-Quiet w j s) rest)
      | inr e ↦ rw (e, resume_among) rest
    ]

background_unchanged :
    (w : World) (force : Option ℕ) (s : Store) → (background w preview force s).1 ≡ s
unfolding background pick_resume
background_unchanged w force s =
    let quiet = resume_among_unchanged w force (list_resumable_jobs s) s in
    elim (Bool-cases (is_some (pick_resume w preview force s).0)) [
      | inl e ↦ rw (e, background) quiet
      | inr e ↦ rw (e, background) quiet
    ]

round-preview :
    (w : World) (force : Option ℕ) (s : Store)
    → ((round w preview force s).1 ≡ s) × (is_some (round w preview force s).0 ≡ true)
unfolding round finding_pick
round-preview w force s = elim (Option-cases (target force s)) [
  | inl none_left ↦ rw (none_left, round) (background_unchanged w force s, refl)
  | inr (t, found) ↦
      let (quiet, there) = pick_among-Found w t.0 t.1 (list_resumable_jobs s) s in
      rw (found, round) (quiet, rw there)
]

finish-done :
    (again : Store → Selection × Store) (s : Store) (r : Option (Option Candidate) × Store)
    → r.1 ≡ s
    → is_some r.0 ≡ true
    → ((finish again r).1 ≡ s) × ((finish again r).0 ≢ out_of_fuel)
finish-done again s (some c, s') e h = (e, λ q. cc)
finish-done again s (none, s') e h = cc

-- A preview of the selection leaves the database as it was, and has its answer after one round:
-- with any fuel above zero it does not run out.
pub select-preview :
    (fuel : ℕ) (w : World) (force_repo : Option String) (s : Store)
    → ((select (suc fuel) w preview force_repo s).1 ≡ s)
      × ((select (suc fuel) w preview force_repo s).0 ≢ out_of_fuel)
unfolding select
select-preview fuel w force_repo s = elim (Option-cases (resolve_force force_repo s)) [
  | inl unknown ↦ rw (unknown, select) (refl, λ q. cc)
  | inr (force, known) ↦
      let (quiet, answered) = round-preview w force s in
      rw (known, select)
        (finish-done (select fuel w preview force_repo) s (round w preview force s) quiet answered)
]
