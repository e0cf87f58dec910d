-- ===== src/Scheduler/Fix/Moves.antt =====
-- How the statements that `record_fix_outcome` of hunter-rs/src/scheduler.rs makes move a finding.

use bug_hunter.Prelude.{
  ℕ, ◌≡◌, refl, ◌∙◌, ap, Bool, true, false, String, Option, none, some, arith, if◌then◌else◌,
  Bool-cases, Option-cases, inl, inr,
}
use bug_hunter.Prelude.Tables.{
  exists_where, first_where, first_where-update_any, first_where_passes,
}
use bug_hunter.Domain.Status.{
  FindingStatus, queued, fixing, status_eq, BudgetOverride, once, exempt,
}
use bug_hunter.Store.Rows.{Finding, Store, VerdictAnchor}
use bug_hunter.Store.Findings.{
  has_id, has_status, update_findings, get_finding, write_anchor, set_budget_override,
  clear_fix_attempts, block_fix_job, fix_job, held_finding, finalize_in_progress, claim_in_progress,
}
use bug_hunter.Scheduler.Select.GiveUp.{spend_override, release_claim, hold_blocked}
use bug_hunter.Scheduler.Fix.{wind_up}

-- The stored finding has this status.
abbrev pub At : ℕ → FindingStatus → Store → Type 0
At fid st s = (f : Finding) × (get_finding fid s ≡ some f) × (f.status ≡ st)

module _ (fid : ℕ) (st : FindingStatus) (s : Store) (here : At fid st s) where
  pub updated :
      (q : Finding → Bool) (g : Finding → Finding)
      → ((f : Finding) → (g f).id ≡ f.id)
      → get_finding fid (update_findings q g s) ≡ some (if q here.0 then g here.0 else here.0)
  unfolding get_finding
  updated q g h =
      first_where-update_any (has_id fid) q g s.findings (λ f. rw (h f) refl) ∙ rw (here.1)

  pub its_id : has_id fid here.0 ≡ true
  unfolding get_finding
  its_id = first_where_passes (has_id fid) s.findings here.0 here.1

  -- An update that leaves every status as it was.
  pub unmoved :
      (q : Finding → Bool) (g : Finding → Finding)
      → ((f : Finding) → ((g f).id ≡ f.id) × ((g f).status ≡ f.status))
      → At fid st (update_findings q g s)
  unmoved q g h = elim (Bool-cases (q here.0)) [
    | inl t ↦ (g here.0, updated q g (λ f. (h f).0) ∙ rw t, (h here.0).1 ∙ here.2)
    | inr t ↦ (here.0, updated q g (λ f. (h f).0) ∙ rw t, here.2)
  ]

  -- One that gives the finding a status.
  pub moved :
      (to : FindingStatus) (g : Finding → Finding)
      → ((f : Finding) → ((g f).id ≡ f.id) × ((g f).status ≡ to))
      → At fid to (update_findings (has_id fid) g s)
  moved to g h = (g here.0, updated (has_id fid) g (λ f. (h f).0) ∙ rw its_id, (h here.0).1)

-- The status after the claim is released.
abbrev pub released : FindingStatus → FindingStatus
released st = if status_eq st fixing then queued else st

pub release_claim-At :
    (fid now : ℕ) (st : FindingStatus) (s : Store)
    → At fid st s
    → At fid (released st) (release_claim fid now s)
unfolding release_claim finalize_in_progress claim_in_progress
release_claim-At fid now st s here =
    let requeue : Finding → Finding = λ f. record f { status = queued; updated_at = now } in
    let change = updated fid st s here (has_status fid fixing) requeue (λ f. refl) in
    elim (Bool-cases (status_eq st fixing)) [
      | inl t ↦
          let q : has_status fid fixing here.0 ≡ true =
            ground (arith, its_id fid st s here, here.2) in
          rw t (requeue here.0, change ∙ rw q, refl)
      | inr t ↦
          let q : has_status fid fixing here.0 ≡ false = ground (arith, here.2) in
          rw t (here.0, change ∙ rw q, here.2)
    ]

spend_override-At :
    (fid : ℕ) (mode : Option BudgetOverride) (now : ℕ) (st : FindingStatus) (s : Store)
    → At fid st s
    → At fid st (spend_override fid mode now s)
unfolding set_budget_override
spend_override-At fid none now st s here = here
spend_override-At fid (some exempt) now st s here = here
spend_override-At fid (some once) now st s here =
    unmoved fid st s here (has_id fid) _ (λ f. (refl, refl))

pub wind_up-At :
    (fid : ℕ) (mode : Option BudgetOverride) (now : ℕ) (st : FindingStatus) (s : Store)
    → At fid st s
    → At fid (released st) (wind_up fid mode now s)
wind_up-At fid mode now st s here =
    release_claim-At fid now st (spend_override fid mode now s)
      (spend_override-At fid mode now st s here)

pub clear_fix_attempts-At :
    (fid now : ℕ) (st : FindingStatus) (s : Store)
    → At fid st s
    → At fid st (clear_fix_attempts fid now s)
unfolding clear_fix_attempts
clear_fix_attempts-At fid now st s here = unmoved fid st s here (has_id fid) _ (λ f. (refl, refl))

pub write_anchor-At :
    (fid : ℕ) (a : Option VerdictAnchor) (st : FindingStatus) (s : Store)
    → At fid st s
    → At fid st (write_anchor fid a s)
unfolding write_anchor get_finding
write_anchor-At fid none st s here = here
write_anchor-At fid (some a) st s here = here

block_fix_job-findings :
    (fid job : ℕ) (report : String) (now : ℕ) (s s' : Store)
    → block_fix_job fid job report now s ≡ some s'
    → s'.findings ≡ (update_findings (has_id fid) (held_finding now) s).findings
unfolding block_fix_job
block_fix_job-findings fid job report now s s' e =
    elim (Bool-cases (exists_where (fix_job job fid) s.jobs)) [
      | inl j ↦ elim (Bool-cases (exists_where (has_id fid) s.findings)) [
        | inl f ↦ ground arith
        | inr f ↦ ground arith
      ]
      | inr j ↦ ground arith
    ]

block_fix_job-At :
    (fid job : ℕ) (report : String) (now : ℕ) (st : FindingStatus) (s s' : Store)
    → At fid st s
    → block_fix_job fid job report now s ≡ some s'
    → At fid FindingStatus.blocked s'
unfolding get_finding
block_fix_job-At fid job report now st s s' here e =
    let (f, found, status) =
      moved fid st s here FindingStatus.blocked (held_finding now) (λ f. (refl, refl)) in
    (
      f,
      ap (first_where (has_id fid)) (block_fix_job-findings fid job report now s s' e) ∙ found,
      status,
    )

-- A hold that lands leaves the finding blocked; one that does not, queued.
pub hold_blocked-At :
    (fid job : ℕ) (report : String) (now : ℕ) (s : Store)
    → At fid fixing s
    → (let r = hold_blocked fid job report now s in
        At fid (if r.0 then FindingStatus.blocked else queued) r.1)
unfolding hold_blocked
hold_blocked-At fid job report now s here =
    elim (Option-cases (block_fix_job fid job report now s)) [
      | inl refused ↦ rw (refused, hold_blocked) (release_claim-At fid now fixing s here)
      | inr (s', done) ↦
          rw (done, hold_blocked) (block_fix_job-At fid job report now fixing s s' here done)
    ]
