-- ===== src/Scheduler/Select/Rounds/Progress.antt =====
-- `count_given_up_chain` of hunter-rs/src/scheduler.rs: the work it leaves for the finding tiers.
use bug_hunter.Prelude.{
  if◌then◌else◌, ◌≤◌, ℕ, ◌<◌, ◌≡◌, refl, Bool, true, false, String, none, some, ◌==◌, ltb, subst,
  arith, Bool-cases, Option-cases, inl, inr,
}
use bug_hunter.Prelude.Tables.{
  exists_where, update_where, count-update_where, count-update_where_less,
}
use bug_hunter.Domain.Status.{new}
use bug_hunter.Domain.Kinds.{FindingJobKind, fix, engage, harvest, recheck}
use bug_hunter.Store.Rows.{Finding, PrState, Store}
use bug_hunter.Store.Findings.{
  has_id, update_findings, update_pr, set_finding_status, record_recheck_attempt,
  clear_recheck_attempts, record_fix_attempt, block_fix_job, finalize_in_progress,
  record_harvest_attempt, clear_harvest_attempts, mark_pr_harvested, set_attention_aside, fix_job,
  held_job, held_finding,
}
use bug_hunter.Scheduler.Select.GiveUp.{
  max_consecutive_same_failure, handle_recheck_failure, release_claim, hold_blocked, held,
  hold_failed, is_held, record_fix_failure, record_harvest_failure, chain_gave_up,
  count_given_up_chain,
}
use bug_hunter.Scheduler.Select.Rounds.Work.{
  active, has_attention, unharvested, work, left, Keeps, Keeps-trans, update_findings-Keeps,
  update_pr-Keeps,
}

findings_less :
    (fid : ℕ) (g : Finding → Finding) (s : Store)
    → ((f : Finding) → active (g f) ≡ false)
    → left fix fid s ≡ true
    → work (update_findings (has_id fid) g s) < work s
unfolding work left
findings_less fid g s off e =
    omega (arith, count-update_where_less (has_id fid) active g s.findings (λ f t. off f) e)

flags_less :
    (fid : ℕ) (g : PrState → PrState) (s : Store)
    → ((p : PrState) → (has_attention (g p) ≡ false) × (unharvested (g p) ≡ unharvested p))
    → left engage fid s ≡ true
    → work (update_pr fid g s) < work s
unfolding work left
flags_less fid g s off e = omega (
  arith,
  count-update_where_less (λ p. p.finding_id == fid) has_attention g s.pr_states (λ p t. (off p).0)
      e,
  count-update_where (λ p. p.finding_id == fid) unharvested g s.pr_states
      λ p t u. ground (arith, off p),
)

harvests_less :
    (fid : ℕ) (g : PrState → PrState) (s : Store)
    → ((p : PrState) → (has_attention (g p) ≡ has_attention p) × (unharvested (g p) ≡ false))
    → left harvest fid s ≡ true
    → work (update_pr fid g s) < work s
unfolding work left
harvests_less fid g s off e = omega (
  arith,
  count-update_where_less (λ p. p.finding_id == fid) unharvested g s.pr_states (λ p t. (off p).1) e,
  count-update_where (λ p. p.finding_id == fid) has_attention g s.pr_states
      λ p t u. ground (arith, off p),
)

-- What a count owes before its finding is known to have work.
abbrev Counted : FindingJobKind → ℕ → Store → Bool × Store → Type 0
Counted kind fid s (true, s') = work s' < work s
Counted kind fid s (false, s') = Keeps kind fid s s'

module _ (fid : ℕ) (why : String) (now : ℕ) (s : Store) where
  recheck_attempt-Keeps : Keeps recheck fid s (record_recheck_attempt fid why now s).1
  unfolding record_recheck_attempt
  recheck_attempt-Keeps = update_findings-Keeps recheck fid s _ _ (λ f t. (refl, refl))

  fix_attempt-Keeps : Keeps fix fid s (record_fix_attempt fid why now s).1
  unfolding record_fix_attempt
  fix_attempt-Keeps = update_findings-Keeps fix fid s _ _ (λ f t. (refl, refl))

  harvest_attempt-Keeps : Keeps harvest fid s (record_harvest_attempt fid why s).1
  unfolding record_harvest_attempt
  harvest_attempt-Keeps = update_pr-Keeps harvest fid s _ _ (λ p. (refl, refl, refl))

  release_claim-Keeps : Keeps fix fid s (release_claim fid now s)
  unfolding release_claim finalize_in_progress
  release_claim-Keeps = update_findings-Keeps fix fid s _ _ (λ f t. (refl, ground arith))

  clear_recheck-Keeps : Keeps recheck fid s (clear_recheck_attempts fid now s)
  unfolding clear_recheck_attempts
  clear_recheck-Keeps = update_findings-Keeps recheck fid s _ _ (λ f t. (refl, refl))

  clear_harvest-Keeps : Keeps harvest fid s (clear_harvest_attempts fid s)
  unfolding clear_harvest_attempts
  clear_harvest-Keeps = update_pr-Keeps harvest fid s _ _ (λ p. (refl, refl, refl))

module _ (fid : ℕ) (why : String) (now : ℕ) (s : Store) where
  recheck_over :
      left recheck fid s ≡ true
      → work (clear_recheck_attempts fid now (set_finding_status fid new now s)) < work s
  unfolding set_finding_status left
  recheck_over e =
      let back : Store = set_finding_status fid new now s in
      omega (
        arith,
        findings_less fid (λ f. record f { status = new; updated_at = now }) s (λ f. refl) e,
        (clear_recheck-Keeps fid why now back).0,
      )

  harvest_over :
      left harvest fid s ≡ true
      → work (clear_harvest_attempts fid (mark_pr_harvested fid now s)) < work s
  unfolding mark_pr_harvested
  harvest_over e =
      let stamped : Store = mark_pr_harvested fid now s in
      omega (
        arith,
        harvests_less fid (λ p. record p { harvested_at = some now }) s (λ p. (refl, refl)) e,
        (clear_harvest-Keeps fid why now stamped).0,
      )

  engage_over : left engage fid s ≡ true → work (set_attention_aside fid now s) < work s
  unfolding set_attention_aside
  engage_over e = flags_less fid _ s (λ p. (refl, refl)) e

-- The streaks: a failure below the limit is only counted.
module _ (fid : ℕ) (why : String) (now : ℕ) (s : Store) where
  handle_recheck_failure-Counted :
      left recheck fid s ≡ true → Counted recheck fid s (handle_recheck_failure fid why none now s)
  unfolding handle_recheck_failure
  handle_recheck_failure-Counted e =
      let counted : Store = (record_recheck_attempt fid why now s).1 in
      let keeps = recheck_attempt-Keeps fid why now s in
      elim (Bool-cases
        (ltb (record_recheck_attempt fid why now s).0 max_consecutive_same_failure)) [
          | inl few ↦ rw (few, handle_recheck_failure) keeps
          | inr many ↦
              rw (many, handle_recheck_failure)
                (omega (arith, keeps.0, recheck_over fid why now counted (keeps.1 e)))
        ]

  record_harvest_failure-Counted :
      left harvest fid s ≡ true → Counted harvest fid s (record_harvest_failure fid why now s)
  unfolding record_harvest_failure
  record_harvest_failure-Counted e =
      let counted : Store = (record_harvest_attempt fid why s).1 in
      let keeps = harvest_attempt-Keeps fid why now s in
      elim (Bool-cases (ltb (record_harvest_attempt fid why s).0 max_consecutive_same_failure)) [
        | inl few ↦ rw (few, record_harvest_failure) keeps
        | inr many ↦
            rw (many, record_harvest_failure)
              (omega (arith, keeps.0, harvest_over fid why now counted (keeps.1 e)))
      ]

abbrev hold_job : (now fid job : ℕ) (report : String) → Store → Store
hold_job now fid job report s = record s {
  jobs = update_where (fix_job job fid) (held_job now report s.jobs) s.jobs;
  findings = update_where (has_id fid) (held_finding now) s.findings;
}

hold_job-less :
    (fid job : ℕ) (report : String) (now : ℕ) (s : Store)
    → left fix fid s ≡ true
    → work (hold_job now fid job report s) < work s
unfolding work
hold_job-less fid job report now s e = findings_less fid (held_finding now) s (λ f. refl) e

block_fix_job-less :
    (fid job : ℕ) (report : String) (now : ℕ) (s put : Store)
    → left fix fid s ≡ true
    → block_fix_job fid job report now s ≡ some put
    → work put < work s
unfolding block_fix_job
block_fix_job-less fid job report now s put e h =
    elim (Bool-cases (exists_where (fix_job job fid) s.jobs)) [
      | inl j ↦ elim (Bool-cases (exists_where (has_id fid) s.findings)) [
        | inl f ↦
            let q : hold_job now fid job report s ≡ put = ground arith in
            subst (λ t. work t < work s) q (hold_job-less fid job report now s e)
        | inr f ↦ ground arith
      ]
      | inr j ↦ ground arith
    ]

-- A hold that fails puts a claimed finding back to `queued`, which is no more work.
hold_blocked-Counted :
    (fid job : ℕ) (report : String) (now : ℕ) (s : Store)
    → left fix fid s ≡ true
    → Counted fix fid s (hold_blocked fid job report now s)
unfolding hold_blocked
hold_blocked-Counted fid job report now s e =
    elim (Option-cases (block_fix_job fid job report now s)) [
      | inl refused ↦ rw (refused, hold_blocked) (release_claim-Keeps fid report now s)
      | inr (put, done) ↦
          rw (done, hold_blocked) (block_fix_job-less fid job report now s put e done)
    ]

record_fix_failure-Counted :
    (fid job : ℕ) (why report : String) (now : ℕ) (s : Store)
    → left fix fid s ≡ true
    → (let r = record_fix_failure fid job why report now s in Counted fix fid s (is_held r.0, r.1))
unfolding record_fix_failure
record_fix_failure-Counted fid job why report now s e =
    let counted : Store = (record_fix_attempt fid why now s).1 in
    let keeps = fix_attempt-Keeps fid why now s in
    elim (Bool-cases (ltb (record_fix_attempt fid why now s).0 max_consecutive_same_failure)) [
      | inl few ↦ rw (few, record_fix_failure) keeps
      | inr many ↦
          rw (many, record_fix_failure)
            (after counted (hold_blocked fid job report now counted) keeps
              (hold_blocked-Counted fid job report now counted (keeps.1 e)))
    ]
  where
    after :
        (t : Store) (r : Bool × Store)
        → Keeps fix fid s t
        → Counted fix fid t r
        → Counted fix fid s (is_held (if r.0 then held else hold_failed), r.1)
    after t (true, u) k c = omega (arith, k.0, c)
    after t (false, u) k c = Keeps-trans fix fid s t u k c

count-Counted :
    (kind : FindingJobKind) (fid job : ℕ) (report : String) (now : ℕ) (s : Store)
    → left kind fid s ≡ true
    → Counted kind fid s (count_given_up_chain kind fid job report now s)
unfolding count_given_up_chain
count-Counted recheck fid job report now s e =
    handle_recheck_failure-Counted fid chain_gave_up now s e
count-Counted fix fid job report now s e =
    record_fix_failure-Counted fid job chain_gave_up report now s e
count-Counted harvest fid job report now s e =
    record_harvest_failure-Counted fid chain_gave_up now s e
count-Counted engage fid job report now s e = engage_over fid chain_gave_up now s e

-- What a count does: less work when it ends the finding's, else no more, and the finding's is left.
abbrev pub Counts : FindingJobKind → ℕ → (n : ℕ) → Bool × Store → Type 0
Counts kind fid n (true, s) = work s < n
Counts kind fid n (false, s) = (work s ≤ n) × (left kind fid s ≡ true)

-- A given-up chain that is counted against a finding with work for its tier leaves less work when
-- the count ends the finding's work, and otherwise no more work and that of the finding still there.
pub count_given_up_chain-Counts :
    (kind : FindingJobKind) (fid job : ℕ) (report : String) (now : ℕ) (s : Store)
    → left kind fid s ≡ true
    → Counts kind fid (work s) (count_given_up_chain kind fid job report now s)
count_given_up_chain-Counts kind fid job report now s e =
    counts (count_given_up_chain kind fid job report now s)
      (count-Counted kind fid job report now s e)
  where
    counts : (r : Bool × Store) → Counted kind fid s r → Counts kind fid (work s) r
    counts (true, t) c = c
    counts (false, t) c = (c.0, c.1 e)
