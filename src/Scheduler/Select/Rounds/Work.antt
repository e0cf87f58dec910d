-- ===== src/Scheduler/Select/Rounds/Work.antt =====
-- What is left for the finding tiers of `select` in hunter-rs/src/scheduler.rs, as a number.
use bug_hunter.Prelude.{ℕ, ◌+◌, ◌≤◌, ◌≡◌, Bool, true, not, ◌&&◌, ◌||◌, ◌==◌, arith}
use bug_hunter.Prelude.Tables.{exists_where, count_where, count-update_where, exists_where-kept}
use bug_hunter.Domain.Status.{rechecking, queued, fixing, status_eq}
use bug_hunter.Domain.Kinds.{FindingJobKind, fix, engage, harvest, recheck}
use bug_hunter.Store.Rows.{Finding, PrState, Store, is_some}
use bug_hunter.Store.Findings.{has_id, update_findings, update_pr}

-- A finding whose status a tier picks up, or that goes back to one when its claim is released.
abbrev pub active : Finding → Bool
active f = status_eq f.status rechecking || status_eq f.status queued || status_eq f.status fixing

abbrev pub has_attention : PrState → Bool
has_attention p = is_some p.needs_attention

abbrev pub unharvested : PrState → Bool
unharvested p = not (is_some p.harvested_at)

-- The active findings, the flagged PR rows, and the PR rows that no harvest has stamped.
unfoldable pub work : Store → ℕ
work s =
    count_where active s.findings
    + (count_where has_attention s.pr_states + count_where unharvested s.pr_states)

-- The row that keeps a finding in the tier of a job kind.
unfoldable pub left : FindingJobKind → ℕ → Store → Bool
left engage fid s = exists_where (λ p. p.finding_id == fid && has_attention p) s.pr_states
left harvest fid s = exists_where (λ p. p.finding_id == fid && unharvested p) s.pr_states
left _ fid s = exists_where (λ f. has_id fid f && active f) s.findings

-- A write that leaves no more work, and what there is for a finding.
abbrev pub Keeps : FindingJobKind → ℕ → (s s' : Store) → Type 0
Keeps kind fid s s' = (work s' ≤ work s) × (left kind fid s ≡ true → left kind fid s' ≡ true)

pub Keeps-trans :
    (kind : FindingJobKind) (fid : ℕ) (s t u : Store)
    → Keeps kind fid s t
    → Keeps kind fid t u
    → Keeps kind fid s u
Keeps-trans kind fid s t u a b = (omega (arith, a.0, b.0), λ e. b.1 (a.1 e))

-- Two stores with the same findings and PR rows.
pub same_rows-Keeps :
    (kind : FindingJobKind) (fid : ℕ) (s s' : Store)
    → s'.findings ≡ s.findings
    → s'.pr_states ≡ s.pr_states
    → Keeps kind fid s s'
unfolding work left
same_rows-Keeps engage fid s s' e q = rw (e, q) (omega arith, λ h. h)
same_rows-Keeps harvest fid s s' e q = rw (e, q) (omega arith, λ h. h)
same_rows-Keeps fix fid s s' e q = rw (e, q) (omega arith, λ h. h)
same_rows-Keeps recheck fid s s' e q = rw (e, q) (omega arith, λ h. h)

module _ (kind : FindingJobKind) (fid : ℕ) (s : Store) where
  pub update_findings-Keeps :
      (p : Finding → Bool) (g : Finding → Finding)
      → ((f : Finding) → p f ≡ true → ((g f).id ≡ f.id) × (active (g f) ≡ active f))
      → Keeps kind fid s (update_findings p g s)
  unfolding work left
  update_findings-Keeps p g same = (
    omega (arith, count-update_where p active g s.findings λ f t u. ground (arith, same f t)),
    findings_left kind,
  )
    where
      findings_left :
          (k : FindingJobKind) → left k fid s ≡ true → left k fid (update_findings p g s) ≡ true
      findings_left engage e = e
      findings_left harvest e = e
      findings_left fix e =
          exists_where-kept p (λ f. has_id fid f && active f) g s.findings
            (λ f t u. ground (arith, same f t)) e
      findings_left recheck e =
          exists_where-kept p (λ f. has_id fid f && active f) g s.findings
            (λ f t u. ground (arith, same f t)) e

  pub update_pr-Keeps :
      (id : ℕ) (g : PrState → PrState)
      → ((p : PrState)
          → ((g p).finding_id ≡ p.finding_id)
            × (has_attention (g p) ≡ has_attention p)
            × (unharvested (g p) ≡ unharvested p))
      → Keeps kind fid s (update_pr id g s)
  unfolding work left
  update_pr-Keeps id g same = (
    omega (
      arith,
      count-update_where (λ p. p.finding_id == id) has_attention g s.pr_states
          λ p t u. ground (arith, same p),
      count-update_where (λ p. p.finding_id == id) unharvested g s.pr_states
          λ p t u. ground (arith, same p),
    ),
    rows_left kind,
  )
    where
      rows_left : (k : FindingJobKind) → left k fid s ≡ true → left k fid (update_pr id g s) ≡ true
      rows_left engage e =
          exists_where-kept (λ p. p.finding_id == id) (λ p. p.finding_id == fid && has_attention p)
            g s.pr_states (λ p t u. ground (arith, same p)) e
      rows_left harvest e =
          exists_where-kept (λ p. p.finding_id == id) (λ p. p.finding_id == fid && unharvested p) g
            s.pr_states (λ p t u. ground (arith, same p)) e
      rows_left fix e = e
      rows_left recheck e = e
