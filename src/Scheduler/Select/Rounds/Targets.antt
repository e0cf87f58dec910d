-- ===== src/Scheduler/Select/Rounds/Targets.antt =====
-- The tiers of `select` in hunter-rs/src/scheduler.rs, and the work there is for their findings.
use bug_hunter.Prelude.{
  ℕ, ◌≡◌, refl, true, ◌&&◌, Option, none, some, ◌==◌, arith, Option-cases, inl, inr, ==_iff,
}
use bug_hunter.Prelude.Tables.{
  All, All-rows_where_keep, All-sort_by, All-exists, first_where, first_where_sound,
  first_where-exists, first?, first?-All, last?, last?-All, exists_where, exists_where-map,
  All-where,
}
use bug_hunter.Domain.Status.{queued, rechecking, status_eq, status_eq_refl, status_eq→≡}
use bug_hunter.Domain.Kinds.{FindingJobKind, fix, engage, harvest, recheck}
use bug_hunter.Store.Rows.{Finding, Store, coalesce}
use bug_hunter.Store.Findings.{has_id}
use bug_hunter.Scheduler.Select.Tiers.{pr_of, in_tier, overridden, tier, with_kind, target}
use bug_hunter.Scheduler.Select.Rounds.Work.{active, has_attention, unharvested, left}

-- A target of the tiers has its row in the tables.
abbrev pub Fine : Store → Option (FindingJobKind × Finding) → Type 0
Fine s none = Unit
Fine s (some (kind, f)) = left kind f.id s ≡ true

coalesce-Fine :
    (s : Store) (a b : Option (FindingJobKind × Finding))
    → Fine s a
    → Fine s b
    → Fine s (coalesce a b)
coalesce-Fine s none b p q = q
coalesce-Fine s (some x) b p q = p

with_kind-Fine :
    (s : Store) (kind : FindingJobKind) (o : Option Finding)
    → ((f : Finding) → o ≡ some f → left kind f.id s ≡ true)
    → Fine s (with_kind kind o)
with_kind-Fine s kind none h = tt
with_kind-Fine s kind (some f) h = h f refl

module _ (s : Store) where
  -- The tests of the tiers find the row that they are about.
  findings_left :
      All
        (λ f. exists_where (λ g. has_id f.id g && status_eq g.status f.status) s.findings ≡ true)
        s.findings
  findings_left =
      All-exists (λ f g. has_id f.id g && status_eq g.status f.status) s.findings
        λ f. rw ((==_iff f.id f.id).1 refl) (status_eq_refl f.status)

  tier_left :
      (kind : FindingJobKind) (f : Finding)
      → exists_where (λ g. has_id f.id g && status_eq g.status f.status) s.findings ≡ true
      → in_tier kind s.pr_states f.id f.status ≡ true
      → left kind f.id s ≡ true
  unfolding left
  tier_left engage f e t = elim (Option-cases (pr_of f.id s.pr_states)) [
    | inl gone ↦ ground arith
    | inr (p, found) ↦
        first_where-exists (λ q. q.finding_id == f.id) has_attention s.pr_states p found
          (ground arith)
  ]
  tier_left harvest f e t = elim (Option-cases (pr_of f.id s.pr_states)) [
    | inl gone ↦ ground arith
    | inr (p, found) ↦
        first_where-exists (λ q. q.finding_id == f.id) unharvested s.pr_states p found
          (ground arith)
  ]
  tier_left fix f e t =
      exists_where-map (λ g. has_id f.id g && status_eq g.status f.status)
        (λ g. has_id f.id g && active g) s.findings
        (λ g q. ground (arith, status_eq→≡ g.status f.status, status_eq→≡ f.status queued)) e
  tier_left recheck f e t =
      exists_where-map (λ g. has_id f.id g && status_eq g.status f.status)
        (λ g. has_id f.id g && active g) s.findings
        (λ g q. ground (arith, status_eq→≡ g.status f.status, status_eq→≡ f.status rechecking)) e

  tier-left :
      (kind : FindingJobKind) (force : Option ℕ)
      → All (λ f. left kind f.id s ≡ true) (tier kind force s)
  unfolding tier
  tier-left kind force = All-rows_where_keep _ _ _ (
      All-sort_by _ _ _ (
        All-sort_by _ _ _ (
          All-where _ _ (λ f. in_tier kind s.pr_states f.id f.status) s.findings (tier_left kind)
            findings_left)))

  pub target-Fine : (force : Option ℕ) → Fine s (target force s)
  unfolding target
  target-Fine force = coalesce-Fine s _ _ (overridden_one engage) (
      coalesce-Fine s _ _ (overridden_one harvest) (
        coalesce-Fine s _ _ (overridden_one recheck) (
          coalesce-Fine s _ _ (overridden_one fix) (
            coalesce-Fine s _ _ (first_one engage) (
              coalesce-Fine s _ _ (first_one harvest)
                (coalesce-Fine s _ _ (last_one recheck) (last_one fix)))))))
    where
      Left : FindingJobKind → Finding → Type 0
      Left kind f = left kind f.id s ≡ true

      overridden_one :
          (kind : FindingJobKind)
          → Fine s (with_kind kind (first_where overridden (tier kind force s)))
      overridden_one kind = with_kind-Fine s kind _ λ f e.
          (first_where_sound (Left kind) overridden (tier kind force s) f (tier-left kind force)
            e).0

      first_one : (kind : FindingJobKind) → Fine s (with_kind kind (first? (tier kind force s)))
      first_one kind =
          with_kind-Fine s kind _
            λ f e. first?-All (Left kind) (tier kind force s) f (tier-left kind force) e

      last_one : (kind : FindingJobKind) → Fine s (with_kind kind (last? (tier kind force s)))
      last_one kind =
          with_kind-Fine s kind _
            λ f e. last?-All (Left kind) (tier kind force s) f (tier-left kind force) e
