-- ===== src/Scheduler/Select/Tiers.antt =====
-- The tiers of `select` in hunter-rs/src/scheduler.rs, and the findings that they hold.

pub mod Priority
pub mod Oldest
use bug_hunter.Prelude.{ℕ, Bool, true, false, not, ◌&&◌, ◌||◌, List, Option, none, some, ◌==◌, ltb}
use bug_hunter.Prelude.Tables.{rows_where, first_where, sort_by, first?, last?}
use bug_hunter.Domain.Status.{FindingStatus, rechecking, queued, pr_open, merged, closed, status_eq}
use bug_hunter.Domain.Kinds.{FindingJobKind, fix, engage, harvest, recheck}
use bug_hunter.Store.Rows.{Finding, PrState, Store, is_some, coalesce, is_text}
use bug_hunter.Store.Jobs.{optional}

abbrev pub pr_of : ℕ → List PrState → Option PrState
pr_of fid prs = first_where (λ p. p.finding_id == fid) prs

-- `needs_attention IS NOT NULL`.
abbrev pub flagged : List PrState → ℕ → Bool
flagged prs fid = optional (pr_of fid prs) false (λ p. is_some p.needs_attention)

-- `harvested_at IS NULL AND (status = merged OR (state = 'CLOSED' AND status = closed))`.
abbrev pub pending : List PrState → ℕ → FindingStatus → Bool
pending prs fid st = optional (pr_of fid prs) false λ p.
    not (is_some p.harvested_at)
    && (status_eq st merged || (is_text p.state "CLOSED" && status_eq st closed))

-- The findings of a tier, by its job kind.
abbrev pub in_tier : FindingJobKind → List PrState → ℕ → FindingStatus → Bool
in_tier engage prs fid st = status_eq st pr_open && flagged prs fid
in_tier harvest prs fid st = pending prs fid st
in_tier recheck prs fid st = status_eq st rechecking
in_tier fix prs fid st = status_eq st queued

abbrev pub newer_finding : Finding → Finding → Bool
newer_finding a b = ltb b.id a.id

-- None before Some, as SQLite's NULL and Rust's `Option` sort.
abbrev pub opt_less : Option ℕ → Option ℕ → Bool
opt_less none none = false
opt_less none (some b) = true
opt_less (some a) none = false
opt_less (some a) (some b) = ltb a b

-- The time by which a tier is sorted; those of a plain status are by id alone.
abbrev pub sort_key : FindingJobKind → List PrState → Finding → Option ℕ
sort_key engage prs f = optional (pr_of f.id prs) none (λ p. coalesce p.attention_since p.synced_at)
sort_key harvest prs f = optional (pr_of f.id prs) none (λ p. p.synced_at)
sort_key _ prs f = none

abbrev pub of_force : Option ℕ → Finding → Bool
of_force none f = true
of_force (some rid) f = f.repo_id == rid

-- A tier's findings: by time, oldest first, and among equals by id, newest first.
unfoldable pub tier : FindingJobKind → Option ℕ → Store → List Finding
tier kind force s = rows_where (of_force force) (
    sort_by (λ a b. opt_less (sort_key kind s.pr_states a) (sort_key kind s.pr_states b))
      (sort_by newer_finding (rows_where (λ f. in_tier kind s.pr_states f.id f.status) s.findings)))

abbrev pub overridden : Finding → Bool
overridden f = is_some f.budget_override

abbrev pub with_kind : FindingJobKind → Option Finding → Option (FindingJobKind × Finding)
with_kind kind none = none
with_kind kind (some f) = some (kind, f)

-- A budget-overridden finding of any tier first, in tier order; then the oldest of the first tier
-- that is not empty. The two plain tiers are newest first, so their oldest is the last.
unfoldable pub choose : (FindingJobKind → List Finding) → Option (FindingJobKind × Finding)
choose listed = coalesce (with_kind engage (first_where overridden (listed engage))) (
    coalesce (with_kind harvest (first_where overridden (listed harvest))) (
      coalesce (with_kind recheck (first_where overridden (listed recheck))) (
        coalesce (with_kind fix (first_where overridden (listed fix))) (
          coalesce (with_kind engage (first? (listed engage))) (
            coalesce (with_kind harvest (first? (listed harvest))) (
              coalesce (with_kind recheck (last? (listed recheck)))
                (with_kind fix (last? (listed fix)))))))))

unfoldable pub target : Option ℕ → Store → Option (FindingJobKind × Finding)
unfolding choose tier
target force s = choose (λ k. tier k force s)
