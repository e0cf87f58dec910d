-- ===== src/Store/Findings/Race.antt =====
-- Verdicts and claims of hunter-rs/src/store.rs that race for one finding.
use bug_hunter.Prelude.{
  ℕ, ◌≡◌, refl, sym, ◌∙◌, ◌≢◌, false, List, [], ◌∷◌, String, arith, inl, inr, Bool-cases,
}
use bug_hunter.Prelude.Tables.{exists_where, update_where}
use bug_hunter.Domain.Status.{FindingStatus, status_eq→≡}
use bug_hunter.Store.Rows.{Finding, Store}
use bug_hunter.Store.Findings.{has_status, with_verdict, claim_in_progress, set_verdict_if}

has_status-ne :
    (fid : ℕ) (from to : FindingStatus) (f : Finding)
    → to ≢ from
    → f.status ≡ to
    → has_status fid from f ≡ false
has_status-ne fid from to f ne e = elim (Bool-cases (has_status fid from f)) [
  | inl t ↦ absurd (ne (sym e ∙ status_eq→≡ f.status from (ground arith)))
  | inr t ↦ t
]

-- Once every row at `from` has been moved to another status, no row at `from` is left.
pub exists_where-moved :
    (fid : ℕ) (from to : FindingStatus) (g : Finding → Finding) (fs : List Finding)
    → to ≢ from
    → ((f : Finding) → (g f).status ≡ to)
    → exists_where (has_status fid from) (update_where (has_status fid from) g fs) ≡ false
exists_where-moved fid from to g [] ne h = refl
exists_where-moved fid from to g (f ∷ fs) ne h =
    let rest = exists_where-moved fid from to g fs ne h in
    elim (Bool-cases (has_status fid from f)) [
      | inl t ↦ rw (t, has_status-ne fid from to (g f) ne (h f)) rest
      | inr t ↦ rw (t, t) rest
    ]

-- A verdict on a finding at status `from` and a claim of it from `from` exclude one another: after
-- a claim to another status the verdict is refused and changes nothing, and after a verdict of
-- another status the claim is refused.
pub claim-verdict_exclusive :
    (fid : ℕ) (from to st : FindingStatus) (reason : String) (now later : ℕ) (s : Store)
    → to ≢ from
    → st ≢ from
    → (let s' = (claim_in_progress fid from to now s).1 in
        set_verdict_if fid from st reason later s' ≡ (false, s'))
      × (let (won, s') = set_verdict_if fid from st reason now s in
          (claim_in_progress fid from to later s').0 ≡ false)
unfolding claim_in_progress set_verdict_if
claim-verdict_exclusive fid from to st reason now later s ne ne' = (
  rw (
    exists_where-moved fid from to (λ f. record f { status = to; updated_at = now }) s.findings ne
        (λ f. refl),
    set_verdict_if,
  ),
  elim (Bool-cases (exists_where (has_status fid from) s.findings)) [
    | inl t ↦
        rw (t, set_verdict_if)
          (exists_where-moved fid from st (with_verdict st reason now) s.findings ne' (λ f. refl))
    | inr t ↦ rw (t, set_verdict_if) t
  ],
)
