-- ===== src/Suppression/Lapsed.antt =====
-- When hunter-rs/src/suppression.rs reopens a finding.
use bug_hunter.Prelude.{
  ℕ, Bool, true, false, not, ◌&&◌, String, Option, none, some, List, [], ◌∷◌, ◌==◌, if◌then◌else◌,
  ◌≡◌, ◌≢◌, ◌⊎◌, refl, sym, ◌∙◌, ap, inl, inr, arith, Bool-cases, Option-cases,
}
use bug_hunter.Prelude.Tables.{exists_where, first_where, first_where-exists}
use bug_hunter.Domain.Status.{FindingStatus, new, is_suppressed}
use bug_hunter.Store.Rows.{Finding, Repo, VerdictAnchor, Store}
use bug_hunter.Store.Findings.{
  has_id, update_findings, get_finding, verdict_anchor, reopen_suppressed, write_anchor,
  without_anchor,
}
use bug_hunter.Store.Jobs.{get_repo_by_id, pinned_sha}
use bug_hunter.Scheduler.Fix.Moves.{At, updated, its_id}
use bug_hunter.Suppression.{Git, Changed, changed_since, and_then, lapse, reopen_if_changed}

and_then-some :
    {A B : Type 0} (o : Option A) (f : A → Option B) (b : B)
    → and_then o f ≡ some b
    → (a : A) × (o ≡ some a) × (f a ≡ some b)
and_then-some none f b e = cc
and_then-some (some a) f b e = (a, refl, e)

-- The verdict has lapsed: the finding is suppressed under an anchor, and git does not say that the
-- anchor's files are the same at the commit that the job scanned.
abbrev pub HasLapsed : Git → (repo_id fid : ℕ) → Option ℕ → Store → Type 0
HasLapsed git repo_id fid job s =
    (id : ℕ) × (f : Finding) × (anchor : VerdictAnchor) × (at : String) × (repo : Repo) × (job
      ≡ some id)
    × (get_finding fid s ≡ some f)
    × (is_suppressed f.status ≡ true)
    × (verdict_anchor fid s ≡ some anchor)
    × (pinned_sha id s ≡ some at)
    × (get_repo_by_id repo_id s ≡ some repo)
    × (changed_since git repo.path anchor at ≢ none)

lapse-HasLapsed :
    (git : Git) (repo_id fid : ℕ) (job : Option ℕ) (s : Store)
    (l : Finding × VerdictAnchor × Changed)
    → lapse git repo_id fid job s ≡ some l
    → HasLapsed git repo_id fid job s
unfolding lapse
lapse-HasLapsed git repo_id fid job s l e =
    let (id, on, e) = and_then-some job _ l e in
    let (f, here, e) = and_then-some (get_finding fid s) _ l e in
    elim (Bool-cases (is_suppressed f.status)) [
      | inr n ↦ absurd (ground arith)
      | inl y ↦
          let e = past f.status _ l y e in
          let (anchor, held, e) = and_then-some (verdict_anchor fid s) _ l e in
          let (at, scanned, e) = and_then-some (pinned_sha id s) _ l e in
          let (repo, owns, e) = and_then-some (get_repo_by_id repo_id s) _ l e in
          let (change, moved, e) = and_then-some (changed_since git repo.path anchor at) _ l e in
          (
            id,
            f,
            anchor,
            at,
            repo,
            on,
            here,
            y,
            held,
            scanned,
            owns,
            λ n. let z = sym n ∙ moved in cc,
          )
    ]
  where
    past :
        (st : FindingStatus) (o : Option (Finding × VerdictAnchor × Changed))
        (l : Finding × VerdictAnchor × Changed)
        → is_suppressed st ≡ true
        → (if not (is_suppressed st) then none else o) ≡ some l
        → o ≡ some l
    past st o l y e = ground arith

HasLapsed-lapse :
    (git : Git) (repo_id fid : ℕ) (job : Option ℕ) (s : Store)
    → HasLapsed git repo_id fid job s
    → (l : Finding × VerdictAnchor × Changed) × (lapse git repo_id fid job s ≡ some l)
unfolding lapse
HasLapsed-lapse git repo_id fid job s
      (id, f, anchor, at, repo, on, here, y, held, scanned, owns, moves) =
    elim (Option-cases (changed_since git repo.path anchor at)) [
      | inl n ↦ absurd (moves n)
      | inr (change, e) ↦ ((f, anchor, change), rw (on, here, y, held, scanned, owns, e) refl)
    ]

without_anchor-none :
    (fid : ℕ) (rows : List (ℕ × VerdictAnchor))
    → first_where (λ a. a.0 == fid) (without_anchor fid rows) ≡ none
without_anchor-none fid [] = refl
without_anchor-none fid (a ∷ rows) = elim (Bool-cases (a.0 == fid)) [
  | inl e ↦ rw e (without_anchor-none fid rows)
  | inr e ↦ rw (e, e) (without_anchor-none fid rows)
]

verdict_anchor-write_anchor :
    (fid : ℕ) (s : Store) → verdict_anchor fid (write_anchor fid none s) ≡ none
unfolding verdict_anchor write_anchor
verdict_anchor-write_anchor fid s =
    ap
      (λ (o : Option (ℕ × VerdictAnchor)). elim o as (λ x. Option VerdictAnchor) [
        | none ↦ none
        | some (k, a) ↦ some a
      ])
      (without_anchor-none fid s.anchors)

-- What a finding is once it is reopened.
abbrev pub Reopened : ℕ → Store → Type 0
Reopened fid s = At fid new s × (verdict_anchor fid s ≡ none)

reopen_suppressed-Reopened :
    (fid : ℕ) (summary : String) (now : ℕ) (s : Store) (f : Finding)
    → get_finding fid s ≡ some f
    → is_suppressed f.status ≡ true
    → (let r = reopen_suppressed fid summary now s in (r.0 ≡ true) × Reopened fid r.1)
unfolding reopen_suppressed write_anchor get_finding verdict_anchor
reopen_suppressed-Reopened fid summary now s f here y =
    let lapsed : Finding → Bool = λ g. g.id == fid && is_suppressed g.status in
    let found : exists_where lapsed s.findings ≡ true =
      first_where-exists (has_id fid) (λ g. is_suppressed g.status) s.findings f here y in
    let change : Finding → Finding =
      λ g. record g { status = new; verdict_reason = none; summary = summary; updated_at = now } in
    let at : At fid f.status s = (f, here, refl) in
    let hits : lapsed f ≡ true = rw (its_id fid f.status s at, y) refl in
    rw found (
      refl,
      (
        (change f, updated fid f.status s at lapsed change (λ g. refl) ∙ rw hits refl, refl),
        verdict_anchor-write_anchor fid (update_findings lapsed change s),
      ),
    )

-- A finding that a scan files again is reopened, to `new` and without an anchor, exactly when its
-- verdict has lapsed: it is suppressed under an anchor, the job scanned a commit of a stored
-- repository, and git does not say that the anchor's files are the same there. Otherwise nothing
-- changes.
pub reopen_if_changed-lapsed :
    (git : Git) (repo_id fid : ℕ) (job : Option ℕ) (summary : String) (now : ℕ) (s : Store)
    → (let (reopened, after) = reopen_if_changed git repo_id fid job summary now s in
        ((reopened ≡ true) × HasLapsed git repo_id fid job s × Reopened fid after)
        ⊎ ((reopened ≡ false) × (¬ HasLapsed git repo_id fid job s) × (after ≡ s)))
unfolding reopen_if_changed
reopen_if_changed-lapsed git repo_id fid job summary now s =
    elim (Option-cases (lapse git repo_id fid job s)) [
      | inl e ↦ rw e (
          inr (
            refl,
            (λ h.
                let (l, there) = HasLapsed-lapse git repo_id fid job s h in
                let z = sym e ∙ there in cc),
            refl,
          ))
      | inr (l, e) ↦
          let lapsed = lapse-HasLapsed git repo_id fid job s l e in
          let (id, f, anchor, at, repo, on, here, y, held, scanned, owns, moves) = lapsed in
          let (done, is_new) = reopen_suppressed-Reopened fid summary now s f here y in
          rw e (inl (done, lapsed, is_new))
    ]
