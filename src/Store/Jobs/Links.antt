-- ===== src/Store/Jobs/Links.antt =====
-- `create_job` of hunter-rs/src/store.rs and the links between attempts.
use bug_hunter.Prelude.{
  ℕ, suc, ◌<◌, ◌≡◌, subst, true, ◌&&◌, ◌∷◌, String, Option, none, some, ◌==◌, arith, Bool-cases,
  Option-cases, inl, inr,
}
use bug_hunter.Prelude.Tables.{All, All-map, All-update_where, exists_where, first_where_sound}
use bug_hunter.Domain.Status.{JobState}
use bug_hunter.Domain.Kinds.{JobKind}
use bug_hunter.Store.Rows.{Job, Store, is_some}
use bug_hunter.Store.Jobs.{inserted, CreatedJob, created, create_job, get_job}
use bug_hunter.Store.Jobs.Origin.{PointsBack}

-- A row that links to an older one, and that is older than the next row.
abbrev pub InOrder : ℕ → Job → Type 0
InOrder next j = PointsBack j × (j.id < next)

abbrev pub AllInOrder : Store → Type 0
AllInOrder s = All (InOrder s.next_job) s.jobs

-- The attempt that a resume continues is in the table.
abbrev pub Continues : Store → Option ℕ → Type 0
Continues s none = Unit
Continues s (some p) = is_some (get_job p s) ≡ true

points_back :
    (s : Store) (from : Option ℕ)
    → AllInOrder s
    → Continues s from
    → (p : ℕ) → from ≡ some p
    → p < s.next_job
unfolding get_job
points_back s none all c p e = cc
points_back s (some q) all c p e = elim (Option-cases (get_job q s)) [
  | inl gone ↦ ground arith
  | inr (k, found) ↦
      let (ok, same) = first_where_sound (InOrder s.next_job) (λ j. j.id == q) s.jobs k all found in
      ground (arith, ok.1)
]

-- A new attempt keeps every row linked to an older one, and older than the next row.
pub create_job-InOrder :
    (note : ℕ → String) (kind : JobKind) (rid : ℕ) (fid cap_tokens : Option ℕ) (st : JobState)
    (estimated from : Option ℕ) (now : ℕ) (s s' : Store) (c : CreatedJob)
    → AllInOrder s
    → Continues s from
    → create_job note kind rid fid cap_tokens st estimated from now s ≡ some (c, s')
    → AllInOrder s'
unfolding create_job
create_job-InOrder note kind rid fid cap_tokens st estimated from now s s' c all cont e =
    elim (Bool-cases (exists_where (λ r. r.id == rid && r.live) s.repos)) [
      | inl l ↦
          let q : created note kind rid fid cap_tokens st estimated from now s ≡ (c, s') =
            ground arith in
          subst (λ r. AllInOrder r.1) q
            (All-update_where (InOrder (suc s.next_job)) _ _
              (inserted kind rid fid cap_tokens st estimated from now s ∷ s.jobs) (λ j h. h)
              (
                (points_back s from all cont, omega arith),
                All-map (InOrder s.next_job) (InOrder (suc s.next_job)) s.jobs
                    (λ j h. (h.0, omega (arith, h.1))) all,
              ))
      | inr l ↦ ground arith
    ]
