-- ===== src/Store/Jobs/Origin.antt =====
-- `resume_origin_job` of hunter-rs/src/store.rs and the first attempt of a chain.
use Prim.Native.Nat.{min}
use bug_hunter.Prelude.{
  ℕ, zero, suc, ◌<◌, ◌≡◌, refl, sym, subst, ap, List, [], ◌∷◌, Option, none, some, ◌==◌, arith,
  Option-cases, inl, inr, ==_iff,
}
use bug_hunter.Prelude.Tables.{length, All, first_where_sound}
use bug_hunter.Store.Rows.{Job, Store}
use bug_hunter.Store.Jobs.{optional}
use bug_hunter.Store.Jobs.Chain.{
  resume_chain_max_depth, row, ancestors, least_id, resume_origin_job,
}

-- A link points at an older row.
abbrev pub PointsBack : Job → Type 0
PointsBack j = (p : ℕ) → j.resumed_from ≡ some p → p < j.id

-- The attempt that a row continues, where that row is still there.
abbrev pub parent : List Job → Job → Option Job
parent jobs j = optional j.resumed_from none (row jobs)

pub row_sound :
    (jobs : List Job) (id : ℕ) (j : Job)
    → All PointsBack jobs
    → row jobs id ≡ some j
    → PointsBack j × (j.id ≡ id)
row_sound jobs id j back e =
    let (b, t) = first_where_sound PointsBack (λ k. k.id == id) jobs j back e in
    (b, (==_iff j.id id).0 t)

module _ (d : ℕ) (jobs : List Job) (p : ℕ) where
  ancestors-gone : row jobs p ≡ none → ancestors (suc d) jobs (some p) ≡ []
  unfolding ancestors
  ancestors-gone e = rw (e, ancestors)

  ancestors-up :
      (k : Job)
      → row jobs p ≡ some k
      → ancestors (suc d) jobs (some p) ≡ k ∷ ancestors d jobs k.resumed_from
  unfolding ancestors
  ancestors-up k e = rw (e, ancestors)

-- The attempts that a row continues, directly or through others, and the row itself.
pub data Continues (jobs : List Job) : Job → Job → Type 0 where
  itself : {j : Job} → Continues jobs j j
  through : {j k r : Job} → parent jobs j ≡ some k → Continues jobs k r → Continues jobs j r

-- The row of the id `n` is the first attempt of the work of `j`.
abbrev pub IsRoot : List Job → Job → (n : ℕ) → Type 0
IsRoot jobs j n = (r : Job) × (row jobs n ≡ some r) × Continues jobs j r × (parent jobs r ≡ none)

-- The least id met on the way up from `j` is that of its first attempt.
abbrev Rooted : List Job → Job → List Job → Type 0
Rooted jobs j above = IsRoot jobs j (least_id j.id above)

module _ (jobs : List Job) (back : All PointsBack jobs) where
  climb :
      (d : ℕ) (j : Job) (from : Option ℕ)
      → j.resumed_from ≡ from
      → row jobs j.id ≡ some j
      → PointsBack j
      → length (ancestors d jobs from) < d
      → Rooted jobs j (ancestors d jobs from)
  climb zero j from e here b short = absurd (omega arith)
  climb (suc d) j none e here b short = unfold ancestors in (j, here, itself, rw e)
  climb (suc d) j (some p) e here b short = elim (Option-cases (row jobs p)) [
    | inl gone ↦ rw (ancestors-gone d jobs p gone) (j, here, itself, rw e gone)
    | inr (k, found) ↦
        let (bk, same) = row_sound jobs p k back found in
        let up =
          climb d k k.resumed_from refl (subst (λ n. row jobs n ≡ some k) (sym same) found) bk
            (omega (arith, ap length (ancestors-up d jobs p k found))) in
        let least : min j.id k.id ≡ k.id = omega (arith, b p e) in
        subst (Rooted jobs j) (sym (ancestors-up d jobs p k found)) (
          subst (λ n. IsRoot jobs j (least_id n (ancestors d jobs k.resumed_from))) (sym least)
            (let (r, there, on, top) = up in (r, there, through (rw e found) on, top)))
  ]

-- With links that point at older rows, the origin of a stored job whose chain the depth cap does
-- not cut is a row that the job continues, directly or through others, or the job itself; and what
-- that row names as its own predecessor, if anything, is not in the table.
pub resume_origin_job-IsRoot :
    (s : Store) (id : ℕ) (j : Job)
    → All PointsBack s.jobs
    → row s.jobs id ≡ some j
    → length (ancestors resume_chain_max_depth s.jobs j.resumed_from) < resume_chain_max_depth
    → IsRoot s.jobs j (resume_origin_job id s)
unfolding resume_origin_job
resume_origin_job-IsRoot s id j back here short =
    let (b, same) = row_sound s.jobs id j back here in
    rw (here, resume_origin_job)
      (climb s.jobs back resume_chain_max_depth j j.resumed_from refl
        (subst (λ n. row s.jobs n ≡ some j) (sym same) here) b short)
