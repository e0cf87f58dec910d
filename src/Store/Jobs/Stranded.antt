-- ===== src/Store/Jobs/Stranded.antt =====
-- `list_resumable_jobs` and `retire_stranded_suspensions` of hunter-rs/src/store.rs, and the
-- suspensions of findings between them.
use bug_hunter.Prelude.{
  ◌≡◌, refl, ◌⊎◌, inl, inr, Bool, true, false, not, ◌&&◌, ◌||◌, List, [], ◌∷◌, String, some, arith,
  Bool-cases,
}
use bug_hunter.Prelude.Members.{In, AllTwo, exists_where-In, In-exists_where, update_where-AllTwo}
use bug_hunter.Domain.Status.{
  FindingStatus, queued, rechecking, pr_open, merged, closed, blocked, fixing, suspended, killed,
  state_eq, state_eq→≡, status_eq,
}
use bug_hunter.Domain.Kinds.{
  JobKind, repo, FindingJobKind, finding, fix, engage, harvest, recheck, kind_eq, is_finding,
}
use bug_hunter.Store.Rows.{Job, Finding, Repo, Store, is_id, is_some}
use bug_hunter.Store.Jobs.{
  continued, retired, actionable, kept, on_finding, of_live_repo, has_repo, resumable, stranded,
  retire_stranded_suspensions,
}
use bug_hunter.Store.Jobs.Open.{
  OfRepo, NoSuccessor, is_id→≡, is_id-some, has_repo-OfRepo, OfRepo-has_repo, continued-NoSuccessor,
  NoSuccessor-continued,
}

-- A fix that waits for the operator, or whose claim is under way.
abbrev pub held : Store → Job → Bool
held s j =
    kind_eq j.kind (finding fix)
    && on_finding s.findings j (λ st. status_eq st blocked || status_eq st fixing)

-- An open suspension with its transcript, of a live repository and of a finding that exists.
abbrev pub open_suspension : Store → Job → Bool
open_suspension s j =
    state_eq j.state suspended
    && of_live_repo s.repos j
    && is_some j.session_file
    && not (continued s.jobs j)
    && is_finding j.kind
    && on_finding s.findings j (λ st. true)

sorted :
    (k : JobKind) (st : FindingStatus)
    → is_finding k ≡ true
    → (actionable k st ≡ true)
      ⊎ (not (kept k st) ≡ true)
      ⊎ ((kind_eq k (finding fix) ≡ true) × ((status_eq st blocked || status_eq st fixing) ≡ true))
sorted (repo k) st h = cc
sorted (finding fix) st h = ground arith
sorted (finding engage) st h = ground arith
sorted (finding harvest) st h = ground arith
sorted (finding recheck) st h = ground arith

module _ (k : JobKind) (j : Job) (fk : is_finding k ≡ true) where
  either :
      (fs : List Finding)
      → on_finding fs j (λ st. true) ≡ true
      → (on_finding fs j (actionable k) ≡ true)
        ⊎ (on_finding fs j (λ st. not (kept k st)) ≡ true)
        ⊎ ((kind_eq k (finding fix) ≡ true)
            × (on_finding fs j (λ st. status_eq st blocked || status_eq st fixing) ≡ true))
  either [] h = cc
  either (f ∷ fs) h = elim (Bool-cases (is_id j.finding_id f.id)) [
    | inl t ↦ ground (arith, sorted k f.status fk)
    | inr t ↦ ground (arith, either fs)
  ]

live-has_repo :
    (repos : List Repo) (j : Job) → of_live_repo repos j ≡ true → has_repo repos j ≡ true
live-has_repo [] j h = h
live-has_repo (r ∷ rs) j h = ground (arith, live-has_repo rs j)

-- Every such suspension is resumable, retired by the sweep, or a fix held for the operator or
-- under way: none is left suspended with nothing to end it.
pub suspension_accounted :
    (s : Store) (j : Job)
    → open_suspension s j ≡ true
    → (resumable s j ≡ true) ⊎ (stranded s j ≡ true) ⊎ (held s j ≡ true)
suspension_accounted s j h =
    ground (arith, either j.kind j (ground arith) s.findings, live-has_repo s.repos j)

-- Where a finding may stand for a suspended job of this kind to wait for it.
abbrev pub WaitsAt : FindingJobKind → FindingStatus → Type 0
WaitsAt fix st = (st ≡ queued) ⊎ (st ≡ blocked) ⊎ (st ≡ fixing)
WaitsAt recheck st = st ≡ rechecking
WaitsAt engage st = st ≡ pr_open
WaitsAt harvest st = (st ≡ merged) ⊎ (st ≡ closed)

abbrev pub MovedOn : JobKind → FindingStatus → Type 0
MovedOn (repo k) st = Unit
MovedOn (finding k) st = ¬ WaitsAt k st

-- A suspension that nothing continues, in a repository that is stored, whose finding has moved on.
abbrev pub Stranded : Store → Job → Type 0
Stranded s j =
    (j.state ≡ suspended)
    × OfRepo s j
    × NoSuccessor s j
    × ((f : Finding) × In f s.findings × (j.finding_id ≡ some f.id) × MovedOn j.kind f.status)

-- A row before and after the sweep.
abbrev pub Swept : (note : Job → String) → Store → (j j' : Job) → Type 0
Swept note s j j' =
    (Stranded s j
      × (j' ≡ record j {
        state = killed;
        killed_reason = some "finding-moved";
        notes = some (note j);
      }))
    ⊎ ((¬ Stranded s j) × (j' ≡ j))

WaitsAt-kept : (k : FindingJobKind) (st : FindingStatus) → WaitsAt k st → kept (finding k) st ≡ true
WaitsAt-kept fix st h = ground arith
WaitsAt-kept recheck st h = ground arith
WaitsAt-kept engage st h = ground arith
WaitsAt-kept harvest st h = ground arith

kept-WaitsAt : (k : FindingJobKind) (st : FindingStatus) → kept (finding k) st ≡ true → WaitsAt k st
kept-WaitsAt fix st h = ground arith
kept-WaitsAt recheck st h = ground arith
kept-WaitsAt engage st h = ground arith
kept-WaitsAt harvest st h = ground arith

kept-MovedOn : (k : JobKind) (st : FindingStatus) → kept k st ≡ false → MovedOn k st
kept-MovedOn (repo k) st h = tt
kept-MovedOn (finding k) st h = λ w. let stays = WaitsAt-kept k st w in cc

MovedOn-kept : (k : JobKind) (st : FindingStatus) → MovedOn k st → kept k st ≡ false
MovedOn-kept (repo k) st h = refl
MovedOn-kept (finding k) st h = elim (Bool-cases (kept (finding k) st)) [
  | inl t ↦ absurd (h (kept-WaitsAt k st t))
  | inr t ↦ t
]

stranded-Stranded : (s : Store) (j : Job) → stranded s j ≡ true → Stranded s j
stranded-Stranded s j h =
    let (f, there, test) =
      exists_where-In (λ f. is_id j.finding_id f.id && not (kept j.kind f.status)) s.findings
        (ground arith) in
    (
      state_eq→≡ j.state suspended (ground arith),
      has_repo-OfRepo s j (ground arith),
      continued-NoSuccessor s j (ground arith),
      (
        f,
        there,
        is_id→≡ j.finding_id f.id (ground arith),
        kept-MovedOn j.kind f.status (ground arith),
      ),
    )

Stranded-stranded : (s : Store) (j : Job) → Stranded s j → stranded s j ≡ true
Stranded-stranded s j (st, stored, last, (f, there, on, moved)) =
    let states : state_eq j.state suspended ≡ true = rw st refl in
    let repo_there = OfRepo-has_repo s j stored in
    let none_after = NoSuccessor-continued s j last in
    let of_finding : on_finding s.findings j (λ st. not (kept j.kind st)) ≡ true =
      In-exists_where (λ f. is_id j.finding_id f.id && not (kept j.kind f.status)) s.findings f
        there (rw (is_id-some j.finding_id f.id on, MovedOn-kept j.kind f.status moved) refl) in
    ground arith

-- The sweep retires exactly the suspensions that nothing continues, of a stored repository, whose
-- finding stands where a job of their kind does not wait: a fix waits at queued, blocked or fixing,
-- a recheck at rechecking, an engage at pr_open, a harvest at merged or closed. Every other row
-- stays as it was.
pub retire_stranded-Swept :
    (note : Job → String) (s : Store)
    → AllTwo (Swept note s) s.jobs (retire_stranded_suspensions note s).1.jobs
unfolding retire_stranded_suspensions
retire_stranded-Swept note s =
    update_where-AllTwo (Swept note s) (stranded s)
      (λ j. retired killed (some "finding-moved") (note j) j) s.jobs
      (λ j i t. inl (stranded-Stranded s j t, refl))
      (λ j i t. inr (λ o. let found = Stranded-stranded s j o in cc, refl))
