-- ===== src/Store/Jobs/Handover.antt =====
-- `create_job` of hunter-rs/src/store.rs: how a new attempt takes over from the suspensions of
-- the same work.
use bug_hunter.Prelude.{
  ℕ, ◌<◌, ◌≡◌, ◌≢◌, refl, ap, subst, ◌⊎◌, inl, inr, Bool, true, false, ◌&&◌, List, [], ◌∷◌, String,
  Option, none, some, ◌==◌, arith, Bool-cases, ==_iff, if◌then◌else◌,
}
use bug_hunter.Prelude.Tables.{All, exists_where, update_where, rows_where-false, sort_by}
use bug_hunter.Prelude.Members.{AllTwo, All-In-at, update_where-AllTwo}
use bug_hunter.Domain.Status.{JobState, killed, suspended, state_eq, state_eq→≡}
use bug_hunter.Domain.Kinds.{JobKind, repo, finding, is_finding, kind_eq, kind_eq→≡, kind_eq_refl}
use bug_hunter.Store.Rows.{Job, Repo, Store, is_id}
use bug_hunter.Store.Jobs.{
  continued, retired, superseded_by, inserted, CreatedJob, created, create_job, resumable, get_job,
  ids, older, optional,
}
use bug_hunter.Store.Jobs.Open.{
  OfRepo, NoSuccessor, is_id→≡, is_id-some, has_repo-OfRepo, OfRepo-has_repo, continued-NoSuccessor,
  NoSuccessor-continued,
}

-- What a job of this kind works on: a finding, or for a scan the whole repository.
abbrev pub OnSubject : JobKind → Option ℕ → (rid : ℕ) → Job → Type 0
OnSubject (repo k) fid rid j = j.repo_id ≡ rid
OnSubject (finding k) none rid j = ⊥
OnSubject (finding k) (some n) rid j = j.finding_id ≡ some n

-- A suspension of the same work that nothing continues, in a repository that is stored.
abbrev pub OpenFor : JobKind → Option ℕ → (rid : ℕ) → Store → Job → Type 0
OpenFor kind fid rid s j =
    (j.state ≡ suspended)
    × (j.kind ≡ kind)
    × OnSubject kind fid rid j
    × OfRepo s j
    × NoSuccessor s j

-- A row before and after: such a suspension is retired, any other row stays.
abbrev pub HandedOver :
    (note : ℕ → String) → JobKind → Option ℕ → (rid : ℕ) → Store → (j j' : Job) → Type 0
HandedOver note kind fid rid s j j' =
    (OpenFor kind fid rid s j
      × (j' ≡ record j {
        state = killed;
        killed_reason = some "superseded";
        notes = some (note j.id);
      }))
    ⊎ ((¬ OpenFor kind fid rid s j) × (j' ≡ j))

-- The WHERE of the retirement, with what it says of the work.
abbrev on_subject : JobKind → Option ℕ → ℕ → Job → Bool
on_subject kind fid rid j =
    if is_finding kind then optional fid false (is_id j.finding_id) else j.repo_id == rid

on_subject-OnSubject :
    (kind : JobKind) (fid : Option ℕ) (rid : ℕ) (j : Job)
    → on_subject kind fid rid j ≡ true
    → OnSubject kind fid rid j
on_subject-OnSubject (repo k) fid rid j h = (==_iff j.repo_id rid).0 h
on_subject-OnSubject (finding k) none rid j h = cc
on_subject-OnSubject (finding k) (some n) rid j h = is_id→≡ j.finding_id n h

OnSubject-on_subject :
    (kind : JobKind) (fid : Option ℕ) (rid : ℕ) (j : Job)
    → OnSubject kind fid rid j
    → on_subject kind fid rid j ≡ true
OnSubject-on_subject (repo k) fid rid j h = (==_iff j.repo_id rid).1 h
OnSubject-on_subject (finding k) none rid j h = absurd h
OnSubject-on_subject (finding k) (some n) rid j h = is_id-some j.finding_id n h

module _ (s : Store) (kind : JobKind) (id : ℕ) (fid : Option ℕ) (rid : ℕ) (j : Job) where
  superseded-OpenFor :
      superseded_by s.repos s.jobs kind id fid rid j ≡ true → OpenFor kind fid rid s j
  superseded-OpenFor h = (
    state_eq→≡ j.state suspended (ground arith),
    kind_eq→≡ j.kind kind (ground arith),
    on_subject-OnSubject kind fid rid j (ground arith),
    has_repo-OfRepo s j (ground arith),
    continued-NoSuccessor s j (ground arith),
  )

  OpenFor-superseded :
      j.id ≢ id → OpenFor kind fid rid s j → superseded_by s.repos s.jobs kind id fid rid j ≡ true
  OpenFor-superseded other (st, same, on, stored, last) =
      let repo_there = OfRepo-has_repo s j stored in
      let subject = OnSubject-on_subject kind fid rid j on in
      let none_after = NoSuccessor-continued s j last in
      let kinds : kind_eq j.kind kind ≡ true = rw same (kind_eq_refl kind) in
      let states : state_eq j.state suspended ≡ true = rw st refl in
      let another : (j.id == id) ≡ false = ground arith in ground arith

-- The jobs of the table that a fresh job leaves: its own row, then the others.
abbrev pub Superseded :
    (note : ℕ → String)
    → JobKind
    → Option ℕ
    → (rid : ℕ) → JobState
    → (s s' : Store) → CreatedJob
    → Type 0
Superseded note kind fid rid st s s' c =
    (n : Job) × (jobs : List Job) × (s'.jobs ≡ n ∷ jobs)
    × (n.id ≡ c.id)
    × (n.kind ≡ kind)
    × (n.state ≡ st)
    × AllTwo (HandedOver note kind fid rid s) s.jobs jobs

not_resumable : (s : Store) (j : Job) → continued s.jobs j ≡ true → resumable s j ≡ false
not_resumable s j h = ground arith

-- A job does not retire itself.
not_itself :
    (repos : List Repo) (jobs : List Job) (kind : JobKind) (fid : Option ℕ) (rid : ℕ) (n : Job)
    → superseded_by repos jobs kind n.id fid rid n ≡ false
not_itself repos jobs kind fid rid n =
    let same : (n.id == n.id) ≡ true = (==_iff n.id n.id).1 refl in ground arith

created-Superseded :
    (note : ℕ → String) (kind : JobKind) (rid : ℕ) (fid cap_tokens : Option ℕ) (st : JobState)
    (estimated : Option ℕ) (now : ℕ) (s : Store)
    → All (λ j. j.id < s.next_job) s.jobs
    → let r = created note kind rid fid cap_tokens st estimated none now s in
      Superseded note kind fid rid st s r.1 r.0
created-Superseded note kind rid fid cap_tokens st estimated now s older_ids = (
  inserted kind rid fid cap_tokens st estimated none now s,
  update_where (superseded_by s.repos s.jobs kind s.next_job fid rid)
      (λ j. retired killed (some "superseded") (note j.id) j) s.jobs,
  ap
      (λ b.
        (if b
          then retired killed (some "superseded") (note s.next_job)
              (inserted kind rid fid cap_tokens st estimated none now s)
          else inserted kind rid fid cap_tokens st estimated none now s)
        ∷ update_where (superseded_by s.repos s.jobs kind s.next_job fid rid)
            (λ j. retired killed (some "superseded") (note j.id) j) s.jobs)
      (not_itself s.repos (inserted kind rid fid cap_tokens st estimated none now s ∷ s.jobs) kind
        fid rid (inserted kind rid fid cap_tokens st estimated none now s)),
  refl,
  refl,
  refl,
  update_where-AllTwo (HandedOver note kind fid rid s)
      (superseded_by s.repos s.jobs kind s.next_job fid rid)
      (λ j. retired killed (some "superseded") (note j.id) j) s.jobs
      (λ j i t. inl (superseded-OpenFor s kind s.next_job fid rid j t, refl))
      (λ j i t. inr (
        λ o.
            let found =
              OpenFor-superseded s kind s.next_job fid rid j
                (λ e. omega (arith, All-In-at _ s.jobs j older_ids i, e)) o in
            cc,
        refl,
      )),
)

-- A fresh job, which continues no other, becomes the first row of the table. Every other row is
-- retired as superseded if it is a suspension of the same kind of work, at the same finding or (for
-- a scan) the same repository, of a stored repository, that no job continues; every other row stays
-- as it was. The ids of the table are taken to be below the next one.
pub create_job-supersedes :
    (note : ℕ → String) (kind : JobKind) (rid : ℕ) (fid cap_tokens : Option ℕ) (st : JobState)
    (estimated : Option ℕ) (now : ℕ) (s s' : Store) (c : CreatedJob)
    → All (λ j. j.id < s.next_job) s.jobs
    → create_job note kind rid fid cap_tokens st estimated none now s ≡ some (c, s')
    → Superseded note kind fid rid st s s' c
unfolding create_job
create_job-supersedes note kind rid fid cap_tokens st estimated now s s' c older_ids e =
    elim (Bool-cases (exists_where (λ r. r.id == rid && r.live) s.repos)) [
      | inl l ↦
          let q : created note kind rid fid cap_tokens st estimated none now s ≡ (c, s') =
            ground arith in
          subst (λ r. Superseded note kind fid rid st s r.1 r.0) q
            (created-Superseded note kind rid fid cap_tokens st estimated now s older_ids)
      | inr l ↦ ground arith
    ]

-- A resume picks its predecessor, a stored attempt, up for good: afterwards no job with that id is
-- resumable. It supersedes nothing, and inherits the predecessor's pinned commit and blocker.
pub create_job-picks_up :
    (note : ℕ → String) (kind : JobKind) (rid : ℕ) (fid cap_tokens : Option ℕ) (st : JobState)
    (estimated : Option ℕ) (p now : ℕ) (s s' : Store) (c : CreatedJob) (k j : Job)
    → create_job note kind rid fid cap_tokens st estimated (some p) now s ≡ some (c, s')
    → get_job p s ≡ some k
    → j.id ≡ p
    → (resumable s' j ≡ false)
      × (c.superseded ≡ [])
      × ((n : Job) × (get_job c.id s' ≡ some n)
          × (n.pinned_sha ≡ k.pinned_sha)
          × (n.blocker ≡ k.blocker))
unfolding create_job get_job
create_job-picks_up note kind rid fid cap_tokens st estimated p now s s' c k j e pk same =
    elim (Bool-cases (exists_where (λ r. r.id == rid && r.live) s.repos)) [
      | inl l ↦
          let q : created note kind rid fid cap_tokens st estimated (some p) now s ≡ (c, s') =
            ground arith in
          subst
            (λ r.
              (resumable r.1 j ≡ false)
              × (r.0.superseded ≡ [])
              × ((n : Job) × (get_job r.0.id r.1 ≡ some n)
                  × (n.pinned_sha ≡ k.pinned_sha)
                  × (n.blocker ≡ k.blocker)))
            q
            (
              not_resumable (created note kind rid fid cap_tokens st estimated (some p) now s).1 j
                  (rw (same, (==_iff p p).1 refl)),
              ap ids (ap (sort_by older) (rows_where-false s.jobs)),
              (
                inserted kind rid fid cap_tokens st estimated (some p) now s,
                rw ((==_iff s.next_job s.next_job).1 refl),
                rw pk,
                rw pk,
              ),
            )
      | inr l ↦ ground arith
    ]
