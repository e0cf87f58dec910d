-- ===== src/Store/Jobs/Open.antt =====
-- When a row of `jobs` in hunter-rs/src/store.rs is a suspension that nothing has picked up, in the
-- words of its columns.
use bug_hunter.Prelude.{
  ℕ, ◌≡◌, ◌≢◌, refl, ap, true, false, Option, none, some, arith, Bool-cases, inl, inr, ==_iff,
}
use bug_hunter.Prelude.Members.{In, exists_where-In, In-exists_where}
use bug_hunter.Store.Rows.{Job, Repo, Store, is_id}
use bug_hunter.Store.Jobs.{continued, has_repo}

abbrev pub OfRepo : Store → Job → Type 0
OfRepo s j = (r : Repo) × In r s.repos × (r.id ≡ j.repo_id)

abbrev pub NoSuccessor : Store → Job → Type 0
NoSuccessor s j = (k : Job) → In k s.jobs → k.resumed_from ≢ some j.id

pub is_id→≡ : (o : Option ℕ) (n : ℕ) → is_id o n ≡ true → o ≡ some n
is_id→≡ none n h = cc
is_id→≡ (some m) n h = ap some ((==_iff m n).0 h)

pub is_id-some : (o : Option ℕ) (n : ℕ) → o ≡ some n → is_id o n ≡ true
is_id-some o n e = rw e ((==_iff n n).1 refl)

pub has_repo-OfRepo : (s : Store) (j : Job) → has_repo s.repos j ≡ true → OfRepo s j
has_repo-OfRepo s j h =
    let (r, there, same) = exists_where-In _ s.repos h in (r, there, (==_iff r.id j.repo_id).0 same)

pub OfRepo-has_repo : (s : Store) (j : Job) → OfRepo s j → has_repo s.repos j ≡ true
OfRepo-has_repo s j (r, there, same) =
    In-exists_where _ s.repos r there ((==_iff r.id j.repo_id).1 same)

pub continued-NoSuccessor : (s : Store) (j : Job) → continued s.jobs j ≡ false → NoSuccessor s j
continued-NoSuccessor s j h k there e =
    let found : continued s.jobs j ≡ true =
      In-exists_where _ s.jobs k there (is_id-some k.resumed_from j.id e) in
    ground arith

pub NoSuccessor-continued : (s : Store) (j : Job) → NoSuccessor s j → continued s.jobs j ≡ false
NoSuccessor-continued s j h = elim (Bool-cases (continued s.jobs j)) [
  | inl t ↦
      let (k, there, same) = exists_where-In _ s.jobs t in
      absurd (h k there (is_id→≡ k.resumed_from j.id same))
  | inr t ↦ t
]
