-- ===== src/Scheduler/Cycle/Turn.antt =====
-- What a cycle of hunter-rs/src/scheduler.rs leaves of the rotation.
use bug_hunter.Prelude.{
  ℕ, ◌+◌, ◌<◌, ◌≡◌, ◌≢◌, refl, subst, inl, inr, Bool, true, false, List, [], ◌∷◌, String, Option,
  none, some, ◌==◌, ◌&&◌, if◌then◌else◌, arith, Bool-cases,
}
use bug_hunter.Prelude.Tables.{first_where, update_where}
use bug_hunter.Domain.Kinds.{
  RepoJobKind, hunt, test_gap, dep_update, refactor, modernization, standards, repo,
}
use bug_hunter.Store.Rows.{Repo, Store}
use bug_hunter.Store.Jobs.{get_repo_by_id, set_last_kind_at}
use bug_hunter.Scheduler.Rotation.{
  Intervals, interval_of, due, last_run, all_repo_kinds, Leads, Answers, rotation_kind,
  rotation_kind-Answers,
}
use bug_hunter.Scheduler.Sync.{SyncResult}
use bug_hunter.Scheduler.Select.Resume.{Candidate}
use bug_hunter.Scheduler.Select.Rounds.{Selection, picked}
use bug_hunter.Scheduler.Cycle.{
  Ran, ok, crashed, Executors, Environment, attempt_ended, disk_gate, job_kind, candidate_repo,
  first_sync, pick_next, dispatch, run_cycle_inner, run_cycle, run_picked, after_dispatch,
}

-- The rotation does not name the scan at time `t`, if the repository is still there.
abbrev pub Waits : Intervals → RepoJobKind → (t : ℕ) → Option Repo → Type 0
Waits i k t none = Unit
Waits i k t (some r) = rotation_kind i r t ≢ some k

abbrev pub took_turn : Ran → Bool
took_turn (crashed why) = true
took_turn (ok r) = attempt_ended r

Leads-due :
    (is_ready : RepoJobKind → Bool) (last : RepoJobKind → ℕ) (k : RepoJobKind)
    (ks : List RepoJobKind)
    → Leads is_ready last k ks
    → is_ready k ≡ true
Leads-due is_ready last k [] h = absurd h
Leads-due is_ready last k (j ∷ js) (inl h) = h.1
Leads-due is_ready last k (j ∷ js) (inr h) = Leads-due is_ready last k js h.1

not_due-Waits :
    (i : Intervals) (k : RepoJobKind) (t : ℕ) (r : Repo)
    → due i r t k ≡ false
    → rotation_kind i r t ≢ some k
not_due-Waits i k t r h e =
    let named : Answers (due i r t) (λ j. last_run j r) all_repo_kinds (some k) =
      subst (Answers (due i r t) (λ j. last_run j r) all_repo_kinds) e
        (rotation_kind-Answers i r t) in
    let yes : due i r t k ≡ true =
      Leads-due (due i r t) (λ j. last_run j r) k all_repo_kinds named in
    cc

-- The scan's last run, if the repository is still there.
abbrev RunAt : RepoJobKind → (now : ℕ) → Option Repo → Type 0
RunAt k now none = Unit
RunAt k now (some r) = last_run k r ≡ now

abbrev Stamps : RepoJobKind → (now : ℕ) → (Repo → Repo) → Type 0
Stamps k now g = (r : Repo) → last_run k (g r) ≡ now

found-RunAt :
    (k : RepoJobKind) (now : ℕ) (p : Repo → Bool) (y : Repo) (rest : Option Repo)
    → last_run k y ≡ now
    → RunAt k now rest
    → RunAt k now (if p y then some y else rest)
found-RunAt k now p y rest h left = elim (Bool-cases (p y)) [ inl t ↦ rw t h | inr t ↦ rw t left ]

update-RunAt :
    (k : RepoJobKind) (rid now : ℕ) (g : Repo → Repo)
    → Stamps k now g
    → (rs : List Repo)
    → RunAt k now (first_where (λ r. r.id == rid && r.live) (update_where (λ r. r.id == rid) g rs))
update-RunAt k rid now g h [] = tt
update-RunAt k rid now g h (r ∷ rs) =
    let rest = update-RunAt k rid now g h rs in
    elim (Bool-cases (r.id == rid)) [
      | inl e ↦ rw e (found-RunAt k now (λ r. r.id == rid && r.live) (g r) _ (h r) rest)
      | inr e ↦ rw (e, e) rest
    ]

set_last_kind_at-RunAt :
    (k : RepoJobKind) (rid now : ℕ) (s : Store)
    → RunAt k now (get_repo_by_id rid (set_last_kind_at rid k now s))
unfolding set_last_kind_at get_repo_by_id
set_last_kind_at-RunAt hunt rid now s = update-RunAt hunt rid now _ (λ r. refl) s.repos
set_last_kind_at-RunAt test_gap rid now s = update-RunAt test_gap rid now _ (λ r. refl) s.repos
set_last_kind_at-RunAt dep_update rid now s = update-RunAt dep_update rid now _ (λ r. refl) s.repos
set_last_kind_at-RunAt refactor rid now s = update-RunAt refactor rid now _ (λ r. refl) s.repos
set_last_kind_at-RunAt modernization rid now s =
    update-RunAt modernization rid now _ (λ r. refl) s.repos
set_last_kind_at-RunAt standards rid now s = update-RunAt standards rid now _ (λ r. refl) s.repos

RunAt-Waits :
    (i : Intervals) (k : RepoJobKind) (now t : ℕ) (o : Option Repo)
    → 0 < now
    → t < now + interval_of i k
    → RunAt k now o
    → Waits i k t o
RunAt-Waits i k now t none positive early h = tt
RunAt-Waits i k now t (some r) positive early h = not_due-Waits i k t r (rw h (ground arith))

-- What the cycle leaves of a scan: its turn recorded, or the store that its executor left.
abbrev pub TurnOf : Environment → RepoJobKind → (rid t : ℕ) → Bool → (ran s : Store) → Type 0
TurnOf e k rid t true ran s = Waits e.world.intervals k t (get_repo_by_id rid s)
TurnOf e k rid t false ran s = s ≡ ran

after_dispatch-Turn :
    (e : Environment) (c : Candidate) (k : RepoJobKind) (t : ℕ) (sync : Option SyncResult)
    (r : Ran × Store)
    → job_kind c ≡ repo k
    → e.bump_fails ≡ false
    → 0 < e.world.now
    → t < e.world.now + interval_of e.world.intervals k
    → TurnOf e k (candidate_repo c) t (took_turn r.0) r.1 (after_dispatch e c sync r).1
after_dispatch-Turn e c k t sync (r, s) scans writes positive early =
    let recorded : Waits e.world.intervals k t
        (get_repo_by_id (candidate_repo c) (set_last_kind_at (candidate_repo c) k e.world.now s)) =
      RunAt-Waits e.world.intervals k e.world.now t _ positive early
        (set_last_kind_at-RunAt k (candidate_repo c) e.world.now s) in
    by_ran r recorded
  where
    by_ran :
        (r : Ran)
        → Waits e.world.intervals k t (
            get_repo_by_id (candidate_repo c) (set_last_kind_at (candidate_repo c) k e.world.now s))
        → TurnOf e k (candidate_repo c) t (took_turn r) s (after_dispatch e c sync (r, s)).1
    by_ran (crashed why) recorded = rw (writes, scans) recorded
    by_ran (ok sum) recorded = elim (Bool-cases (attempt_ended sum)) [
      | inl t ↦ rw (t, writes, scans) recorded
      | inr t ↦ rw t refl
    ]

abbrev pub selected : Environment → (force_repo : Option String) → Store → Selection × Store
selected e force_repo s = pick_next e.world force_repo (first_sync e s).1

-- When a cycle after time 0 that the disk gate lets through picks a scan, cold or resumed, and the
-- write of its turn succeeds: if the attempt ended or its dispatch failed, the rotation does not
-- name that scan of the repository again until the scan's interval has passed since the cycle; if
-- it was suspended or denied, the cycle leaves the store as its dispatch left it.
pub run_cycle-Turn :
    (x : Executors) (e : Environment) (force_repo : Option String) (s : Store) (c : Candidate)
    (k : RepoJobKind) (t : ℕ)
    → disk_gate e ≡ none
    → (selected e force_repo s).0 ≡ picked (some c)
    → job_kind c ≡ repo k
    → e.bump_fails ≡ false
    → 0 < e.world.now
    → t < e.world.now + interval_of e.world.intervals k
    → TurnOf e k
        (candidate_repo c)
        t
        (took_turn (dispatch x e c (selected e force_repo s).1).0)
        (dispatch x e c (selected e force_repo s).1).1
        (run_cycle x e force_repo s).1
unfolding run_cycle run_cycle_inner
run_cycle-Turn x e force_repo s c k t room picks scans writes positive early =
    rw (room, by_selection (selected e force_repo s) picks)
      (after_dispatch-Turn e c k t (first_sync e s).0 (dispatch x e c (selected e force_repo s).1)
        scans writes positive early)
  where
    by_selection :
        (r : Selection × Store)
        → r.0 ≡ picked (some c)
        → run_picked x e force_repo (first_sync e s).0 r
          ≡ after_dispatch e c (first_sync e s).0 (dispatch x e c r.1)
    by_selection (sel, s') same = rw same refl
