-- ===== src/Scheduler/Select/Rounds.antt =====
-- `select` of hunter-rs/src/scheduler.rs, on fuel: it selects again when a given-up chain has just
-- ended the work that it was about to pick.
pub mod Work
pub mod Progress
pub mod Owes
pub mod Targets
pub mod Terminates
pub mod Preview
use Prim.Native.Nat.{Ordering}
use Prim.Native.String.{compare}
use bug_hunter.Prelude.{
  ℕ, zero, suc, Bool, true, false, not, ◌&&◌, ◌||◌, List, [], ◌∷◌, String, Option, none, some,
  str_eq, ◌==◌, ltb, if◌then◌else◌,
}
use bug_hunter.Prelude.Tables.{rows_where, first_where, sort_by}
use bug_hunter.Domain.Kinds.{RepoJobKind, hunt, FindingJobKind}
use bug_hunter.Store.Rows.{Finding, Repo, Store, is_some, unwrap_or}
use bug_hunter.Store.Jobs.{optional}
use bug_hunter.Scheduler.Rotation.{rotation_kind, full_hunt_urgent}
use bug_hunter.Scheduler.Select.Tiers.{target}
use bug_hunter.Scheduler.Select.Resume.{
  World, Pick, Candidate, repo_candidate, finding_pick, pick_resume,
}

-- ORDER BY name.
abbrev name_before : Repo → Repo → Bool
name_before a b = elim (compare a.name b.name) [ Ordering.lt ↦ true | _ ↦ false ]

abbrev pub list_repos : Store → List Repo
list_repos s = sort_by name_before (rows_where (λ r. r.live) s.repos)

abbrev pub of_force_repo : Option ℕ → Repo → Bool
of_force_repo none r = r.enabled
of_force_repo (some rid) r = r.id == rid

-- The key `(!urgent, last_hunt_at.is_some(), last_hunt_at.unwrap_or(0))`, in dictionary order.
abbrev staleness : Repo → Repo → Bool
unfolding full_hunt_urgent
staleness a b =
    if full_hunt_urgent a
    then (if full_hunt_urgent b then hunted a b else true)
    else (if full_hunt_urgent b then false else hunted a b)
  where
    hunted : Repo → Repo → Bool
    hunted a b =
        if is_some a.last_hunt_at
        then is_some b.last_hunt_at && ltb (unwrap_or a.last_hunt_at 0) (unwrap_or b.last_hunt_at 0)
        else is_some b.last_hunt_at

-- What one repository is due for: the clone, an urgent full hunt, or its rotation scan.
unfoldable pub scan_due : World → Repo → Option RepoJobKind
unfolding rotation_kind full_hunt_urgent
scan_due w r =
    if not (w.is_cloned r)
    then some hunt
    else (if full_hunt_urgent r then some hunt else rotation_kind w.intervals r w.now)

unfoldable pub first_due : World → List Repo → Option Candidate
unfolding scan_due
first_due w [] = none
first_due w (r ∷ rs) = elim (scan_due w r) [
  | some k ↦ some (repo_candidate k r)
  | none ↦ first_due w rs
]

unfoldable pub pick_rotation : World → (force : Option ℕ) → Store → Option Candidate
unfolding first_due staleness
pick_rotation w force s =
    first_due w (sort_by staleness (rows_where (of_force_repo force) (list_repos s)))

-- `unknown_repo` is the error for a forced repository that is not there, `out_of_fuel` none of the
-- source's.
pub data Selection : Type 0 where
  unknown_repo : Selection
  picked : Option Candidate → Selection
  out_of_fuel : Selection

-- `none`: the repository's name is not known; `some none`: no repository is forced.
abbrev pub resolve_force : Option String → Store → Option (Option ℕ)
resolve_force none s = some none
resolve_force (some name) s =
    optional (first_where (λ r. str_eq r.name name && r.live) s.repos) none (λ r. some (some r.id))

-- Below the finding tiers: suspended work, then the rotation.
unfoldable pub background : World → Pick → (force : Option ℕ) → Store → Option Candidate × Store
background w mode force s =
    let (c, s') = pick_resume w mode force s in
    if is_some c then (c, s') else (pick_rotation w force s', s')

-- One round: `none` asks for another one.
unfoldable pub round : World → Pick → (force : Option ℕ) → Store → Option (Option Candidate) × Store
round w mode force s = elim (target force s) [
  | some (kind, f) ↦
      let (c, s') = finding_pick w mode kind f s in (if is_some c then some c else none, s')
  | none ↦ let (c, s') = background w mode force s in (some c, s')
]

abbrev pub finish :
    (again : Store → Selection × Store) → Option (Option Candidate) × Store → Selection × Store
finish again (some c, s) = (picked c, s)
finish again (none, s) = again s

unfoldable pub select :
    (fuel : ℕ) → World → Pick → (force_repo : Option String) → Store → Selection × Store
unfolding round
select zero w mode force_repo s = (out_of_fuel, s)
select (suc fuel) w mode force_repo s =
    let again : Store → Selection × Store = select fuel w mode force_repo in
    elim (resolve_force force_repo s) [
      | none ↦ (unknown_repo, s)
      | some force ↦ finish again (round w mode force s)
    ]
