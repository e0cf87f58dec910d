-- ===== src/Store/Dependencies/Settled.antt =====
-- What a scan of the dependencies leaves on record, by hunter-rs/src/scheduler.rs and
-- hunter-rs/src/store.rs.
use bug_hunter.Prelude.{
  ℕ, Bool, true, false, not, ◌&&◌, ◌||◌, List, [], ◌∷◌, map, ◌==◌, if◌then◌else◌, ◌≡◌, ◌⊎◌,
}
use bug_hunter.Domain.Status.{new, queued, status_eq}
use bug_hunter.Domain.Kinds.{dep_update}
use bug_hunter.Store.Rows.{Finding, Store}
use bug_hunter.Store.Dependencies.{has_type, in_list, package_not_in, DepScan}

abbrev pub is_new : Finding → Bool
is_new f = status_eq f.status new

abbrev pub is_open : Finding → Bool
is_open f = status_eq f.status new || status_eq f.status queued

-- The row is as it was, or it was new or queued, and is no longer new.
abbrev pub Same : Finding → Finding → Type 0
Same f g =
    (g.id ≡ f.id)
    × (g.fingerprint ≡ f.fingerprint)
    × ((g ≡ f) ⊎ ((is_open f ≡ true) × (is_new g ≡ false)))

-- Row by row.
abbrev pub AllSame : List Finding → List Finding → Type 0
AllSame [] [] = Unit
AllSame [] (g ∷ gs) = ⊥
AllSame (f ∷ fs) [] = ⊥
AllSame (f ∷ fs) (g ∷ gs) = Same f g × AllSame fs gs

-- A new dependency update of the repository is one that the scan proposes, or one of a package
-- that it could not check.
abbrev pub StillProposed : ℕ → DepScan → Finding → Type 0
StillProposed repo_id scan f =
    (if f.repo_id == repo_id && has_type dep_update f && is_new f
      then in_list f.fingerprint (map (λ c. c.fingerprint) scan.candidates)
        || not (package_not_in f.package_name scan.unchecked)
      else true)
    ≡ true
