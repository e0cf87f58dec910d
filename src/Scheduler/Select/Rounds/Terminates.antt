-- ===== src/Scheduler/Select/Rounds/Terminates.antt =====
-- The rounds of `select` of hunter-rs/src/scheduler.rs.
use bug_hunter.Prelude.{
  ℕ, zero, suc, ◌<◌, ◌≡◌, ◌≢◌, subst, true, String, Option, none, some, arith, Option-cases, inl,
  inr, if◌then◌else◌,
}
use bug_hunter.Store.Rows.{Store, is_some}
use bug_hunter.Store.Jobs.{list_resumable_jobs}
use bug_hunter.Scheduler.Select.Tiers.{target}
use bug_hunter.Scheduler.Select.Resume.{World, run, Candidate, finding_pick}
use bug_hunter.Scheduler.Select.Rounds.{
  Selection, out_of_fuel, resolve_force, round, finish, select,
}
use bug_hunter.Scheduler.Select.Rounds.Work.{work, left}
use bug_hunter.Scheduler.Select.Rounds.Owes.{Owes, pick_among-Owes}
use bug_hunter.Scheduler.Select.Rounds.Targets.{Fine, target-Fine}

-- A round that asks for another one leaves less work than it found.
abbrev Onward : ℕ → Option (Option Candidate) × Store → Type 0
Onward n (none, s) = work s < n
Onward n (some c, s) = Unit

round-Onward : (w : World) (force : Option ℕ) (s : Store) → Onward (work s) (round w run force s)
unfolding round finding_pick
round-Onward w force s = elim (Option-cases (target force s)) [
  | inl none_left ↦ rw (none_left, round) tt
  | inr ((kind, f), found) ↦
      let e : left kind f.id s ≡ true = subst (Fine s) found (target-Fine s force) in
      rw (found, round)
        (after (finding_pick w run kind f s)
          (pick_among-Owes (work s) w kind f (list_resumable_jobs s) s e (omega arith)))
]
  where
    after :
        (r : Option Candidate × Store)
        → Owes (work s) r
        → Onward (work s) (if is_some r.0 then some r.0 else none, r.1)
    after (none, t) less = less
    after (some c, t) less = tt

finish-done :
    (n : ℕ) (again : Store → Selection × Store)
    → ((t : Store) → work t < n → (again t).0 ≢ out_of_fuel)
    → (r : Option (Option Candidate) × Store) → Onward n r
    → (finish again r).0 ≢ out_of_fuel
finish-done n again h (none, t) less = h t less
finish-done n again h (some c, t) less = λ e. cc

-- The scheduler's selection ends: with more fuel than there are active findings, flagged PR rows
-- and unharvested PR rows, it does not run out, whatever chains it gives up on its way.
pub select-terminates :
    (fuel : ℕ) (w : World) (force_repo : Option String) (s : Store)
    → work s < fuel
    → (select fuel w run force_repo s).0 ≢ out_of_fuel
unfolding select
select-terminates zero w force_repo s less = absurd (omega arith)
select-terminates (suc fuel) w force_repo s less =
    let again = select-terminates fuel w force_repo in
    elim (Option-cases (resolve_force force_repo s)) [
      | inl unknown ↦ rw (unknown, select) (λ e. cc)
      | inr (force, known) ↦
          rw (known, select)
            (finish-done (work s) (select fuel w run force_repo)
              (λ t lt. again t (omega (arith, lt, less))) (round w run force s)
              (round-Onward w force s))
    ]
