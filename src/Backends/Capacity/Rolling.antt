-- ===== src/Backends/Capacity/Rolling.antt =====
-- The roll forward of an expired cycle, of hunter-rs/src/backends/omp_scavenge/capacity.rs.
use bug_hunter.Prelude.{
  ℕ, zero, suc, ◌+◌, ◌*◌, ◌≤◌, ◌<◌, true, Option, none, some, leb, arith, ◌≡◌, refl, inl, inr,
  Bool-cases,
}
use bug_hunter.Backends.Capacity.{roll_forward}

-- The rolled cycle is the one that `now` is in: it began at the time recorded, which is the old
-- reset or whole periods after it, and ends one period later.
abbrev pub InCycle : (period resets now : ℕ) → Option (ℕ × ℕ) → Type 0
InCycle period resets now none = ⊥
InCycle period resets now (some (next, start)) =
    (start ≤ now)
    × (now < next)
    × (next ≡ start + period)
    × ((k : ℕ) × (start ≡ resets + k * period))

InCycle-step :
    (period resets now : ℕ) (o : Option (ℕ × ℕ))
    → InCycle period (resets + period) now o
    → InCycle period resets now o
InCycle-step period resets now none c = c
InCycle-step period resets now (some (next, start)) (began, runs, long, (k, whole)) =
    (began, runs, long, (suc k, omega arith))

-- The fuel left covers what is left up to `now`, once the cycle is one that has begun.
roll_forward-later :
    (fuel period resets now : ℕ)
    → 0 < period
    → resets ≤ now
    → now < resets + fuel
    → InCycle period resets now (roll_forward fuel period (resets + period) resets now)
unfolding roll_forward
roll_forward-later zero period resets now p r h = absurd (omega arith)
roll_forward-later (suc fuel) period resets now p r h =
    elim (Bool-cases (leb (resets + period) now)) [
      | inl e ↦ rw e (
          InCycle-step period resets now _
            (roll_forward-later fuel period (resets + period) now p (ground arith) (omega arith)))
      | inr e ↦ rw e (r, (ground arith), refl, (0, omega arith))
    ]

pub roll_forward-InCycle :
    (period resets recorded now : ℕ)
    → 0 < period
    → resets ≤ now
    → InCycle period resets now (roll_forward (suc (suc now)) period resets recorded now)
unfolding roll_forward
roll_forward-InCycle period resets recorded now p h =
    let now_on : leb resets now ≡ true = ground arith in
    rw now_on (roll_forward-later (suc now) period resets now p h (omega arith))
