-- ===== src/Scheduler/Attempt.antt =====
-- The verdict on a finished attempt and the reservations of hunter-rs/src/scheduler.rs. Token
-- counts are numbers, since the meter never reports less than zero; the f64 arithmetic of
-- `min_useful` is exact at the sizes of a token count, and is done here in whole numbers.
use bug_hunter.Prelude.{
  ℕ, ◌+◌, ◌-◌, ◌*◌, ◌/◌, ◌≤◌, ◌<◌, ◌≡◌, refl, ◌⊎◌, inl, inr, Bool, true, false, ◌&&◌, String,
  Option, none, some, str_eq, ltb, leb, if◌then◌else◌, arith, eq_iff, ◌↔◌,
}
use Prim.Native.Nat.{max}
use bug_hunter.Domain.Status.{JobState, done, failed, killed, suspended}
use bug_hunter.Store.Rows.{is_some}
use bug_hunter.Store.Jobs.Chain.{ChainStats}

-- `exit_code` is an i32: `some true` stands for `Some(0)`, `some false` for any other code.
pub record RunResult : Type 0 where
  pub exited_zero : Option Bool
  pub killed_reason : Option String
  pub tokens_new : ℕ
  pub session_file : Option String

abbrev exit_ok : Option Bool → Bool
exit_ok none = false
exit_ok (some b) = b

-- The arms of the match, first one first.
unfoldable pub job_state : RunResult → JobState
job_state rr = elim rr.killed_reason [
  | some why ↦
      if str_eq why "cap" && is_some rr.session_file
      then suspended
      else (if str_eq why "wallclock" && is_some rr.session_file && ltb 0 rr.tokens_new
          then suspended
          else (if str_eq why "resume-unavailable" then failed else killed))
  | none ↦
      if exit_ok rr.exited_zero
      then done
      else (if is_some rr.session_file && ltb 0 rr.tokens_new then suspended else failed)
]

abbrev pub min_progress_tokens : ℕ
min_progress_tokens = 25_000

abbrev pub start_context_floor_tokens : ℕ
start_context_floor_tokens = 15_000

-- `MIN_START_EFFICIENCY`, 0.5, as a fraction.
abbrev pub efficiency_num : ℕ
efficiency_num = 1

abbrev pub efficiency_den : ℕ
efficiency_den = 2

abbrev div_ceil : ℕ → ℕ → ℕ
div_ceil a b = (a + b - 1) / b

-- ctx * eff / (1 - eff), rounded up, and never below the floor.
unfoldable pub min_useful : ℕ → ℕ
min_useful ctx =
    max min_progress_tokens (div_ceil (ctx * efficiency_num) (efficiency_den - efficiency_num))

-- `z - chain_spent` may be negative in the source; it then loses to the positive floor, as the 0
-- of a truncated difference does.
unfoldable pub resume_reservation : (ctx z chain_spent : ℕ) → ℕ
unfolding min_useful
resume_reservation ctx z chain_spent = ctx + max (z - chain_spent) (min_useful ctx)

unfoldable pub cold_reservation : ℕ → ℕ
unfolding min_useful
cold_reservation history =
    max history (start_context_floor_tokens + min_useful start_context_floor_tokens)

abbrev pub give_up_multiple : ℕ
give_up_multiple = 3

abbrev pub max_resume_attempts : ℕ
max_resume_attempts = 4

abbrev pub too_many : ChainStats → Bool
too_many c = leb max_resume_attempts c.attempts

abbrev pub too_costly : ℕ → ChainStats → Bool
too_costly z c = ltb 0 z && leb 2 c.attempts && ltb (give_up_multiple * z) (c.total - c.max_single)

-- Why an attempt is a pause.
abbrev pub PausedBy : RunResult → Type 0
PausedBy rr =
    (rr.killed_reason ≡ some "cap")
    ⊎ ((rr.killed_reason ≡ some "wallclock") × (0 < rr.tokens_new))
    ⊎ ((rr.killed_reason ≡ none) × (exit_ok rr.exited_zero ≡ false) × (0 < rr.tokens_new))

suspended_only :
    (rr : RunResult) (k : Option String)
    → rr.killed_reason ≡ k
    → job_state rr ≡ suspended
    → (is_some rr.session_file ≡ true) × PausedBy rr
unfolding job_state
suspended_only rr none e h = ground arith
suspended_only rr (some why) e h = ground (arith, eq_iff why "cap", eq_iff why "wallclock")

suspended_if :
    (rr : RunResult) → is_some rr.session_file ≡ true → PausedBy rr → job_state rr ≡ suspended
unfolding job_state
suspended_if rr s (inl cap) = rw (cap, job_state) (ground arith)
suspended_if rr s (inr (inl (wall, worked))) = rw (wall, job_state) (ground arith)
suspended_if rr s (inr (inr (died, bad, worked))) = rw (died, job_state) (ground arith)

-- An attempt is paused, rather than ended, exactly when its transcript was kept and it hit its
-- token bound, or ran out of wall clock after metered work, or died by itself after metered work.
pub job_state-suspended :
    (rr : RunResult) → (job_state rr ≡ suspended) ↔ ((is_some rr.session_file ≡ true) × PausedBy rr)
job_state-suspended rr = (suspended_only rr rr.killed_reason refl, λ h. suspended_if rr h.0 h.1)

-- At least half of what a resumed attempt reserves is for work, at least the floor, and the
-- whole of what the typical cost leaves after the chain's spend.
pub resume_reservation_bounds :
    (ctx z spent : ℕ)
    → (efficiency_num * resume_reservation ctx z spent
        ≤ efficiency_den * (resume_reservation ctx z spent - ctx))
      × (ctx + min_progress_tokens ≤ resume_reservation ctx z spent)
      × (ctx + z ≤ resume_reservation ctx z spent + spent)
unfolding resume_reservation
resume_reservation_bounds ctx z spent = omega arith

-- A cold start reserves its history or 40,000 tokens, whichever is more.
pub cold_reservation_lem : (h : ℕ) → cold_reservation h ≡ max h 40_000
unfolding cold_reservation
cold_reservation_lem h = omega arith
