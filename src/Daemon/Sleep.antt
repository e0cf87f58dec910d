-- ===== src/Daemon/Sleep.antt =====
-- `compute_sleep_s` of hunter-rs/src/daemon.rs, in milliseconds.
use Prim.Native.Nat.{min, max}
use bug_hunter.Prelude.{
  ℕ, ◌+◌, ◌-◌, ◌≤◌, Bool, true, false, not, ◌&&◌, Option, none, some, ltb, arith, if◌then◌else◌,
}
use bug_hunter.Prelude.Tables.{count_where}
use bug_hunter.Domain.Status.{JobState, done, killed, failed, suspended, queued, status_eq}
use bug_hunter.Store.Rows.{Store}

-- What `compute_sleep_s` reads of a `CycleSummary`.
pub record CycleEnd : Type 0 where
  pub error : Bool
  pub state : Option JobState
  pub ingest_inserted : ℕ
  pub denied : Bool
  pub retry_at : Option ℕ
  pub skipped : Bool
  pub sync : Bool

abbrev pub pr_sync_interval_ms : ℕ
pr_sync_interval_ms = 300_000

unfoldable pub count_queued : Store → ℕ
count_queued s = count_where (λ f. status_eq f.status queued) s.findings

unfoldable pub count_enabled_repos : Store → ℕ
count_enabled_repos s = count_where (λ r. r.enabled && r.live) s.repos

abbrev pub has_ended : Option JobState → Bool
has_ended (some done) = true
has_ended (some killed) = true
has_ended (some failed) = true
has_ended (some suspended) = true
has_ended _ = false

-- `(until + 30).clamp(60, 3600)`: a retry time in the past gives the lower end.
abbrev pub retry_sleep : Option ℕ → (now : ℕ) → ℕ
retry_sleep none now = 1_800_000
retry_sleep (some at) now =
    if ltb 0 at then max 60_000 (min (at + 30_000 - now) 3_600_000) else 1_800_000

unfoldable pub base_sleep : CycleEnd → (now : ℕ) → Store → ℕ
unfolding count_queued count_enabled_repos
base_sleep c now s =
    if c.error
    then 300_000
    else (if has_ended c.state
        then (if ltb 0 (count_queued s)
            then 0
            else (if ltb 0 c.ingest_inserted
                then 5_000
                else (if ltb 0 (count_enabled_repos s) then 60_000 else 900_000)))
        else (if c.denied then retry_sleep c.retry_at now else (if c.skipped then 0 else 900_000)))

unfoldable pub compute_sleep : CycleEnd → (now : ℕ) → Store → ℕ
unfolding base_sleep
compute_sleep c now s =
    if c.sync && not c.denied
    then min (base_sleep c now s) pr_sync_interval_ms
    else base_sleep c now s

retry_sleep_bounds :
    (at : Option ℕ) (now : ℕ) → (60_000 ≤ retry_sleep at now) × (retry_sleep at now ≤ 3_600_000)
retry_sleep_bounds none now = omega arith
retry_sleep_bounds (some at) now = ground arith

base_sleep_bounds :
    (c : CycleEnd) (now : ℕ) (s : Store)
    → (base_sleep c now s ≤ 3_600_000)
      × ((if not c.error && not (has_ended c.state) && c.denied then 60_000 else 0)
          ≤ base_sleep c now s)
unfolding base_sleep
base_sleep_bounds c now s = ground (arith, retry_sleep_bounds c.retry_at now)

-- The daemon never sleeps longer than an hour, nor past the next sync of the pull requests when a
-- cycle synced them and was not denied; and a cycle that ended in a denial alone is followed by at
-- least a minute of sleep, synced or not.
pub compute_sleep_bounds :
    (c : CycleEnd) (now : ℕ) (s : Store)
    → (compute_sleep c now s ≤ (if c.sync && not c.denied then pr_sync_interval_ms else 3_600_000))
      × ((if not c.error && not (has_ended c.state) && c.denied then 60_000 else 0)
          ≤ compute_sleep c now s)
unfolding compute_sleep
compute_sleep_bounds c now s = ground (arith, base_sleep_bounds c now s)
