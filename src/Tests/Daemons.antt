-- ===== src/Tests/Daemons.antt =====
-- The theorems on the daemon, at concrete inputs.
use bug_hunter.Prelude.{◌≤◌, ◌≡◌, refl, true, false, not, ◌&&◌, [], ◌∷◌, none, some, if◌then◌else◌}
use bug_hunter.Prelude.Tables.{exists_where}
use bug_hunter.Domain.Status.{fixing, running}
use bug_hunter.Store.Rows.{Store}
use bug_hunter.Daemon.Reconcile.{Ledgers, is_fixing, is_running, reconcile_and_log}
use bug_hunter.Daemon.Recovered.{reconcile_and_log-clears}
use bug_hunter.Daemon.Sleep.{
  CycleEnd, compute_sleep, compute_sleep_bounds, pr_sync_interval_ms, has_ended,
}
use bug_hunter.Tests.Samples.{a_store, a_finding, a_job}

-- A fix was under way when the process died, and its transcript lies on disk.
abbrev crashed : Store
crashed = record a_store { findings = a_finding 7 fixing ∷ []; jobs = a_job 3 running none ∷ [] }

abbrev ledgers : Ledgers
ledgers = record { usage = λ origin. some ("s.jsonl", 500); in_use = λ origin. false }

reconcile_and_log-clears_example :
    let s' = reconcile_and_log ledgers 5 crashed in
    (exists_where is_fixing s'.findings ≡ false) × (exists_where (is_running s') s'.jobs ≡ false)
reconcile_and_log-clears_example = reconcile_and_log-clears ledgers 5 crashed

abbrev denied_cycle : CycleEnd
denied_cycle = record {
  error = false;
  state = none;
  ingest_inserted = 0;
  denied = true;
  retry_at = some 90_000;
  skipped = false;
  sync = true;
}

compute_sleep_bounds_example :
    (compute_sleep denied_cycle 20_000 a_store
      ≤ (if denied_cycle.sync && not denied_cycle.denied then pr_sync_interval_ms else 3_600_000))
    × ((if not denied_cycle.error && not (has_ended denied_cycle.state) && denied_cycle.denied
          then 60_000
          else 0)
        ≤ compute_sleep denied_cycle 20_000 a_store)
compute_sleep_bounds_example = compute_sleep_bounds denied_cycle 20_000 a_store

waits_for_the_window : compute_sleep denied_cycle 20_000 a_store ≡ 100_000
unfolding compute_sleep
waits_for_the_window = refl
