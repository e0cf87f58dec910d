-- ===== src/Tests/Cycles.antt =====
-- The theorems on a cycle of the scheduler, at concrete inputs.
use bug_hunter.Prelude.{◌≡◌, refl, arith, false, [], Option, none, some}
use bug_hunter.Domain.Status.{killed, suspended, JobState}
use bug_hunter.Domain.Kinds.{RepoJobKind, test_gap, refactor}
use bug_hunter.Store.Rows.{Repo, Store}
use bug_hunter.Store.Jobs.{get_repo_by_id, list_resumable_jobs, set_last_kind_at}
use bug_hunter.Scheduler.Rotation.{rotation_kind}
use bug_hunter.Scheduler.Sync.{unviewed}
use bug_hunter.Scheduler.Select.Resume.{Candidate, scan, pick_resume}
use bug_hunter.Scheduler.Select.Tiers.{target}
use bug_hunter.Scheduler.Select.Rounds.{background, pick_rotation}
use bug_hunter.Scheduler.Cycle.{
  no_summary, ok, Executors, Environment, disk_denial, disk_gate, first_sync, pick_next, dispatch,
  run_cycle,
}
use bug_hunter.Scheduler.Cycle.Turn.{TurnOf, took_turn, selected, run_cycle-Turn}
use bug_hunter.Tests.Samples.{a_store, a_world}

abbrev idle_store : Store
idle_store = record a_store { findings = []; jobs = [] }

-- Every attempt comes to the same state.
abbrev executors_to : JobState → Executors
executors_to st = record {
  repo_job = λ k r plan s. (ok (record no_summary { state = some st }), s);
  finding_job = λ k f plan s. (ok (record no_summary { state = some st }), s);
}

abbrev an_environment : Environment
an_environment = record {
  world = a_world;
  look = λ r url. unviewed;
  faults = λ fid. record {
    set_status = false;
    mark_merged = false;
    mark_closed = false;
    set_verdict = false;
    sync_open = false;
  };
  bump_fails = false;
  statvfs = some (1_000_000, 4096);
  min_free_disk_bytes = 1_000_000_000;
  work_root = "/var/lib/bug-hunter";
  decimal = λ n. "n";
  quoted = λ s. s;
}

abbrev test_gap_scan : Candidate
test_gap_scan = scan test_gap 1 (some "demo")

run_cycle-Turn_example :
    TurnOf an_environment test_gap 1 1299
      (took_turn
        (dispatch
          (executors_to killed)
          an_environment
          test_gap_scan
          (selected an_environment none idle_store).1).0)
      (dispatch
        (executors_to killed)
        an_environment
        test_gap_scan
        (selected an_environment none idle_store).1).1
      (run_cycle (executors_to killed) an_environment none idle_store).1
unfolding disk_gate pick_next first_sync target background pick_resume list_resumable_jobs
    pick_rotation
run_cycle-Turn_example =
    run_cycle-Turn (executors_to killed) an_environment none idle_store test_gap_scan test_gap 1299
      refl refl refl refl (omega arith) (omega arith)

-- The scan that the rotation names just before the interval of the attempt has passed.
abbrev kind_of_repo : Option Repo → Option RepoJobKind
kind_of_repo none = none
kind_of_repo (some r) = rotation_kind a_world.intervals r 1299

abbrev kind_after : JobState → Option RepoJobKind
kind_after st =
    kind_of_repo (get_repo_by_id 1 (run_cycle (executors_to st) an_environment none idle_store).1)

killed_waits : kind_after killed ≡ some refactor
unfolding rotation_kind get_repo_by_id run_cycle set_last_kind_at target background pick_resume
    list_resumable_jobs pick_rotation
killed_waits = refl

suspended_keeps_its_turn : kind_after suspended ≡ some test_gap
unfolding rotation_kind get_repo_by_id run_cycle set_last_kind_at target background pick_resume
    list_resumable_jobs pick_rotation
suspended_keeps_its_turn = refl

full_disk :
    disk_denial an_environment 999_999_999
    ≡ some "disk: n MiB free under /var/lib/bug-hunter < n MiB"
unfolding disk_denial
full_disk = refl
