-- ===== src/Tests/Samples.antt =====
-- Rows, a small database and a world for the tests.
use bug_hunter.Prelude.{ℕ, true, false, [], ◌∷◌, Option, none, some, ◌==◌}
use bug_hunter.Domain.Status.{FindingStatus, queued, JobState, suspended}
use bug_hunter.Domain.Kinds.{finding, fix, bug}
use bug_hunter.Store.Rows.{Finding, Job, Repo, Store}
use bug_hunter.Scheduler.Rotation.{Intervals}
use bug_hunter.Scheduler.Select.Resume.{World}

abbrev pub a_finding : (id : ℕ) → FindingStatus → Finding
a_finding id st = record {
  id = id;
  type = bug;
  repo_id = 1;
  fingerprint = "f";
  file = none;
  summary = "";
  status = st;
  pr_url = none;
  updated_at = 0;
  verdict_reason = none;
  budget_override = none;
  package_name = none;
  update_type = none;
  fix_attempts = 0;
  last_fix_failure = none;
  recheck_attempts = 0;
  last_recheck_failure = none;
}

abbrev pub a_job : (id : ℕ) → JobState → (resumed_from : Option ℕ) → Job
a_job id st resumed_from = record {
  id = id;
  kind = finding fix;
  repo_id = 1;
  finding_id = some 7;
  state = st;
  session_file = some "s.jsonl";
  cap_tokens = none;
  tokens_new = some 10;
  killed_reason = none;
  notes = none;
  started_at = some 0;
  finished_at = none;
  estimated_tokens = none;
  resumed_from = resumed_from;
  pinned_sha = some "abc";
  blocker = none;
  full_history = false;
  full_hunt_request = none;
}

abbrev pub a_repo : Repo
a_repo = record {
  id = 1;
  name = "demo";
  path = "/srv/demo";
  live = true;
  enabled = true;
  last_hunt_sha = none;
  last_hunt_at = some 500;
  last_test_gap_at = some 400;
  last_dep_update_at = some 900;
  last_refactor_at = some 400;
  last_modernization_at = some 950;
  last_standards_at = some 100;
  last_full_hunt_at = none;
  full_hunt_requested_at = none;
  full_hunt_request_attempted = none;
}

-- One queued finding, with a fix that was suspended.
abbrev pub a_store : Store
a_store = record {
  findings = a_finding 7 queued ∷ [];
  jobs = a_job 3 suspended none ∷ [];
  repos = a_repo ∷ [];
  pr_states = [];
  anchors = [];
  next_job = 4;
}

abbrev pub some_intervals : Intervals
some_intervals = record { scan_ms = 300; modernization_ms = 2000; standards_ms = 2000 }

abbrev pub a_world : World
a_world = record {
  now = 1000;
  cache_ttl_ms = 100;
  intervals = some_intervals;
  has_tree = λ origin. origin == 3;
  in_session_dir = λ origin session. true;
  ctx_at_suspension = λ session. some 20_000;
  is_cloned = λ r. true;
  report = λ j. "given up";
}
