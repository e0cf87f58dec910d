-- ===== src/Lib.antt =====
-- A model of the core of bug-hunter's daemon (hunter-rs), which looks for bugs in a set of
-- repositories with an AI worker, one job at a time, and keeps what it finds in SQLite: how a
-- finding moves between statuses, how attempts at a piece of work are suspended, resumed, given up
-- and retired, and how the scheduler chooses the next job.
--
-- The parts, and the files that model them:
--
--   * Domain (hunter-rs/src/domain.rs): Domain/Status has FindingStatus, ClosureClass,
--     BudgetOverride and JobState, Domain/Kinds has JobKind, FindingType and BugClass, each with its
--     texts and parsers; Domain/RoundTrip is about those.
--   * Store (hunter-rs/src/store.rs, rows of hunter-rs/src/types.rs): the database is the record
--     `Store` of Store/Rows, a list of rows for each table. A statement is a function from store to
--     store, of the name that the method has in the source, built from the SELECT, EXISTS and
--     UPDATE of Prelude/Tables; the time that the source reads from the clock is the argument `now`.
--     Store/PullRequests has the upserts of the pull-request sync, Store/FullHunt the re-hunt
--     requests.
--     Store/Findings has the writes to findings, pull-request rows and verdict anchors, Store/Jobs
--     those to jobs, Store/Dependencies has upsert_finding and the
--     statements of a dependency scan with settle_dep_updates of the scheduler, and Store/Jobs/Chain the recursive queries along resumed_from.
--   * Scheduler (hunter-rs/src/scheduler.rs): Scheduler/Attempt has job_state and the reservations,
--     Scheduler/Rotation has rotation_kind, Scheduler/Estimate has anticipated_tokens, and
--     Scheduler/Select has select: its tiers in Select/Tiers, resume_plan, finding_pick and
--     pick_resume in Select/Resume, count_given_up_chain and what it calls in Select/GiveUp, and
--     the rounds of the selection in Select/Rounds. Scheduler/Fix has record_fix_outcome.
--     Scheduler/Sync has sync_prs with checks_summary and attention_fingerprint. Scheduler/Cycle has
--     run_cycle: the sync, disk_gate, pick_next, dispatch, the turn of a scan; and budget_gate.
--     Scheduler/Decline has parse_decline.
--   * Forge (hunter-rs/src/forge.rs): Forge/States has its enumerations and rows, with the normal
--     forms of GitLab's, Forge/Screen has screen_feedback with ReviewBots, Forge/Lookup LookupCache
--     and cached_lookup, and Forge/Urls what is read from a repository's URL, as lists of code points.
--   * Backends (hunter-rs/src/backend.rs, hunter-rs/src/backends/omp_scavenge): Backends/Provider has
--     provider.rs, Backends/Capacity has capacity.rs, Backends/Decide the reservations and verdicts of
--     facade.rs, and Backends/Overdrive OverdriveBackend and NullBackend.
--   * Suppression (hunter-rs/src/suppression.rs): verdict_anchor, which is `rejection_anchor` there, repo_path,
--     changed_since and reopen_if_changed.
--   * Server (hunter-rs/src/server.rs): Server/Operator has the routes by which the operator moves a
--     finding: verdict, recheck and unqueue.
--   * Daemon (hunter-rs/src/daemon.rs): Daemon/Reconcile has reconcile_and_log, and Daemon/Sleep has
--     compute_sleep_s.
--
-- How they interact: the scheduler and the routes read and write the store only. A route reads the
-- finding first and writes later, on the condition that the status it read is still there; in between
-- the scheduler may write, so a route takes both databases. A selection reads the tiers,
-- plans a resume from the chain queries, and on its way retires suspensions and counts a chain that
-- it gives up against its finding, which may end the finding's work; then it selects again. Creating
-- a job takes over the suspensions of the same work. The sync reads a pull request through the forge,
-- whose screen decides whose feedback counts, and writes findings and pull-request rows; what it
-- flags is a tier of the selection. The backend decides from the usage windows whether a selected
-- job may run.
--
-- Modelling choices. Ids, times and token counts are natural numbers: rowids and clock times are
-- positive, and the meter reports no negative count. A difference of times or token counts that may be
-- negative in the source is written as a comparison of sums, or where the source takes the maximum
-- with a positive floor as a difference that stops at 0. Text that only goes to the event log or
-- to a row's notes is left out or is an argument; database errors are left out, each transaction
-- being taken to succeed or to be refused by its own conditions. The file system is the record
-- `World` of Select/Resume: which chains have their tree, which transcripts lie in their session
-- directory, the context a transcript ended with, and which repositories are cloned. What the forge
-- answers is an argument: who may push, who is a bot, what a pull request shows. `f64` is a record of
-- its operations (Backends/Floats), the first instant of the month before a time is a function, and
-- the sync takes which of its writes fail. A cycle takes the executors of the job kinds as functions.
--
-- Bounds and fuel. The chain walks take the 64 steps of RESUME_CHAIN_MAX_DEPTH, as the recursive
-- queries do. The recursion of `select` is on fuel, since a given-up chain makes it select again;
-- Select/Rounds/Work has the number that bounds its rounds, and pick_next starts with one more. The roll forward of an expired usage
-- window is on fuel: each step adds a whole period, so two more than the present time is enough.
-- A capacity that is scaled from another window's has fuel for the one such link that the quota tables
-- have. Everything else is structural recursion.
--
-- Not modelled: the executors of the jobs, which call git, the forge and the worker; the calls of gh,
-- glab and git themselves; the calibration of the capacities and the status page; the other routes,
-- accounts, configuration and web interface; the dependency scan, the file of
-- reconfirmations, ingest, playbooks and workspaces.
-- Most of this does input and output, or passes rows on.
pub mod Prelude
pub mod Domain
pub mod Store
pub mod Scheduler
pub mod Forge
pub mod Suppression
pub mod Backends
pub mod Server
pub mod Daemon
pub mod Tests
