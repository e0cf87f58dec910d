-- ===== src/Scheduler/Sync.antt =====
-- `sync_prs` of hunter-rs/src/scheduler.rs: one pass over the open pull requests. What the forge
-- shows of a pull request is given, with its parsed number; `Faults` says which of the writes to
-- the store fail. Log entries are left out.
pub mod Closing
pub mod Attention
pub mod Counts
use Prim.Native.Nat.{max}
use Prim.Native.String.{◌++◌ as str_append}
use Prim.Native.String
use bug_hunter.Prelude.{
  ℕ, ◌+◌, ◌-◌, Bool, true, false, not, ◌&&◌, ◌||◌, List, [], ◌∷◌, String, Option, none, some,
  str_eq, ◌==◌, ltb, map, if◌then◌else◌,
}
use bug_hunter.Prelude.Tables.{rows_where, count_where, length, sort_by}
use bug_hunter.Prelude.Texts.{Text}
use text.Mathlib.Text.{is_lt}
use bug_hunter.Domain.Status.{FindingStatus, queued, pr_open, status_eq}
use bug_hunter.Domain.Status
use bug_hunter.Store.Rows.{Finding, Repo, Store, coalesce, is_some, unwrap_or}
use bug_hunter.Store.Rows
use bug_hunter.Store.Jobs.{get_repo_by_id}
use bug_hunter.Store.Findings.{get_pr_state, set_finding_status, set_finding_verdict}
use bug_hunter.Store.PullRequests.{SyncPrData, mark_pr_merged, mark_pr_closed, sync_pr_open}
use bug_hunter.Scheduler.Select.Tiers.{newer_finding}
use bug_hunter.Forge.States.{
  PrView, PrState, opened, merged, closed, Mergeable, conflicting, ReviewDecision,
  changes_requested, GhCheckRun, CheckConclusion, parse_check, is_failing, is_passing,
  pr_state_text, mergeable_text, first_given,
}

-- `SyncResult`.
pub record SyncResult : Type 0 where
  pub synced : ℕ
  pub merged : ℕ
  pub closed : ℕ
  pub attention : ℕ
  pub errors : ℕ

-- What parsing a URL and viewing its pull request come to.
pub data Seen : Type 0 where
  unparseable : Seen
  unviewed : Seen
  viewed : (pr_number : ℕ) (pr : PrView) → Seen

pub record Faults : Type 0 where
  pub set_status : Bool
  pub mark_merged : Bool
  pub mark_closed : Bool
  pub set_verdict : Bool
  pub sync_open : Bool

-- A write whose failure is logged and passed over.
abbrev pub unless_fails : Bool → (Store → Store) → Store → Store
unless_fails true write s = s
unless_fails false write s = write s

abbrev latest : List ℕ → ℕ
latest [] = 0
latest (t ∷ ts) = max t (latest ts)

unfoldable pub latest_activity_ms : PrView → ℕ
latest_activity_ms pr =
    max (latest (map (λ c. c.created_at) pr.comments))
      (latest (map (λ r. r.submitted_at) pr.reviews))

-- `BTreeSet::insert`.
abbrev pub insert_name : String → List String → List String
insert_name n [] = n ∷ []
insert_name n (m ∷ ms) =
    let rest = insert_name n ms in
    if is_lt (String.compare n m) then n ∷ (m ∷ ms) else (if str_eq n m then m ∷ ms else m ∷ rest)

abbrev pub check_name : GhCheckRun → String
check_name c = unwrap_or (coalesce c.name c.context) "?"

abbrev pub check_result : GhCheckRun → CheckConclusion
check_result c = parse_check (first_given c.conclusion c.state)

abbrev pub failing_names : List GhCheckRun → List String
failing_names [] = []
failing_names (c ∷ cs) =
    let rest = failing_names cs in
    if is_failing (check_result c) then insert_name (check_name c) rest else rest

abbrev pub is_empty_list : {A : Type 0} → List A → Bool
is_empty_list [] = true
is_empty_list (x ∷ xs) = false

abbrev pub join : String → List String → String
join sep [] = ""
join sep (s ∷ []) = s
join sep (s ∷ (t ∷ ts)) = str_append s (str_append sep (join sep (t ∷ ts)))

abbrev pub fail_count : List GhCheckRun → ℕ
fail_count rollup = count_where (λ c. is_failing (check_result c)) rollup

abbrev pub pass_count : List GhCheckRun → ℕ
pass_count rollup = count_where (λ c. is_passing (check_result c)) rollup

-- `attention_fingerprint`, and the part of it that each static reason gives.
abbrev pub part_if : Bool → String → List String → List String
part_if true part rest = part ∷ rest
part_if false part rest = rest

abbrev pub wants_changes : ReviewDecision → Bool
wants_changes changes_requested = true
wants_changes _ = false

abbrev pub conflicts : Mergeable → Bool
conflicts conflicting = true
conflicts _ = false

abbrev pub joined : String → List String → Option String
joined sep [] = none
joined sep (s ∷ ss) = some (join sep (s ∷ ss))

unfoldable pub attention_fingerprint : PrView → List String → Option String
attention_fingerprint pr names = joined "|" (
    part_if (wants_changes pr.review_decision) "review:CHANGES_REQUESTED" (
      part_if (conflicts pr.mergeable) "mergeable:CONFLICTING"
        (part_if (not (is_empty_list names)) (str_append "checks:" (join "," names)) [])))

-- `a == b` of two optional texts.
abbrev pub same_text : Option String → Option String → Bool
same_text none none = true
same_text none (some b) = false
same_text (some a) none = false
same_text (some a) (some b) = str_eq a b

-- A column of the row that was read before, if there was one.
abbrev pub before : {A : Type 0} → Option Rows.PrState → (Rows.PrState → Option A) → Option A
before none column = none
before (some p) column = column p

abbrev pub engaged_of : Option Rows.PrState → PrView → ℕ
engaged_of prev pr =
    unwrap_or (before prev (λ p. p.last_engaged_activity_at))
      (max pr.updated_at (latest_activity_ms pr))

-- The static reasons are those that an engage left as they were, at the same head.
abbrev pub suppressed : Option Rows.PrState → PrView → Bool
suppressed prev pr =
    let fp = attention_fingerprint pr (failing_names pr.status_check_rollup) in
    is_some fp
    && same_text fp (before prev (λ p. p.addressed_fingerprint))
    && is_some (before prev (λ p. p.addressed_head_sha))
    && same_text (some pr.head_sha) (before prev (λ p. p.addressed_head_sha))

abbrev pub reasons : (new_comments suppressed : Bool) → PrView → List String
reasons new_comments set_aside pr = part_if new_comments "new_comments" (
    part_if (not set_aside && wants_changes pr.review_decision) "changes_requested" (
      part_if (not set_aside && conflicts pr.mergeable) "conflict" (
        part_if (not set_aside && not (is_empty_list (failing_names pr.status_check_rollup)))
          "checks_failing" [])))

unfoldable pub attention_of : Option Rows.PrState → PrView → Option String
unfolding latest_activity_ms attention_fingerprint
attention_of prev pr =
    joined "," (reasons (ltb (engaged_of prev pr) (latest_activity_ms pr)) (suppressed prev pr) pr)

abbrev pub since : Bool → Option String → (now : ℕ) → Option (Option ℕ)
since true attention now = none
since false (some reason) now = some (some now)
since false none now = some none

-- The addressed reasons no longer stand, or stand at another head.
abbrev pub clears : Option Rows.PrState → PrView → Bool
clears prev pr =
    let fp = attention_fingerprint pr (failing_names pr.status_check_rollup) in
    is_some (before prev (λ p. p.addressed_fingerprint))
    && (not (same_text fp (before prev (λ p. p.addressed_fingerprint)))
        || not (same_text (some pr.head_sha) (before prev (λ p. p.addressed_head_sha))))

abbrev pub closed_reason : String
closed_reason = "PR closed without merge; awaiting harvest"

abbrev pub sync_merged : Faults → ℕ → ℕ → (now : ℕ) → SyncResult × Store → SyncResult × Store
sync_merged x fid number now (sum, s) = (
  record sum { merged = sum.merged + 1 },
  unless_fails x.mark_merged (mark_pr_merged fid number now)
      (unless_fails x.set_status (set_finding_status fid Status.merged now) s),
)

-- The closure is recorded first; a finding whose closure is not recorded stays as it is.
abbrev pub sync_closed : Faults → ℕ → ℕ → (now : ℕ) → SyncResult × Store → SyncResult × Store
sync_closed x fid number now (sum, s) =
    if x.mark_closed then (record sum { errors = sum.errors + 1 }, s) else (
      record sum { closed = sum.closed + 1 },
      unless_fails x.set_verdict (set_finding_verdict fid Status.closed closed_reason now)
          (mark_pr_closed fid number now s),
    )

abbrev pub failed_sync : SyncResult × Store → SyncResult × Store
failed_sync (sum, s) = (record sum { errors = sum.errors + 1 }, s)

-- A non-empty `pr_url`.
abbrev pub given_url : Option String → Option String
given_url none = none
given_url (some url) = if str_eq url "" then none else some url

-- `decimal` is how Rust prints a count.
module _ (decimal : ℕ → String) where
  -- `checks_summary`; whether any check fails is whether there are names.
  unfoldable pub checks_summary : List GhCheckRun → Option String × List String
  checks_summary [] = (none, [])
  checks_summary (c ∷ cs) =
      let rollup = c ∷ cs in
      let pending = length rollup - fail_count rollup - pass_count rollup in
      (
        some (
            join " / " (
              str_append (decimal (pass_count rollup)) " pass"
              ∷ part_if (not (is_empty_list (failing_names rollup)))
                  (str_append (decimal (fail_count rollup)) " fail")
                  (part_if (ltb 0 pending) (str_append (decimal pending) " pending") []))),
        failing_names rollup,
      )

  unfoldable pub sync_data : Option Rows.PrState → (pr_number : ℕ) → PrView → (now : ℕ) → SyncPrData
  unfolding checks_summary attention_of latest_activity_ms attention_fingerprint
  sync_data prev pr_number pr now =
      let attention = attention_of prev pr in
      record {
        pr_number = pr_number;
        state = pr_state_text pr.state;
        mergeable = mergeable_text pr.mergeable;
        checks = (checks_summary pr.status_check_rollup).0;
        head_ref = pr.head_ref;
        head_sha = pr.head_sha;
        last_activity_at = latest_activity_ms pr;
        last_engaged_activity_at = engaged_of prev pr;
        needs_attention = attention;
        attention_fingerprint = attention_fingerprint pr (failing_names pr.status_check_rollup);
        synced_at = now;
        attention_since =
            since (same_text attention (before prev (λ p. p.needs_attention))) attention now;
        clear_addressed = clears prev pr;
      }

  abbrev pub sync_opened :
      Faults → ℕ → ℕ → PrView → (now : ℕ) → SyncResult × Store → SyncResult × Store
  sync_opened x fid number pr now (sum, s) =
      let d = sync_data (get_pr_state fid s) number pr now in
      (
        record sum {
          synced = sum.synced + 1;
          attention = if is_some d.needs_attention then sum.attention + 1 else sum.attention;
        },
        unless_fails x.sync_open (sync_pr_open fid d) s,
      )

  abbrev pub sync_state :
      PrState → Faults → ℕ → ℕ → PrView → (now : ℕ) → SyncResult × Store → SyncResult × Store
  sync_state merged x fid number pr now w = sync_merged x fid number now w
  sync_state closed x fid number pr now w = sync_closed x fid number now w
  sync_state opened x fid number pr now w = sync_opened x fid number pr now w

  abbrev pub sync_seen : Seen → Faults → ℕ → (now : ℕ) → SyncResult × Store → SyncResult × Store
  sync_seen unparseable x fid now w = failed_sync w
  sync_seen unviewed x fid now w = failed_sync w
  sync_seen (viewed number pr) x fid now w = sync_state pr.state x fid number pr now w

  abbrev pub sync_repo :
      (Repo → String → Seen)
      → Option Repo
      → String
      → Faults
      → ℕ
      → (now : ℕ) → SyncResult × Store
      → SyncResult × Store
  sync_repo look none url x fid now w = failed_sync w
  sync_repo look (some repo) url x fid now w = sync_seen (look repo url) x fid now w

  abbrev pub sync_url :
      (Repo → String → Seen)
      → Finding
      → Option String
      → Faults
      → (now : ℕ) → SyncResult × Store
      → SyncResult × Store
  sync_url look f none x now (sum, s) =
      (sum, unless_fails x.set_status (set_finding_status f.id queued now) s)
  sync_url look f (some url) x now (sum, s) =
      sync_repo look (get_repo_by_id f.repo_id s) url x f.id now (sum, s)

  -- The body of the loop.
  unfoldable pub sync_one :
      (Repo → String → Seen)
      → Finding
      → Faults
      → (now : ℕ) → SyncResult × Store
      → SyncResult × Store
  unfolding get_repo_by_id get_pr_state set_finding_status set_finding_verdict mark_pr_merged
      mark_pr_closed sync_pr_open sync_data
  sync_one look f x now w = sync_url look f (given_url f.pr_url) x now w

  abbrev pub sync_each :
      (Repo → String → Seen)
      → (ℕ → Faults)
      → (now : ℕ) → List Finding
      → SyncResult × Store
      → SyncResult × Store
  sync_each look faults now [] w = w
  sync_each look faults now (f ∷ fs) w =
      sync_each look faults now fs (sync_one look f (faults f.id) now w)

  -- The findings are those at `pr_open` when the pass begins, as `list_findings` orders them.
  unfoldable pub sync_prs :
      (Repo → String → Seen) → (ℕ → Faults) → (now : ℕ) → Store → SyncResult × Store
  unfolding sync_one
  sync_prs look faults now s =
      sync_each look faults now
        (sort_by newer_finding (rows_where (λ f. status_eq f.status pr_open) s.findings))
        (record { synced = 0; merged = 0; closed = 0; attention = 0; errors = 0 }, s)
