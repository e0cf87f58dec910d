-- ===== src/Store/PullRequests.antt =====
-- The writes of hunter-rs/src/store.rs that bring `pr_state` up to date with the forge:
-- `mark_pr_merged`, `mark_pr_closed`, `sync_pr_open`, `mark_pr_engaged` and `set_pr_number`.
pub mod Harvest
use bug_hunter.Prelude.{
  ℕ, Bool, true, false, not, List, [], ◌∷◌, String, Option, none, some, ◌==◌, if◌then◌else◌,
}
use bug_hunter.Prelude.Tables.{exists_where}
use bug_hunter.Store.Rows.{PrState, Store}
use bug_hunter.Store.Findings.{update_pr}

-- A row with only its key, as an INSERT leaves the columns that it does not name.
abbrev pub blank : ℕ → PrState
blank fid = record {
  finding_id = fid;
  pr_number = none;
  state = none;
  mergeable = none;
  checks = none;
  head_ref = none;
  last_activity_at = none;
  last_engaged_activity_at = none;
  needs_attention = none;
  attention_since = none;
  attention_fingerprint = none;
  addressed_fingerprint = none;
  head_sha = none;
  addressed_head_sha = none;
  synced_at = none;
  harvested_at = none;
  harvest_attempts = 0;
  last_harvest_failure = none;
}

-- `pr_state.pr_number <> excluded.pr_number`: a stored NULL is not another number.
abbrev pub is_other : Option ℕ → ℕ → Bool
is_other none n = false
is_other (some m) n = not (m == n)

-- The number of the upserts, with their three CASEs on the harvest's columns.
abbrev pub renumbered : ℕ → PrState → PrState
renumbered n p = record p {
  pr_number = some n;
  harvested_at = if is_other p.pr_number n then none else p.harvested_at;
  harvest_attempts = if is_other p.pr_number n then 0 else p.harvest_attempts;
  last_harvest_failure = if is_other p.pr_number n then none else p.last_harvest_failure;
}

-- INSERT … ON CONFLICT(finding_id) DO UPDATE: `g` writes the same columns either way.
abbrev pub upsert_pr : ℕ → (PrState → PrState) → Store → Store
upsert_pr fid g s =
    if exists_where (λ p. p.finding_id == fid) s.pr_states
    then update_pr fid g s
    else record s { pr_states = g (blank fid) ∷ s.pr_states }

-- The columns of `mark_pr_merged` and `mark_pr_closed`, which differ in the state.
abbrev pub ended : String → (number synced_at : ℕ) → PrState → PrState
ended state number synced_at p = record (renumbered number p) {
  state = some state;
  needs_attention = none;
  synced_at = some synced_at;
}

unfoldable pub mark_pr_merged : (fid number synced_at : ℕ) → Store → Store
mark_pr_merged fid number synced_at = upsert_pr fid (ended "MERGED" number synced_at)

unfoldable pub mark_pr_closed : (fid number synced_at : ℕ) → Store → Store
mark_pr_closed fid number synced_at = upsert_pr fid (ended "CLOSED" number synced_at)

-- `attention_since` is `none` where the sync leaves the column alone.
pub record SyncPrData : Type 0 where
  pub pr_number : ℕ
  pub state : String
  pub mergeable : String
  pub checks : Option String
  pub head_ref : String
  pub head_sha : String
  pub last_activity_at : ℕ
  pub last_engaged_activity_at : ℕ
  pub needs_attention : Option String
  pub attention_fingerprint : Option String
  pub synced_at : ℕ
  pub attention_since : Option (Option ℕ)
  pub clear_addressed : Bool

abbrev pub synced : SyncPrData → PrState → PrState
synced d p = record (renumbered d.pr_number p) {
  state = some d.state;
  mergeable = some d.mergeable;
  checks = d.checks;
  head_ref = some d.head_ref;
  head_sha = some d.head_sha;
  last_activity_at = some d.last_activity_at;
  last_engaged_activity_at = some d.last_engaged_activity_at;
  needs_attention = d.needs_attention;
  attention_fingerprint = d.attention_fingerprint;
  synced_at = some d.synced_at;
}

abbrev pub set_since : ℕ → Option (Option ℕ) → Store → Store
set_since fid none s = s
set_since fid (some since) s = update_pr fid (λ p. record p { attention_since = since }) s

abbrev pub clear_addressed_of : ℕ → Bool → Store → Store
clear_addressed_of fid false s = s
clear_addressed_of fid true s =
    update_pr fid (λ p. record p { addressed_fingerprint = none; addressed_head_sha = none }) s

-- The three statements of the transaction.
unfoldable pub sync_pr_open : ℕ → SyncPrData → Store → Store
sync_pr_open fid d s =
    clear_addressed_of fid d.clear_addressed
      (set_since fid d.attention_since (upsert_pr fid (synced d) s))

unfoldable pub mark_pr_engaged :
    (fid last_engaged_activity_at synced_at : ℕ)
    → (fingerprint head_sha : Option String) → Store
    → Store
mark_pr_engaged fid last_engaged synced_at fingerprint head_sha = update_pr fid λ p. record p {
  last_engaged_activity_at = some last_engaged;
  synced_at = some synced_at;
  addressed_fingerprint = fingerprint;
  addressed_head_sha = head_sha;
}

unfoldable pub set_pr_number : (fid number : ℕ) → Store → Store
set_pr_number fid number = upsert_pr fid (renumbered number)
