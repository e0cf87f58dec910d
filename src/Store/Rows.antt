-- ===== src/Store/Rows.antt =====
-- The rows of hunter-rs/src/types.rs (`Finding`, `Job`, `Repo`, `PrState`), with the columns of
-- `jobs` that hunter-rs/src/store.rs reads by itself, and `VerdictAnchor`.
use bug_hunter.Prelude.{ℕ, Bool, true, false, List, String, Option, none, some, str_eq, ◌==◌}
use bug_hunter.Domain.Status.{FindingStatus, BudgetOverride, JobState}
use bug_hunter.Domain.Kinds.{JobKind, FindingType}

pub record Finding : Type 0 where
  pub id : ℕ
  pub type : FindingType
  pub repo_id : ℕ
  pub fingerprint : String
  pub file : Option String
  pub summary : String
  pub status : FindingStatus
  pub pr_url : Option String
  pub updated_at : ℕ
  pub verdict_reason : Option String
  pub budget_override : Option BudgetOverride
  pub package_name : Option String
  pub update_type : Option String
  pub fix_attempts : ℕ
  pub last_fix_failure : Option String
  pub recheck_attempts : ℕ
  pub last_recheck_failure : Option String

pub record Job : Type 0 where
  pub id : ℕ
  pub kind : JobKind
  pub repo_id : ℕ
  pub finding_id : Option ℕ
  pub state : JobState
  pub session_file : Option String
  pub cap_tokens : Option ℕ
  pub tokens_new : Option ℕ
  pub killed_reason : Option String
  pub notes : Option String
  pub started_at : Option ℕ
  pub finished_at : Option ℕ
  pub estimated_tokens : Option ℕ
  pub resumed_from : Option ℕ
  pub pinned_sha : Option String
  pub blocker : Option String
  pub full_history : Bool
  pub full_hunt_request : Option ℕ

-- `deleted_at IS NULL` is `live`.
pub record Repo : Type 0 where
  pub id : ℕ
  pub name : String
  pub path : String
  pub live : Bool
  pub enabled : Bool
  pub last_hunt_sha : Option String
  pub last_hunt_at : Option ℕ
  pub last_test_gap_at : Option ℕ
  pub last_dep_update_at : Option ℕ
  pub last_refactor_at : Option ℕ
  pub last_modernization_at : Option ℕ
  pub last_standards_at : Option ℕ
  pub last_full_hunt_at : Option ℕ
  pub full_hunt_requested_at : Option ℕ
  pub full_hunt_request_attempted : Option ℕ

pub record PrState : Type 0 where
  pub finding_id : ℕ
  pub pr_number : Option ℕ
  pub state : Option String
  pub mergeable : Option String
  pub checks : Option String
  pub head_ref : Option String
  pub last_activity_at : Option ℕ
  pub last_engaged_activity_at : Option ℕ
  pub needs_attention : Option String
  pub attention_since : Option ℕ
  pub attention_fingerprint : Option String
  pub addressed_fingerprint : Option String
  pub head_sha : Option String
  pub addressed_head_sha : Option String
  pub synced_at : Option ℕ
  pub harvested_at : Option ℕ
  pub harvest_attempts : ℕ
  pub last_harvest_failure : Option String

pub record VerdictAnchor : Type 0 where
  pub sha : String
  pub files : List String
  pub holds_while : Option String

-- `anchors` is `verdict_anchors`, whose key is the finding's id; `next_job` is the rowid that the
-- next INSERT into `jobs` gets.
pub record Store : Type 0 where
  pub findings : List Finding
  pub jobs : List Job
  pub repos : List Repo
  pub pr_states : List PrState
  pub anchors : List (ℕ × VerdictAnchor)
  pub next_job : ℕ

abbrev pub is_some {ℓ} : {A : Type ℓ} → Option A → Bool
is_some none = false
is_some (some a) = true

-- `COALESCE(a, b)` of two nullable columns, which is also `Option::or`.
abbrev pub coalesce {ℓ} : {A : Type ℓ} → Option A → Option A → Option A
coalesce none b = b
coalesce (some a) b = some a

abbrev pub unwrap_or {ℓ} : {A : Type ℓ} → Option A → A → A
unwrap_or none d = d
unwrap_or (some a) d = a

-- `column = value`, which a NULL column never is.
abbrev pub is_id : Option ℕ → ℕ → Bool
is_id none n = false
is_id (some m) n = m == n

-- `Some(s) == column`.
abbrev pub is_text : Option String → String → Bool
is_text none s = false
is_text (some t) s = str_eq t s
