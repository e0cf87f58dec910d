-- ===== src/Store/Dependencies.antt =====
-- How hunter-rs/src/store.rs files a finding, and brings the dependency updates on record in line
-- with a scan, as `settle_dep_updates` of hunter-rs/src/scheduler.rs asks it to. Of the columns of an
-- analysis, `file`, `summary`, `package_name` (`package`) and `update_type` are kept.
pub mod Settled
use bug_hunter.Prelude.{
  ℕ, ◌+◌, Bool, true, false, not, ◌&&◌, ◌||◌, List, [], ◌∷◌, ◌++◌, String, Option, none, some, map,
  str_eq, ◌==◌, ltb, leb, if◌then◌else◌,
}
use bug_hunter.Prelude.Tables.{
  rows_where, first_where, exists_where, update_where, count_where, sort_by,
}
use text.Mathlib.Text.{starts_with}
use bug_hunter.Domain.Status.{
  FindingStatus, new, queued, superseded, status_eq, BudgetOverride, once, exempt,
}
use bug_hunter.Domain.Kinds.{FindingType, dep_update, type_name}
use bug_hunter.Store.Rows.{Finding, Store, coalesce, is_text}
use bug_hunter.Store.Findings.{has_id, has_status, update_findings}

-- `FindingInsert`.
pub record FindingInsert : Type 0 where
  pub fingerprint : String
  pub file : String
  pub summary : String
  pub package_name : Option String
  pub update_type : Option String

abbrev pub has_type : FindingType → Finding → Bool
has_type t f = str_eq (type_name f.type) (type_name t)

-- The row of an INSERT, with the rowid that it gets.
abbrev pub inserted_finding : (id repo_id : ℕ) → FindingType → FindingInsert → (now : ℕ) → Finding
inserted_finding id repo_id t row now = record {
  id = id;
  type = t;
  repo_id = repo_id;
  fingerprint = row.fingerprint;
  file = some row.file;
  summary = row.summary;
  status = new;
  pr_url = none;
  updated_at = now;
  verdict_reason = none;
  budget_override = none;
  package_name = row.package_name;
  update_type = row.update_type;
  fix_attempts = 0;
  last_fix_failure = none;
  recheck_attempts = 0;
  last_recheck_failure = none;
}

abbrev pub same_key : FindingType → String → Finding → Bool
same_key t fingerprint f = has_type t f && str_eq f.fingerprint fingerprint

abbrev pub or_insert : Finding → Store → Option Finding → ℕ × Bool × Store
or_insert row s (some f) = (f.id, false, s)
or_insert row s none = (row.id, true, record s { findings = row ∷ s.findings })

unfoldable pub upsert_finding :
    (next_id repo_id : ℕ) → FindingInsert → FindingType → (now : ℕ) → Store → ℕ × Bool × Store
upsert_finding next_id repo_id row t now s =
    or_insert (inserted_finding next_id repo_id t row now) s
      (first_where (same_key t row.fingerprint) s.findings)

abbrev pub dep_unproposed_reason : String
dep_unproposed_reason = "no longer proposed by the dependency scan"

-- `column IS NOT value`.
abbrev pub differs : Option String → Option String → Bool
differs none none = false
differs none (some b) = true
differs (some a) none = true
differs (some a) (some b) = not (str_eq a b)

abbrev pub outdated : ℕ → FindingInsert → Finding → Bool
outdated fid row f =
    f.id == fid
    && has_type dep_update f
    && (status_eq f.status new
        || status_eq f.status queued
        || (status_eq f.status superseded && is_text f.verdict_reason dep_unproposed_reason))
    && (status_eq f.status superseded
        || differs f.file (some row.file)
        || not (str_eq f.summary row.summary)
        || differs f.package_name row.package_name
        || differs f.update_type row.update_type)

-- Both CASEs see the status before the update.
abbrev pub refreshed : FindingInsert → (now : ℕ) → Finding → Finding
refreshed row now f = record f {
  file = some row.file;
  summary = row.summary;
  package_name = row.package_name;
  update_type = row.update_type;
  status = if status_eq f.status superseded then new else f.status;
  verdict_reason = if status_eq f.status superseded then none else f.verdict_reason;
  updated_at = now;
}

unfoldable pub refresh_dep_update : ℕ → FindingInsert → (now : ℕ) → Store → Bool × Store
refresh_dep_update fid row now s = (
  exists_where (outdated fid row) s.findings,
  update_findings (outdated fid row) (refreshed row now) s,
)

abbrev pub in_list : String → List String → Bool
in_list x xs = exists_where (str_eq x) xs

-- `package NOT IN (…)`, which is NULL for a NULL package_name and any element.
abbrev pub package_not_in : Option String → List String → Bool
package_not_in p [] = true
package_not_in none (x ∷ xs) = false
package_not_in (some p) (x ∷ xs) = not (in_list p (x ∷ xs))

abbrev pub unproposed : ℕ → (proposed unchecked : List String) → Finding → Bool
unproposed repo_id proposed unchecked f =
    f.repo_id == repo_id
    && has_type dep_update f
    && status_eq f.status new
    && not (in_list f.fingerprint proposed)
    && package_not_in f.package_name unchecked

unfoldable pub supersede_unproposed_dep_updates :
    ℕ → (proposed unchecked : List String) → (now : ℕ) → Store → ℕ × Store
supersede_unproposed_dep_updates repo_id proposed unchecked now s = (
  count_where (unproposed repo_id proposed unchecked) s.findings,
  update_findings (unproposed repo_id proposed unchecked)
      (λ f. record f {
        status = superseded;
        verdict_reason = some dep_unproposed_reason;
        updated_at = now;
      })
      s,
)

pub record ProposedMove : Type 0 where
  pub fingerprint : String
  pub unit : String
  pub package_name : String
  pub major : Bool

abbrev pub same_bool : Bool → Bool → Bool
same_bool true b = b
same_bool false b = not b

-- The ON of the join with the moves.
abbrev pub is_move_of : Finding → ProposedMove → Bool
is_move_of q m =
    (is_text q.package_name m.package_name && same_bool m.major (is_text q.update_type "major"))
    || starts_with q.fingerprint m.unit

-- A finding that the queued one `q` may hand over to.
abbrev pub takes_over : Finding → List ProposedMove → Finding → Bool
takes_over q moves p =
    p.repo_id == q.repo_id
    && has_type dep_update p
    && status_eq p.status new
    && exists_where (λ m. is_move_of q m && str_eq p.fingerprint m.fingerprint) moves

abbrev pub hands_over : ℕ → List ProposedMove → Finding → Bool
hands_over repo_id moves q =
    q.repo_id == repo_id
    && has_type dep_update q
    && status_eq q.status queued
    && not (exists_where (λ m. str_eq q.fingerprint m.fingerprint) moves)

abbrev pub least_of : Option ℕ → ℕ → Option ℕ
least_of none id = some id
least_of (some m) id = some (if leb m id then m else id)

-- `MIN(p.id)`, absent when nothing joins.
abbrev pub min_id : List Finding → Option ℕ
min_id [] = none
min_id (f ∷ fs) = least_of (min_id fs) f.id

abbrev pub paired : ℕ → Option ℕ → List (ℕ × ℕ) → List (ℕ × ℕ)
paired from none rest = rest
paired from (some to) rest = (from, to) ∷ rest

abbrev pub pairs : List Finding → List ProposedMove → List Finding → List (ℕ × ℕ)
pairs all moves [] = []
pairs all moves (q ∷ qs) =
    paired q.id (min_id (rows_where (takes_over q moves) all)) (pairs all moves qs)

abbrev pub is_exempt : Option BudgetOverride → Bool
is_exempt (some exempt) = true
is_exempt _ = false

-- The strongest override of the two.
abbrev pub strongest : (own other : Option BudgetOverride) → Option BudgetOverride
strongest own other = if is_exempt own || is_exempt other then some exempt else coalesce own other

abbrev pub override_of : Option Finding → Option BudgetOverride
override_of none = none
override_of (some f) = f.budget_override

abbrev pub retire_queued : (from to now : ℕ) → (reason : String) → Store → Store
retire_queued from to now reason =
    update_findings (has_status from queued)
      (λ f. record f { status = superseded; verdict_reason = some reason; updated_at = now })

abbrev pub takes_queue : ℕ → Finding → Bool
takes_queue to f = f.id == to && (status_eq f.status new || status_eq f.status queued)

abbrev pub queue_instead : (from to now : ℕ) → Store → Store
queue_instead from to now s =
    update_findings (takes_queue to)
      (λ f. record f {
        status = queued;
        updated_at = now;
        budget_override =
            strongest f.budget_override (override_of (first_where (has_id from) s.findings));
      })
      s

-- One pair of the hand-over; `why` is the text of its reason.
unfoldable pub hand_one : (why : ℕ → String) → ℕ × ℕ → (now : ℕ) → ℕ × Store → ℕ × Store
hand_one why (from, to) now (handed, s) =
    if exists_where (has_status from queued) s.findings
    then (handed + 1, queue_instead from to now (retire_queued from to now (why to) s))
    else (handed, s)

abbrev pub hand_each : (ℕ → String) → List (ℕ × ℕ) → (now : ℕ) → ℕ × Store → ℕ × Store
hand_each why [] now w = w
hand_each why (p ∷ ps) now w = hand_each why ps now (hand_one why p now w)

abbrev pub by_id : Finding → Finding → Bool
by_id f g = ltb f.id g.id

unfoldable pub hand_over_queued_dep_updates :
    (ℕ → String) → ℕ → List ProposedMove → (now : ℕ) → Store → ℕ × Store
unfolding hand_one
hand_over_queued_dep_updates why repo_id moves now s =
    hand_each why
      (pairs s.findings moves (sort_by by_id (rows_where (hands_over repo_id moves) s.findings)))
      now (0, s)

-- What `settle_dep_updates` reads of a scan: a candidate is its fingerprint, its unit and, for each
-- of its moves, the package_name and whether the move is a major one.
pub record DepCandidate : Type 0 where
  pub fingerprint : String
  pub unit : String
  pub moves : List (String × Bool)

pub record DepScan : Type 0 where
  pub candidates : List DepCandidate
  pub unchecked : List String

abbrev pub moves_of : List DepCandidate → List ProposedMove
moves_of [] = []
moves_of (c ∷ cs) =
    map
      (λ m. record { fingerprint = c.fingerprint; unit = c.unit; package_name = m.0; major = m.1 })
      c.moves
    ++ moves_of cs

unfoldable pub settle_dep_updates : (ℕ → String) → ℕ → DepScan → (now : ℕ) → Store → ℕ × ℕ × Store
unfolding supersede_unproposed_dep_updates hand_over_queued_dep_updates
settle_dep_updates why repo_id scan now s =
    let (retired, s') =
      supersede_unproposed_dep_updates repo_id (map (λ c. c.fingerprint) scan.candidates)
        scan.unchecked now s in
    let (handed, s'') =
      hand_over_queued_dep_updates why repo_id (moves_of scan.candidates) now s' in
    (retired, handed, s'')
