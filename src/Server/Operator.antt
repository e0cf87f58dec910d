-- ===== src/Server/Operator.antt =====
-- The operator's writes in hunter-rs/src/server.rs: `verdict`, `recheck` and `unqueue`. Each reads
-- the finding and then writes on the condition that its status is still the one that was read, so a
-- route has two databases: the one it reads, and the one it finds when it writes. The session and
-- the parsing of the body come before; the user's event and the wake of the scheduler after.
use bug_hunter.Prelude.{
  ℕ, Bool, true, false, not, ◌&&◌, ◌||◌, List, [], ◌∷◌, String, Option, none, some, str_eq,
  if◌then◌else◌,
}
use bug_hunter.Prelude.Tables.{first_where}
use bug_hunter.Domain.Status.{
  FindingStatus, new, rechecking, queued, fixing, blocked, pr_open, merged, closed, superseded,
  rejected, wontfix, note, status_name, is_verdict, awaits_verdict, reason_required, status_eq,
}
use bug_hunter.Store.Rows.{Finding, Store, is_some}
use bug_hunter.Store.Findings.{get_finding, set_verdict_if, claim_in_progress}

abbrev pub all_statuses : List FindingStatus
all_statuses =
    new ∷ rechecking ∷ queued ∷ fixing ∷ blocked ∷ pr_open ∷ merged ∷ closed ∷ superseded ∷ rejected
    ∷ wontfix ∷ note ∷ []

-- `filter(is_verdict)`.
unfoldable pub only_verdict : Option FindingStatus → Option FindingStatus
unfolding is_verdict
only_verdict none = none
only_verdict (some st) = if is_verdict st then some st else none

unfoldable pub verdict_status : String → Option FindingStatus
unfolding status_name only_verdict
verdict_status text = only_verdict (first_where (λ st. str_eq (status_name st) text) all_statuses)

pub data Reply : Type 0 where
  ok bad_request not_found conflict : Reply

-- The fields of the body, the reason trimmed and `none` where it was empty.
pub record VerdictBody : Type 0 where
  pub id : ℕ
  pub status : String
  pub reason : Option String

-- What the checks make of the database that is read: a refusal, or the verdict and the finding.
pub data Checked : Type 0 where
  refused : Reply → Checked
  admitted : FindingStatus → Finding → Checked

unfoldable pub check_verdict : VerdictBody → Store → Checked
check_verdict b s = elim (verdict_status b.status) [
  | none ↦ refused bad_request
  | some st ↦
      if reason_required st && not (is_some b.reason)
      then refused bad_request
      else elim (get_finding b.id s) [
        | none ↦ refused not_found
        | some f ↦
            if not (awaits_verdict f.status) || status_eq f.status st
            then refused bad_request
            else admitted st f
      ]
]

abbrev pub answer : Bool × Store → Reply × Store
answer (true, s) = (ok, s)
answer (false, s) = (conflict, s)

-- `set_verdict_if` for a verdict with a reason, `claim_in_progress` for one without.
abbrev pub write_verdict :
    ℕ → (reason : Option String) → (from to : FindingStatus) → (now : ℕ) → Store → Bool × Store
write_verdict fid none from to now s = claim_in_progress fid from to now s
write_verdict fid (some why) from to now s = set_verdict_if fid from to why now s

unfoldable pub apply_verdict : VerdictBody → (now : ℕ) → Checked → Store → Reply × Store
apply_verdict b now (refused r) s = (r, s)
apply_verdict b now (admitted st f) s = answer (write_verdict b.id b.reason f.status st now s)

unfoldable pub verdict : VerdictBody → (now : ℕ) → (read write : Store) → Reply × Store
unfolding check_verdict apply_verdict
verdict b now read write = apply_verdict b now (check_verdict b read) write

-- The body that `recheck` and `unqueue` share: from one status only, and on that condition.
unfoldable pub move_from :
    (from to : FindingStatus) → (fid now : ℕ) → (read write : Store) → Reply × Store
move_from from to fid now read write = elim (get_finding fid read) [
  | none ↦ (not_found, write)
  | some f ↦
      if status_eq f.status from
      then answer (claim_in_progress fid from to now write)
      else (bad_request, write)
]

unfoldable pub recheck : (fid now : ℕ) → (read write : Store) → Reply × Store
unfolding move_from
recheck = move_from new rechecking

unfoldable pub unqueue : (fid now : ℕ) → (read write : Store) → Reply × Store
unfolding move_from
unqueue = move_from queued new
