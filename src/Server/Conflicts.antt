-- ===== src/Server/Conflicts.antt =====
-- Operator routes of hunter-rs/src/server.rs with a write in between.
use bug_hunter.Prelude.{ℕ, ◌≡◌, ◌≢◌, refl, ap, true, false, String, Option, none, some, arith}
use bug_hunter.Prelude.Tables.{exists_where, exists_where-none}
use bug_hunter.Domain.Status.{new, queued, rechecking, FindingStatus, status_eq, status_eq_refl}
use bug_hunter.Store.Rows.{Finding, Store}
use bug_hunter.Store.Findings.{has_status, get_finding, set_verdict_if, claim_in_progress}
use bug_hunter.Store.Findings.Race.{exists_where-moved}
use bug_hunter.Server.Operator.{
  recheck, unqueue, move_from, conflict, VerdictBody, admitted, check_verdict, apply_verdict,
  answer, verdict, write_verdict,
}

-- A verdict from a status that no row is at changes nothing.
write_verdict-lost :
    (fid : ℕ) (reason : Option String) (from to : FindingStatus) (now : ℕ) (s : Store)
    → exists_where (has_status fid from) s.findings ≡ false
    → write_verdict fid reason from to now s ≡ (false, s)
unfolding set_verdict_if claim_in_progress
write_verdict-lost fid none from to now s gone = rw gone (
    ap (λ fs. (false, record s { findings = fs }))
      (exists_where-none (has_status fid from) _ s.findings gone))
write_verdict-lost fid (some why) from to now s gone = rw (gone, set_verdict_if)

-- When the finding that a verdict was checked against is claimed before the verdict is written, the
-- reply is a conflict and the claim stands.
pub verdict-claimed :
    (b : VerdictBody) (now later : ℕ) (s : Store) (st to : FindingStatus) (f : Finding)
    → check_verdict b s ≡ admitted st f
    → to ≢ f.status
    → (let s' = (claim_in_progress b.id f.status to now s).1 in
        verdict b later s s' ≡ (conflict, s'))
unfolding verdict apply_verdict claim_in_progress
verdict-claimed b now later s st to f checked ne =
    let claimed : Store = (claim_in_progress b.id f.status to now s).1 in
    rw (checked, verdict)
      (ap answer (
        write_verdict-lost b.id b.reason f.status st later claimed
          (exists_where-moved b.id f.status to _ s.findings ne (λ g. refl))))

claim-lost :
    (fid : ℕ) (from to : FindingStatus) (now : ℕ) (s : Store)
    → exists_where (has_status fid from) s.findings ≡ false
    → answer (claim_in_progress fid from to now s) ≡ (conflict, s)
claim-lost fid from to now s gone = ap answer (write_verdict-lost fid none from to now s gone)

move_from-lost :
    (from to other : FindingStatus) (fid now later : ℕ) (s : Store) (f : Finding)
    → get_finding fid s ≡ some f
    → f.status ≡ from
    → other ≢ from
    → (let s' = (claim_in_progress fid from other now s).1 in
        move_from from to fid later s s' ≡ (conflict, s'))
unfolding move_from claim_in_progress
move_from-lost from to other fid now later s f found at ne =
    let same : status_eq f.status from ≡ true = ground (arith, status_eq_refl from) in
    rw (found, same, move_from)
      (claim-lost fid from to later (claim_in_progress fid from other now s).1
        (exists_where-moved fid from other _ s.findings ne (λ x. refl)))

-- A recheck of a new finding, and an unqueue of a queued one, that was moved to another status
-- after the route had read it, is a conflict and changes nothing.
pub recheck-unqueue_conflict :
    (fid now later : ℕ) (s : Store) (f g : Finding) (to to' : FindingStatus) (t : Store)
    → get_finding fid s ≡ some f
    → f.status ≡ new
    → to ≢ new
    → get_finding fid t ≡ some g
    → g.status ≡ queued
    → to' ≢ queued
    → (let s' = (claim_in_progress fid new to now s).1 in recheck fid later s s' ≡ (conflict, s'))
      × (let t' = (claim_in_progress fid queued to' now t).1 in
          unqueue fid later t t' ≡ (conflict, t'))
unfolding recheck unqueue
recheck-unqueue_conflict fid now later s f g to to' t found at ne found' at' ne' = (
  move_from-lost new rechecking to fid now later s f found at ne,
  move_from-lost queued new to' fid now later t g found' at' ne',
)
