-- ===== src/Server/Verdicts.antt =====
-- What a reply of the operator's routes in hunter-rs/src/server.rs says.
use bug_hunter.Prelude.{
  ℕ, ◌≡◌, ◌≢◌, refl, ◌∙◌, ap, subst, str_eq, eq_iff, Bool, true, false, not, ◌&&◌, ◌||◌, String,
  Option, none, some, arith, Bool-cases, Option-cases, inl, inr, ◌⊎◌,
}
use bug_hunter.Prelude.Tables.{exists_where, first_where-exists, first_where_passes}
use bug_hunter.Domain.Status.{
  FindingStatus, status_name, is_verdict, awaits_verdict, reason_required, status_eq,
  status_eq_refl,
}
use bug_hunter.Store.Rows.{Finding, Store, is_some}
use bug_hunter.Store.Findings.{
  has_id, has_status, get_finding, set_verdict_if, claim_in_progress, with_verdict, update_findings,
}
use bug_hunter.Scheduler.Fix.Moves.{At, updated, its_id, write_anchor-At}
use bug_hunter.Server.Operator.{
  Reply, ok, bad_request, not_found, conflict, VerdictBody, Checked, refused, admitted,
  only_verdict, verdict_status, check_verdict, apply_verdict, answer, verdict, write_verdict,
  all_statuses,
}

-- What the checks let through.
abbrev pub Allowed : VerdictBody → Store → Checked → Type 0
Allowed b s (refused r) = (r ≢ ok) × (r ≢ conflict)
Allowed b s (admitted st f) =
    (status_name st ≡ b.status)
    × (get_finding b.id s ≡ some f)
    × (is_verdict st ≡ true)
    × (awaits_verdict f.status ≡ true)
    × (f.status ≢ st)
    × ((reason_required st ≡ false) ⊎ (is_some b.reason ≡ true))

only_verdict_sound :
    (o : Option FindingStatus) (st : FindingStatus)
    → only_verdict o ≡ some st
    → (o ≡ some st) × (is_verdict st ≡ true)
unfolding only_verdict
only_verdict_sound none st e = cc
only_verdict_sound (some x) st e = elim (Bool-cases (is_verdict x)) [
  | inl t ↦
      let same : x ≡ st = ground arith in (ap some same, subst (λ y. is_verdict y ≡ true) same t)
  | inr t ↦ ground arith
]

-- Only the name of a verdict is read as one, and as that one.
verdict_status_sound :
    (text : String) (st : FindingStatus)
    → verdict_status text ≡ some st
    → (status_name st ≡ text) × (is_verdict st ≡ true)
unfolding verdict_status
verdict_status_sound text st e =
    let (found, named) = only_verdict_sound _ st e in
    let fits = first_where_passes (λ x. str_eq (status_name x) text) all_statuses st found in
    ((eq_iff (status_name st) text).0 fits, named)

-- A verdict is checked against the finding as it was read: only a verdict status, only on a finding
-- that awaits one, only to change it, and with a reason where its status requires one.
check_verdict-Allowed : (b : VerdictBody) (s : Store) → Allowed b s (check_verdict b s)
unfolding check_verdict
check_verdict-Allowed b s = elim (Option-cases (verdict_status b.status)) [
  | inl unknown ↦ rw (unknown, check_verdict) (λ e. cc, λ e. cc)
  | inr (st, named) ↦ elim (Bool-cases (reason_required st && not (is_some b.reason))) [
    | inl bare ↦ rw (named, bare, check_verdict) (λ e. cc, λ e. cc)
    | inr reasoned ↦ elim (Option-cases (get_finding b.id s)) [
      | inl gone ↦ rw (named, reasoned, gone, check_verdict) (λ e. cc, λ e. cc)
      | inr (f, found) ↦
          elim (Bool-cases (not (awaits_verdict f.status) || status_eq f.status st)) [
            | inl owned ↦ rw (named, reasoned, found, owned, check_verdict) (λ e. cc, λ e. cc)
            | inr free ↦
                rw (named, reasoned, found, free, check_verdict)
                  (
                    (verdict_status_sound b.status st named).0,
                    found,
                    (verdict_status_sound b.status st named).1,
                    ground arith,
                    λ e. ground (arith, status_eq_refl st),
                    ground arith,
                  )
          ]
    ]
  ]
]

-- A reply of a route whose read and write see the same database.
abbrev pub Lawful : VerdictBody → Store → Reply × Store → Type 0
Lawful b s (ok, s') =
    (st : FindingStatus) × (f : Finding) × Allowed b s (admitted st f) × At b.id st s'
Lawful b s (conflict, s') = ⊥
Lawful b s (bad_request, s') = s' ≡ s
Lawful b s (not_found, s') = s' ≡ s

module _ (b : VerdictBody) (now : ℕ) (s : Store) (st : FindingStatus) (f : Finding)
    (allowed : Allowed b s (admitted st f)) where
  awaits : exists_where (has_status b.id f.status) s.findings ≡ true
  unfolding get_finding
  awaits =
      first_where-exists (has_id b.id) (λ g. status_eq g.status f.status) s.findings f allowed.1
        (status_eq_refl f.status)

  write-At :
      (g : Finding → Finding)
      → ((x : Finding) → ((g x).id ≡ x.id) × ((g x).status ≡ st))
      → At b.id st (update_findings (has_status b.id f.status) g s)
  write-At g h =
      let here : At b.id f.status s = (f, allowed.1, refl) in
      let q : has_status b.id f.status f ≡ true =
        ground (arith, its_id b.id f.status s here, status_eq_refl f.status) in
      (g f, updated b.id f.status s here _ g (λ x. (h x).0) ∙ rw q, (h f).1)

  written :
      (reason : Option String)
      → let r = write_verdict b.id reason f.status st now s in (r.0 ≡ true) × At b.id st r.1
  unfolding set_verdict_if claim_in_progress
  written none = (awaits, write-At _ (λ x. (refl, refl)))
  written (some why) =
      rw (awaits, set_verdict_if)
        (
          refl,
          write_anchor-At b.id none st _ (write-At (with_verdict st why now) (λ x. (refl, refl))),
        )

  answer-Lawful : (r : Bool × Store) → r.0 ≡ true → At b.id st r.1 → Lawful b s (answer r)
  answer-Lawful (true, t) e at = (st, f, allowed, at)
  answer-Lawful (false, t) e at = cc

checked-Lawful :
    (b : VerdictBody) (now : ℕ) (s : Store) (c : Checked)
    → Allowed b s c
    → Lawful b s (apply_verdict b now c s)
unfolding apply_verdict
checked-Lawful b now s (refused ok) a = absurd (a.0 refl)
checked-Lawful b now s (refused conflict) a = absurd (a.1 refl)
checked-Lawful b now s (refused bad_request) a = refl
checked-Lawful b now s (refused not_found) a = refl
checked-Lawful b now s (admitted st f) a =
    let (won, at) = written b now s st f a b.reason in
    answer-Lawful b now s st f a (write_verdict b.id b.reason f.status st now s) won at

-- With nobody else writing, a verdict that is accepted is the verdict status that the request names,
-- on a finding that awaited one and had another status, with a reason where it needs one, and it is
-- the finding's status afterwards; any other reply leaves the database as it was and is no conflict.
pub verdict-Lawful : (b : VerdictBody) (now : ℕ) (s : Store) → Lawful b s (verdict b now s s)
unfolding verdict
verdict-Lawful b now s = checked-Lawful b now s (check_verdict b s) (check_verdict-Allowed b s)
