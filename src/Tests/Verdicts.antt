-- ===== src/Tests/Verdicts.antt =====
-- Anchored verdicts and a settled dependency scan at concrete inputs.
use bug_hunter.Prelude.{ℕ, true, false, String, Option, none, some, [], ◌∷◌, ◌≡◌, ◌⊎◌, refl, map}
use bug_hunter.Prelude.Texts.{Text, codes}
use bug_hunter.Domain.Status.{
  FindingStatus, new, queued, rejected, BudgetOverride, exempt, status_name,
}
use bug_hunter.Domain.Kinds.{dep_update, type_name}
use bug_hunter.Store.Rows.{Finding, Store}
use bug_hunter.Store.Dependencies.{
  DepScan, settle_dep_updates, supersede_unproposed_dep_updates, hand_over_queued_dep_updates,
}
use bug_hunter.Suppression.{Git, rejection_anchor, repo_path, is_outside, reopen_if_changed}
use bug_hunter.Suppression.Watched.{Watches, rejection_anchor-Watches}
use bug_hunter.Suppression.Lapsed.{HasLapsed, Reopened, reopen_if_changed-lapsed}
use bug_hunter.Tests.Samples.{a_finding, a_store}

abbrev named : Text → Option Text
named raw = repo_path raw

a_location : named (codes "`./src/a.rs:42:7`") ≡ some (codes "src/a.rs")
unfolding repo_path is_outside
a_location = refl

a_climb : named (codes "src/../../x") ≡ none
unfolding repo_path is_outside
a_climb = refl

rejection_anchor-Watches_example : Watches rejected "abc" (
    rejection_anchor rejected "abc"
      (some (codes "src/a.rs:4"))
      (some (codes " the trim stands "))
      (codes "src/a.rs" ∷ codes "/etc/passwd" ∷ []))
rejection_anchor-Watches_example =
    rejection_anchor-Watches rejected "abc" (some (codes "src/a.rs:4"))
      (some (codes " the trim stands ")) (codes "src/a.rs" ∷ codes "/etc/passwd" ∷ [])

abbrev dismissed : Store
dismissed = record a_store {
  findings = a_finding 7 rejected ∷ [];
  anchors = (7, record { sha = "abc"; files = "src/a.rs" ∷ []; holds_while = none }) ∷ [];
}

abbrev all_changed : Git
all_changed clone from at files = (0, codes "src/a.rs")

reopen_if_changed-lapsed_example :
    (let (reopened, after) = reopen_if_changed all_changed 1 7 (some 3) "again" 9 dismissed in
      ((reopened ≡ true) × HasLapsed all_changed 1 7 (some 3) dismissed × Reopened 7 after)
      ⊎ ((reopened ≡ false)
          × (¬ HasLapsed all_changed 1 7 (some 3) dismissed)
          × (after ≡ dismissed)))
reopen_if_changed-lapsed_example =
    reopen_if_changed-lapsed all_changed 1 7 (some 3) "again" 9 dismissed

abbrev an_update : (id : ℕ) → FindingStatus → (fingerprint : String) → Finding
an_update id st fingerprint = record (a_finding id st) {
  type = dep_update;
  fingerprint = fingerprint;
  package_name = some "node";
}

-- One that is not proposed, one that is, and one that waits in the queue under an old key.
abbrev updates : Store
updates = record a_store {
  findings =
      an_update 11 new "gone"
      ∷ an_update 12 new "node@20"
      ∷ record (an_update 13 queued "old") { budget_override = some exempt }
      ∷ [];
}

abbrev scan : DepScan
scan = record {
  candidates = record { fingerprint = "node@20"; unit = "node"; moves = ("node", false) ∷ [] } ∷ [];
  unchecked = [];
}

abbrev why_text : ℕ → String
why_text id = "replaced"

handed_over :
    map {B = String × Option BudgetOverride}
      (λ f. (status_name f.status, f.budget_override))
      (settle_dep_updates why_text 1 scan 9 updates).2.findings
    ≡ ("superseded", none) ∷ ("queued", some exempt) ∷ ("superseded", some exempt) ∷ []
unfolding settle_dep_updates supersede_unproposed_dep_updates hand_over_queued_dep_updates type_name
    status_name
handed_over = refl
