-- ===== src/Scheduler/Sync/Attention.antt =====
-- When a sync of hunter-rs/src/scheduler.rs flags an open pull request.
use Prim.Native.Nat.{max}
use bug_hunter.Prelude.{
  ℕ, ◌≤◌, Bool, true, false, String, Option, none, some, List, [], ◌∷◌, ◌≡◌, refl, ◌↔◌, ◌⊎◌, inl,
  inr, arith, ltb, eq_iff, if◌then◌else◌, Bool-cases,
}
use bug_hunter.Store.Rows
use bug_hunter.Store.Rows.{unwrap_or}
use bug_hunter.Forge.States.{PrView, GhCheckRun, is_failing}
use bug_hunter.Scheduler.Sync.{
  insert_name, check_name, check_result, failing_names, is_empty_list, fail_count, joined,
  wants_changes, conflicts, same_text, before, engaged_of, suppressed, reasons, attention_of, since,
  latest_activity_ms, sync_data,
}

abbrev pub is_none : {A : Type 0} → Option A → Bool
is_none none = true
is_none (some a) = false

insert_name-some : (n : String) (ms : List String) → is_empty_list (insert_name n ms) ≡ false
insert_name-some n [] = refl
insert_name-some n (m ∷ ms) = ground arith

-- There are names of failing checks just when checks fail.
failing_names-empty :
    (cs : List GhCheckRun) → (is_empty_list (failing_names cs) ≡ true) ↔ (fail_count cs ≡ 0)
failing_names-empty [] = ((λ e. refl), λ e. refl)
failing_names-empty (c ∷ cs) = elim (Bool-cases (is_failing (check_result c))) [
  | inl e ↦
      let filled = insert_name-some (check_name c) (failing_names cs) in
      rw (e, filled) ((λ t. cc), λ t. absurd (omega arith))
  | inr e ↦
      let (to, from) = failing_names-empty cs in
      rw e ((λ t. let z = to t in omega arith), λ t. from (omega arith))
]

joined-none : (sep : String) (ss : List String) → (joined sep ss ≡ none) ↔ (is_empty_list ss ≡ true)
joined-none sep [] = ((λ e. refl), λ e. refl)
joined-none sep (s ∷ ss) = ((λ e. cc), λ e. cc)

-- No reason is given.
reasons-empty :
    (fresh aside : Bool) (pr : PrView)
    → (is_empty_list (reasons fresh aside pr) ≡ true) ↔ (
        (fresh ≡ false)
        × ((aside ≡ true)
            ⊎ ((wants_changes pr.review_decision ≡ false)
                × (conflicts pr.mergeable ≡ false)
                × (is_empty_list (failing_names pr.status_check_rollup) ≡ true))))
reasons-empty true aside pr = ground arith
reasons-empty false true pr = ground arith
reasons-empty false false pr = ground arith

unflagged :
    (prev : Option Rows.PrState) (pr : PrView)
    → (attention_of prev pr ≡ none) ↔ (
        (ltb (engaged_of prev pr) (latest_activity_ms pr) ≡ false)
        × ((suppressed prev pr ≡ true)
            ⊎ ((wants_changes pr.review_decision ≡ false)
                × (conflicts pr.mergeable ≡ false)
                × (is_empty_list (failing_names pr.status_check_rollup) ≡ true))))
unfolding attention_of
unflagged prev pr =
    let fresh = ltb (engaged_of prev pr) (latest_activity_ms pr) in
    let (none_to, none_from) = joined-none "," (reasons fresh (suppressed prev pr) pr) in
    let (empty_to, empty_from) = reasons-empty fresh (suppressed prev pr) pr in
    ((λ e. empty_to (none_to e)), λ h. none_from (empty_from h))

same_text_iff : (a b : Option String) → (same_text a b ≡ true) ↔ (a ≡ b)
same_text_iff none none = ((λ e. refl), λ e. refl)
same_text_iff none (some b) = ((λ e. cc), λ e. cc)
same_text_iff (some a) none = ((λ e. cc), λ e. cc)
same_text_iff (some a) (some b) = ground (arith, eq_iff a b)

since-none :
    (b : Bool) (attention : Option String) (now : ℕ) → (since b attention now ≡ none) ↔ (b ≡ true)
since-none true attention now = ((λ e. refl), λ e. refl)
since-none false none now = ((λ e. cc), λ e. cc)
since-none false (some a) now = ((λ e. cc), λ e. cc)

-- Nothing is newer than the watermark, and no static reason stands that is not set aside.
abbrev pub Quiet : Option Rows.PrState → PrView → Type 0
Quiet prev pr =
    (latest_activity_ms pr ≤ engaged_of prev pr)
    × ((suppressed prev pr ≡ true)
        ⊎ ((wants_changes pr.review_decision ≡ false)
            × (conflicts pr.mergeable ≡ false)
            × (fail_count pr.status_check_rollup ≡ 0)))

-- An open pull request is not flagged exactly when no comment or review on it is newer than the
-- engaged watermark and it has no requested changes, no conflict and no failing check, or only
-- those that an engage left at this head. The time of the flag is written exactly when its reasons
-- are others than those on record. Without a watermark on record, no comment or review is new.
pub sync_data-Quiet :
    (decimal : ℕ → String) (prev : Option Rows.PrState) (number : ℕ) (pr : PrView) (now : ℕ)
    → let d = sync_data decimal prev number pr now in
      ((d.needs_attention ≡ none) ↔ Quiet prev pr)
      × ((d.attention_since ≡ none) ↔ (d.needs_attention ≡ before prev (λ p. p.needs_attention)))
      × ((if is_none (before prev (λ p. p.last_engaged_activity_at)) then d.last_activity_at else 0)
          ≤ d.last_engaged_activity_at)
unfolding sync_data
sync_data-Quiet decimal prev number pr now =
    let (to, from) = unflagged prev pr in
    let (names_to, names_from) = failing_names-empty pr.status_check_rollup in
    let old = before prev (λ p. p.needs_attention) in
    let (same_to, same_from) = same_text_iff (attention_of prev pr) old in
    let (since_to, since_from) =
      since-none (same_text (attention_of prev pr) old) (attention_of prev pr) now in
    (
      (
        (λ e.
            let (quiet, still) = to e in
            (
              ground arith,
              elim still [
                | inl aside ↦ inl aside
                | inr (changes, conflict, names) ↦ inr (changes, conflict, names_to names)
              ],
            )),
        λ (quiet, still). from (
          ground arith,
          elim still [
            | inl aside ↦ inl aside
            | inr (changes, conflict, checks) ↦ inr (changes, conflict, names_from checks)
          ],
        ),
      ),
      ((λ e. same_to (since_to e)), λ e. since_from (same_from e)),
      watermark (before prev (λ p. p.last_engaged_activity_at)),
    )
  where
    watermark :
        (o : Option ℕ)
        → (if is_none o then latest_activity_ms pr else 0)
          ≤ unwrap_or o (max pr.updated_at (latest_activity_ms pr))
    watermark none = omega arith
    watermark (some at) = omega arith
