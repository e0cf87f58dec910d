-- ===== src/Store/Findings/Streak.antt =====
-- The failure streaks of hunter-rs/src/store.rs: `record_fix_attempt`, `record_recheck_attempt`,
-- `record_harvest_attempt`.

use bug_hunter.Prelude.{
  ℕ, zero, suc, ◌+◌, ◌≡◌, ◌≢◌, ◌∙◌, ◌⊎◌, inl, inr, String, str_eq, Option, none, some, arith,
  eq_refl, eq_iff, Bool-cases,
}
use bug_hunter.Prelude.Tables.{first_where-update}
use bug_hunter.Store.Rows.{Finding, Store}
use bug_hunter.Store.Findings.{has_id, get_finding, record_fix_attempt, next_streak}

-- `n + 1` failed fixes in a row, and the count that the last one reports.
abbrev pub fail_fix : ℕ → (fid : ℕ) → String → (now : ℕ) → Store → ℕ × Store
fail_fix zero fid failure now s = record_fix_attempt fid failure now s
fail_fix (suc n) fid failure now s =
    fail_fix n fid failure now (record_fix_attempt fid failure now s).1

get_finding-record :
    (fid : ℕ) (failure : String) (now : ℕ) (s : Store) (f : Finding)
    → get_finding fid s ≡ some f
    → get_finding fid (record_fix_attempt fid failure now s).1
      ≡ some (record f {
        fix_attempts = next_streak f.last_fix_failure f.fix_attempts failure;
        last_fix_failure = some failure;
        updated_at = now;
      })
unfolding get_finding record_fix_attempt
get_finding-record fid failure now s f e =
    first_where-update (has_id fid) _ s.findings (λ x h. h) ∙ rw e

count_of_record :
    (fid : ℕ) (failure : String) (now : ℕ) (s : Store) (f : Finding)
    → get_finding fid s ≡ some f
    → (record_fix_attempt fid failure now s).0
      ≡ next_streak f.last_fix_failure f.fix_attempts failure
unfolding record_fix_attempt get_finding
count_of_record fid failure now s f e = rw (e, record_fix_attempt)

streak_counts :
    (n fid : ℕ) (failure : String) (now : ℕ) (s : Store) (f : Finding)
    → get_finding fid s ≡ some f
    → (fail_fix n fid failure now s).0 ≡ next_streak f.last_fix_failure f.fix_attempts failure + n
streak_counts zero fid failure now s f e = omega (arith, count_of_record fid failure now s f e)
streak_counts (suc n) fid failure now s f e =
    streak_counts n fid failure now _ _ (get_finding-record fid failure now s f e)
    ∙ rw (eq_refl failure) (omega arith)

-- The count after `runs` failures in a row, by the last failure on record and its count.
abbrev pub Counted : Option String → (attempts : ℕ) → String → (runs total : ℕ) → Type 0
Counted none attempts failure runs total = total ≡ runs
Counted (some last) attempts failure runs total =
    ((last ≡ failure) × (total ≡ attempts + runs)) ⊎ ((last ≢ failure) × (total ≡ runs))

next_streak-Counted :
    (last : Option String) (attempts n total : ℕ) (failure : String)
    → total ≡ next_streak last attempts failure + n
    → Counted last attempts failure (suc n) total
next_streak-Counted none attempts n total failure e = omega arith
next_streak-Counted (some last) attempts n total failure e =
    elim (Bool-cases (str_eq last failure)) [
      | inl t ↦ inl ((eq_iff last failure).0 t, e ∙ rw t (omega arith))
      | inr t ↦ inr (λ same. ground (arith, (eq_iff last failure).1 same), e ∙ rw t (omega arith))
    ]

-- On a stored finding, one or more failures with the same text in a row report a count that goes
-- on from the stored one where the last failure on record has that text, and that is their own
-- number where it has another text or there is none.
pub fail_fix-counts :
    (n fid : ℕ) (failure : String) (now : ℕ) (s : Store) (f : Finding)
    → get_finding fid s ≡ some f
    → Counted f.last_fix_failure f.fix_attempts failure (suc n) (fail_fix n fid failure now s).0
fail_fix-counts n fid failure now s f e =
    next_streak-Counted f.last_fix_failure f.fix_attempts n _ failure
      (streak_counts n fid failure now s f e)
