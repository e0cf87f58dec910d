-- ===== src/Backends/Capacity.antt =====
-- hunter-rs/src/backends/omp_scavenge/capacity.rs: reading the usage windows, and their ramps.
-- `usage_history` is a list of rows, `readable` when every cell of it decodes.
pub mod Newest
pub mod Shown
pub mod Current
pub mod Rolling
use bug_hunter.Prelude.{
  ℕ, zero, suc, ◌+◌, ◌-◌, Bool, true, false, ◌&&◌, ◌||◌, not, String, Option, none, some, List, [],
  ◌∷◌, str_eq, ltb, leb, ◌==◌, if◌then◌else◌,
}
use bug_hunter.Prelude.Tables.{rows_where, exists_where, sort_by}
use bug_hunter.Store.Rows.{is_some}
use Prim.Native.String.{compare}
use text.Mathlib.Text.{is_lt}
use bug_hunter.Backends.Floats.{ℤ, pos, sub_i64, FloatOps}
use bug_hunter.Backends.Provider.{
  Period, fixed, calendar_month, Pacing, linear, after_headroom, QuotaWindow, Quota, WindowState,
  int, window, gating_window, fixed_ms, headroom_ms,
}

-- The loop of the roll forward: (resets_at, recorded_at), from `none` when the fuel runs out.
unfoldable pub roll_forward : (fuel period resets recorded now : ℕ) → Option (ℕ × ℕ)
roll_forward zero period resets recorded now = none
roll_forward (suc fuel) period resets recorded now =
    let next = roll_forward fuel period (resets + period) resets now in
    if leb resets now then next else some (resets, recorded)

-- `Some(0)` is no reset.
abbrev pub expired : Option ℕ → (now : ℕ) → Bool
expired none now = false
expired (some r) now = ltb 0 r && leb r now

pub record UsageRow (F : Type 0) : Type 0 where
  pub provider : String
  pub readable : Bool
  pub limit_id : String
  pub used_fraction : Option F
  pub status : Option String
  pub resets_at : Option ℕ
  pub recorded_at : ℕ

module _ {F : Type 0} where
  abbrev pub newer_row : UsageRow F → UsageRow F → Bool
  newer_row a b = ltb b.recorded_at a.recorded_at

  -- The rows of one `limit_id` after its first are not its `rn = 1`.
  abbrev pub first_of_each : List String → List (UsageRow F) → List (UsageRow F)
  first_of_each seen [] = []
  first_of_each seen (x ∷ xs) =
      if exists_where (str_eq x.limit_id) seen
      then first_of_each seen xs
      else x ∷ first_of_each (x.limit_id ∷ seen) xs

  abbrev pub newest_rows : String → List (UsageRow F) → List (UsageRow F)
  newest_rows name rows =
      first_of_each [] (sort_by newer_row (rows_where (λ r. str_eq r.provider name) rows))

  abbrev pub key_less : WindowState F → WindowState F → Bool
  key_less a b = is_lt (compare a.limit_id b.limit_id)

module _ {F : Type 0} (fl : FloatOps F) where
  -- `(now_ms - at) as f64 / 1000.0`.
  abbrev pub age : (now at : ℕ) → F
  age now at = fl.div (fl.of_i64 (sub_i64 now at)) (int fl 1_000)

  abbrev pub verbatim : (now : ℕ) → UsageRow F → WindowState F
  verbatim now r = record {
    limit_id = r.limit_id;
    used_fraction = r.used_fraction;
    status = r.status;
    resets_at = r.resets_at;
    recorded_at = r.recorded_at;
    age_s = age now r.recorded_at;
  }

  abbrev pub rolled : (now : ℕ) → UsageRow F → ℕ × ℕ → WindowState F
  rolled now r (resets, recorded) = record {
    limit_id = r.limit_id;
    used_fraction = some (int fl 0);
    status = some "ok";
    resets_at = some resets;
    recorded_at = recorded;
    age_s = age now recorded;
  }

  -- An expired row of a fixed period: `suc now` steps are enough.
  abbrev pub roll_row : (now : ℕ) → UsageRow F → (period resets : ℕ) → Option (WindowState F)
  roll_row now r period resets =
      elim (roll_forward (suc (suc now)) period resets r.recorded_at now) [
        | none ↦ none
        | some at ↦ some (rolled now r at)
      ]

  abbrev pub read_row : Quota F → (now : ℕ) → UsageRow F → Option (WindowState F)
  read_row q now r =
      if not q.reads_other_limits && not (is_some (gating_window fl q r.limit_id))
      then none
      else (if expired r.resets_at now
          then elim (window fl q r.limit_id) [
            | none ↦ none
            | some w ↦ elim (fixed_ms w.period) [
              | none ↦ none
              | some period ↦ elim r.resets_at [
                | none ↦ none
                | some resets ↦ roll_row now r period resets
              ]
            ]
          ]
          else some (verbatim now r))

  abbrev pub read_rows : Quota F → (now : ℕ) → List (UsageRow F) → List (WindowState F)
  read_rows q now [] = []
  read_rows q now (r ∷ rs) = elim (read_row q now r) [
    | none ↦ read_rows q now rs
    | some w ↦ w ∷ read_rows q now rs
  ]

  -- The map in ascending order of its keys; one unreadable cell empties it.
  unfoldable pub read_windows :
      Quota F → (name : String) → List (UsageRow F) → (now : ℕ) → List (WindowState F)
  read_windows q name history now =
      let rows = newest_rows name history in
      if exists_where (λ r. not r.readable) rows
      then []
      else sort_by key_less (read_rows q now rows)

  unfoldable pub ramp_linear : Option ℕ → (period now : ℕ) → F
  ramp_linear none period now = int fl 1
  ramp_linear (some zero) period now = int fl 1
  ramp_linear (some (suc r)) period now =
      fl.min (fl.div (fl.of_i64 (sub_i64 (now + period) (suc r))) (int fl period)) (int fl 1)

  unfoldable pub ramp_after_headroom : Option ℕ → (period now : ℕ) → Option F
  ramp_after_headroom none period now = none
  ramp_after_headroom (some zero) period now = none
  ramp_after_headroom (some (suc r)) period now =
      if leb (suc r) now
      then none
      else some (
          fl.max
            (fl.div (fl.sub (fl.of_i64 (sub_i64 (period + now) (suc r))) (int fl headroom_ms))
              (fl.of_i64 (sub_i64 period headroom_ms)))
            (int fl 0))

  unfoldable pub retry_at_linear : Option ℕ → (period : ℕ) → F → Option F
  retry_at_linear none period used = none
  retry_at_linear (some zero) period used = none
  retry_at_linear (some (suc r)) period used = some (
      fl.min (fl.add (fl.of_i64 (sub_i64 (suc r) period)) (fl.mul used (int fl period)))
        (int fl (suc r)))

  unfoldable pub retry_at_after_headroom : Option ℕ → (period : ℕ) → F → Option F
  retry_at_after_headroom none period used = none
  retry_at_after_headroom (some zero) period used = none
  retry_at_after_headroom (some (suc r)) period used = some (
      fl.min
        (fl.add (fl.add (fl.of_i64 (sub_i64 (suc r) period)) (int fl headroom_ms))
          (fl.mul used (fl.of_i64 (sub_i64 period headroom_ms))))
        (int fl (suc r)))

  -- `Period::length_ms`, `QuotaWindow::ramp` and `QuotaWindow::retry_at`.
  module _ (previous_month : ℕ → Option ℕ) where
    unfoldable pub length_ms : Period → Option ℕ → Option ℕ
    length_ms (fixed period) resets = some period
    length_ms calendar_month none = none
    length_ms calendar_month (some reset) = elim (previous_month reset) [
      | none ↦ none
      | some start ↦ some (reset - start)
    ]

    unfoldable pub ramp : QuotaWindow F → Option ℕ → (now : ℕ) → Option F
    unfolding length_ms ramp_linear ramp_after_headroom
    ramp w resets now = elim (length_ms w.period resets) [
      | none ↦ none
      | some period ↦ elim w.pacing [
        | linear ↦ some (ramp_linear resets period now)
        | after_headroom ↦ ramp_after_headroom resets period now
      ]
    ]

    unfoldable pub retry_at : QuotaWindow F → Option ℕ → F → Option F
    unfolding length_ms retry_at_linear retry_at_after_headroom
    retry_at w resets used = elim (length_ms w.period resets) [
      | none ↦ none
      | some period ↦ elim w.pacing [
        | linear ↦ retry_at_linear resets period used
        | after_headroom ↦ retry_at_after_headroom resets period used
      ]
    ]
