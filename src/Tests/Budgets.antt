-- ===== src/Tests/Budgets.antt =====
-- The windows and the verdicts of the budget at concrete inputs: numbers with three decimal places
-- stand for `f64`.
use Prim.Native.Nat.{max, min}
use bug_hunter.Prelude.{
  ℕ, ◌+◌, ◌-◌, ◌*◌, ◌/◌, true, false, Option, none, some, List, [], ◌∷◌, ◌≡◌, refl, ltb, inl,
}
use bug_hunter.Backends.Floats.{ℤ, pos, negsuc, FloatOps}
use bug_hunter.Backends.Provider.{
  anthropic, quota, WindowState, gates, effective_used, is_hard_stop,
}
use bug_hunter.Prelude.Tables.{All}
use bug_hunter.Backends.Capacity.{UsageRow, read_windows, ramp}
use bug_hunter.Backends.Capacity.Newest.{Newest}
use bug_hunter.Backends.Capacity.Current.{Current, DealtWith, read_windows-Current}
use bug_hunter.Backends.Decide.{
  Ledger, Reservation, gated, decide_inner, decide_with_windows, granted, denied, judge,
}
use bug_hunter.Backends.Decide.Gate.{Settles, decide_inner-Settles}
use bug_hunter.Backends.Decide.Permissive.{AtLeast, decide-overdriven}
use bug_hunter.Backends.Overdrive.{overdriven}

abbrev milli : ℤ → ℕ
milli (pos n) = n * 1_000
milli (negsuc n) = 0

abbrev fixed_point : FloatOps ℕ
fixed_point = record {
  of_i64 = milli;
  add = λ a b. a + b;
  sub = λ a b. a - b;
  mul = λ a b. a * b / 1_000;
  div = λ a b. a * 1_000 / b;
  max = λ a b. max a b;
  min = λ a b. min a b;
  lt = λ a b. ltb a b;
  trunc = λ a. pos (a / 1_000);
}

abbrev no_month : ℕ → Option ℕ
no_month reset = none

-- A week that has expired.
abbrev week_row : UsageRow ℕ
week_row = record {
  provider = "anthropic";
  readable = true;
  limit_id = "anthropic:7d";
  used_fraction = some 900;
  status = some "ok";
  resets_at = some 1_000;
  recorded_at = 500;
}

-- With five hours that run.
abbrev history : List (UsageRow ℕ)
history =
    week_row
    ∷ record {
      provider = "anthropic";
      readable = true;
      limit_id = "anthropic:5h";
      used_fraction = some 100;
      status = some "ok";
      resets_at = some 19_000_000;
      recorded_at = 4_000;
    }
    ∷ []

read_windows-Current_example :
    All
      (Current fixed_point anthropic 12_000_000 "anthropic" history)
      (read_windows fixed_point (quota fixed_point anthropic) "anthropic" history 12_000_000)
    × ((r : UsageRow ℕ) × Newest "anthropic" history r
        × (r.limit_id ≡ "anthropic:7d")
        × DealtWith fixed_point anthropic 12_000_000 r
            (read_windows fixed_point (quota fixed_point anthropic) "anthropic" history 12_000_000))
read_windows-Current_example =
    read_windows-Current fixed_point anthropic 12_000_000 "anthropic" history week_row
      (refl, (refl, tt)) (inl refl) refl

abbrev some_window : WindowState ℕ
some_window = record {
  limit_id = "anthropic:5h";
  used_fraction = some 200;
  status = some "ok";
  resets_at = some 19_000_000;
  recorded_at = 4_000;
  age_s = 1_000;
}

-- A week that is over its ramp.
abbrev busy_week : WindowState ℕ
busy_week = record {
  limit_id = "anthropic:7d";
  used_fraction = some 900;
  status = some "ok";
  resets_at = some 404_800_000;
  recorded_at = 4_000;
  age_s = 1_000;
}

-- Five hours that are used up.
abbrev used_up : WindowState ℕ
used_up = record some_window { status = some "exhausted"; used_fraction = some 1_000 }

abbrev plain_reservation : Reservation ℕ
plain_reservation = record { gate = 100; budget = 50; capacity = 2_000_000_000 }

abbrev some_ledger : Ledger ℕ
some_ledger = record {
  running_estimate = 10_000;
  finished_since = λ at. 20_000;
  estimate_capacity = λ lid. none;
}

decide_inner-Settles_example :
    let q = quota fixed_point anthropic in
    let resvs = plain_reservation ∷ plain_reservation ∷ [] in
    Settles fixed_point no_month q
      (some_window ∷ [])
      (gated fixed_point q.windows resvs (some_window ∷ []))
      12_000_000
      (decide_inner fixed_point no_month q (some_window ∷ []) resvs false 12_000_000)
decide_inner-Settles_example =
    decide_inner-Settles fixed_point no_month (quota fixed_point anthropic) (some_window ∷ [])
      (plain_reservation ∷ plain_reservation ∷ []) 12_000_000

decide-overdriven_example :
    let o =
      decide_with_windows fixed_point no_month anthropic some_ledger
        (some_window ∷ busy_week ∷ [])
        40_000
        12_000_000 in
    AtLeast o.normal o.prioritized
    × AtLeast o.normal (overdriven true o).normal
    × AtLeast (overdriven true o).normal (overdriven true o).prioritized
decide-overdriven_example =
    decide-overdriven fixed_point no_month true anthropic some_ledger (some_window ∷ busy_week ∷ [])
      40_000 12_000_000

-- The five hours are exhausted, which alone denies prioritized work.
exhausted_denies :
    decide_inner fixed_point no_month
      (quota fixed_point anthropic)
      (used_up ∷ [])
      (plain_reservation ∷ plain_reservation ∷ [])
      true
      12_000_000
    ≡ denied "anthropic:5h" (some 19_000_000_000)
unfolding decide_inner judge gates effective_used is_hard_stop ramp
exhausted_denies = refl

-- With a week over its ramp beside them, it is granted.
exhausted_overtaken :
    decide_inner fixed_point no_month
      (quota fixed_point anthropic)
      (used_up ∷ busy_week ∷ [])
      (plain_reservation ∷ plain_reservation ∷ [])
      true
      12_000_000
    ≡ granted (some (pos 100_000)) "prio override"
unfolding decide_inner judge gates effective_used is_hard_stop ramp
exhausted_overtaken = refl
