-- ===== src/Backends/Provider.antt =====
-- hunter-rs/src/backends/omp_scavenge/provider.rs: a provider as data. `previous_month` is chrono's
-- part of `Period::length_ms`: the first instant of the month before the one a time is in, when
-- chrono can represent both.
use bug_hunter.Prelude.{
  ℕ, zero, suc, Bool, true, false, ◌&&◌, ◌||◌, not, String, Option, none, some, List, [], ◌∷◌,
  str_eq, ltb, if◌then◌else◌,
}
use bug_hunter.Prelude.Tables.{first_where}
use bug_hunter.Store.Rows.{is_some}
use text.Mathlib.Text.{starts_with}
use bug_hunter.Backends.Floats.{pos, FloatOps}

abbrev pub headroom_ms : ℕ
headroom_ms = 1_800_000

abbrev pub week_ms : ℕ
week_ms = 604_800_000

abbrev pub five_h_ms : ℕ
five_h_ms = 18_000_000

pub data LlmProvider : Type 0 where
  anthropic : LlmProvider
  open_ai_codex : LlmProvider
  git_hub_copilot : LlmProvider

pub data Period : Type 0 where
  fixed : ℕ → Period
  calendar_month : Period

pub data Pacing : Type 0 where
  linear : Pacing
  after_headroom : Pacing

pub data FallbackCapacity (F : Type 0) : Type 0 where
  tokens : F → FallbackCapacity F
  scaled : ℕ → F → FallbackCapacity F

-- Without `label`, which only the status page shows.
pub record QuotaWindow (F : Type 0) : Type 0 where
  pub limit_id : String
  pub period : Period
  pub pacing : Pacing
  pub extra_prefix : Option String
  pub required : Bool
  pub fallback_capacity : FallbackCapacity F

pub record Quota (F : Type 0) : Type 0 where
  pub windows : List (QuotaWindow F)
  pub exhausted_is_hard_stop : Bool
  pub reads_other_limits : Bool

-- A row of omp's usage mirror. `age_s` is a number of seconds with a fraction.
pub record WindowState (F : Type 0) : Type 0 where
  pub limit_id : String
  pub used_fraction : Option F
  pub status : Option String
  pub resets_at : Option ℕ
  pub recorded_at : ℕ
  pub age_s : F

abbrev pub get_elem? : {A : Type 0} → List A → ℕ → Option A
get_elem? [] n = none
get_elem? (x ∷ xs) zero = some x
get_elem? (x ∷ xs) (suc n) = get_elem? xs n

module _ {F : Type 0} (fl : FloatOps F) where
  abbrev pub int : ℕ → F
  int n = fl.of_i64 (pos n)

  abbrev pub ratio_5h_7d : F
  ratio_5h_7d = fl.div (int five_h_ms) (int week_ms)

  abbrev pub five_h_fallback_tokens : F
  five_h_fallback_tokens = int 2_000_000

  abbrev pub long_window_fallback_tokens : F
  long_window_fallback_tokens = fl.div five_h_fallback_tokens ratio_5h_7d

  abbrev pub long_window : String → Option String → QuotaWindow F
  long_window lid prefix = record {
    limit_id = lid;
    period = fixed week_ms;
    pacing = linear;
    extra_prefix = prefix;
    required = false;
    fallback_capacity = scaled 1 ratio_5h_7d;
  }

  abbrev pub short_window : String → QuotaWindow F
  short_window lid = record {
    limit_id = lid;
    period = fixed five_h_ms;
    pacing = after_headroom;
    extra_prefix = none;
    required = false;
    fallback_capacity = tokens five_h_fallback_tokens;
  }

  abbrev pub month_window : QuotaWindow F
  month_window = record {
    limit_id = "copilot:premium";
    period = calendar_month;
    pacing = linear;
    extra_prefix = none;
    required = true;
    fallback_capacity = tokens long_window_fallback_tokens;
  }

  -- `LlmProvider::quota` and the three tables that it gives.
  abbrev pub quota : LlmProvider → Quota F
  quota anthropic = record {
    windows =
        long_window "anthropic:7d" (some "anthropic:7d:") ∷ (short_window "anthropic:5h" ∷ []);
    exhausted_is_hard_stop = true;
    reads_other_limits = true;
  }
  quota open_ai_codex = record {
    windows =
        long_window "openai-codex:secondary" none ∷ (short_window "openai-codex:primary" ∷ []);
    exhausted_is_hard_stop = false;
    reads_other_limits = true;
  }
  quota git_hub_copilot = record {
    windows = month_window ∷ [];
    exhausted_is_hard_stop = true;
    reads_other_limits = false;
  }

  unfoldable pub gates : QuotaWindow F → String → Bool
  gates w lid =
      str_eq lid w.limit_id
      || elim w.extra_prefix [ none ↦ false | some prefix ↦ starts_with lid prefix ]

  -- `Quota::window` and `Quota::gating_window`.
  abbrev pub window : Quota F → String → Option (QuotaWindow F)
  window q lid = first_where (λ w. str_eq w.limit_id lid) q.windows

  unfoldable pub gating_window : Quota F → String → Option (QuotaWindow F)
  unfolding gates
  gating_window q lid = first_where (λ w. gates w lid) q.windows

  unfoldable pub is_hard_stop : Quota F → WindowState F → Bool
  is_hard_stop q w =
      q.exhausted_is_hard_stop
      && elim w.status [ none ↦ false | some status ↦ str_eq status "exhausted" ]

  unfoldable pub effective_used : Quota F → WindowState F → Option F
  unfolding is_hard_stop
  effective_used q w = if is_hard_stop q w then some (int 1) else w.used_fraction

  -- `estimates.get(index).copied().flatten()`.
  abbrev pub estimate : List (Option F) → ℕ → Option F
  estimate es i = elim (get_elem? es i) [ none ↦ none | some e ↦ e ]

  -- `Quota::capacity`. `fuel` bounds how often one window's capacity is another's scaled.
  unfoldable pub capacity : (fuel : ℕ) → Quota F → (index : ℕ) → List (Option F) → Option F
  capacity zero q i es = none
  capacity (suc fuel) q i es = elim (estimate es i) [
    | some e ↦ some e
    | none ↦ elim (get_elem? q.windows i) [
      | none ↦ some (int 0)
      | some w ↦ elim w.fallback_capacity [
        | tokens n ↦ some n
        | scaled j ratio ↦ elim (capacity fuel q j es) [
          | none ↦ none
          | some c ↦ some (fl.div c ratio)
        ]
      ]
    ]
  ]

  unfoldable pub is_missing : QuotaWindow F → List (WindowState F) → (now : ℕ) → Bool
  is_missing w rows now =
      w.required
      && not (elim (first_where (λ r. str_eq r.limit_id w.limit_id) rows) [
        | none ↦ false
        | some row ↦
            is_some row.used_fraction
            && elim row.resets_at [ none ↦ false | some reset ↦ ltb now reset ]
      ])

abbrev pub fixed_ms : Period → Option ℕ
fixed_ms (fixed period_ms) = some period_ms
fixed_ms calendar_month = none
