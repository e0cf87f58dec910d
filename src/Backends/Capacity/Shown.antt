-- ===== src/Backends/Capacity/Shown.antt =====
-- What becomes of a row of the history in the snapshot of hunter-rs/src/backends/omp_scavenge/capacity.rs holds.
use bug_hunter.Prelude.{
  ℕ, ◌≤◌, ◌<◌, ◌≢◌, true, false, ◌&&◌, not, String, Option, none, some, str_eq, arith, ◌≡◌, refl,
  sym, ap, ◌∙◌, ◌⊎◌, inl, inr, Bool-cases, Option-cases,
}
use bug_hunter.Prelude.Tables.{All, first_where_sound}
use bug_hunter.Store.Rows.{is_some}
use bug_hunter.Backends.Floats.{FloatOps}
use bug_hunter.Backends.Provider.{
  LlmProvider, anthropic, open_ai_codex, git_hub_copilot, Period, fixed, calendar_month,
  QuotaWindow, Quota, WindowState, int, quota, window, gating_window, fixed_ms,
}
use bug_hunter.Backends.Capacity.{UsageRow, read_row, roll_row, expired, rolled}
use bug_hunter.Backends.Capacity.Rolling.{InCycle, roll_forward-InCycle}

-- A period that a cycle can be rolled by takes time.
abbrev TakesTime : Period → Type 0
TakesTime (fixed period) = 0 < period
TakesTime calendar_month = Unit

-- A reset that lies ahead, or none; and one that has passed.
abbrev pub Running : Option ℕ → (now : ℕ) → Type 0
Running none now = Unit
Running (some resets) now = (resets ≡ 0) ⊎ (now < resets)

abbrev pub Over : Option ℕ → (now : ℕ) → Type 0
Over none now = ⊥
Over (some resets) now = (0 < resets) × (resets ≤ now)

expired-Over : (o : Option ℕ) (now : ℕ) → expired o now ≡ true → Over o now
expired-Over none now e = cc
expired-Over (some resets) now e = ground arith

expired-Running : (o : Option ℕ) (now : ℕ) → expired o now ≡ false → Running o now
expired-Running none now e = tt
expired-Running (some resets) now e = ground arith

module _ {F : Type 0} (fl : FloatOps F) where
  windows-TakesTime : (p : LlmProvider) → All (λ w. TakesTime w.period) (quota fl p).windows
  windows-TakesTime anthropic = (omega arith, (omega arith, tt))
  windows-TakesTime open_ai_codex = (omega arith, (omega arith, tt))
  windows-TakesTime git_hub_copilot = (tt, tt)

  abbrev OnSome : {A : Type 0} → (A → Type 0) → Option A → Type 0
  OnSome P none = Unit
  OnSome P (some a) = P a

  window-TakesTime :
      (p : LlmProvider) (lid : String)
      → OnSome (λ v. TakesTime v.period) (window fl (quota fl p) lid)
  window-TakesTime p lid = elim (Option-cases (window fl (quota fl p) lid)) [
    | inl e ↦ rw e tt
    | inr (v, e) ↦
        rw e
          (first_where_sound (λ v. TakesTime v.period) (λ v. str_eq v.limit_id lid)
            (quota fl p).windows v (windows-TakesTime p) e).0
  ]

  module _ (q : Quota F) (now : ℕ) where
    -- The row's limit is one that the provider's snapshot has, or is not.
    abbrev pub Listed : UsageRow F → Type 0
    Listed r =
        (q.reads_other_limits ≡ true)
        ⊎ ((v : QuotaWindow F) × (gating_window fl q r.limit_id ≡ some v))

    abbrev pub Ignored : UsageRow F → Type 0
    Ignored r = (q.reads_other_limits ≡ false) × (gating_window fl q r.limit_id ≡ none)

    -- The window of the row is over, and no fixed period is known to roll it on by.
    abbrev pub Unrollable : UsageRow F → Type 0
    Unrollable r =
        Over r.resets_at now
        × ((v : QuotaWindow F) (period : ℕ)
            → window fl q r.limit_id ≡ some v
            → v.period ≢ fixed period)

    -- A window that still runs is shown as it was recorded.
    abbrev pub AsRecorded : UsageRow F → WindowState F → Type 0
    AsRecorded r w =
        Running r.resets_at now
        × (w.limit_id ≡ r.limit_id)
        × (w.used_fraction ≡ r.used_fraction)
        × (w.status ≡ r.status)
        × (w.resets_at ≡ r.resets_at)
        × (w.recorded_at ≡ r.recorded_at)

    -- One that is over is shown as the unused cycle that the present time is in.
    abbrev pub AsRolled : UsageRow F → WindowState F → Type 0
    AsRolled r w =
        (v : QuotaWindow F) × (period : ℕ) × (resets : ℕ) × (next : ℕ) × (window fl q r.limit_id
          ≡ some v)
        × (v.period ≡ fixed period)
        × (r.resets_at ≡ some resets)
        × InCycle period resets now (some (next, w.recorded_at))
        × (w.limit_id ≡ r.limit_id)
        × (w.used_fraction ≡ some (int fl 0))
        × (w.status ≡ some "ok")
        × (w.resets_at ≡ some next)

    abbrev pub Shows : UsageRow F → WindowState F → Type 0
    Shows r w = Listed r × Running w.resets_at now × (AsRecorded r w ⊎ AsRolled r w)

    -- What becomes of one row.
    abbrev pub Result : UsageRow F → Option (WindowState F) → Type 0
    Result r none = Ignored r ⊎ Unrollable r
    Result r (some w) = Shows r w

    rolled-Result :
        (r : UsageRow F) (v : QuotaWindow F) (period resets : ℕ) (o : Option (ℕ × ℕ))
        → Listed r
        → window fl q r.limit_id ≡ some v
        → v.period ≡ fixed period
        → r.resets_at ≡ some resets
        → InCycle period resets now o
        → Result r (elim o [ none ↦ none | some at ↦ some (rolled fl now r at) ])
    rolled-Result r v period resets none listed known long e c = absurd c
    rolled-Result r v period resets (some (next, start)) listed known long e c =
        (listed, inr c.1, inr (v, period, resets, next, known, long, e, c, refl, refl, refl, refl))

    over-Result :
        (r : UsageRow F) (o : Option ℕ) (w : Option (QuotaWindow F))
        → Listed r
        → r.resets_at ≡ o
        → expired o now ≡ true
        → window fl q r.limit_id ≡ w
        → OnSome (λ v. TakesTime v.period) w
        → Result r (elim w [
          | none ↦ none
          | some v ↦ elim (fixed_ms v.period) [
            | none ↦ none
            | some period ↦ elim o [ none ↦ none | some resets ↦ roll_row fl now r period resets ]
          ]
        ])
    over-Result r none w listed e x known t = absurd (ground arith)
    over-Result r (some resets) none listed e x known t =
        inr (expired-Over r.resets_at now (rw e x), λ v period k. absurd (ground arith))
    over-Result r (some resets) (some v) listed e x known t = by_period v.period refl t
      where
        by_period :
            (p : Period)
            → v.period ≡ p
            → TakesTime p
            → Result r
                (elim (fixed_ms p) [ none ↦ none | some period ↦ roll_row fl now r period resets ])
        by_period calendar_month long u = inr (
          expired-Over r.resets_at now (rw e x),
          λ z period k fits.
              let same : z ≡ v = ground arith in
              let bad : fixed period ≡ calendar_month = sym fits ∙ ap (λ y. y.period) same ∙ long in
              cc,
        )
        by_period (fixed period) long u =
            rolled-Result r v period resets _ listed known long e
              (roll_forward-InCycle period resets r.recorded_at now u (ground arith))

  module _ (p : LlmProvider) (now : ℕ) where
    row-Listed :
        (r : UsageRow F)
        → (not (quota fl p).reads_other_limits
            && not (is_some (gating_window fl (quota fl p) r.limit_id)))
          ≡ false
        → Listed (quota fl p) now r
    row-Listed r e = elim (Bool-cases (quota fl p).reads_other_limits) [
      | inl t ↦ inl t
      | inr t ↦ elim (Option-cases (gating_window fl (quota fl p) r.limit_id)) [
        | inl gone ↦ absurd (ground arith)
        | inr found ↦ inr found
      ]
    ]

    row-Ignored :
        (r : UsageRow F)
        → (not (quota fl p).reads_other_limits
            && not (is_some (gating_window fl (quota fl p) r.limit_id)))
          ≡ true
        → Ignored (quota fl p) now r
    row-Ignored r e = (ground arith, ground arith)

    pub read_row-Result :
        (r : UsageRow F) → Result (quota fl p) now r (read_row fl (quota fl p) now r)
    read_row-Result r =
        let skips =
          not (quota fl p).reads_other_limits
          && not (is_some (gating_window fl (quota fl p) r.limit_id)) in
        elim (Bool-cases skips) [
          | inl e ↦ rw e (inl (row-Ignored r e))
          | inr e ↦ elim (Bool-cases (expired r.resets_at now)) [
            | inl x ↦
                rw (e, x)
                  (over-Result (quota fl p) now r r.resets_at _ (row-Listed r e) refl x refl
                    (window-TakesTime p r.limit_id))
            | inr x ↦
                rw (e, x)
                  (
                    row-Listed r e,
                    expired-Running r.resets_at now x,
                    inl (expired-Running r.resets_at now x, refl, refl, refl, refl, refl),
                  )
          ]
        ]
