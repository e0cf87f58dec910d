-- ===== src/Backends/Decide/Permissive.antt =====
-- The invariant of `Outlook` in hunter-rs/src/backend.rs, for the outlooks of
-- hunter-rs/src/backends/omp_scavenge/facade.rs and for `OverdriveBackend`.
use bug_hunter.Prelude.{
  ℕ, Bool, true, false, String, Option, none, some, List, [], ◌∷◌, ◌≡◌, refl, subst, inl, inr,
  arith, Bool-cases,
}
use bug_hunter.Prelude.Tables.{first_where}
use bug_hunter.Backends.Floats.{ℤ, least, leb_i64, leb_i64_refl, ltb_i64, ltb_i64→leb, FloatOps}
use bug_hunter.Backends.Provider.{
  LlmProvider, Quota, QuotaWindow, WindowState, quota, is_missing, effective_used,
}
use bug_hunter.Backends.Capacity.{ramp}
use bug_hunter.Backends.Decide.{
  Verdict, granted, denied, Reservation, Ledger, Gated, gated, cap_of, row_cap, row_caps,
  compute_headroom, decide_inner, upgraded, prioritize, reservations, outlook_of,
  decide_with_windows,
}
use bug_hunter.Backends.Decide.Headroom.{Below, least-Below}
use bug_hunter.Backends.Decide.Gate.{decide_inner-cap}
use bug_hunter.Backends.Overdrive.{overdriven}

-- The second verdict allows whatever the first allows.
abbrev pub AtLeast : {F : Type 0} → Verdict F → Verdict F → Type 0
AtLeast (denied reason at) v = Unit
AtLeast (granted cap reason) (denied why at) = ⊥
AtLeast (granted cap reason) (granted none why) = Unit
AtLeast (granted none reason) (granted (some b) why) = ⊥
AtLeast (granted (some a) reason) (granted (some b) why) = leb_i64 a b ≡ true

AtLeast-refl : {F : Type 0} (v : Verdict F) → AtLeast v v
AtLeast-refl (denied reason at) = tt
AtLeast-refl (granted none reason) = tt
AtLeast-refl (granted (some a) reason) = leb_i64_refl a

least-none : (xs : List ℤ) → least xs ≡ none → xs ≡ []
least-none xs e = subst (λ o. Below o xs) e (least-Below xs)

module _ {F : Type 0} (fl : FloatOps F) (previous_month : ℕ → Option ℕ) where
  caps_empty-step :
      (g : Gated F) (used allowed : Option F) (xs ys : List ℤ)
      → (xs ≡ [] → ys ≡ [])
      → (elim (cap_of fl previous_month false g used allowed) [ none ↦ xs | some c ↦ c ∷ xs ]) ≡ []
      → (elim (cap_of fl previous_month true g used allowed) [ none ↦ ys | some c ↦ c ∷ ys ]) ≡ []
  caps_empty-step g none allowed xs ys h e = h e
  caps_empty-step g (some used) none xs ys h e = h e
  caps_empty-step g (some used) (some allowed) xs ys h e = cc

  -- The same rows count for both headrooms.
  row_caps-empty :
      (q : Quota F) (now : ℕ) (gs : List (Gated F))
      → row_caps fl previous_month q false now gs ≡ []
      → row_caps fl previous_month q true now gs ≡ []
  unfolding row_cap
  row_caps-empty q now [] e = refl
  row_caps-empty q now (g ∷ gs) e =
      caps_empty-step g (effective_used fl q g.row)
        (ramp fl previous_month g.window g.row.resets_at now) _ _ (row_caps-empty q now gs) e

  compute_headroom-none :
      (q : Quota F) (now : ℕ) (gs : List (Gated F))
      → compute_headroom fl previous_month q false now gs ≡ none
      → compute_headroom fl previous_month q true now gs ≡ none
  unfolding compute_headroom
  compute_headroom-none q now gs e = rw (row_caps-empty q now gs (least-none _ e)) refl

  upgraded-AtLeast :
      (more cap : Option ℤ) (reason : String)
      → (cap ≡ none → more ≡ none)
      → AtLeast (granted cap reason) (upgraded fl previous_month more cap (granted cap reason))
  upgraded-AtLeast none none reason h = tt
  upgraded-AtLeast none (some c) reason h = leb_i64_refl c
  upgraded-AtLeast (some m) none reason h = absurd (let e = h refl in cc)
  upgraded-AtLeast (some m) (some c) reason h = elim (Bool-cases (ltb_i64 c m)) [
    | inl e ↦ rw e (ltb_i64→leb c m e)
    | inr e ↦ rw e (leb_i64_refl c)
  ]

  prioritize-AtLeast :
      (q : Quota F) (rows : List (WindowState F)) (resvs : List (Reservation F)) (now : ℕ)
      (v : Verdict F)
      → decide_inner fl previous_month q rows resvs false now ≡ v
      → AtLeast v (prioritize fl previous_month q rows resvs now v)
  prioritize-AtLeast q rows resvs now (denied reason at) e = tt
  prioritize-AtLeast q rows resvs now (granted cap reason) e =
      let same = decide_inner-cap fl previous_month q rows resvs now cap reason e in
      upgraded-AtLeast _ cap reason
        (λ n. compute_headroom-none q now (gated fl q.windows resvs rows) (ground arith))

  outlook_of-AtLeast :
      (q : Quota F) (rows : List (WindowState F)) (resvs : List (Reservation F)) (now : ℕ)
      (missing : Option (QuotaWindow F))
      → let o = outlook_of fl previous_month q rows resvs now missing in
        AtLeast o.normal o.prioritized
  outlook_of-AtLeast q rows resvs now (some w) = tt
  outlook_of-AtLeast q rows resvs now none = prioritize-AtLeast q rows resvs now _ refl

  decide-AtLeast :
      (p : LlmProvider) (ledger : Ledger F) (rows : List (WindowState F)) (anticipated now : ℕ)
      → let o = decide_with_windows fl previous_month p ledger rows anticipated now in
        AtLeast o.normal o.prioritized
  unfolding decide_with_windows
  decide-AtLeast p ledger rows anticipated now =
      let q = quota fl p in
      outlook_of-AtLeast q rows (reservations fl q ledger rows anticipated) now
        (first_where (λ w. is_missing fl w rows now) q.windows)

  -- The prioritized verdict of an outlook allows whatever its normal verdict allows: a grant where
  -- that is a grant, with at least its cap, and without a cap where that has none. The outlook that
  -- overdrive makes of it, switched on or off, is one of that kind as well, and its normal verdict
  -- allows whatever the normal verdict allowed before.
  pub decide-overdriven :
      (enabled : Bool) (p : LlmProvider) (ledger : Ledger F) (rows : List (WindowState F))
      (anticipated now : ℕ)
      → let o = decide_with_windows fl previous_month p ledger rows anticipated now in
        AtLeast o.normal o.prioritized
        × AtLeast o.normal (overdriven enabled o).normal
        × AtLeast (overdriven enabled o).normal (overdriven enabled o).prioritized
  unfolding overdriven
  decide-overdriven true p ledger rows anticipated now = (
    decide-AtLeast p ledger rows anticipated now,
    decide-AtLeast p ledger rows anticipated now,
    AtLeast-refl _,
  )
  decide-overdriven false p ledger rows anticipated now = (
    decide-AtLeast p ledger rows anticipated now,
    AtLeast-refl _,
    decide-AtLeast p ledger rows anticipated now,
  )
