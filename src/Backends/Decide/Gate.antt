-- ===== src/Backends/Decide/Gate.antt =====
-- The gate of `decide_inner` in hunter-rs/src/backends/omp_scavenge/facade.rs.
use bug_hunter.Prelude.{
  ℕ, Bool, true, false, String, Option, none, some, List, [], ◌∷◌, ◌≡◌, refl, sym, ◌≢◌, subst, ◌⊎◌,
  inl, inr, arith, Bool-cases, Option-cases,
}
use bug_hunter.Prelude.Tables.{All, All-map}
use bug_hunter.Prelude.Members.{In}
use bug_hunter.Backends.Floats.{ℤ, FloatOps}
use bug_hunter.Backends.Provider.{Quota, WindowState, effective_used}
use bug_hunter.Backends.Capacity.{ramp, expired}
use bug_hunter.Backends.Decide.{
  Verdict, granted, denied, Reservation, Gated, gated, judge, weigh, first_some, value_or, row_caps,
  compute_headroom, decide_inner, is_granted,
}
use bug_hunter.Backends.Decide.Headroom.{Below, least-Below}

first_some-case :
    {A B : Type 0} (f : A → Option B) (xs : List A)
    → ((first_some f xs ≡ none) × All (λ x. f x ≡ none) xs)
      ⊎ ((b : B) × (x : A) × (first_some f xs ≡ some b) × In x xs × (f x ≡ some b))
first_some-case f [] = inl (refl, tt)
first_some-case f (x ∷ xs) = elim (Option-cases (f x)) [
  | inr (b, e) ↦ inr (b, x, rw e refl, inl refl, e)
  | inl e ↦ elim (first_some-case f xs) [
    | inl (n, a) ↦ inl (rw e n, (e, a))
    | inr (b, y, s, i, h) ↦ inr (b, y, rw e s, inr i, h)
  ]
]

module _ {F : Type 0} (fl : FloatOps F) (previous_month : ℕ → Option ℕ) where
  -- What a row reports used, with what is reserved, is under the ramp.
  abbrev pub under : Gated F → Option F → Option F → Bool
  under g none allowed = true
  under g (some reported) none = true
  under g (some reported) (some allowed) = fl.lt (fl.add reported g.resv.gate) allowed

  -- A row that does not stand in the way: its reset has passed, it reports no use, its window has
  -- no allowance to exceed, or what is used and reserved is under the ramp.
  abbrev pub Clears : Quota F → (now : ℕ) → Gated F → Type 0
  Clears q now g =
      (expired g.row.resets_at now ≡ true)
      ⊎ (under g (effective_used fl q g.row) (ramp fl previous_month g.window g.row.resets_at now)
          ≡ true)

  abbrev pub Blocks : Quota F → (now : ℕ) → Gated F → Type 0
  Blocks q now g =
      (expired g.row.resets_at now ≡ false)
      × (under g (effective_used fl q g.row) (ramp fl previous_month g.window g.row.resets_at now)
          ≡ false)

  weigh-under :
      (q : Quota F) (prio : Bool) (g : Gated F) (used allowed : Option F)
      → weigh fl previous_month q prio g used allowed ≡ none
      → under g used allowed ≡ true
  weigh-under q prio g none allowed e = refl
  weigh-under q prio g (some used) none e = refl
  weigh-under q prio g (some used) (some allowed) e = ground arith

  weigh-over :
      (q : Quota F) (g : Gated F) (used allowed : Option F) (v : Verdict F)
      → weigh fl previous_month q false g used allowed ≡ some v
      → (under g used allowed ≡ false) × (is_granted v ≡ false)
  weigh-over q g none allowed v e = cc
  weigh-over q g (some used) none v e = cc
  weigh-over q g (some used) (some allowed) v e =
      elim (Bool-cases (fl.lt (fl.add used g.resv.gate) allowed)) [
        | inl t ↦ absurd (ground arith)
        | inr t ↦ (t, ground arith)
      ]

  judge-none :
      (q : Quota F) (prio : Bool) (now : ℕ) (g : Gated F)
      → judge fl previous_month q prio now g ≡ none
      → Clears q now g
  unfolding judge
  judge-none q prio now g e = elim (Bool-cases (expired g.row.resets_at now)) [
    | inl t ↦ inl t
    | inr t ↦ inr (weigh-under q prio g _ _ (ground arith))
  ]

  judge-some :
      (q : Quota F) (now : ℕ) (g : Gated F) (v : Verdict F)
      → judge fl previous_month q false now g ≡ some v
      → Blocks q now g × (is_granted v ≡ false)
  unfolding judge
  judge-some q now g v e = elim (Bool-cases (expired g.row.resets_at now)) [
    | inl t ↦ absurd (ground arith)
    | inr t ↦ let (over, bad) = weigh-over q g _ _ v (ground arith) in ((t, over), bad)
  ]

  -- What a normal verdict means: a grant is given when every row clears, up to a cap that no row's
  -- headroom is below, and without one when no row has a headroom; a denial when there are no
  -- rows or when a row blocks.
  abbrev pub Settles :
      Quota F → List (WindowState F) → List (Gated F) → (now : ℕ) → Verdict F → Type 0
  Settles q rows gs now (granted cap reason) =
      (rows ≢ [])
      × All (Clears q now) gs
      × (cap ≡ compute_headroom fl previous_month q false now gs)
      × Below cap (row_caps fl previous_month q false now gs)
  Settles q rows gs now (denied reason at) =
      (rows ≡ []) ⊎ ((g : Gated F) × In g gs × Blocks q now g)

  blocked-Settles :
      (q : Quota F) (rows : List (WindowState F)) (gs : List (Gated F)) (now : ℕ) (g : Gated F)
      (v : Verdict F)
      → In g gs
      → Blocks q now g
      → is_granted v ≡ false
      → Settles q rows gs now v
  blocked-Settles q rows gs now g (granted cap reason) i b e = cc
  blocked-Settles q rows gs now g (denied reason at) i b e = inr (g, i, b)

  -- A normal verdict is a grant only when windows were read and every one that gates is past its
  -- reset, without a reported use or an allowance, or under its ramp with what is reserved; its cap
  -- is then the least headroom that these windows leave. It is a denial only when no window was
  -- read or when one that gates is at or over its ramp.
  pub decide_inner-Settles :
      (q : Quota F) (rows : List (WindowState F)) (resvs : List (Reservation F)) (now : ℕ)
      → Settles q rows
          (gated fl q.windows resvs rows)
          now
          (decide_inner fl previous_month q rows resvs false now)
  unfolding decide_inner compute_headroom
  decide_inner-Settles q [] resvs now = inl refl
  decide_inner-Settles q (r ∷ rs) resvs now =
      let gs = gated fl q.windows resvs (r ∷ rs) in
      let ok : Verdict F = granted (compute_headroom fl previous_month q false now gs) "ok" in
      let family : Option (Verdict F) → Type 0 = λ o. Settles q (r ∷ rs) gs now (value_or o ok) in
      elim (first_some-case (judge fl previous_month q false now) gs) [
        | inl (n, clear) ↦ subst family (sym n) (
          (λ e. cc),
          All-map _ _ gs (judge-none q false now) clear,
          refl,
          least-Below (row_caps fl previous_month q false now gs),
        )
        | inr (v, g, n, i, e) ↦
            let (blocks, bad) = judge-some q now g v e in
            subst family (sym n) (blocked-Settles q (r ∷ rs) gs now g v i blocks bad)
      ]

  pub decide_inner-cap :
      (q : Quota F) (rows : List (WindowState F)) (resvs : List (Reservation F)) (now : ℕ)
      (cap : Option ℤ) (reason : String)
      → decide_inner fl previous_month q rows resvs false now ≡ granted cap reason
      → cap ≡ compute_headroom fl previous_month q false now (gated fl q.windows resvs rows)
  decide_inner-cap q rows resvs now cap reason e =
      let (some_row, clear, same, below) =
        subst (Settles q rows (gated fl q.windows resvs rows) now) e
          (decide_inner-Settles q rows resvs now) in
      same
