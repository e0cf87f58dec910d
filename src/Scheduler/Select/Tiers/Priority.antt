-- ===== src/Scheduler/Select/Tiers/Priority.antt =====
-- The order of the finding tiers of `select` in hunter-rs/src/scheduler.rs.
use bug_hunter.Prelude.{
  ℕ, ◌≡◌, ◌⊎◌, inl, inr, true, false, List, [], ◌∷◌, Option, none, some, Option-cases,
}
use bug_hunter.Prelude.Tables.{All, exists_where, first_where, first?, last?}
use bug_hunter.Prelude.Members.{
  In, first_where-In, first_where-none, first?-In, first?-none, last?-In, last?-none,
}
use bug_hunter.Domain.Kinds.{FindingJobKind, fix, engage, harvest, recheck}
use bug_hunter.Store.Rows.{Finding, Store, coalesce}
use bug_hunter.Scheduler.Select.Tiers.{overridden, with_kind, choose, tier, target}

-- The tiers in order of priority, and those above one of them.
abbrev pub tiers : List FindingJobKind
tiers = engage ∷ harvest ∷ recheck ∷ fix ∷ []

abbrev pub above : FindingJobKind → List FindingJobKind
above engage = []
above harvest = engage ∷ []
above recheck = engage ∷ harvest ∷ []
above fix = engage ∷ harvest ∷ recheck ∷ []

abbrev pub NoneOverridden : (FindingJobKind → List Finding) → List FindingJobKind → Type 0
NoneOverridden listed = All (λ k. exists_where overridden (listed k) ≡ false)

abbrev pub AllEmpty : (FindingJobKind → List Finding) → List FindingJobKind → Type 0
AllEmpty listed = All (λ k. listed k ≡ [])

-- A right choice from the tiers: none from empty ones; else a finding of its tier that either jumps
-- the queue, first among those that do, or has nothing above it where none does.
abbrev pub Chosen : (FindingJobKind → List Finding) → Option (FindingJobKind × Finding) → Type 0
Chosen listed none = AllEmpty listed tiers
Chosen listed (some (k, f)) =
    In f (listed k)
    × (((overridden f ≡ true) × NoneOverridden listed (above k))
        ⊎ (NoneOverridden listed tiers × AllEmpty listed (above k)))

module _ (l : FindingJobKind → List Finding) where
  -- The choice when no finding jumps the queue.
  in_order :
      NoneOverridden l tiers
      → Chosen l (
          coalesce (with_kind engage (first? (l engage))) (
            coalesce
              (with_kind harvest (first? (l harvest)))
              (coalesce (with_kind recheck (last? (l recheck))) (with_kind fix (last? (l fix))))))
  in_order no_jump = elim (Option-cases (first? (l engage))) [
    | inr (f, e) ↦ rw e (first?-In (l engage) f e, inr (no_jump, tt))
    | inl e ↦ elim (Option-cases (first? (l harvest))) [
      | inr (f, h) ↦
          rw (e, h) (first?-In (l harvest) f h, inr (no_jump, (first?-none (l engage) e, tt)))
      | inl h ↦ elim (Option-cases (last? (l recheck))) [
        | inr (f, r) ↦
            rw (e, h, r)
              (
                last?-In (l recheck) f r,
                inr (no_jump, (first?-none (l engage) e, (first?-none (l harvest) h, tt))),
              )
        | inl r ↦ elim (Option-cases (last? (l fix))) [
          | inr (f, q) ↦
              rw (e, h, r, q)
                (
                  last?-In (l fix) f q,
                  inr (
                    no_jump,
                    (
                      first?-none (l engage) e,
                      (first?-none (l harvest) h, (last?-none (l recheck) r, tt)),
                    ),
                  ),
                )
          | inl q ↦
              rw (e, h, r, q)
                (
                  first?-none (l engage) e,
                  (
                    first?-none (l harvest) h,
                    (last?-none (l recheck) r, (last?-none (l fix) q, tt)),
                  ),
                )
        ]
      ]
    ]
  ]

  choose-Chosen : Chosen l (choose l)
  unfolding choose
  choose-Chosen = elim (Option-cases (first_where overridden (l engage))) [
    | inr (f, e) ↦
        let (there, o) = first_where-In overridden (l engage) f e in
        rw (e, choose) (there, inl (o, tt))
    | inl e ↦
        let no_engage = first_where-none overridden (l engage) e in
        elim (Option-cases (first_where overridden (l harvest))) [
          | inr (f, h) ↦
              let (there, o) = first_where-In overridden (l harvest) f h in
              rw (e, h, choose) (there, inl (o, (no_engage, tt)))
          | inl h ↦
              let no_harvest = first_where-none overridden (l harvest) h in
              elim (Option-cases (first_where overridden (l recheck))) [
                | inr (f, r) ↦
                    let (there, o) = first_where-In overridden (l recheck) f r in
                    rw (e, h, r, choose) (there, inl (o, (no_engage, (no_harvest, tt))))
                | inl r ↦
                    let no_recheck = first_where-none overridden (l recheck) r in
                    elim (Option-cases (first_where overridden (l fix))) [
                      | inr (f, q) ↦
                          let (there, o) = first_where-In overridden (l fix) f q in
                          rw (e, h, r, q, choose)
                            (there, inl (o, (no_engage, (no_harvest, (no_recheck, tt)))))
                      | inl q ↦
                          let no_fix = first_where-none overridden (l fix) q in
                          rw (e, h, r, q, choose)
                            (in_order (no_engage, (no_harvest, (no_recheck, (no_fix, tt)))))
                    ]
              ]
        ]
  ]

-- The choice of the finding tiers is a right one: an overridden finding comes first, in tier order,
-- then the tiers in order; nothing is chosen only when every tier is empty.
pub target-Chosen : (force : Option ℕ) (s : Store) → Chosen (λ k. tier k force s) (target force s)
unfolding target
target-Chosen force s = choose-Chosen (λ k. tier k force s)
