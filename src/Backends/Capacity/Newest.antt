-- ===== src/Backends/Capacity/Newest.antt =====
-- The newest row of each limit, as hunter-rs/src/backends/omp_scavenge/capacity.rs queries it.
use bug_hunter.Prelude.{
  ◌≤◌, ◌≡◌, refl, sym, ap, ◌∙◌, subst, Bool, true, false, String, List, [], ◌∷◌, str_eq, eq_iff,
  if◌then◌else◌, arith, ◌⊎◌, inl, inr, Bool-cases,
}
use bug_hunter.Prelude.Tables.{All, exists_where, rows_where, sort_by}
use bug_hunter.Prelude.Members.{In, All-In-at, In-rows_where, rows_where-In, In-sort_by}
use bug_hunter.Prelude.Orders.{Ordered, Ordered-map, lexical, sort_by-Ordered}
use bug_hunter.Backends.Capacity.{UsageRow, newer_row, first_of_each, newest_rows}

module _ {F : Type 0} where
  -- A row of the provider that no row of its limit is newer than.
  abbrev pub Newest : (name : String) → List (UsageRow F) → UsageRow F → Type 0
  Newest name history r =
      In r history
      × (r.provider ≡ name)
      × ((o : UsageRow F)
          → In o history
          → o.provider ≡ name
          → o.limit_id ≡ r.limit_id
          → o.recorded_at ≤ r.recorded_at)

  abbrev is_seen : List String → UsageRow F → Bool
  is_seen seen r = exists_where (str_eq r.limit_id) seen

  In-choice :
      (b : Bool) (x r : UsageRow F) (skipped kept : List (UsageRow F))
      → In r (if b then skipped else x ∷ kept)
      → ((b ≡ true) × In r skipped) ⊎ ((b ≡ false) × (r ≡ x)) ⊎ ((b ≡ false) × In r kept)
  In-choice true x r skipped kept i = inl (refl, i)
  In-choice false x r skipped kept (inl same) = inr (inl (refl, same))
  In-choice false x r skipped kept (inr there) = inr (inr (refl, there))

  first_of_each-unseen :
      (seen : List String) (xs : List (UsageRow F)) (r : UsageRow F)
      → In r (first_of_each seen xs)
      → In r xs × (is_seen seen r ≡ false)
  first_of_each-unseen seen [] r i = absurd i
  first_of_each-unseen seen (x ∷ xs) r i = elim (In-choice (is_seen seen x) x r _ _ i) [
    | inl (t, there) ↦
        let (later, fresh) = first_of_each-unseen seen xs r there in (inr later, fresh)
    | inr (inl (t, same)) ↦ (inl same, ap (is_seen seen) same ∙ t)
    | inr (inr (t, there)) ↦
        let (later, fresh) = first_of_each-unseen (x.limit_id ∷ seen) xs r there in
        (inr later, ground arith)
  ]

  -- Of rows that come newest first, the first of each limit is the newest.
  first_of_each-newest :
      (seen : List String) (xs : List (UsageRow F)) (r o : UsageRow F)
      → Ordered newer_row xs
      → In r (first_of_each seen xs)
      → In o xs
      → o.limit_id ≡ r.limit_id
      → o.recorded_at ≤ r.recorded_at
  first_of_each-newest seen [] r o sorted i j same = absurd i
  first_of_each-newest seen (x ∷ xs) r o sorted i j same =
      elim (In-choice (is_seen seen x) x r _ _ i) [
        | inl (t, there) ↦ elim j [
          | inl first ↦
              let fresh = (first_of_each-unseen seen xs r there).1 in
              let again : is_seen seen r ≡ true =
                subst (λ l. exists_where (str_eq l) seen ≡ true)
                  (ap (λ z. z.limit_id) (sym first) ∙ same) t in
              cc
          | inr later ↦ first_of_each-newest seen xs r o sorted.1 there later same
        ]
        | inr (inl (t, is)) ↦ elim j [
          | inl first ↦ omega (arith, ap (λ z. z.recorded_at) first, ap (λ z. z.recorded_at) is)
          | inr later ↦
              let none_newer = All-In-at (λ z. newer_row z x ≡ false) xs o sorted.0 later in
              let le : o.recorded_at ≤ x.recorded_at = ground arith in
              omega (arith, le, ap (λ z. z.recorded_at) is)
        ]
        | inr (inr (t, there)) ↦ elim j [
          | inl first ↦
              let fresh = (first_of_each-unseen (x.limit_id ∷ seen) xs r there).1 in
              let again : r.limit_id ≡ x.limit_id = sym same ∙ ap (λ z. z.limit_id) first in
              let hit = (eq_iff r.limit_id x.limit_id).1 again in absurd (ground arith)
          | inr later ↦ first_of_each-newest (x.limit_id ∷ seen) xs r o sorted.1 there later same
        ]
      ]

  -- Every limit that was not seen has its row.
  first_of_each-all :
      (seen : List String) (xs : List (UsageRow F)) (o : UsageRow F)
      → In o xs
      → is_seen seen o ≡ false
      → (r : UsageRow F) × In r (first_of_each seen xs) × (r.limit_id ≡ o.limit_id)
  first_of_each-all seen [] o i fresh = absurd i
  first_of_each-all seen (x ∷ xs) o i fresh = elim (Bool-cases (is_seen seen x)) [
    | inl t ↦ elim i [
      | inl first ↦ let again : is_seen seen o ≡ true = ap (is_seen seen) first ∙ t in cc
      | inr later ↦ rw t (first_of_each-all seen xs o later fresh)
    ]
    | inr t ↦ elim i [
      | inl first ↦ rw t (x, inl refl, ap (λ z. z.limit_id) (sym first))
      | inr later ↦ elim (Bool-cases (str_eq o.limit_id x.limit_id)) [
        | inl e ↦ rw t (x, inl refl, sym ((eq_iff o.limit_id x.limit_id).0 e))
        | inr e ↦
            let (r, there, same) = first_of_each-all (x.limit_id ∷ seen) xs o later (rw e fresh) in
            rw t (r, inr there, same)
      ]
    ]
  ]

  newest_first : (xs : List (UsageRow F)) → Ordered newer_row (sort_by newer_row xs)
  newest_first xs =
      Ordered-map (lexical newer_row never) newer_row (sort_by newer_row xs) (λ z x e. ground arith)
        (sort_by-Ordered newer_row never (λ a b e. ground arith) (λ a b c e f. ground arith) xs
          (unordered xs))
    where
      never : UsageRow F → UsageRow F → Bool
      never a b = false

      all_never : (x : UsageRow F) (ys : List (UsageRow F)) → All (λ z. never z x ≡ false) ys
      all_never x [] = tt
      all_never x (y ∷ ys) = (refl, all_never x ys)

      unordered : (ys : List (UsageRow F)) → Ordered never ys
      unordered [] = tt
      unordered (y ∷ ys) = (all_never y ys, unordered ys)

  module _ (name : String) (history : List (UsageRow F)) where
    abbrev of_name : UsageRow F → Bool
    of_name r = str_eq r.provider name

    In-mine :
        (r : UsageRow F)
        → In r (sort_by newer_row (rows_where of_name history))
        → In r history × (r.provider ≡ name)
    In-mine r i =
        let (there, named) =
          In-rows_where of_name history r
            ((In-sort_by newer_row (rows_where of_name history) r).0 i) in
        (there, (eq_iff r.provider name).0 named)

    mine-In :
        (r : UsageRow F)
        → In r history
        → r.provider ≡ name
        → In r (sort_by newer_row (rows_where of_name history))
    mine-In r i e =
        (In-sort_by newer_row (rows_where of_name history) r).1
          (rows_where-In of_name history r i ((eq_iff r.provider name).1 e))

    pub newest_rows-Newest :
        (r : UsageRow F) → In r (newest_rows name history) → Newest name history r
    newest_rows-Newest r i =
        let (there, fresh) = first_of_each-unseen [] _ r i in
        let (kept, named) = In-mine r there in
        (
          kept,
          named,
          λ o j e same.
              first_of_each-newest [] _ r o (newest_first (rows_where of_name history)) i
                (mine-In o j e) same,
        )

    pub newest_rows-all :
        (o : UsageRow F)
        → In o history
        → o.provider ≡ name
        → (r : UsageRow F) × In r (newest_rows name history) × (r.limit_id ≡ o.limit_id)
    newest_rows-all o i e = first_of_each-all [] _ o (mine-In o i e) refl
