-- ===== src/Backends/Capacity/Current.antt =====
-- What the snapshot of hunter-rs/src/backends/omp_scavenge/capacity.rs holds.
use bug_hunter.Prelude.{
  ℕ, true, false, not, String, Option, none, some, List, [], ◌∷◌, arith, ◌≡◌, refl, sym, subst, ap,
  ◌⊎◌, inl, inr,
}
use bug_hunter.Prelude.Tables.{All, All-sort_by, sort_by, exists_where}
use bug_hunter.Prelude.Members.{In, All-In, All-In-at, In-sort_by}
use bug_hunter.Backends.Capacity.Newest.{Newest, newest_rows-Newest, newest_rows-all}
use bug_hunter.Backends.Floats.{FloatOps}
use bug_hunter.Backends.Provider.{LlmProvider, WindowState, quota}
use bug_hunter.Backends.Capacity.{
  UsageRow, newest_rows, key_less, read_windows, read_rows, read_row,
}
use bug_hunter.Backends.Capacity.Shown.{Result, read_row-Result, Shows, Ignored, Unrollable}

module _ {F : Type 0} (fl : FloatOps F) where
  module _ (p : LlmProvider) (now : ℕ) where
    In-read :
        (o : Option (WindowState F)) (rest : List (WindowState F)) (w : WindowState F)
        → In w (elim o [ none ↦ rest | some a ↦ a ∷ rest ])
        → (o ≡ some w) ⊎ In w rest
    In-read none rest w i = inr i
    In-read (some a) rest w (inl same) = inl (ap some (sym same))
    In-read (some a) rest w (inr there) = inr there

    read_rows-shown :
        (rows : List (UsageRow F)) (w : WindowState F)
        → In w (read_rows fl (quota fl p) now rows)
        → (r : UsageRow F) × In r rows × Shows fl (quota fl p) now r w
    read_rows-shown [] w i = absurd i
    read_rows-shown (r ∷ rs) w i = elim (In-read (read_row fl (quota fl p) now r) _ w i) [
      | inl e ↦ (r, inl refl, subst (Result fl (quota fl p) now r) e (read_row-Result fl p now r))
      | inr there ↦ let (o, j, shows) = read_rows-shown rs w there in (o, inr j, shows)
    ]

    -- What the snapshot makes of a row: it is shown, or there is a reason that it is not.
    abbrev pub DealtWith : UsageRow F → List (WindowState F) → Type 0
    DealtWith r ws =
        Ignored fl (quota fl p) now r
        ⊎ Unrollable fl (quota fl p) now r
        ⊎ ((w : WindowState F) × Shows fl (quota fl p) now r w × In w ws)

    here-DealtWith :
        (r : UsageRow F) (o : Option (WindowState F)) (rest : List (WindowState F))
        → Result fl (quota fl p) now r o
        → DealtWith r (elim o [ none ↦ rest | some a ↦ a ∷ rest ])
    here-DealtWith r none rest (inl ignored) = inl ignored
    here-DealtWith r none rest (inr stale) = inr (inl stale)
    here-DealtWith r (some a) rest shows = inr (inr (a, shows, inl refl))

    later-DealtWith :
        (r : UsageRow F) (o : Option (WindowState F)) (rest : List (WindowState F))
        → DealtWith r rest
        → DealtWith r (elim o [ none ↦ rest | some a ↦ a ∷ rest ])
    later-DealtWith r none rest d = d
    later-DealtWith r (some a) rest (inl ignored) = inl ignored
    later-DealtWith r (some a) rest (inr (inl stale)) = inr (inl stale)
    later-DealtWith r (some a) rest (inr (inr (w, shows, there))) = inr (inr (w, shows, inr there))

    read_rows-DealtWith :
        (rows : List (UsageRow F)) (r : UsageRow F)
        → In r rows
        → DealtWith r (read_rows fl (quota fl p) now rows)
    read_rows-DealtWith [] r i = absurd i
    read_rows-DealtWith (o ∷ os) r (inl same) =
        subst (λ z. DealtWith z (read_rows fl (quota fl p) now (o ∷ os))) (sym same)
          (here-DealtWith o _ _ (read_row-Result fl p now o))
    read_rows-DealtWith (o ∷ os) r (inr there) =
        later-DealtWith r _ _ (read_rows-DealtWith os r there)

    sorted-DealtWith :
        (r : UsageRow F) (ws : List (WindowState F))
        → DealtWith r ws
        → DealtWith r (sort_by key_less ws)
    sorted-DealtWith r ws (inl ignored) = inl ignored
    sorted-DealtWith r ws (inr (inl stale)) = inr (inl stale)
    sorted-DealtWith r ws (inr (inr (w, shows, there))) =
        inr (inr (w, shows, (In-sort_by key_less ws w).1 there))

    readable_rows :
        (rows : List (UsageRow F))
        → ((r : UsageRow F) → In r rows → r.readable ≡ true)
        → exists_where (λ r. not r.readable) rows ≡ false
    readable_rows [] h = refl
    readable_rows (r ∷ rs) h =
        let this = h r (inl refl) in
        let rest = readable_rows rs (λ o i. h o (inr i)) in ground arith

    -- A window of a snapshot shows a row that none of its limit is newer than.
    abbrev pub Current : (name : String) → List (UsageRow F) → WindowState F → Type 0
    Current name history w =
        (r : UsageRow F) × Newest name history r × Shows fl (quota fl p) now r w

    -- With a history that can be read, each window of a provider's snapshot shows a newest row of one
    -- of its limits, and still runs; and each limit of the history has a newest row that is shown,
    -- unless the snapshot does not list the limit, or the row's window is over and no fixed period
    -- is known for it. A row whose window runs is shown as recorded; one whose window is over as
    -- the unused cycle that the present time is in, a whole number of that limit's periods after
    -- the row's reset.
    pub read_windows-Current :
        (name : String) (history : List (UsageRow F)) (o : UsageRow F)
        → All (λ r. r.readable ≡ true) history
        → In o history
        → o.provider ≡ name
        → All (Current name history) (read_windows fl (quota fl p) name history now)
          × ((r : UsageRow F) × Newest name history r
              × (r.limit_id ≡ o.limit_id)
              × DealtWith r (read_windows fl (quota fl p) name history now))
    unfolding read_windows
    read_windows-Current name history o readable j named =
        let rows : List (UsageRow F) = newest_rows name history in
        let shown : List (WindowState F) = read_rows fl (quota fl p) now rows in
        let whole : exists_where (λ r. not r.readable) rows ≡ false = readable_rows rows (λ r i.
          All-In-at (λ z. z.readable ≡ true) history r readable
            (newest_rows-Newest name history r i).0) in
        let (r, there, same) = newest_rows-all name history o j named in
        rw whole (
          All-sort_by (Current name history) key_less shown (
              All-In (Current name history) shown λ w i.
                let (z, k, shows) = read_rows-shown rows w i in
                (z, newest_rows-Newest name history z k, shows)),
          (
            r,
            newest_rows-Newest name history r there,
            same,
            sorted-DealtWith r shown (read_rows-DealtWith rows r there),
          ),
        )
