-- ===== src/Prelude/Sweeps.antt =====
-- Tables whose rows of some kind are worked off one by one, by their ids.
use Prim.Native.Nat.{ℕ}
use mathlib.Core.Path.{◌≡◌, refl, ◌∙◌}
use mathlib.Core.Logic.{◌⊎◌, inl, inr}
use mathlib.Core.Bool.{Bool, true, false, ◌||◌, ◌&&◌, not}
use mathlib.Core.List.{List, [], ◌∷◌}
use native.Mathlib.Omega.{arith}
use bug_hunter.Prelude.Tests.{◌==◌, ==_iff, Bool-cases}
use bug_hunter.Prelude.Tables.{
  rows_where, exists_where, update_where, insert_by, sort_by, All, All-map, All-exists,
  exists_where-map,
}

module _ {ℓ} {A : Type ℓ} where
  exists_where-insert_by :
      (p : A → Bool) (less : A → A → Bool) (x : A) (ys : List A)
      → exists_where p (insert_by less x ys) ≡ (p x || exists_where p ys)
  exists_where-insert_by p less x [] = refl
  exists_where-insert_by p less x (y ∷ ys) = ground (arith, exists_where-insert_by p less x ys)

  pub exists_where-sort_by :
      (p : A → Bool) (less : A → A → Bool) (xs : List A)
      → exists_where p (sort_by less xs) ≡ exists_where p xs
  exists_where-sort_by p less [] = refl
  exists_where-sort_by p less (x ∷ xs) =
      exists_where-insert_by p less x (sort_by less xs) ∙ rw (exists_where-sort_by p less xs)

  module _ (id : A → ℕ) (bad : A → Bool) where
    -- Every bad row has its id among the rows still to be worked off.
    abbrev pub Covered : List A → List A → Type 0
    Covered ks xs = All (λ x. (bad x ≡ false) ⊎ (exists_where (λ k. id x == id k) ks ≡ true)) xs

    pub Covered-done : (xs : List A) → Covered [] xs → exists_where bad xs ≡ false
    Covered-done [] c = refl
    Covered-done (x ∷ xs) c = ground (arith, Covered-done xs)

    pub Covered-step :
        (k : A) (ks : List A) (f : A → A) (xs : List A)
        → ((x : A) → bad (f x) ≡ false)
        → Covered (k ∷ ks) xs
        → Covered ks (update_where (λ x. id x == id k) f xs)
    Covered-step k ks f [] h c = tt
    Covered-step k ks f (x ∷ xs) h c = elim (Bool-cases (id x == id k)) [
      | inl t ↦ rw t (inl (h x), Covered-step k ks f xs h c.1)
      | inr t ↦ rw t (ground arith, Covered-step k ks f xs h c.1)
    ]

    exists_where-rows_where :
        (r : A → Bool) (xs : List A)
        → exists_where (λ k. bad k && r k) xs ≡ true
        → exists_where r (rows_where bad xs) ≡ true
    exists_where-rows_where r [] e = e
    exists_where-rows_where r (x ∷ xs) e = ground (arith, exists_where-rows_where r xs)

    -- The sorted bad rows cover the table.
    pub Covered-start :
        (less : A → A → Bool) (xs : List A) → Covered (sort_by less (rows_where bad xs)) xs
    Covered-start less xs =
        All-map (λ x. exists_where (itself x) xs ≡ true) _ xs covered
          (All-exists itself xs reflexive)
      where
        itself : A → A → Bool
        itself x k = not (bad x) || (bad k && id x == id k)

        reflexive : (x : A) → itself x x ≡ true
        reflexive x = elim (Bool-cases (bad x)) [
          | inl t ↦ rw (t, (==_iff (id x) (id x)).1 refl)
          | inr t ↦ rw t
        ]

        covered :
            (x : A)
            → exists_where (itself x) xs ≡ true
            → (bad x ≡ false)
              ⊎ (exists_where (λ k. id x == id k) (sort_by less (rows_where bad xs)) ≡ true)
        covered x e = elim (Bool-cases (bad x)) [
          | inr t ↦ inl t
          | inl t ↦ inr (
              exists_where-sort_by (λ k. id x == id k) less (rows_where bad xs)
              ∙ exists_where-rows_where (λ k. id x == id k) xs
                  (exists_where-map (itself x) (λ k. bad k && id x == id k) xs
                    (λ k q. ground (arith, t)) e))
        ]
