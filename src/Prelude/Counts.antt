-- ===== src/Prelude/Counts.antt =====
-- How many rows of a sorted or a filtered table pass a test.

use mathlib.Core.Path.{◌≡◌, refl}
use mathlib.Core.Logic.{inl, inr}
use mathlib.Core.Bool.{Bool, ◌&&◌}
use mathlib.Core.List.{List, [], ◌∷◌}
use native.Mathlib.Omega.{arith}
use bug_hunter.Prelude.Tests.{Bool-cases}
use bug_hunter.Prelude.Tables.{rows_where, count_where, insert_by, sort_by}

module _ {ℓ} {A : Type ℓ} where
  count-insert_by :
      (q : A → Bool) (less : A → A → Bool) (x : A) (ys : List A)
      → count_where q (insert_by less x ys) ≡ count_where q (x ∷ ys)
  count-insert_by q less x [] = refl
  count-insert_by q less x (y ∷ ys) =
      let rest = count-insert_by q less x ys in
      elim (Bool-cases (less y x)) [ inl e ↦ rw e (omega arith) | inr e ↦ rw e refl ]

  pub count-sort_by :
      (q : A → Bool) (less : A → A → Bool) (xs : List A)
      → count_where q (sort_by less xs) ≡ count_where q xs
  count-sort_by q less [] = refl
  count-sort_by q less (x ∷ xs) =
      let first = count-insert_by q less x (sort_by less xs) in
      let rest = count-sort_by q less xs in omega arith

  pub count-rows_where :
      (q p : A → Bool) (xs : List A)
      → count_where q (rows_where p xs) ≡ count_where (λ x. p x && q x) xs
  count-rows_where q p [] = refl
  count-rows_where q p (x ∷ xs) = ground (arith, count-rows_where q p xs)
