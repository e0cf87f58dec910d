-- ===== src/Prelude/Members.antt =====
-- The rows of a table that a search finds, and what it means that it finds none.
use mathlib.Core.Path.{◌≡◌, refl, sym, ap, ◌∙◌, subst}
use mathlib.Core.Logic.{◌⊎◌, ◌↔◌, inl, inr}
use mathlib.Core.Bool.{Bool, true, false}
use mathlib.Core.Option.{none, some}
use mathlib.Core.List.{List, [], ◌∷◌}
use native.Mathlib.Omega.{arith}
use bug_hunter.Prelude.Tests.{Bool-cases, if◌then◌else◌}
use bug_hunter.Prelude.Tables.{
  All, first_where, exists_where, update_where, rows_where, insert_by, sort_by, first?, last?,
}

module _ {A : Type 0} where
  abbrev pub In : A → List A → Type 0
  In x [] = ⊥
  In x (y ∷ ys) = (x ≡ y) ⊎ In x ys

  pub first_where-In :
      (p : A → Bool) (xs : List A) (x : A) → first_where p xs ≡ some x → In x xs × (p x ≡ true)
  first_where-In p [] x e = cc
  first_where-In p (y ∷ ys) x e = elim (Bool-cases (p y)) [
    | inl t ↦ let same : y ≡ x = ground arith in (inl (sym same), subst (λ z. p z ≡ true) same t)
    | inr t ↦ let (there, passes) = first_where-In p ys x (ground arith) in (inr there, passes)
  ]

  pub first_where-none :
      (p : A → Bool) (xs : List A) → first_where p xs ≡ none → exists_where p xs ≡ false
  first_where-none p [] e = refl
  first_where-none p (y ∷ ys) e = ground (arith, first_where-none p ys)

  pub first?-In : (xs : List A) (x : A) → first? xs ≡ some x → In x xs
  first?-In [] x e = cc
  first?-In (y ∷ ys) x e = let same : y ≡ x = ground arith in inl (sym same)

  pub first?-none : (xs : List A) → first? xs ≡ none → xs ≡ []
  first?-none [] e = refl
  first?-none (y ∷ ys) e = cc

  pub last?-In : (xs : List A) (x : A) → last? xs ≡ some x → In x xs
  last?-In [] x e = cc
  last?-In (y ∷ []) x e = let same : y ≡ x = ground arith in inl (sym same)
  last?-In (y ∷ (z ∷ zs)) x e = inr (last?-In (z ∷ zs) x e)

  pub last?-none : (xs : List A) → last? xs ≡ none → xs ≡ []
  last?-none [] e = refl
  last?-none (y ∷ []) e = cc
  last?-none (y ∷ (z ∷ zs)) e = absurd (last_there z zs e)
    where
      last_there : (z : A) (zs : List A) → last? (z ∷ zs) ≡ none → ⊥
      last_there z [] e = cc
      last_there z (w ∷ ws) e = last_there w ws e

  pub exists_where-In :
      (p : A → Bool) (xs : List A) → exists_where p xs ≡ true → (x : A) × In x xs × (p x ≡ true)
  exists_where-In p [] e = cc
  exists_where-In p (y ∷ ys) e = elim (Bool-cases (p y)) [
    | inl t ↦ (y, inl refl, t)
    | inr t ↦ let (x, there, passes) = exists_where-In p ys (ground arith) in (x, inr there, passes)
  ]

  pub In-exists_where :
      (p : A → Bool) (xs : List A) (x : A) → In x xs → p x ≡ true → exists_where p xs ≡ true
  In-exists_where p [] x i e = absurd i
  In-exists_where p (y ∷ ys) x (inl same) e =
      let here : p y ≡ true = ap p (sym same) ∙ e in rw here refl
  In-exists_where p (y ∷ ys) x (inr there) e =
      let rest = In-exists_where p ys x there e in ground arith

  -- Two tables with the same number of rows, related row by row.
  abbrev pub AllTwo : (A → A → Type 0) → List A → List A → Type 0
  AllTwo R [] [] = Unit
  AllTwo R [] (y ∷ ys) = ⊥
  AllTwo R (x ∷ xs) [] = ⊥
  AllTwo R (x ∷ xs) (y ∷ ys) = R x y × AllTwo R xs ys

  -- What an UPDATE does to each row.
  pub update_where-AllTwo :
      (R : A → A → Type 0) (p : A → Bool) (f : A → A) (xs : List A)
      → ((x : A) → In x xs → p x ≡ true → R x (f x))
      → ((x : A) → In x xs → p x ≡ false → R x x)
      → AllTwo R xs (update_where p f xs)
  update_where-AllTwo R p f [] h k = tt
  update_where-AllTwo R p f (x ∷ xs) h k =
      let rest = update_where-AllTwo R p f xs (λ y i. h y (inr i)) (λ y i. k y (inr i)) in
      elim (Bool-cases (p x)) [
        | inl t ↦ rw t (h x (inl refl) t, rest)
        | inr t ↦ rw t (k x (inl refl) t, rest)
      ]

  pub All-In-at : (P : A → Type 0) (xs : List A) (x : A) → All P xs → In x xs → P x
  All-In-at P [] x a i = absurd i
  All-In-at P (y ∷ ys) x a (inl same) = subst P (sym same) a.0
  All-In-at P (y ∷ ys) x a (inr there) = All-In-at P ys x a.1 there

  -- Whether a row that may be put first is in the table.
  In-put_first :
      (b : Bool) (y : A) (ys : List A) (x : A)
      → In x (if b then y ∷ ys else ys)
      → ((b ≡ true) × (x ≡ y)) ⊎ In x ys
  In-put_first true y ys x (inl same) = inl (refl, same)
  In-put_first true y ys x (inr there) = inr there
  In-put_first false y ys x there = inr there

  pub In-rows_where :
      (p : A → Bool) (xs : List A) (x : A) → In x (rows_where p xs) → In x xs × (p x ≡ true)
  In-rows_where p [] x i = absurd i
  In-rows_where p (y ∷ ys) x i = elim (In-put_first (p y) y (rows_where p ys) x i) [
    | inl (t, same) ↦ (inl same, ap p same ∙ t)
    | inr there ↦ let (j, passes) = In-rows_where p ys x there in (inr j, passes)
  ]

  pub rows_where-In :
      (p : A → Bool) (xs : List A) (x : A) → In x xs → p x ≡ true → In x (rows_where p xs)
  rows_where-In p [] x i t = absurd i
  rows_where-In p (y ∷ ys) x (inl same) t =
      let here : p y ≡ true = ap p (sym same) ∙ t in rw here (inl same)
  rows_where-In p (y ∷ ys) x (inr there) t = elim (Bool-cases (p y)) [
    | inl e ↦ rw e (inr (rows_where-In p ys x there t))
    | inr e ↦ rw e (rows_where-In p ys x there t)
  ]

  In-insert_by :
      (less : A → A → Bool) (y : A) (ys : List A) (x : A)
      → In x (insert_by less y ys) ↔ ((x ≡ y) ⊎ In x ys)
  In-insert_by less y [] x = (λ i. i, λ i. i)
  In-insert_by less y (z ∷ zs) x =
      let rest = In-insert_by less y zs x in
      elim (Bool-cases (less z y)) [
        | inl e ↦ rw e (
          λ i. elim i [
            | inl same ↦ inr (inl same)
            | inr there ↦ elim (rest.0 there) [ inl s ↦ inl s | inr t ↦ inr (inr t) ]
          ],
          λ i. elim i [
            | inl same ↦ inr (rest.1 (inl same))
            | inr there ↦ elim there [ inl s ↦ inl s | inr t ↦ inr (rest.1 (inr t)) ]
          ],
        )
        | inr e ↦ rw e (λ i. i, λ i. i)
      ]

  pub In-sort_by : (less : A → A → Bool) (xs : List A) (x : A) → In x (sort_by less xs) ↔ In x xs
  In-sort_by less [] x = (λ i. i, λ i. i)
  In-sort_by less (y ∷ ys) x =
      let rest = In-sort_by less ys x in
      let here = In-insert_by less y (sort_by less ys) x in
      (
        λ i. elim (here.0 i) [ inl s ↦ inl s | inr t ↦ inr (rest.0 t) ],
        λ i. elim i [ inl s ↦ here.1 (inl s) | inr t ↦ here.1 (inr (rest.1 t)) ],
      )

  pub All-In : (P : A → Type 0) (xs : List A) → ((x : A) → In x xs → P x) → All P xs
  All-In P [] h = tt
  All-In P (x ∷ xs) h = (h x (inl refl), All-In P xs (λ y i. h y (inr i)))
