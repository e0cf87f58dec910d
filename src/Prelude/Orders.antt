-- ===== src/Prelude/Orders.antt =====
-- The order of a table that is sorted by one test after another.
use mathlib.Core.Path.{◌≡◌}
use mathlib.Core.Logic.{inl, inr}
use mathlib.Core.Bool.{Bool, true, false, not, ◌&&◌, ◌||◌}
use mathlib.Core.List.{List, [], ◌∷◌}
use native.Mathlib.Omega.{arith}
use bug_hunter.Prelude.Tests.{Bool-cases}
use bug_hunter.Prelude.Tables.{
  rows_where, insert_by, sort_by, All, All-map, All-insert_by, All-sort_by, All-rows_where_keep,
}

module _ {A : Type 0} where
  -- No row is less than one before it.
  abbrev pub Ordered : (A → A → Bool) → List A → Type 0
  Ordered less [] = Unit
  Ordered less (x ∷ xs) = All (λ z. less z x ≡ false) xs × Ordered less xs

  pub Ordered-map :
      (p q : A → A → Bool) (xs : List A)
      → ((z x : A) → p z x ≡ false → q z x ≡ false)
      → Ordered p xs
      → Ordered q xs
  Ordered-map p q [] h o = tt
  Ordered-map p q (x ∷ xs) h o = (All-map _ _ xs (λ z e. h z x e) o.0, Ordered-map p q xs h o.1)

  pub Ordered-rows_where :
      (less : A → A → Bool) (p : A → Bool) (xs : List A)
      → Ordered less xs
      → Ordered less (rows_where p xs)
  Ordered-rows_where less p [] o = tt
  Ordered-rows_where less p (x ∷ xs) o = elim (Bool-cases (p x)) [
    | inl t ↦
        rw t
          (All-rows_where_keep (λ z. less z x ≡ false) p xs o.0, Ordered-rows_where less p xs o.1)
    | inr t ↦ rw t (Ordered-rows_where less p xs o.1)
  ]

  -- By `less`, and where it does not tell two rows apart by `tie`.
  abbrev pub lexical : (less tie : A → A → Bool) → A → A → Bool
  lexical less tie z x = less z x || (not (less x z) && tie z x)

  module _ (less tie : A → A → Bool) (asym : (a b : A) → less a b ≡ true → less b a ≡ false)
      (trans : (a b c : A) → less b a ≡ false → less c b ≡ false → less c a ≡ false) where
    insert_by-Ordered :
        (x : A) (ys : List A)
        → All (λ z. tie z x ≡ false) ys
        → Ordered (lexical less tie) ys
        → Ordered (lexical less tie) (insert_by less x ys)
    insert_by-Ordered x [] t o = (tt, tt)
    insert_by-Ordered x (y ∷ ys) t o = elim (Bool-cases (less y x)) [
      | inl e ↦ rw e (
        All-insert_by (λ z. lexical less tie z y ≡ false) less x ys (ground (arith, asym y x e))
            o.0,
        insert_by-Ordered x ys t.1 o.1,
      )
      | inr e ↦ rw e ((ground (arith, t.0), later e ys t.1 o.0), o)
    ]
      where
        later :
            less y x ≡ false
            → (zs : List A) → All (λ z. tie z x ≡ false) zs
            → All (λ z. lexical less tie z y ≡ false) zs
            → All (λ z. lexical less tie z x ≡ false) zs
        later e [] a b = tt
        later e (z ∷ zs) a b = (ground (arith, e, a.0, b.0, trans x y z), later e zs a.1 b.1)

    pub sort_by-Ordered :
        (xs : List A) → Ordered tie xs → Ordered (lexical less tie) (sort_by less xs)
    sort_by-Ordered [] o = tt
    sort_by-Ordered (x ∷ xs) o =
        insert_by-Ordered x (sort_by less xs) (All-sort_by (λ z. tie z x ≡ false) less xs o.0)
          (sort_by-Ordered xs o.1)
