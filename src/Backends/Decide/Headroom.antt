-- ===== src/Backends/Decide/Headroom.antt =====
-- The headroom of a snapshot, of hunter-rs/src/backends/omp_scavenge/facade.rs.
use bug_hunter.Prelude.{true, Option, none, some, List, [], ◌∷◌, ◌≡◌, refl, inl, inr, Bool-cases}
use bug_hunter.Prelude.Tables.{All, All-map}
use bug_hunter.Backends.Floats.{
  ℤ, least, min_i64, leb_i64, leb_i64_refl, leb_i64_trans, leb_i64_total,
}

min_i64-left : (a b : ℤ) → leb_i64 (min_i64 a b) a ≡ true
min_i64-left a b = elim (Bool-cases (leb_i64 a b)) [
  | inl e ↦ rw e (leb_i64_refl a)
  | inr e ↦ rw e (leb_i64_total a b e)
]

min_i64-right : (a b : ℤ) → leb_i64 (min_i64 a b) b ≡ true
min_i64-right a b = elim (Bool-cases (leb_i64 a b)) [
  | inl e ↦ rw e e
  | inr e ↦ rw e (leb_i64_refl b)
]

-- A cap is at most every cap of the list; no cap leaves the list empty.
abbrev pub Below : Option ℤ → List ℤ → Type 0
Below none xs = xs ≡ []
Below (some a) xs = All (λ x. leb_i64 a x ≡ true) xs

Below-consed :
    (x : ℤ) (xs : List ℤ) (o : Option ℤ)
    → Below o xs
    → Below (elim o [ none ↦ some x | some y ↦ some (min_i64 x y) ]) (x ∷ xs)
Below-consed x xs none h = (leb_i64_refl x, rw h tt)
Below-consed x xs (some y) h = (
  min_i64-left x y,
  All-map (λ z. leb_i64 y z ≡ true) (λ z. leb_i64 (min_i64 x y) z ≡ true) xs
      (λ z k. leb_i64_trans (min_i64 x y) y z (min_i64-right x y) k) h,
)

pub least-Below : (xs : List ℤ) → Below (least xs) xs
least-Below [] = refl
least-Below (x ∷ xs) = Below-consed x xs (least xs) (least-Below xs)
