-- ===== src/Prelude/Tables.antt =====
-- Tables as lists of rows: the reads and writes of SQL that the store's statements are made of,
-- and a stable insertion sort for their ORDER BY.
use Prim.Native.Nat.{ℕ, suc, ◌+◌, ◌≤◌, ◌<◌}
use mathlib.Core.Path.{◌≡◌, refl, subst}
use mathlib.Core.Logic.{inl, inr}
use mathlib.Core.Bool.{Bool, true, false, ◌||◌, ◌&&◌}
use mathlib.Core.Option.{Option, none, some}
use mathlib.Core.Option
use mathlib.Core.List.{List, [], ◌∷◌}
use native.Mathlib.Omega.{arith}
use bug_hunter.Prelude.Tests.{if◌then◌else◌, Bool-cases}

module _ {ℓ} {A : Type ℓ} where
  -- SELECT … WHERE.
  abbrev pub rows_where : (A → Bool) → List A → List A
  rows_where p [] = []
  rows_where p (x ∷ xs) = if p x then x ∷ rows_where p xs else rows_where p xs

  -- The first row that passes, as `fetch_optional` or `find` gives it.
  abbrev pub first_where : (A → Bool) → List A → Option A
  first_where p [] = none
  first_where p (x ∷ xs) = if p x then some x else first_where p xs

  -- EXISTS, and `rows_affected() > 0`.
  abbrev pub exists_where : (A → Bool) → List A → Bool
  exists_where p [] = false
  exists_where p (x ∷ xs) = p x || exists_where p xs

  -- UPDATE … WHERE.
  abbrev pub update_where : (A → Bool) → (A → A) → List A → List A
  update_where p f [] = []
  update_where p f (x ∷ xs) = (if p x then f x else x) ∷ update_where p f xs

  -- COUNT.
  abbrev pub count_where : (A → Bool) → List A → ℕ
  count_where p [] = 0
  count_where p (x ∷ xs) = (if p x then 1 else 0) + count_where p xs

  abbrev pub length : List A → ℕ
  length [] = 0
  length (x ∷ xs) = suc (length xs)

  abbrev pub first? : List A → Option A
  first? [] = none
  first? (x ∷ xs) = some x

  abbrev pub last? : List A → Option A
  last? [] = none
  last? (x ∷ []) = some x
  last? (x ∷ (y ∷ xs)) = last? (y ∷ xs)

  -- A stable sort: `insert_by` puts a row before the rows that are not less than it.
  abbrev pub insert_by : (A → A → Bool) → A → List A → List A
  insert_by less x [] = x ∷ []
  insert_by less x (y ∷ ys) = if less y x then y ∷ insert_by less x ys else x ∷ (y ∷ ys)

  abbrev pub sort_by : (A → A → Bool) → List A → List A
  sort_by less [] = []
  sort_by less (x ∷ xs) = insert_by less x (sort_by less xs)

  -- Every row satisfies `P`.
  abbrev pub All {κ} : (A → Type κ) → List A → Type κ
  All P [] = Unit
  All P (x ∷ xs) = P x × All P xs

  pub All-rows_where : (p : A → Bool) (xs : List A) → All (λ x. p x ≡ true) (rows_where p xs)
  All-rows_where p [] = tt
  All-rows_where p (x ∷ xs) = elim (Bool-cases (p x)) [
    | inl e ↦ rw e (e, All-rows_where p xs)
    | inr e ↦ rw e (All-rows_where p xs)
  ]

  pub All-rows_where_keep {κ} :
      (P : A → Type κ) (p : A → Bool) (xs : List A) → All P xs → All P (rows_where p xs)
  All-rows_where_keep P p [] h = h
  All-rows_where_keep P p (x ∷ xs) h = elim (Bool-cases (p x)) [
    | inl e ↦ rw e (h.0, All-rows_where_keep P p xs h.1)
    | inr e ↦ rw e (All-rows_where_keep P p xs h.1)
  ]

  pub All-insert_by {κ} :
      (P : A → Type κ) (less : A → A → Bool) (x : A) (ys : List A)
      → P x
      → All P ys
      → All P (insert_by less x ys)
  All-insert_by P less x [] px h = (px, h)
  All-insert_by P less x (y ∷ ys) px h = elim (Bool-cases (less y x)) [
    | inl e ↦ rw e (h.0, All-insert_by P less x ys px h.1)
    | inr e ↦ rw e (px, h)
  ]

  pub All-sort_by {κ} :
      (P : A → Type κ) (less : A → A → Bool) (xs : List A) → All P xs → All P (sort_by less xs)
  All-sort_by P less [] h = h
  All-sort_by P less (x ∷ xs) h =
      All-insert_by P less x (sort_by less xs) h.0 (All-sort_by P less xs h.1)

  pub first_where_sound {κ} :
      (P : A → Type κ) (p : A → Bool) (xs : List A) (x : A)
      → All P xs
      → first_where p xs ≡ some x
      → P x × (p x ≡ true)
  first_where_sound P p [] x h e = cc
  first_where_sound P p (y ∷ ys) x h e = elim (Bool-cases (p y)) [
    | inl t ↦ let q : y ≡ x = ground arith in subst (λ z. P z × (p z ≡ true)) q (h.0, t)
    | inr t ↦ first_where_sound P p ys x h.1 (ground arith)
  ]

  pub first_where_passes :
      (p : A → Bool) (xs : List A) (x : A) → first_where p xs ≡ some x → p x ≡ true
  first_where_passes p [] x e = cc
  first_where_passes p (y ∷ ys) x e = elim (Bool-cases (p y)) [
    | inl t ↦ let same : y ≡ x = ground arith in subst (λ z. p z ≡ true) same t
    | inr t ↦ first_where_passes p ys x (ground arith)
  ]

  pub count-update_where :
      (p q : A → Bool) (f : A → A) (xs : List A)
      → ((x : A) → p x ≡ true → q (f x) ≡ true → q x ≡ true)
      → count_where q (update_where p f xs) ≤ count_where q xs
  count-update_where p q f [] h = omega arith
  count-update_where p q f (x ∷ xs) h = ground (arith, h x, count-update_where p q f xs h)

  -- A row that still passes after its update is found updated.
  pub first_where-update :
      (p : A → Bool) (f : A → A) (xs : List A)
      → ((x : A) → p x ≡ true → p (f x) ≡ true)
      → first_where p (update_where p f xs) ≡ Option.map f (first_where p xs)
  first_where-update p f [] h = refl
  first_where-update p f (x ∷ xs) h = elim (Bool-cases (p x)) [
    | inl e ↦ rw (e, h x e)
    | inr e ↦ rw (e, e) (first_where-update p f xs h)
  ]

  pub exists_where-none :
      (p : A → Bool) (f : A → A) (xs : List A)
      → exists_where p xs ≡ false
      → update_where p f xs ≡ xs
  exists_where-none p f [] h = refl
  exists_where-none p f (x ∷ xs) h = ground (arith, exists_where-none p f xs)

  -- An update clears a test of its rows when it clears it of the rows it changes, and the other
  -- rows did not pass it.
  pub exists_where-cleared :
      (p q : A → Bool) (f : A → A) (xs : List A)
      → ((x : A) → p x ≡ true → q (f x) ≡ false)
      → ((x : A) → p x ≡ false → q x ≡ false)
      → exists_where q (update_where p f xs) ≡ false
  exists_where-cleared p q f [] h k = refl
  exists_where-cleared p q f (x ∷ xs) h k = elim (Bool-cases (p x)) [
    | inl e ↦ rw (e, h x e) (exists_where-cleared p q f xs h k)
    | inr e ↦ rw (e, k x e) (exists_where-cleared p q f xs h k)
  ]

  -- A test that an update leaves alone has the same answer on the updated rows.
  pub exists_where-update :
      (p q : A → Bool) (f : A → A) (xs : List A)
      → ((x : A) → q (f x) ≡ q x)
      → exists_where q (update_where p f xs) ≡ exists_where q xs
  exists_where-update p q f [] h = refl
  exists_where-update p q f (x ∷ xs) h = elim (Bool-cases (p x)) [
    | inl e ↦ rw (e, h x, exists_where-update p q f xs h)
    | inr e ↦ rw (e, exists_where-update p q f xs h)
  ]

  pub rows_where-false : (xs : List A) → rows_where (λ x. false) xs ≡ []
  rows_where-false [] = refl
  rows_where-false (x ∷ xs) = rows_where-false xs

  -- An update that fails a test on the rows it changes, one of which passed it, leaves fewer rows
  -- that pass.
  pub count-update_where_less :
      (p q : A → Bool) (f : A → A) (xs : List A)
      → ((x : A) → p x ≡ true → q (f x) ≡ false)
      → exists_where (λ x. p x && q x) xs ≡ true
      → count_where q (update_where p f xs) < count_where q xs
  count-update_where_less p q f [] h e = cc
  count-update_where_less p q f (x ∷ xs) h e =
      let weak = count-update_where p q f xs (λ y t u. absurd (ground (arith, h y))) in
      elim (Bool-cases (p x && q x)) [
        | inl t ↦ ground (arith, h x)
        | inr t ↦ ground (arith, h x, count-update_where_less p q f xs h)
      ]

  pub exists_where-kept :
      (p r : A → Bool) (f : A → A) (xs : List A)
      → ((x : A) → p x ≡ true → r x ≡ true → r (f x) ≡ true)
      → exists_where r xs ≡ true
      → exists_where r (update_where p f xs) ≡ true
  exists_where-kept p r f [] h e = e
  exists_where-kept p r f (x ∷ xs) h e = ground (arith, h x, exists_where-kept p r f xs h)

  pub All-map {κ μ} :
      (P : A → Type κ) (Q : A → Type μ) (xs : List A) → ((x : A) → P x → Q x) → All P xs → All Q xs
  All-map P Q [] h a = tt
  All-map P Q (x ∷ xs) h a = (h x a.0, All-map P Q xs h a.1)

  -- Every row is found by a test that it passes itself.
  pub All-exists :
      (r : A → A → Bool) (xs : List A)
      → ((x : A) → r x x ≡ true)
      → All (λ x. exists_where (r x) xs ≡ true) xs
  All-exists r [] h = tt
  All-exists r (x ∷ xs) h = (
    rw (h x) refl,
    All-map (λ y. exists_where (r y) xs ≡ true) (λ y. exists_where (r y) (x ∷ xs) ≡ true) xs
        (λ y e. ground arith) (All-exists r xs h),
  )

  pub first_where-exists :
      (p q : A → Bool) (xs : List A) (x : A)
      → first_where p xs ≡ some x
      → q x ≡ true
      → exists_where (λ y. p y && q y) xs ≡ true
  first_where-exists p q [] x e h = cc
  first_where-exists p q (y ∷ ys) x e h = elim (Bool-cases (p y)) [
    | inl t ↦ let same : y ≡ x = ground arith in rw (t, same, h) refl
    | inr t ↦ rw t (first_where-exists p q ys x (ground arith) h)
  ]

  pub first?-All {κ} : (P : A → Type κ) (xs : List A) (x : A) → All P xs → first? xs ≡ some x → P x
  first?-All P [] x a e = cc
  first?-All P (y ∷ ys) x a e = let same : y ≡ x = ground arith in subst P same a.0

  pub last?-All {κ} : (P : A → Type κ) (xs : List A) (x : A) → All P xs → last? xs ≡ some x → P x
  last?-All P [] x a e = cc
  last?-All P (y ∷ []) x a e = let same : y ≡ x = ground arith in subst P same a.0
  last?-All P (y ∷ (z ∷ zs)) x a e = last?-All P (z ∷ zs) x a.1 e

  pub exists_where-map :
      (p q : A → Bool) (xs : List A)
      → ((x : A) → p x ≡ true → q x ≡ true)
      → exists_where p xs ≡ true
      → exists_where q xs ≡ true
  exists_where-map p q [] h e = e
  exists_where-map p q (x ∷ xs) h e = ground (arith, h x, exists_where-map p q xs h)

  -- The rows that pass a test, with what every row satisfies.
  pub All-where {κ μ} :
      (P : A → Type κ) (Q : A → Type μ) (p : A → Bool) (xs : List A)
      → ((x : A) → P x → p x ≡ true → Q x)
      → All P xs
      → All Q (rows_where p xs)
  All-where P Q p [] h a = tt
  All-where P Q p (x ∷ xs) h a = elim (Bool-cases (p x)) [
    | inl t ↦ rw t (h x a.0 t, All-where P Q p xs h a.1)
    | inr t ↦ rw t (All-where P Q p xs h a.1)
  ]

  pub All-update_where {κ} :
      (P : A → Type κ) (p : A → Bool) (f : A → A) (xs : List A)
      → ((x : A) → P x → P (f x))
      → All P xs
      → All P (update_where p f xs)
  All-update_where P p f [] h a = tt
  All-update_where P p f (x ∷ xs) h a = elim (Bool-cases (p x)) [
    | inl t ↦ rw t (h x a.0, All-update_where P p f xs h a.1)
    | inr t ↦ rw t (a.0, All-update_where P p f xs h a.1)
  ]

  -- An update that the test of a search does not notice changes the row that is found.
  pub first_where-update_any :
      (p q : A → Bool) (f : A → A) (xs : List A)
      → ((x : A) → p (f x) ≡ p x)
      → first_where p (update_where q f xs)
        ≡ Option.map (λ x. if q x then f x else x) (first_where p xs)
  first_where-update_any p q f [] h = refl
  first_where-update_any p q f (x ∷ xs) h =
      let rest = first_where-update_any p q f xs h in
      elim (Bool-cases (p x)) [
        | inl e ↦ elim (Bool-cases (q x)) [ inl t ↦ rw (t, h x, e, t) | inr t ↦ rw (t, e, t) ]
        | inr e ↦ elim (Bool-cases (q x)) [ inl t ↦ rw (t, h x, e) rest | inr t ↦ rw (t, e) rest ]
      ]
