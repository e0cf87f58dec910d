-- ===== src/Backends/Floats.antt =====
-- What hunter-rs/src/backends/omp_scavenge uses of `f64`, and the signed integers between which
-- and `f64` it converts.
use bug_hunter.Prelude.{ℕ, ◌-◌, Bool, true, false, Option, none, some}
use bug_hunter.Prelude.{List, [], ◌∷◌, leb, ltb, if◌then◌else◌, arith, ◌≡◌, refl}

-- An i64 that may be negative; `negsuc n` is -(n + 1).
pub data ℤ : Type 0 where
  pos : ℕ → ℤ
  negsuc : ℕ → ℤ

-- The difference of two times or counts.
abbrev pub sub_i64 : ℕ → ℕ → ℤ
sub_i64 a b = if leb b a then pos (a - b) else negsuc (b - a - 1)

abbrev pub ltb_i64 : ℤ → ℤ → Bool
ltb_i64 (pos a) (pos b) = ltb a b
ltb_i64 (pos a) (negsuc b) = false
ltb_i64 (negsuc a) (pos b) = true
ltb_i64 (negsuc a) (negsuc b) = ltb b a

abbrev pub leb_i64 : ℤ → ℤ → Bool
leb_i64 (pos a) (pos b) = leb a b
leb_i64 (pos a) (negsuc b) = false
leb_i64 (negsuc a) (pos b) = true
leb_i64 (negsuc a) (negsuc b) = leb b a

abbrev pub min_i64 : ℤ → ℤ → ℤ
min_i64 a b = if leb_i64 a b then a else b

-- `Iterator::min`.
abbrev pub least : List ℤ → Option ℤ
least [] = none
least (x ∷ xs) = elim (least xs) [ none ↦ some x | some y ↦ some (min_i64 x y) ]

-- The operations of `f64`; `trunc` is `as i64`.
pub record FloatOps (F : Type 0) : Type 0 where
  pub of_i64 : ℤ → F
  pub add : F → F → F
  pub sub : F → F → F
  pub mul : F → F → F
  pub div : F → F → F
  pub max : F → F → F
  pub min : F → F → F
  pub lt : F → F → Bool
  pub trunc : F → ℤ

pub leb_i64_refl : (a : ℤ) → leb_i64 a a ≡ true
leb_i64_refl (pos a) = ground arith
leb_i64_refl (negsuc a) = ground arith

pub leb_i64_trans : (a b c : ℤ) → leb_i64 a b ≡ true → leb_i64 b c ≡ true → leb_i64 a c ≡ true
leb_i64_trans (pos a) (pos b) (pos c) h k = ground arith
leb_i64_trans (pos a) (pos b) (negsuc c) h k = ground arith
leb_i64_trans (pos a) (negsuc b) c h k = ground arith
leb_i64_trans (negsuc a) (pos b) (pos c) h k = refl
leb_i64_trans (negsuc a) (pos b) (negsuc c) h k = ground arith
leb_i64_trans (negsuc a) (negsuc b) (pos c) h k = refl
leb_i64_trans (negsuc a) (negsuc b) (negsuc c) h k = ground arith

pub leb_i64_total : (a b : ℤ) → leb_i64 a b ≡ false → leb_i64 b a ≡ true
leb_i64_total (pos a) (pos b) h = ground arith
leb_i64_total (pos a) (negsuc b) h = refl
leb_i64_total (negsuc a) (pos b) h = ground arith
leb_i64_total (negsuc a) (negsuc b) h = ground arith

pub ltb_i64→leb : (a b : ℤ) → ltb_i64 a b ≡ true → leb_i64 a b ≡ true
ltb_i64→leb (pos a) (pos b) h = ground arith
ltb_i64→leb (pos a) (negsuc b) h = ground arith
ltb_i64→leb (negsuc a) (pos b) h = refl
ltb_i64→leb (negsuc a) (negsuc b) h = ground arith

pub ltb_i64-false : (a b : ℤ) → ltb_i64 a b ≡ false → leb_i64 b a ≡ true
ltb_i64-false (pos a) (pos b) h = ground arith
ltb_i64-false (pos a) (negsuc b) h = refl
ltb_i64-false (negsuc a) (pos b) h = ground arith
ltb_i64-false (negsuc a) (negsuc b) h = ground arith
