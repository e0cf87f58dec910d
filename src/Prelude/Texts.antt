-- ===== src/Prelude/Texts.antt =====
-- Texts that a program walks, as lists of code points, and what Rust's `str` does with them.
use Prim.Native.Nat.{ℕ, zero, suc, ◌+◌, ◌-◌}
use Prim.Native.Char.{code}
use Prim.Native.String.{String}
use mathlib.Core.Path.{◌≡◌, refl}
use mathlib.Core.Logic.{◌↔◌}
use mathlib.Core.Bool.{Bool, true, false, ◌&&◌, ◌||◌}
use mathlib.Core.Option.{Option, none, some}
use mathlib.Core.List.{List, [], ◌∷◌}
use native.Mathlib.Omega.{arith}
use bug_hunter.Prelude.Tests.{if◌then◌else◌, ◌==◌, leb, ==_iff}

abbrev pub Text : Type 0
Text = List ℕ

abbrev pub codes : String → Text
codes String.[] = []
codes (String.◌∷◌ c s) = code c ∷ codes s

abbrev pub text_eq : Text → Text → Bool
text_eq [] [] = true
text_eq [] (d ∷ t) = false
text_eq (c ∷ s) [] = false
text_eq (c ∷ s) (d ∷ t) = c == d && text_eq s t

abbrev pub is_empty : Text → Bool
is_empty [] = true
is_empty (c ∷ s) = false

-- `char::is_whitespace`: the characters with the Unicode property White_Space.
abbrev pub is_whitespace : ℕ → Bool
is_whitespace c =
    (leb 9 c && leb c 13)
    || c == 32
    || c == 133
    || c == 160
    || c == 5_760
    || (leb 8_192 c && leb c 8_202)
    || c == 8_232
    || c == 8_233
    || c == 8_239
    || c == 8_287
    || c == 12_288

abbrev pub to_lower : ℕ → ℕ
to_lower c = if leb b'A' c && leb c b'Z' then c + 32 else c

abbrev pub to_upper : ℕ → ℕ
to_upper c = if leb b'a' c && leb c b'z' then c - 32 else c

abbrev pub is_digit : ℕ → Bool
is_digit c = leb b'0' c && leb c b'9'

abbrev pub any_char : (ℕ → Bool) → Text → Bool
any_char p [] = false
any_char p (c ∷ s) = p c || any_char p s

abbrev pub trim_start : (ℕ → Bool) → Text → Text
trim_start p [] = []
trim_start p (c ∷ s) = let rest = trim_start p s in if p c then rest else c ∷ s

-- The trailing characters that pass a test are dropped.
abbrev pub kept_end : (ℕ → Bool) → ℕ → Text → Text
kept_end p c [] = if p c then [] else c ∷ []
kept_end p c (d ∷ s) = c ∷ (d ∷ s)

abbrev pub trim_end : (ℕ → Bool) → Text → Text
trim_end p [] = []
trim_end p (c ∷ s) = kept_end p c (trim_end p s)

abbrev pub trim : Text → Text
trim s = trim_end is_whitespace (trim_start is_whitespace s)

abbrev pub starts_with : Text → Text → Bool
starts_with s [] = true
starts_with [] (c ∷ p) = false
starts_with (d ∷ s) (c ∷ p) = d == c && starts_with s p

abbrev pub strip_prefix : Text → Text → Option Text
strip_prefix s [] = some s
strip_prefix [] (c ∷ p) = none
strip_prefix (d ∷ s) (c ∷ p) = let rest = strip_prefix s p in if d == c then rest else none

abbrev pub onto : Text → Text → Text
onto [] t = t
onto (c ∷ s) t = onto s (c ∷ t)

abbrev pub reverse : Text → Text
reverse s = onto s []

abbrev pub strip_suffix : Text → Text → Option Text
strip_suffix s suffix = elim (strip_prefix (reverse s) (reverse suffix)) [
  | none ↦ none
  | some rest ↦ some (reverse rest)
]

abbrev pub before : ℕ → Option (Text × Text) → Option (Text × Text)
before c none = none
before c (some (a, b)) = some (c ∷ a, b)

-- The parts before and after the first, and the last, of a character.
abbrev pub split_once : ℕ → Text → Option (Text × Text)
split_once sep [] = none
split_once sep (c ∷ s) =
    let rest = before c (split_once sep s) in if c == sep then some ([], s) else rest

abbrev pub or_split : ℕ → ℕ → Text → Option (Text × Text) → Option (Text × Text)
or_split sep c s (some (a, b)) = some (c ∷ a, b)
or_split sep c s none = if c == sep then some ([], s) else none

abbrev pub rsplit_once : ℕ → Text → Option (Text × Text)
rsplit_once sep [] = none
rsplit_once sep (c ∷ s) = or_split sep c s (rsplit_once sep s)

abbrev pub cons_part : ℕ → List Text → List Text
cons_part c [] = (c ∷ []) ∷ []
cons_part c (p ∷ ps) = (c ∷ p) ∷ ps

abbrev pub split : ℕ → Text → List Text
split sep [] = [] ∷ []
split sep (c ∷ s) = let rest = split sep s in if c == sep then [] ∷ rest else cons_part c rest

abbrev pub first_part : List Text → Text
first_part [] = []
first_part (p ∷ ps) = p

abbrev pub take_chars : ℕ → Text → Text
take_chars zero s = []
take_chars (suc n) [] = []
take_chars (suc n) (c ∷ s) = c ∷ take_chars n s

pub text_eq_iff : (s t : Text) → (text_eq s t ≡ true) ↔ (s ≡ t)
text_eq_iff [] [] = ((λ e. refl), λ e. refl)
text_eq_iff [] (d ∷ t) = ((λ e. cc), λ e. cc)
text_eq_iff (c ∷ s) [] = ((λ e. cc), λ e. cc)
text_eq_iff (c ∷ s) (d ∷ t) = ground (arith, ==_iff c d, text_eq_iff s t)

pub text_eq_refl : (s : Text) → text_eq s s ≡ true
text_eq_refl s = (text_eq_iff s s).1 refl
