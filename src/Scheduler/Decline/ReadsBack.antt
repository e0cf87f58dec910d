-- ===== src/Scheduler/Decline/ReadsBack.antt =====
-- The report of a declined fix, written as the worker is asked to, for hunter-rs/src/scheduler.rs.
use bug_hunter.Prelude.{
  ℕ, ◌≡◌, ◌∙◌, refl, ap, inl, inr, false, List, [], ◌∷◌, ◌++◌, Option, none, some, ◌==◌, arith,
  Bool-cases,
}
use bug_hunter.Prelude.Texts.{
  Text, codes, is_empty, is_whitespace, any_char, trim, trim_start, split_once, split, take_chars,
}
use bug_hunter.Domain.Status.{
  ClosureClass, superseded, duplicate, obsolete, wrong, unwanted, abandoned, class_name,
}
use bug_hunter.Scheduler.Decline.{
  is_emphasis, trim_matches, header, strip_cr, lines, skim, skim_line, paths_of, parse_decline,
  class_of, explained, first_line,
}

abbrev pub Lacks : ℕ → Text → Type 0
Lacks d s = any_char (λ c. c == d) s ≡ false

-- A text that stands whole on its line: trimmed, not empty, and with no end of line in it.
abbrev pub OneLine : Text → Type 0
OneLine s =
    Lacks 10 s × Lacks 13 s × (trim_matches is_emphasis s ≡ s) × (trim s ≡ s) × (is_empty s ≡ false)

-- The report of the playbook, with one condition and one path.
abbrev pub print_decline : ClosureClass → (condition path explanation : Text) → Text
unfolding class_name
print_decline c condition path explanation =
    codes "Classification: "
    ++ (codes (class_name c)
        ++ (10
            ∷ (codes "Holds while: "
                ++ (condition ++ (10 ∷ (codes "Depends on: " ++ (path ++ (10 ∷ explanation))))))))

split-line : (a b : Text) → Lacks 10 a → split 10 (a ++ (10 ∷ b)) ≡ a ∷ split 10 b
split-line [] b h = refl
split-line (c ∷ a) b h = elim (Bool-cases (c == 10)) [
  | inl t ↦ absurd (ground arith)
  | inr t ↦ rw (t, split-line a b (ground arith)) refl
]

split-none : (d : ℕ) (a : Text) → Lacks d a → split d a ≡ a ∷ []
split-none d [] h = refl
split-none d (c ∷ a) h = elim (Bool-cases (c == d)) [
  | inl t ↦ absurd (ground arith)
  | inr t ↦ rw (t, split-none d a (ground arith)) refl
]

split_once-none : (d : ℕ) (a : Text) → Lacks d a → split_once d a ≡ none
split_once-none d [] h = refl
split_once-none d (c ∷ a) h = elim (Bool-cases (c == d)) [
  | inl t ↦ absurd (ground arith)
  | inr t ↦ rw (t, split_once-none d a (ground arith)) refl
]

strip_cr-none : (a : Text) → Lacks 13 a → strip_cr a ≡ a
strip_cr-none [] h = refl
strip_cr-none (c ∷ []) h = ground arith
strip_cr-none (c ∷ (d ∷ a)) h = rw (strip_cr-none (d ∷ a) (ground arith)) refl

-- The lines that follow the classification.
lines-print :
    (h p e : Text)
    → Lacks 10 h
    → Lacks 13 h
    → Lacks 10 p
    → Lacks 13 p
    → Lacks 10 e
    → is_empty e ≡ false
    → lines (codes "Holds while: " ++ (h ++ (10 ∷ (codes "Depends on: " ++ (p ++ (10 ∷ e))))))
      ≡ (codes "Holds while: " ++ h) ∷ (codes "Depends on: " ++ p) ∷ e ∷ []
lines-print h p e h10 h13 p10 p13 e10 some_e =
    rw
      (
        split-line h (codes "Depends on: " ++ (p ++ (10 ∷ e))) h10,
        split-line p e p10,
        split-none 10 e e10,
        strip_cr-none (codes " " ++ h) h13,
        strip_cr-none (codes " " ++ p) p13,
        some_e,
      )
      refl

header-holds :
    (h : Text)
    → trim_matches is_emphasis h ≡ h
    → header (codes "Holds while: " ++ h) ≡ some (codes "holds while", h)
unfolding header
header-holds h th = rw th refl

header-depends :
    (p : Text)
    → trim_matches is_emphasis p ≡ p
    → header (codes "Depends on: " ++ p) ≡ some (codes "depends on", p)
unfolding header
header-depends p tp = rw tp refl

header-none : (e : Text) → Lacks b':' e → header e ≡ none
unfolding header
header-none e colon = rw (header, split_once-none b':' e colon) refl

paths_of-one : (p : Text) → Lacks b',' p → trim p ≡ p → is_empty p ≡ false → paths_of p ≡ p ∷ []
paths_of-one p comma wp some_p = rw (split-none b',' p comma, wp, some_p) refl

skim-step :
    (l : Text) (ls : List Text) (o : Option (Text × Text)) (c : Option Text) (ps : List Text)
    → header l ≡ o
    → skim (l ∷ ls) c ps ≡ skim_line l ls (skim ls) o c ps
unfolding skim
skim-step l ls o c ps e = ap (λ x. skim_line l ls (skim ls) x c ps) e

skim-print :
    (h p e : Text)
    → trim_matches is_emphasis h ≡ h
    → trim_matches is_emphasis p ≡ p
    → trim p ≡ p
    → is_empty p ≡ false
    → Lacks b',' p
    → Lacks b':' e
    → trim e ≡ e
    → is_empty e ≡ false
    → skim ((codes "Holds while: " ++ h) ∷ (codes "Depends on: " ++ p) ∷ e ∷ []) none []
      ≡ record { holds_while = some h; depends_on = p ∷ []; left = e ∷ [] }
unfolding skim
skim-print h p e th tp wp some_p comma colon we some_e =
    let depends : Text = codes "Depends on: " ++ p in
    skim-step (codes "Holds while: " ++ h) (depends ∷ e ∷ []) _ none [] (header-holds h th)
    ∙ skim-step depends (e ∷ []) _ (some h) [] (header-depends p tp)
    ∙ skim-step e [] none (some h) (paths_of p) (header-none e colon)
    ∙ rw (paths_of-one p comma wp some_p, we, some_e) refl

-- The text of the first line, and what it is read as.
abbrev classification : ClosureClass → Text
unfolding class_name
classification c = codes "Classification: " ++ codes (class_name c)

class_of-classification : (c : ClosureClass) → class_of (header (classification c)) ≡ some c
unfolding header class_name
class_of-classification superseded = refl
class_of-classification duplicate = refl
class_of-classification obsolete = refl
class_of-classification wrong = refl
class_of-classification unwanted = refl
class_of-classification abandoned = refl

first_line-print :
    (c : ClosureClass) (h p e : Text)
    → first_line (trim_start is_whitespace (print_decline c h p e)) ≡ (
      classification c,
      codes "Holds while: " ++ (h ++ (10 ∷ (codes "Depends on: " ++ (p ++ (10 ∷ e))))),
    )
unfolding class_name
first_line-print superseded h p e = refl
first_line-print duplicate h p e = refl
first_line-print obsolete h p e = refl
first_line-print wrong h p e = refl
first_line-print unwanted h p e = refl
first_line-print abandoned h p e = refl

-- A report in the form that the worker is asked for, its condition, path and explanation each on
-- one line, the path without a comma and the explanation without a colon, reads back as its
-- class, the condition, the path, and the explanation after the class, cut to 500 characters.
pub parse_decline-print :
    (c : ClosureClass) (condition path explanation : Text)
    → OneLine condition
    → OneLine path
    → OneLine explanation
    → Lacks b',' path
    → Lacks b':' explanation
    → parse_decline (print_decline c condition path explanation) ≡ record {
      class = some c;
      reason = take_chars 500 (codes (class_name c) ++ (codes ": " ++ explanation));
      holds_while = some condition;
      depends_on = path ∷ [];
    }
unfolding parse_decline class_name
parse_decline-print c h p e (h10, h13, th, _, _) (p10, p13, tp, wp, some_p) (e10, _, _, we, some_e)
      comma colon =
    let text : Text = print_decline c h p e in
    ap (λ q. explained text (class_of (header q.0)) (skim (lines q.1) none []))
      (first_line-print c h p e)
    ∙ ap (λ ls. explained text (class_of (header (classification c))) (skim ls none []))
        (lines-print h p e h10 h13 p10 p13 e10 some_e)
    ∙ ap
        (λ o.
          explained text o
            (skim ((codes "Holds while: " ++ h) ∷ (codes "Depends on: " ++ p) ∷ e ∷ []) none []))
        (class_of-classification c)
    ∙ ap (explained text (some c)) (skim-print h p e th tp wp some_p comma colon we some_e)
    ∙ rw (we, some_e) refl
