-- ===== src/Scheduler/Decline.antt =====
-- `parse_decline` and `header` of hunter-rs/src/scheduler.rs: how the report of a declined fix is
-- read. Its texts are lists of code points.
pub mod ReadsBack
use bug_hunter.Prelude.{
  ℕ, Bool, true, false, not, ◌&&◌, ◌||◌, List, [], ◌∷◌, ◌++◌, map, Option, none, some, ◌==◌,
  if◌then◌else◌,
}
use bug_hunter.Prelude.Tables.{rows_where, first_where}
use bug_hunter.Prelude.Texts.{
  Text, codes, text_eq, is_empty, is_whitespace, to_lower, trim_start, trim_end, trim, split_once,
  split, take_chars,
}
use bug_hunter.Domain.Status.{ClosureClass, class_name, all_classes}

pub record Decline : Type 0 where
  pub class : Option ClosureClass
  pub reason : Text
  pub holds_while : Option Text
  pub depends_on : List Text

abbrev is_markup : ℕ → Bool
is_markup c = c == b'*' || c == b'`' || c == b'_' || c == b'#'

abbrev is_dash : ℕ → Bool
is_dash c = c == b'-'

abbrev is_backquote : ℕ → Bool
is_backquote c = c == b'`'

abbrev pub is_emphasis : ℕ → Bool
is_emphasis c = c == b'*' || is_whitespace c

-- `trim_matches`.
abbrev pub trim_matches : (ℕ → Bool) → Text → Text
trim_matches p s = trim_end p (trim_start p s)

abbrev key_of : Text → Text
key_of key =
    map to_lower (trim (trim_start is_dash (trim (rows_where (λ c. not (is_markup c)) key))))

unfoldable pub header : Text → Option (Text × Text)
header line = elim (split_once b':' line) [
  | none ↦ none
  | some (key, value) ↦ some (key_of key, trim_matches is_emphasis value)
]

-- A carriage return that ends a line goes with the line feed.
abbrev pub strip_cr : Text → Text
strip_cr [] = []
strip_cr (c ∷ []) = if c == 13 then [] else c ∷ []
strip_cr (c ∷ (d ∷ s)) = c ∷ strip_cr (d ∷ s)

-- `str::lines`: what follows the last line feed is a line only when there is some of it.
abbrev pub ended_lines : List Text → List Text
ended_lines [] = []
ended_lines (l ∷ []) = if is_empty l then [] else l ∷ []
ended_lines (l ∷ (m ∷ ms)) = strip_cr l ∷ ended_lines (m ∷ ms)

abbrev pub lines : Text → List Text
lines s = ended_lines (split 10 s)

abbrev pub join_lines : List Text → Text
join_lines [] = []
join_lines (l ∷ []) = l
join_lines (l ∷ (m ∷ ms)) = l ++ (10 ∷ join_lines (m ∷ ms))

abbrev pub first_line : Text → Text × Text
first_line body = elim (split_once 10 body) [ none ↦ (body, []) | some parts ↦ parts ]

abbrev pub parse_class_of : Text → Option ClosureClass
unfolding class_name
parse_class_of word = first_where (λ c. text_eq word (codes (class_name c))) all_classes

abbrev pub class_of : Option (Text × Text) → Option ClosureClass
class_of none = none
class_of (some (key, word)) =
    if text_eq key (codes "classification")
    then parse_class_of (map to_lower (trim_matches is_backquote word))
    else none

abbrev pub paths_of : Text → List Text
paths_of value = rows_where (λ p. not (is_empty p)) (map trim (split b',' value))

-- What the header lines say, and the lines after them.
pub record Skimmed : Type 0 where
  pub holds_while : Option Text
  pub depends_on : List Text
  pub left : List Text

-- A line that is no such header: a blank one is passed over, any other ends them.
abbrev pub skim_other : Text → List Text → (rest : Skimmed) → Option Text → List Text → Skimmed
skim_other l ls rest condition paths =
    if is_empty (trim l)
    then rest
    else record { holds_while = condition; depends_on = paths; left = l ∷ ls }

abbrev pub skim_line :
    Text
    → List Text
    → (rest : Option Text → List Text → Skimmed) → Option (Text × Text)
    → Option Text
    → List Text
    → Skimmed
skim_line l ls rest none condition paths = skim_other l ls (rest condition paths) condition paths
skim_line l ls rest (some (key, value)) condition paths =
    if text_eq key (codes "holds while")
    then rest (some value) paths
    else (if text_eq key (codes "depends on")
        then rest condition (paths ++ paths_of value)
        else skim_other l ls (rest condition paths) condition paths)

unfoldable pub skim : List Text → Option Text → List Text → Skimmed
unfolding header
skim [] condition paths = record { holds_while = condition; depends_on = paths; left = [] }
skim (l ∷ ls) condition paths = skim_line l ls (skim ls) (header l) condition paths

abbrev pub unclassified : Text → Decline
unclassified report = record {
  class = none;
  reason = take_chars 500 report;
  holds_while = none;
  depends_on = [];
}

-- `format!("{class}: {explanation}")`, cut.
abbrev pub decline_reason : ClosureClass → (explanation : Text) → Text
unfolding class_name
decline_reason c explanation = take_chars 500 (codes (class_name c) ++ (codes ": " ++ explanation))

abbrev pub explained : (report : Text) → Option ClosureClass → Skimmed → Decline
explained report none d = unclassified report
explained report (some c) d =
    let explanation = trim (join_lines d.left) in
    if is_empty explanation then unclassified report else record {
      class = some c;
      reason = decline_reason c explanation;
      holds_while = d.holds_while;
      depends_on = d.depends_on;
    }

unfoldable pub parse_decline : (report : Text) → Decline
unfolding header skim class_name
parse_decline report =
    let (first, rest) = first_line (trim_start is_whitespace report) in
    explained report (class_of (header first)) (skim (lines rest) none [])
