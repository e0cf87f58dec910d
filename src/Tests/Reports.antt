-- ===== src/Tests/Reports.antt =====
-- The theorem on the report of a declined fix, at a concrete input.
use bug_hunter.Prelude.{◌≡◌, refl, [], ◌∷◌, ◌++◌, none, some}
use bug_hunter.Prelude.Texts.{Text, codes, take_chars}
use bug_hunter.Domain.Status.{obsolete, wrong, class_name}
use bug_hunter.Scheduler.Decline.{parse_decline}
use bug_hunter.Scheduler.Decline.ReadsBack.{print_decline, parse_decline-print}

abbrev a_condition : Text
a_condition = codes "`reserve` keeps the bound"

abbrev a_path : Text
a_path = codes "src/ring.rs"

abbrev an_explanation : Text
an_explanation = codes "The caller checks it."

parse_decline-print_example :
    parse_decline (print_decline obsolete a_condition a_path an_explanation) ≡ record {
      class = some obsolete;
      reason = take_chars 500 (codes (class_name obsolete) ++ (codes ": " ++ an_explanation));
      holds_while = some a_condition;
      depends_on = a_path ∷ [];
    }
parse_decline-print_example =
    parse_decline-print obsolete a_condition a_path an_explanation (refl, refl, refl, refl, refl)
      (refl, refl, refl, refl, refl) (refl, refl, refl, refl, refl) refl refl

-- Markdown around the headers, and a blank line before the explanation.
with_markdown :
    parse_decline
      (codes "**Classification:** Wrong\r\n- *Depends on:* a.rs, b.rs\n\nIt is checked: twice.")
    ≡ record {
      class = some wrong;
      reason = codes "wrong: It is checked: twice.";
      holds_while = none;
      depends_on = codes "a.rs" ∷ codes "b.rs" ∷ [];
    }
unfolding parse_decline
with_markdown = refl

nothing_explained : parse_decline (codes "Classification: wrong\n\n") ≡ record {
  class = none;
  reason = codes "Classification: wrong\n\n";
  holds_while = none;
  depends_on = [];
}
unfolding parse_decline
nothing_explained = refl
