-- ===== src/Tests/Texts.antt =====
-- The parsers of hunter-rs/src/domain.rs on single texts.
use bug_hunter.Prelude.{◌≡◌, refl, ◌↔◌, none, some}
use bug_hunter.Domain.Status.{
  class_name, superseded, override_name, once, parse_class, parse_override,
}
use bug_hunter.Domain.Kinds.{
  kind_name, parse_kind, parse_repo_kind, parse_finding_kind, repo, hunt, type_name, parse_type,
  bug, bug_class_name, parse_bug_class, boundary,
}
use bug_hunter.Domain.RoundTrip.{enums_read_back}

enums_read_back_example :
    ((parse_kind "bug" ≡ some (repo hunt)) ↔ (kind_name (repo hunt) ≡ "bug"))
    × ((parse_class "bug" ≡ some superseded) ↔ (class_name superseded ≡ "bug"))
    × ((parse_override "bug" ≡ some once) ↔ (override_name once ≡ "bug"))
    × ((parse_type "bug" ≡ some bug) ↔ (type_name bug ≡ "bug"))
    × ((parse_bug_class "bug" ≡ some boundary) ↔ (bug_class_name boundary ≡ "bug"))
enums_read_back_example = enums_read_back "bug" (repo hunt) superseded once bug boundary

no_such_kind : parse_kind "hunter" ≡ none
unfolding parse_kind parse_repo_kind parse_finding_kind
no_such_kind = refl
