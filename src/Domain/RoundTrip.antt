-- ===== src/Domain/RoundTrip.antt =====
-- The texts of hunter-rs/src/domain.rs against their parsers.
use bug_hunter.Prelude.{
  ◌≡◌, refl, subst, ◌↔◌, inl, inr, List, [], ◌∷◌, String, Option, none, some, str_eq, eq_iff, arith,
  Bool-cases,
}
use bug_hunter.Domain.Status.{
  ClosureClass, superseded, BudgetOverride, once, class_name, parse_class, all_classes,
  find_named_sound, override_name, parse_override, all_overrides,
}
use bug_hunter.Domain.Kinds.{
  JobKind, repo, finding, RepoJobKind, hunt, FindingJobKind, fix, FindingType, bug, BugClass,
  boundary, kind_name, parse_kind, repo_kind_arms, finding_kind_arms, type_arms, bug_class_arms,
  repo_kind_name, parse_repo_kind, finding_kind_name, parse_finding_kind, match_name, type_name,
  parse_type, bug_class_name, parse_bug_class,
}

-- An arm list all of whose texts are the names of their values.
abbrev Names : {A : Type 0} → (A → String) → List (String × A) → Type 0
Names name [] = Unit
Names name ((s, a) ∷ arms) = (name a ≡ s) × Names name arms

match_name_sound :
    {A : Type 0} (name : A → String) (arms : List (String × A)) (s : String) (a : A)
    → Names name arms
    → match_name arms s ≡ some a
    → name a ≡ s
match_name_sound name [] s a n h = cc
match_name_sound name ((t, b) ∷ arms) s a n h = elim (Bool-cases (str_eq s t)) [
  | inl e ↦ ground (arith, eq_iff s t, n.0)
  | inr e ↦ match_name_sound name arms s a n.1 (ground arith)
]

module _ {A : Type 0} (name : A → String) (parse : String → Option A) where
  -- The parser accepts a text exactly when the text is the name of what it returns.
  abbrev ReadsBack : Type 0
  ReadsBack = (s : String) (a : A) → (parse s ≡ some a) ↔ (name a ≡ s)

  reads_back :
      ((s : String) (a : A) → parse s ≡ some a → name a ≡ s)
      → ((a : A) → parse (name a) ≡ some a)
      → ReadsBack
  reads_back sound complete s a = (sound s a, λ e. subst (λ t. parse t ≡ some a) e (complete a))

repo_kind_complete : (k : RepoJobKind) → parse_repo_kind (repo_kind_name k) ≡ some k
unfolding parse_repo_kind repo_kind_name
repo_kind_complete hunt = refl
repo_kind_complete _ = refl

repo_kind_sound : (s : String) (k : RepoJobKind) → parse_repo_kind s ≡ some k → repo_kind_name k ≡ s
unfolding parse_repo_kind repo_kind_name
repo_kind_sound s k =
    match_name_sound repo_kind_name repo_kind_arms s k
      (refl, (refl, (refl, (refl, (refl, (refl, tt))))))

finding_kind_complete : (k : FindingJobKind) → parse_finding_kind (finding_kind_name k) ≡ some k
unfolding parse_finding_kind finding_kind_name
finding_kind_complete fix = refl
finding_kind_complete _ = refl

finding_kind_sound :
    (s : String) (k : FindingJobKind) → parse_finding_kind s ≡ some k → finding_kind_name k ≡ s
unfolding parse_finding_kind finding_kind_name
finding_kind_sound s k =
    match_name_sound finding_kind_name finding_kind_arms s k (refl, (refl, (refl, (refl, tt))))

not_a_scan : (k : FindingJobKind) → parse_repo_kind (finding_kind_name k) ≡ none
unfolding parse_repo_kind finding_kind_name
not_a_scan fix = refl
not_a_scan _ = refl

kind_complete : (k : JobKind) → parse_kind (kind_name k) ≡ some k
unfolding parse_kind kind_name
kind_complete (repo k) = ground (arith, repo_kind_complete k)
kind_complete (finding k) = ground (arith, finding_kind_complete k, not_a_scan k)

from_repo :
    (s : String) (k : RepoJobKind) → parse_kind s ≡ some (repo k) → parse_repo_kind s ≡ some k
unfolding parse_kind
from_repo s k h = ground arith

from_finding :
    (s : String) (k : FindingJobKind)
    → parse_kind s ≡ some (finding k)
    → parse_finding_kind s ≡ some k
unfolding parse_kind
from_finding s k h = ground arith

kind_sound : (s : String) (k : JobKind) → parse_kind s ≡ some k → kind_name k ≡ s
unfolding parse_kind kind_name
kind_sound s (repo k) h = repo_kind_sound s k (from_repo s k h)
kind_sound s (finding k) h = finding_kind_sound s k (from_finding s k h)

-- A text parses as a job kind exactly when it is that kind's name, over both sub-enums: no scan
-- shares its name with a job on a finding, and no other text is accepted.
kind_reads_back : (s : String) (k : JobKind) → (parse_kind s ≡ some k) ↔ (kind_name k ≡ s)
kind_reads_back = reads_back kind_name parse_kind kind_sound kind_complete

class_complete : (c : ClosureClass) → parse_class (class_name c) ≡ some c
unfolding parse_class class_name
class_complete superseded = refl
class_complete _ = refl

class_sound : (s : String) (c : ClosureClass) → parse_class s ≡ some c → class_name c ≡ s
unfolding parse_class
class_sound s c = find_named_sound class_name all_classes s c

override_complete : (m : BudgetOverride) → parse_override (override_name m) ≡ some m
unfolding parse_override override_name
override_complete once = refl
override_complete _ = refl

type_complete : (t : FindingType) → parse_type (type_name t) ≡ some t
unfolding parse_type type_name
type_complete bug = refl
type_complete _ = refl

type_sound : (s : String) (t : FindingType) → parse_type s ≡ some t → type_name t ≡ s
unfolding parse_type type_name
type_sound s t =
    match_name_sound type_name type_arms s t (refl, (refl, (refl, (refl, (refl, (refl, tt))))))

bug_class_complete : (c : BugClass) → parse_bug_class (bug_class_name c) ≡ some c
unfolding parse_bug_class bug_class_name
bug_class_complete boundary = refl
bug_class_complete _ = refl

bug_class_sound : (s : String) (c : BugClass) → parse_bug_class s ≡ some c → bug_class_name c ≡ s
unfolding parse_bug_class bug_class_name
bug_class_sound s c =
    match_name_sound bug_class_name bug_class_arms s c
      (refl, (refl, (refl, (refl, (refl, (refl, tt))))))

override_sound : (s : String) (m : BudgetOverride) → parse_override s ≡ some m → override_name m ≡ s
unfolding parse_override
override_sound s m = find_named_sound override_name all_overrides s m

-- Each of the job kinds, closure classes, budget overrides, finding types and bug classes is parsed
-- from its own name, and from no other text.
pub enums_read_back :
    (s : String) (k : JobKind) (c : ClosureClass) (m : BudgetOverride) (t : FindingType)
    (b : BugClass)
    → ((parse_kind s ≡ some k) ↔ (kind_name k ≡ s))
      × ((parse_class s ≡ some c) ↔ (class_name c ≡ s))
      × ((parse_override s ≡ some m) ↔ (override_name m ≡ s))
      × ((parse_type s ≡ some t) ↔ (type_name t ≡ s))
      × ((parse_bug_class s ≡ some b) ↔ (bug_class_name b ≡ s))
enums_read_back s k c m t b = (
  kind_reads_back s k,
  reads_back class_name parse_class class_sound class_complete s c,
  reads_back override_name parse_override override_sound override_complete s m,
  reads_back type_name parse_type type_sound type_complete s t,
  reads_back bug_class_name parse_bug_class bug_class_sound bug_class_complete s b,
)
