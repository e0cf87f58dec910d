-- ===== src/Domain/Kinds.antt =====
-- The job kinds and finding types of hunter-rs/src/domain.rs. `JobKind` is the flat kind of a job
-- row: one of the six repository scans or of the four jobs on a finding.
use bug_hunter.Prelude.{
  Bool, true, false, ◌≡◌, ap, arith, List, [], ◌∷◌, String, Option, none, some, str_eq,
  if◌then◌else◌,
}

pub data RepoJobKind : Type 0 where
  hunt test_gap dep_update refactor modernization standards : RepoJobKind

unfoldable pub repo_kind_name : RepoJobKind → String
repo_kind_name hunt = "hunt"
repo_kind_name test_gap = "test_gap"
repo_kind_name dep_update = "dep_update"
repo_kind_name refactor = "refactor"
repo_kind_name modernization = "modernization"
repo_kind_name standards = "standards"

-- The match of `FromStr`: the first arm that fits.
abbrev pub match_name : {A : Type 0} → List (String × A) → String → Option A
match_name [] s = none
match_name ((name, a) ∷ arms) s = if str_eq s name then some a else match_name arms s

abbrev pub repo_kind_arms : List (String × RepoJobKind)
repo_kind_arms =
    ("hunt", hunt)
    ∷ ("test_gap", test_gap)
    ∷ ("dep_update", dep_update)
    ∷ ("refactor", refactor)
    ∷ ("modernization", modernization)
    ∷ ("standards", standards)
    ∷ []

unfoldable pub parse_repo_kind : String → Option RepoJobKind
parse_repo_kind = match_name repo_kind_arms

pub data FindingJobKind : Type 0 where
  fix engage harvest recheck : FindingJobKind

unfoldable pub finding_kind_name : FindingJobKind → String
finding_kind_name fix = "fix"
finding_kind_name engage = "engage"
finding_kind_name harvest = "harvest"
finding_kind_name recheck = "recheck"

abbrev pub finding_kind_arms : List (String × FindingJobKind)
finding_kind_arms =
    ("fix", fix) ∷ ("engage", engage) ∷ ("harvest", harvest) ∷ ("recheck", recheck) ∷ []

unfoldable pub parse_finding_kind : String → Option FindingJobKind
parse_finding_kind = match_name finding_kind_arms

pub data JobKind : Type 0 where
  repo : RepoJobKind → JobKind
  finding : FindingJobKind → JobKind

unfoldable pub kind_name : JobKind → String
kind_name (repo r) = repo_kind_name r
kind_name (finding f) = finding_kind_name f

-- Parsed as a scan first, then as a job on a finding.
unfoldable pub parse_kind : String → Option JobKind
parse_kind s = elim (parse_repo_kind s) [
  | some r ↦ some (repo r)
  | none ↦ elim (parse_finding_kind s) [ some f ↦ some (finding f) | none ↦ none ]
]

abbrev pub is_finding : JobKind → Bool
is_finding (repo r) = false
is_finding (finding f) = true

unfoldable pub as_repo : JobKind → Option RepoJobKind
as_repo (repo r) = some r
as_repo (finding f) = none

unfoldable pub as_finding : JobKind → Option FindingJobKind
as_finding (finding f) = some f
as_finding (repo r) = none

abbrev pub finding_kind_eq : FindingJobKind → FindingJobKind → Bool
finding_kind_eq fix fix = true
finding_kind_eq engage engage = true
finding_kind_eq harvest harvest = true
finding_kind_eq recheck recheck = true
finding_kind_eq _ _ = false

abbrev pub repo_kind_eq : RepoJobKind → RepoJobKind → Bool
repo_kind_eq hunt hunt = true
repo_kind_eq test_gap test_gap = true
repo_kind_eq dep_update dep_update = true
repo_kind_eq refactor refactor = true
repo_kind_eq modernization modernization = true
repo_kind_eq standards standards = true
repo_kind_eq _ _ = false

-- `==` of the derived `PartialEq`.
abbrev pub kind_eq : JobKind → JobKind → Bool
kind_eq (repo a) (repo b) = repo_kind_eq a b
kind_eq (finding a) (finding b) = finding_kind_eq a b
kind_eq _ _ = false

pub kind_eq→≡ : (a b : JobKind) → kind_eq a b ≡ true → a ≡ b
kind_eq→≡ (repo a) (repo b) h = ap repo (repo_kind_eq→≡ a b h)
  where
    repo_kind_eq→≡ : (a b : RepoJobKind) → repo_kind_eq a b ≡ true → a ≡ b
    repo_kind_eq→≡ a b h = ground arith
kind_eq→≡ (finding a) (finding b) h = ap finding (finding_kind_eq→≡ a b h)
  where
    finding_kind_eq→≡ : (a b : FindingJobKind) → finding_kind_eq a b ≡ true → a ≡ b
    finding_kind_eq→≡ a b h = ground arith
kind_eq→≡ (repo a) (finding b) h = cc
kind_eq→≡ (finding a) (repo b) h = cc

pub kind_eq_refl : (a : JobKind) → kind_eq a a ≡ true
kind_eq_refl (repo a) = ground arith
kind_eq_refl (finding a) = ground arith

pub data FindingType : Type 0 where
  bug dep_update test_gap refactor modernization standards : FindingType

unfoldable pub type_name : FindingType → String
type_name bug = "bug"
type_name dep_update = "dep_update"
type_name test_gap = "test_gap"
type_name refactor = "refactor"
type_name modernization = "modernization"
type_name standards = "standards"

abbrev pub type_arms : List (String × FindingType)
type_arms =
    ("bug", bug)
    ∷ ("dep_update", dep_update)
    ∷ ("test_gap", test_gap)
    ∷ ("refactor", refactor)
    ∷ ("modernization", modernization)
    ∷ ("standards", standards)
    ∷ []

unfoldable pub parse_type : String → Option FindingType
parse_type = match_name type_arms

pub data BugClass : Type 0 where
  boundary error_path race contract_drift leak logic : BugClass

unfoldable pub bug_class_name : BugClass → String
bug_class_name boundary = "boundary"
bug_class_name error_path = "error-path"
bug_class_name race = "race"
bug_class_name contract_drift = "contract-drift"
bug_class_name leak = "leak"
bug_class_name logic = "logic"

abbrev pub bug_class_arms : List (String × BugClass)
bug_class_arms =
    ("boundary", boundary)
    ∷ ("error-path", error_path)
    ∷ ("race", race)
    ∷ ("contract-drift", contract_drift)
    ∷ ("leak", leak)
    ∷ ("logic", logic)
    ∷ []

unfoldable pub parse_bug_class : String → Option BugClass
parse_bug_class = match_name bug_class_arms
