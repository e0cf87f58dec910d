-- ===== src/Forge/States.antt =====
-- The states and the rows of hunter-rs/src/forge.rs. Texts that are only carried along are
-- `String`; those that the forge code takes apart are lists of code points.
use bug_hunter.Prelude.{
  ℕ, Bool, true, false, String, Option, none, some, List, [], ◌∷◌, map, if◌then◌else◌, ◌||◌,
}
use bug_hunter.Prelude.Texts.{Text, codes, text_eq, to_upper, to_lower, is_empty, starts_with}

-- `open` is written `opened` here.
pub data PrState : Type 0 where
  opened : PrState
  merged : PrState
  closed : PrState

pub data Mergeable : Type 0 where
  unknown : Mergeable
  mergeable : Mergeable
  conflicting : Mergeable

pub data ReviewDecision : Type 0 where
  undecided : ReviewDecision
  approved : ReviewDecision
  changes_requested : ReviewDecision

pub data CheckConclusion : Type 0 where
  success : CheckConclusion
  failure : CheckConclusion
  timed_out : CheckConclusion
  cancelled : CheckConclusion
  neutral : CheckConclusion
  skipped : CheckConclusion
  pending : CheckConclusion
  other : CheckConclusion

-- The first of the named values whose name a text is.
abbrev pub read_name : {A : Type 0} → List (String × A) → A → Text → A
read_name [] default s = default
read_name ((name, a) ∷ rest) default s =
    let later = read_name rest default s in if text_eq s (codes name) then a else later

abbrev pub check_names : List (String × CheckConclusion)
check_names =
    ("SUCCESS", success)
    ∷ (("FAILURE", failure)
        ∷ (("TIMED_OUT", timed_out)
            ∷ (("CANCELLED", cancelled)
                ∷ (("NEUTRAL", neutral)
                    ∷ (("SKIPPED", skipped) ∷ (("PENDING", pending) ∷ (("", pending) ∷ [])))))))

-- `PrState::as_str` and `Mergeable::as_str`.
abbrev pub pr_state_text : PrState → String
pr_state_text opened = "OPEN"
pr_state_text merged = "MERGED"
pr_state_text closed = "CLOSED"

abbrev pub mergeable_text : Mergeable → String
mergeable_text mergeable = "MERGEABLE"
mergeable_text conflicting = "CONFLICTING"
mergeable_text unknown = "UNKNOWN"

-- `CheckConclusion::parse`, `is_failing` and `is_passing`.
abbrev pub parse_check : Text → CheckConclusion
parse_check s = read_name check_names other (map to_upper s)

abbrev pub is_failing : CheckConclusion → Bool
is_failing failure = true
is_failing timed_out = true
is_failing cancelled = true
is_failing _ = false

abbrev pub is_passing : CheckConclusion → Bool
is_passing success = true
is_passing neutral = true
is_passing skipped = true
is_passing _ = false

pub data Voice : Type 0 where
  maintainer : Voice
  bot : Voice

-- `GhAuthor` is its login; a time is what `iso_ms` reads it as.
pub record GhComment : Type 0 where
  pub id : String
  pub author : Option Text
  pub body : String
  pub created_at : ℕ
  pub voice : Voice

pub record GhReview : Type 0 where
  pub id : String
  pub author : Option Text
  pub body : String
  pub submitted_at : ℕ
  pub state : String
  pub voice : Voice

pub record GhCheckRun : Type 0 where
  pub name : Option String
  pub context : Option String
  pub conclusion : Option Text
  pub state : Option Text

pub record PrView : Type 0 where
  pub state : PrState
  pub mergeable : Mergeable
  pub review_decision : ReviewDecision
  pub head_ref : String
  pub head_sha : String
  pub updated_at : ℕ
  pub status_check_rollup : List GhCheckRun
  pub comments : List GhComment
  pub reviews : List GhReview

-- `gitlab_norm_state` and `gitlab_norm_mergeable`.
abbrev pub gitlab_norm_state : Text → PrState
gitlab_norm_state raw =
    read_name (("merged", merged) ∷ (("closed", closed) ∷ [])) opened (map to_lower raw)

abbrev pub contains : Text → Text → Bool
contains [] p = is_empty p
contains (c ∷ s) p = starts_with (c ∷ s) p || contains s p

abbrev pub first_given : Option Text → Option Text → Text
first_given (some a) b = a
first_given none (some b) = b
first_given none none = []

abbrev pub gitlab_norm_mergeable : (detailed_merge_status merge_status : Option Text) → Mergeable
gitlab_norm_mergeable detailed old =
    let status = map to_lower (first_given detailed old) in
    read_name
      (("mergeable", mergeable)
        ∷ (("can_be_merged", mergeable)
            ∷ (("ci_must_pass", mergeable) ∷ (("ci_still_running", mergeable) ∷ []))))
      (if contains status (codes "conflict") || text_eq status (codes "cannot_be_merged")
        then conflicting
        else unknown)
      status

abbrev pub pipeline_names : List (String × Text)
pipeline_names =
    ("success", codes "SUCCESS")
    ∷ (("failed", codes "FAILURE")
        ∷ (("canceled", codes "CANCELLED")
            ∷ (("skipped", codes "SKIPPED")
                ∷ (("running", codes "IN_PROGRESS")
                    ∷ (("pending", codes "PENDING")
                        ∷ (("created", codes "PENDING") ∷ (("manual", codes "NEUTRAL") ∷ [])))))))

abbrev pub only_conclusion : Text → List GhCheckRun
only_conclusion s = record { name = none; context = none; conclusion = some s; state = none } ∷ []

-- The pipeline is the head pipeline of a merge request, or else its pipeline.
abbrev pub gitlab_norm_pipeline : (head_pipeline pipeline : Option Text) → List GhCheckRun
gitlab_norm_pipeline none none = []
gitlab_norm_pipeline (some status) pipeline =
    let s = map to_lower status in only_conclusion (read_name pipeline_names (map to_upper s) s)
gitlab_norm_pipeline none (some status) =
    let s = map to_lower status in only_conclusion (read_name pipeline_names (map to_upper s) s)
