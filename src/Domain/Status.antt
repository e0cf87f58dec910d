-- ===== src/Domain/Status.antt =====
-- `FindingStatus`, `ClosureClass`, `BudgetOverride` and `JobState` of hunter-rs/src/domain.rs:
-- the texts they are stored as, and the predicates on them.
use bug_hunter.Prelude.{
  ◌≡◌, Bool, true, false, List, [], ◌∷◌, String, Option, none, some, str_eq, eq_iff, arith,
  if◌then◌else◌, Bool-cases, inl, inr,
}

pub data FindingStatus : Type 0 where
  new rechecking queued fixing blocked pr_open merged closed superseded rejected wontfix note :
      FindingStatus

pub FindingStatus-discrete : Discrete FindingStatus
FindingStatus-discrete = hlevel

unfoldable pub status_name : FindingStatus → String
status_name new = "new"
status_name rechecking = "rechecking"
status_name queued = "queued"
status_name fixing = "fixing"
status_name blocked = "blocked"
status_name pr_open = "pr_open"
status_name merged = "merged"
status_name closed = "closed"
status_name superseded = "superseded"
status_name rejected = "rejected"
status_name wontfix = "wontfix"
status_name note = "note"

unfoldable pub is_verdict : FindingStatus → Bool
is_verdict queued = true
is_verdict rejected = true
is_verdict wontfix = true
is_verdict note = true
is_verdict _ = false

unfoldable pub awaits_verdict : FindingStatus → Bool
awaits_verdict new = true
awaits_verdict blocked = true
awaits_verdict note = true
awaits_verdict closed = true
awaits_verdict _ = false

unfoldable pub reason_required : FindingStatus → Bool
reason_required rejected = true
reason_required wontfix = true
reason_required _ = false

unfoldable pub is_suppressed : FindingStatus → Bool
is_suppressed rejected = true
is_suppressed wontfix = true
is_suppressed _ = false

-- `==` of the derived `PartialEq`.
abbrev pub status_eq : FindingStatus → FindingStatus → Bool
status_eq new new = true
status_eq rechecking rechecking = true
status_eq queued queued = true
status_eq fixing fixing = true
status_eq blocked blocked = true
status_eq pr_open pr_open = true
status_eq merged merged = true
status_eq closed closed = true
status_eq superseded superseded = true
status_eq rejected rejected = true
status_eq wontfix wontfix = true
status_eq note note = true
status_eq _ _ = false

pub status_eq→≡ : (a b : FindingStatus) → status_eq a b ≡ true → a ≡ b
status_eq→≡ a b h = ground arith

pub status_eq_refl : (a : FindingStatus) → status_eq a a ≡ true
status_eq_refl a = ground arith

pub data BudgetOverride : Type 0 where
  once exempt : BudgetOverride

unfoldable pub override_name : BudgetOverride → String
override_name once = "once"
override_name exempt = "exempt"

pub data ClosureClass : Type 0 where
  superseded duplicate obsolete wrong unwanted abandoned : ClosureClass

unfoldable pub class_name : ClosureClass → String
class_name superseded = "superseded"
class_name duplicate = "duplicate"
class_name obsolete = "obsolete"
class_name wrong = "wrong"
class_name unwanted = "unwanted"
class_name abandoned = "abandoned"

-- The status a finding takes once its closure is classified.
unfoldable pub class_status : ClosureClass → FindingStatus
class_status superseded = superseded
class_status duplicate = superseded
class_status obsolete = superseded
class_status wrong = rejected
class_status unwanted = wontfix
class_status abandoned = new

-- `ALL.into_iter().find(|c| c.as_str() == s)`.
module _ {A : Type 0} (name : A → String) where
  unfoldable pub find_named : List A → String → Option A
  find_named [] s = none
  find_named (a ∷ rest) s = if str_eq (name a) s then some a else find_named rest s

  pub find_named_sound : (xs : List A) (s : String) (a : A) → find_named xs s ≡ some a → name a ≡ s
  unfolding find_named
  find_named_sound [] s a h = cc
  find_named_sound (b ∷ rest) s a h = elim (Bool-cases (str_eq (name b) s)) [
    | inl e ↦ ground (arith, eq_iff (name b) s)
    | inr e ↦ find_named_sound rest s a (ground arith)
  ]

abbrev pub all_classes : List ClosureClass
all_classes = superseded ∷ duplicate ∷ obsolete ∷ wrong ∷ unwanted ∷ abandoned ∷ []

abbrev pub all_overrides : List BudgetOverride
all_overrides = once ∷ exempt ∷ []

unfoldable pub parse_class : String → Option ClosureClass
unfolding find_named class_name
parse_class = find_named class_name all_classes

unfoldable pub parse_override : String → Option BudgetOverride
unfolding find_named override_name
parse_override = find_named override_name all_overrides

pub data JobState : Type 0 where
  running done failed killed suspended denied : JobState

unfoldable pub state_name : JobState → String
state_name running = "running"
state_name done = "done"
state_name failed = "failed"
state_name killed = "killed"
state_name suspended = "suspended"
state_name denied = "denied"

abbrev pub state_eq : JobState → JobState → Bool
state_eq running running = true
state_eq done done = true
state_eq failed failed = true
state_eq killed killed = true
state_eq suspended suspended = true
state_eq denied denied = true
state_eq _ _ = false

pub state_eq→≡ : (a b : JobState) → state_eq a b ≡ true → a ≡ b
state_eq→≡ a b h = ground arith
