-- ===== src/Scheduler/Rotation.antt =====
-- The rotation of hunter-rs/src/scheduler.rs: which scan a repository is due for. Times are
-- milliseconds. The intervals are given in milliseconds, as the source converts them.
use bug_hunter.Prelude.{
  ℕ, ◌+◌, ◌≤◌, ◌<◌, ◌≡◌, refl, sym, ap, subst, ◌⊎◌, inl, inr, Bool, true, false, not, ◌&&◌, ◌||◌,
  List, [], ◌∷◌, Option, none, some, ltb, leb, ◌==◌, if◌then◌else◌, arith, Bool-cases, Option-cases,
}
use bug_hunter.Domain.Kinds.{
  RepoJobKind, hunt, test_gap, dep_update, refactor, modernization, standards,
}
use bug_hunter.Store.Rows.{Repo, is_some, unwrap_or, coalesce}
use bug_hunter.Prelude.Tables.{first_where, All}

pub record Intervals : Type 0 where
  pub scan_ms : ℕ
  pub modernization_ms : ℕ
  pub standards_ms : ℕ

-- `last == 0 || now - last >= interval`, with the difference in i64: a time ahead of the clock is
-- not due.
abbrev pub is_due : (now interval last : ℕ) → Bool
is_due now interval last = last == 0 || leb (last + interval) now

abbrev pub last_run : RepoJobKind → Repo → ℕ
last_run hunt r = unwrap_or r.last_hunt_at 0
last_run test_gap r = unwrap_or r.last_test_gap_at 0
last_run dep_update r = unwrap_or r.last_dep_update_at 0
last_run refactor r = unwrap_or r.last_refactor_at 0
last_run modernization r = unwrap_or r.last_modernization_at 0
last_run standards r = unwrap_or r.last_standards_at 0

abbrev pub interval_of : Intervals → RepoJobKind → ℕ
interval_of i modernization = i.modernization_ms
interval_of i standards = i.standards_ms
interval_of i _ = i.scan_ms

abbrev pub all_repo_kinds : List RepoJobKind
all_repo_kinds = hunt ∷ test_gap ∷ dep_update ∷ refactor ∷ modernization ∷ standards ∷ []

abbrev pub due : Intervals → Repo → (now : ℕ) → RepoJobKind → Bool
due i r now k = is_due now (interval_of i k) (last_run k r)

-- The pushes onto `job_times`, in order.
abbrev pub job_times :
    (due : RepoJobKind → Bool) (last : RepoJobKind → ℕ) → List RepoJobKind → List (RepoJobKind × ℕ)
job_times due last [] = []
job_times due last (k ∷ ks) =
    if due k then (k, last k) ∷ job_times due last ks else job_times due last ks

-- `min_by_key`: the first of the least.
abbrev pub oldest : List (RepoJobKind × ℕ) → Option (RepoJobKind × ℕ)
oldest [] = none
oldest (x ∷ xs) = elim (oldest xs) [
  | none ↦ some x
  | some y ↦ if ltb y.1 x.1 then some y else some x
]

abbrev pub kind_of : Option (RepoJobKind × ℕ) → Option RepoJobKind
kind_of none = none
kind_of (some x) = some x.0

-- `find(last == 0).or_else(min_by_key)`.
abbrev pub pick : List (RepoJobKind × ℕ) → Option (RepoJobKind × ℕ)
pick times = coalesce (first_where (λ x. x.1 == 0) times) (oldest times)

unfoldable pub rotation_kind : Intervals → Repo → (now : ℕ) → Option RepoJobKind
rotation_kind i r now = kind_of (pick (job_times (due i r now) (λ k. last_run k r) all_repo_kinds))

abbrev opt_eq : Option ℕ → Option ℕ → Bool
opt_eq none none = true
opt_eq (some a) (some b) = a == b
opt_eq _ _ = false

unfoldable pub full_hunt_urgent : Repo → Bool
full_hunt_urgent r =
    is_some r.full_hunt_requested_at
    && not (opt_eq r.full_hunt_requested_at r.full_hunt_request_attempted)

zero_is_oldest :
    (xs : List (RepoJobKind × ℕ)) (x : RepoJobKind × ℕ)
    → first_where (λ y. y.1 == 0) xs ≡ some x
    → (oldest xs ≡ some x) × (x.1 ≡ 0)
zero_is_oldest [] x e = cc
zero_is_oldest ((k, n) ∷ xs) x e = elim (Bool-cases (n == 0)) [
  | inl z ↦ ground arith
  | inr z ↦ ground (arith, zero_is_oldest xs x)
]

-- A kind that has never run is the oldest.
pick-oldest : (xs : List (RepoJobKind × ℕ)) → pick xs ≡ oldest xs
pick-oldest xs = elim (Option-cases (first_where (λ y. y.1 == 0) xs)) [
  | inl left ↦ rw left
  | inr (x, found) ↦ rw (found, (zero_is_oldest xs x found).0)
]

-- Of the kinds in the list, in order of priority, `k` is due, has waited longest of the due ones,
-- and comes before the due ones that have waited as long.
module _ (due : RepoJobKind → Bool) (last : RepoJobKind → ℕ) where
  abbrev pub Leads : RepoJobKind → List RepoJobKind → Type 0
  Leads k [] = ⊥
  Leads k (j ∷ js) =
      ((j ≡ k) × (due k ≡ true) × All (λ z. due z ≡ true → last k ≤ last z) js)
      ⊎ ((due j ≡ true → last k < last j) × Leads k js)

  abbrev pub NoneDue : List RepoJobKind → Type 0
  NoneDue = All (λ z. due z ≡ false)

  times-none : (ks : List RepoJobKind) → oldest (job_times due last ks) ≡ none → NoneDue ks
  times-none [] e = tt
  times-none (k ∷ ks) e = ground (arith, times-none ks)

  NoneDue→All :
      (n : ℕ) (ks : List RepoJobKind) → NoneDue ks → All (λ z. due z ≡ true → n ≤ last z) ks
  NoneDue→All n [] h = tt
  NoneDue→All n (j ∷ js) h = (λ d. ground arith, NoneDue→All n js h.1)

  All-weaken :
      (m n : ℕ) (ks : List RepoJobKind)
      → m ≤ n
      → All (λ z. due z ≡ true → n ≤ last z) ks
      → All (λ z. due z ≡ true → m ≤ last z) ks
  All-weaken m n [] le h = tt
  All-weaken m n (j ∷ js) le h = (λ d. omega (arith, h.0 d), All-weaken m n js le h.1)

  Leads→All :
      (n : ℕ) (k : RepoJobKind) (ks : List RepoJobKind)
      → n ≤ last k
      → Leads k ks
      → All (λ z. due z ≡ true → n ≤ last z) ks
  Leads→All n k [] le h = tt
  Leads→All n k (j ∷ js) le (inl h) =
      (λ d. omega (arith, ap last h.0), All-weaken n (last k) js le h.2)
  Leads→All n k (j ∷ js) le (inr h) = (λ d. omega (arith, h.0 d), Leads→All n k js le h.1)

  times-Leads :
      (ks : List RepoJobKind) (y : RepoJobKind × ℕ)
      → oldest (job_times due last ks) ≡ some y
      → (y.1 ≡ last y.0) × Leads y.0 ks
  times-Leads [] y e = cc
  times-Leads (k ∷ ks) y e = elim (Bool-cases (due k)) [
    | inl d ↦ elim (Option-cases (oldest (job_times due last ks))) [
      | inl left ↦
          let q : (k, last k) ≡ y = ground arith in
          subst (λ y. (y.1 ≡ last y.0) × Leads y.0 (k ∷ ks)) q
            (refl, inl (refl, d, NoneDue→All (last k) ks (times-none ks left)))
      | inr (x, found) ↦ step k ks d x y (times-Leads ks x found) (ground arith)
    ]
    | inr d ↦ let (val, leads) = times-Leads ks y (ground arith) in (val, inr (λ t. cc, leads))
  ]
    where
      step :
          (k : RepoJobKind) (ks : List RepoJobKind)
          → due k ≡ true
          → (x y : RepoJobKind × ℕ) → (x.1 ≡ last x.0) × Leads x.0 ks
          → (if ltb x.1 (last k) then some x else some (k, last k)) ≡ some y
          → (y.1 ≡ last y.0) × Leads y.0 (k ∷ ks)
      step k ks d x y (val, leads) e = elim (Bool-cases (ltb x.1 (last k))) [
        | inl t ↦
            let q : x ≡ y = ground arith in
            subst (λ y. (y.1 ≡ last y.0) × Leads y.0 (k ∷ ks)) q
              (val, inr (λ _. ground arith, leads))
        | inr t ↦
            let q : (k, last k) ≡ y = ground arith in
            subst (λ y. (y.1 ≡ last y.0) × Leads y.0 (k ∷ ks)) q
              (refl, inl (refl, d, Leads→All (last k) x.0 ks (ground arith) leads))
      ]

-- What a rotation's answer says: the scan it names leads, and with none no scan is due.
abbrev pub Answers :
    (due : RepoJobKind → Bool) (last : RepoJobKind → ℕ)
    → List RepoJobKind
    → Option RepoJobKind
    → Type 0
Answers due last ks none = NoneDue due last ks
Answers due last ks (some k) = Leads due last k ks

oldest-Answers :
    (due : RepoJobKind → Bool) (last : RepoJobKind → ℕ) (ks : List RepoJobKind)
    (o : Option (RepoJobKind × ℕ))
    → oldest (job_times due last ks) ≡ o
    → Answers due last ks (kind_of o)
oldest-Answers due last ks none e = times-none due last ks e
oldest-Answers due last ks (some y) e = (times-Leads due last ks y e).1

-- The scan picked for a repository is the first in priority order of the due scans that ran
-- longest ago, a scan that never ran counting as run at time 0; none is picked only when none
-- is due.
pub rotation_kind-Answers :
    (i : Intervals) (r : Repo) (now : ℕ)
    → Answers (due i r now) (λ j. last_run j r) all_repo_kinds (rotation_kind i r now)
unfolding rotation_kind
rotation_kind-Answers i r now =
    let due_now : RepoJobKind → Bool = due i r now in
    let last : RepoJobKind → ℕ = λ j. last_run j r in
    subst (λ o. Answers due_now last all_repo_kinds (kind_of o))
      (sym (pick-oldest (job_times due_now last all_repo_kinds)))
      (oldest-Answers due_now last all_repo_kinds _ refl)
