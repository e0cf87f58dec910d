-- ===== src/Store/Jobs/Chain.antt =====
-- The walks along `resumed_from` of hunter-rs/src/store.rs. A recursive query with a depth cap is
-- a walk with that many steps. The walks upwards take each row to have one predecessor that is older
-- than it: a link that went round in a circle would be summed
-- once by the queries, and each time round by these walks.
use bug_hunter.Prelude.{
  ℕ, zero, suc, ◌+◌, Bool, ◌&&◌, ◌||◌, not, List, [], ◌∷◌, Option, none, some, ◌==◌, ltb,
  if◌then◌else◌,
}
use Prim.Native.Nat.{max, min}
use bug_hunter.Prelude.Tables.{rows_where, first_where, exists_where}
use bug_hunter.Domain.Kinds.{JobKind, kind_eq}
use bug_hunter.Store.Rows.{Job, Store, is_some, is_id, is_text, unwrap_or}

abbrev pub resume_chain_max_depth : ℕ
resume_chain_max_depth = 64

abbrev pub row : List Job → ℕ → Option Job
row jobs id = first_where (λ j. j.id == id) jobs

-- The strict ancestors of a link, nearest first.
unfoldable pub ancestors : (depth : ℕ) → List Job → Option ℕ → List Job
ancestors zero jobs from = []
ancestors (suc d) jobs none = []
ancestors (suc d) jobs (some p) = elim (row jobs p) [
  | none ↦ []
  | some j ↦ j ∷ ancestors d jobs j.resumed_from
]

abbrev pub least_id : ℕ → List Job → ℕ
least_id n [] = n
least_id n (j ∷ js) = least_id (min n j.id) js

-- `MIN(id)` over the ancestry, or the id itself where the row is gone.
unfoldable pub resume_origin_job : ℕ → Store → ℕ
unfolding ancestors
resume_origin_job id s = elim (row s.jobs id) [
  | none ↦ id
  | some j ↦ least_id j.id (ancestors resume_chain_max_depth s.jobs j.resumed_from)
]

abbrev pub sum_tokens : List Job → ℕ
sum_tokens [] = 0
sum_tokens (j ∷ js) = unwrap_or j.tokens_new 0 + sum_tokens js

abbrev pub max_tokens : List Job → ℕ
max_tokens [] = 0
max_tokens (j ∷ js) = max (unwrap_or j.tokens_new 0) (max_tokens js)

unfoldable pub ancestor_tokens : ℕ → Store → ℕ
unfolding ancestors
ancestor_tokens id s = elim (row s.jobs id) [
  | none ↦ 0
  | some j ↦ sum_tokens (ancestors resume_chain_max_depth s.jobs j.resumed_from)
]

-- A try at the work: the first attempt, a cap kill, or an attempt that spent something.
abbrev pub is_attempt : Job → Bool
is_attempt j =
    not (is_some j.resumed_from)
    || is_text j.killed_reason "cap"
    || ltb 0 (unwrap_or j.tokens_new 0)

abbrev pub count_attempts : List Job → ℕ
count_attempts [] = 0
count_attempts (j ∷ js) = (if is_attempt j then 1 else 0) + count_attempts js

-- Two rows of one kind, one of which continues the other.
abbrev pub linked : Job → Job → Bool
linked a b = kind_eq a.kind b.kind && (is_id b.resumed_from a.id || is_id a.resumed_from b.id)

-- One more step of the walk both ways: the rows in the set, and those linked to one of them.
abbrev pub grow : List Job → List Job → List Job
grow jobs chain = rows_where (λ j. exists_where (λ c. c.id == j.id || linked j c) chain) jobs

unfoldable pub same_kind_chain : (depth : ℕ) → List Job → List Job → List Job
same_kind_chain zero jobs chain = chain
same_kind_chain (suc d) jobs chain = same_kind_chain d jobs (grow jobs chain)

pub record ChainStats : Type 0 where
  pub total : ℕ
  pub attempts : ℕ
  pub max_single : ℕ

unfoldable pub resume_chain_stats : ℕ → Store → ChainStats
unfolding same_kind_chain
resume_chain_stats id s =
    let chain =
      same_kind_chain resume_chain_max_depth s.jobs (rows_where (λ j. j.id == id) s.jobs) in
    record {
      total = sum_tokens chain;
      attempts = count_attempts chain;
      max_single = max_tokens chain;
    }

-- The chain's earlier links of the same kind, for the cost of a completed chain.
unfoldable pub same_kind_ancestors : (depth : ℕ) → JobKind → List Job → Option ℕ → List Job
same_kind_ancestors zero k jobs from = []
same_kind_ancestors (suc d) k jobs none = []
same_kind_ancestors (suc d) k jobs (some p) = elim (row jobs p) [
  | none ↦ []
  | some j ↦ if kind_eq j.kind k then j ∷ same_kind_ancestors d k jobs j.resumed_from else []
]

abbrev pub chain_cost : JobKind → List Job → Job → ℕ
unfolding same_kind_ancestors
chain_cost k jobs j =
    sum_tokens (j ∷ same_kind_ancestors resume_chain_max_depth k jobs j.resumed_from)
