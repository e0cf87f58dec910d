-- ===== src/Scheduler/Estimate.antt =====
-- `anticipated_tokens` of hunter-rs/src/scheduler.rs and the history it reads
-- (`Store::has_warm_job`, `Store::kind_token_history`).
use Prim.Native.Nat.{min}
use bug_hunter.Prelude.Members.{In}
use bug_hunter.Prelude.{
  ◌<◌, ◌≡◌, refl, ◌⊎◌, inl, inr, arith, true, ℕ, zero, suc, ◌+◌, ◌-◌, ◌*◌, ◌/◌, Bool, false, not,
  ◌&&◌, List, [], ◌∷◌, map, ◌==◌, ltb, leb, if◌then◌else◌,
}
use bug_hunter.Prelude.Tables.{length, rows_where, exists_where, sort_by}
use bug_hunter.Domain.Status.{done, denied, state_eq}
use bug_hunter.Domain.Kinds.{JobKind, kind_eq}
use bug_hunter.Store.Rows.{Job, Store, is_some, unwrap_or}
use bug_hunter.Store.Jobs.{newer, optional}
use bug_hunter.Store.Jobs.Chain.{chain_cost, same_kind_ancestors}

abbrev pub take {ℓ} : {A : Type ℓ} → ℕ → List A → List A
take zero xs = []
take (suc n) [] = []
take (suc n) (x ∷ xs) = x ∷ take n xs

abbrev pub get_or {ℓ} : {A : Type ℓ} → List A → ℕ → A → A
get_or [] i d = d
get_or (x ∷ xs) zero d = x
get_or (x ∷ xs) (suc i) d = get_or xs i d

abbrev pub min_completed_samples : ℕ
min_completed_samples = 3

abbrev pub recent_completed_window : ℕ
recent_completed_window = 20

-- `finished_at > now - ttl`, with the difference in i64.
unfoldable pub has_warm_job : ℕ → JobKind → (ttl now : ℕ) → Store → Bool
has_warm_job rid kind ttl now s =
    exists_where
      (λ j.
        j.repo_id == rid
        && kind_eq j.kind kind
        && optional j.finished_at false (λ t. ltb now (t + ttl))
        && not (state_eq j.state denied))
      s.jobs

abbrev pub tokens_of : Job → ℕ
tokens_of j = unwrap_or j.tokens_new 0

unfoldable pub kind_token_history : JobKind → Store → List ℕ
unfolding same_kind_ancestors
kind_token_history kind s =
    let recent = take recent_completed_window (
      sort_by newer (
        rows_where (λ j. kind_eq j.kind kind && state_eq j.state done && is_some j.tokens_new)
          s.jobs)) in
    let completed = sort_by ltb (map (chain_cost kind s.jobs) recent) in
    if leb min_completed_samples (length completed)
    then completed
    else sort_by ltb
        (map tokens_of (rows_where (λ j. kind_eq j.kind kind && is_some j.tokens_new) s.jobs))

-- The index of the p50, or of the p90 in whole tenths, and never past the end.
abbrev pub percentile_index : (warm : Bool) → ℕ → ℕ
percentile_index warm n = min (if warm then n / 2 else n * 9 / 10) (n - 1)

unfoldable pub anticipated_tokens : ℕ → JobKind → (ttl now : ℕ) → Store → ℕ
unfolding has_warm_job kind_token_history
anticipated_tokens rid kind ttl now s =
    let history = kind_token_history kind s in
    get_or history (percentile_index (has_warm_job rid kind ttl now s) (length history)) 0

get_or-In : (xs : List ℕ) (i d : ℕ) → i < length xs → In (get_or xs i d) xs
get_or-In [] i d lt = absurd (omega arith)
get_or-In (x ∷ xs) zero d lt = inl refl
get_or-In (x ∷ xs) (suc i) d lt = inr (get_or-In xs i d (omega arith))

percentile_index_bound : (warm : Bool) (n : ℕ) → 0 < n → percentile_index warm n < n
percentile_index_bound true n lt = omega arith
percentile_index_bound false n lt = omega arith

-- The anticipated cost of a job is one that the history of its kind holds, or 0 without a history.
pub anticipated_tokens-In :
    (rid : ℕ) (kind : JobKind) (ttl now : ℕ) (s : Store)
    → let z = anticipated_tokens rid kind ttl now s in
      In z (kind_token_history kind s) ⊎ ((kind_token_history kind s ≡ []) × (z ≡ 0))
unfolding anticipated_tokens
anticipated_tokens-In rid kind ttl now s =
    from (has_warm_job rid kind ttl now s) (kind_token_history kind s)
  where
    from :
        (warm : Bool) (history : List ℕ)
        → let z = get_or history (percentile_index warm (length history)) 0 in
          In z history ⊎ ((history ≡ []) × (z ≡ 0))
    from warm [] = inr (refl, refl)
    from warm (x ∷ xs) =
        inl (get_or-In (x ∷ xs) _ 0 (percentile_index_bound warm (length (x ∷ xs)) (omega arith)))
