-- ===== src/Scheduler/Sync/Closing.antt =====
-- How a sync of hunter-rs/src/scheduler.rs takes a finding out of `pr_open`.
use bug_hunter.Prelude.{
  ℕ, Bool, true, false, String, Option, none, some, ◌≡◌, refl, ◌⊎◌, inl, inr, ◌==◌, ==_iff,
  Bool-cases, Option-cases,
}
use bug_hunter.Prelude.Tables.{exists_where}
use bug_hunter.Prelude.Members.{first_where-none}
use bug_hunter.Domain.Status.{FindingStatus, queued, pr_open}
use bug_hunter.Domain.Status
use bug_hunter.Store.Rows.{Finding, Repo, Store}
use bug_hunter.Store.Rows
use bug_hunter.Store.Jobs.{get_repo_by_id}
use bug_hunter.Store.Findings.{
  get_finding, get_pr_state, set_finding_status, set_finding_verdict, set_anchored_verdict,
  write_anchor, with_verdict,
}
use bug_hunter.Store.PullRequests.{
  upsert_pr, blank, ended, mark_pr_merged, mark_pr_closed, SyncPrData, synced, set_since,
  clear_addressed_of, sync_pr_open,
}
use bug_hunter.Store.PullRequests.Harvest.{upserted}
use bug_hunter.Scheduler.Fix.Moves.{At, moved}
use bug_hunter.Forge.States.{PrView, PrState, opened, merged, closed}
use bug_hunter.Scheduler.Sync.{
  SyncResult, Faults, Seen, unparseable, unviewed, viewed, sync_data, closed_reason, sync_merged,
  sync_closed, sync_opened, sync_state, sync_seen, sync_repo, given_url, sync_url, sync_one,
}

upsert_pr-At :
    (fid k : ℕ) (st : FindingStatus) (g : Rows.PrState → Rows.PrState) (s : Store)
    → At fid st s
    → At fid st (upsert_pr k g s)
unfolding get_finding
upsert_pr-At fid k st g s here =
    elim (Bool-cases (exists_where (λ p. p.finding_id == k) s.pr_states)) [
      | inl e ↦ rw e here
      | inr e ↦ rw e here
    ]

upsert_pr-stored :
    (fid : ℕ) (g : Rows.PrState → Rows.PrState) (s : Store)
    → ((q : Rows.PrState) → (g q).finding_id ≡ q.finding_id)
    → (p : Rows.PrState) × (get_pr_state fid (upsert_pr fid g s) ≡ some (g p))
unfolding get_pr_state
upsert_pr-stored fid g s h = elim (Option-cases (get_pr_state fid s)) [
  | inr (p, e) ↦ (p, upserted fid s p e g h)
  | inl e ↦
      let missing : exists_where (λ p. p.finding_id == fid) s.pr_states ≡ false =
        first_where-none (λ p. p.finding_id == fid) s.pr_states e in
      let its : ((g (blank fid)).finding_id == fid) ≡ true =
        rw (h (blank fid)) ((==_iff fid fid).1 refl) in
      (blank fid, rw (missing, its) refl)
]

-- The row of an ended pull request: its state and number, and no attention.
abbrev pub Ended : String → (fid number : ℕ) → Store → Type 0
Ended state fid number s =
    (p : Rows.PrState) × (get_pr_state fid s ≡ some p)
    × (p.state ≡ some state)
    × (p.pr_number ≡ some number)
    × (p.needs_attention ≡ none)

mark-Ended :
    (state : String) (fid number now : ℕ) (s : Store)
    → Ended state fid number (upsert_pr fid (ended state number now) s)
mark-Ended state fid number now s =
    let (p, found) = upsert_pr-stored fid (ended state number now) s (λ q. refl) in
    (ended state number now p, found, refl, refl, refl)

-- Where a pass leaves a finding that was at `pr_open`.
abbrev pub Left : (Repo → String → Seen) → Finding → (before : Store) → (after : Store) → Type 0
Left look f before after =
    At f.id pr_open after
    ⊎ (At f.id queued after × (given_url f.pr_url ≡ none))
    ⊎ ((repo : Repo) × (url : String) × (number : ℕ) × (pr : PrView) × (get_repo_by_id f.repo_id
            before
          ≡ some repo)
        × (given_url f.pr_url ≡ some url)
        × (look repo url ≡ viewed number pr)
        × ((At f.id Status.merged after × (pr.state ≡ merged))
            ⊎ (At f.id Status.closed after
                × (pr.state ≡ closed)
                × Ended "CLOSED" f.id number after)))

module _ (decimal : ℕ → String) (fid now : ℕ) (x : Faults) (sum : SyncResult) (s : Store)
    (here : At fid pr_open s) where
  -- Where the sync leaves a finding whose pull request was seen to be in a state.
  abbrev Settled : PrState → (number : ℕ) → Store → Type 0
  Settled st number after =
      At fid pr_open after
      ⊎ (At fid Status.merged after × (st ≡ merged))
      ⊎ (At fid Status.closed after × (st ≡ closed) × Ended "CLOSED" fid number after)

  sync_merged-Settled :
      (number : ℕ) → Settled merged number (sync_merged x fid number now (sum, s)).1
  unfolding mark_pr_merged set_finding_status
  sync_merged-Settled number =
      let to_merged =
        moved fid pr_open s here Status.merged
          (λ f. record f { status = Status.merged; updated_at = now }) (λ f. (refl, refl)) in
      elim (Bool-cases x.set_status) [
        | inl e ↦ elim (Bool-cases x.mark_merged) [
          | inl m ↦ rw (e, m) (inl here)
          | inr m ↦ rw (e, m) (inl (upsert_pr-At fid fid pr_open _ s here))
        ]
        | inr e ↦ elim (Bool-cases x.mark_merged) [
          | inl m ↦ rw (e, m) (inr (inl (to_merged, refl)))
          | inr m ↦ rw (e, m) (inr (inl (upsert_pr-At fid fid Status.merged _ _ to_merged, refl)))
        ]
      ]

  sync_closed-Settled :
      (number : ℕ) → Settled closed number (sync_closed x fid number now (sum, s)).1
  unfolding mark_pr_closed set_finding_verdict set_anchored_verdict write_anchor get_pr_state
      get_finding
  sync_closed-Settled number =
      let recorded = mark-Ended "CLOSED" fid number now s in
      let kept = upsert_pr-At fid fid pr_open (ended "CLOSED" number now) s here in
      elim (Bool-cases x.mark_closed) [
        | inl e ↦ rw e (inl here)
        | inr e ↦ elim (Bool-cases x.set_verdict) [
          | inl v ↦ rw (e, v) (inl kept)
          | inr v ↦
              rw (e, v)
                (inr (
                  inr (
                    moved fid pr_open (upsert_pr fid (ended "CLOSED" number now) s) kept
                        Status.closed (with_verdict Status.closed closed_reason now)
                        (λ f. (refl, refl)),
                    refl,
                    recorded,
                  )))
        ]
      ]

  set_since-At :
      (since : Option (Option ℕ)) (t : Store)
      → At fid pr_open t
      → At fid pr_open (set_since fid since t)
  unfolding get_finding
  set_since-At none t h = h
  set_since-At (some at) t h = h

  clear_addressed_of-At :
      (clear : Bool) (t : Store)
      → At fid pr_open t
      → At fid pr_open (clear_addressed_of fid clear t)
  unfolding get_finding
  clear_addressed_of-At false t h = h
  clear_addressed_of-At true t h = h

  sync_pr_open-At : (d : SyncPrData) → At fid pr_open (sync_pr_open fid d s)
  unfolding sync_pr_open
  sync_pr_open-At d =
      clear_addressed_of-At d.clear_addressed _
        (set_since-At d.attention_since _ (upsert_pr-At fid fid pr_open (synced d) s here))

  sync_opened-At :
      (number : ℕ) (pr : PrView)
      → At fid pr_open (sync_opened decimal x fid number pr now (sum, s)).1
  sync_opened-At number pr = elim (Bool-cases x.sync_open) [
    | inl e ↦ rw e here
    | inr e ↦ rw e (sync_pr_open-At (sync_data decimal (get_pr_state fid s) number pr now))
  ]

  sync_state-Settled :
      (st : PrState) (number : ℕ) (pr : PrView)
      → Settled st number (sync_state decimal st x fid number pr now (sum, s)).1
  sync_state-Settled merged number pr = sync_merged-Settled number
  sync_state-Settled closed number pr = sync_closed-Settled number
  sync_state-Settled opened number pr = inl (sync_opened-At number pr)

module _ (decimal : ℕ → String) (look : Repo → String → Seen) (now : ℕ) (x : Faults)
    (sum : SyncResult) (s : Store) (f : Finding) (here : At f.id pr_open s) where
  seen-Left :
      (repo : Repo) (url : String) (v : Seen)
      → get_repo_by_id f.repo_id s ≡ some repo
      → given_url f.pr_url ≡ some url
      → look repo url ≡ v
      → Left look f s (sync_seen decimal v x f.id now (sum, s)).1
  seen-Left repo url unparseable r u v = inl here
  seen-Left repo url unviewed r u v = inl here
  seen-Left repo url (viewed number pr) r u v =
      elim (sync_state-Settled decimal f.id now x sum s here pr.state number pr) [
        | inl stays ↦ inl stays
        | inr (inl is_merged) ↦ inr (inr (repo, url, number, pr, r, u, v, inl is_merged))
        | inr (inr is_closed) ↦ inr (inr (repo, url, number, pr, r, u, v, inr is_closed))
      ]

  repo-Left :
      (repo : Option Repo) (url : String)
      → get_repo_by_id f.repo_id s ≡ repo
      → given_url f.pr_url ≡ some url
      → Left look f s (sync_repo decimal look repo url x f.id now (sum, s)).1
  repo-Left none url r u = inl here
  repo-Left (some repo) url r u = seen-Left repo url (look repo url) r u refl

  url-Left :
      (url : Option String)
      → given_url f.pr_url ≡ url
      → Left look f s (sync_url decimal look f url x now (sum, s)).1
  unfolding set_finding_status
  url-Left (some url) u = repo-Left (get_repo_by_id f.repo_id s) url refl u
  url-Left none u = elim (Bool-cases x.set_status) [
    | inl e ↦ rw e (inl here)
    | inr e ↦ rw e (
        inr (
          inl (
            moved f.id pr_open s here queued (λ g. record g { status = queued; updated_at = now })
                (λ g. (refl, refl)),
            u,
          )))
  ]

-- Whichever of its writes fail, a sync leaves a finding at `pr_open` there, or requeues it, which
-- it does only when no URL is recorded, or takes it to the state that the forge shows its pull
-- request in, merged or closed without a merge; and it takes it to `closed` only with the closure
-- of that pull request on record, so that no closure is missed by the passes after it.
pub sync_one-Left :
    (decimal : ℕ → String) (look : Repo → String → Seen) (now : ℕ) (x : Faults) (sum : SyncResult)
    (s : Store) (f : Finding)
    → At f.id pr_open s
    → Left look f s (sync_one decimal look f x now (sum, s)).1
unfolding sync_one
sync_one-Left decimal look now x sum s f here =
    url-Left decimal look now x sum s f here (given_url f.pr_url) refl
