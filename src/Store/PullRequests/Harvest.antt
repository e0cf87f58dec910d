-- ===== src/Store/PullRequests/Harvest.antt =====
-- What the upserts of `pr_state` in hunter-rs/src/store.rs do to the harvest's bookkeeping.

use bug_hunter.Prelude.{
  ℕ, ◌≡◌, ◌≢◌, refl, ◌∙◌, ap, ◌⊎◌, inl, inr, Bool-cases, ==_iff, Bool, true, false, List, [], ◌∷◌,
  String, Option, none, some, ◌==◌, arith, if◌then◌else◌,
}
use bug_hunter.Prelude.Tables.{All, exists_where, first_where, first_where-update}
use bug_hunter.Store.Rows.{PrState, Store}
use bug_hunter.Store.Findings.{update_pr, get_pr_state}
use bug_hunter.Store.PullRequests.{
  is_other, upsert_pr, mark_pr_merged, mark_pr_closed, SyncPrData, synced, set_since,
  clear_addressed_of, sync_pr_open, mark_pr_engaged, set_pr_number,
}

-- A write of the pull-request sync to a finding's row.
pub data PrWrite : Type 0 where
  merged closed : (number synced_at : ℕ) → PrWrite
  open_ : SyncPrData → PrWrite
  engaged : (last_engaged synced_at : ℕ) → (fingerprint head_sha : Option String) → PrWrite
  number : ℕ → PrWrite

unfoldable pub write_pr : ℕ → PrWrite → Store → Store
unfolding mark_pr_merged mark_pr_closed sync_pr_open mark_pr_engaged set_pr_number
write_pr fid (merged n t) = mark_pr_merged fid n t
write_pr fid (closed n t) = mark_pr_closed fid n t
write_pr fid (open_ d) = sync_pr_open fid d
write_pr fid (engaged a t f h) = mark_pr_engaged fid a t f h
write_pr fid (number n) = set_pr_number fid n

-- The number that a write says the finding's pull request has.
abbrev pub number_of : PrWrite → Option ℕ
number_of (merged n t) = some n
number_of (closed n t) = some n
number_of (open_ d) = some d.pr_number
number_of (engaged a t f h) = none
number_of (number n) = some n

-- The harvest's columns after a write to the row `p`.
abbrev Bookkept : Option ℕ → (p q : PrState) → Type 0
Bookkept none p q =
    (q.pr_number ≡ p.pr_number)
    × (q.harvested_at ≡ p.harvested_at)
    × (q.harvest_attempts ≡ p.harvest_attempts)
    × (q.last_harvest_failure ≡ p.last_harvest_failure)
Bookkept (some n) p q =
    (q.pr_number ≡ some n)
    × (q.harvested_at ≡ (if is_other p.pr_number n then none else p.harvested_at))
    × (q.harvest_attempts ≡ (if is_other p.pr_number n then 0 else p.harvest_attempts))
    × (q.last_harvest_failure ≡ (if is_other p.pr_number n then none else p.last_harvest_failure))

module _ (fid : ℕ) (s : Store) (p : PrState) (here : get_pr_state fid s ≡ some p) where
  pub updated :
      (g : PrState → PrState)
      → ((q : PrState) → (g q).finding_id ≡ q.finding_id)
      → get_pr_state fid (update_pr fid g s) ≡ some (g p)
  unfolding get_pr_state
  updated g h =
      first_where-update (λ q. q.finding_id == fid) g s.pr_states (λ q t. rw (h q) t) ∙ rw here

  there :
      (ps : List PrState)
      → first_where (λ q. q.finding_id == fid) ps ≡ some p
      → exists_where (λ q. q.finding_id == fid) ps ≡ true
  there [] e = cc
  there (q ∷ qs) e = ground (arith, there qs)

  pub upserted :
      (g : PrState → PrState)
      → ((q : PrState) → (g q).finding_id ≡ q.finding_id)
      → get_pr_state fid (upsert_pr fid g s) ≡ some (g p)
  unfolding get_pr_state
  upserted g h = rw (there s.pr_states here) (updated g h)

abbrev Found : ℕ → Option ℕ → PrState → Store → Type 0
Found fid n p s = (q : PrState) × (get_pr_state fid s ≡ some q) × Bookkept n p q

-- A write of other columns after the first one.
Found-after :
    (fid : ℕ) (n : ℕ) (p : PrState) (s s' : Store)
    → Found fid (some n) p s
    → ((q : PrState) → get_pr_state fid s ≡ some q → Found fid none q s')
    → Found fid (some n) p s'
Found-after fid n p s s' (q, here, (a, b, c, d)) h =
    let (r, there, (a', b', c', d')) = h q here in (r, there, (a' ∙ a, b' ∙ b, c' ∙ c, d' ∙ d))

set_since-Found :
    (fid : ℕ) (since : Option (Option ℕ)) (s : Store) (q : PrState)
    → get_pr_state fid s ≡ some q
    → Found fid none q (set_since fid since s)
set_since-Found fid none s q here = (q, here, (refl, refl, refl, refl))
set_since-Found fid (some t) s q here =
    (_, updated fid s q here _ (λ r. refl), (refl, refl, refl, refl))

clear_addressed_of-Found :
    (fid : ℕ) (clear : Bool) (s : Store) (q : PrState)
    → get_pr_state fid s ≡ some q
    → Found fid none q (clear_addressed_of fid clear s)
clear_addressed_of-Found fid false s q here = (q, here, (refl, refl, refl, refl))
clear_addressed_of-Found fid true s q here =
    (_, updated fid s q here _ (λ r. refl), (refl, refl, refl, refl))

write_pr-columns :
    (fid : ℕ) (w : PrWrite) (s : Store) (p : PrState)
    → get_pr_state fid s ≡ some p
    → (q : PrState) × (get_pr_state fid (write_pr fid w s) ≡ some q) × Bookkept (number_of w) p q
unfolding write_pr mark_pr_merged mark_pr_closed mark_pr_engaged set_pr_number sync_pr_open
write_pr-columns fid (merged n t) s p here =
    (_, upserted fid s p here _ (λ q. refl), (refl, refl, refl, refl))
write_pr-columns fid (closed n t) s p here =
    (_, upserted fid s p here _ (λ q. refl), (refl, refl, refl, refl))
write_pr-columns fid (engaged a t f h) s p here =
    (_, updated fid s p here _ (λ q. refl), (refl, refl, refl, refl))
write_pr-columns fid (number n) s p here =
    (_, upserted fid s p here _ (λ q. refl), (refl, refl, refl, refl))
write_pr-columns fid (open_ d) s p here =
    let first = upserted fid s p here (synced d) (λ q. refl) in
    let upsert : Store = upsert_pr fid (synced d) s in
    let stamped : Store = set_since fid d.attention_since upsert in
    Found-after fid d.pr_number p stamped _
      (Found-after fid d.pr_number p upsert stamped (synced d p, first, (refl, refl, refl, refl))
        (set_since-Found fid d.attention_since upsert))
      (clear_addressed_of-Found fid d.clear_addressed stamped)

-- The stamp, the count and the failure stay, or all go.
abbrev pub Kept : (p q : PrState) → Type 0
Kept p q =
    (q.harvested_at ≡ p.harvested_at)
    × (q.harvest_attempts ≡ p.harvest_attempts)
    × (q.last_harvest_failure ≡ p.last_harvest_failure)

abbrev pub Cleared : PrState → Type 0
Cleared q = (q.harvested_at ≡ none) × (q.harvest_attempts ≡ 0) × (q.last_harvest_failure ≡ none)

-- By the stored number and the one that the write brings.
abbrev pub ByNumber : Option ℕ → (n : ℕ) → (p q : PrState) → Type 0
ByNumber none n p q = Kept p q
ByNumber (some m) n p q = ((m ≡ n) × Kept p q) ⊎ ((m ≢ n) × Cleared q)

abbrev pub HarvestOf : Option ℕ → (p q : PrState) → Type 0
HarvestOf none p q = (q.pr_number ≡ p.pr_number) × Kept p q
HarvestOf (some n) p q = (q.pr_number ≡ some n) × ByNumber p.pr_number n p q

Bookkept-ByNumber :
    (stored : Option ℕ) (n : ℕ) (p q : PrState)
    → p.pr_number ≡ stored
    → Bookkept (some n) p q
    → ByNumber stored n p q
Bookkept-ByNumber none n p q e (_, a, b, c) = (a ∙ rw e refl, b ∙ rw e refl, c ∙ rw e refl)
Bookkept-ByNumber (some m) n p q e (_, a, b, c) = elim (Bool-cases (m == n)) [
  | inl t ↦ inl ((==_iff m n).0 t, (a ∙ rw (e, t) refl, b ∙ rw (e, t) refl, c ∙ rw (e, t) refl))
  | inr t ↦ inr (λ same. ground arith, (a ∙ rw (e, t) refl, b ∙ rw (e, t) refl, c ∙ rw (e, t) refl))
]

Bookkept-HarvestOf : (m : Option ℕ) (p q : PrState) → Bookkept m p q → HarvestOf m p q
Bookkept-HarvestOf none p q (num, a, b, c) = (num, (a, b, c))
Bookkept-HarvestOf (some n) p q h = (h.0, Bookkept-ByNumber p.pr_number n p q refl h)

-- A write of the sync to a stored row leaves the row's number or sets the one it brings. It keeps
-- the harvest's stamp, count and last failure where it brings no number, where no number is
-- stored, and where both are the same; where they differ, it clears all three.
pub write_pr-HarvestOf :
    (fid : ℕ) (w : PrWrite) (s : Store) (p : PrState)
    → get_pr_state fid s ≡ some p
    → (q : PrState) × (get_pr_state fid (write_pr fid w s) ≡ some q) × HarvestOf (number_of w) p q
write_pr-HarvestOf fid w s p here =
    let (q, found, kept) = write_pr-columns fid w s p here in
    (q, found, Bookkept-HarvestOf (number_of w) p q kept)

-- The number that is not another one leaves the columns as they are.
same_number : (n : ℕ) → is_other (some n) n ≡ false
same_number n = ground arith

abbrev pub write_prs : ℕ → List PrWrite → Store → Store
write_prs fid [] s = s
write_prs fid (w ∷ ws) s = write_prs fid ws (write_pr fid w s)

-- The write speaks of the pull request with this number, if it names one.
abbrev pub OfNumber : ℕ → PrWrite → Type 0
OfNumber n w = is_other (number_of w) n ≡ false

-- No sequence of sync writes about the same pull request takes a harvest stamp away.
pub write_prs-keep_harvest :
    (fid n t : ℕ) (ws : List PrWrite) (s : Store) (p : PrState)
    → get_pr_state fid s ≡ some p
    → p.pr_number ≡ some n
    → p.harvested_at ≡ some t
    → All (OfNumber n) ws
    → (q : PrState) × (get_pr_state fid (write_prs fid ws s) ≡ some q)
      × (q.pr_number ≡ some n)
      × (q.harvested_at ≡ some t)
write_prs-keep_harvest fid n t [] s p here num stamp all = (p, here, num, stamp)
write_prs-keep_harvest fid n t (w ∷ ws) s p here num stamp all =
    let (q, found, kept) = write_pr-columns fid w s p here in
    let (num', stamp') = kept_one (number_of w) p q num stamp all.0 kept in
    write_prs-keep_harvest fid n t ws (write_pr fid w s) q found num' stamp' all.1
  where
    kept_one :
        (m : Option ℕ) (p q : PrState)
        → p.pr_number ≡ some n
        → p.harvested_at ≡ some t
        → is_other m n ≡ false
        → Bookkept m p q
        → (q.pr_number ≡ some n) × (q.harvested_at ≡ some t)
    kept_one none p q num stamp same k = (k.0 ∙ num, k.1 ∙ stamp)
    kept_one (some m) p q num stamp same k =
        let e : m ≡ n = ground arith in (k.0 ∙ ap some e, k.1 ∙ rw (num, e, same_number n) stamp)
