-- ===== src/Scheduler/Select/Tiers/Oldest.antt =====
-- The order within a finding tier of hunter-rs/src/scheduler.rs, which `list_attention` and
-- `Store::list_pending_harvest` give it.
use bug_hunter.Prelude.{
  ℕ, ◌≤◌, ◌<◌, ◌≡◌, ◌≢◌, refl, ap, String, ◌⊎◌, ◌↔◌, inl, inr, Bool, true, false, not, ◌&&◌, ◌||◌,
  List, [], ◌∷◌, Option, none, some, arith, Option-cases, eq_iff, ==_iff,
}
use bug_hunter.Prelude.Tables.{rows_where, sort_by, All, All-map}
use bug_hunter.Prelude.Orders.{Ordered, Ordered-map, Ordered-rows_where, lexical, sort_by-Ordered}
use bug_hunter.Prelude.Members.{In, In-rows_where, rows_where-In, In-sort_by}
use bug_hunter.Domain.Status.{rechecking, queued, pr_open, merged, closed}
use bug_hunter.Domain.Kinds.{FindingJobKind, fix, engage, harvest, recheck}
use bug_hunter.Store.Rows.{Finding, PrState, Store, coalesce, is_text}
use bug_hunter.Scheduler.Select.Tiers.{
  newer_finding, opt_less, sort_key, of_force, in_tier, pr_of, tier,
}

opt_less_asym : (a b : Option ℕ) → opt_less a b ≡ true → opt_less b a ≡ false
opt_less_asym a b e = ground arith

opt_less_trans :
    (a b c : Option ℕ) → opt_less b a ≡ false → opt_less c b ≡ false → opt_less c a ≡ false
opt_less_trans a b c e f = ground arith

-- Whether a finding's time is before another's.
abbrev pub earlier : FindingJobKind → Store → Finding → Finding → Bool
earlier kind s a b = opt_less (sort_key kind s.pr_states a) (sort_key kind s.pr_states b)

newest_first : (fs : List Finding) → Ordered newer_finding (sort_by newer_finding fs)
newest_first fs =
    Ordered-map (lexical newer_finding never) newer_finding (sort_by newer_finding fs)
      (λ z x e. ground arith)
      (sort_by-Ordered newer_finding never (λ a b e. ground arith) (λ a b c e f. ground arith) fs
        (unordered fs))
  where
    never : Finding → Finding → Bool
    never a b = false

    all_never : (x : Finding) (fs : List Finding) → All (λ z. never z x ≡ false) fs
    all_never x [] = tt
    all_never x (f ∷ fs) = (refl, all_never x fs)

    unordered : (fs : List Finding) → Ordered never fs
    unordered [] = tt
    unordered (f ∷ fs) = (all_never f fs, unordered fs)

tier-lexical :
    (kind : FindingJobKind) (force : Option ℕ) (s : Store)
    → Ordered (lexical (earlier kind s) newer_finding) (tier kind force s)
unfolding tier
tier-lexical kind force s =
    let held : List Finding = rows_where (λ f. in_tier kind s.pr_states f.id f.status) s.findings in
    let newest : List Finding = sort_by newer_finding held in
    let key : Finding → Option ℕ = sort_key kind s.pr_states in
    Ordered-rows_where (lexical (earlier kind s) newer_finding) (of_force force)
      (sort_by (earlier kind s) newest)
      (sort_by-Ordered (earlier kind s) newer_finding (λ a b. opt_less_asym (key a) (key b))
        (λ a b c. opt_less_trans (key a) (key b) (key c)) newest (newest_first held))

-- What puts a finding into a tier, by its row of the pull requests.
abbrev pub Belongs : FindingJobKind → Finding → Option PrState → Type 0
Belongs recheck f row = f.status ≡ rechecking
Belongs fix f row = f.status ≡ queued
Belongs engage f none = ⊥
Belongs engage f (some p) = (f.status ≡ pr_open) × (p.needs_attention ≢ none)
Belongs harvest f none = ⊥
Belongs harvest f (some p) =
    (p.harvested_at ≡ none)
    × ((f.status ≡ merged) ⊎ ((f.status ≡ closed) × (p.state ≡ some "CLOSED")))

abbrev pub OfForced : Option ℕ → Finding → Type 0
OfForced none f = Unit
OfForced (some rid) f = f.repo_id ≡ rid

abbrev pub flag_time : (since synced : Option ℕ) → Option ℕ
flag_time none synced = synced
flag_time (some t) synced = some t

-- The time that a finding has waited in its tier since, where the tier has one: since the flag was
-- raised, or else the sync, and for a harvest since the sync.
abbrev pub waits_since : FindingJobKind → Option PrState → Option ℕ
waits_since engage (some p) = flag_time p.attention_since p.synced_at
waits_since harvest (some p) = p.synced_at
waits_since _ row = none

-- A finding with a time `a` stands before one with a time `b`.
abbrev pub StandsBefore : (a b : Option ℕ) → (x z : Finding) → Type 0
StandsBefore none none x z = z.id ≤ x.id
StandsBefore none (some b) x z = Unit
StandsBefore (some a) none x z = ⊥
StandsBefore (some a) (some b) x z = (a < b) ⊎ ((a ≡ b) × (z.id ≤ x.id))

abbrev pub InLine : FindingJobKind → List PrState → List Finding → Type 0
InLine kind prs [] = Unit
InLine kind prs (x ∷ xs) =
    All
      (λ z.
        StandsBefore (waits_since kind (pr_of x.id prs)) (waits_since kind (pr_of z.id prs)) x z)
      xs
    × InLine kind prs xs

waits_since-sort_key :
    (kind : FindingJobKind) (prs : List PrState) (f : Finding)
    → sort_key kind prs f ≡ waits_since kind (pr_of f.id prs)
waits_since-sort_key recheck prs f = refl
waits_since-sort_key fix prs f = refl
waits_since-sort_key harvest prs f = elim (Option-cases (pr_of f.id prs)) [
  | inl e ↦ rw e refl
  | inr (p, e) ↦ rw e refl
]
waits_since-sort_key engage prs f = elim (Option-cases (pr_of f.id prs)) [
  | inl e ↦ rw e refl
  | inr (p, e) ↦ rw e (by_flag p.attention_since p.synced_at)
]
  where
    by_flag : (a b : Option ℕ) → coalesce a b ≡ flag_time a b
    by_flag none b = refl
    by_flag (some t) b = refl

lexical-StandsBefore :
    (a b : Option ℕ) (x z : Finding)
    → (opt_less b a || (not (opt_less a b) && newer_finding z x)) ≡ false
    → StandsBefore a b x z
lexical-StandsBefore none none x z h = ground arith
lexical-StandsBefore none (some b) x z h = tt
lexical-StandsBefore (some a) none x z h = ground arith
lexical-StandsBefore (some a) (some b) x z h = ground arith

lexical-InLine :
    (kind : FindingJobKind) (s : Store) (xs : List Finding)
    → Ordered (lexical (earlier kind s) newer_finding) xs
    → InLine kind s.pr_states xs
lexical-InLine kind s [] o = tt
lexical-InLine kind s (x ∷ xs) o = (
  All-map _ _ xs
      (λ z e.
        lexical-StandsBefore (waits_since kind (pr_of x.id s.pr_states))
          (waits_since kind (pr_of z.id s.pr_states)) x z
          (rw⁻¹ (waits_since-sort_key kind s.pr_states x, waits_since-sort_key kind s.pr_states z)
            e))
      o.0,
  lexical-InLine kind s xs o.1,
)

is_text_iff : (o : Option String) (s : String) → (is_text o s ≡ true) ↔ (o ≡ some s)
is_text_iff none s = (λ e. cc, λ e. cc)
is_text_iff (some t) s = (λ e. ap some ((eq_iff t s).0 e), λ e. (eq_iff t s).1 (ground arith))

in_tier-Belongs :
    (kind : FindingJobKind) (prs : List PrState) (f : Finding) (row : Option PrState)
    → pr_of f.id prs ≡ row
    → (in_tier kind prs f.id f.status ≡ true) ↔ Belongs kind f row
in_tier-Belongs recheck prs f row e = (λ h. ground arith, λ h. ground arith)
in_tier-Belongs fix prs f row e = (λ h. ground arith, λ h. ground arith)
in_tier-Belongs engage prs f none e = rw e (λ h. ground arith, λ h. absurd h)
in_tier-Belongs engage prs f (some p) e = rw e (λ h. ground arith, λ h. ground arith)
in_tier-Belongs harvest prs f none e = rw e (λ h. ground arith, λ h. absurd h)
in_tier-Belongs harvest prs f (some p) e =
    let named = is_text_iff p.state "CLOSED" in
    rw e (λ h. ground (arith, named.0), λ h. ground (arith, named.1))

of_force-OfForced : (force : Option ℕ) (f : Finding) → (of_force force f ≡ true) ↔ OfForced force f
of_force-OfForced none f = (λ h. tt, λ h. refl)
of_force-OfForced (some rid) f = ==_iff f.repo_id rid

-- A tier lists the findings that belong to it, of the forced repository if there is one, and no
-- others. They stand by the time that they have waited since, earliest first, one without a time
-- before all others, and those of the same time newest first. An engage waits since its flag was
-- raised, or else since the sync, a harvest since the sync; the plain tiers have no time.
pub tier-Ordered :
    (kind : FindingJobKind) (force : Option ℕ) (s : Store) (f : Finding)
    → InLine kind s.pr_states (tier kind force s)
      × (In f (tier kind force s)
          ↔ (In f s.findings × OfForced force f × Belongs kind f (pr_of f.id s.pr_states)))
unfolding tier
tier-Ordered kind force s f =
    let held : Finding → Bool = λ f. in_tier kind s.pr_states f.id f.status in
    let newest : List Finding = sort_by newer_finding (rows_where held s.findings) in
    (
      lexical-InLine kind s (tier kind force s) (tier-lexical kind force s),
      (
        λ i.
            let (sorted, forced) =
              In-rows_where (of_force force) (sort_by (earlier kind s) newest) f i in
            let (there, stands) = In-rows_where held s.findings f (
              (In-sort_by newer_finding (rows_where held s.findings) f).0
                ((In-sort_by (earlier kind s) newest f).0 sorted)) in
            (
              there,
              (of_force-OfForced force f).0 forced,
              (in_tier-Belongs kind s.pr_states f _ refl).0 stands,
            ),
        λ h.
            rows_where-In (of_force force) (sort_by (earlier kind s) newest) f
              ((In-sort_by (earlier kind s) newest f).1 (
                (In-sort_by newer_finding (rows_where held s.findings) f).1 (
                  rows_where-In held s.findings f h.0
                    ((in_tier-Belongs kind s.pr_states f _ refl).1 h.2))))
              ((of_force-OfForced force f).1 h.1),
      ),
    )
