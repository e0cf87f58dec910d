-- ===== src/Backends/Decide.antt =====
-- The verdicts of hunter-rs/src/backend.rs and how hunter-rs/src/backends/omp_scavenge/facade.rs
-- decides them. The reasons of the source carry numbers for the log; here they are the texts that
-- begin them. What the ledger counts is given as `Ledger`; its failures, which the source passes
-- on, are left to the caller.
pub mod Permissive
pub mod Headroom
pub mod Gate
use bug_hunter.Prelude.{
  ℕ, zero, suc, ◌+◌, ◌-◌, Bool, true, false, ◌&&◌, ◌||◌, not, String, Option, none, some, List, [],
  ◌∷◌, ◌++◌, map, str_eq, ltb, leb, if◌then◌else◌,
}
use bug_hunter.Prelude.Tables.{rows_where, exists_where, first_where, last?, length}
use bug_hunter.Backends.Floats.{ℤ, pos, ltb_i64, least, FloatOps}
use bug_hunter.Backends.Provider.{
  LlmProvider, QuotaWindow, Quota, WindowState, quota, gates, is_hard_stop, effective_used,
  capacity, is_missing, int,
}
use bug_hunter.Backends.Capacity.{expired, ramp, retry_at, ramp_linear}

pub data Verdict (F : Type 0) : Type 0 where
  granted : (cap_tokens : Option ℤ) (reason : String) → Verdict F
  denied : (reason : String) (retry_at : Option F) → Verdict F

abbrev pub is_granted : {F : Type 0} → Verdict F → Bool
is_granted (granted cap reason) = true
is_granted (denied reason at) = false

pub record Outlook (F : Type 0) : Type 0 where
  pub normal : Verdict F
  pub prioritized : Verdict F

pub record Reservation (F : Type 0) : Type 0 where
  pub gate : F
  pub budget : F
  pub capacity : F

-- `SpendLedger`: what it tells `reservations`.
pub record Ledger (F : Type 0) : Type 0 where
  pub running_estimate : ℕ
  pub finished_since : ℕ → ℕ
  pub estimate_capacity : String → Option F

-- A row of the snapshot with the quota window that it gates as, and that one's reservation.
pub record Gated (F : Type 0) : Type 0 where
  pub window : QuotaWindow F
  pub resv : Reservation F
  pub row : WindowState F

abbrev pub or_else : {B : Type 0} → Option B → Option B → Option B
or_else none next = next
or_else (some b) next = some b

abbrev pub value_or : {B : Type 0} → Option B → B → B
value_or none other = other
value_or (some b) other = b

abbrev pub first_some : {A B : Type 0} → (A → Option B) → List A → Option B
first_some f [] = none
first_some f (x ∷ xs) = or_else (f x) (first_some f xs)

abbrev earliest : List ℕ → ℕ
earliest [] = 0
earliest (t ∷ []) = t
earliest (t ∷ (u ∷ ts)) = let rest = earliest (u ∷ ts) in if leb t rest then t else rest

abbrev pub no_window_data : String
no_window_data = "no window data -- deny until fresh"

module _ {F : Type 0} (fl : FloatOps F) where
  abbrev pub as_fraction : (tokens : ℕ) → (capacity : F) → F
  as_fraction tokens capacity =
      if fl.lt (int fl 0) capacity then fl.div (int fl tokens) capacity else int fl 0

  -- `Reservation::tokens`.
  abbrev pub cap_tokens_of : Reservation F → F → ℤ
  cap_tokens_of resv frac = fl.trunc (fl.mul frac resv.capacity)

  -- A chain of scaled capacities is one link long in every quota.
  abbrev pub capacity_of : Quota F → (index : ℕ) → List (Option F) → F
  capacity_of q index estimates = elim (capacity fl 2 q index estimates) [
    | none ↦ int fl 0
    | some c ↦ c
  ]

  abbrev pub probe_at : List (WindowState F) → QuotaWindow F → ℕ
  probe_at rows w = elim (first_where (λ r. str_eq r.limit_id w.limit_id) rows) [
    | none ↦ earliest (map (λ r. r.recorded_at) rows)
    | some r ↦ r.recorded_at
  ]

  abbrev pub reserve : Ledger F → (anticipated : ℕ) → (probed : ℕ) → (capacity : F) → Reservation F
  reserve ledger anticipated probed capacity =
      let unaccounted = ledger.running_estimate + anticipated + ledger.finished_since probed in
      record {
        gate = as_fraction unaccounted capacity;
        budget = as_fraction (unaccounted - anticipated) capacity;
        capacity = capacity;
      }

  abbrev pub reserve_from :
      Quota F
      → Ledger F
      → List (WindowState F)
      → (anticipated : ℕ) → List (Option F)
      → (index : ℕ) → List (QuotaWindow F)
      → List (Reservation F)
  reserve_from q ledger rows anticipated estimates index [] = []
  reserve_from q ledger rows anticipated estimates index (w ∷ ws) =
      reserve ledger anticipated (probe_at rows w) (capacity_of q index estimates)
      ∷ reserve_from q ledger rows anticipated estimates (suc index) ws

  unfoldable pub reservations :
      Quota F → Ledger F → List (WindowState F) → (anticipated : ℕ) → List (Reservation F)
  reservations q ledger rows anticipated =
      reserve_from q ledger rows anticipated
        (map (λ w. ledger.estimate_capacity w.limit_id) q.windows) 0 q.windows

  abbrev pub gated_by :
      QuotaWindow F → Reservation F → List (WindowState F) → List (Gated F) → List (Gated F)
  gated_by w resv [] rest = rest
  gated_by w resv (r ∷ rs) rest =
      if gates fl w r.limit_id
      then record { window = w; resv = resv; row = r } ∷ gated_by w resv rs rest
      else gated_by w resv rs rest

  -- The pairs that the two nested loops visit, in their order.
  abbrev pub gated :
      List (QuotaWindow F) → List (Reservation F) → List (WindowState F) → List (Gated F)
  gated [] resvs rows = []
  gated (w ∷ ws) [] rows = []
  gated (w ∷ ws) (v ∷ vs) rows = gated_by w v rows (gated ws vs rows)

  module _ (previous_month : ℕ → Option ℕ) where
    abbrev pub deny_at : Quota F → Gated F → (used : F) → Option F
    deny_at q g used =
        if is_hard_stop fl q g.row
        then elim g.row.resets_at [ none ↦ none | some reset ↦ some (int fl reset) ]
        else retry_at fl previous_month g.window g.row.resets_at used

    -- A row at or over its ramp: prioritized work gets what the window has left, unless that is a
    -- hard stop.
    abbrev pub over_ramp : Quota F → (prio : Bool) → Gated F → (reported : F) → Verdict F
    over_ramp q prio g reported =
        let cap =
          cap_tokens_of g.resv
            (fl.max (fl.sub (int fl 1) (fl.add reported g.resv.budget)) (int fl 0)) in
        if prio && not (is_hard_stop fl q g.row) && ltb_i64 (pos 0) cap
        then granted (some cap) "prio override"
        else denied g.row.limit_id (deny_at q g (fl.add reported g.resv.gate))

    abbrev pub weigh : Quota F → Bool → Gated F → Option F → Option F → Option (Verdict F)
    weigh q prio g none allowed = none
    weigh q prio g (some reported) none = none
    weigh q prio g (some reported) (some allowed) =
        if fl.lt (fl.add reported g.resv.gate) allowed
        then none
        else some (over_ramp q prio g reported)

    -- One pass of the loop: `none` is its `continue`.
    unfoldable pub judge : Quota F → (prio : Bool) → (now : ℕ) → Gated F → Option (Verdict F)
    judge q prio now g =
        if expired g.row.resets_at now
        then none
        else weigh q prio g (effective_used fl q g.row)
            (ramp fl previous_month g.window g.row.resets_at now)

    abbrev pub cap_of : (prio : Bool) → Gated F → Option F → Option F → Option ℤ
    cap_of prio g none allowed = none
    cap_of prio g (some used) none = none
    cap_of prio g (some used) (some allowed) =
        let ceiling = if prio then int fl 1 else allowed in
        some (cap_tokens_of g.resv (fl.max (fl.sub (fl.sub ceiling used) g.resv.budget) (int fl 0)))

    unfoldable pub row_cap : Quota F → (prio : Bool) → (now : ℕ) → Gated F → Option ℤ
    row_cap q prio now g =
        cap_of prio g (effective_used fl q g.row)
          (ramp fl previous_month g.window g.row.resets_at now)

    abbrev pub row_caps : Quota F → (prio : Bool) → (now : ℕ) → List (Gated F) → List ℤ
    row_caps q prio now [] = []
    row_caps q prio now (g ∷ gs) = elim (row_cap q prio now g) [
      | none ↦ row_caps q prio now gs
      | some cap ↦ cap ∷ row_caps q prio now gs
    ]

    unfoldable pub compute_headroom :
        Quota F → (prio : Bool) → (now : ℕ) → List (Gated F) → Option ℤ
    compute_headroom q prio now gs = least (row_caps q prio now gs)

    unfoldable pub decide_inner :
        Quota F
        → List (WindowState F)
        → List (Reservation F)
        → (prio : Bool) → (now : ℕ) → Verdict F
    unfolding judge compute_headroom
    decide_inner q [] resvs prio now = denied no_window_data none
    decide_inner q (r ∷ rs) resvs prio now =
        let gs = gated q.windows resvs (r ∷ rs) in
        value_or (first_some (judge q prio now) gs) (granted (compute_headroom q prio now gs) "ok")

    -- The prioritized verdict, where the normal one is a grant, is the larger of the two caps.
    abbrev pub upgraded : (headroom cap : Option ℤ) → Verdict F → Verdict F
    upgraded (some more) none normal = granted (some more) "ok"
    upgraded (some more) (some cap) normal =
        if ltb_i64 cap more then granted (some more) "ok" else normal
    upgraded none cap normal = normal

    abbrev pub prioritize :
        Quota F → List (WindowState F) → List (Reservation F) → (now : ℕ) → Verdict F → Verdict F
    prioritize q rows resvs now (granted cap reason) =
        upgraded (compute_headroom q true now (gated q.windows resvs rows)) cap (granted cap reason)
    prioritize q rows resvs now (denied reason at) = decide_inner q rows resvs true now

    -- An outlook from the first required window that is missing, if any.
    abbrev pub outlook_of :
        Quota F
        → List (WindowState F)
        → List (Reservation F)
        → (now : ℕ) → Option (QuotaWindow F)
        → Outlook F
    outlook_of q rows resvs now (some missing) = record {
      normal = denied missing.limit_id none;
      prioritized = denied missing.limit_id none;
    }
    outlook_of q rows resvs now none =
        let normal = decide_inner q rows resvs false now in
        record { normal = normal; prioritized = prioritize q rows resvs now normal }

    unfoldable pub decide_with_windows :
        LlmProvider → Ledger F → List (WindowState F) → (anticipated now : ℕ) → Outlook F
    unfolding reservations decide_inner compute_headroom
    decide_with_windows p ledger rows anticipated now =
        let q = quota fl p in
        outlook_of q rows (reservations q ledger rows anticipated) now
          (first_where (λ w. is_missing fl w rows now) q.windows)

  -- The shortest quota window was read, no longer ago than `stale_after_s`.
  unfoldable pub is_fresh : Quota F → (stale_after_s : F) → List (WindowState F) → Bool
  is_fresh q stale_after_s rows = elim (last? q.windows) [
    | none ↦ false
    | some shortest ↦ elim (first_where (λ r. str_eq r.limit_id shortest.limit_id) rows) [
      | none ↦ false
      | some r ↦ not (fl.lt stale_after_s r.age_s)
    ]
  ]
