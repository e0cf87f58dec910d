-- ===== src/Suppression/Watched.antt =====
-- What an anchor of hunter-rs/src/suppression.rs watches.
use bug_hunter.Prelude.{
  ℕ, zero, suc, ◌≤◌, true, false, ◌||◌, String, Option, none, some, List, [], ◌∷◌, ◌++◌, ◌==◌, ◌≡◌,
  refl, sym, ◌∙◌, inl, inr, arith, Bool-cases,
}
use bug_hunter.Prelude.Tables.{All, length}
use bug_hunter.Prelude.Texts.{Text, text_eq, text_eq_iff, is_empty, take_chars, trim}
use bug_hunter.Domain.Status.{FindingStatus, rejected, status_eq}
use bug_hunter.Suppression.{
  is_outside, repo_path, has_part, count_files, push_new, watch, chain, max_anchor_files, condition,
  holds_while_max_chars, Anchor, rejection_anchor,
}

-- No file twice.
abbrev pub Distinct : List Text → Type 0
Distinct [] = Unit
Distinct (f ∷ fs) = (has_part f fs ≡ false) × Distinct fs

abbrev pub Inside : Text → Type 0
Inside path = is_outside path ≡ false

abbrev pub Sound : List Text → Type 0
Sound files = All Inside files × Distinct files × (count_files files ≤ max_anchor_files)

text_eq-sym : (s t : Text) → text_eq s t ≡ text_eq t s
text_eq-sym s t = elim (Bool-cases (text_eq s t)) [
  | inl e ↦ let same = (text_eq_iff s t).0 e in e ∙ sym ((text_eq_iff t s).1 (sym same))
  | inr e ↦ elim (Bool-cases (text_eq t s)) [
    | inl h ↦
        let same = (text_eq_iff t s).0 h in absurd (let u = (text_eq_iff s t).1 (sym same) in cc)
    | inr h ↦ e ∙ sym h
  ]
]

All-appended :
    (files : List Text) (path : Text)
    → All Inside files
    → Inside path
    → All Inside (files ++ (path ∷ []))
All-appended [] path a i = (i, tt)
All-appended (f ∷ fs) path a i = (a.0, All-appended fs path a.1 i)

has_part-appended :
    (f path : Text) (fs : List Text)
    → has_part f (fs ++ (path ∷ [])) ≡ (has_part f fs || text_eq path f)
has_part-appended f path [] = ground arith
has_part-appended f path (g ∷ gs) = ground (arith, has_part-appended f path gs)

Distinct-appended :
    (fs : List Text) (path : Text)
    → Distinct fs
    → has_part path fs ≡ false
    → Distinct (fs ++ (path ∷ []))
Distinct-appended [] path d h = (refl, tt)
Distinct-appended (f ∷ fs) path d h =
    let back = text_eq-sym f path in
    (
      has_part-appended f path fs ∙ ground (arith, d.0),
      Distinct-appended fs path d.1 (ground arith),
    )

count-appended :
    (fs : List Text) (path : Text) → count_files (fs ++ (path ∷ [])) ≡ suc (count_files fs)
count-appended [] path = refl
count-appended (f ∷ fs) path = let rest = count-appended fs path in omega arith

repo_path-Inside : (raw path : Text) → repo_path raw ≡ some path → Inside path
unfolding repo_path
repo_path-Inside raw path e = ground arith

push_new-Sound :
    (files : List Text) (o : Option Text)
    → ((path : Text) → o ≡ some path → Inside path)
    → (count_files files == max_anchor_files) ≡ false
    → Sound files
    → Sound (push_new files o)
push_new-Sound files none inside room h = h
push_new-Sound files (some path) inside room (all, distinct, few) =
    elim (Bool-cases (has_part path files)) [
      | inl e ↦ rw e (all, distinct, few)
      | inr e ↦
          let more = count-appended files path in
          let below : suc (count_files files) ≤ max_anchor_files = ground arith in
          rw e (
            All-appended files path all (inside path refl),
            Distinct-appended files path distinct e,
            omega arith,
          )
    ]

watch-Sound : (files raws : List Text) → Sound files → Sound (watch files raws)
watch-Sound files [] h = h
watch-Sound files (raw ∷ raws) h = elim (Bool-cases (count_files files == max_anchor_files)) [
  | inl e ↦ rw e h
  | inr e ↦ rw e (
      watch-Sound (push_new files (repo_path raw)) raws
        (push_new-Sound files (repo_path raw) (repo_path-Inside raw) e h))
]

length-take_chars : (n : ℕ) (s : Text) → length (take_chars n s) ≤ n
length-take_chars zero s = omega arith
length-take_chars (suc n) [] = omega arith
length-take_chars (suc n) (c ∷ s) = let rest = length-take_chars n s in omega arith

-- A condition that is kept says something, in at most 300 characters.
abbrev pub Brief : Option Text → Type 0
Brief none = Unit
Brief (some h) = (is_empty h ≡ false) × (length h ≤ holds_while_max_chars)

taken_some : (s : Text) → is_empty s ≡ false → is_empty (take_chars holds_while_max_chars s) ≡ false
taken_some [] e = cc
taken_some (c ∷ s) e = refl

condition-Brief : (o : Option Text) → Brief (condition o)
condition-Brief none = tt
condition-Brief (some h) = elim (Bool-cases (is_empty (trim h))) [
  | inl e ↦ rw e tt
  | inr e ↦ rw e (taken_some (trim h) e, length-take_chars holds_while_max_chars (trim h))
]

abbrev pub Watches : FindingStatus → (sha : String) → Option Anchor → Type 0
Watches st sha none = status_eq st rejected ≡ false
Watches st sha (some a) =
    (status_eq st rejected ≡ true) × (a.sha ≡ sha) × Sound a.files × Brief a.holds_while

-- A verdict gets an anchor exactly when it rejects. The anchor stands at the given commit and
-- watches at most twelve files, none twice, each a path that stays inside the repository; its
-- condition, if it keeps one, is not empty and has at most 300 characters.
pub rejection_anchor-Watches :
    (st : FindingStatus) (sha : String) (file holds_while : Option Text) (depends_on : List Text)
    → Watches st sha (rejection_anchor st sha file holds_while depends_on)
unfolding rejection_anchor
rejection_anchor-Watches st sha file holds_while depends_on =
    elim (Bool-cases (status_eq st rejected)) [
      | inr e ↦ rw e e
      | inl e ↦ rw e (
        e,
        refl,
        watch-Sound [] (chain file depends_on) (tt, tt, omega arith),
        condition-Brief holds_while,
      )
    ]
