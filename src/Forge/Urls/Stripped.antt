-- ===== src/Forge/Urls/Stripped.antt =====
-- What is left of a path once its slashes and its `.git` endings are gone, for hunter-rs/src/forge.rs.
use bug_hunter.Prelude.{
  ℕ, zero, suc, ◌&&◌, some, [], ◌∷◌, ◌++◌, ◌==◌, ◌≡◌, ◌≢◌, refl, sym, subst, ◌∙◌, ap, inl, inr,
  Bool-cases, arith, ==_iff,
}
use bug_hunter.Prelude.Tables.{All, last?}
use bug_hunter.Prelude.Texts.{Text, codes, onto, reverse, trim_end, kept_end}
use bug_hunter.Forge.Urls.{is_slash, trim_rev, trim_git, trim_path}
use bug_hunter.Forge.Urls.Trims.{onto-++, reverse-reverse}

-- `.git`, a number of times.
abbrev pub gits : ℕ → Text
gits zero = []
gits (suc n) = gits n ++ codes ".git"

abbrev pub Slashes : Text → Type 0
Slashes t = All (λ c. c ≡ b'/') t

-- The path is the text, then `.git` any number of times, then slashes, all of them taken off.
abbrev pub Stripped : (path left : Text) → Type 0
Stripped path left =
    (n : ℕ) × (slashes : Text) × Slashes slashes
    × (path ≡ (left ++ gits n) ++ slashes)
    × (last? (left ++ gits n) ≢ some b'/')
    × ((r : Text) → left ≢ r ++ codes ".git")

abbrev Shortened : (s u : Text) → Type 0
Shortened s u = (t : Text) × Slashes t × (s ≡ u ++ t) × (last? u ≢ some b'/')

kept_end-Shortened :
    (c : ℕ) (s u : Text) → Shortened s u → Shortened (c ∷ s) (kept_end is_slash c u)
kept_end-Shortened c s [] (t, all, eq, never) = elim (Bool-cases (is_slash c)) [
  | inl e ↦ rw e (c ∷ s, ((==_iff c b'/').0 e, subst Slashes (sym eq) all), refl, λ q. cc)
  | inr e ↦ rw e (t, all, ap (λ r. c ∷ r) eq, λ q. ground arith)
]
kept_end-Shortened c s (d ∷ u) (t, all, eq, never) = (t, all, ap (λ r. c ∷ r) eq, never)

trim_end-Shortened : (s : Text) → Shortened s (trim_end is_slash s)
trim_end-Shortened [] = ([], tt, refl, λ q. cc)
trim_end-Shortened (c ∷ s) = kept_end-Shortened c s (trim_end is_slash s) (trim_end-Shortened s)

-- The same on the reversed text.
abbrev tigs : ℕ → Text
tigs zero = []
tigs (suc n) = codes "tig." ++ tigs n

abbrev Bare : (s u : Text) → Type 0
Bare s u = (n : ℕ) × (s ≡ tigs n ++ u) × ((y : Text) → u ≢ codes "tig." ++ y)

trim_rev-Bare : (s : Text) → Bare s (trim_rev s)
trim_rev-Bare [] = (0, refl, λ y q. cc)
trim_rev-Bare (a ∷ []) = (0, refl, λ y q. cc)
trim_rev-Bare (a ∷ (b ∷ [])) = (0, refl, λ y q. cc)
trim_rev-Bare (a ∷ (b ∷ (c ∷ []))) = (0, refl, λ y q. cc)
trim_rev-Bare (a ∷ (b ∷ (c ∷ (d ∷ rest)))) =
    elim (Bool-cases (a == b't' && b == b'i' && c == b'g' && d == b'.')) [
      | inl e ↦
          let (n, eq, never) = trim_rev-Bare rest in
          let ending : (a ∷ (b ∷ (c ∷ (d ∷ rest)))) ≡ codes "tig." ++ rest = ground arith in
          rw e (suc n, ending ∙ ap (λ r. codes "tig." ++ r) eq, never)
      | inr e ↦ rw e (0, refl, λ y q. ground arith)
    ]

onto-app : (s y x : Text) → onto s (y ++ x) ≡ onto s y ++ x
onto-app [] y x = refl
onto-app (c ∷ s) y x = onto-app s (c ∷ y) x

reverse-tigs : (n : ℕ) → reverse (tigs n) ≡ gits n
reverse-tigs zero = refl
reverse-tigs (suc n) =
    onto-app (tigs n) [] (codes ".git") ∙ ap (λ r. r ++ codes ".git") (reverse-tigs n)

trim_git-Bare :
    (s : Text)
    → (n : ℕ) × (s ≡ trim_git s ++ gits n) × ((r : Text) → trim_git s ≢ r ++ codes ".git")
trim_git-Bare s =
    let (n, eq, never) = trim_rev-Bare (reverse s) in
    let w : Text = trim_rev (reverse s) in
    (
      n,
      sym (reverse-reverse s)
          ∙ ap reverse eq
          ∙ onto-++ (tigs n) w []
          ∙ ap (onto w) (reverse-tigs n)
          ∙ onto-app w [] (gits n),
      λ r q.
          never (reverse r) (sym (reverse-reverse w) ∙ ap reverse q ∙ onto-++ r (codes ".git") []),
    )

pub trim_path-Stripped : (path : Text) → Stripped path (trim_path path)
unfolding trim_path
trim_path-Stripped path =
    let (t, all, eq, never) = trim_end-Shortened path in
    let (n, joined, bare) = trim_git-Bare (trim_end is_slash path) in
    (n, t, all, eq ∙ ap (λ r. r ++ t) joined, subst (λ r. last? r ≢ some b'/') joined never, bare)
