-- ===== src/Forge/Urls/Trims.antt =====
-- Dropping slashes and `.git` from the end of a path, for hunter-rs/src/forge.rs.
use bug_hunter.Prelude.{◌&&◌, [], ◌∷◌, ◌++◌, ◌==◌, ◌≡◌, refl, ◌∙◌, ap, inl, inr, Bool-cases}
use bug_hunter.Prelude.Texts.{Text, codes, onto, reverse, trim_end, kept_end}
use bug_hunter.Forge.Urls.{is_slash, trim_rev, trim_git, trim_path}

onto-onto : (s t u : Text) → onto (onto s t) u ≡ onto t (s ++ u)
onto-onto [] t u = refl
onto-onto (c ∷ s) t u = onto-onto s (c ∷ t) u

pub onto-++ : (p q t : Text) → onto (p ++ q) t ≡ onto q (onto p t)
onto-++ [] q t = refl
onto-++ (c ∷ p) q t = onto-++ p q (c ∷ t)

++-nil : (s : Text) → s ++ [] ≡ s
++-nil [] = refl
++-nil (c ∷ s) = ap (λ t. c ∷ t) (++-nil s)

pub reverse-reverse : (s : Text) → reverse (reverse s) ≡ s
reverse-reverse s = onto-onto s [] [] ∙ ++-nil s

trim_rev_idem : (s : Text) → trim_rev (trim_rev s) ≡ trim_rev s
trim_rev_idem [] = refl
trim_rev_idem (a ∷ []) = refl
trim_rev_idem (a ∷ (b ∷ [])) = refl
trim_rev_idem (a ∷ (b ∷ (c ∷ []))) = refl
trim_rev_idem (a ∷ (b ∷ (c ∷ (d ∷ rest)))) =
    elim (Bool-cases (a == b't' && b == b'i' && c == b'g' && d == b'.')) [
      | inl e ↦ rw e (trim_rev_idem rest)
      | inr e ↦ rw (e, e) refl
    ]

-- Ending a path that has no `.git` at its end with one, and dropping that again.
trim_git_git : (s : Text) → trim_git (trim_git s ++ codes ".git") ≡ trim_git s
trim_git_git s =
    ap (λ r. reverse (trim_rev r)) (onto-++ (trim_git s) (codes ".git") [])
    ∙ ap (λ r. reverse (trim_rev r)) (reverse-reverse (trim_rev (reverse s)))
    ∙ ap reverse (trim_rev_idem (reverse s))

trim_end_git : (s : Text) → trim_end is_slash (s ++ codes ".git") ≡ s ++ codes ".git"
trim_end_git [] = refl
trim_end_git (c ∷ []) = refl
trim_end_git (c ∷ (d ∷ s)) = ap (kept_end is_slash c) (trim_end_git (d ∷ s))

pub trim_path_git : (path : Text) → trim_path (trim_path path ++ codes ".git") ≡ trim_path path
unfolding trim_path
trim_path_git path =
    ap trim_git (trim_end_git (trim_path path)) ∙ trim_git_git (trim_end is_slash path)
