-- ===== src/Forge/Urls/Hosts.antt =====
-- What a host that hunter-rs/src/forge.rs reads from a URL cannot contain.
use bug_hunter.Prelude.{
  ℕ, Bool, false, Option, none, some, List, [], ◌∷◌, ◌≡◌, refl, subst, arith, inl, inr, Bool-cases,
  Option-cases,
}
use bug_hunter.Prelude.Texts.{
  Text, any_char, split, first_part, cons_part, split_once, rsplit_once, is_empty,
}
use bug_hunter.Forge.Urls.{is_slash, is_colon, is_at, without_user, without_port, host_of}

abbrev pub Lacks : (ℕ → Bool) → Text → Type 0
Lacks p s = any_char p s ≡ false

cons_part-Lacks :
    (p : ℕ → Bool) (c : ℕ) (ps : List Text)
    → p c ≡ false
    → Lacks p (first_part ps)
    → Lacks p (first_part (cons_part c ps))
cons_part-Lacks p c [] h k = ground arith
cons_part-Lacks p c (q ∷ ps) h k = ground arith

first_part-Lacks : (s : Text) → Lacks is_slash (first_part (split b'/' s))
first_part-Lacks [] = refl
first_part-Lacks (c ∷ s) = elim (Bool-cases (is_slash c)) [
  | inl e ↦ rw e refl
  | inr e ↦ rw e (cons_part-Lacks is_slash c (split b'/' s) e (first_part-Lacks s))
]

-- The part before the first colon has none, and lacks what the whole lacks.
split_once-before :
    (p : ℕ → Bool) (s a b : Text)
    → split_once b':' s ≡ some (a, b)
    → Lacks is_colon a × (Lacks p s → Lacks p a)
split_once-before p [] a b e = cc
split_once-before p (c ∷ s) a b e = elim (Bool-cases (is_colon c)) [
  | inl t ↦
      let nothing : [] ≡ a = ground arith in
      subst (λ a. Lacks is_colon a × (Lacks p (c ∷ s) → Lacks p a)) nothing (refl, λ h. refl)
  | inr t ↦ elim (Option-cases (split_once b':' s)) [
    | inl n ↦ absurd (ground arith)
    | inr ((x, y), q) ↦
        let (clean, keeps) = split_once-before p s x y q in
        let same : c ∷ x ≡ a = ground arith in
        subst (λ a. Lacks is_colon a × (Lacks p (c ∷ s) → Lacks p a)) same
          (ground arith, λ h. ground arith)
  ]
]

split_once-none : (s : Text) → split_once b':' s ≡ none → Lacks is_colon s
split_once-none [] e = refl
split_once-none (c ∷ s) e = elim (Bool-cases (is_colon c)) [
  | inl t ↦ absurd (ground arith)
  | inr t ↦ elim (Option-cases (split_once b':' s)) [
    | inl n ↦ rw t (split_once-none s n)
    | inr ((x, y), q) ↦ absurd (ground arith)
  ]
]

rsplit_once-none : (s : Text) → rsplit_once b'@' s ≡ none → Lacks is_at s
rsplit_once-none [] e = refl
rsplit_once-none (c ∷ s) e = elim (Option-cases (rsplit_once b'@' s)) [
  | inr ((x, y), q) ↦ absurd (ground arith)
  | inl n ↦ elim (Bool-cases (is_at c)) [
    | inl t ↦ absurd (ground arith)
    | inr t ↦ rw t (rsplit_once-none s n)
  ]
]

-- The part after the last at sign has none, and lacks what the whole lacks.
rsplit_once-after :
    (p : ℕ → Bool) (s a b : Text)
    → rsplit_once b'@' s ≡ some (a, b)
    → Lacks is_at b × (Lacks p s → Lacks p b)
rsplit_once-after p [] a b e = cc
rsplit_once-after p (c ∷ s) a b e = elim (Option-cases (rsplit_once b'@' s)) [
  | inr ((x, y), q) ↦
      let (clean, keeps) = rsplit_once-after p s x y q in
      let same : y ≡ b = ground arith in
      subst (λ b. Lacks is_at b × (Lacks p (c ∷ s) → Lacks p b)) same
        (clean, λ h. keeps (ground arith))
  | inl n ↦ elim (Bool-cases (is_at c)) [
    | inl t ↦
        let same : s ≡ b = ground arith in
        subst (λ b. Lacks is_at b × (Lacks p (c ∷ s) → Lacks p b)) same
          (rsplit_once-none s n, λ h. ground arith)
    | inr t ↦ absurd (ground arith)
  ]
]

-- A host as it is read from a URL with a scheme.
abbrev pub IsHost : Text → Type 0
IsHost host = (is_empty host ≡ false) × Lacks is_slash host × Lacks is_at host × Lacks is_colon host

without_user-Lacks :
    (s : Text) → Lacks is_slash s → Lacks is_slash (without_user s) × Lacks is_at (without_user s)
without_user-Lacks s h = elim (Option-cases (rsplit_once b'@' s)) [
  | inl n ↦ rw n (h, rsplit_once-none s n)
  | inr ((a, b), e) ↦
      let (clean, keeps) = rsplit_once-after is_slash s a b e in rw e (keeps h, clean)
]

without_port-Lacks :
    (s : Text)
    → Lacks is_slash s
    → Lacks is_at s
    → Lacks is_slash (without_port s)
      × Lacks is_at (without_port s)
      × Lacks is_colon (without_port s)
without_port-Lacks s h k = elim (Option-cases (split_once b':' s)) [
  | inl n ↦ rw n (h, k, split_once-none s n)
  | inr ((a, b), e) ↦
      let (clean, keeps) = split_once-before is_slash s a b e in
      let (same, keeps_at) = split_once-before is_at s a b e in rw e (keeps h, keeps_at k, clean)
]

pub host_of-IsHost :
    (rest : Text) (scp : Option (Text × Text)) (host : Text)
    → host_of (some rest) scp ≡ some host
    → IsHost host
host_of-IsHost rest scp host e =
    let part = first_part (split b'/' rest) in
    let (slashes, ats) = without_user-Lacks part (first_part-Lacks rest) in
    let (slash, at, colon) = without_port-Lacks (without_user part) slashes ats in
    elim (Bool-cases (is_empty (without_port (without_user part)))) [
      | inl t ↦ absurd (ground arith)
      | inr t ↦
          let same : without_port (without_user part) ≡ host = ground arith in
          subst IsHost same (t, slash, at, colon)
    ]
