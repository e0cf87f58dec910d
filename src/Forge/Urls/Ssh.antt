-- ===== src/Forge/Urls/Ssh.antt =====
-- The rewriting of a web URL to the scp-like form, of hunter-rs/src/forge.rs.
use bug_hunter.Prelude.{
  Bool, true, false, if◌then◌else◌, Option, none, some, [], ◌∷◌, ◌++◌, ◌≡◌, refl, sym, subst, ◌⊎◌,
  inl, inr, Bool-cases,
}
use bug_hunter.Prelude.Texts.{Text, codes, is_empty}
use bug_hunter.Forge.Urls.{
  ForgeName, github, gitlab, is_web_scheme, url_host_path, trim_path, is_github_host, trimmed_parts,
  gitlab_host_path, github_scp, gitlab_scp, ssh_url, owner_repo, detect_forge,
}
use bug_hunter.Forge.Urls.Stripped.{Stripped, trim_path-Stripped}
use bug_hunter.Forge.Urls.Parts.{ssh_url-SameParts}

abbrev pub Serves : ForgeName → (host : Text) → Type 0
Serves github host = is_github_host host ≡ true
Serves gitlab host = Unit

abbrev pub Foreign : ForgeName → (host : Text) → Type 0
Foreign github host = is_github_host host ≡ false
Foreign gitlab host = ⊥

-- A web URL of the forge that names a repository, and the scp-like URL of that repository.
abbrev pub Rewritten : ForgeName → (url other : Text) → Type 0
Rewritten f url other =
    (host : Text) × (path : Text) × (left : Text) × (is_web_scheme url ≡ true)
    × (url_host_path url ≡ some (host, path))
    × Serves f host
    × Stripped path left
    × (is_empty left ≡ false)
    × (other ≡ codes "git@" ++ (host ++ (b':' ∷ (left ++ codes ".git"))))

-- A URL that names no such repository.
abbrev pub NamesNone : ForgeName → (url : Text) → Type 0
NamesNone f url =
    (is_web_scheme url ≡ false)
    ⊎ (url_host_path url ≡ none)
    ⊎ ((host : Text) × (path : Text) × (url_host_path url ≡ some (host, path))
        × (Foreign f host ⊎ Stripped path []))

abbrev pub Pushed : ForgeName → (url other : Text) → Type 0
Pushed f url other = Rewritten f url other ⊎ (NamesNone f url × (other ≡ url))

abbrev pub SameRepo : ForgeName → (url other : Text) → Type 0
SameRepo f url other =
    Pushed f url other
    × (owner_repo f other ≡ owner_repo f url)
    × (detect_forge other ≡ detect_forge url)

nothing_left : (path : Text) → is_empty (trim_path path) ≡ true → Stripped path []
nothing_left path h = subst (Stripped path) (empty (trim_path path) h) (trim_path-Stripped path)
  where
    empty : (s : Text) → is_empty s ≡ true → s ≡ []
    empty [] e = refl
    empty (c ∷ s) e = cc

github_scp-Pushed :
    (url : Text) (o : Option (Text × Text))
    → is_web_scheme url ≡ true
    → url_host_path url ≡ o
    → Pushed github url (github_scp url o)
github_scp-Pushed url none w e = inr (inr (inl e), refl)
github_scp-Pushed url (some (host, path)) w e = elim (Bool-cases (is_github_host host)) [
  | inr foreign ↦ rw foreign (inr (inr (inr (host, path, e, inl foreign)), refl))
  | inl serves ↦ elim (Bool-cases (is_empty (trim_path path))) [
    | inl t ↦ rw (serves, t) (inr (inr (inr (host, path, e, inr (nothing_left path t))), refl))
    | inr t ↦
        rw (serves, t)
          (inl (host, path, trim_path path, w, e, serves, trim_path-Stripped path, t, refl))
  ]
]

gitlab_scp-Pushed :
    (url : Text) (o : Option (Text × Text))
    → is_web_scheme url ≡ true
    → url_host_path url ≡ o
    → Pushed gitlab url (gitlab_scp url (trimmed_parts o))
gitlab_scp-Pushed url none w e = inr (inr (inl e), refl)
gitlab_scp-Pushed url (some (host, path)) w e = elim (Bool-cases (is_empty (trim_path path))) [
  | inl t ↦ rw t (inr (inr (inr (host, path, e, inr (nothing_left path t))), refl))
  | inr t ↦ rw t (inl (host, path, trim_path path, w, e, tt, trim_path-Stripped path, t, refl))
]

ssh_url-Pushed : (f : ForgeName) (url : Text) → Pushed f url (ssh_url f url)
unfolding ssh_url gitlab_host_path
ssh_url-Pushed github url =
    let to : Bool → Text = λ b. if b then github_scp url (url_host_path url) else url in
    elim (Bool-cases (is_web_scheme url)) [
      | inl w ↦
          subst (λ b. Pushed github url (to b)) (sym w)
            (github_scp-Pushed url (url_host_path url) w refl)
      | inr n ↦ subst (λ b. Pushed github url (to b)) (sym n) (inr (inl n, refl))
    ]
ssh_url-Pushed gitlab url =
    let to : Bool → Text = λ b. if b then gitlab_scp url (gitlab_host_path url) else url in
    elim (Bool-cases (is_web_scheme url)) [
      | inl w ↦
          subst (λ b. Pushed gitlab url (to b)) (sym w)
            (gitlab_scp-Pushed url (url_host_path url) w refl)
      | inr n ↦ subst (λ b. Pushed gitlab url (to b)) (sym n) (inr (inl n, refl))
    ]

-- A web URL that names a repository on a host of the forge is pushed to as git@HOST:REPO.git, HOST
-- being its host and REPO its path without the slashes and then any `.git` at its end; any other URL
-- is pushed to as it stands. Either way the owner and the repository that are read from the URL, if
-- any, are the same as before, and so is the forge that it is detected to be of.
pub ssh_url-SameRepo : (f : ForgeName) (url : Text) → SameRepo f url (ssh_url f url)
ssh_url-SameRepo f url =
    (ssh_url-Pushed f url, (ssh_url-SameParts f url).0, (ssh_url-SameParts f url).1)
