-- ===== src/Forge/Urls/Parts.antt =====
-- What is read from a URL before and after its rewriting to the scp-like form, of
-- hunter-rs/src/forge.rs.
use bug_hunter.Prelude.{
  true, false, not, ◌&&◌, Option, none, some, [], ◌∷◌, ◌++◌, ◌≡◌, refl, sym, ◌∙◌, ap, arith, inl,
  inr, Bool-cases, Option-cases,
}
use bug_hunter.Prelude.Texts.{Text, codes, split_once, rsplit_once, is_empty}
use bug_hunter.Forge.Urls.{
  ForgeName, github, gitlab, is_colon, is_at, strip_scheme, strip_any_scheme, is_web_scheme,
  scp_parts, nonempty, without_user, host_of, url_host, path_of, host_path, url_host_path,
  trim_path, is_github_host, github_parts, github_owner_repo, trimmed_parts, gitlab_host_path,
  gitlab_parts, gitlab_owner_repo, scp_url, github_scp, gitlab_scp, ssh_url, owner_repo,
  detect_forge, forge_of_host,
}
use bug_hunter.Forge.Urls.Hosts.{Lacks, IsHost, host_of-IsHost}
use bug_hunter.Forge.Urls.Trims.{trim_path_git}

split_once-joined :
    (host path : Text)
    → Lacks is_colon host
    → split_once b':' (host ++ (b':' ∷ path)) ≡ some (host, path)
split_once-joined [] path h = refl
split_once-joined (c ∷ host) path h =
    let clean : is_colon c ≡ false = ground arith in
    rw (clean, split_once-joined host path (ground arith)) refl

rsplit_once-lacking : (s : Text) → Lacks is_at s → rsplit_once b'@' s ≡ none
rsplit_once-lacking [] h = refl
rsplit_once-lacking (c ∷ s) h =
    let clean : is_at c ≡ false = ground arith in
    rw (rsplit_once-lacking s (ground arith), clean) refl

scp_parts-scp_url :
    (host rest : Text)
    → IsHost host
    → scp_parts (codes "git@" ++ (host ++ (b':' ∷ rest))) ≡ some (codes "git@" ++ host, rest)
scp_parts-scp_url host rest (some_host, slash, at, colon) =
    rw (split_once-joined host rest colon, slash) refl

without_user-git : (host : Text) → Lacks is_at host → without_user (codes "git@" ++ host) ≡ host
without_user-git host h = rw (rsplit_once-lacking host h) refl

nonempty_git : (path : Text) → is_empty (path ++ codes ".git") ≡ false
nonempty_git [] = refl
nonempty_git (c ∷ path) = refl

url_host-scp_url : (host path : Text) → IsHost host → url_host (scp_url host path) ≡ some host
unfolding url_host
url_host-scp_url host path is =
    let (some_host, slash, at, colon) = is in
    ap (host_of none) (scp_parts-scp_url host (path ++ codes ".git") is)
    ∙ ap nonempty (without_user-git host at)
    ∙ rw some_host refl

url_host_path-scp_url :
    (host path : Text)
    → IsHost host
    → url_host_path (scp_url host path) ≡ some (host, path ++ codes ".git")
unfolding url_host_path
url_host_path-scp_url host path is =
    ap (λ h. host_path h (path_of none (scp_parts (scp_url host path))))
      (url_host-scp_url host path is)
    ∙ ap (λ p. host_path (some host) (path_of none p))
        (scp_parts-scp_url host (path ++ codes ".git") is)
    ∙ rw (nonempty_git path) refl

web-rest :
    (url : Text) → is_web_scheme url ≡ true → (rest : Text) × (strip_any_scheme url ≡ some rest)
unfolding is_web_scheme strip_any_scheme
web-rest url w = elim (Option-cases (strip_scheme url (codes "https"))) [
  | inr (rest, e) ↦ (rest, rw e refl)
  | inl n ↦ elim (Option-cases (strip_scheme url (codes "http"))) [
    | inr (rest, e) ↦ (rest, rw (n, e) refl)
    | inl m ↦ absurd (ground arith)
  ]
]

host_path-host :
    (h p : Option Text) (host path : Text) → host_path h p ≡ some (host, path) → (h ≡ some host)
host_path-host none p host path e = cc
host_path-host (some h) none host path e = cc
host_path-host (some h) (some p) host path e = ground arith

-- The host that a web URL is read to have.
web-IsHost :
    (url host path : Text)
    → is_web_scheme url ≡ true
    → url_host_path url ≡ some (host, path)
    → IsHost host × (url_host url ≡ some host)
unfolding url_host_path url_host
web-IsHost url host path w e =
    let read = host_path-host _ _ host path e in
    let (rest, q) = web-rest url w in
    let from : host_of (some rest) (scp_parts url) ≡ some host =
      ap (λ o. host_of o (scp_parts url)) (sym q) ∙ read in
    (host_of-IsHost rest (scp_parts url) host from, read)

detect_forge-scp_url :
    (url host path : Text)
    → IsHost host
    → url_host url ≡ some host
    → detect_forge (scp_url host path) ≡ detect_forge url
unfolding detect_forge
detect_forge-scp_url url host path is e = ap forge_of_host (url_host-scp_url host path is ∙ sym e)

abbrev pub SameParts : ForgeName → (url other : Text) → Type 0
SameParts f url other =
    (owner_repo f other ≡ owner_repo f url) × (detect_forge other ≡ detect_forge url)

github_parts-trimmed :
    (host path : Text)
    → github_parts (some (host, trim_path path ++ codes ".git")) ≡ github_parts (some (host, path))
github_parts-trimmed host path = rw (trim_path_git path) refl

trimmed_parts-trimmed :
    (host path : Text)
    → trimmed_parts (some (host, trim_path path ++ codes ".git"))
      ≡ trimmed_parts (some (host, path))
trimmed_parts-trimmed host path = rw (trim_path_git path) refl

github_scp-SameParts :
    (url host path : Text)
    → is_web_scheme url ≡ true
    → url_host_path url ≡ some (host, path)
    → SameParts github url (scp_url host (trim_path path))
unfolding owner_repo github_owner_repo
github_scp-SameParts url host path w e =
    let (is, read) = web-IsHost url host path w e in
    (
      ap github_parts (url_host_path-scp_url host (trim_path path) is)
          ∙ github_parts-trimmed host path
          ∙ ap github_parts (sym e),
      detect_forge-scp_url url host (trim_path path) is read,
    )

gitlab_scp-SameParts :
    (url host path : Text)
    → is_web_scheme url ≡ true
    → url_host_path url ≡ some (host, path)
    → SameParts gitlab url (scp_url host (trim_path path))
unfolding owner_repo gitlab_owner_repo gitlab_host_path
gitlab_scp-SameParts url host path w e =
    let (is, read) = web-IsHost url host path w e in
    (
      ap (λ o. gitlab_parts (trimmed_parts o)) (url_host_path-scp_url host (trim_path path) is)
          ∙ ap gitlab_parts (trimmed_parts-trimmed host path)
          ∙ ap (λ o. gitlab_parts (trimmed_parts o)) (sym e),
      detect_forge-scp_url url host (trim_path path) is read,
    )

github_scp-same :
    (url : Text) (o : Option (Text × Text))
    → is_web_scheme url ≡ true
    → url_host_path url ≡ o
    → SameParts github url (github_scp url o)
github_scp-same url none w e = (refl, refl)
github_scp-same url (some (host, path)) w e =
    elim (Bool-cases (is_github_host host && not (is_empty (trim_path path)))) [
      | inl t ↦ rw t (github_scp-SameParts url host path w e)
      | inr t ↦ rw t (refl, refl)
    ]

gitlab_scp-same :
    (url : Text) (o : Option (Text × Text))
    → is_web_scheme url ≡ true
    → url_host_path url ≡ o
    → SameParts gitlab url (gitlab_scp url (trimmed_parts o))
gitlab_scp-same url none w e = (refl, refl)
gitlab_scp-same url (some (host, path)) w e = elim (Bool-cases (is_empty (trim_path path))) [
  | inl t ↦ rw t (refl, refl)
  | inr t ↦ rw t (gitlab_scp-SameParts url host path w e)
]

pub ssh_url-SameParts : (f : ForgeName) (url : Text) → SameParts f url (ssh_url f url)
unfolding ssh_url gitlab_host_path
ssh_url-SameParts github url = elim (Bool-cases (is_web_scheme url)) [
  | inl w ↦ rw w (github_scp-same url (url_host_path url) w refl)
  | inr n ↦ rw n (refl, refl)
]
ssh_url-SameParts gitlab url = elim (Bool-cases (is_web_scheme url)) [
  | inl w ↦ rw w (gitlab_scp-same url (url_host_path url) w refl)
  | inr n ↦ rw n (refl, refl)
]
