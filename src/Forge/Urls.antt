-- ===== src/Forge/Urls.antt =====
-- How hunter-rs/src/forge.rs takes the URL of a repository apart.
pub mod Hosts
pub mod Trims
pub mod Stripped
pub mod Parts
pub mod Ssh
use bug_hunter.Prelude.{
  ℕ, zero, suc, ◌+◌, ◌*◌, Bool, true, false, not, ◌&&◌, ◌||◌, Option, none, some, List, [], ◌∷◌,
  ◌++◌, map, ◌==◌, leb, if◌then◌else◌,
}
use bug_hunter.Prelude.Texts.{
  Text, codes, text_eq, is_empty, to_lower, is_digit, any_char, trim_end, strip_prefix, reverse,
  split_once, rsplit_once, split, first_part,
}

pub data ForgeName : Type 0 where
  github : ForgeName
  gitlab : ForgeName

abbrev pub is_slash : ℕ → Bool
is_slash c = c == b'/'

abbrev pub is_colon : ℕ → Bool
is_colon c = c == b':'

abbrev pub is_at : ℕ → Bool
is_at c = c == b'@'

-- The rest of a text after a prefix in any case.
abbrev pub strip_ignore_case : Text → Text → Option Text
strip_ignore_case s [] = some s
strip_ignore_case [] (c ∷ p) = none
strip_ignore_case (d ∷ s) (c ∷ p) =
    let rest = strip_ignore_case s p in if to_lower d == to_lower c then rest else none

abbrev pub eq_ignore_case : Text → Text → Bool
eq_ignore_case s t = text_eq (map to_lower s) (map to_lower t)

unfoldable pub strip_scheme : Text → (scheme : Text) → Option Text
strip_scheme url scheme = elim (strip_ignore_case url scheme) [
  | none ↦ none
  | some rest ↦ strip_prefix rest (codes "://")
]

abbrev pub first_of : Option Text → Option Text → Option Text
first_of none b = b
first_of (some a) b = some a

unfoldable pub strip_any_scheme : Text → Option Text
unfolding strip_scheme
strip_any_scheme url =
    first_of (strip_scheme url (codes "https"))
      (first_of (strip_scheme url (codes "http")) (strip_scheme url (codes "ssh")))

abbrev pub is_given : {A : Type 0} → Option A → Bool
is_given none = false
is_given (some a) = true

unfoldable pub is_web_scheme : Text → Bool
unfolding strip_scheme
is_web_scheme url =
    is_given (strip_scheme url (codes "https")) || is_given (strip_scheme url (codes "http"))

-- `split_once(':')` whose first part has no slash: the scp-like form.
abbrev pub no_slash : Option (Text × Text) → Option (Text × Text)
no_slash none = none
no_slash (some (a, b)) = if any_char is_slash a then none else some (a, b)

abbrev pub scp_parts : Text → Option (Text × Text)
scp_parts url = no_slash (split_once b':' url)

abbrev pub second_or : Text → Option (Text × Text) → Text
second_or s none = s
second_or s (some (a, b)) = b

abbrev pub first_or : Text → Option (Text × Text) → Text
first_or s none = s
first_or s (some (a, b)) = a

abbrev pub without_user : Text → Text
without_user authority = second_or authority (rsplit_once b'@' authority)

abbrev pub without_port : Text → Text
without_port host = first_or host (split_once b':' host)

abbrev pub nonempty : Text → Option Text
nonempty s = if is_empty s then none else some s

abbrev pub host_of : Option Text → Option (Text × Text) → Option Text
host_of (some rest) scp = nonempty (without_port (without_user (first_part (split b'/' rest))))
host_of none none = none
host_of none (some (authority, path)) = nonempty (without_user authority)

unfoldable pub url_host : Text → Option Text
unfolding strip_any_scheme
url_host url = host_of (strip_any_scheme url) (scp_parts url)

abbrev pub second : Option (Text × Text) → Option Text
second none = none
second (some (a, b)) = some b

abbrev pub path_of : Option Text → Option (Text × Text) → Option Text
path_of (some rest) scp = second (split_once b'/' rest)
path_of none scp = second scp

abbrev pub host_path : Option Text → Option Text → Option (Text × Text)
host_path none path = none
host_path (some host) none = none
host_path (some host) (some path) = if is_empty path then none else some (host, path)

unfoldable pub url_host_path : Text → Option (Text × Text)
unfolding strip_any_scheme url_host
url_host_path url = host_path (url_host url) (path_of (strip_any_scheme url) (scp_parts url))

-- `trim_end_matches(".git")`, on the reversed text.
abbrev pub trim_rev : Text → Text
trim_rev [] = []
trim_rev (a ∷ []) = a ∷ []
trim_rev (a ∷ (b ∷ [])) = a ∷ (b ∷ [])
trim_rev (a ∷ (b ∷ (c ∷ []))) = a ∷ (b ∷ (c ∷ []))
trim_rev (a ∷ (b ∷ (c ∷ (d ∷ rest)))) =
    let trimmed = trim_rev rest in
    if a == b't' && b == b'i' && c == b'g' && d == b'.' then trimmed else a ∷ (b ∷ (c ∷ (d ∷ rest)))

abbrev pub trim_git : Text → Text
trim_git s = reverse (trim_rev (reverse s))

unfoldable pub trim_path : Text → Text
trim_path path = trim_git (trim_end is_slash path)

abbrev pub last_two : List Text → List Text
last_two [] = []
last_two (a ∷ []) = a ∷ []
last_two (a ∷ (b ∷ [])) = a ∷ (b ∷ [])
last_two (a ∷ (b ∷ (c ∷ rest))) = last_two (b ∷ (c ∷ rest))

abbrev pub are_ghe_com : List Text → Bool
are_ghe_com (a ∷ (b ∷ [])) = text_eq a (codes "ghe") && text_eq b (codes "com")
are_ghe_com _ = false

abbrev pub has_label : Text → List Text → Bool
has_label l [] = false
has_label l (p ∷ ps) = text_eq p l || has_label l ps

unfoldable pub is_github_host : Text → Bool
is_github_host host =
    let labels = split b'.' (map to_lower host) in
    has_label (codes "github") labels || are_ghe_com (last_two labels)

-- `[HOST/]OWNER/REPO`: a host other than github.com goes with the owner.
abbrev pub with_host : (host owner : Text) → Text
with_host host owner =
    if eq_ignore_case host (codes "github.com") then owner else map to_lower host ++ (b'/' ∷ owner)

abbrev pub both_given : (Text → Text) → Option (Text × Text) → Option (Text × Text)
both_given f none = none
both_given f (some (owner, repo)) =
    if is_empty owner || is_empty repo then none else some (f owner, repo)

abbrev pub github_parts : Option (Text × Text) → Option (Text × Text)
github_parts none = none
github_parts (some (host, path)) =
    if is_github_host host
    then both_given (with_host host) (split_once b'/' (trim_path path))
    else none

unfoldable pub github_owner_repo : Text → Option (Text × Text)
unfolding url_host_path trim_path
github_owner_repo url = github_parts (url_host_path url)

abbrev pub trimmed_parts : Option (Text × Text) → Option (Text × Text)
trimmed_parts none = none
trimmed_parts (some (host, path)) =
    if is_empty (trim_path path) then none else some (host, trim_path path)

unfoldable pub gitlab_host_path : Text → Option (Text × Text)
unfolding url_host_path trim_path
gitlab_host_path url = trimmed_parts (url_host_path url)

abbrev pub gitlab_parts : Option (Text × Text) → Option (Text × Text)
gitlab_parts none = none
gitlab_parts (some (host, path)) = both_given (λ prefix. prefix) (rsplit_once b'/' path)

unfoldable pub gitlab_owner_repo : Text → Option (Text × Text)
unfolding gitlab_host_path
gitlab_owner_repo url = gitlab_parts (gitlab_host_path url)

-- `git@<host>:<path>.git`.
abbrev pub scp_url : (host path : Text) → Text
scp_url host path = codes "git@" ++ (host ++ (b':' ∷ (path ++ codes ".git")))

abbrev pub github_scp : Text → Option (Text × Text) → Text
github_scp url none = url
github_scp url (some (host, path)) =
    if is_github_host host && not (is_empty (trim_path path))
    then scp_url host (trim_path path)
    else url

abbrev pub gitlab_scp : Text → Option (Text × Text) → Text
gitlab_scp url none = url
gitlab_scp url (some (host, path)) = scp_url host path

unfoldable pub ssh_url : ForgeName → Text → Text
unfolding is_web_scheme url_host_path gitlab_host_path
ssh_url github url = if is_web_scheme url then github_scp url (url_host_path url) else url
ssh_url gitlab url = if is_web_scheme url then gitlab_scp url (gitlab_host_path url) else url

unfoldable pub owner_repo : ForgeName → Text → Option (Text × Text)
unfolding github_owner_repo gitlab_owner_repo
owner_repo github url = github_owner_repo url
owner_repo gitlab url = gitlab_owner_repo url

abbrev pub forge_of_host : Option Text → ForgeName
forge_of_host none = gitlab
forge_of_host (some host) = if is_github_host host then github else gitlab

-- The host that `unwrap_or_default` gives is empty, and so no GitHub host.
unfoldable pub detect_forge : Text → ForgeName
unfolding url_host
detect_forge url = forge_of_host (url_host url)
