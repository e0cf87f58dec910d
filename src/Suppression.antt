-- ===== src/Suppression.antt =====
-- hunter-rs/src/suppression.rs: verdicts that hold while the code they were judged against stands.
-- What a worker writes is a list of code points; git is a function.
pub mod Watched
pub mod Lapsed
use bug_hunter.Prelude.{
  ℕ, zero, suc, Bool, true, false, not, ◌&&◌, ◌||◌, String, Option, none, some, List, [], ◌∷◌, ◌++◌,
  map, ◌==◌, if◌then◌else◌,
}
use bug_hunter.Prelude.Texts.{
  Text, codes, text_eq, is_empty, is_whitespace, is_digit, any_char, trim, trim_start, trim_end,
  starts_with, strip_prefix, split, rsplit_once, take_chars,
}
use bug_hunter.Domain.Status.{FindingStatus, rejected, is_suppressed, status_eq}
use bug_hunter.Store.Rows.{Finding, Repo, VerdictAnchor, Store, is_some}
use bug_hunter.Store.Findings.{get_finding, verdict_anchor, reopen_suppressed}
use bug_hunter.Store.Jobs.{get_repo_by_id, pinned_sha}

abbrev pub holds_while_max_chars : ℕ
holds_while_max_chars = 300

abbrev pub max_anchor_files : ℕ
max_anchor_files = 12

abbrev is_backtick : ℕ → Bool
is_backtick c = c == b'`'

-- A character of a location: `42`, `42-50`.
abbrev pub is_location : ℕ → Bool
is_location c = is_digit c || c == b'-'

abbrev pub all_location : Text → Bool
all_location [] = true
all_location (c ∷ s) = is_location c && all_location s

abbrev pub head_of : Text → Option (Text × Text) → Option Text
head_of path none = none
head_of path (some (head, tail)) =
    if is_empty tail || not (all_location tail) then none else some head

-- The loop that drops locations from the end; each drops a colon, so the text's length is fuel.
abbrev pub without_location : (fuel : Text) → Text → Text
without_location [] path = path
without_location (c ∷ fuel) path = elim (head_of path (rsplit_once b':' path)) [
  | none ↦ path
  | some head ↦ without_location fuel head
]

abbrev pub has_part : Text → List Text → Bool
has_part p [] = false
has_part p (q ∷ qs) = text_eq q p || has_part p qs

unfoldable pub is_outside : Text → Bool
is_outside path =
    is_empty path
    || starts_with path (codes "/")
    || any_char is_whitespace path
    || has_part (codes "..") (split b'/' path)

abbrev pub or_same : Text → Option Text → Text
or_same path none = path
or_same path (some rest) = rest

unfoldable pub repo_path : Text → Option Text
unfolding is_outside
repo_path raw =
    let bare = trim (trim_end is_backtick (trim_start is_backtick (trim raw))) in
    let located = without_location bare bare in
    let path = or_same located (strip_prefix located (codes "./")) in
    if is_outside path then none else some path

-- `files` and `holds_while` are texts here.
pub record Anchor : Type 0 where
  pub sha : String
  pub files : List Text
  pub holds_while : Option Text

abbrev pub count_files : List Text → ℕ
count_files [] = 0
count_files (f ∷ fs) = suc (count_files fs)

abbrev pub push_new : List Text → Option Text → List Text
push_new files none = files
push_new files (some path) = if has_part path files then files else files ++ (path ∷ [])

-- The loop over the files, which ends at the limit.
abbrev pub watch : List Text → List Text → List Text
watch files [] = files
watch files (raw ∷ rest) =
    let more = watch (push_new files (repo_path raw)) rest in
    if count_files files == max_anchor_files then files else more

abbrev pub chain : Option Text → List Text → List Text
chain none rest = rest
chain (some file) rest = file ∷ rest

-- A condition, trimmed and cut; an empty one is none.
abbrev pub condition : Option Text → Option Text
condition none = none
condition (some h) =
    if is_empty (trim h) then none else some (take_chars holds_while_max_chars (trim h))

unfoldable pub rejection_anchor :
    FindingStatus
    → (sha : String) → (file : Option Text) → (holds_while : Option Text) → (depends_on : List Text)
    → Option Anchor
unfolding repo_path
rejection_anchor st sha file holds_while depends_on =
    if status_eq st rejected
    then some (record {
      sha = sha;
      files = watch [] (chain file depends_on);
      holds_while = condition holds_while;
    })
    else none

-- `Changed` of hunter-rs/src/playbooks.rs.
pub data Changed : Type 0 where
  unknown_since : (since : Text) → Changed
  changed_files : (since : Text) (files : List Text) → Changed

abbrev pub nonempty_lines : List Text → List Text
nonempty_lines [] = []
nonempty_lines (l ∷ ls) =
    let rest = nonempty_lines ls in if is_empty (trim l) then rest else trim l ∷ rest

abbrev pub any_files : Text → List Text → Option Changed
any_files since [] = none
any_files since (f ∷ fs) = some (changed_files since (f ∷ fs))

abbrev pub diffed : Text → ℕ × Text → Option Changed
diffed since (rc, out) =
    if rc == 0
    then any_files since (nonempty_lines (split b'\n' out))
    else some (unknown_since since)

-- `git diff --name-only` in a clone: its exit code and output.
abbrev pub Git : Type 0
Git = (clone : String) → (from at : String) → (files : List String) → ℕ × Text

abbrev pub watching : List String → Option Changed → Option Changed
watching [] o = none
watching (f ∷ fs) o = o

unfoldable pub changed_since :
    Git → (clone : String) → VerdictAnchor → (at : String) → Option Changed
changed_since git clone anchor at =
    watching anchor.files
      (diffed (take_chars 12 (codes anchor.sha)) (git clone anchor.sha at anchor.files))

abbrev pub and_then : {A B : Type 0} → Option A → (A → Option B) → Option B
and_then none f = none
and_then (some a) f = f a

-- What the reopening is decided from, if the finding's verdict has lapsed.
unfoldable pub lapse :
    Git → (repo_id fid : ℕ) → (job : Option ℕ) → Store → Option (Finding × VerdictAnchor × Changed)
unfolding get_finding verdict_anchor pinned_sha get_repo_by_id changed_since is_suppressed
lapse git repo_id fid job s = and_then job (λ id. and_then (get_finding fid s) (λ f.
    if not (is_suppressed f.status)
    then none
    else and_then (verdict_anchor fid s) (λ anchor. and_then (pinned_sha id s) (λ at.
      and_then (get_repo_by_id repo_id s) (λ repo.
        and_then (changed_since git repo.path anchor at) (λ change. some (f, anchor, change)))))))

abbrev pub reopen_lapsed :
    (fid : ℕ)
    → (summary : String) → (now : ℕ) → Option (Finding × VerdictAnchor × Changed)
    → Store
    → Bool × Store
reopen_lapsed fid summary now none s = (false, s)
reopen_lapsed fid summary now (some lapsed) s = reopen_suppressed fid summary now s

unfoldable pub reopen_if_changed :
    Git
    → (repo_id fid : ℕ) → (job : Option ℕ) → (summary : String) → (now : ℕ) → Store
    → Bool × Store
unfolding lapse reopen_suppressed
reopen_if_changed git repo_id fid job summary now s =
    reopen_lapsed fid summary now (lapse git repo_id fid job s) s
