-- ===== src/Tests/Forges.antt =====
-- The screen of feedback, the URLs and the sync at concrete inputs.
use bug_hunter.Prelude.{
  ℕ, Bool, true, false, ◌&&◌, String, Option, none, some, List, [], ◌∷◌, ◌≡◌, ◌≤◌, ◌↔◌, refl,
  str_eq, if◌then◌else◌,
}
use bug_hunter.Prelude.Tables.{All, count_where}
use bug_hunter.Prelude.Texts.{Text, codes, text_eq}
use bug_hunter.Domain.Status.{pr_open, status_eq}
use bug_hunter.Store.Rows.{Finding, Store, Repo, is_some}
use bug_hunter.Store.Findings.{get_finding}
use bug_hunter.Forge.States.{
  PrView, GhComment, maintainer, bot, closed, opened, conflicting, undecided,
}
use bug_hunter.Forge.Screen.{
  screen_feedback, comment_item, review_item, bots_contain, normalize_login, voice_of,
}
use bug_hunter.Forge.Screen.Plain.{plain_feedback, screen_feedback-plain}
use bug_hunter.Forge.Screen.Vouched.{Passed, screen_feedback-Passed}
use bug_hunter.Forge.Urls.Ssh.{SameRepo, ssh_url-SameRepo}
use bug_hunter.Forge.Urls.{github, gitlab, ssh_url, is_web_scheme, url_host_path, url_host}
use bug_hunter.Forge.Urls.{strip_any_scheme, strip_scheme, is_github_host, trim_path}
use bug_hunter.Scheduler.Sync.{
  Seen, viewed, Faults, SyncResult, sync_one, sync_prs, sync_data, before, given_url,
}
use bug_hunter.Scheduler.Sync.Closing.{Left, sync_one-Left}
use bug_hunter.Scheduler.Sync.Attention.{Quiet, sync_data-Quiet, is_none}
use bug_hunter.Scheduler.Sync.Counts.{dealt_with, sync_prs-counts}
use bug_hunter.Tests.Samples.{a_finding, a_store}

abbrev said : String → Text → GhComment
said id login = record {
  id = id;
  author = some login;
  body = "please rename";
  created_at = 70;
  voice = maintainer;
}

abbrev a_pr : PrView
a_pr = record {
  state = opened;
  mergeable = conflicting;
  review_decision = undecided;
  head_ref = "fix";
  head_sha = "abc";
  updated_at = 60;
  status_check_rollup = [];
  comments = said "1" (codes "ann") ∷ said "2" (codes "CodeBot[bot]") ∷ said "3" (codes "eve") ∷ [];
  reviews = [];
}

abbrev bots : List Text
bots = codes "codebot" ∷ []

abbrev pushes : Text → Option Bool
pushes login = some (text_eq login (codes "ann"))

abbrev is_app : String → Text → Option Bool
is_app id login = some (str_eq id "2")

abbrev screened_pr : PrView
screened_pr = record a_pr {
  comments = said "1" (codes "ann") ∷ record (said "2" (codes "CodeBot[bot]")) { voice = bot } ∷ [];
}

screened_sample : screen_feedback bots is_app pushes a_pr ≡ some screened_pr
unfolding screen_feedback voice_of bots_contain normalize_login
screened_sample = refl

screen_feedback-plain_example :
    screen_feedback bots is_app pushes a_pr ≡ plain_feedback bots is_app pushes a_pr
screen_feedback-plain_example = screen_feedback-plain bots is_app pushes a_pr

screen_feedback-Passed_example :
    All (Passed bots is_app pushes comment_item a_pr.comments) screened_pr.comments
    × All (Passed bots is_app pushes review_item a_pr.reviews) screened_pr.reviews
    × (screened_pr ≡ record a_pr { comments = screened_pr.comments; reviews = screened_pr.reviews })
screen_feedback-Passed_example =
    screen_feedback-Passed bots is_app pushes a_pr screened_pr screened_sample

ssh_sample :
    ssh_url github (codes "HTTPS://me@github.com:443/acme/tool.git/")
    ≡ codes "git@github.com:acme/tool.git"
unfolding ssh_url is_web_scheme strip_scheme url_host_path url_host strip_any_scheme is_github_host
    trim_path
ssh_sample = refl

ssh_url-SameRepo_example :
    SameRepo gitlab
      (codes "https://git.acme.org/group/sub/tool")
      (ssh_url gitlab (codes "https://git.acme.org/group/sub/tool"))
ssh_url-SameRepo_example = ssh_url-SameRepo gitlab (codes "https://git.acme.org/group/sub/tool")

abbrev at_review : Store
at_review = record a_store {
  findings =
      record (a_finding 7 pr_open) { pr_url = some "https://github.com/acme/tool/pull/12" } ∷ [];
}

abbrev look : Repo → String → Seen
look repo url = viewed 12 (record a_pr { state = closed })

-- The verdict is not written.
abbrev verdict_fails : Faults
verdict_fails = record {
  set_status = false;
  mark_merged = false;
  mark_closed = false;
  set_verdict = true;
  sync_open = false;
}

abbrev nothing_yet : SyncResult
nothing_yet = record { synced = 0; merged = 0; closed = 0; attention = 0; errors = 0 }

abbrev count_text : ℕ → String
count_text n = "some"

abbrev reviewed : Finding
reviewed = record (a_finding 7 pr_open) { pr_url = some "https://github.com/acme/tool/pull/12" }

sync_one-Left_example :
    Left look reviewed at_review
      (sync_one count_text look reviewed verdict_fails 90 (nothing_yet, at_review)).1
unfolding get_finding
sync_one-Left_example =
    sync_one-Left count_text look 90 verdict_fails nothing_yet at_review reviewed
      (reviewed, refl, refl)

sync_data-Quiet_example :
    let d = sync_data count_text none 12 a_pr 90 in
    ((d.needs_attention ≡ none) ↔ Quiet none a_pr)
    × ((d.attention_since ≡ none) ↔ (d.needs_attention ≡ before none (λ p. p.needs_attention)))
    × ((if is_none (before none (λ p. p.last_engaged_activity_at)) then d.last_activity_at else 0)
        ≤ d.last_engaged_activity_at)
sync_data-Quiet_example = sync_data-Quiet count_text none 12 a_pr 90

sync_prs-counts_example :
    let r = (sync_prs count_text look (λ fid. verdict_fails) 90 at_review).0 in
    (dealt_with r
      ≡ count_where
          (λ f. status_eq f.status pr_open && is_some (given_url f.pr_url))
          at_review.findings)
    × (r.attention ≤ r.synced)
sync_prs-counts_example = sync_prs-counts count_text look (λ fid. verdict_fails) 90 at_review
