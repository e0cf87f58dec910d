-- ===== src/Forge/Screen.antt =====
-- `screen_feedback` of hunter-rs/src/forge.rs. What the forge answers is given by two functions,
-- `none` for an error; the errors' texts are left out.
pub mod Plain
pub mod Vouched
use bug_hunter.Prelude.{
  Bool, true, false, ◌&&◌, String, Option, none, some, List, [], ◌∷◌, map, if◌then◌else◌,
}
use bug_hunter.Prelude.Texts.{Text, codes, text_eq, to_lower, trim, is_empty, strip_suffix}
use bug_hunter.Forge.States.{GhComment, GhReview, PrView, Voice, maintainer, bot}

-- A chain of fallible steps.
abbrev pub and_then : {A B : Type 0} → Option A → (A → Option B) → Option B
and_then none f = none
and_then (some a) f = f a

unfoldable pub normalize_login : Text → Text
normalize_login login =
    let low = map to_lower (trim login) in
    elim (strip_suffix low (codes "[bot]")) [ none ↦ low | some bare ↦ bare ]

-- `ReviewBots::new` and `ReviewBots::contains`.
abbrev pub review_bots : List Text → List Text
review_bots logins = map normalize_login logins

abbrev pub holds : List Text → Text → Bool
holds [] login = false
holds (b ∷ bs) login = let rest = holds bs login in if text_eq b login then true else rest

unfoldable pub bots_contain : List Text → Text → Bool
unfolding normalize_login
bots_contain bots login = holds bots (normalize_login login)

-- `push_access`: what was answered for the logins asked.
abbrev pub Access : Type 0
Access = List (Text × Bool)

abbrev pub known : Text → Access → Option Bool
known login [] = none
known login ((asked, answer) ∷ rest) =
    let later = known login rest in if text_eq asked login then some answer else later

-- `a.login` of an author, unless it is empty.
abbrev pub login_of : Option Text → Option Text
login_of none = none
login_of (some []) = none
login_of (some (c ∷ s)) = some (c ∷ s)

-- What the screen sets the voice of.
pub record Item (A : Type 0) : Type 0 where
  pub id : A → String
  pub author : A → Option Text
  pub with_voice : Voice → A → A

abbrev pub comment_item : Item GhComment
comment_item = record {
  id = λ c. c.id;
  author = λ c. c.author;
  with_voice = λ v c. record c { voice = v };
}

abbrev pub review_item : Item GhReview
review_item = record {
  id = λ r. r.id;
  author = λ r. r.author;
  with_voice = λ v r. record r { voice = v };
}

module _ (bots : List Text) (is_bot : String → Text → Option Bool)
    (can_push : Text → Option Bool) where
  abbrev pub voiced : Bool → Option Voice
  voiced true = some maintainer
  voiced false = none

  -- Push access, from the answers so far or asked and remembered.
  abbrev pub push_access : Text → Access → Option Bool → Option (Access × Bool)
  push_access login access (some answer) = some (access, answer)
  push_access login access none = and_then (can_push login) (λ a. some ((login, a) ∷ access, a))

  abbrev pub screened : Text → Access → Option (Access × Option Voice)
  screened login access =
      and_then (push_access login access (known login access))
        (λ (kept, may). some (kept, voiced may))

  abbrev pub confirmed : Text → Access → Bool → Option (Access × Option Voice)
  confirmed login access true = some (access, some bot)
  confirmed login access false = screened login access

  abbrev pub listed : String → Text → Access → Bool → Option (Access × Option Voice)
  listed id login access true = and_then (is_bot id login) (confirmed login access)
  listed id login access false = screened login access

  abbrev pub voice_of_login : String → Access → Option Text → Option (Access × Option Voice)
  voice_of_login id access none = some (access, none)
  voice_of_login id access (some login) = listed id login access (bots_contain bots login)

  unfoldable pub voice_of : String → Option Text → Access → Option (Access × Option Voice)
  unfolding bots_contain
  voice_of id author access = voice_of_login id access (login_of author)

  abbrev pub keep : {A : Type 0} → Item A → A → Option Voice → List A → List A
  keep it x none xs = xs
  keep it x (some v) xs = it.with_voice v x ∷ xs

  -- One of the two loops.
  abbrev pub screen_items : {A : Type 0} → Item A → List A → Access → Option (Access × List A)
  screen_items it [] access = some (access, [])
  screen_items it (x ∷ xs) access =
      and_then (voice_of (it.id x) (it.author x) access) (λ (next, voice).
        and_then (screen_items it xs next) (λ (last, rest). some (last, keep it x voice rest)))

  unfoldable pub screen_feedback : PrView → Option PrView
  unfolding voice_of
  screen_feedback pr = and_then (screen_items comment_item pr.comments []) (λ (access, comments).
      and_then (screen_items review_item pr.reviews access)
        (λ (last, reviews). some (record pr { comments = comments; reviews = reviews })))
