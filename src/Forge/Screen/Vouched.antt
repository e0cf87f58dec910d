-- ===== src/Forge/Screen/Vouched.antt =====
-- Whose feedback gets through the screen of hunter-rs/src/forge.rs.
use bug_hunter.Prelude.{
  Bool, true, false, String, Option, none, some, List, [], ◌∷◌, ◌≡◌, ◌≢◌, refl, sym, ◌∙◌, subst,
  arith, inl, inr,
}
use bug_hunter.Prelude.Tables.{All, All-map}
use bug_hunter.Prelude.Members.{In}
use bug_hunter.Prelude.Texts.{Text}
use bug_hunter.Forge.States.{PrView, Voice, bot, maintainer}
use bug_hunter.Forge.Screen.{
  Item, and_then, bots_contain, voiced, keep, screen_feedback, comment_item, review_item,
}
use bug_hunter.Forge.Screen.Plain.{
  plain_voice, plain_listed, bot_or_push, push_voice, plain_items, plain_feedback,
  screen_feedback-plain,
}

and_then-some :
    {A B : Type 0} (o : Option A) (f : A → Option B) (b : B)
    → and_then o f ≡ some b
    → (a : A) × (o ≡ some a) × (f a ≡ some b)
and_then-some none f b e = cc
and_then-some (some a) f b e = (a, refl, e)

module _ (bots : List Text) (is_bot : String → Text → Option Bool)
    (can_push : Text → Option Bool) where
  -- The forge vouches for a login: as the account of a bot that is listed, or with push access.
  abbrev pub Vouches : (id : String) → Text → Voice → Type 0
  Vouches id login bot = (bots_contain bots login ≡ true) × (is_bot id login ≡ some true)
  Vouches id login maintainer = can_push login ≡ some true

  abbrev pub VouchedFor : (id : String) → (author : Option Text) → Voice → Type 0
  VouchedFor id author voice =
      (login : Text) × (author ≡ some login) × (login ≢ []) × Vouches id login voice

  abbrev Known : (id : String) → Text → Option Voice → Type 0
  Known id login none = Unit
  Known id login (some v) = Vouches id login v

  push_voice-Known :
      (id : String) (login : Text) (v : Option Voice)
      → push_voice bots is_bot can_push login ≡ some v
      → Known id login v
  push_voice-Known id login v e =
      let (may, asked, given) = and_then-some (can_push login) _ v e in of_answer may v asked given
    where
      of_answer :
          (may : Bool) (v : Option Voice)
          → can_push login ≡ some may
          → some (voiced bots is_bot can_push may) ≡ some v
          → Known id login v
      of_answer may none asked given = tt
      of_answer true (some maintainer) asked given = asked
      of_answer true (some bot) asked given = absurd (ground arith)
      of_answer false (some v) asked given = absurd (ground arith)

  listed-Known :
      (id : String) (login : Text) (b : Bool) (v : Option Voice)
      → bots_contain bots login ≡ b
      → plain_listed bots is_bot can_push id login b ≡ some v
      → Known id login v
  listed-Known id login false v c e = push_voice-Known id login v e
  listed-Known id login true v c e =
      let (is, asked, given) = and_then-some (is_bot id login) _ v e in of_answer is v asked given
    where
      of_answer :
          (is : Bool) (v : Option Voice)
          → is_bot id login ≡ some is
          → bot_or_push bots is_bot can_push login is ≡ some v
          → Known id login v
      of_answer is none asked given = tt
      of_answer true (some bot) asked given = (c, asked)
      of_answer true (some maintainer) asked given = absurd (ground arith)
      of_answer false (some v) asked given = push_voice-Known id login (some v) given

  voice-VouchedFor :
      (id : String) (author : Option Text) (voice : Voice)
      → plain_voice bots is_bot can_push id author ≡ some (some voice)
      → VouchedFor id author voice
  voice-VouchedFor id none voice e = absurd (ground arith)
  voice-VouchedFor id (some []) voice e = absurd (ground arith)
  voice-VouchedFor id (some (c ∷ s)) voice e = (
    c ∷ s,
    refl,
    (λ n. cc),
    listed-Known id (c ∷ s) (bots_contain bots (c ∷ s)) (some voice) refl e,
  )

  -- An item of the pull request with its voice set, for which the forge vouches.
  abbrev pub Passed : {A : Type 0} → Item A → List A → A → Type 0
  Passed {A} it xs y =
      (x : A) × (voice : Voice) × In x xs
      × (y ≡ it.with_voice voice x)
      × VouchedFor (it.id x) (it.author x) voice

  Passed-more :
      {A : Type 0} (it : Item A) (x : A) (xs ys : List A)
      → All (Passed it xs) ys
      → All (Passed it (x ∷ xs)) ys
  Passed-more it x xs ys h =
      All-map _ _ ys (λ y (z, voice, i, same, vouched). (z, voice, inr i, same, vouched)) h

  keep-Passed :
      {A : Type 0} (it : Item A) (x : A) (voice : Option Voice) (xs ys : List A)
      → plain_voice bots is_bot can_push (it.id x) (it.author x) ≡ some voice
      → All (Passed it xs) ys
      → All (Passed it (x ∷ xs)) (keep bots is_bot can_push it x voice ys)
  keep-Passed it x none xs ys e h = Passed-more it x xs ys h
  keep-Passed it x (some voice) xs ys e h = (
    (x, voice, inl refl, refl, voice-VouchedFor (it.id x) (it.author x) voice e),
    Passed-more it x xs ys h,
  )

  plain_items-Passed :
      {A : Type 0} (it : Item A) (xs ys : List A)
      → plain_items bots is_bot can_push it xs ≡ some ys
      → All (Passed it xs) ys
  plain_items-Passed it [] ys e =
      let none_kept : [] ≡ ys = ground arith in subst (All (Passed it [])) none_kept tt
  plain_items-Passed it (x ∷ xs) ys e =
      let (voice, read, then_all) =
        and_then-some (plain_voice bots is_bot can_push (it.id x) (it.author x)) _ ys e in
      let (rest, kept, put) =
        and_then-some (plain_items bots is_bot can_push it xs) _ ys then_all in
      let same : keep bots is_bot can_push it x voice rest ≡ ys = ground arith in
      subst (All (Passed it (x ∷ xs))) same
        (keep-Passed it x voice xs rest read (plain_items-Passed it xs rest kept))

  -- Every comment and review that passes the screen is one of the pull request's with its voice
  -- set, by an author with a login whom the forge vouches for: with the voice of a bot, an account
  -- on the operator's list that the forge confirms is a bot's; with a maintainer's, one that may
  -- push. Nothing else of the pull request is changed.
  pub screen_feedback-Passed :
      (pr out : PrView)
      → screen_feedback bots is_bot can_push pr ≡ some out
      → All (Passed comment_item pr.comments) out.comments
        × All (Passed review_item pr.reviews) out.reviews
        × (out ≡ record pr { comments = out.comments; reviews = out.reviews })
  screen_feedback-Passed pr out e =
      let plain : plain_feedback bots is_bot can_push pr ≡ some out =
        sym (screen_feedback-plain bots is_bot can_push pr) ∙ e in
      let (comments, kept, then_reviews) =
        and_then-some (plain_items bots is_bot can_push comment_item pr.comments) _ out plain in
      let (reviews, kept_reviews, put) =
        and_then-some (plain_items bots is_bot can_push review_item pr.reviews) _ out
          then_reviews in
      let same : record pr { comments = comments; reviews = reviews } ≡ out = ground arith in
      subst
        (λ (o : PrView).
          All (Passed comment_item pr.comments) o.comments
          × All (Passed review_item pr.reviews) o.reviews
          × (o ≡ record pr { comments = o.comments; reviews = o.reviews }))
        same
        (
          plain_items-Passed comment_item pr.comments comments kept,
          plain_items-Passed review_item pr.reviews reviews kept_reviews,
          refl,
        )
