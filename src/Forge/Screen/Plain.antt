-- ===== src/Forge/Screen/Plain.antt =====
-- The screen of hunter-rs/src/forge.rs without its memory of the answers.
use bug_hunter.Prelude.{
  Bool, true, false, String, Option, none, some, List, [], ◌∷◌, if◌then◌else◌, ◌≡◌, refl, ◌∙◌, ap,
  subst, arith, inl, inr, Bool-cases, Option-cases,
}
use bug_hunter.Prelude.Tables.{All}
use bug_hunter.Prelude.Texts.{Text, text_eq, text_eq_iff}
use bug_hunter.Forge.States.{PrView, Voice, bot}
use bug_hunter.Forge.Screen.{
  Access, Item, and_then, known, login_of, bots_contain, voiced, push_access, screened, confirmed,
  listed, voice_of_login, voice_of, keep, screen_items, screen_feedback, comment_item, review_item,
}

module _ (bots : List Text) (is_bot : String → Text → Option Bool)
    (can_push : Text → Option Bool) where
  abbrev pub push_voice : Text → Option (Option Voice)
  push_voice login = and_then (can_push login) (λ a. some (voiced bots is_bot can_push a))

  abbrev pub bot_or_push : Text → Bool → Option (Option Voice)
  bot_or_push login b = if b then some (some bot) else push_voice login

  abbrev pub plain_listed : String → Text → Bool → Option (Option Voice)
  plain_listed id login b =
      if b then and_then (is_bot id login) (bot_or_push login) else push_voice login

  abbrev pub plain_login : String → Option Text → Option (Option Voice)
  plain_login id none = some none
  plain_login id (some login) = plain_listed id login (bots_contain bots login)

  -- Whose voice an item is, asked anew for every item.
  abbrev pub plain_voice : String → Option Text → Option (Option Voice)
  plain_voice id author = plain_login id (login_of author)

  abbrev pub plain_items : {A : Type 0} → Item A → List A → Option (List A)
  plain_items it [] = some []
  plain_items it (x ∷ xs) = and_then (plain_voice (it.id x) (it.author x)) (λ voice.
      and_then (plain_items it xs) (λ rest. some (keep bots is_bot can_push it x voice rest)))

  abbrev pub plain_feedback : PrView → Option PrView
  plain_feedback pr = and_then (plain_items comment_item pr.comments) (λ comments.
      and_then (plain_items review_item pr.reviews)
        (λ reviews. some (record pr { comments = comments; reviews = reviews })))

  -- What is remembered is what the forge answers.
  abbrev pub Honest : Access → Type 0
  Honest access = All (λ (login, answer). can_push login ≡ some answer) access

  abbrev Agrees : {A : Type 0} → Option (Access × A) → Option A → Type 0
  Agrees none none = Unit
  Agrees none (some b) = ⊥
  Agrees (some (access, a)) none = ⊥
  Agrees (some (access, a)) (some b) = Honest access × (a ≡ b)

  known-Honest :
      (login : Text) (access : Access) (answer : Bool)
      → Honest access
      → known login access ≡ some answer
      → can_push login ≡ some answer
  known-Honest login [] answer h e = cc
  known-Honest login ((asked, given) ∷ rest) answer h e = elim (Bool-cases (text_eq asked login)) [
    | inl t ↦
        let same : asked ≡ login = (text_eq_iff asked login).0 t in
        subst (λ l. can_push l ≡ some answer) same (h.0 ∙ ground arith)
    | inr t ↦ known-Honest login rest answer h.1 (ground arith)
  ]

  Agrees-bind :
      {A B : Type 0} (m : Option (Access × A)) (p : Option A) (f : Access × A → Option (Access × B))
      (g : A → Option B)
      → ((access : Access) (a : A) → Honest access → Agrees (f (access, a)) (g a))
      → Agrees m p
      → Agrees (and_then m f) (and_then p g)
  Agrees-bind none none f g h k = tt
  Agrees-bind none (some b) f g h k = absurd k
  Agrees-bind (some (access, a)) none f g h k = absurd k
  Agrees-bind (some (access, a)) (some b) f g h (honest, same) =
      subst (λ z. Agrees (f (access, a)) (g z)) same (h access a honest)

  asked-Agrees :
      (login : Text) (access : Access) (o : Option Bool)
      → can_push login ≡ o
      → Honest access
      → Agrees (and_then o (λ a. some ((login, a) ∷ access, a))) o
  asked-Agrees login access none e h = tt
  asked-Agrees login access (some a) e h = ((e, h), refl)

  push_access-Agrees :
      (login : Text) (access : Access)
      → Honest access
      → Agrees (push_access bots is_bot can_push login access (known login access)) (can_push login)
  push_access-Agrees login access h = elim (Option-cases (known login access)) [
    | inl e ↦ rw e (asked-Agrees login access (can_push login) refl h)
    | inr (answer, e) ↦ rw (e, known-Honest login access answer h e) (h, refl)
  ]

  screened-Agrees :
      (login : Text) (access : Access)
      → Honest access
      → Agrees (screened bots is_bot can_push login access) (push_voice login)
  screened-Agrees login access h =
      Agrees-bind _ (can_push login) _ _ (λ kept a honest. (honest, refl))
        (push_access-Agrees login access h)

  confirmed-Agrees :
      (login : Text) (access : Access) (o : Option Bool)
      → Honest access
      → Agrees
          (and_then o (confirmed bots is_bot can_push login access))
          (and_then o (bot_or_push login))
  confirmed-Agrees login access none h = tt
  confirmed-Agrees login access (some true) h = (h, refl)
  confirmed-Agrees login access (some false) h = screened-Agrees login access h

  listed-Agrees :
      (id : String) (login : Text) (access : Access) (b : Bool)
      → Honest access
      → Agrees (listed bots is_bot can_push id login access b) (plain_listed id login b)
  listed-Agrees id login access true h = confirmed-Agrees login access (is_bot id login) h
  listed-Agrees id login access false h = screened-Agrees login access h

  voice_of_login-Agrees :
      (id : String) (access : Access) (author : Option Text)
      → Honest access
      → Agrees (voice_of_login bots is_bot can_push id access author) (plain_login id author)
  voice_of_login-Agrees id access none h = (h, refl)
  voice_of_login-Agrees id access (some login) h =
      listed-Agrees id login access (bots_contain bots login) h

  screen_items-Agrees :
      {A : Type 0} (it : Item A) (xs : List A) (access : Access)
      → Honest access
      → Agrees (screen_items bots is_bot can_push it xs access) (plain_items it xs)
  unfolding voice_of
  screen_items-Agrees it [] access h = (h, refl)
  screen_items-Agrees it (x ∷ xs) access h =
      Agrees-bind _ (plain_voice (it.id x) (it.author x)) _ _
        (λ next voice honest.
          Agrees-bind _ (plain_items it xs) _ _ (λ last rest kept. (kept, refl))
            (screen_items-Agrees it xs next honest))
        (voice_of_login-Agrees (it.id x) access (login_of (it.author x)) h)

  Agrees-end :
      {A B : Type 0} (m : Option (Access × A)) (p : Option A) (f : Access × A → Option B)
      (g : A → Option B)
      → ((access : Access) (a : A) → Honest access → f (access, a) ≡ g a)
      → Agrees m p
      → and_then m f ≡ and_then p g
  Agrees-end none none f g h k = refl
  Agrees-end none (some b) f g h k = absurd k
  Agrees-end (some (access, a)) none f g h k = absurd k
  Agrees-end (some (access, a)) (some b) f g h (honest, same) = h access a honest ∙ ap g same

  -- Remembering the answers about push access over both loops changes nothing: the screen gives,
  -- or fails to give, what it gives when every item's author is asked about anew.
  pub screen_feedback-plain :
      (pr : PrView) → screen_feedback bots is_bot can_push pr ≡ plain_feedback pr
  unfolding screen_feedback
  screen_feedback-plain pr =
      Agrees-end _ (plain_items comment_item pr.comments) _ _
        (λ access comments honest.
          Agrees-end _ (plain_items review_item pr.reviews) _ _ (λ last reviews kept. refl)
            (screen_items-Agrees review_item pr.reviews access honest))
        (screen_items-Agrees comment_item pr.comments [] tt)
