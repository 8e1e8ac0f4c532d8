-- ===== src/Web/Preferences/Laws.antt =====
-- The recipients that a form gives are those that a digest goes to (app/web/routes_settings.py and
-- app/scheduler.py).
use career_spyder.Prelude.{
  leb, ℕ, ℤ, String, ◌≡◌, refl, ap, ◌∙◌, Bool, true, not, ◌&&◌, Option, some, List, [], ◌∷◌, map,
  filter, find, All, Bool-cases, Option-cases, inl, inr, if◌then◌else◌, nonempty, ltb, length,
  is_none, text_or, map_option, eq_refl, eq_iff, arith,
}
use career_spyder.Text.{strip, split, join}
use career_spyder.Database.{Database, UserRow, SettingsRow}
use career_spyder.Accounts
use career_spyder.Accounts.{max_integer, get_settings, default_settings}
use career_spyder.Accounts.Laws.{get_settings-save}
use career_spyder.Accounts.Session.{Session}
use career_spyder.UserRun.{recipients}
use career_spyder.Web.{Site}
use career_spyder.Web.Preferences.{
  Items, values, str_list_field, stripped_texts, max_digest_recipients, is_valid_email,
  preferences_error, saved_preferences, digest_max, last_item, store_preferences, save_preferences,
}
use career_spyder.Web.Exchange.Lists.{no_sep, IsWord, split-join, strip-again, filter-words}

text_or-some : (t : String) → text_or (some t) "" ≡ t
text_or-some t = elim (Bool-cases (nonempty t)) [
  | inl e ↦ rw e refl
  | inr e ↦ rw e (ground (arith, e, eq_iff t ""))
]

-- A text that stripping leaves alone, and a word of a list that a comma ends.
abbrev IsTrimmed : String → Type 0
IsTrimmed w = (strip w ≡ w) × IsWord w

map-strip : (ws : List String) → All IsTrimmed ws → map strip ws ≡ ws
map-strip [] h = refl
map-strip (w ∷ ws) h = rw (h.0.0, map-strip ws h.1) refl

words_of : (ws : List String) → All IsTrimmed ws → All IsWord ws
words_of [] h = tt
words_of (w ∷ ws) h = (h.0.1, words_of ws h.1)

recipients-join : (ws : List String) → All IsTrimmed ws → recipients (some (join "," ws)) ≡ ws
unfolding recipients join split strip
recipients-join [] h = refl
recipients-join (w ∷ ws) h =
    let ws_words = words_of (w ∷ ws) h in
    ap (λ t. filter nonempty (map strip (split 44 t))) (text_or-some (join "," (w ∷ ws)))
    ∙ ap (λ l. filter nonempty (map strip l)) (split-join w ws ws_words)
    ∙ ap (filter nonempty) (map-strip (w ∷ ws) h)
    ∙ filter-words (w ∷ ws) ws_words

stripped_texts-IsTrimmed :
    (emails : List String)
    → All (λ w. no_sep 44 w ≡ true) (stripped_texts emails)
    → All IsTrimmed (stripped_texts emails)
stripped_texts-IsTrimmed [] = λ h. tt
stripped_texts-IsTrimmed (e ∷ emails) = elim (Bool-cases (nonempty (strip e))) [
  | inl n ↦ rw n (λ h. ((strip-again e, (n, h.0)), stripped_texts-IsTrimmed emails h.1))
  | inr n ↦ rw n (stripped_texts-IsTrimmed emails)
]

-- Whom the digests of a user go to, where the user has settings.
abbrev pub digest_to : String → Database → Option (List String)
digest_to user_id db =
    map_option (λ (s : SettingsRow). recipients s.email_to) (get_settings user_id db)

-- At most five addresses, each of which passes the test.
abbrev pub are_accepted : List String → Bool
are_accepted ws =
    not (ltb max_digest_recipients (length ws)) && is_none (find (λ w. not (is_valid_email w)) ws)

module _ (int : String → Option ℤ) (form : Items) (current : UserRow) (site : Site)
    (session : Session) where
  digest_to-saved :
      (days exclude : String) (resend hide checkin : Bool) (most : ℕ) (ws : List String)
      → All IsTrimmed ws
      → digest_to current.id (
          Accounts.put_preferences current.id days resend
            (join "," ws)
            hide
            most
            exclude
            checkin
            site.db)
        ≡ some ws
  digest_to-saved days exclude resend hide checkin most ws h =
      ap (map_option (λ (s : SettingsRow). recipients s.email_to))
        (get_settings-save current.id current.id "" 0 "" "" days resend (join "," ws) hide most
          exclude checkin site.db).1
      ∙ rw (eq_refl current.id) (ap some (recipients-join ws h))

  saved_recipients :
      (days exclude : String) (resend hide checkin : Bool) (most : ℕ) (ws : List String)
      → All IsTrimmed ws
      → digest_to current.id
          (saved_preferences
            (Accounts.save_preferences current.id days resend
              (join "," ws)
              hide
              most
              exclude
              checkin
              site.db)
            site
            session).site.db
        ≡ (if ltb max_integer most then digest_to current.id site.db else some ws)
  unfolding saved_preferences
  saved_recipients days exclude resend hide checkin most ws h =
      unfold Accounts.save_preferences in
      elim (Bool-cases (ltb max_integer most)) [
        | inl e ↦ rw e refl
        | inr e ↦ rw e (digest_to-saved days exclude resend hide checkin most ws h)
      ]

  -- The cap of the form.
  abbrev pub cap : ℕ
  cap = digest_max int (last_item (form "digest_max_per_company"))

  stored_recipients :
      (days emails statuses : List String)
      → All (λ w. no_sep 44 w ≡ true) (stripped_texts emails)
      → digest_to current.id
          (store_preferences int form days emails statuses current site session).site.db
        ≡ (if are_accepted (stripped_texts emails) && leb cap max_integer
            then some (stripped_texts emails)
            else digest_to current.id site.db)
  unfolding store_preferences preferences_error
  stored_recipients days emails statuses plain =
      elim (Bool-cases (ltb max_digest_recipients (length (stripped_texts emails)))) [
        | inl e ↦ rw e refl
        | inr e ↦
            rw e (elim (Option-cases (find (λ w. not (is_valid_email w)) (stripped_texts emails))) [
              | inl f ↦ rw f (
                  saved_recipients _ _ _ _ _ cap (stripped_texts emails)
                    (stripped_texts-IsTrimmed emails plain)
                  ∙ ground arith)
              | inr f ↦ rw (f.1) refl
            ])
      ]

  -- After the form of the preferences was sent, the digests of the user go to exactly the addresses that
  -- it gave, stripped and in their order, if these are at most five, each passes the test of an address
  -- and the form's cap is one that the column holds, and otherwise to whom they went before. The
  -- addresses hold no comma, and the form's lists hold no uploaded file.
  pub recipients-save_preferences :
      (days emails statuses : List String)
      → str_list_field form "email_days" ≡ values days
      → str_list_field form "email_to" ≡ values emails
      → str_list_field form "digest_exclude_statuses" ≡ values statuses
      → All (λ w. no_sep 44 w ≡ true) (stripped_texts emails)
      → digest_to current.id (save_preferences int form current site session).site.db ≡ (
          if are_accepted (stripped_texts emails) && leb cap max_integer
          then some (stripped_texts emails)
          else digest_to current.id site.db)
  unfolding save_preferences
  recipients-save_preferences days emails statuses d e s plain =
      rw (d, save_preferences) (rw e (rw s (stored_recipients days emails statuses plain)))
