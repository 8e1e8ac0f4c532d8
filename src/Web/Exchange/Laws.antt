-- ===== src/Web/Exchange/Laws.antt =====
-- Preferences survive their export and import (app/web/routes_settings.py).
use career_spyder.Result.{Result, ok, ◌>>=◌}
use career_spyder.Prelude.{
  Option, ℕ, ltb, false, String, ◌≡◌, refl, ap, sym, ◌∙◌, Bool, true, List, All, take, some,
  or_else, eq_refl,
}
use career_spyder.Text.{join}
use career_spyder.Config.{Source}
use career_spyder.Database.{Database, SettingsRow}
use career_spyder.Accounts.{
  get_settings, save_preferences, put_preferences, max_integer, default_settings,
}
use career_spyder.Accounts.Laws.{get_settings-save}
use career_spyder.Sources.{list_sources}
use career_spyder.Web.Preferences.{day_codes, job_statuses, max_digest_recipients, keep_known}
use career_spyder.Web.Exchange.{
  Field, whole, Parsed, texts_of, valid_emails, items_of, parse_object, listed, exported,
  exported_fields, export_payload,
}
use career_spyder.Web.Exchange.Lists.{
  no_sep, IsWord, texts_of-map, words_back, keep_known-again, keep_known-words, valid_emails-again,
  valid_emails-words,
}

-- What a list of words is after it was exported and read.
abbrev back : List String → List String
back ws = texts_of (items_of (listed (join "," ws)))

back_lem : (ws : List String) → All IsWord ws → back ws ≡ ws
unfolding listed
back_lem ws h = rw (words_back ws h) (texts_of-map ws)

-- The addresses that an import of a section keeps.
abbrev pub kept_addresses : (String → Field) → List String
kept_addresses f = take max_digest_recipients (valid_emails (texts_of (items_of (f "email_to"))))

-- The row that saving the preferences leaves, of the row before it.
abbrev saved_row : Parsed → ℕ → SettingsRow → SettingsRow
saved_row p most s = record s {
  email_days = some p.email_days;
  resend_jobs = p.resend_jobs;
  email_to = some p.email_to;
  hide_not_interested_on_map = p.hide_not_interested_on_map;
  digest_max_per_company = most;
  digest_exclude_statuses = p.digest_exclude_statuses;
  send_weekly_checkin = p.send_weekly_checkin;
}

abbrev pub saved : Parsed → ℕ → String → Database → Result Database
saved p most user_id db =
    save_preferences user_id p.email_days p.resend_jobs p.email_to p.hide_not_interested_on_map most
      p.digest_exclude_statuses p.send_weekly_checkin db

known_back :
    (known chosen : List String)
    → All IsWord known
    → join "," (keep_known known (back (keep_known known chosen)))
      ≡ join "," (keep_known known chosen)
known_back known chosen h =
    rw (back_lem (keep_known known chosen) (keep_known-words known chosen h))
      (rw (keep_known-again known chosen) refl)

addresses_back :
    (f : String → Field)
    → All (λ w. no_sep 44 w ≡ true) (kept_addresses f)
    → join "," (take max_digest_recipients (valid_emails (back (kept_addresses f))))
      ≡ join "," (kept_addresses f)
addresses_back f plain =
    let ws = texts_of (items_of (f "email_to")) in
    rw (back_lem (kept_addresses f) (valid_emails-words 5 ws plain))
      (rw (valid_emails-again 5 ws) refl)

parsed_again :
    (f : String → Field) (most : ℕ) (s : SettingsRow)
    → (parse_object f).digest_max_per_company ≡ whole most
    → All (λ w. no_sep 44 w ≡ true) (kept_addresses f)
    → parse_object (
        exported_fields
          (parse_object f).email_days
          (parse_object f).email_to
          (saved_row (parse_object f) most s))
      ≡ parse_object f
unfolding parse_object
parsed_again f most s whole_cap plain = λ i. record {
  email_days =
      known_back day_codes (texts_of (items_of (f "email_days")))
        ((
          (refl, refl),
          (
            (refl, refl),
            ((refl, refl), ((refl, refl), ((refl, refl), ((refl, refl), ((refl, refl), tt))))),
          ),
        ))
        i;
  resend_jobs = (parse_object f).resend_jobs;
  email_to = addresses_back f plain i;
  hide_not_interested_on_map = (parse_object f).hide_not_interested_on_map;
  digest_max_per_company = sym whole_cap i;
  digest_exclude_statuses =
      known_back job_statuses (texts_of (items_of (f "digest_exclude_statuses")))
        (((refl, refl), ((refl, refl), ((refl, refl), ((refl, refl), ((refl, refl), tt)))))) i;
  send_weekly_checkin = (parse_object f).send_weekly_checkin;
}

-- Where the cap is in range.
abbrev stored : Parsed → ℕ → String → Database → Database
stored p most user_id db =
    put_preferences user_id p.email_days p.resend_jobs p.email_to p.hide_not_interested_on_map most
      p.digest_exclude_statuses p.send_weekly_checkin db

saved_settings :
    (p : Parsed) (most : ℕ) (user_id : String) (db : Database)
    → get_settings user_id (stored p most user_id db)
      ≡ some (saved_row p most (or_else (get_settings user_id db) (default_settings user_id)))
saved_settings p most user_id db =
    (get_settings-save user_id user_id "" 0 "" "" p.email_days p.resend_jobs p.email_to
      p.hide_not_interested_on_map most p.digest_exclude_statuses p.send_weekly_checkin db).1
    ∙ rw (eq_refl user_id) refl

abbrev reread : List Source → Option SettingsRow → Result Parsed
reread sources settings =
    let dumped : Result (List Source × (String → Field)) =
      exported settings >>= (λ preferences. ok (sources, preferences)) in
    dumped >>= (λ payload. ok (parse_object payload.1))

-- Preferences that were imported, exported and read again are the same, for every section of a file whose
-- cap is a number in the range of its column and whose kept addresses hold no comma, whatever the settings
-- were before.
pub parse-export-import :
    (f : String → Field) (most : ℕ) (name_le : String → String → Bool) (user_id : String)
    (db : Database)
    → (parse_object f).digest_max_per_company ≡ whole most
    → ltb max_integer most ≡ false
    → All (λ w. no_sep 44 w ≡ true) (kept_addresses f)
    → (saved (parse_object f) most user_id db
        >>= (λ d. export_payload name_le user_id d)
        >>= (λ payload. ok (parse_object payload.1)))
      ≡ ok (parse_object f)
unfolding export_payload exported save_preferences
parse-export-import f most name_le user_id db whole_cap in_range plain = rw in_range (
    ap (reread (list_sources name_le user_id (stored (parse_object f) most user_id db)))
      (saved_settings (parse_object f) most user_id db)
    ∙ ap ok (
        parsed_again f most (or_else (get_settings user_id db) (default_settings user_id)) whole_cap
          plain))
