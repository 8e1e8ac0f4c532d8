-- ===== src/Web/Preferences.antt =====
-- app/web/routes_settings.py: the form of a user's preferences.
pub mod Laws
use Prim.Native.Char.{code}
use career_spyder.Prelude.{
  ℕ, ℤ, pos, negsuc, String, Bool, true, false, not, ◌&&◌, ◌||◌, Option, none, some, List, [], ◌∷◌,
  map, filter, find, elem, if◌then◌else◌, nonempty, ltb, length, nat_eq,
}
use career_spyder.Text.{strip, split, join, is_space}
use career_spyder.Html.{cat}
use career_spyder.Result.{Result, ok, err}
use career_spyder.Database.{Database, UserRow}
use career_spyder.Accounts.{get_settings}
use career_spyder.Accounts
use career_spyder.Accounts.Session.{Session}
use career_spyder.Web.{
  label, texts, settings_of, page, flashed, failure, Response, Site, Reply, answer,
}

abbrev pub day_codes : List String
day_codes = "mon" ∷ "tue" ∷ "wed" ∷ "thu" ∷ "fri" ∷ "sat" ∷ "sun" ∷ []

-- The keys of `JOB_STATUSES`.
abbrev pub job_statuses : List String
job_statuses = "applied" ∷ "ignored" ∷ "accepted" ∷ "rejected" ∷ "not_interested" ∷ []

abbrev pub max_digest_recipients : ℕ
max_digest_recipients = 5

-- The texts of `known`, in its order, that a set holds.
unfoldable pub keep_known : (known chosen : List String) → List String
keep_known known chosen = filter (λ d. elem d chosen) known

-- A dot with a character before it and one after it, the first one of the text set aside.
abbrev dot_then : String → Bool
dot_then String.[] = false
dot_then (String.◌∷◌ c s) = (nat_eq (code c) 46 && nonempty s) || dot_then s

unfoldable pub has_inner_dot : String → Bool
has_inner_dot String.[] = false
has_inner_dot (String.◌∷◌ c s) = dot_then s

unfoldable pub no_space : String → Bool
no_space String.[] = true
no_space (String.◌∷◌ c s) = not (is_space (code c)) && no_space s

abbrev is_address : List String → Bool
is_address [] = false
is_address (name ∷ []) = false
is_address (name ∷ domain ∷ []) = nonempty name && has_inner_dot domain
is_address (name ∷ domain ∷ other ∷ more) = false

-- `EMAIL_RE`, on a stripped text: the end of the pattern also stands before a last line feed.
unfoldable pub is_valid_email : String → Bool
unfolding has_inner_dot no_space
is_valid_email addr = no_space addr && is_address (split 64 addr)

-- What a form holds under a name: texts and uploaded files.
pub data Item : Type 0 where
  typed : String → Item
  uploaded : Item

abbrev pub Items : Type 0
Items = String → List Item

unfoldable pub typed_only : List Item → Option (List String)
typed_only [] = some []
typed_only (uploaded ∷ items) = none
typed_only (typed text ∷ items) =
    let rest = typed_only items in elim rest [ none ↦ none | some values ↦ some (text ∷ values) ]

-- The values, or the answer of the exception raised.
pub data Read : Type 0 where
  values : List String → Read
  raised : Response → Read

unfoldable pub str_list_field : Items → (key : String) → Read
unfolding typed_only
str_list_field form key = elim (typed_only (form key)) [
  | none ↦ raised (failure 400 (cat (key ∷ " must be text fields" ∷ [])))
  | some found ↦ values found
]

-- `key in form`
abbrev is_in : Items → String → Bool
is_in form key = elim (form key) [ [] ↦ false | item ∷ items ↦ true ]

abbrev pub last_item : List Item → Option Item
last_item [] = none
last_item (item ∷ []) = some item
last_item (item ∷ next ∷ items) = last_item (next ∷ items)

abbrev at_least_zero : Option ℤ → ℕ
at_least_zero none = 0
at_least_zero (some (pos n)) = n
at_least_zero (some (negsuc n)) = 0

-- `int` stands for the integer that `int(text)` gives, where it does not raise.
unfoldable pub digest_max : (int : String → Option ℤ) → Option Item → ℕ
digest_max int none = 0
digest_max int (some uploaded) = 0
digest_max int (some (typed text)) = at_least_zero (int text)

abbrev or_blank : List String → List String
or_blank [] = "" ∷ []
or_blank (a ∷ more) = a ∷ more

-- The form again, with what is wrong.
unfoldable pub preferences_error :
    (days emails statuses : List String) → (message : String) → UserRow → Site → Session → Reply
preferences_error days emails statuses message current site session = answer site session (
    page "settings_preferences.html" 400 (
      ("settings", settings_of (get_settings current.id site.db))
      ∷ ("email_days_selected", texts days)
      ∷ ("email_to_list", texts (or_blank emails))
      ∷ ("digest_exclude_statuses_set", texts statuses)
      ∷ ("error", label message)
      ∷ []))

abbrev pub stripped_texts : List String → List String
stripped_texts emails = filter nonempty (map strip emails)

-- The answer to what the database made of the preferences.
unfoldable pub saved_preferences : Result Database → Site → Session → Reply
saved_preferences (err e) site session = answer site session (failure 500 "Internal Server Error")
saved_preferences (ok db) site session =
    answer (record site { db = db }) session (flashed "/settings/preferences" "Preferences saved.")

-- After the three lists of the form have been read. A set is shown in the order of its known texts.
unfoldable pub store_preferences :
    (int : String → Option ℤ)
    → Items
    → (days emails statuses : List String) → UserRow
    → Site
    → Session
    → Reply
unfolding preferences_error keep_known digest_max saved_preferences
store_preferences int form days emails statuses current site session =
    let selected_days = keep_known day_codes days in
    let submitted = stripped_texts emails in
    let exclude = keep_known job_statuses statuses in
    if ltb max_digest_recipients (length submitted)
    then preferences_error selected_days submitted exclude "Digests can go to at most 5 addresses."
        current site session
    else (elim (find (λ addr. not (is_valid_email addr)) submitted) [
      | some invalid ↦
          preferences_error selected_days submitted exclude
            (cat ("Invalid email address: " ∷ invalid ∷ [])) current site session
      | none ↦
          saved_preferences
            (Accounts.save_preferences current.id (join "," selected_days)
              (is_in form "resend_jobs") (join "," submitted)
              (is_in form "hide_not_interested_on_map")
              (digest_max int (last_item (form "digest_max_per_company"))) (join "," exclude)
              (is_in form "send_weekly_checkin") site.db)
            site session
    ])

unfoldable pub save_preferences :
    (int : String → Option ℤ) → Items → UserRow → Site → Session → Reply
unfolding store_preferences str_list_field
save_preferences int form current site session = elim (str_list_field form "email_days") [
  | raised response ↦ answer site session response
  | values days ↦ elim (str_list_field form "email_to") [
    | raised response ↦ answer site session response
    | values emails ↦ elim (str_list_field form "digest_exclude_statuses") [
      | raised response ↦ answer site session response
      | values statuses ↦ store_preferences int form days emails statuses current site session
    ]
  ]
]
