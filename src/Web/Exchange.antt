-- ===== src/Web/Exchange.antt =====
-- app/web/routes_settings.py: the export and the import of a user's sources and preferences.
pub mod Upload
pub mod Lists
pub mod Laws
use Prim.Native.String
use Prim.Native.String.{len}
use career_spyder.Prelude.{
  ℕ, ℤ, pos, negsuc, String, ◌==◌, Bool, true, false, not, ◌&&◌, ◌||◌, Option, none, some, List, [],
  ◌∷◌, ◌++◌, map, filter, elem, if◌then◌else◌, nonempty, is_some, ltb, length, nat_eq, take, opt_eq,
  text_or,
}
use career_spyder.Result.{Result, ok, err, other_error, ◌>>=◌}
use career_spyder.Text.{strip, split, join}
use career_spyder.Html.{cat, str}
use career_spyder.Config.{Source, diff_import}
use career_spyder.Database.{Database, UserRow, SettingsRow}
use career_spyder.Accounts.{get_settings, save_preferences}
use career_spyder.Accounts.Session.{Session}
use career_spyder.Sources.{list_sources, import_sources}
use career_spyder.Web.{
  Value, label, count, sources_diff, changes, Change, Shown, nothing, shown_text, shown_flag,
  shown_count, page, flashed, failure, Response, Site, Reply, answer,
}
use career_spyder.Web.Preferences.{
  day_codes, job_statuses, max_digest_recipients, keep_known, is_valid_email,
}

-- A value of the file's preferences. An item of a list is a text or something else.
pub data Field : Type 0 where
  null : Field
  boolean : Bool → Field
  integer : ℤ → Field
  array : List (Option String) → Field
  other : Field

-- The file's `preferences`, an object by its fields.
pub data Section : Type 0 where
  absent : Section
  object : (String → Field) → Section
  no_object : Section

-- Python counts `True` and `False` as integers.
pub data Cap : Type 0 where
  whole : ℕ → Cap
  truth : Bool → Cap

pub record Parsed : Type 0 where
  pub email_days : String
  pub resend_jobs : Bool
  pub email_to : String
  pub hide_not_interested_on_map : Bool
  pub digest_max_per_company : Cap
  pub digest_exclude_statuses : String
  pub send_weekly_checkin : Bool

unfoldable pub texts_of : List (Option String) → List String
texts_of [] = []
texts_of (none ∷ items) = texts_of items
texts_of (some text ∷ items) = text ∷ texts_of items

abbrev pub items_of : Field → List (Option String)
items_of null = []
items_of (boolean b) = []
items_of (integer n) = []
items_of (array items) = items
items_of other = []

abbrev bool_or : Bool → Field → Bool
bool_or default null = default
bool_or default (boolean b) = b
bool_or default (integer n) = default
bool_or default (array items) = default
bool_or default other = default

abbrev cap_of : Field → Cap
cap_of null = whole 0
cap_of (boolean b) = truth b
cap_of (integer (pos n)) = whole n
cap_of (integer (negsuc n)) = whole 0
cap_of (array items) = whole 0
cap_of other = whole 0

unfoldable pub valid_emails : List String → List String
valid_emails emails = filter (λ addr. nonempty addr && is_valid_email addr) (map strip emails)

unfoldable pub parse_object : (String → Field) → Parsed
unfolding texts_of valid_emails
parse_object preferences = record {
  email_days = join "," (keep_known day_codes (texts_of (items_of (preferences "email_days"))));
  resend_jobs = bool_or false (preferences "resend_jobs");
  email_to =
      join ","
        (take max_digest_recipients (valid_emails (texts_of (items_of (preferences "email_to")))));
  hide_not_interested_on_map = bool_or true (preferences "hide_not_interested_on_map");
  digest_max_per_company = cap_of (preferences "digest_max_per_company");
  digest_exclude_statuses =
      join ","
        (keep_known job_statuses (texts_of (items_of (preferences "digest_exclude_statuses"))));
  send_weekly_checkin = bool_or false (preferences "send_weekly_checkin");
}

-- `AttributeError` where the section is no object.
unfoldable pub parse_preferences_import : Section → Result (Option Parsed)
unfolding parse_object
parse_preferences_import absent = ok none
parse_preferences_import (object preferences) = ok (some (parse_object preferences))
parse_preferences_import no_object = err other_error

abbrev shown_option : Option String → Shown
shown_option none = nothing
shown_option (some text) = shown_text text

abbrev shown_cap : Cap → Shown
shown_cap (whole n) = shown_count n
shown_cap (truth b) = shown_flag b

-- `True == 1` and `False == 0`.
abbrev cap_eq : ℕ → Cap → Bool
cap_eq old (whole n) = nat_eq old n
cap_eq old (truth true) = nat_eq old 1
cap_eq old (truth false) = nat_eq old 0

abbrev bool_eq : Bool → Bool → Bool
bool_eq true b = b
bool_eq false b = not b

-- A key that keeps its value shows nothing.
abbrev change : Bool → String → Shown → Shown → List Change
change true name old new = []
change false name old new = record { name = name; old = old; new = new } ∷ []

abbrev all_new : Parsed → List Change
all_new p =
    record { name = "Check days"; old = nothing; new = shown_text p.email_days }
    ∷ record { name = "Resend jobs"; old = nothing; new = shown_flag p.resend_jobs }
    ∷ record { name = "Digest recipients"; old = nothing; new = shown_text p.email_to }
    ∷ record {
      name = "Hide Not Interested on map";
      old = nothing;
      new = shown_flag p.hide_not_interested_on_map;
    }
    ∷ record {
      name = "Max jobs per company";
      old = nothing;
      new = shown_cap p.digest_max_per_company;
    }
    ∷ record {
      name = "Excluded statuses";
      old = nothing;
      new = shown_text p.digest_exclude_statuses;
    }
    ∷ record {
      name = "Weekly check-in email";
      old = nothing;
      new = shown_flag p.send_weekly_checkin;
    }
    ∷ []

unfoldable pub preference_diff : Option SettingsRow → Option Parsed → List Change
preference_diff existing none = []
preference_diff none (some p) = all_new p
preference_diff (some s) (some p) =
    change (opt_eq s.email_days (some p.email_days)) "Check days" (shown_option s.email_days)
      (shown_text p.email_days)
    ++ change (bool_eq s.resend_jobs p.resend_jobs) "Resend jobs" (shown_flag s.resend_jobs)
        (shown_flag p.resend_jobs)
    ++ change (opt_eq s.email_to (some p.email_to)) "Digest recipients" (shown_option s.email_to)
        (shown_text p.email_to)
    ++ change (bool_eq s.hide_not_interested_on_map p.hide_not_interested_on_map)
        "Hide Not Interested on map" (shown_flag s.hide_not_interested_on_map)
        (shown_flag p.hide_not_interested_on_map)
    ++ change (cap_eq s.digest_max_per_company p.digest_max_per_company) "Max jobs per company"
        (shown_count s.digest_max_per_company) (shown_cap p.digest_max_per_company)
    ++ change (s.digest_exclude_statuses == p.digest_exclude_statuses) "Excluded statuses"
        (shown_text s.digest_exclude_statuses) (shown_text p.digest_exclude_statuses)
    ++ change (bool_eq s.send_weekly_checkin p.send_weekly_checkin) "Weekly check-in email"
        (shown_flag s.send_weekly_checkin) (shown_flag p.send_weekly_checkin)

-- `[d for d in text.split(",") if d]`, as a list of the file.
unfoldable pub listed : String → Field
listed text = array (map (λ w. some w) (filter nonempty (split 44 text)))

abbrev pub default_preferences : String → Field
default_preferences key =
    if key == "resend_jobs" || key == "send_weekly_checkin"
    then boolean false
    else if key == "hide_not_interested_on_map"
    then boolean true
    else if key == "digest_max_per_company"
    then integer (pos 0)
    else array []

abbrev pub exported_fields : (days to : String) → SettingsRow → String → Field
exported_fields days to s key =
    if key == "email_days"
    then listed days
    else if key == "resend_jobs"
    then boolean s.resend_jobs
    else if key == "email_to"
    then listed to
    else if key == "hide_not_interested_on_map"
    then boolean s.hide_not_interested_on_map
    else if key == "digest_max_per_company"
    then integer (pos s.digest_max_per_company)
    else if key == "digest_exclude_statuses"
    then listed s.digest_exclude_statuses
    else if key == "send_weekly_checkin"
    then boolean s.send_weekly_checkin
    else null

-- `AttributeError` where a column that is split is NULL.
unfoldable pub exported : Option SettingsRow → Result (String → Field)
unfolding listed
exported none = ok default_preferences
exported (some s) = elim s.email_days [
  | none ↦ err other_error
  | some days ↦ elim s.email_to [
    | none ↦ err other_error
    | some to ↦ ok (exported_fields days to s)
  ]
]

-- The sources stand for their dumps. `name_le` is the database's order of names.
unfoldable pub export_payload :
    (name_le : String → String → Bool) → String → Database → Result (List Source × (String → Field))
unfolding exported
export_payload name_le user_id db =
    exported (get_settings user_id db)
    >>= (λ preferences. ok (list_sources name_le user_id db, preferences))
