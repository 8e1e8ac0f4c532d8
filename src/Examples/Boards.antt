-- ===== src/Examples/Boards.antt =====
-- Job boards, preferences and an exported file at concrete data.
use career_spyder.Prelude.{
  ℕ, ◌-◌, ◌≡◌, refl, ap, String, ◌==◌, true, Option, none, some, List, [], ◌∷◌, take, drop,
  if◌then◌else◌, nat_eq, arith,
}
use career_spyder.Text.{strip, split}
use career_spyder.Web.Preferences.{
  digest_max, is_valid_email, Items, typed, save_preferences, str_list_field,
}
use career_spyder.Accounts.Session.{empty_session}
use career_spyder.Web.{Site}
use career_spyder.Web.Preferences.Laws.{digest_to, recipients-save_preferences}
use career_spyder.Examples.{user_named, db, board}
use career_spyder.Result.{ok, ◌>>=◌}
use career_spyder.Adapters.Workday
use career_spyder.Adapters.Workday.Laws.{fetch-board}
use career_spyder.Adapters.Findly
use career_spyder.Adapters.Findly.Laws.{fetch-served}
use career_spyder.Web.Exchange.{Field, array, boolean, null, parse_object, export_payload}
use career_spyder.Web.Exchange.Laws.{saved, parse-export-import}

abbrev posting : String → Workday.Posting
posting title = record {
  title = some title;
  external_path = title;
  bullet_fields = [];
  location = none;
  posted_on = none;
}

abbrev postings : List (Option Workday.Posting)
postings = some (posting "/one") ∷ none ∷ some (posting "/two") ∷ []

-- Only the first answer has the total.
abbrev total_at : ℕ → ℕ
total_at o = if nat_eq o 0 then 3 else 0

fetch-board_example :
    Workday.fetch
      (λ o. ok (record { total = total_at o; postings = take 20 (drop o postings) }))
      board
      "b"
      2
    ≡ some (ok (Workday.parse_postings board "b" postings))
fetch-board_example =
    fetch-board (λ o. ok (record { total = total_at o; postings = take 20 (drop o postings) }))
      postings total_at board "b" 2 (λ o h. refl) refl (omega arith)

abbrev job_record : String → Findly.Record
job_record id = record {
  id = some id;
  title = some id;
  url = some id;
  company_name = none;
  location_type = none;
  primary_city = some "Bonn";
  primary_state = none;
  open_date = none;
}

abbrev records : List (Option Findly.Record)
records = some (job_record "one") ∷ none ∷ some (job_record "two") ∷ []

fetch-served_example :
    Findly.fetch (λ o. ok (take 500 (drop (o - 1) records))) board 2
    ≡ ok (Findly.parse_records board records)
fetch-served_example =
    fetch-served (λ o. ok (take 500 (drop (o - 1) records))) records board 2
      (λ o. ap (λ n. ok (take 500 (drop n records))) (omega arith))

-- A file with two addresses, one of which is none, and an unknown day.
abbrev file : String → Field
file key =
    if key == "email_to"
    then array (some " a@b.c " ∷ none ∷ some "nobody" ∷ [])
    else if key == "email_days"
    then array (some "sun" ∷ some "mon" ∷ some "today" ∷ [])
    else if key == "resend_jobs"
    then boolean true
    else null

parse-export-import_example :
    (saved (parse_object file) 0 "alice" db
      >>= (λ d. export_payload (λ a b. true) "alice" d)
      >>= (λ payload. ok (parse_object payload.1)))
    ≡ ok (parse_object file)
unfolding parse_object strip is_valid_email split
parse-export-import_example =
    parse-export-import file 0 (λ a b. true) "alice" db refl refl (refl, tt)

abbrev site : Site
site = record { db = db; buckets = λ key. [] }

-- Two addresses, with a blank field between them.
abbrev addresses : Items
addresses key = if key == "email_to" then typed " a@b.c" ∷ typed " " ∷ typed "d@e.f" ∷ [] else []

recipients-save_preferences_example :
    digest_to "alice"
      (save_preferences (λ t. none) addresses (user_named "alice") site empty_session).site.db
    ≡ some ("a@b.c" ∷ "d@e.f" ∷ [])
unfolding str_list_field strip is_valid_email split digest_max
recipients-save_preferences_example =
    recipients-save_preferences (λ t. none) addresses (user_named "alice") site empty_session []
      (" a@b.c" ∷ " " ∷ "d@e.f" ∷ []) [] refl refl refl (refl, (refl, tt))
