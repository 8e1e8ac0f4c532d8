-- ===== src/Web/JobRoutes.antt =====
-- app/web/routes_jobs.py: the routes by which a user edits jobs.
pub mod Laws
pub mod Rows
use Prim.Native.String
use career_spyder.Prelude.{
  ℕ, ℤ, String, ◌==◌, Bool, true, false, not, ◌&&◌, ◌||◌, Option, none, some, List, [], ◌∷◌, find,
  if◌then◌else◌, nonempty, is_some, ltb, length, or_else,
}
use career_spyder.Result.{
  Result, ok, err, Error, key_error, runtime_error, unsafe_url, request_failed, other_error,
}
use career_spyder.Text.{strip, contains}
use career_spyder.Html.{cat, str}
use career_spyder.Models.{job_status_label}
use career_spyder.Database.{Database, UserRow, JobRow, LocationRow, owned}
use career_spyder.Jobs.Edits.{
  mark_job_removed, set_job_status, bulk_set_status, set_job_notes, set_job_duplicate,
  clear_job_duplicate, clear_location_override, set_location_override,
}
use career_spyder.Geocoding.{GeocodeResult, Outcome, found, transient}
use career_spyder.Geocoding
use career_spyder.Accounts.Session.{Session}
use career_spyder.Web.{
  Form, Value, label, flag, missing, moment, flashed, failure, json, Response, Site, Reply, answer,
  Host,
}
use career_spyder.Web.Guard.{as_user}

unfoldable pub form_str : Form → String → String
form_str form key = elim (form key) [ none ↦ "" | some value ↦ value ]

-- `text or None`
abbrev pub or_none : String → Option String
or_none text = if nonempty text then some text else none

abbrev pub nullable : Option String → Value
nullable none = missing
nullable (some text) = label text

-- `accept` is the header, "" where there is none.
unfoldable pub wants_json : (accept : String) → Bool
wants_json accept = contains accept "application/json"

-- An exception that no handler catches is answered by the framework.
abbrev error_response : Error → Response
error_response (key_error key) = failure 404 "Job not found"
error_response runtime_error = failure 500 "Internal Server Error"
error_response unsafe_url = failure 500 "Internal Server Error"
error_response request_failed = failure 500 "Internal Server Error"
error_response other_error = failure 500 "Internal Server Error"

-- `KeyError` of an edit is a 404; `reply` reads the database that the edit leaves.
unfoldable pub edited : Site → Session → (Database → Response) → Result Database → Reply
edited site session reply (ok db) = answer (record site { db = db }) session (reply db)
edited site session reply (err error) = answer site session (error_response error)

abbrev told : (accept : String) → (message : String) → List (String × Value) → Response
told accept message context =
    if wants_json accept
    then json (("ok", flag true) ∷ ("message", label message) ∷ context)
    else flashed "/jobs" message

abbrev pub known_status : Option String → Bool
known_status none = true
known_status (some status) = is_some (job_status_label status)

abbrev status_message : Option String → String
status_message none = "Status cleared."
status_message (some status) = cat ("Marked as " ∷ or_else (job_status_label status) "" ∷ "." ∷ [])

unfoldable pub update_job_status : ℕ → (accept : String) → Form → UserRow → Site → Session → Reply
unfolding edited form_str wants_json
update_job_status now accept form current site session =
    let status = or_none (form_str form "status") in
    if known_status status
    then edited site session
        (λ db. told accept (status_message status) (("status", nullable status) ∷ []))
        (set_job_status now current.id (form_str form "key") status site.db)
    else answer site session (failure 400 "Invalid status")

-- `keys` are the texts of `form.getlist("keys")`.
unfoldable pub bulk_update_job_status :
    ℕ → (keys : List String) → Form → UserRow → Site → Session → Reply
unfolding form_str
bulk_update_job_status now keys form current site session =
    let raw_status = form_str form "status" in
    let status : Option String = if raw_status == "none" then none else some raw_status in
    if not (nonempty raw_status)
    then answer site session (failure 400 "Choose a status")
    else if not (known_status status)
    then answer site session (failure 400 "Invalid status")
    else if ltb 200 (length keys)
    then answer site session (failure 400 "Too many jobs selected (max 200).")
    else (let done = bulk_set_status now current.id keys status site.db in
        answer (record site { db = done.0 }) session
          (flashed "/jobs" (cat ("Updated " ∷ str done.1 ∷ " job(s)." ∷ []))))

abbrev missing_key : Site → Session → Reply
missing_key site session = answer site session (failure 400 "Missing job key")

abbrev removed_time : String → String → Database → Option ℕ
removed_time user_id key db = elim (find (owned user_id key) db.jobs) [
  | none ↦ none
  | some row ↦ row.removed_at
]

unfoldable pub remove_job : ℕ → (accept : String) → Form → UserRow → Site → Session → Reply
unfolding edited form_str wants_json
remove_job now accept form current site session =
    let key = form_str form "key" in
    if nonempty key
    then edited site session
        (λ db.
          told accept "Job marked as removed."
            (("removed_at", moment (removed_time current.id key db)) ∷ []))
        (mark_job_removed now current.id key site.db)
    else missing_key site session

unfoldable pub update_job_duplicate : (accept : String) → Form → UserRow → Site → Session → Reply
unfolding edited form_str wants_json
update_job_duplicate accept form current site session =
    let key = form_str form "key" in
    let clears = form_str form "action" == "clear" in
    let duplicate_of = or_none (strip (form_str form "duplicate_of")) in
    if nonempty key
    then edited site session
        (λ db. told accept (if clears then "Duplicate flag cleared." else "Marked as duplicate.") (
          ("is_duplicate", flag (not clears))
          ∷ ("duplicate_of", if clears then missing else nullable duplicate_of)
          ∷ []))
        (if clears
          then clear_job_duplicate current.id key site.db
          else set_job_duplicate current.id key duplicate_of site.db)
    else missing_key site session

unfoldable pub update_job_notes : (accept : String) → Form → UserRow → Site → Session → Reply
unfolding edited form_str wants_json
update_job_notes accept form current site session =
    let key = form_str form "key" in
    let notes = form_str form "notes" in
    if nonempty key
    then edited site session (λ db. told accept "Notes saved." (("notes", label notes) ∷ []))
        (set_job_notes current.id key notes site.db)
    else missing_key site session

unfoldable pub get_geocoded_location : String → Database → Option LocationRow
get_geocoded_location location db =
    find
      (λ (r : LocationRow).
        r.location == location && (r.status == "resolved" || r.status == "manual"))
      db.locations

-- The place that an override gets: its columns, from the cache or the geocoder.
pub record Place : Type 0 where
  pub display_name : Option String
  pub city : Option String
  pub region : Option String
  pub country : Option String
  pub lat : Option ℤ
  pub lng : Option ℤ
  pub provider : Option String

abbrev cached_place : LocationRow → Place
cached_place r = record {
  display_name = r.display_name;
  city = r.city;
  region = r.region;
  country = r.country;
  lat = r.lat;
  lng = r.lng;
  provider = r.provider;
}

unfoldable pub geocoded_place : (name : String) → Outcome → Result (Option Place)
geocoded_place name (found none) = ok none
geocoded_place name (found (some r)) = ok (
    some (record {
      display_name = some r.display_name;
      city = r.city;
      region = r.region;
      country = r.country;
      lat = some r.lat;
      lng = some r.lng;
      provider = some name;
    }))
geocoded_place name transient = ok none
geocoded_place name Geocoding.failure = err other_error

unfoldable pub find_place :
    (name : String)
    → (geocode : String → Outcome) → String
    → Option LocationRow
    → Result (Option Place)
unfolding geocoded_place
find_place name geocode location (some row) = ok (some (cached_place row))
find_place name geocode location none = geocoded_place name (geocode location)

-- `meanwhile` is what other requests commit while the geocoder answers.
unfoldable pub override_at :
    ℕ
    → (Database → Database)
    → (key location : String) → Result (Option Place)
    → UserRow
    → Site
    → Session
    → Reply
unfolding edited
override_at now meanwhile key location (err error) current site session =
    answer site session (failure 500 "Internal Server Error")
override_at now meanwhile key location (ok none) current site session =
    answer site session (failure 400 "Location could not be resolved on the map")
override_at now meanwhile key location (ok (some p)) current site session =
    edited (record site { db = meanwhile site.db }) session
      (λ db. json (
        ("ok", flag true)
        ∷ ("message", label "Location override saved.")
        ∷ ("display_name", nullable p.display_name)
        ∷ ("location_override", label location)
        ∷ []))
      (set_location_override now current.id key location p.display_name p.city p.region p.country
        p.lat p.lng p.provider (meanwhile site.db))

unfoldable pub update_location_override :
    ℕ
    → (Database → Database)
    → (name : String) → (geocode : String → Outcome) → Form
    → UserRow
    → Site
    → Session
    → Reply
unfolding edited override_at find_place get_geocoded_location form_str
update_location_override now meanwhile name geocode form current site session =
    let key = form_str form "key" in
    let location = strip (form_str form "location") in
    if not (nonempty key)
    then missing_key site session
    else if nonempty location
    then override_at now meanwhile key location
        (find_place name geocode location (get_geocoded_location location site.db)) current site
        session
    else edited site session
        (λ db. json (("ok", flag true) ∷ ("message", label "Location override cleared.") ∷ []))
        (clear_location_override current.id key site.db)

-- The routes, with what each takes from its request.
pub data JobRequest : Type 0 where
  status_post : (accept : String) → Form → JobRequest
  bulk_status_post : (keys : List String) → Form → JobRequest
  remove_post : (accept : String) → Form → JobRequest
  duplicate_post : (accept : String) → Form → JobRequest
  notes_post : (accept : String) → Form → JobRequest
  location_post : (geocoder : String) → (geocode : String → Outcome) → Form → JobRequest

unfoldable pub serve_jobs :
    ℕ → (Database → Database) → JobRequest → UserRow → Site → Session → Reply
unfolding update_job_status bulk_update_job_status remove_job update_job_duplicate update_job_notes
    update_location_override
serve_jobs now meanwhile (status_post accept form) = update_job_status now accept form
serve_jobs now meanwhile (bulk_status_post keys form) = bulk_update_job_status now keys form
serve_jobs now meanwhile (remove_post accept form) = remove_job now accept form
serve_jobs now meanwhile (duplicate_post accept form) = update_job_duplicate accept form
serve_jobs now meanwhile (notes_post accept form) = update_job_notes accept form
serve_jobs now meanwhile (location_post name geocode form) =
    update_location_override now meanwhile name geocode form

unfoldable pub jobs_route : Host → ℕ → (Database → Database) → JobRequest → Site → Session → Reply
unfolding as_user serve_jobs
jobs_route host now meanwhile request = as_user host (serve_jobs now meanwhile request)
