-- ===== src/Web/JobPages.antt =====
-- app/web/routes_jobs.py: the list of jobs and the map.
pub mod Pins
pub mod Laws
use Prim.Native.String
use career_spyder.Prelude.{
  ℕ, ℤ, pos, negsuc, sub_ℕ, ◌/◌, ◌+◌, String, ◌==◌, Bool, true, false, not, ◌&&◌, ◌||◌, Option,
  none, some, List, [], ◌∷◌, ◌++◌, map, filter, find, elem, is_none, is_some, if◌then◌else◌,
  nonempty, or_else, nat_eq,
}
use career_spyder.Html.{cat}
use career_spyder.Models.{job_status_label}
use career_spyder.Config.{Source}
use career_spyder.Database.{Database, JobRow, HistoryRow, UserRow, SettingsRow}
use career_spyder.Digest.{safe_url_scheme}
use career_spyder.Geocoding.{Outcome, found, transient, failure}
use career_spyder.Pagination.{Pagination, paginate}
use career_spyder.Sources.{list_sources}
use career_spyder.Accounts.{get_settings, list_users, UserItem}
use career_spyder.Jobs.Listing.{
  Sql, Near, Filters, JobItem, list_jobs, count_jobs, get_job_status_history,
}
use career_spyder.Jobs.Listing.Mappable.{MapItem, list_mappable_jobs}
use career_spyder.Jobs.Listing.Choices.{list_job_source_names, list_job_locations, list_job_states}
use career_spyder.Web.QueryParams.{Pairs, remove_filter_url, remove_filter_value_url}

abbrev pub page_size : ℕ
page_size = 25

abbrev microseconds_per_day : ℕ
microseconds_per_day = 86_400_000_000

-- `(end - start).days`, rounded down.
unfoldable pub age_days : (now first_seen_at : ℕ) → (removed_at : Option ℕ) → ℤ
age_days now first_seen_at removed_at = elim (sub_ℕ (or_else removed_at now) first_seen_at) [
  | pos n ↦ pos (n / microseconds_per_day)
  | negsuc n ↦ negsuc (n / microseconds_per_day)
]

unfoldable pub secondary_source_ids : (String → String → Bool) → String → Database → List String
secondary_source_ids name_le user_id db =
    map (λ (s : Source). s.id)
      (filter (λ (s : Source). s.secondary) (list_sources name_le user_id db))

-- What the geocoder answers, without the cache.
unfoldable pub geocode_zip : Outcome → Option (ℤ × ℤ)
geocode_zip (found none) = none
geocode_zip (found (some r)) = some (r.lat, r.lng)
geocode_zip transient = none
geocode_zip failure = none

unfoldable pub radius_of : String → ℕ
radius_of radius =
    if radius == "10"
    then 10
    else if radius == "50"
    then 50
    else if radius == "100"
    then 100
    else 25

-- The parameters of the list.
pub record Query : Type 0 where
  pub company : String
  pub search : String
  pub source : List String
  pub removed : String
  pub emailed : String
  pub status : List String
  pub location : String
  pub duplicates : String
  pub state : List String
  pub zip_code : String
  pub radius : String
  pub user : String

abbrev pub chosen : String → Option String
chosen text = if nonempty text then some text else none

abbrev near_from : String → Option (ℤ × ℤ) → Option Near
near_from radius none = none
near_from radius (some (lat, lng)) =
    some (record { lat = lat; lng = lng; radius = radius_of radius })

-- `geocode` answers with the coordinates of a ZIP code.
unfoldable pub near_of : (String → Option (ℤ × ℤ)) → Query → Option Near
unfolding radius_of
near_of geocode q = if nonempty q.zip_code then near_from q.radius (geocode q.zip_code) else none

abbrev pub is_admin : UserRow → Bool
is_admin current = current.role == "admin"

unfoldable pub filter_user_id : UserRow → (user : String) → Option String
filter_user_id current user = if is_admin current then chosen user else some current.id

unfoldable pub list_filters : (String → Option (ℤ × ℤ)) → UserRow → Query → Filters
unfolding near_of filter_user_id
list_filters geocode current q = record {
  company = chosen q.company;
  search = chosen q.search;
  source_name = q.source;
  removed = chosen q.removed;
  emailed = chosen q.emailed;
  status = q.status;
  location = chosen q.location;
  duplicates = chosen q.duplicates;
  state = q.state;
  near = near_of geocode q;
  user_id = filter_user_id current q.user;
}

-- A removable filter that is active.
pub record Chip : Type 0 where
  pub name : String
  pub remove_url : String

module _ (urlencode : Pairs → String) (pairs : Pairs) where
  abbrev chip : Bool → (name : String) → (keys : List String) → List Chip
  chip false name keys = []
  chip true name keys =
      record { name = name; remove_url = remove_filter_url urlencode pairs "/jobs" keys } ∷ []

  abbrev value_chips : (key : String) → (name : String → String) → List String → List Chip
  value_chips key name values =
      map
        (λ value. record {
          name = name value;
          remove_url = remove_filter_value_url urlencode pairs "/jobs" key value;
        })
        values

  abbrev username_of : List UserItem → String → String
  username_of users user = elim (find (λ (u : UserItem). u.user.id == user) users) [
    | none ↦ user
    | some u ↦ u.user.username
  ]

  abbrev status_name : String → String
  status_name code = if code == "none" then "No status" else or_else (job_status_label code) code

  unfoldable pub active_job_filters : Query → List UserItem → List Chip
  active_job_filters q users =
      chip (nonempty q.company) (cat ("Company: " ∷ q.company ∷ [])) ("company" ∷ [])
      ++ chip (nonempty q.search) (cat ("Search: \"" ∷ q.search ∷ "\"" ∷ [])) ("search" ∷ [])
      ++ value_chips "source" (λ name. cat ("Search name: " ∷ name ∷ [])) q.source
      ++ chip (nonempty q.location)
          (cat (
            "Location: "
            ∷ (if q.location == "__unresolved__" then "Other / Unresolved" else q.location)
            ∷ []))
          ("location" ∷ [])
      ++ value_chips "state" (λ s. cat ("State: " ∷ s ∷ [])) q.state
      ++ chip (nonempty q.zip_code) (cat ("Near " ∷ q.zip_code ∷ " (" ∷ q.radius ∷ " mi)" ∷ []))
          ("zip" ∷ "radius" ∷ [])
      ++ chip (not (q.removed == "active"))
          (cat ("Listing status: " ∷ (if nonempty q.removed then "Removed" else "All") ∷ []))
          ("removed" ∷ [])
      ++ chip (nonempty q.emailed)
          (cat ("Emailed: " ∷ (if q.emailed == "sent" then "Emailed" else "Not sent") ∷ []))
          ("emailed" ∷ [])
      ++ value_chips "status" (λ code. cat ("Status: " ∷ status_name code ∷ [])) q.status
      ++ chip (nonempty q.duplicates)
          (cat (
            "Duplicates: "
            ∷ (if q.duplicates == "include" then "Include" else "Only duplicates")
            ∷ []))
          ("duplicates" ∷ [])
      ++ chip (nonempty q.user) (cat ("User: " ∷ username_of users q.user ∷ [])) ("user" ∷ [])

-- A row of the list.
pub record JobView : Type 0 where
  pub item : JobItem
  pub age : ℤ
  pub safe_url : String
  pub is_secondary : Bool
  pub history : List (String × ℕ)

pub record JobsView : Type 0 where
  pub jobs : List JobView
  pub pagination : Pagination
  pub source_names : List String
  pub locations : List String
  pub states : List String
  pub users : List UserItem
  pub zip_error : Bool
  pub active_filters : List Chip

-- What the pages take from outside: the database's orders, the scheme of an address, and the cached
-- coordinates of a ZIP code.
pub record Outside : Type 0 where
  pub sql : Sql
  pub name_le : String → String → Bool
  pub scheme : String → Option String
  pub geocode : String → Option (ℤ × ℤ)
  pub urlencode : Pairs → String

abbrev history_label : Option String → String
history_label none = "No status"
history_label (some status) = or_else (job_status_label status) "No status"

abbrev is_in : List String → Option String → Bool
is_in ids none = false
is_in ids (some id) = elem id ids

unfoldable pub job_view :
    Outside → (now : ℕ) → (secondary : List String) → Database → JobItem → JobView
unfolding age_days
job_view o now secondary db item = record {
  item = item;
  age = age_days now item.row.first_seen_at item.row.removed_at;
  safe_url = safe_url_scheme o.scheme item.row.url;
  is_secondary = is_in secondary item.row.source_id;
  history =
      map (λ (h : HistoryRow). (history_label h.status, h.changed_at))
        (get_job_status_history item.row.user_id item.row.key db);
}

unfoldable pub jobs :
    Outside
    → (now : ℕ) → (page : Option ℤ) → (sort_by direction : String) → Pairs
    → Query
    → UserRow
    → Database
    → JobsView
unfolding list_filters job_view secondary_source_ids active_job_filters near_of filter_user_id
jobs o now page sort_by direction pairs q current db =
    let f = list_filters o.geocode current q in
    let user_id = filter_user_id current q.user in
    let pagination = paginate (count_jobs o.sql f db) page page_size in
    let users = if is_admin current then list_users db else [] in
    record {
      jobs =
          map (job_view o now (secondary_source_ids o.name_le current.id db) db)
            (list_jobs o.sql now page_size pagination.offset sort_by direction f db);
      pagination = pagination;
      source_names = list_job_source_names o.sql user_id db;
      locations = list_job_locations o.sql user_id db;
      states = list_job_states o.sql user_id db;
      users = users;
      zip_error = nonempty q.zip_code && is_none (o.geocode q.zip_code);
      active_filters = active_job_filters o.urlencode pairs q users;
    }
