-- ===== src/Web/JobPages/Pins.antt =====
-- app/web/routes_jobs.py: the map of jobs.
use career_spyder.Prelude.{
  ℤ, pos, negsuc, String, Bool, true, false, not, ◌&&◌, Option, none, some, List, [], ◌∷◌, ◌++◌,
  elem, if◌then◌else◌, nat_eq,
}
use career_spyder.Database.{Database, UserRow, SettingsRow}
use career_spyder.Digest.{safe_url_scheme}
use career_spyder.Accounts.{get_settings}
use career_spyder.Jobs.Listing.{Filters}
use career_spyder.Jobs.Listing.Mappable.{MapItem, list_mappable_jobs}
use career_spyder.Jobs.Listing.Choices.{list_job_source_names, list_job_locations, list_job_states}
use career_spyder.Web.JobPages.{Query, chosen, near_of, is_admin, Outside}

-- The choices of the map's filters.
pub record MapView : Type 0 where
  pub source_names : List String
  pub locations : List String
  pub states : List String

unfoldable pub jobs_map : Outside → UserRow → Database → MapView
jobs_map o current db =
    let user_id : Option String = if is_admin current then none else some current.id in
    record {
      source_names = list_job_source_names o.sql user_id db;
      locations = list_job_locations o.sql user_id db;
      states = list_job_states o.sql user_id db;
    }

-- A pin of the map: the jobs at a place.
pub record Pin : Type 0 where
  pub lat : Option ℤ
  pub lng : Option ℤ
  pub display_name : Option String
  pub jobs : List (MapItem × String)

abbrev int_eq : ℤ → ℤ → Bool
int_eq (pos a) (pos b) = nat_eq a b
int_eq (pos a) (negsuc b) = false
int_eq (negsuc a) (pos b) = false
int_eq (negsuc a) (negsuc b) = nat_eq a b

abbrev pub coordinate_eq : Option ℤ → Option ℤ → Bool
coordinate_eq none none = true
coordinate_eq none (some b) = false
coordinate_eq (some a) none = false
coordinate_eq (some a) (some b) = int_eq a b

-- `grouped.setdefault((lat, lng), ...)["jobs"].append(...)`
unfoldable pub add_pin : MapItem × String → List Pin → List Pin
add_pin entry [] =
    record {
      lat = entry.0.lat;
      lng = entry.0.lng;
      display_name = entry.0.display_name;
      jobs = entry ∷ [];
    }
    ∷ []
add_pin entry (pin ∷ pins) =
    let rest = add_pin entry pins in
    if coordinate_eq pin.lat entry.0.lat && coordinate_eq pin.lng entry.0.lng
    then record pin { jobs = pin.jobs ++ entry ∷ [] } ∷ pins
    else pin ∷ rest

unfoldable pub group_pins : (scheme : String → Option String) → List Pin → List MapItem → List Pin
unfolding add_pin
group_pins scheme pins [] = pins
group_pins scheme pins (item ∷ items) =
    group_pins scheme (add_pin (item, safe_url_scheme scheme item.row.url) pins) items

abbrev hides_not_interested : Option SettingsRow → Bool
hides_not_interested none = true
hides_not_interested (some settings) = settings.hide_not_interested_on_map

unfoldable pub map_filters : (String → Option (ℤ × ℤ)) → UserRow → Query → Filters
unfolding near_of
map_filters geocode current q = record {
  company = chosen q.company;
  search = chosen q.search;
  source_name = q.source;
  removed = chosen q.removed;
  emailed = chosen q.emailed;
  status = q.status;
  location = chosen q.location;
  duplicates = none;
  state = q.state;
  near = near_of geocode q;
  user_id = if is_admin current then none else some current.id;
}

-- The query has no `duplicates` and no `user`.
unfoldable pub jobs_map_data : Outside → Query → UserRow → Database → List Pin
unfolding group_pins map_filters
jobs_map_data o q current db =
    let exclude_status : Option String =
      if hides_not_interested (get_settings current.id db) && not (elem "not_interested" q.status)
      then some "not_interested"
      else none in
    group_pins o.scheme []
      (list_mappable_jobs o.sql (map_filters o.geocode current q) exclude_status db)
