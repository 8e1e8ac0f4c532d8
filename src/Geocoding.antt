-- ===== src/Geocoding.antt =====
-- app/geocoding/service.py. `geocode` stands for the geocoder that is configured, `name` for its
-- name; the pause between requests does not show in the result.
use career_spyder.Prelude.{ℕ, ℤ, String, ◌==◌, Option, none, some, List, [], ◌∷◌, map, filter}
use career_spyder.Database.{Database, LocationRow}
use career_spyder.Table.{update_where}

pub record GeocodeResult : Type 0 where
  pub display_name : String
  pub city : Option String
  pub region : Option String
  pub country : Option String
  pub lat : ℤ
  pub lng : ℤ

-- What a call of `geocode` does: a result or `None`, a transient error, another exception.
pub data Outcome : Type 0 where
  found : Option GeocodeResult → Outcome
  transient : Outcome
  failure : Outcome

unfoldable pub mark_failed : ℕ → LocationRow → LocationRow
mark_failed now r = record r { status = "failed"; resolved_at = some now }

unfoldable pub mark_resolved : ℕ → String → GeocodeResult → LocationRow → LocationRow
mark_resolved now name result r = record r {
  status = "resolved";
  display_name = some result.display_name;
  city = result.city;
  region = result.region;
  country = result.country;
  lat = some result.lat;
  lng = some result.lng;
  provider = some name;
  resolved_at = some now;
}

unfoldable pub settle : ℕ → String → Outcome → String → List LocationRow → List LocationRow
unfolding mark_failed mark_resolved
settle now name transient location rows = rows
settle now name failure location rows =
    update_where (λ (r : LocationRow). r.location == location) (mark_failed now) rows
settle now name (found none) location rows =
    update_where (λ (r : LocationRow). r.location == location) (mark_failed now) rows
settle now name (found (some result)) location rows =
    update_where (λ (r : LocationRow). r.location == location) (mark_resolved now name result) rows

unfoldable pub settle_all :
    ℕ → String → (String → Outcome) → List String → List LocationRow → List LocationRow
unfolding settle
settle_all now name geocode [] rows = rows
settle_all now name geocode (location ∷ rest) rows =
    settle_all now name geocode rest (settle now name (geocode location) location rows)

unfoldable pub geocode_pending : ℕ → String → (String → Outcome) → Database → Database
unfolding settle_all
geocode_pending now name geocode db =
    let pending =
      map (λ (r : LocationRow). r.location)
        (filter (λ (r : LocationRow). r.status == "pending") db.locations) in
    record db { locations = settle_all now name geocode pending db.locations }
