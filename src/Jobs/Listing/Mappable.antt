-- ===== src/Jobs/Listing/Mappable.antt =====
-- app/db.py: the jobs that the map shows.
use career_spyder.Prelude.{
  ℤ, String, Bool, not, ◌&&◌, ◌||◌, Option, none, some, List, map, filter, is_some, opt_eq,
}
use career_spyder.Database.{Database, JobRow, LocationRow}
use career_spyder.Jobs.Listing.{
  Sql, Filters, place_name, job_filters, place_of, when_given, place_status,
}

-- A job on the map.
pub record MapItem : Type 0 where
  pub row : JobRow
  pub is_overridden : Bool
  pub display_name : Option String
  pub lat : Option ℤ
  pub lng : Option ℤ

abbrev pub map_place : Database → JobRow → Option LocationRow
map_place db r =
    place_of (elim r.location_override [ none ↦ r.location | some name ↦ some name ]) db

unfoldable pub is_mappable :
    Sql → Filters → (exclude_status : Option String) → JobRow → Option LocationRow → Bool
unfolding job_filters
is_mappable sql f exclude_status r place =
    job_filters sql f r place
    && (opt_eq (place_status place) (some "resolved")
        || opt_eq (place_status place) (some "manual"))
    && when_given exclude_status (λ status. not (opt_eq r.status (some status)))

abbrev map_item : JobRow → Option LocationRow → MapItem
map_item r place = record {
  row = r;
  is_overridden = is_some r.location_override;
  display_name = place_name place;
  lat = elim place [ none ↦ none | some p ↦ p.lat ];
  lng = elim place [ none ↦ none | some p ↦ p.lng ];
}

unfoldable pub list_mappable_jobs : Sql → Filters → Option String → Database → List MapItem
unfolding is_mappable place_of
list_mappable_jobs sql f exclude_status db =
    map (λ (r : JobRow). map_item r (map_place db r))
      (filter (λ (r : JobRow). is_mappable sql f exclude_status r (map_place db r)) db.jobs)
