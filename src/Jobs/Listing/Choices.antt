-- ===== src/Jobs/Listing/Choices.antt =====
-- app/db.py: the values that the filters of the job pages offer.
use career_spyder.Prelude.{
  String, ◌==◌, Bool, ◌||◌, Option, none, some, List, [], ◌∷◌, map, filter, if◌then◌else◌,
}
use career_spyder.Database.{Database, JobRow, LocationRow}
use career_spyder.Sort.{sort}
use career_spyder.Sources.{distinct}
use career_spyder.Jobs.Listing.{Sql, user_clause, place_of, place_name, place_region}

abbrev column_texts : List (Option String) → List String
column_texts [] = []
column_texts (none ∷ values) = column_texts values
column_texts (some text ∷ values) = text ∷ column_texts values

-- `SELECT DISTINCT ... ORDER BY LOWER(...)`
unfoldable pub distinct_texts : Sql → List (Option String) → List String
distinct_texts sql values = sort sql.lower_le (distinct (column_texts values))

unfoldable pub list_job_source_names : Sql → Option String → Database → List String
unfolding distinct_texts
list_job_source_names sql user_id db =
    distinct_texts sql
      (map (λ (r : JobRow). some r.source_name) (filter (user_clause user_id) db.jobs))

-- The places of the jobs that `test` takes.
unfoldable pub job_places :
    (LocationRow → Bool) → Option String → Database → List (Option LocationRow)
job_places test user_id db =
    map
      (λ (r : JobRow). elim (place_of r.location db) [
        | none ↦ none
        | some place ↦ if test place then some place else none
      ])
      (filter (user_clause user_id) db.jobs)

unfoldable pub list_job_locations : Sql → Option String → Database → List String
unfolding distinct_texts job_places
list_job_locations sql user_id db =
    distinct_texts sql (map place_name (job_places (λ p. p.status == "resolved") user_id db))

unfoldable pub list_job_states : Sql → Option String → Database → List String
unfolding distinct_texts job_places
list_job_states sql user_id db =
    distinct_texts sql (
      map place_region
        (job_places (λ p. p.status == "resolved" || p.status == "manual") user_id db))
