-- ===== src/Runs.antt =====
-- app/db.py, the `runs` table.
pub mod Laws
use career_spyder.Prelude.{
  ℕ, zero, suc, ◌+◌, String, ◌==◌, Bool, true, false, not, ◌&&◌, ◌||◌, Option, none, some, List, [],
  ◌∷◌, ◌++◌, map, any, filter, find, elem, is_none, is_some, if◌then◌else◌, length, nat_eq, leb,
  ltb, opt_eq,
}
use career_spyder.Models.{FailedSource}
use career_spyder.Database.{Database, RunRow, FailedEntry, bare, full, UserRow}
use career_spyder.Table.{update_where, count_where}
use career_spyder.Sort.{sort, page}

-- The generated id counts up. The number is the new run's id.
unfoldable pub start_run : ℕ → String → Option String → Database → Database × ℕ
start_run now kind user_id db = (
  record db {
    runs =
        db.runs
        ++ record {
          id = db.next_run_id;
          started_at = now;
          finished_at = none;
          new_job_count = 0;
          failed_sources = [];
          kind = kind;
          user_id = user_id;
          source_count = 0;
        }
          ∷ [];
    next_run_id = suc db.next_run_id;
  },
  db.next_run_id,
)

unfoldable pub finish_run : ℕ → ℕ → ℕ → List FailedSource → ℕ → Database → Database
finish_run now run_id new_job_count failed_sources source_count db = record db {
  runs =
      update_where (λ (r : RunRow). nat_eq r.id run_id)
        (λ (r : RunRow). record r {
          finished_at = some now;
          new_job_count = new_job_count;
          failed_sources = map full failed_sources;
          source_count = source_count;
        })
        db.runs;
}

-- `MAX(finished_at)`
unfoldable pub latest : Option ℕ → List RunRow → Option ℕ
latest best [] = best
latest best (r ∷ rs) =
    latest
      (elim r.finished_at [
        | none ↦ best
        | some t ↦ elim best [ none ↦ some t | some b ↦ if ltb b t then some t else some b ]
      ])
      rs

-- `local_date` turns a time into the number of its day in the zone asked for.
unfoldable pub get_last_run_date : (ℕ → ℕ) → Database → Option ℕ
unfolding latest
get_last_run_date local_date db =
    elim (latest none
      (filter (λ (r : RunRow). r.kind == "scrape" && is_some r.finished_at) db.runs)) [
        | none ↦ none
        | some finished ↦ some (local_date finished)
      ]

unfoldable pub deserialize_failed_sources : List FailedEntry → List FailedSource
deserialize_failed_sources [] = []
deserialize_failed_sources (bare name ∷ entries) =
    record { name = name; url = none; source_id = none } ∷ deserialize_failed_sources entries
deserialize_failed_sources (full failed ∷ entries) = failed ∷ deserialize_failed_sources entries

abbrev is_empty : List FailedEntry → Bool
is_empty [] = true
is_empty (e ∷ es) = false

-- The WHERE clause as the rows that it keeps.
unfoldable pub run_where : Option String → Option String → RunRow → Bool
run_where failures user_id r =
    (if opt_eq failures (some "only")
      then not (is_empty r.failed_sources)
      else if opt_eq failures (some "clean")
      then is_empty r.failed_sources
      else true)
    && (elim user_id [ none ↦ true | some u ↦ opt_eq r.user_id (some u) ])

-- A column that runs are sorted by; NULL comes after every value.
unfoldable pub null_le : Option ℕ → Option ℕ → Bool
null_le a none = true
null_le none (some b) = false
null_le (some a) (some b) = leb a b

abbrev pub sort_column : String → RunRow → Option ℕ
sort_column sort_by r =
    if sort_by == "started_at"
    then some r.started_at
    else if sort_by == "finished_at"
    then r.finished_at
    else if sort_by == "new_job_count"
    then some r.new_job_count
    else some r.id

-- `ORDER BY column ASC, runs.id ASC`
unfoldable pub run_le : String → RunRow → RunRow → Bool
run_le sort_by a b =
    let x = sort_column sort_by a in
    let y = sort_column sort_by b in
    if null_le x y then (if null_le y x then leb a.id b.id else true) else false

unfoldable pub run_order : String → String → RunRow → RunRow → Bool
unfolding run_le null_le
run_order sort_by direction a b =
    if direction == "asc" then run_le sort_by a b else run_le sort_by b a

-- A run as it is listed.
pub record RunItem : Type 0 where
  pub run : RunRow
  pub failed_sources : List FailedSource
  pub username : Option String

abbrev username_of : List UserRow → Option String → Option String
username_of users none = none
username_of users (some u) = elim (find (λ (x : UserRow). x.id == u) users) [
  | none ↦ none
  | some x ↦ some x.username
]

unfoldable pub list_runs :
    (limit offset : ℕ) (sort_by direction : String) (failures user_id : Option String)
    → Database
    → List RunItem
list_runs limit offset sort_by direction failures user_id db =
    map
      (λ (r : RunRow). record {
        run = r;
        failed_sources = deserialize_failed_sources r.failed_sources;
        username = username_of db.users r.user_id;
      })
      (page limit offset
        (sort (run_order sort_by direction) (filter (run_where failures user_id) db.runs)))

unfoldable pub count_runs : Option String → Option String → Database → ℕ
count_runs failures user_id db = count_where (run_where failures user_id) db.runs

-- The newest run of the user that is no check of addresses.
unfoldable pub last_scrape : String → Database → Option RunRow
unfolding run_order
last_scrape user_id db =
    elim (sort (run_order "started_at" "desc") (
      filter (λ (r : RunRow). opt_eq r.user_id (some user_id) && not (r.kind == "url_check"))
        db.runs)) [ [] ↦ none | r ∷ rs ↦ some r ]

unfoldable pub source_last_run_status : List String → String → Database → List (String × String)
source_last_run_status [] user_id db = []
source_last_run_status (first ∷ others) user_id db =
    let source_names = first ∷ others in
    elim (last_scrape user_id db) [
      | none ↦ map (λ (name : String). (name, "never")) source_names
      | some r ↦
          let failed_set =
            map (λ (f : FailedSource). f.name) (deserialize_failed_sources r.failed_sources) in
          map (λ (name : String). (name, if elem name failed_set then "failed" else "ok"))
            source_names
    ]
