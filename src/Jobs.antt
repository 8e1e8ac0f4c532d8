-- ===== src/Jobs.antt =====
-- app/db.py, the `jobs` and `job_status_history` tables. An operation that commits returns the
-- new database; one that raises before it commits returns the error, and the database is the old
-- one, since the connection's context rolls back.
pub mod Edits
pub mod Rows
pub mod Save
pub mod Reconcile
pub mod Outcomes
pub mod Isolation
pub mod History
pub mod Listing
use career_spyder.Prelude.{
  ℕ, zero, suc, ◌+◌, String, ◌==◌, Bool, true, false, not, ◌&&◌, ◌||◌, Option, none, some, List, [],
  ◌∷◌, ◌++◌, map, any, filter, find, elem, is_none, is_some, text_or, truthy, if◌then◌else◌, length,
  nonempty, opt_eq, drop,
}
use career_spyder.Result.{Result, ok, err, other_error}
use career_spyder.Models.{Job}
use career_spyder.Database.{Database, JobRow, LocationRow, HistoryRow, owned}
use career_spyder.Table.{update_where, delete_where, count_where, insert_unless}

unfoldable pub get_new_jobs : String → List Job → Database → List Job
get_new_jobs user_id [] db = []
get_new_jobs user_id (first ∷ others) db =
    let jobs = first ∷ others in
    let keys = map (λ (j : Job). j.key) jobs in
    let rows = filter (λ (r : JobRow). r.user_id == user_id && elem r.key keys) db.jobs in
    let known = map (λ (r : JobRow). r.key) rows in
    filter (λ (j : Job). not (elem j.key known)) jobs

-- One parameter tuple of the first `executemany` of `save_jobs`. The set of locations is taken in the
-- order of the jobs; a location that occurs again conflicts with its own row.
unfoldable pub add_pending : String → List LocationRow → List LocationRow
add_pending loc =
    insert_unless (λ (r : LocationRow). r.location == loc)
      (record {
        location = loc;
        display_name = none;
        city = none;
        region = none;
        country = none;
        lat = none;
        lng = none;
        status = "pending";
        provider = none;
        resolved_at = none;
      })

unfoldable pub add_locations : List Job → List LocationRow → List LocationRow
add_locations [] rows = rows
add_locations (j ∷ jobs) rows = add_locations jobs (elim j.location [
  | none ↦ rows
  | some loc ↦ if nonempty loc then add_pending loc rows else rows
])

unfoldable pub new_row : ℕ → ℕ → String → Job → JobRow
new_row now run_id user_id j = record {
  key = j.key;
  title = j.title;
  company = j.company;
  location = j.location;
  location_override = none;
  url = j.url;
  posted_date = j.posted_date;
  source_name = j.source_name;
  source_id = j.source_id;
  summary = j.summary;
  first_seen_run_id = some run_id;
  first_seen_at = now;
  removed_at = none;
  emailed_at = none;
  status = none;
  is_duplicate = false;
  duplicate_of = none;
  user_id = user_id;
  notes = none;
}

-- `INSERT INTO jobs ... ON CONFLICT (user_id, key) DO NOTHING`, once for each job.
unfoldable pub insert_jobs : ℕ → ℕ → String → List Job → List JobRow → List JobRow
insert_jobs now run_id user_id [] rows = rows
insert_jobs now run_id user_id (j ∷ jobs) rows =
    insert_jobs now run_id user_id jobs
      (insert_unless (owned user_id j.key) (new_row now run_id user_id j) rows)

-- The two statements of `save_jobs`.
unfoldable pub put_jobs : ℕ → List Job → ℕ → String → Database → Database
put_jobs now [] run_id user_id db = db
put_jobs now (first ∷ others) run_id user_id db = record db {
  locations = add_locations (first ∷ others) db.locations;
  jobs = insert_jobs now run_id user_id (first ∷ others) db.jobs;
}

-- A row whose location has no row of its own: `save_jobs` adds one for every location but the empty text.
abbrev pub is_blank : JobRow → Bool
is_blank r = opt_eq r.location (some "")

-- A row with the empty location among those added breaks the foreign key of `jobs.location`: the insert
-- raises, and nothing is committed.
unfoldable pub save_jobs : ℕ → List Job → ℕ → String → Database → Result Database
unfolding put_jobs
save_jobs now jobs run_id user_id db =
    let saved = put_jobs now jobs run_id user_id db in
    if any is_blank (drop (length db.jobs) saved.jobs) then err other_error else ok saved

abbrev pub stale : String → Job → JobRow → Bool
stale user_id j r = owned user_id j.key r && not (r.url == j.url)

-- The rows after the updates, and the rows counted.
unfoldable pub refresh_rows : String → List Job → List JobRow → List JobRow × ℕ
refresh_rows user_id [] rows = (rows, 0)
refresh_rows user_id (j ∷ jobs) rows =
    let rest =
      refresh_rows user_id jobs
        (update_where (stale user_id j) (λ (r : JobRow). record r { url = j.url }) rows) in
    (rest.0, count_where (stale user_id j) rows + rest.1)

unfoldable pub refresh_job_urls : String → List Job → Database → Database × ℕ
refresh_job_urls user_id [] db = (db, 0)
refresh_job_urls user_id (first ∷ others) db =
    let done = refresh_rows user_id (first ∷ others) db.jobs in
    (record db { jobs = done.0 }, done.1)

unfoldable pub clear_jobs : String → Database → Database
clear_jobs user_id db = record db {
  jobs = delete_where (λ (r : JobRow). r.user_id == user_id) db.jobs;
  history = delete_where (λ (h : HistoryRow). h.user_id == user_id) db.history;
}

unfoldable pub mark_emailed : ℕ → String → List String → Database → Database
mark_emailed now user_id [] db = db
mark_emailed now user_id (first ∷ others) db = record db {
  jobs =
      update_where (λ (r : JobRow). r.user_id == user_id && elem r.key (first ∷ others))
        (λ (r : JobRow). record r { emailed_at = some now }) db.jobs;
}

unfoldable pub row_to_job : JobRow → Job
row_to_job r = record {
  key = r.key;
  title = r.title;
  url = r.url;
  company = r.company;
  location = r.location;
  posted_date = r.posted_date;
  source_name = r.source_name;
  source_id = r.source_id;
  summary = r.summary;
}

-- `user_id=None` asks for every user's rows.
unfoldable pub get_unemailed_jobs : Option String → Database → List Job
get_unemailed_jobs none db =
    map row_to_job (filter (λ (r : JobRow). is_none r.emailed_at && is_none r.removed_at) db.jobs)
get_unemailed_jobs (some user_id) db = map row_to_job (
    filter (λ (r : JobRow). is_none r.emailed_at && is_none r.removed_at && r.user_id == user_id)
      db.jobs)

-- Whether a run no longer accounts for an active row. `deleted_source_ids` are the source ids of
-- the active rows outside the configured ones, so for an active row `sid in deleted_source_ids`
-- is `sid not in configured_source_ids`.
unfoldable pub is_gone : List String → List String → List String → JobRow → Bool
is_gone configured succeeded found r = elim r.source_id [
  | none ↦ false
  | some sid ↦ elem sid succeeded && not (elem r.key found) || not (elem sid configured)
]

unfoldable pub remove_keys :
    String → List String → List String → List String → List JobRow → List String
remove_keys user_id configured succeeded found rows =
    map (λ (r : JobRow). r.key)
      (filter (is_gone configured succeeded found) (
        filter
          (λ (r : JobRow). r.user_id == user_id && (is_none r.removed_at && is_some r.source_id))
          rows))

unfoldable pub mark_removed_rows : ℕ → String → List String → List JobRow → List JobRow
mark_removed_rows now user_id keys =
    update_where (λ (r : JobRow). r.user_id == user_id && elem r.key keys)
      (λ (r : JobRow). record r { removed_at = some now })

unfoldable pub reactivate_keys : String → List String → List JobRow → List String
reactivate_keys user_id found rows =
    filter (λ k. elem k found)
      (map (λ (r : JobRow). r.key)
        (filter (λ (r : JobRow). r.user_id == user_id && is_some r.removed_at) rows))

unfoldable pub reactivate_rows : String → List String → List JobRow → List JobRow
reactivate_rows user_id keys =
    update_where (λ (r : JobRow). r.user_id == user_id && elem r.key keys)
      (λ (r : JobRow). record r { removed_at = none; emailed_at = none })

unfoldable pub reconcile_jobs :
    ℕ → String → List String → List String → List Job → Database → Database
reconcile_jobs now user_id configured succeeded found_jobs db =
    let found = map (λ (j : Job). j.key) found_jobs in
    let marked =
      mark_removed_rows now user_id (remove_keys user_id configured succeeded found db.jobs)
        db.jobs in
    record db { jobs = reactivate_rows user_id (reactivate_keys user_id found marked) marked }
