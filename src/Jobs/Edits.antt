-- ===== src/Jobs/Edits.antt =====
-- app/db.py: what a user changes on one job or on a selection, and reads of chosen keys.
use career_spyder.Prelude.{
  ℕ, suc, ℤ, String, ◌==◌, true, false, ◌&&◌, Option, none, some, List, [], ◌∷◌, ◌++◌, map, any,
  filter, elem, is_none, is_some, if◌then◌else◌, length, nat_eq,
}
use career_spyder.Result.{Result, ok, err, key_error, ◌>>=◌}
use career_spyder.Database.{Database, JobRow, LocationRow, owned}
use career_spyder.Table.{update_where, count_where}

-- `UPDATE jobs SET ... WHERE user_id = %s AND key = %s`, with `KeyError` where no row is there.
unfoldable pub update_job : (JobRow → JobRow) → String → String → Database → Result Database
update_job f user_id key db =
    if nat_eq (count_where (owned user_id key) db.jobs) 0
    then err (key_error key)
    else ok (record db { jobs = update_where (owned user_id key) f db.jobs })

unfoldable pub add_history : ℕ → String → String → Option String → Database → Database
add_history now user_id key status db = record db {
  history =
      db.history
      ++ record {
        id = db.next_history_id;
        user_id = user_id;
        job_key = key;
        status = status;
        changed_at = now;
      }
        ∷ [];
  next_history_id = suc db.next_history_id;
}

unfoldable pub mark_job_removed : ℕ → String → String → Database → Result Database
mark_job_removed now user_id key db =
    if any (owned user_id key) db.jobs
    then ok (record db {
      jobs =
          update_where (λ r. owned user_id key r && is_none r.removed_at)
            (λ (r : JobRow). record r { removed_at = some now }) db.jobs;
    })
    else err (key_error key)

unfoldable pub set_job_status : ℕ → String → String → Option String → Database → Result Database
unfolding update_job
set_job_status now user_id key status db = do
  changed ← update_job (λ (r : JobRow). record r { status = status }) user_id key db
  ok (add_history now user_id key status changed)

unfoldable pub add_histories : ℕ → String → Option String → List String → Database → Database
add_histories now user_id status [] db = db
add_histories now user_id status (k ∷ keys) db =
    add_histories now user_id status keys (add_history now user_id k status db)

-- The number counts the rows that `RETURNING key` gives.
unfoldable pub bulk_set_status : ℕ → String → List String → Option String → Database → Database × ℕ
bulk_set_status now user_id [] status db = (db, 0)
bulk_set_status now user_id (first ∷ others) status db =
    let chosen = λ (r : JobRow). r.user_id == user_id && elem r.key (first ∷ others) in
    let updated_keys = map (λ (r : JobRow). r.key) (filter chosen db.jobs) in
    (
      add_histories now user_id status updated_keys (record db {
        jobs = update_where chosen (λ (r : JobRow). record r { status = status }) db.jobs;
      }),
      length updated_keys,
    )

unfoldable pub set_job_notes : String → String → String → Database → Result Database
unfolding update_job
set_job_notes user_id key notes =
    update_job (λ (r : JobRow). record r { notes = some notes }) user_id key

unfoldable pub set_job_duplicate : String → String → Option String → Database → Result Database
unfolding update_job
set_job_duplicate user_id key duplicate_of =
    update_job (λ (r : JobRow). record r { is_duplicate = true; duplicate_of = duplicate_of })
      user_id key

unfoldable pub clear_job_duplicate : String → String → Database → Result Database
unfolding update_job
clear_job_duplicate user_id key =
    update_job (λ (r : JobRow). record r { is_duplicate = false; duplicate_of = none }) user_id key

unfoldable pub clear_location_override : String → String → Database → Result Database
unfolding update_job
clear_location_override user_id key =
    update_job (λ (r : JobRow). record r { location_override = none }) user_id key

-- The values of `INSERT INTO geocoded_locations` in `set_location_override`.
unfoldable pub upsert_location : LocationRow → List LocationRow → List LocationRow
upsert_location new rows =
    if any (λ (r : LocationRow). r.location == new.location) rows
    then update_where (λ (r : LocationRow). r.location == new.location) (λ _. new) rows
    else rows ++ new ∷ []

unfoldable pub set_location_override :
    (now : ℕ) (user_id key location : String) (display_name city region country : Option String)
    (lat lng : Option ℤ) (provider : Option String)
    → Database
    → Result Database
unfolding upsert_location
set_location_override now user_id key location display_name city region country lat lng provider
      db =
    if any (owned user_id key) db.jobs
    then ok (record db {
      locations =
          upsert_location
            (record {
              location = location;
              display_name = display_name;
              city = city;
              region = region;
              country = country;
              lat = lat;
              lng = lng;
              status = "manual";
              provider = provider;
              resolved_at = some now;
            })
            db.locations;
      jobs =
          update_where (owned user_id key)
            (λ (r : JobRow). record r { location_override = some location }) db.jobs;
    })
    else err (key_error key)

-- The pairs of the returned dictionary.
unfoldable pub get_job_statuses : String → List String → Database → List (String × Option String)
get_job_statuses user_id [] db = []
get_job_statuses user_id (first ∷ others) db =
    map (λ (r : JobRow). (r.key, r.status))
      (filter (λ (r : JobRow). r.user_id == user_id && elem r.key (first ∷ others)) db.jobs)

unfoldable pub get_emailed_keys : String → List String → Database → List String
get_emailed_keys user_id [] db = []
get_emailed_keys user_id (first ∷ others) db =
    map (λ (r : JobRow). r.key)
      (filter
        (λ (r : JobRow).
          r.user_id == user_id && elem r.key (first ∷ others) && is_some r.emailed_at)
        db.jobs)
