-- ===== src/Examples/Tracked.antt =====
-- The jobs table at concrete rows.
use career_spyder.Examples.{err, db, world, found_jobs, alice_is_not_bob}
use career_spyder.Prelude.{
  String, ◌==◌, ◌&&◌, ◌≡◌, refl, none, some, [], ◌∷◌, ◌++◌, map, filter, find, elem, is_none,
  map_option, if◌then◌else◌,
}
use career_spyder.Result.{err, key_error, ok}
use career_spyder.Database.{JobRow, owned, Database}
use career_spyder.Table.{count_where}
use career_spyder.Jobs.History.{entries, edits-key_error, bulk_set_status_lem}
use career_spyder.Jobs.Edits.{
  set_job_duplicate, set_location_override, clear_location_override, set_job_status,
  bulk_set_status, mark_job_removed, set_job_notes, clear_job_duplicate,
}
use career_spyder.Jobs.{save_jobs, get_new_jobs, mark_emailed, reconcile_jobs, put_jobs}
use career_spyder.Jobs.Rows.{IsKeyed}
use career_spyder.Jobs.Isolation.{SameFor, done, next, saved, emailed, OthersRun-SameFor}
use career_spyder.Jobs.Reconcile.{reconciled, find-reconcile_jobs}
use career_spyder.Jobs.Save.{save_jobs-eq-ok, saved_row, get_new_jobs-save_jobs, find-save_jobs}
use career_spyder.Checker.{mark_answers, is_removed, check_job_urls}
use career_spyder.Checker.Laws.{looked_at, find-check_job_urls}

pub db-IsKeyed : IsKeyed db.jobs
db-IsKeyed = (refl, (refl, (refl, tt)))

OthersRun-SameFor_example :
    SameFor "bob" db (mark_emailed 9 "alice" ("a" ∷ []) (put_jobs 5 found_jobs 1 "alice" db))
OthersRun-SameFor_example = OthersRun-SameFor "bob" (
    next "alice" alice_is_not_bob
      (next "alice" alice_is_not_bob done
        (saved {db = db} 5 1 found_jobs (save_jobs-eq-ok 5 1 "alice" found_jobs db refl refl)))
      (emailed 9 ("a" ∷ [])))

find-reconcile_jobs_example :
    find (owned "alice" "b") (reconcile_jobs 7 "alice" ("s1" ∷ []) ("s1" ∷ []) found_jobs db).jobs
    ≡ map_option
        (reconciled 7 "alice" ("s1" ∷ []) ("s1" ∷ []) ("b" ∷ "c" ∷ "c" ∷ []))
        (find (owned "alice" "b") db.jobs)
find-reconcile_jobs_example =
    find-reconcile_jobs 7 "alice" "alice" "b" ("s1" ∷ []) ("s1" ∷ []) found_jobs db db-IsKeyed

get_new_jobs-save_jobs_example :
    (db' : Database) × (save_jobs 5 (get_new_jobs "alice" found_jobs db) 1 "alice" db ≡ ok db')
    × (get_new_jobs "alice" found_jobs db' ≡ [])
unfolding get_new_jobs
get_new_jobs-save_jobs_example = get_new_jobs-save_jobs 5 1 "alice" found_jobs db refl refl

find-save_jobs_example :
    (db' : Database) × (save_jobs 5 found_jobs 1 "alice" db ≡ ok db')
    × (find (owned "alice" "c") db'.jobs ≡ (
        if is_none (find (owned "alice" "c") db.jobs)
        then saved_row 5 1 "alice" found_jobs "alice" "c"
        else find (owned "alice" "c") db.jobs))
find-save_jobs_example = find-save_jobs 5 1 "alice" "alice" "c" found_jobs db refl refl

find-check_job_urls_example :
    find (owned "alice" "a") (mark_answers 8 world.answer (some "alice") db).0.jobs
    ≡ map_option
        (λ (r : JobRow).
          if looked_at (some "alice") r && is_removed (world.answer r.url)
          then record r { removed_at = some 8 }
          else r)
        (find (owned "alice" "a") db.jobs)
unfolding check_job_urls
find-check_job_urls_example =
    find-check_job_urls 8 world.answer (some "alice") "alice" "a" db
      (mark_answers 8 world.answer (some "alice") db).0
      (mark_answers 8 world.answer (some "alice") db).1 db-IsKeyed refl

edits-key_error_example :
    (mark_job_removed 8 "bob" "b" db ≡ err (key_error "b"))
    × (set_job_status 8 "bob" "b" none db ≡ err (key_error "b"))
    × (set_job_notes "bob" "b" "call" db ≡ err (key_error "b"))
    × (set_job_duplicate "bob" "b" (some "a") db ≡ err (key_error "b"))
    × (clear_job_duplicate "bob" "b" db ≡ err (key_error "b"))
    × (set_location_override 8 "bob" "b" "call" none none none none none none none db
        ≡ err (key_error "b"))
    × (clear_location_override "bob" "b" db ≡ err (key_error "b"))
edits-key_error_example =
    edits-key_error 8 "bob" "b" "call" none (some "a") none none none none none none none db refl

bulk_set_status_lem_example :
    ((v j : String)
      → find (owned v j) (bulk_set_status 8 "alice" ("a" ∷ "b" ∷ []) (some "ignored") db).0.jobs
        ≡ map_option
            (λ (s : JobRow).
              if s.user_id == "alice" && elem s.key ("a" ∷ "b" ∷ [])
              then record s { status = some "ignored" }
              else s)
            (find (owned v j) db.jobs))
    × ((bulk_set_status 8 "alice" ("a" ∷ "b" ∷ []) (some "ignored") db).1
        ≡ count_where (λ (r : JobRow). r.user_id == "alice" && elem r.key ("a" ∷ "b" ∷ [])) db.jobs)
    × ((bulk_set_status 8 "alice" ("a" ∷ "b" ∷ []) (some "ignored") db).0.history
        ≡ db.history
          ++ entries db.next_history_id 8 "alice" (some "ignored") (
              map
                (λ (r : JobRow). r.key)
                (filter
                  (λ (r : JobRow). r.user_id == "alice" && elem r.key ("a" ∷ "b" ∷ []))
                  db.jobs)))
bulk_set_status_lem_example = bulk_set_status_lem 8 "alice" ("a" ∷ "b" ∷ []) (some "ignored") db
