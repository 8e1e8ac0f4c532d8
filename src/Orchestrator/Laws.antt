-- ===== src/Orchestrator/Laws.antt =====
-- A whole run: whose rows it touches, what it keeps, and that a second run finds nothing new.
use career_spyder.Orchestrator.{
  nothing, collect_all, active, check_step, World, Times, Collected, dedupe, store, settle,
  conclude, concluded, run_once,
}
use career_spyder.Prelude.{
  length, ◌⊎◌, inl, inr, Bool-cases, any, is_none, find, ℕ, ◌≡◌, ◌≢◌, refl, ◌∙◌, String, Option,
  none, some, List, map, eq_refl,
}
use career_spyder.Models.{Job, FailedSource}
use career_spyder.Config.{Source}
use career_spyder.Database.{JobRow, owned, Database}
use career_spyder.Jobs.{save_jobs, get_new_jobs, refresh_job_urls}
use career_spyder.Jobs.Isolation.{SameFor, JobStep, JobStep-SameFor, saved, refreshed}
use career_spyder.Jobs.Isolation
use career_spyder.Runs.{start_run, finish_run}
use career_spyder.RunProgress
use career_spyder.RunProgress.{Progress}
use career_spyder.Geocoding.{geocode_pending, Outcome}
use career_spyder.Result.{Result, ok, err, other_error, ◌>>=◌}
use career_spyder.Checker.{Answer, mark_answers, check_job_urls, raises, rows_to_check}
use career_spyder.Checker.Laws.{mark_answers-SameFor, is_none-mark_answers}

pub SameFor-trans : (v : String) (a b c : Database) → SameFor v a b → SameFor v b c → SameFor v a c
SameFor-trans v a b c h k = record { jobs = k.jobs ∙ h.jobs; history = k.history ∙ h.history }

pub SameFor-start_run :
    (now : ℕ) (kind v : String) (u : Option String) (db : Database)
    → SameFor v db (start_run now kind u db).0
unfolding start_run
SameFor-start_run now kind v u db = record { jobs = refl; history = refl }

SameFor-geocode_pending :
    (now : ℕ) (name v : String) (geocode : String → Outcome) (db : Database)
    → SameFor v db (geocode_pending now name geocode db)
unfolding geocode_pending
SameFor-geocode_pending now name v geocode db = record { jobs = refl; history = refl }

pub SameFor-finish_run :
    (now run_id n m : ℕ) (failed : List FailedSource) (v : String) (db : Database)
    → SameFor v db (finish_run now run_id n failed m db)
unfolding finish_run
SameFor-finish_run now run_id n m failed v db = record { jobs = refl; history = refl }

check_job_urls-cases :
    (now : ℕ) (answer : String → Option Answer) (who : Option String) (db : Database)
    → (check_job_urls now answer who db ≡ ok (mark_answers now answer who db))
      ⊎ (check_job_urls now answer who db ≡ err other_error)
unfolding check_job_urls
check_job_urls-cases now answer who db =
    elim (Bool-cases (any (λ (r : JobRow). raises (answer r.url)) (rows_to_check who db.jobs))) [
      | inl e ↦ inr (rw e refl)
      | inr e ↦ inl (rw e refl)
    ]

-- The check marks what was answered, or the database stays as it is.
check_step-cases :
    (now : ℕ) (answer : String → Option Answer) (u : String) (db : Database)
    → ((check_step now answer u db).0 ≡ (mark_answers now answer (some u) db).0)
      ⊎ ((check_step now answer u db).0 ≡ db)
unfolding check_step
check_step-cases now answer u db = elim (check_job_urls-cases now answer (some u) db) [
  | inl marked ↦ inl (rw (marked, check_step) refl)
  | inr stopped ↦ inr (rw (stopped, check_step) refl)
]

check_step-SameFor :
    (now : ℕ) (answer : String → Option Answer) (u v : String) (db : Database)
    → u ≢ v
    → SameFor v db (check_step now answer u db).0
check_step-SameFor now answer u v db ne = elim (check_step-cases now answer u db) [
  | inl marked ↦ rw marked (mark_answers-SameFor now answer u v db ne)
  | inr kept ↦ rw kept (record { jobs = refl; history = refl })
]

-- A check neither adds nor drops a row.
pub is_none-check_step :
    (now : ℕ) (answer : String → Option Answer) (u v k : String) (db : Database)
    → is_none (find (owned v k) (check_step now answer u db).0.jobs)
      ≡ is_none (find (owned v k) db.jobs)
is_none-check_step now answer u v k db = elim (check_step-cases now answer u db) [
  | inl marked ↦ rw marked (is_none-mark_answers now answer (some u) v k db)
  | inr kept ↦ rw kept refl
]

settle-SameFor :
    (times : Times) (u v : String) (sources : List Source) (c : Collected) (db : Database)
    → u ≢ v
    → SameFor v db (settle times u sources c db)
unfolding settle
settle-SameFor times u v sources c db ne =
    let two = (refresh_job_urls u (dedupe c.all_raw_jobs) db).0 in
    SameFor-trans v db two _ (JobStep-SameFor u v ne (refreshed {db = db} (dedupe c.all_raw_jobs)))
      (JobStep-SameFor u v ne (
        Isolation.reconciled {db = two} times.reconciled (map (λ (s : Source). s.id) sources)
          c.succeeded_source_ids (dedupe c.all_raw_jobs)))

conclude-SameFor :
    (world : World) (times : Times) (u v : String) (run_id n : ℕ) (c : Collected)
    (new_jobs : List Job) (db : Database)
    → u ≢ v
    → SameFor v db (conclude world times u run_id n c new_jobs db).0
unfolding conclude
conclude-SameFor world times u v run_id n c new_jobs db ne =
    let geocoded = geocode_pending times.geocoded world.geocoder_name world.geocode db in
    let checked = (check_step times.checked world.answer u geocoded).0 in
    SameFor-trans v db geocoded _ (SameFor-geocode_pending _ _ v world.geocode db) (
      SameFor-trans v geocoded checked _
        (check_step-SameFor times.checked world.answer u v geocoded ne)
        (SameFor-finish_run _ _ _ _ _ v checked))

-- Whatever became of saving, which raises or leaves `saved`.
concluded-SameFor :
    (world : World) (times : Times) (u v : String) (sources : List Source) (run_id n : ℕ)
    (c : Collected) (new_jobs : List Job) (begun : Database) (saved_jobs : Result Database)
    → u ≢ v
    → ((db : Database) → saved_jobs ≡ ok db → SameFor v begun db)
    → SameFor v begun
        (concluded world times u run_id n c new_jobs begun
          (saved_jobs >>= (λ db. ok (settle times u sources c db)))).0
unfolding concluded
concluded-SameFor world times u v sources run_id n c new_jobs begun (err e) ne h = record {
  jobs = refl;
  history = refl;
}
concluded-SameFor world times u v sources run_id n c new_jobs begun (ok db) ne h =
    SameFor-trans v begun db _ (h db refl) (
      SameFor-trans v db (settle times u sources c db) _ (settle-SameFor times u v sources c db ne)
        (conclude-SameFor world times u v run_id n c new_jobs _ ne))

-- A run for one user leaves the jobs and the status history of every other user as they were,
-- whatever the adapters, the geocoder and the checked addresses answer and whether or not saving raises,
-- and its own progress entry is gone at the end.
pub run_once-SameFor :
    (world : World) (times : Times) (sources : List Source) (u v : String) (db : Database)
    (p : Progress)
    → u ≢ v
    → SameFor v db (run_once world times sources u (db, p)).0.0
      × (RunProgress.get u (run_once world times sources u (db, p)).0.1 ≡ none)
unfolding run_once store RunProgress.get RunProgress.finish
run_once-SameFor world times sources u v db p ne =
    let begun = (start_run times.started "scrape" (some u) db).0 in
    let run_id = (start_run times.started "scrape" (some u) db).1 in
    let n = length (active sources) in
    let c = (collect_all world u 0 (active sources) (nothing, RunProgress.start u n p)).0 in
    let fresh = get_new_jobs u (dedupe c.all_jobs) begun in
    (
      SameFor-trans v db begun _ (SameFor-start_run times.started "scrape" v (some u) db) (
          concluded-SameFor world times u v sources run_id n c fresh begun
            (save_jobs times.saved fresh run_id u begun) ne
            (λ new h.
              JobStep-SameFor u v ne (saved {db = begun} {db' = new} times.saved run_id fresh h))),
      rw (eq_refl u),
    )
