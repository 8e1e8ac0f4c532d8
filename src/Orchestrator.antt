-- ===== src/Orchestrator.antt =====
-- app/orchestrator.py. `World` stands for what a run meets outside: the adapters' results, the
-- geocoder and the HEAD answers. `_run_lock` makes a run one step; each operation reads the clock
-- for itself. Errors of the database itself are not modelled.
pub mod Dedupe
pub mod Collect
pub mod Laws
pub mod Again
use career_spyder.Result.{◌>>=◌, Result, ok, err}
use career_spyder.Prelude.{
  ℕ, zero, suc, ◌+◌, String, ◌==◌, Bool, true, false, Option, none, some, List, [], ◌∷◌, ◌++◌, map,
  filter, length, if◌then◌else◌,
}
use career_spyder.Models.{Job, FailedSource}
use career_spyder.Config.{Source, get_source_url}
use career_spyder.Database.{Database}
use career_spyder.Filters.{apply_keyword_filters}
use career_spyder.Jobs.{get_new_jobs, save_jobs, refresh_job_urls, reconcile_jobs}
use career_spyder.Runs.{start_run, finish_run}
use career_spyder.RunProgress
use career_spyder.RunProgress.{Progress}
use career_spyder.Checker.{Answer, check_job_urls}
use career_spyder.Geocoding.{Outcome, geocode_pending}

pub record World : Type 0 where
  pub lower : String → String
  pub adapter : Source → Result (List Job)
  pub geocoder_name : String
  pub geocode : String → Outcome
  pub answer : String → Option Answer

-- The clock's readings, one for each operation that takes one.
pub record Times : Type 0 where
  pub started : ℕ
  pub saved : ℕ
  pub reconciled : ℕ
  pub geocoded : ℕ
  pub checked : ℕ
  pub finished : ℕ

pub record RunSummary : Type 0 where
  pub run_id : ℕ
  pub new_jobs : List Job
  pub found_jobs : List Job
  pub failed_sources : List FailedSource
  pub url_removed_count : ℕ

-- The variables of the loop over the sources.
pub record Collected : Type 0 where
  pub all_jobs : List Job
  pub all_raw_jobs : List Job
  pub succeeded_source_ids : List String
  pub failed_sources : List FailedSource

abbrev pub nothing : Collected
nothing = record {
  all_jobs = [];
  all_raw_jobs = [];
  succeeded_source_ids = [];
  failed_sources = [];
}

-- One round, after the call of the adapter.
unfoldable pub collect : (String → String) → Source → Result (List Job) → Collected → Collected
collect lower source (err e) c = record c {
  failed_sources =
      c.failed_sources
      ++ record { name = source.name; url = get_source_url source; source_id = some source.id }
        ∷ [];
}
collect lower source (ok found) c = record c {
  all_jobs =
      c.all_jobs
      ++ apply_keyword_filters lower found source.include_keywords source.exclude_keywords;
  all_raw_jobs = c.all_raw_jobs ++ found;
  succeeded_source_ids = c.succeeded_source_ids ++ source.id ∷ [];
}

unfoldable pub collect_all :
    World → String → ℕ → List Source → Collected × Progress → Collected × Progress
unfolding collect
collect_all world user_id i [] (c, p) = (c, p)
collect_all world user_id i (source ∷ rest) (c, p) = collect_all world user_id (suc i) rest (
  collect world.lower source (world.adapter source) c,
  RunProgress.update user_id source.name i p,
)

-- `list({j.key: j for j in jobs}.values())`: a key keeps its first place and its last job.
unfoldable pub put_job : Job → List Job → List Job
put_job j [] = j ∷ []
put_job j (i ∷ jobs) = if i.key == j.key then j ∷ jobs else i ∷ put_job j jobs

unfoldable pub dedupe_from : List Job → List Job → List Job
unfolding put_job
dedupe_from kept [] = kept
dedupe_from kept (j ∷ jobs) = dedupe_from (put_job j kept) jobs

unfoldable pub dedupe : List Job → List Job
unfolding dedupe_from
dedupe jobs = dedupe_from [] jobs

abbrev pub active : List Source → List Source
active sources = filter (λ (s : Source). s.enabled) sources

-- The addresses and the removals, after the new jobs are saved.
unfoldable pub settle : Times → String → List Source → Collected → Database → Database
unfolding dedupe
settle times user_id sources c saved =
    let deduped_raw_jobs = dedupe c.all_raw_jobs in
    let refreshed = (refresh_job_urls user_id deduped_raw_jobs saved).0 in
    reconcile_jobs times.reconciled user_id (map (λ (s : Source). s.id) sources)
      c.succeeded_source_ids deduped_raw_jobs refreshed

-- `err` where saving the new jobs raises.
unfoldable pub store : Times → String → List Source → ℕ → Collected → Database → Result Database
unfolding dedupe settle
store times user_id sources run_id c db =
    save_jobs times.saved (get_new_jobs user_id (dedupe c.all_jobs) db) run_id user_id db
    >>= (λ saved. ok (settle times user_id sources c saved))

-- The `try` around the check: where it raises, the run goes on with the database as it is.
unfoldable pub check_step : ℕ → (String → Option Answer) → String → Database → Database × ℕ
check_step now answer user_id db = elim (check_job_urls now answer (some user_id) db) [
  | err e ↦ (db, 0)
  | ok done ↦ done
]

-- The steps of a run after its jobs are stored.
unfoldable pub conclude :
    World → Times → String → ℕ → (active_count : ℕ) → Collected → List Job → Database → Database × ℕ
unfolding check_step
conclude world times user_id run_id active_count c new_jobs stored =
    let geocoded = geocode_pending times.geocoded world.geocoder_name world.geocode stored in
    let checked = check_step times.checked world.answer user_id geocoded in
    (
      finish_run times.finished run_id (length new_jobs) c.failed_sources active_count checked.0,
      checked.1,
    )

-- What is left where the new jobs are saved, and where saving raises: `start_run` has committed.
unfoldable pub concluded :
    World
    → Times
    → String
    → ℕ
    → (active_count : ℕ) → Collected
    → List Job
    → (begun : Database) → Result Database
    → Database × Result RunSummary
unfolding conclude
concluded world times user_id run_id active_count c new_jobs begun (err e) = (begun, err e)
concluded world times user_id run_id active_count c new_jobs begun (ok stored) =
    let done = conclude world times user_id run_id active_count c new_jobs stored in
    (
      done.0,
      ok (record {
        run_id = run_id;
        new_jobs = new_jobs;
        found_jobs = dedupe c.all_jobs;
        failed_sources = c.failed_sources;
        url_removed_count = done.1;
      }),
    )

-- The summary, or the exception; the progress is finished in both cases.
unfoldable pub run_once :
    World
    → Times
    → List Source
    → String
    → Database × Progress
    → (Database × Progress) × Result RunSummary
unfolding collect_all store concluded
run_once world times sources user_id (db, p) =
    let active_sources = active sources in
    let begun = start_run times.started "scrape" (some user_id) db in
    let run_id = begun.1 in
    let collected =
      collect_all world user_id 0 active_sources
        (nothing, RunProgress.start user_id (length active_sources) p) in
    let c = collected.0 in
    let new_jobs = get_new_jobs user_id (dedupe c.all_jobs) begun.0 in
    let done =
      concluded world times user_id run_id (length active_sources) c new_jobs begun.0
        (store times user_id sources run_id c begun.0) in
    ((done.0, RunProgress.finish user_id collected.1), done.1)
