-- ===== src/Scheduler.antt =====
-- app/scheduler.py: the run of all users, the run that one of them asks for, and the reconcile of users
-- without sources. The cron library is not modelled.
pub mod Laws
pub mod Rescue
use career_spyder.Prelude.{
  ℕ, ◌+◌, String, ◌==◌, Bool, true, false, not, ◌&&◌, ◌||◌, Option, none, some, List, [], ◌∷◌, ◌++◌,
  map, filter, find, elem, is_none, length, leb, ltb, if◌then◌else◌, nat_eq, nonempty, truthy,
  text_or, opt_eq,
}
use career_spyder.Text.{strip, split}
use career_spyder.Sort.{sort, page}
use career_spyder.Models.{Job}
use career_spyder.Config.{Source}
use career_spyder.Database.{Database, JobRow, SettingsRow}
use career_spyder.Accounts.{get_settings, get_admin_smtp_settings, Smtp}
use career_spyder.Jobs.{get_unemailed_jobs, mark_emailed, reconcile_jobs}
use career_spyder.Jobs.Edits.{get_job_statuses, get_emailed_keys}
use career_spyder.Runs.{start_run, finish_run}
use career_spyder.Sources.{list_sources, list_all_sources_by_user, list_users_with_active_jobs}
use career_spyder.RunProgress.{Progress}
use career_spyder.Orchestrator.{World, Times, RunSummary, run_once}
use career_spyder.Digest.{Digest, Options, Statuses, status_of, build_digest}
use Prim.Native.String
use Prim.Native.Char.{code}
use career_spyder.UserRun.{Outside, run_user, is_failure}

unfoldable pub record_empty_run : ℕ → ℕ → Option String → Database → Database
record_empty_run started finished user_id db =
    let begun = start_run started "scrape" user_id db in finish_run finished begun.1 0 [] 0 begun.0

-- The re-check under the lock: a user who has a source by now is left alone.
unfoldable pub reconcile_unless : List Source → ℕ → String → Database → Database
reconcile_unless [] now user_id db = reconcile_jobs now user_id [] [] [] db
reconcile_unless (source ∷ others) now user_id db = db

unfoldable pub reconcile_if_no_sources : (String → String → Bool) → ℕ → String → Database → Database
unfolding reconcile_unless
reconcile_if_no_sources text_le now user_id db =
    reconcile_unless (list_sources text_le user_id db) now user_id db

-- The loop, for the users with active jobs and those of the snapshot.
unfoldable pub reconcile_users :
    (String → String → Bool) → ℕ → List String → List String → Database → Database
unfolding reconcile_if_no_sources
reconcile_users text_le now in_snapshot [] db = db
reconcile_users text_le now in_snapshot (user_id ∷ users) db =
    reconcile_users text_le now in_snapshot users
      (if elem user_id in_snapshot then db else reconcile_if_no_sources text_le now user_id db)

unfoldable pub reconcile_users_with_no_sources :
    (String → String → Bool) → ℕ → List String → Database → Database
unfolding reconcile_users
reconcile_users_with_no_sources text_le now in_snapshot db =
    reconcile_users text_le now in_snapshot (list_users_with_active_jobs db) db

-- The loop over the users that have sources, and whether a statement failed. All of them share one
-- connection, which nobody rolls back: after a failed statement each further one raises, so that the users
-- that are left are not run.
unfoldable pub run_users :
    Outside
    → Bool
    → List (String × List Source)
    → Database × Progress
    → (Database × Progress) × Bool
unfolding run_user
run_users outside force [] state = (state, false)
run_users outside force ((user_id, sources) ∷ rest) state =
    let done = run_user outside user_id sources force state in
    let others = run_users outside force rest done.0 in
    if is_failure done.1 then (done.0, true) else others

unfoldable pub sources_of : String → List (String × List Source) → List Source
sources_of user_id [] = []
sources_of user_id ((u, sources) ∷ rest) = if u == user_id then sources else sources_of user_id rest

-- `run_and_notify(only_user_id=user_id)`, once the user's sources are read. `meanwhile` is what other
-- requests commit between that and the re-check.
unfoldable pub run_with_sources :
    Outside
    → ℕ
    → (Database → Database)
    → Bool
    → String
    → List Source
    → Database × Progress
    → Database × Progress
unfolding record_empty_run reconcile_if_no_sources run_user
run_with_sources outside now meanwhile force user_id [] (db, p) = (
  reconcile_if_no_sources outside.text_le now user_id
      (meanwhile (record_empty_run now now (some user_id) db)),
  p,
)
run_with_sources outside now meanwhile force user_id (source ∷ others) (db, p) =
    (run_user outside user_id (source ∷ others) force (db, p)).0

unfoldable pub run_now :
    Outside → ℕ → (Database → Database) → Bool → String → Database × Progress → Database × Progress
unfolding sources_of run_with_sources
run_now outside now meanwhile force user_id (db, p) =
    run_with_sources outside now meanwhile force user_id
      (sources_of user_id (list_all_sources_by_user outside.text_le db)) (db, p)

abbrev pub users_of : List (String × List Source) → List String
users_of = map (λ (entry : String × List Source). entry.0)

-- `run_and_notify` for every user. After a failed statement the last step raises too.
unfoldable pub run_scheduled :
    Outside → ℕ → (Database → Database) → Bool → Database × Progress → Database × Progress
unfolding record_empty_run reconcile_users_with_no_sources run_users
run_scheduled outside now meanwhile force (db, p) =
    let by_user = list_all_sources_by_user outside.text_le db in
    let done : (Database × Progress) × Bool = elim by_user [
      | [] ↦ ((record_empty_run now now none db, p), false)
      | entry ∷ rest ↦ run_users outside force (entry ∷ rest) (db, p)
    ] in
    if done.1 then done.0 else (
      reconcile_users_with_no_sources outside.text_le now (users_of by_user) (meanwhile done.0.0),
      done.0.1,
    )

-- `catch_up_missed_run` starts a run. Days are numbered; `sched_hour` is the hour field of the cron
-- expression where that is an integer.
unfoldable pub catch_up_missed_run :
    (last_run : Option ℕ) (today hour : ℕ) (sched_hour : Option ℕ) → Bool
catch_up_missed_run last_run today hour sched_hour =
    if (elim last_run [ none ↦ false | some day ↦ leb today day ])
    then false
    else (elim sched_hour [ none ↦ true | some h ↦ not (ltb hour h) ])
