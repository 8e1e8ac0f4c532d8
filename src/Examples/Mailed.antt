-- ===== src/Examples/Mailed.antt =====
-- The mail of a run and the digest at concrete data.
use career_spyder.Prelude.{◌==◌, ◌≡◌, refl, true, not, some, [], ◌∷◌, filter, elem, if◌then◌else◌}
use career_spyder.Models.{Job}
use career_spyder.Database.{Database, SettingsRow}
use career_spyder.Accounts.{default_settings}
use career_spyder.Jobs.{get_unemailed_jobs}
use career_spyder.Jobs.Isolation.{SameFor}
use career_spyder.Sources.{list_sources}
use career_spyder.Digest.{Digest, group}
use career_spyder.Digest.Laws.{has_distinct_names, section_name, jobs_in, jobs_in-group}
use career_spyder.UserRun.{Outside, is_sent, run_and_mail}
use career_spyder.Scheduler.{run_now, reconcile_users_with_no_sources}
use career_spyder.Orchestrator.{run_once}
use career_spyder.Examples.{
  board, user_named, db, world, times_from, other_board, found_jobs, no_progress, alice_is_not_bob,
}
use career_spyder.Scheduler.Laws.{
  chosen_keys, get_unemailed_jobs-run_and_mail, SameFor-refl, run_now-SameFor,
}
use career_spyder.Scheduler.Rescue.{reconcile_users_with_no_sources-SameFor}
use career_spyder.Sort.{sort}

abbrev outside : Outside
outside = record {
  world = λ u. world;
  times = λ u. times_from 30;
  emailed_at = λ u. 40;
  weekday = 6;
  searched_at = "today";
  public_base_url = "https://jobs.example/";
  scheme = λ url. some "https";
  text_le = λ a b. true;
  send = λ smtp to d. true;
}

abbrev mailed_settings : SettingsRow
mailed_settings = record (default_settings "alice") {
  smtp_host = some "mail";
  email_to = some "alice, bob";
}

-- Alice is the admin, and has set up the mail server.
abbrev mailed_db : Database
mailed_db = record db {
  settings = mailed_settings ∷ [];
  users = record (user_named "alice") { role = "admin" } ∷ user_named "bob" ∷ [];
}

abbrev hello : Digest
hello = record { subject = "s"; html_body = "b" }

run_now-SameFor_example :
    SameFor "bob" db (run_now outside 30 (λ d. d) true "alice" (db, no_progress)).0
run_now-SameFor_example =
    run_now-SameFor outside 30 (λ d. d) true "alice" "bob" db no_progress alice_is_not_bob
      (SameFor-refl "bob")

get_unemailed_jobs-run_and_mail_example :
    let done =
      run_once
        (outside.world "alice")
        (outside.times "alice")
        (board ∷ [])
        "alice"
        (mailed_db, no_progress) in
    let mailed =
      run_and_mail outside "alice" (board ∷ []) (some mailed_settings) (mailed_db, no_progress) in
    get_unemailed_jobs (some "alice") mailed.0.0 ≡ (
      if is_sent mailed.1
      then filter
          (λ (j : Job).
            not (elem j.key (chosen_keys outside "alice" (some mailed_settings) done.1 done.0.0)))
          (get_unemailed_jobs (some "alice") done.0.0)
      else get_unemailed_jobs (some "alice") done.0.0)
get_unemailed_jobs-run_and_mail_example =
    get_unemailed_jobs-run_and_mail outside "alice" (board ∷ []) (some mailed_settings) mailed_db
      no_progress

-- Bob has a source by now, though the snapshot names nobody.
reconcile_users_with_no_sources-SameFor_example :
    SameFor "bob" db (reconcile_users_with_no_sources (λ a b. true) 30 [] db)
unfolding list_sources sort
reconcile_users_with_no_sources-SameFor_example =
    reconcile_users_with_no_sources-SameFor (λ a b. true) 30 [] "bob" db other_board [] refl

jobs_in-group_example :
    (has_distinct_names (group [] found_jobs) ≡ true)
    × (jobs_in "Unknown" (group [] found_jobs)
        ≡ filter (λ (j : Job). section_name j == "Unknown") found_jobs)
jobs_in-group_example = jobs_in-group "Unknown" found_jobs
