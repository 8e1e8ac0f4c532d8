-- ===== src/Scheduler/Laws.antt =====
-- Whose jobs a run with its mail touches, and which jobs still wait for a mail after it.
use career_spyder.UserRun.{
  mail_run, mail, address, is_sent, day_code, Outside, Mailing, runs_today, recipients, notify,
  run_and_mail, run_user, jobs_for_digest, first_jobs, keys_of,
}
use career_spyder.Prelude.{
  ◌⊎◌, ◌&&◌, truthy, ℕ, ◌≡◌, ◌≢◌, refl, String, Bool, true, false, not, Option, none, some, List,
  [], ◌∷◌, filter, elem, if◌then◌else◌, Bool-cases, inl, inr,
}
use career_spyder.Models.{Job}
use career_spyder.Config.{Source}
use career_spyder.Database.{Database, SettingsRow}
use career_spyder.Jobs.{get_unemailed_jobs, mark_emailed}
use career_spyder.Jobs.Isolation.{SameFor, JobStep-SameFor, emailed}
use career_spyder.Jobs.Isolation
use career_spyder.Jobs.History.{get_unemailed_jobs-mark_emailed}
use career_spyder.Accounts.{Smtp, get_admin_smtp_settings, get_settings}
use career_spyder.RunProgress.{Progress}
use career_spyder.Result.{Result, ok, err}
use career_spyder.Orchestrator.{RunSummary, run_once}
use career_spyder.Orchestrator.Laws.{
  run_once-SameFor, SameFor-trans, SameFor-start_run, SameFor-finish_run,
}
use career_spyder.Sources.{list_sources, list_all_sources_by_user}
use career_spyder.Runs.{start_run}
use career_spyder.Digest.{Digest}
use career_spyder.Scheduler.{
  run_with_sources, reconcile_unless, record_empty_run, reconcile_if_no_sources, sources_of,
  run_now,
}

pub SameFor-refl : (v : String) (db : Database) → SameFor v db db
SameFor-refl v db = record { jobs = refl; history = refl }

-- A mail was sent and its jobs are marked, or the database is as it was.
abbrev Settled : Outside → String → List String → Database → Database × Mailing → Type 0
Settled outside u keys db r =
    (r.0 ≡ db) × (is_sent r.1 ≡ false)
    ⊎ (r.0 ≡ mark_emailed (outside.emailed_at u) u keys db) × (is_sent r.1 ≡ true)

module _ (outside : Outside) (u : String) (keys : List String) where
  mail-Settled :
      (to : List String) (d : Digest) (smtp : Option Smtp) (db : Database)
      → Settled outside u keys db (mail outside u keys to d smtp db)
  unfolding mail
  mail-Settled to d none db = inl (refl, refl)
  mail-Settled to d (some smtp) db = elim (Bool-cases (truthy smtp.0)) [
    | inl host ↦ elim (Bool-cases (outside.send smtp to d)) [
      | inl done ↦ rw (host, done) (inr (refl, refl))
      | inr failed ↦ rw (host, failed) (inl (refl, refl))
    ]
    | inr bare ↦ rw bare (inl (refl, refl))
  ]

  address-Settled :
      (to : List String) (d : Digest) (db : Database)
      → Settled outside u keys db (address outside u keys to d db)
  unfolding address
  address-Settled [] d db = inl (refl, refl)
  address-Settled (first ∷ others) d db =
      mail-Settled (first ∷ others) d (get_admin_smtp_settings db) db

  notify-Settled :
      (settings : Option SettingsRow) (d : Option Digest) (db : Database)
      → Settled outside u keys db (notify outside u settings keys d db)
  unfolding notify
  notify-Settled settings none db = inl (refl, refl)
  notify-Settled none (some d) db = inl (refl, refl)
  notify-Settled (some settings) (some d) db = address-Settled (recipients settings.email_to) d db

-- Where a mail is sent, the jobs with the keys no longer wait for one.
get_unemailed_jobs-notify :
    (outside : Outside) (u : String) (settings : Option SettingsRow) (keys : List String)
    (d : Option Digest) (db : Database)
    → get_unemailed_jobs (some u) (notify outside u settings keys d db).0 ≡ (
        if is_sent (notify outside u settings keys d db).1
        then filter (λ (j : Job). not (elem j.key keys)) (get_unemailed_jobs (some u) db)
        else get_unemailed_jobs (some u) db)
get_unemailed_jobs-notify outside u settings keys d db =
    elim (notify-Settled outside u keys settings d db) [
      | inl kept ↦ rw (kept.0, kept.1) refl
      | inr marked ↦
          rw (marked.0, marked.1) (get_unemailed_jobs-mark_emailed (outside.emailed_at u) u keys db)
    ]

notify-SameFor :
    (outside : Outside) (u v : String) (settings : Option SettingsRow) (keys : List String)
    (d : Option Digest) (db : Database)
    → u ≢ v
    → SameFor v db (notify outside u settings keys d db).0
notify-SameFor outside u v settings keys d db ne =
    elim (notify-Settled outside u keys settings d db) [
      | inl kept ↦ rw kept.0 (SameFor-refl v db)
      | inr marked ↦
          rw marked.0 (JobStep-SameFor u v ne (emailed {db = db} (outside.emailed_at u) keys))
    ]

-- The keys of the jobs chosen for the digest of a run, none where the run raised.
abbrev pub chosen_keys :
    Outside → String → Option SettingsRow → Result RunSummary → Database → List String
chosen_keys outside u settings (err e) after = []
chosen_keys outside u settings (ok summary) after =
    keys_of (jobs_for_digest outside u settings (first_jobs settings summary) after).0

get_unemailed_jobs-mail_run :
    (outside : Outside) (u : String) (sources : List Source) (settings : Option SettingsRow)
    (r : Result RunSummary) (after : Database)
    → get_unemailed_jobs (some u) (mail_run outside u sources settings r after).0 ≡ (
        if is_sent (mail_run outside u sources settings r after).1
        then filter
            (λ (j : Job). not (elem j.key (chosen_keys outside u settings r after)))
            (get_unemailed_jobs (some u) after)
        else get_unemailed_jobs (some u) after)
unfolding mail_run
get_unemailed_jobs-mail_run outside u sources settings (err e) after = refl
get_unemailed_jobs-mail_run outside u sources settings (ok summary) after =
    get_unemailed_jobs-notify outside u settings _ _ after

-- Which jobs wait for their mail after a user's run: where no mail is sent, for whatever reason, the same as
-- the run itself left, and where one is sent, those of them that were not chosen for the digest. Chosen are
-- also the jobs that the digest only counts because of the cap on a company's jobs.
pub get_unemailed_jobs-run_and_mail :
    (outside : Outside) (u : String) (sources : List Source) (settings : Option SettingsRow)
    (db : Database) (p : Progress)
    → let done = run_once (outside.world u) (outside.times u) sources u (db, p) in
      let mailed = run_and_mail outside u sources settings (db, p) in
      get_unemailed_jobs (some u) mailed.0.0 ≡ (
        if is_sent mailed.1
        then filter
            (λ (j : Job). not (elem j.key (chosen_keys outside u settings done.1 done.0.0)))
            (get_unemailed_jobs (some u) done.0.0)
        else get_unemailed_jobs (some u) done.0.0)
unfolding run_and_mail
get_unemailed_jobs-run_and_mail outside u sources settings db p =
    let done = run_once (outside.world u) (outside.times u) sources u (db, p) in
    get_unemailed_jobs-mail_run outside u sources settings done.1 done.0.0

mail_run-SameFor :
    (outside : Outside) (u v : String) (sources : List Source) (settings : Option SettingsRow)
    (r : Result RunSummary) (after : Database)
    → u ≢ v
    → SameFor v after (mail_run outside u sources settings r after).0
unfolding mail_run
mail_run-SameFor outside u v sources settings (err e) after ne = SameFor-refl v after
mail_run-SameFor outside u v sources settings (ok summary) after ne =
    notify-SameFor outside u v settings _ _ after ne

run_and_mail-SameFor :
    (outside : Outside) (u v : String) (sources : List Source) (settings : Option SettingsRow)
    (db : Database) (p : Progress)
    → u ≢ v
    → SameFor v db (run_and_mail outside u sources settings (db, p)).0.0
unfolding run_and_mail
run_and_mail-SameFor outside u v sources settings db p ne =
    let done = run_once (outside.world u) (outside.times u) sources u (db, p) in
    SameFor-trans v db done.0.0 _
      (run_once-SameFor (outside.world u) (outside.times u) sources u v db p ne).0
      (mail_run-SameFor outside u v sources settings done.1 done.0.0 ne)

run_user-SameFor :
    (outside : Outside) (u v : String) (sources : List Source) (force : Bool) (db : Database)
    (p : Progress)
    → u ≢ v
    → SameFor v db (run_user outside u sources force (db, p)).0.0
unfolding run_user
run_user-SameFor outside u v sources force db p ne =
    let settings = get_settings u db in
    elim (Bool-cases (not force && not (runs_today (day_code outside.weekday) settings))) [
      | inl skipped ↦ rw skipped (SameFor-refl v db)
      | inr runs ↦ rw runs (run_and_mail-SameFor outside u v sources settings db p ne)
    ]

reconcile_unless-SameFor :
    (sources : List Source) (now : ℕ) (u v : String) (db : Database)
    → u ≢ v
    → SameFor v db (reconcile_unless sources now u db)
unfolding reconcile_unless
reconcile_unless-SameFor [] now u v db ne =
    JobStep-SameFor u v ne (Isolation.reconciled {db = db} now [] [] [])
reconcile_unless-SameFor (s ∷ ss) now u v db ne = SameFor-refl v db

pub reconcile_if_no_sources-SameFor :
    (text_le : String → String → Bool) (now : ℕ) (u v : String) (db : Database)
    → u ≢ v
    → SameFor v db (reconcile_if_no_sources text_le now u db)
unfolding reconcile_if_no_sources
reconcile_if_no_sources-SameFor text_le now u v db ne =
    reconcile_unless-SameFor (list_sources text_le u db) now u v db ne

record_empty_run-SameFor :
    (started finished : ℕ) (user_id : Option String) (v : String) (db : Database)
    → SameFor v db (record_empty_run started finished user_id db)
unfolding record_empty_run
record_empty_run-SameFor started finished user_id v db =
    SameFor-trans v db (start_run started "scrape" user_id db).0 _
      (SameFor-start_run started "scrape" v user_id db) (SameFor-finish_run _ _ _ _ _ v _)

run_with_sources-SameFor :
    (outside : Outside) (now : ℕ) (meanwhile : Database → Database) (force : Bool) (u v : String)
    (sources : List Source) (db : Database) (p : Progress)
    → u ≢ v
    → ((d : Database) → SameFor v d (meanwhile d))
    → SameFor v db (run_with_sources outside now meanwhile force u sources (db, p)).0
unfolding run_with_sources
run_with_sources-SameFor outside now meanwhile force u v [] db p ne quiet =
    let begun = record_empty_run now now (some u) db in
    SameFor-trans v db begun _ (record_empty_run-SameFor now now (some u) v db) (
      SameFor-trans v begun (meanwhile begun) _ (quiet begun)
        (reconcile_if_no_sources-SameFor outside.text_le now u v (meanwhile begun) ne))
run_with_sources-SameFor outside now meanwhile force u v (source ∷ others) db p ne quiet =
    run_user-SameFor outside u v (source ∷ others) force db p ne

-- A member's "Run now" leaves the jobs and the status history of every other user as they were,
-- whether or not the member has sources and whatever happens to the mail. `meanwhile`, what other
-- requests commit before the re-check of the sources, is assumed not to change those rows itself.
pub run_now-SameFor :
    (outside : Outside) (now : ℕ) (meanwhile : Database → Database) (force : Bool) (u v : String)
    (db : Database) (p : Progress)
    → u ≢ v
    → ((d : Database) → SameFor v d (meanwhile d))
    → SameFor v db (run_now outside now meanwhile force u (db, p)).0
unfolding run_now
run_now-SameFor outside now meanwhile force u v db p ne quiet =
    run_with_sources-SameFor outside now meanwhile force u v
      (sources_of u (list_all_sources_by_user outside.text_le db)) db p ne quiet
