-- ===== src/UserRun.antt =====
-- app/scheduler.py: `_run_user`, a user's run with its mail. Everything that it meets outside is in
-- `Outside`.
use career_spyder.Prelude.{
  ℕ, String, ◌==◌, Bool, true, false, not, ◌&&◌, Option, none, some, List, [], ◌∷◌, ◌++◌, map,
  filter, elem, length, ltb, if◌then◌else◌, nat_eq, nonempty, truthy, text_or,
}
use career_spyder.Text.{strip, split}
use career_spyder.Sort.{sort, page}
use career_spyder.Models.{Job}
use career_spyder.Config.{Source}
use career_spyder.Database.{Database, JobRow, SettingsRow}
use career_spyder.Accounts.{get_settings, get_admin_smtp_settings, Smtp}
use career_spyder.Jobs.{get_unemailed_jobs, mark_emailed}
use career_spyder.Jobs.Edits.{get_job_statuses, get_emailed_keys}
use career_spyder.RunProgress.{Progress}
use career_spyder.Result.{Result, ok, err}
use career_spyder.Orchestrator.{World, Times, RunSummary, run_once}
use career_spyder.Digest.{Digest, Statuses, status_of, build_digest}
use Prim.Native.String
use Prim.Native.Char.{code}

-- `world` and `times` are those of a user's run, `weekday` the day in the configured zone counted
-- from Monday, `public_base_url` the variable PUBLIC_BASE_URL or the empty text, and `send` whether
-- the mail is sent.
pub record Outside : Type 0 where
  pub world : String → World
  pub times : String → Times
  pub emailed_at : String → ℕ
  pub weekday : ℕ
  pub searched_at : String
  pub public_base_url : String
  pub scheme : String → Option String
  pub text_le : String → String → Bool
  pub send : Smtp → List String → Digest → Bool

-- `_DAY_CODES[weekday]`
unfoldable pub day_code : ℕ → String
day_code d =
    if nat_eq d 0
    then "mon"
    else if nat_eq d 1
    then "tue"
    else if nat_eq d 2
    then "wed"
    else if nat_eq d 3
    then "thu"
    else if nat_eq d 4
    then "fri"
    else if nat_eq d 5
    then "sat"
    else "sun"

-- `text.rstrip("/")`
unfoldable pub rstrip_slash : String → String
rstrip_slash String.[] = ""
rstrip_slash (String.◌∷◌ c s) =
    let rest = rstrip_slash s in
    if rest == "" && nat_eq (code c) b'/' then "" else String.◌∷◌ c rest

unfoldable pub jobs_url : String → Option String
unfolding rstrip_slash
jobs_url public_base_url =
    let base = rstrip_slash public_base_url in
    if nonempty base then some (String.◌++◌ base "/jobs") else none

-- What became of the mail of a run.
pub data Mailing : Type 0 where
  wrong_day : Mailing
  run_failed : Mailing
  nothing_to_report : Mailing
  no_settings : Mailing
  no_recipients : Mailing
  no_host : Mailing
  send_failed : Mailing
  sent : (to : List String) (d : Digest) (keys : List String) → Mailing

-- The exception that the caller logs.
abbrev pub is_failure : Mailing → Bool
is_failure run_failed = true
is_failure _ = false

abbrev pub is_sent : Mailing → Bool
is_sent (sent to d keys) = true
is_sent _ = false

-- The early return on the days of the week.
unfoldable pub runs_today : String → Option SettingsRow → Bool
runs_today today_code none = true
runs_today today_code (some settings) = elim settings.email_days [
  | none ↦ true
  | some raw ↦ nonempty (strip raw) && elem today_code (split b',' (strip raw))
]

abbrev pub keys_of : List Job → List String
keys_of = map (λ (j : Job). j.key)

-- The loop over the unemailed jobs, which extends the list and the set of its keys.
unfoldable pub rescue : List Job → List Job → List Job
rescue jobs_to_send [] = jobs_to_send
rescue jobs_to_send (job ∷ unemailed) =
    rescue (if elem job.key (keys_of jobs_to_send) then jobs_to_send else jobs_to_send ++ job ∷ [])
      unemailed

-- The keys of `list_jobs(limit=10_000, duplicates="only", user_id=user_id)`, newest first.
unfoldable pub duplicate_keys : (String → String → Bool) → String → Database → List String
duplicate_keys text_le user_id db =
    map (λ (r : JobRow). r.key)
      (page 10_000 0 (
        sort
          (λ (a b : JobRow).
            if ltb b.first_seen_at a.first_seen_at
            then true
            else if ltb a.first_seen_at b.first_seen_at
            then false
            else text_le b.key a.key)
          (filter (λ (r : JobRow). r.is_duplicate && r.user_id == user_id) db.jobs)))

unfoldable pub exclude_statuses : Option SettingsRow → List String
exclude_statuses none = []
exclude_statuses (some settings) =
    filter (λ s. nonempty s) (split b',' settings.digest_exclude_statuses)

abbrev is_excluded : List String → Option String → Bool
is_excluded excluded none = false
is_excluded excluded (some s) = elem s excluded

-- The jobs of the digest, from the new or found ones, and the statuses read for them.
unfoldable pub jobs_for_digest :
    Outside → String → Option SettingsRow → List Job → Database → List Job × Statuses
unfolding rescue duplicate_keys exclude_statuses
jobs_for_digest outside user_id settings first_jobs db =
    let rescued = rescue first_jobs (get_unemailed_jobs (some user_id) db) in
    let duplicates = duplicate_keys outside.text_le user_id db in
    let unique = filter (λ (j : Job). not (elem j.key duplicates)) rescued in
    let statuses = get_job_statuses user_id (keys_of unique) db in
    (
      filter (λ (j : Job). not (is_excluded (exclude_statuses settings) (status_of statuses j.key)))
          unique,
      statuses,
    )

unfoldable pub recipients : Option String → List String
recipients email_to = filter (λ addr. nonempty addr) (map strip (split b',' (text_or email_to "")))

-- The mail itself, and the mark on its jobs.
unfoldable pub mail :
    Outside
    → String
    → List String
    → List String
    → Digest
    → Option Smtp
    → Database
    → Database × Mailing
mail outside user_id keys to d none db = (db, no_host)
mail outside user_id keys to d (some smtp) db =
    if truthy smtp.0
    then if outside.send smtp to d
      then (mark_emailed (outside.emailed_at user_id) user_id keys db, sent to d keys)
      else (db, send_failed)
    else (db, no_host)

unfoldable pub address :
    Outside → String → List String → List String → Digest → Database → Database × Mailing
unfolding mail
address outside user_id keys [] d db = (db, no_recipients)
address outside user_id keys (first ∷ others) d db =
    mail outside user_id keys (first ∷ others) d (get_admin_smtp_settings db) db

-- From the digest on: the returns with a warning, and the mail.
unfoldable pub notify :
    Outside
    → String
    → Option SettingsRow
    → List String
    → Option Digest
    → Database
    → Database × Mailing
unfolding recipients address
notify outside user_id settings keys none db = (db, nothing_to_report)
notify outside user_id none keys (some d) db = (db, no_settings)
notify outside user_id (some settings) keys (some d) db =
    address outside user_id keys (recipients settings.email_to) d db

abbrev flag : (SettingsRow → Bool) → Option SettingsRow → Bool
flag f none = false
flag f (some settings) = f settings

abbrev pub resends : Option SettingsRow → Bool
resends = flag (λ (s : SettingsRow). s.resend_jobs)

-- The jobs that a run's digest starts from.
abbrev pub first_jobs : Option SettingsRow → RunSummary → List Job
first_jobs settings summary = if resends settings then summary.found_jobs else summary.new_jobs

-- After the run, which may have raised.
unfoldable pub mail_run :
    Outside
    → String
    → List Source
    → Option SettingsRow
    → Result RunSummary
    → Database
    → Database × Mailing
unfolding jobs_for_digest notify day_code jobs_url
mail_run outside user_id sources settings (err e) after = (after, run_failed)
mail_run outside user_id sources settings (ok summary) after =
    let resend = resends settings in
    let chosen = jobs_for_digest outside user_id settings (first_jobs settings summary) after in
    let jobs_to_send = chosen.0 in
    let keys = keys_of jobs_to_send in
    let force_checkin =
      day_code outside.weekday == "sun"
      && flag (λ (s : SettingsRow). s.send_weekly_checkin) settings in
    let d =
      build_digest outside.scheme jobs_to_send summary.failed_sources
        (if resend then "job" else "new job") force_checkin
        (record {
          statuses = chosen.1;
          searched_at = some outside.searched_at;
          jobs_url = jobs_url outside.public_base_url;
          secondary_source_ids =
              map (λ (s : Source). s.id) (filter (λ (s : Source). s.secondary) sources);
          emailed_keys = if resend then some (get_emailed_keys user_id keys after) else none;
          max_per_company = elim settings [ none ↦ 0 | some s ↦ s.digest_max_per_company ];
          source_count = length sources;
        }) in
    notify outside user_id settings keys d after

-- After the guard on the day.
unfoldable pub run_and_mail :
    Outside
    → String
    → List Source
    → Option SettingsRow
    → Database × Progress
    → (Database × Progress) × Mailing
unfolding mail_run
run_and_mail outside user_id sources settings (db, p) =
    let done = run_once (outside.world user_id) (outside.times user_id) sources user_id (db, p) in
    let mailed = mail_run outside user_id sources settings done.1 done.0.0 in
    ((mailed.0, done.0.1), mailed.1)

unfoldable pub run_user :
    Outside → String → List Source → Bool → Database × Progress → (Database × Progress) × Mailing
unfolding runs_today run_and_mail day_code
run_user outside user_id sources force (db, p) =
    let settings = get_settings user_id db in
    if not force && not (runs_today (day_code outside.weekday) settings)
    then ((db, p), wrong_day)
    else run_and_mail outside user_id sources settings (db, p)
