-- ===== src/Examples.antt =====
-- Concrete data: two users, their jobs, sources, invites and runs, and a network.
mod Tracked
mod Scraped
mod Shared
mod Guarded
mod Mailed
mod Visited
mod Boards
use career_spyder.Prelude.{
  ℕ, String, ◌==◌, ◌≢◌, Bool, true, false, Option, none, some, List, [], ◌∷◌, if◌then◌else◌, ◌≡◌,
  eq_iff,
}
use career_spyder.Result.{Result, ok, err, request_failed}
use career_spyder.Models.{Job, FailedSource}
use career_spyder.Config.{Source, greenhouse, lever}
use career_spyder.Database.{Database, JobRow, UserRow, InviteRow, SourceRow, RunRow}
use career_spyder.Sources.{source_row}
use career_spyder.Jobs.{new_row}
use career_spyder.RunProgress.{Progress}
use career_spyder.Checker.{Answer, response}
use career_spyder.Geocoding.{transient}
use career_spyder.Orchestrator.{World, Times}

pub alice_is_not_bob : ◌≢◌ {A = String} "alice" "bob"
alice_is_not_bob = λ e. (let bad : false ≡ true = (eq_iff "alice" "bob").1 e in cc)

-- A job with its key as the title and the address.
abbrev pub job_named : String → Job
job_named k = record {
  key = k;
  title = k;
  url = k;
  company = none;
  location = some "Berlin";
  posted_date = none;
  source_name = "Board";
  source_id = some "s1";
  summary = none;
}

abbrev pub found_jobs : List Job
found_jobs = job_named "b" ∷ job_named "c" ∷ job_named "c" ∷ []

abbrev pub row_named : String → String → JobRow
row_named u k = record {
  key = k;
  title = k;
  company = none;
  location = none;
  location_override = none;
  url = k;
  posted_date = none;
  source_name = "Board";
  source_id = some "s1";
  summary = none;
  first_seen_run_id = some 0;
  first_seen_at = 1;
  removed_at = none;
  emailed_at = none;
  status = none;
  is_duplicate = false;
  duplicate_of = none;
  user_id = u;
  notes = none;
}

abbrev pub removed_row : String → String → JobRow
removed_row u k = record (row_named u k) { removed_at = some 2; emailed_at = some 2 }

abbrev pub board : Source
board = record {
  id = "s1";
  name = "Board";
  company = none;
  secondary = false;
  enabled = true;
  include_keywords = [];
  exclude_keywords = [];
  kind = greenhouse "acme";
}

abbrev pub other_board : Source
other_board = record board { id = "s2"; name = "Other"; kind = lever "acme" }

abbrev pub user_named : String → UserRow
user_named u = record {
  id = u;
  username = u;
  email = u;
  password_hash = "old";
  role = "member";
  is_active = true;
  created_at = 1;
}

abbrev pub invite : InviteRow
invite = record {
  token = "t1";
  email = "carol";
  created_by = "alice";
  created_at = 1;
  expires_at = 900;
  used_at = none;
}

abbrev pub first_run : RunRow
first_run = record {
  id = 0;
  started_at = 1;
  finished_at = some 2;
  new_job_count = 2;
  failed_sources = [];
  kind = "scrape";
  user_id = some "alice";
  source_count = 1;
}

abbrev pub db : Database
db = record {
  jobs = row_named "alice" "a" ∷ removed_row "alice" "b" ∷ row_named "bob" "a" ∷ [];
  history = [];
  next_history_id = 0;
  runs = first_run ∷ [];
  next_run_id = 1;
  settings = [];
  users = user_named "alice" ∷ user_named "bob" ∷ [];
  invites = invite ∷ [];
  sources = source_row 1 "alice" board ∷ source_row 1 "bob" other_board ∷ [];
  locations = [];
}

abbrev pub no_progress : Progress
no_progress u = none

-- One source returns two jobs, the other one fails, and the address "a" is gone.
abbrev pub world : World
world = record {
  lower = λ s. s;
  adapter = λ (s : Source). if s.id == "s1" then ok found_jobs else err request_failed;
  geocoder_name = "nominatim";
  geocode = λ location. transient;
  answer = λ url. if url == "a" then some (response 410) else some (response 200);
}

abbrev pub times_from : ℕ → Times
times_from n = record {
  started = n;
  saved = n;
  reconciled = n;
  geocoded = n;
  checked = n;
  finished = n;
}
