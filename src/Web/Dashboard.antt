-- ===== src/Web/Dashboard.antt =====
-- app/web/routes_dashboard.py, with `dashboard_stats` of app/db.py.
use career_spyder.Prelude.{
  ℕ, ℤ, ◌+◌, String, ◌==◌, Bool, true, ◌&&◌, Option, none, some, List, [], ◌∷◌, if◌then◌else◌, leb,
  nonempty, opt_eq,
}
use career_spyder.Result.{ok, err}
use career_spyder.Html.{cat}
use career_spyder.Database.{Database, JobRow, SourceRow, RunRow, UserRow}
use career_spyder.Table.{count_where}
use career_spyder.RateLimit.{check}
use career_spyder.Pagination.{Pagination, paginate}
use career_spyder.Runs.{RunItem, list_runs, count_runs, start_run, finish_run}
use career_spyder.RunProgress.{Progress, Entry, get}
use career_spyder.Checker.{Answer, check_job_urls}
use career_spyder.Accounts.Session.{Session}
use career_spyder.Web.{redirect, flashed, run_task, url_check_task, Site, Reply, answer, seconds}

pub record Stats : Type 0 where
  pub total_jobs : ℕ
  pub new_this_week : ℕ
  pub total_sources : ℕ
  pub total_runs : ℕ

abbrev seven_days : ℕ
seven_days = 604_800_000_000

-- The rows that a user id, where there is one, keeps.
abbrev owned_by : Option String → String → Bool
owned_by none user_id = true
owned_by (some u) user_id = user_id == u

abbrev run_owned_by : Option String → RunRow → Bool
run_owned_by none r = true
run_owned_by (some u) r = opt_eq r.user_id (some u)

unfoldable pub dashboard_stats : (now : ℕ) → Option String → Database → Stats
dashboard_stats now user_id db = record {
  total_jobs = count_where (λ (r : JobRow). owned_by user_id r.user_id) db.jobs;
  new_this_week =
      count_where
        (λ (r : JobRow). owned_by user_id r.user_id && leb now (r.first_seen_at + seven_days))
        db.jobs;
  total_sources = count_where (λ (s : SourceRow). owned_by user_id s.user_id) db.sources;
  total_runs = count_where (λ (r : RunRow). r.kind == "scrape" && run_owned_by user_id r) db.runs;
}

pub record DashboardView : Type 0 where
  pub runs : List RunItem
  pub pagination : Pagination
  pub is_admin : Bool
  pub stats : Stats

-- The user whose data a member sees; an admin sees everybody's.
unfoldable pub scope_of : UserRow → Option String
scope_of current = if current.role == "admin" then none else some current.id

unfoldable pub dashboard_context :
    (now : ℕ)
    → (page : Option ℤ) → (sort_by direction failures : String) → UserRow
    → Database
    → DashboardView
unfolding dashboard_stats scope_of
dashboard_context now page sort_by direction failures current db =
    let filter : Option String = if nonempty failures then some failures else none in
    let user_id = scope_of current in
    let pagination = paginate (count_runs filter user_id db) page 25 in
    record {
      runs = list_runs 25 pagination.offset sort_by direction filter user_id db;
      pagination = pagination;
      is_admin = current.role == "admin";
      stats = dashboard_stats now user_id db;
    }

abbrev run_limited : String
run_limited = "Too many runs started recently. Try again in a few minutes."

unfoldable pub run_now : ℕ → UserRow → Site → Session → Reply
unfolding scope_of
run_now now current site session =
    let limited = check now (cat ("run-now:" ∷ current.id ∷ [])) 3 (seconds 600) site.buckets in
    let counted = record site { buckets = limited.0 } in
    if limited.1
    then record {
      response = redirect "/";
      site = counted;
      session = session;
      tasks = run_task (scope_of current) ∷ [];
    }
    else answer counted session (flashed "/" run_limited)

-- The entry of a run that is under way.
unfoldable pub run_status : UserRow → Progress → Option Entry
run_status current progress = get current.id progress

unfoldable pub check_urls : ℕ → UserRow → Site → Session → Reply
unfolding scope_of
check_urls now current site session =
    let limited = check now (cat ("check-urls:" ∷ current.id ∷ [])) 3 (seconds 600) site.buckets in
    let counted = record site { buckets = limited.0 } in
    if limited.1
    then (let started = start_run now "url_check" (some current.id) site.db in
        record {
          response = redirect "/";
          site = record counted { db = started.0 };
          session = session;
          tasks = url_check_task started.1 (scope_of current) ∷ [];
        })
    else answer counted session (flashed "/" run_limited)

-- The task of `check_urls`, under `_run_lock`. Where a check raises, the run stays unfinished.
unfoldable pub run_url_check :
    (checked finished : ℕ)
    → (String → Option Answer)
    → (run_id : ℕ) → Option String
    → Database
    → Database
run_url_check checked finished answers run_id user_id db =
    elim (check_job_urls checked answers user_id db) [
      | err e ↦ db
      | ok (after, removed) ↦ finish_run finished run_id removed [] 0 after
    ]
