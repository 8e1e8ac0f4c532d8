-- ===== src/Examples/Visited.antt =====
-- Requests to the web routes at concrete data.
use career_spyder.Table.{count_where}
use career_spyder.Jobs.Listing.{count_jobs, job_filters, Sql, Filters, list_jobs}
use career_spyder.Accounts.Session.{
  verify_reset_token, verify_password, Session, Crypto, empty_session, start_session,
  load_session_user,
}
use career_spyder.Password.{
  check_new_password, min_length, byte_length, text_eq, is_repetitive_or_sequential, occurs,
  app_name, contains_context, local_part, Policy,
}
use career_spyder.Web.{field, text_of, Form, Site, Host}
use career_spyder.Text.{strip}
use career_spyder.RateLimit.{rate_limit, admit, expire, Request, check}
use career_spyder.Accounts.{
  get_user_by_username, create_user, get_user_by_id, seed_settings, get_user_by_email,
  update_password,
}
use career_spyder.Web.Login.{authenticated, login}
use career_spyder.Web.Login.Laws.{IsFound, load_session_user-login}
use mathlib.Core.Path.{subst}
use career_spyder.Prelude.{
  arith, ◌≡◌, ◌≢◌, refl, ap, ◌∙◌, String, ◌==◌, true, false, Option, none, some, [], ◌∷◌, All,
  length, if◌then◌else◌, map_option, find, is_none,
}
use career_spyder.Database.{UserRow, JobRow, owned}
use career_spyder.Invites.{claim_invite}
use career_spyder.Jobs.Isolation.{SameFor}
use career_spyder.Jobs.Listing.Laws.{length-list_jobs}
use career_spyder.Web.Reset.{account_recovery, set_new_password, token_user}
use career_spyder.Web.Reset.Laws.{account_recovery-same, token_user-set_new_password}
use career_spyder.Web.Register.{Applicant, enroll}
use career_spyder.Web.Register.Race.{Race, IsSingle, here, next, claims, creates, Reach-IsSingle}
use career_spyder.Web.Register.Steps.{left, enroll-IsSingle}
use career_spyder.Web.JobRoutes.{form_str, jobs_route, serve_jobs, remove_post}
use career_spyder.Web.JobRoutes.Rows.{find-serve_jobs}
use career_spyder.Web.JobRoutes.Laws.{jobs_route-SameFor}
use career_spyder.Web.SourceRoutes.{sources_route, delete_post}
use career_spyder.Web.SourceRoutes.Laws.{IsKeptFor, sources_route-IsKeptFor}
use career_spyder.Web.SourceForm.{invalid}
use career_spyder.Web.JobPages.{Outside, Query, JobView, jobs}
use career_spyder.Web.JobPages.Pins.{jobs_map_data}
use career_spyder.Web.JobPages.Laws.{IsPinOf, jobs-owned}
use career_spyder.Accounts.Laws.{logged_in}
use career_spyder.Web.Account.{change_password, current_ok}
use career_spyder.Web.Account.Laws.{IsMoved, load_session_user-change_password}
use career_spyder.Web.Users.{users_route, deactivate_user_of}
use career_spyder.Web.Users.Laws.{get_user_by_id-users_route}
use career_spyder.Examples.{db, user_named, alice_is_not_bob}

-- A hash is the password itself, and so is its fingerprint.
abbrev plain_crypto : Crypto
plain_crypto = record {
  fingerprint = λ h. h;
  reset_fingerprint = λ h. h;
  check_password = λ plaintext hashed. plaintext == hashed;
}

abbrev policy : Policy
policy = record {
  strip = λ t. t;
  casefold = λ t. t;
  is_common = λ t. false;
  min_length_env = none;
  breach_check_enabled = false;
  sha1_prefix = λ t. t;
  sha1_suffix = λ t. t;
  range = λ t. none;
}

-- The token of a user is its id, and every token was made for the hash "old".
abbrev host : Host
host = record {
  trusted_proxies = [];
  crypto = plain_crypto;
  hash_password = λ p. p;
  dummy_hash = "dummy";
  policy = policy;
  url_path = λ url. url;
  is_uuid = λ token. true;
  matches_username = λ name. true;
  public_base_url = some "https://jobs.test";
  sign = λ payload. payload.user_id;
  unsign = λ token. some (record { user_id = token; email = token; pw_fp = some "old" });
}

abbrev site : Site
site = record { db = db; buckets = λ key. [] }

abbrev browser : Request
browser = record { client_host = some "192.0.2.1"; forwarded_for = ""; real_ip = "" }

abbrev alice_session : Session
alice_session = start_session plain_crypto (user_named "alice") empty_session

-- Alice's form: her name and password, and the key of a job.
abbrev form : Form
form key =
    if key == "username"
    then some "alice"
    else if key == "password"
    then some "old"
    else if key == "key"
    then some "a"
    else if key == "status"
    then some "applied"
    else if key == "email"
    then some "alice"
    else none

abbrev id_of : Option UserRow → String
id_of none = ""
id_of (some user) = user.id

abbrev found_user : Option UserRow → UserRow
found_user none = user_named "alice"
found_user (some user) = user

alice_is_not_him :
    (user : UserRow)
    → (load_session_user plain_crypto alice_session db).0 ≡ some user
    → user.id ≢ "bob"
unfolding load_session_user start_session get_user_by_id
alice_is_not_him user e = λ p. alice_is_not_bob (ap id_of e ∙ p)

abbrev unclaimed : Race
unclaimed = record { db = db; holding = 0; made = 0 }

Reach-IsSingle_example : IsSingle "t1" (record {
  db = seed_settings "carol" "" 587 "" "" "" (record (claim_invite 5 "t1" db).0 {
    users =
        user_named "alice" ∷ user_named "bob" ∷ record (user_named "carol") { created_at = 6 } ∷ [];
  });
  holding = 0;
  made = 1;
})
unfolding claim_invite create_user count_where
Reach-IsSingle_example =
    Reach-IsSingle (λ token. true) "t1" unclaimed _ (omega arith, omega arith)
      (next (next here (claims unclaimed 5 refl))
        (creates _ 6 "carol" "carol" "carol" "old" _ _ 0 refl refl))

jobs_route-SameFor_example :
    SameFor "bob" db (jobs_route host 5 (λ d. d) (remove_post "" form) site alice_session).site.db
jobs_route-SameFor_example =
    jobs_route-SameFor host 5 (λ d. d) (remove_post "" form) site alice_session "bob"
      alice_is_not_him (record { jobs = refl; history = refl })

find-serve_jobs_example :
    find
      (owned "alice" "a")
      (serve_jobs 5
        (λ d. d)
        (remove_post "" form)
        (user_named "alice")
        site
        alice_session).site.db.jobs
    ≡ map_option
        (λ (r : JobRow).
          if owned "alice" "a" r
          then record r { removed_at = if is_none r.removed_at then some 5 else r.removed_at }
          else r)
        (find (owned "alice" "a") db.jobs)
unfolding form_str
find-serve_jobs_example =
    find-serve_jobs 5 (λ d. d) (remove_post "" form) (user_named "alice") site alice_session "alice"
      "a"

sources_route-IsKeptFor_example :
    IsKeptFor "bob" db
      (sources_route host 5 (λ t draft. invalid "") (delete_post "s2") site alice_session).site.db
sources_route-IsKeptFor_example =
    sources_route-IsKeptFor host 5 (λ t draft. invalid "") (delete_post "s2") site alice_session
      "bob" alice_is_not_him

abbrev sql : Sql
sql = record {
  ilike = λ text pattern. text == pattern;
  lower_le = λ a b. true;
  key_le = λ a b. true;
  within = λ a b c d r. true;
}

abbrev outside : Outside
outside = record {
  sql = sql;
  name_le = λ a b. true;
  scheme = λ url. none;
  geocode = λ zip. none;
  urlencode = λ pairs. "";
}

-- A member asks for another user's jobs.
abbrev query : Query
query = record {
  company = "";
  search = "";
  source = [];
  removed = "";
  emailed = "";
  status = [];
  location = "";
  duplicates = "";
  state = [];
  zip_code = "";
  radius = "25";
  user = "bob";
}

jobs-owned_example :
    All
      (λ (view : JobView). view.item.row.user_id ≡ "alice")
      (jobs outside 9 none "" "" [] query (user_named "alice") db).jobs
    × All (IsPinOf "alice") (jobs_map_data outside query (user_named "alice") db)
jobs-owned_example = jobs-owned outside 9 none "" "" [] query (user_named "alice") db refl

abbrev alice_filters : Filters
alice_filters = record {
  company = none;
  search = none;
  source_name = [];
  removed = none;
  emailed = none;
  status = [];
  location = none;
  duplicates = none;
  state = [];
  near = none;
  user_id = some "alice";
}

length-list_jobs_example : length (list_jobs sql 9 25 1 "" "" alice_filters db) ≡ 1
unfolding count_jobs count_where job_filters
length-list_jobs_example = length-list_jobs sql 9 25 1 "" "" alice_filters db

-- Alice as an admin.
abbrev admin : UserRow
admin = record (user_named "alice") { role = "admin" }

abbrev admin_site : Site
admin_site = record site { db = record db { users = admin ∷ user_named "bob" ∷ [] } }

get_user_by_id-users_route_example :
    get_user_by_id "bob"
      (users_route host
        (λ s. s)
        (λ t. some t)
        5
        ""
        (deactivate_user_of "bob")
        admin_site
        alice_session).site.db
    ≡ some (record (user_named "bob") { is_active = false })
unfolding load_session_user start_session get_user_by_id
get_user_by_id-users_route_example =
    get_user_by_id-users_route host (λ s. s) (λ t. some t) 5 "" (deactivate_user_of "bob")
      admin_site alice_session "bob"

token_user-set_new_password_example :
    let reply =
      set_new_password host
        (λ d. d)
        "alice"
        "correct horse battery"
        "correct horse battery"
        (some (user_named "alice"))
        site
        alice_session in
    (token_user host "alice" reply.site.db ≡ none)
    × (reply.session ≡ empty_session)
    × (reply.site ≡ record site { db = update_password "alice" "correct horse battery" site.db })
unfolding token_user verify_reset_token get_user_by_id check_new_password text_of min_length
    byte_length text_eq is_repetitive_or_sequential occurs app_name contains_context local_part
token_user-set_new_password_example =
    token_user-set_new_password host (λ d. d) "alice" "correct horse battery"
      "correct horse battery" (user_named "alice") site alice_session refl refl

alice-IsFound :
    (user : UserRow)
    → get_user_by_username (strip (field form "username")) db ≡ some user
    → IsFound db user
unfolding get_user_by_username field strip get_user_by_id
alice-IsFound user e = subst (IsFound db) (ap found_user e) (refl, refl)

load_session_user-login_example :
    (load_session_user plain_crypto (login host 5 browser form site empty_session).session db).0
    ≡ some (user_named "alice")
unfolding rate_limit field strip authenticated get_user_by_username get_user_by_id admit expire
    verify_password
load_session_user-login_example = load_session_user-login host 5 browser form site alice-IsFound

abbrev carol : Applicant
carol = record { token = "t1"; username = "carol"; password = "old"; confirm = "old"; id = "carol" }

enroll-IsSingle_example : IsSingle "t1" (
    left true db
      (claim_invite 5 "t1" db).0
      0
      0
      0
      0
      (enroll host 5 (λ d. d) carol "carol" site empty_session).site.db)
unfolding claim_invite count_where get_user_by_username get_user_by_email
enroll-IsSingle_example =
    enroll-IsSingle host 5 (λ d. d) carol "carol" site empty_session 0 0 0 0
      (omega arith, omega arith) here

account_recovery-same_example :
    let here_ = account_recovery host (λ s. s) 5 browser form site empty_session in
    let there =
      account_recovery host
        (λ s. s)
        5
        browser
        form
        (record site { db = record db { users = [] } })
        empty_session in
    (here_.response ≡ there.response)
    × (here_.session ≡ there.session)
    × (here_.site.buckets ≡ there.site.buckets)
    × (here_.site.db ≡ db)
account_recovery-same_example =
    account_recovery-same host (λ s. s) 5 browser form site (record db { users = [] }) empty_session

abbrev new_password : Form
new_password key = if key == "current_password" then some "old" else some "correct horse battery"

load_session_user-change_password_example :
    IsMoved host
      (logged_in plain_crypto (user_named "alice"))
      alice_session
      site
      (record (user_named "alice") { password_hash = "correct horse battery" })
      true
      (change_password host (λ d. d) 5 new_password (user_named "alice") site alice_session)
unfolding get_user_by_id check_new_password text_of min_length byte_length text_eq field
    is_repetitive_or_sequential occurs app_name contains_context local_part admit expire
    verify_password current_ok check
load_session_user-change_password_example =
    load_session_user-change_password host (λ d. d) 5 new_password (user_named "alice")
      (user_named "alice") site alice_session refl refl refl refl refl
