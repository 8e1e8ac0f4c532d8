-- ===== src/Accounts.antt =====
-- app/db.py, the `users` and `settings` tables, and app/web/auth.py over them. Unique columns:
-- `username` and `email`; an insert that repeats one raises. Ids that the database generates,
-- password hashes and digests are arguments or parameters.
pub mod Session
pub mod Laws
use career_spyder.Prelude.{
  ℕ, zero, suc, ◌+◌, String, ◌==◌, Bool, true, false, not, ◌&&◌, ◌||◌, Option, none, some, List, [],
  ◌∷◌, ◌++◌, map, any, filter, find, elem, is_none, is_some, if◌then◌else◌, length, nat_eq, text_or,
  leb, ltb,
}
use career_spyder.Result.{Result, ok, err, other_error, ◌>>=◌}
use career_spyder.Database.{Database, UserRow, SettingsRow, SourceRow, JobRow}
use career_spyder.Table.{update_where, count_where}
use career_spyder.Sort.{sort}

unfoldable pub create_user :
    (now : ℕ) (id username email password_hash role : String)
    → Database
    → Result (Database × UserRow)
create_user now id username email password_hash role db =
    if any (λ (u : UserRow). u.username == username || u.email == email) db.users
    then err other_error
    else (let user : UserRow = record {
      id = id;
      username = username;
      email = email;
      password_hash = password_hash;
      role = role;
      is_active = true;
      created_at = now;
    } in
        ok (record db { users = db.users ++ user ∷ [] }, user))

unfoldable pub get_user_by_id : String → Database → Option UserRow
get_user_by_id user_id db = find (λ (u : UserRow). u.id == user_id) db.users

unfoldable pub get_user_by_username : String → Database → Option UserRow
get_user_by_username username db = find (λ (u : UserRow). u.username == username) db.users

unfoldable pub get_user_by_email : String → Database → Option UserRow
get_user_by_email email db = find (λ (u : UserRow). u.email == email) db.users

unfoldable pub update_password : String → String → Database → Database
update_password user_id new_hash db = record db {
  users =
      update_where (λ (u : UserRow). u.id == user_id)
        (λ (u : UserRow). record u { password_hash = new_hash }) db.users;
}

unfoldable pub deactivate_user : String → Database → Database
deactivate_user user_id db = record db {
  users =
      update_where (λ (u : UserRow). u.id == user_id)
        (λ (u : UserRow). record u { is_active = false }) db.users;
}

unfoldable pub get_settings : String → Database → Option SettingsRow
get_settings user_id db = find (λ (s : SettingsRow). s.user_id == user_id) db.settings

abbrev pub Smtp : Type 0
Smtp = Option String × Option ℕ × Option String × Option String

-- `JOIN users ... WHERE role = 'admin' LIMIT 1`; which of several rows comes first is the
-- database's choice, here that of the table.
unfoldable pub get_admin_smtp_settings : Database → Option Smtp
get_admin_smtp_settings db =
    elim (find
      (λ (s : SettingsRow). any (λ (u : UserRow). u.id == s.user_id && u.role == "admin") db.users)
      db.settings) [
        | none ↦ none
        | some s ↦ some (s.smtp_host, s.smtp_port, s.smtp_user, s.email_from)
      ]

-- A row with the defaults of the table's columns.
abbrev pub default_settings : String → SettingsRow
default_settings user_id = record {
  user_id = user_id;
  smtp_host = none;
  smtp_port = none;
  smtp_user = none;
  email_from = none;
  email_to = none;
  email_days = some "mon,tue,wed,thu,fri,sat,sun";
  resend_jobs = false;
  hide_not_interested_on_map = true;
  digest_max_per_company = 0;
  digest_exclude_statuses = "";
  send_weekly_checkin = false;
}

-- `INSERT ... ON CONFLICT (user_id) DO UPDATE SET`: `set` writes the columns named by the statement.
unfoldable pub upsert_settings : String → (SettingsRow → SettingsRow) → Database → Database
upsert_settings user_id set db =
    if any (λ (s : SettingsRow). s.user_id == user_id) db.settings
    then record db {
      settings = update_where (λ (s : SettingsRow). s.user_id == user_id) set db.settings;
    }
    else record db { settings = db.settings ++ set (default_settings user_id) ∷ [] }

unfoldable pub save_settings :
    (user_id smtp_host : String) (smtp_port : ℕ) (smtp_user email_from : String)
    → Database
    → Database
unfolding upsert_settings
save_settings user_id smtp_host smtp_port smtp_user email_from =
    upsert_settings user_id (λ (s : SettingsRow). record s {
      smtp_host = some smtp_host;
      smtp_port = some smtp_port;
      smtp_user = some smtp_user;
      email_from = some email_from;
    })

-- The statement of `save_preferences`, on values of the columns' types.
unfoldable pub put_preferences :
    (user_id email_days : String) (resend_jobs : Bool) (email_to : String)
    (hide_not_interested_on_map : Bool) (digest_max_per_company : ℕ)
    (digest_exclude_statuses : String) (send_weekly_checkin : Bool)
    → Database
    → Database
unfolding upsert_settings
put_preferences user_id email_days resend_jobs email_to hide max_per_company exclude checkin =
    upsert_settings user_id (λ (s : SettingsRow). record s {
      email_days = some email_days;
      resend_jobs = resend_jobs;
      email_to = some email_to;
      hide_not_interested_on_map = hide;
      digest_max_per_company = max_per_company;
      digest_exclude_statuses = exclude;
      send_weekly_checkin = checkin;
    })

-- The greatest value of an INTEGER column.
abbrev pub max_integer : ℕ
max_integer = 2_147_483_647

-- A cap beyond the column's range raises.
unfoldable pub save_preferences :
    (user_id email_days : String) (resend_jobs : Bool) (email_to : String)
    (hide_not_interested_on_map : Bool) (digest_max_per_company : ℕ)
    (digest_exclude_statuses : String) (send_weekly_checkin : Bool)
    → Database
    → Result Database
unfolding put_preferences
save_preferences user_id email_days resend_jobs email_to hide max_per_company exclude checkin db =
    if ltb max_integer max_per_company
    then err other_error
    else ok (
        put_preferences user_id email_days resend_jobs email_to hide max_per_company exclude checkin
          db)

-- On a new row the statement also gives `email_to` and every day; on a conflict it leaves them.
unfoldable pub seed_settings :
    (user_id smtp_host : String) (smtp_port : ℕ) (smtp_user email_from email_to : String)
    → Database
    → Database
unfolding save_settings
seed_settings user_id smtp_host smtp_port smtp_user email_from email_to db =
    if any (λ (s : SettingsRow). s.user_id == user_id) db.settings
    then save_settings user_id smtp_host smtp_port smtp_user email_from db
    else record db {
      settings =
          db.settings
          ++ record (default_settings user_id) {
            smtp_host = some smtp_host;
            smtp_port = some smtp_port;
            smtp_user = some smtp_user;
            email_from = some email_from;
            email_to = some email_to;
          }
            ∷ [];
    }

-- A user as the admin's page lists it.
pub record UserItem : Type 0 where
  pub user : UserRow
  pub source_count : ℕ
  pub active_job_count : ℕ

unfoldable pub list_users : Database → List UserItem
list_users db =
    map
      (λ (u : UserRow). record {
        user = u;
        source_count = count_where (λ (s : SourceRow). s.user_id == u.id) db.sources;
        active_job_count =
            count_where (λ (j : JobRow). j.user_id == u.id && is_none j.removed_at) db.jobs;
      })
      (sort (λ (a b : UserRow). leb a.created_at b.created_at) db.users)
