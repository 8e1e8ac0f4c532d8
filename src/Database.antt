-- ===== src/Database.antt =====
-- The tables of app/db.py (alembic/versions), one record for a row, and the whole database.
-- Time is the clock's reading in microseconds, a native number. Coordinates are degrees scaled
-- by 10^7. A JSON column is the value that it stands for.
use career_spyder.Prelude.{ℕ, ℤ, String, ◌==◌, Bool, ◌&&◌, Option, List}
use career_spyder.Models.{FailedSource}
use career_spyder.Config.{Source}

pub record JobRow : Type 0 where
  pub key : String
  pub title : String
  pub company : Option String
  pub location : Option String
  pub location_override : Option String
  pub url : String
  pub posted_date : Option String
  pub source_name : String
  pub source_id : Option String
  pub summary : Option String
  pub first_seen_run_id : Option ℕ
  pub first_seen_at : ℕ
  pub removed_at : Option ℕ
  pub emailed_at : Option ℕ
  pub status : Option String
  pub is_duplicate : Bool
  pub duplicate_of : Option String
  pub user_id : String
  pub notes : Option String

pub record HistoryRow : Type 0 where
  pub id : ℕ
  pub user_id : String
  pub job_key : String
  pub status : Option String
  pub changed_at : ℕ

-- An entry of the column `failed_sources`: a bare name in rows of older versions.
pub data FailedEntry : Type 0 where
  bare : String → FailedEntry
  full : FailedSource → FailedEntry

pub record RunRow : Type 0 where
  pub id : ℕ
  pub started_at : ℕ
  pub finished_at : Option ℕ
  pub new_job_count : ℕ
  pub failed_sources : List FailedEntry
  pub kind : String
  pub user_id : Option String
  pub source_count : ℕ

pub record SettingsRow : Type 0 where
  pub user_id : String
  pub smtp_host : Option String
  pub smtp_port : Option ℕ
  pub smtp_user : Option String
  pub email_from : Option String
  pub email_to : Option String
  pub email_days : Option String
  pub resend_jobs : Bool
  pub hide_not_interested_on_map : Bool
  pub digest_max_per_company : ℕ
  pub digest_exclude_statuses : String
  pub send_weekly_checkin : Bool

pub record UserRow : Type 0 where
  pub id : String
  pub username : String
  pub email : String
  pub password_hash : String
  pub role : String
  pub is_active : Bool
  pub created_at : ℕ

pub record InviteRow : Type 0 where
  pub token : String
  pub email : String
  pub created_by : String
  pub created_at : ℕ
  pub expires_at : ℕ
  pub used_at : Option ℕ

pub record SourceRow : Type 0 where
  pub id : String
  pub user_id : String
  pub type : String
  pub name : String
  pub secondary : Bool
  pub config : Source
  pub updated_at : ℕ

pub record LocationRow : Type 0 where
  pub location : String
  pub display_name : Option String
  pub city : Option String
  pub region : Option String
  pub country : Option String
  pub lat : Option ℤ
  pub lng : Option ℤ
  pub status : String
  pub provider : Option String
  pub resolved_at : Option ℕ

pub record Database : Type 0 where
  pub jobs : List JobRow
  pub history : List HistoryRow
  pub next_history_id : ℕ
  pub runs : List RunRow
  pub next_run_id : ℕ
  pub settings : List SettingsRow
  pub users : List UserRow
  pub invites : List InviteRow
  pub sources : List SourceRow
  pub locations : List LocationRow

-- `user_id = %s AND key = %s`, the primary key of `jobs`.
abbrev pub owned : String → String → JobRow → Bool
owned u k r = r.user_id == u && r.key == k
