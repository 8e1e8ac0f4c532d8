-- ===== src/Jobs/Outcomes.antt =====
-- What an edit of one job leaves where it succeeds.
use career_spyder.Prelude.{ℕ, String, ◌≡◌, ◌&&◌, Option, some, List, is_none, arith, ℤ}
use career_spyder.Database.{Database, JobRow, LocationRow, owned}
use career_spyder.Table.{update_where}
use career_spyder.Result.{ok, >>=-eq-ok, ok-injective}
use career_spyder.Jobs.Edits.{
  update_job, add_history, mark_job_removed, set_job_status, set_location_override,
}

pub update_job-eq-ok :
    (f : JobRow → JobRow) (u k : String) (db db' : Database)
    → update_job f u k db ≡ ok db'
    → db' ≡ record db { jobs = update_where (owned u k) f db.jobs }
unfolding update_job
update_job-eq-ok f u k db db' h = ground arith

pub mark_job_removed-eq-ok :
    (now : ℕ) (u k : String) (db db' : Database)
    → mark_job_removed now u k db ≡ ok db'
    → db' ≡ record db {
      jobs =
          update_where
            (λ r. owned u k r && is_none r.removed_at)
            (λ (r : JobRow). record r { removed_at = some now })
            db.jobs;
    }
unfolding mark_job_removed
mark_job_removed-eq-ok now u k db db' h = ground arith

pub set_job_status-eq-ok :
    (now : ℕ) (u k : String) (status : Option String) (db db' : Database)
    → set_job_status now u k status db ≡ ok db'
    → (mid : Database) × (update_job (λ (r : JobRow). record r { status = status }) u k db ≡ ok mid)
      × (add_history now u k status mid ≡ db')
unfolding set_job_status
set_job_status-eq-ok now u k status db db' h =
    let (mid, changed, added) = >>=-eq-ok _ _ db' h in (mid, changed, ok-injective _ _ added)

pub set_location_override-eq-ok :
    (now : ℕ) (u k location : String) (name city region country : Option String)
    (lat lng : Option ℤ) (provider : Option String) (db db' : Database)
    → set_location_override now u k location name city region country lat lng provider db ≡ ok db'
    → (rows : List LocationRow) × (db' ≡ record db {
      locations = rows;
      jobs =
          update_where
            (owned u k)
            (λ (r : JobRow). record r { location_override = some location })
            db.jobs;
    })
unfolding set_location_override
set_location_override-eq-ok now u k location name city region country lat lng provider db db' h =
    (db'.locations, ground arith)
