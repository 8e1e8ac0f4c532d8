-- ===== src/Models.antt =====
-- app/models.py: the job that an adapter finds, a source that failed, and the status labels.
-- Texts are `String`; `None` is `none`.
use career_spyder.Prelude.{String, ◌==◌, Option, none, some, if◌then◌else◌}

pub record Job : Type 0 where
  pub key : String
  pub title : String
  pub url : String
  pub company : Option String
  pub location : Option String
  pub posted_date : Option String
  pub source_name : String
  pub source_id : Option String
  pub summary : Option String

pub record FailedSource : Type 0 where
  pub name : String
  pub url : Option String
  pub source_id : Option String

-- `JOB_STATUSES.get(status)`
unfoldable pub job_status_label : String → Option String
job_status_label status =
    if status == "applied"
    then some "Applied"
    else if status == "ignored"
    then some "Ignored"
    else if status == "accepted"
    then some "Accepted"
    else if status == "rejected"
    then some "Rejected"
    else if status == "not_interested"
    then some "Not Interested"
    else none
