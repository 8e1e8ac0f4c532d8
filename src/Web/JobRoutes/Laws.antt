-- ===== src/Web/JobRoutes/Laws.antt =====
-- What a route on jobs leaves: an answer with an error and the database as it was, or one operation on the
-- rows of the user who asked.
use career_spyder.Prelude.{
  Bool, List, if◌then◌else◌, true, false, Option-cases, ◌≢◌, ◌∙◌, ◌==◌, inl, inr, not, nonempty,
  ltb, length, ℕ, String, ◌≡◌, refl, Option, none, some, Bool-cases,
}
use career_spyder.Web.Guard.{as_user, guarded}
use career_spyder.Accounts.Session.{load_session_user, require_user, Session}
use career_spyder.Text.{strip}
use career_spyder.Web.{Host, Form, Response, failure, Site, Reply, answer}
use career_spyder.Jobs.Edits.{bulk_set_status, set_job_duplicate, clear_job_duplicate}
use career_spyder.Geocoding.{Outcome}
use career_spyder.Jobs.Isolation.{
  SameFor, JobStep-SameFor, bulk_status_set, removed, notes_set, duplicate_set, duplicate_cleared,
  override_cleared, JobStep, status_set, override_set,
}
use career_spyder.Web.JobRoutes.{
  jobs_route, bulk_update_job_status, remove_job, update_job_duplicate, update_job_notes,
  update_location_override, JobRequest, status_post, bulk_status_post, remove_post, duplicate_post,
  notes_post, location_post, serve_jobs, form_str, or_none, known_status, edited, Place,
  update_job_status, override_at,
}
use career_spyder.Result.{
  Result, ok, err, key_error, runtime_error, unsafe_url, request_failed, other_error,
}
use career_spyder.Database.{Database, UserRow}

-- The database at the start of a request, or after what other requests committed meanwhile.
pub data Before (site : Site) (meanwhile : Database → Database) : Database → Type 0 where
  at_start : Before site meanwhile site.db
  later : Before site meanwhile (meanwhile site.db)

-- An error that changes nothing, or one operation on the jobs of `u`.
pub data JobOutcome (u : String) (site : Site) (meanwhile : Database → Database)
    : Reply → Type 0 where
  refused :
      (db : Database) (session : Session) (code : ℕ) (detail : String)
      → Before site meanwhile db
      → JobOutcome u site meanwhile (answer (record site { db = db }) session (failure code detail))
  changed :
      (db new : Database) (session : Session) (response : Response)
      → Before site meanwhile db
      → JobStep u db new
      → JobOutcome u site meanwhile (answer (record site { db = new }) session response)

module _ (u : String) (site : Site) (meanwhile : Database → Database) (session : Session) where
  abbrev OutcomeOf : Reply → Type 0
  OutcomeOf = JobOutcome u site meanwhile

  refused_at_start :
      (code : ℕ) (detail : String) → OutcomeOf (answer site session (failure code detail))
  refused_at_start code detail = refused site.db session code detail at_start

  edited-JobOutcome :
      (db : Database) (reply : Database → Response) (r : Result Database)
      → Before site meanwhile db
      → ((new : Database) → r ≡ ok new → JobStep u db new)
      → OutcomeOf (edited (record site { db = db }) session reply r)
  unfolding edited
  edited-JobOutcome db reply (ok new) base step =
      changed db new session (reply new) base (step new refl)
  edited-JobOutcome db reply (err (key_error key)) base step = refused db session _ _ base
  edited-JobOutcome db reply (err runtime_error) base step = refused db session _ _ base
  edited-JobOutcome db reply (err unsafe_url) base step = refused db session _ _ base
  edited-JobOutcome db reply (err request_failed) base step = refused db session _ _ base
  edited-JobOutcome db reply (err other_error) base step = refused db session _ _ base

module _ (now : ℕ) (current : UserRow) (site : Site) (meanwhile : Database → Database)
    (session : Session) where
  abbrev Allowed : Reply → Type 0
  Allowed = JobOutcome current.id site meanwhile

  status-JobOutcome :
      (accept : String) (form : Form)
      → Allowed (update_job_status now accept form current site session)
  unfolding update_job_status
  status-JobOutcome accept form =
      elim (Bool-cases (known_status (or_none (form_str form "status")))) [
        | inl e ↦ rw e (
            edited-JobOutcome current.id site meanwhile session site.db _ _ at_start
              (λ new h. status_set now (form_str form "key") (or_none (form_str form "status")) h))
        | inr e ↦ rw e (refused_at_start current.id site meanwhile session _ _)
      ]

  bulk-JobOutcome :
      (keys : List String) (form : Form)
      → Allowed (bulk_update_job_status now keys form current site session)
  unfolding bulk_update_job_status
  bulk-JobOutcome keys form =
      let raw = form_str form "status" in
      let status : Option String = if raw == "none" then none else some raw in
      elim (Bool-cases (not (nonempty raw))) [
        | inl e ↦ rw e (refused_at_start current.id site meanwhile session _ _)
        | inr e ↦ rw e (elim (Bool-cases (not (known_status status))) [
          | inl f ↦ rw f (refused_at_start current.id site meanwhile session _ _)
          | inr f ↦ rw f (elim (Bool-cases (ltb 200 (length keys))) [
            | inl g ↦ rw g (refused_at_start current.id site meanwhile session _ _)
            | inr g ↦ rw g (
                changed site.db (bulk_set_status now current.id keys status site.db).0 session _
                  at_start (bulk_status_set now keys status))
          ])
        ])
      ]

  -- The routes that first ask for a key.
  keyed :
      (key : String) (reply : Reply)
      → Allowed reply
      → Allowed
          (if nonempty key then reply else answer site session (failure 400 "Missing job key"))
  keyed key reply allowed = elim (Bool-cases (nonempty key)) [
    | inl e ↦ rw e allowed
    | inr e ↦ rw e (refused_at_start current.id site meanwhile session _ _)
  ]

  remove-JobOutcome :
      (accept : String) (form : Form) → Allowed (remove_job now accept form current site session)
  unfolding remove_job
  remove-JobOutcome accept form = keyed (form_str form "key") _ (
      edited-JobOutcome current.id site meanwhile session site.db _ _ at_start
        (λ new h. removed now (form_str form "key") h))

  notes-JobOutcome :
      (accept : String) (form : Form) → Allowed (update_job_notes accept form current site session)
  unfolding update_job_notes
  notes-JobOutcome accept form = keyed (form_str form "key") _ (
      edited-JobOutcome current.id site meanwhile session site.db _ _ at_start
        (λ new h. notes_set (form_str form "key") (form_str form "notes") h))

  flagged_step :
      (key : String) (of : Option String) (clears : Bool) (new : Database)
      → (if clears
          then clear_job_duplicate current.id key site.db
          else set_job_duplicate current.id key of site.db)
        ≡ ok new
      → JobStep current.id site.db new
  flagged_step key of true new h = duplicate_cleared key h
  flagged_step key of false new h = duplicate_set key of h

  duplicate-JobOutcome :
      (accept : String) (form : Form)
      → Allowed (update_job_duplicate accept form current site session)
  unfolding update_job_duplicate
  duplicate-JobOutcome accept form = keyed (form_str form "key") _ (
      edited-JobOutcome current.id site meanwhile session site.db _ _ at_start (
        flagged_step (form_str form "key") (or_none (strip (form_str form "duplicate_of")))
          (form_str form "action" == "clear")))

  override_at-JobOutcome :
      (key location : String) (place : Result (Option Place))
      → Allowed (override_at now meanwhile key location place current site session)
  unfolding override_at
  override_at-JobOutcome key location (err e) =
      refused_at_start current.id site meanwhile session _ _
  override_at-JobOutcome key location (ok none) =
      refused_at_start current.id site meanwhile session _ _
  override_at-JobOutcome key location (ok (some p)) =
      edited-JobOutcome current.id site meanwhile session (meanwhile site.db) _ _ later (λ new h.
        override_set now key location p.display_name p.city p.region p.country p.lat p.lng
          p.provider h)

  location-JobOutcome :
      (name : String) (geocode : String → Outcome) (form : Form)
      → Allowed (update_location_override now meanwhile name geocode form current site session)
  unfolding update_location_override
  location-JobOutcome name geocode form = elim (Bool-cases (not (nonempty (form_str form "key")))) [
    | inl e ↦ rw e (refused_at_start current.id site meanwhile session _ _)
    | inr e ↦ rw e (elim (Bool-cases (nonempty (strip (form_str form "location")))) [
      | inl f ↦
          rw f (override_at-JobOutcome (form_str form "key") (strip (form_str form "location")) _)
      | inr f ↦ rw f (
          edited-JobOutcome current.id site meanwhile session site.db _ _ at_start
            (λ new h. override_cleared (form_str form "key") h))
    ])
  ]

-- Every route on jobs either answers with an error and leaves the database as the route found it, or makes
-- exactly one operation on the jobs of the user who asked, whatever the form holds.
pub serve_jobs-JobOutcome :
    (now : ℕ) (meanwhile : Database → Database) (request : JobRequest) (current : UserRow)
    (site : Site) (session : Session)
    → JobOutcome current.id site meanwhile (serve_jobs now meanwhile request current site session)
unfolding serve_jobs
serve_jobs-JobOutcome now meanwhile (status_post accept form) current site session =
    status-JobOutcome now current site meanwhile session accept form
serve_jobs-JobOutcome now meanwhile (bulk_status_post keys form) current site session =
    bulk-JobOutcome now current site meanwhile session keys form
serve_jobs-JobOutcome now meanwhile (remove_post accept form) current site session =
    remove-JobOutcome now current site meanwhile session accept form
serve_jobs-JobOutcome now meanwhile (duplicate_post accept form) current site session =
    duplicate-JobOutcome now current site meanwhile session accept form
serve_jobs-JobOutcome now meanwhile (notes_post accept form) current site session =
    notes-JobOutcome now current site meanwhile session accept form
serve_jobs-JobOutcome now meanwhile (location_post name geocode form) current site session =
    location-JobOutcome now current site meanwhile session name geocode form

Before-SameFor :
    (v : String) (site : Site) (meanwhile : Database → Database) (db : Database)
    → SameFor v site.db (meanwhile site.db)
    → Before site meanwhile db
    → SameFor v site.db db
Before-SameFor v site meanwhile db others at_start = record { jobs = refl; history = refl }
Before-SameFor v site meanwhile db others later = others

JobOutcome-SameFor :
    (v u : String) (site : Site) (meanwhile : Database → Database) (reply : Reply)
    → u ≢ v
    → SameFor v site.db (meanwhile site.db)
    → JobOutcome u site meanwhile reply
    → SameFor v site.db reply.site.db
JobOutcome-SameFor v u site meanwhile reply ne others (refused db session code detail base) =
    Before-SameFor v site meanwhile db others base
JobOutcome-SameFor v u site meanwhile reply ne others (changed db new session response base step) =
    let before = Before-SameFor v site meanwhile db others base in
    let here = JobStep-SameFor u v ne step in
    record { jobs = here.jobs ∙ before.jobs; history = here.history ∙ before.history }

-- A request to a route on jobs leaves the jobs and the status history of a user as they are, unless its
-- session is that user's: with anybody's session or none, as long as the requests in between do.
pub jobs_route-SameFor :
    (host : Host) (now : ℕ) (meanwhile : Database → Database) (request : JobRequest) (site : Site)
    (session : Session) (v : String)
    → ((user : UserRow)
        → (load_session_user host.crypto session site.db).0 ≡ some user
        → user.id ≢ v)
    → SameFor v site.db (meanwhile site.db)
    → SameFor v site.db (jobs_route host now meanwhile request site session).site.db
unfolding jobs_route as_user guarded require_user
jobs_route-SameFor host now meanwhile request site session v whose others =
    elim (Option-cases (load_session_user host.crypto session site.db).0) [
      | inl e ↦ rw e (record { jobs = refl; history = refl })
      | inr (user, e) ↦ rw e (
          JobOutcome-SameFor v user.id site meanwhile _ (whose user e) others
            (serve_jobs-JobOutcome now meanwhile request user site _))
    ]
