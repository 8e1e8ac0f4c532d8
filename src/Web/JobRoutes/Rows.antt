-- ===== src/Web/JobRoutes/Rows.antt =====
-- Which rows of the jobs a request to a route changes, and how (app/web/routes_jobs.py over app/db.py).
use career_spyder.Prelude.{
  ℕ, ℤ, String, ◌==◌, ◌≡◌, refl, sym, ◌∙◌, Bool, true, false, not, ◌&&◌, ◌||◌, Option, none, some,
  List, [], ◌∷◌, map_option, find, elem, is_none, is_some, if◌then◌else◌, nonempty, ltb, length,
  Bool-cases, Option-cases, inl, inr, arith,
}
use career_spyder.Result.{Result, ok, err}
use career_spyder.Text.{strip}
use career_spyder.Table.Laws.{find-update_where, any-eq-is_some-find, count_where-eq-zero}
use career_spyder.Database.{Database, JobRow, UserRow, owned}
use career_spyder.Geocoding.{Outcome}
use career_spyder.Jobs.Edits.{
  update_job, mark_job_removed, set_job_status, add_history, set_job_notes, set_job_duplicate,
  clear_job_duplicate, set_location_override, clear_location_override,
}
use career_spyder.Jobs.History.{count_where-pos, bulk_set_status_lem}
use career_spyder.Accounts.Session.{Session}
use career_spyder.Web.{Form, Site, Reply, Response}
use career_spyder.Web.JobRoutes.{
  JobRequest, status_post, bulk_status_post, remove_post, duplicate_post, notes_post, location_post,
  serve_jobs, form_str, or_none, known_status, edited, Place, find_place, get_geocoded_location,
  override_at, update_job_status, bulk_update_job_status, remove_job, update_job_duplicate,
  update_job_notes, update_location_override,
}

-- The status that a bulk change asks for.
abbrev bulk_status : Form → Option String
bulk_status form = if form_str form "status" == "none" then none else some (form_str form "status")

-- What a request asks to be made of a row.
abbrev pub edit : ℕ → JobRequest → JobRow → JobRow
edit now (status_post accept form) r = record r { status = or_none (form_str form "status") }
edit now (bulk_status_post keys form) r = record r { status = bulk_status form }
edit now (remove_post accept form) r = record r {
  removed_at = if is_none r.removed_at then some now else r.removed_at;
}
edit now (duplicate_post accept form) r =
    if form_str form "action" == "clear"
    then record r { is_duplicate = false; duplicate_of = none }
    else record r {
      is_duplicate = true;
      duplicate_of = or_none (strip (form_str form "duplicate_of"));
    }
edit now (notes_post accept form) r = record r { notes = some (form_str form "notes") }
edit now (location_post name geocode form) r = record r {
  location_override = or_none (strip (form_str form "location"));
}

-- The rows of a user that a request names.
abbrev pub chosen : JobRequest → String → JobRow → Bool
chosen (status_post accept form) u r = owned u (form_str form "key") r
chosen (bulk_status_post keys form) u r = r.user_id == u && elem r.key keys
chosen (remove_post accept form) u r = owned u (form_str form "key") r
chosen (duplicate_post accept form) u r = owned u (form_str form "key") r
chosen (notes_post accept form) u r = owned u (form_str form "key") r
chosen (location_post name geocode form) u r = owned u (form_str form "key") r

-- Whether a place was found.
abbrev has_place : Result (Option Place) → Bool
has_place (err e) = false
has_place (ok place) = is_some place

-- Whether a request passes the checks of its route.
abbrev pub is_valid : Database → JobRequest → Bool
is_valid db (status_post accept form) = known_status (or_none (form_str form "status"))
is_valid db (bulk_status_post keys form) =
    nonempty (form_str form "status")
    && known_status (bulk_status form)
    && not (ltb 200 (length keys))
is_valid db (remove_post accept form) = nonempty (form_str form "key")
is_valid db (duplicate_post accept form) = nonempty (form_str form "key")
is_valid db (notes_post accept form) = nonempty (form_str form "key")
is_valid db (location_post name geocode form) =
    let location = strip (form_str form "location") in
    nonempty (form_str form "key")
    && (not (nonempty location)
        || has_place (find_place name geocode location (get_geocoded_location location db)))

-- The database that a valid request changes: the geocoder's answer takes time.
abbrev pub base : (Database → Database) → JobRequest → Database → Database
base meanwhile (status_post accept form) db = db
base meanwhile (bulk_status_post keys form) db = db
base meanwhile (remove_post accept form) db = db
base meanwhile (duplicate_post accept form) db = db
base meanwhile (notes_post accept form) db = db
base meanwhile (location_post name geocode form) db =
    if nonempty (strip (form_str form "location")) then meanwhile db else db

unowned :
    (u k v j : String) (f : JobRow → JobRow) (rs : List JobRow)
    → find (owned u k) rs ≡ none
    → map_option (λ (r : JobRow). if owned u k r then f r else r) (find (owned v j) rs)
      ≡ find (owned v j) rs
unowned u k v j f [] h = refl
unowned u k v j f (r ∷ rs) h = ground (arith, h, unowned u k v j f rs)

-- The database after an edit that may raise.
abbrev left_by : Database → Result Database → Database
left_by db (ok new) = new
left_by db (err e) = db

edited_db :
    (site : Site) (db : Database) (session : Session) (reply : Database → Response)
    (r : Result Database)
    → (edited (record site { db = db }) session reply r).site.db ≡ left_by db r
unfolding edited
edited_db site db session reply (ok new) = refl
edited_db site db session reply (err e) = refl

module _ (now : ℕ) (u k : String) (db : Database) (v j : String) where
  -- The row of `v` and `j` after `f` on the row of `u` and `k`.
  abbrev Edits : (JobRow → JobRow) → Result Database → Type 0
  Edits f r =
      find (owned v j) (left_by db r).jobs
      ≡ map_option (λ (s : JobRow). if owned u k s then f s else s) (find (owned v j) db.jobs)

  update_job-Edits :
      (f : JobRow → JobRow)
      → ((s : JobRow) → owned v j (f s) ≡ owned v j s)
      → Edits f (update_job f u k db)
  unfolding update_job
  update_job-Edits f same = elim (Option-cases (find (owned u k) db.jobs)) [
    | inl e ↦ rw (count_where-eq-zero (owned u k) db.jobs e) (sym (unowned u k v j f db.jobs e))
    | inr (r, e) ↦
        rw (count_where-pos (owned u k) db.jobs r e)
          (find-update_where (owned v j) (owned u k) f db.jobs same)
  ]

  set_job_status-Edits :
      (status : Option String)
      → Edits (λ s. record s { status = status }) (set_job_status now u k status db)
  unfolding set_job_status update_job add_history
  set_job_status-Edits status = elim (Option-cases (find (owned u k) db.jobs)) [
    | inl e ↦ rw (count_where-eq-zero (owned u k) db.jobs e) (sym (unowned u k v j _ db.jobs e))
    | inr (r, e) ↦
        rw (count_where-pos (owned u k) db.jobs r e)
          (find-update_where (owned v j) (owned u k) _ db.jobs (λ s. refl))
  ]

  removed_once :
      (o : Option JobRow)
      → map_option
          (λ (s : JobRow).
            if owned u k s && is_none s.removed_at then record s { removed_at = some now } else s)
          o
        ≡ map_option
            (λ (s : JobRow).
              if owned u k s
              then record s { removed_at = if is_none s.removed_at then some now else s.removed_at }
              else s)
            o
  removed_once none = refl
  removed_once (some s) = elim (Bool-cases (is_none s.removed_at)) [
    | inl e ↦ rw e (ground arith)
    | inr e ↦ rw e (ground arith)
  ]

  mark_job_removed-Edits :
      Edits
        (λ s. record s { removed_at = if is_none s.removed_at then some now else s.removed_at })
        (mark_job_removed now u k db)
  unfolding mark_job_removed
  mark_job_removed-Edits = elim (Option-cases (find (owned u k) db.jobs)) [
    | inl e ↦ rw (any-eq-is_some-find (owned u k) db.jobs, e) (sym (unowned u k v j _ db.jobs e))
    | inr (r, e) ↦
        rw (any-eq-is_some-find (owned u k) db.jobs, e)
          (find-update_where (owned v j) _ _ db.jobs (λ s. refl) ∙ removed_once _)
  ]

  set_location_override-Edits :
      (location : String) (name city region country : Option String) (lat lng : Option ℤ)
      (provider : Option String)
      → Edits
          (λ s. record s { location_override = some location })
          (set_location_override now u k location name city region country lat lng provider db)
  unfolding set_location_override
  set_location_override-Edits location name city region country lat lng provider =
      elim (Option-cases (find (owned u k) db.jobs)) [
        | inl e ↦
            rw (any-eq-is_some-find (owned u k) db.jobs, e) (sym (unowned u k v j _ db.jobs e))
        | inr (r, e) ↦
            rw (any-eq-is_some-find (owned u k) db.jobs, e)
              (find-update_where (owned v j) (owned u k) _ db.jobs (λ s. refl))
      ]

module _ (now : ℕ) (meanwhile : Database → Database) (current : UserRow) (site : Site)
    (session : Session) (v j : String) where
  -- The row of `v` and `j` where a reply came from a request.
  abbrev Served : JobRequest → Reply → Type 0
  Served request reply = find (owned v j) reply.site.db.jobs ≡ (
      if is_valid site.db request
      then map_option
          (λ (r : JobRow). if chosen request current.id r then edit now request r else r)
          (find (owned v j) (base meanwhile request site.db).jobs)
      else find (owned v j) site.db.jobs)

  status-Served :
      (accept : String) (form : Form)
      → Served (status_post accept form) (update_job_status now accept form current site session)
  unfolding update_job_status
  status-Served accept form = elim (Bool-cases (known_status (or_none (form_str form "status")))) [
    | inl e ↦ rw e (
        rw (edited_db site site.db session _ _)
          (set_job_status-Edits now current.id (form_str form "key") site.db v j _))
    | inr e ↦ rw e refl
  ]

  bulk-Served :
      (keys : List String) (form : Form)
      → Served
          (bulk_status_post keys form)
          (bulk_update_job_status now keys form current site session)
  unfolding bulk_update_job_status
  bulk-Served keys form = elim (Bool-cases (nonempty (form_str form "status"))) [
    | inr e ↦ rw e refl
    | inl e ↦ rw e (elim (Bool-cases (known_status (bulk_status form))) [
      | inr f ↦ rw f refl
      | inl f ↦ rw f (elim (Bool-cases (ltb 200 (length keys))) [
        | inl g ↦ rw g refl
        | inr g ↦ rw g ((bulk_set_status_lem now current.id keys (bulk_status form) site.db).0 v j)
      ])
    ])
  ]

  remove-Served :
      (accept : String) (form : Form)
      → Served (remove_post accept form) (remove_job now accept form current site session)
  unfolding remove_job
  remove-Served accept form = elim (Bool-cases (nonempty (form_str form "key"))) [
    | inl e ↦ rw e (
        rw (edited_db site site.db session _ _)
          (mark_job_removed-Edits now current.id (form_str form "key") site.db v j))
    | inr e ↦ rw e refl
  ]

  notes-Served :
      (accept : String) (form : Form)
      → Served (notes_post accept form) (update_job_notes accept form current site session)
  unfolding update_job_notes
  notes-Served accept form = elim (Bool-cases (nonempty (form_str form "key"))) [
    | inl e ↦ rw e (
        rw (edited_db site site.db session _ _) (
          unfold set_job_notes in
          update_job-Edits now current.id (form_str form "key") site.db v j _ (λ s. refl)))
    | inr e ↦ rw e refl
  ]

  duplicate-Served :
      (accept : String) (form : Form)
      → Served (duplicate_post accept form) (update_job_duplicate accept form current site session)
  unfolding update_job_duplicate set_job_duplicate clear_job_duplicate
  duplicate-Served accept form = elim (Bool-cases (nonempty (form_str form "key"))) [
    | inl e ↦ rw e (
        rw (edited_db site site.db session _ _)
          (elim (Bool-cases (form_str form "action" == "clear")) [
            | inl f ↦
                rw f
                  (update_job-Edits now current.id (form_str form "key") site.db v j _ (λ s. refl))
            | inr f ↦
                rw f
                  (update_job-Edits now current.id (form_str form "key") site.db v j _ (λ s. refl))
          ]))
    | inr e ↦ rw e refl
  ]

  override_rows :
      (key location : String) (place : Result (Option Place))
      → find
          (owned v j)
          (override_at now meanwhile key location place current site session).site.db.jobs
        ≡ (if has_place place
            then map_option
                (λ (r : JobRow).
                  if owned current.id key r
                  then record r { location_override = some location }
                  else r)
                (find (owned v j) (meanwhile site.db).jobs)
            else find (owned v j) site.db.jobs)
  unfolding override_at
  override_rows key location (err e) = refl
  override_rows key location (ok none) = refl
  override_rows key location (ok (some p)) = rw (edited_db site (meanwhile site.db) session _ _) (
      set_location_override-Edits now current.id key (meanwhile site.db) v j location _ _ _ _ _ _ _)

  location-Served :
      (name : String) (geocode : String → Outcome) (form : Form)
      → Served
          (location_post name geocode form)
          (update_location_override now meanwhile name geocode form current site session)
  unfolding update_location_override clear_location_override
  location-Served name geocode form = elim (Bool-cases (nonempty (form_str form "key"))) [
    | inr e ↦ rw e refl
    | inl e ↦ rw e (elim (Bool-cases (nonempty (strip (form_str form "location")))) [
      | inl f ↦ rw f (override_rows (form_str form "key") (strip (form_str form "location")) _)
      | inr f ↦ rw f (
          rw (edited_db site site.db session _ _)
            (update_job-Edits now current.id (form_str form "key") site.db v j _ (λ s. refl)))
    ])
  ]

-- A request to a route on jobs that passes the route's checks makes of the rows that it names, of the user
-- who asked, what it asks for, and leaves every other row: the status, the removal at the present time, the
-- flag as a duplicate, the notes or the place that its form holds. One that does not pass leaves every row.
-- A new place is stored after the geocoder's answer, on what `meanwhile` has committed by then.
pub find-serve_jobs :
    (now : ℕ) (meanwhile : Database → Database) (request : JobRequest) (current : UserRow)
    (site : Site) (session : Session) (v j : String)
    → find (owned v j) (serve_jobs now meanwhile request current site session).site.db.jobs ≡ (
        if is_valid site.db request
        then map_option
            (λ (r : JobRow). if chosen request current.id r then edit now request r else r)
            (find (owned v j) (base meanwhile request site.db).jobs)
        else find (owned v j) site.db.jobs)
unfolding serve_jobs
find-serve_jobs now meanwhile (status_post accept form) current site session v j =
    status-Served now meanwhile current site session v j accept form
find-serve_jobs now meanwhile (bulk_status_post keys form) current site session v j =
    bulk-Served now meanwhile current site session v j keys form
find-serve_jobs now meanwhile (remove_post accept form) current site session v j =
    remove-Served now meanwhile current site session v j accept form
find-serve_jobs now meanwhile (duplicate_post accept form) current site session v j =
    duplicate-Served now meanwhile current site session v j accept form
find-serve_jobs now meanwhile (notes_post accept form) current site session v j =
    notes-Served now meanwhile current site session v j accept form
find-serve_jobs now meanwhile (location_post name geocode form) current site session v j =
    location-Served now meanwhile current site session v j name geocode form
