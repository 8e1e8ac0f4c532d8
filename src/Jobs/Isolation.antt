-- ===== src/Jobs/Isolation.antt =====
-- Tenant isolation: no operation for one user touches the rows of another.
use career_spyder.Prelude.{
  ℕ, String, ◌==◌, ◌≡◌, ◌≢◌, refl, sym, ap, ◌∙◌, Bool, true, false, ◌&&◌, Option, none, some, List,
  [], ◌∷◌, any, filter, elem, if◌then◌else◌, Bool-cases, arith, eq_iff, inl, inr, filter-append, ℤ,
}
use career_spyder.Models.{Job}
use career_spyder.Database.{Database, JobRow, HistoryRow, owned}
use career_spyder.Table.{update_where, delete_where, insert_unless}
use career_spyder.Jobs.{
  new_row, insert_jobs, put_jobs, save_jobs, stale, refresh_rows, refresh_job_urls, clear_jobs,
  mark_emailed, mark_removed_rows, reactivate_rows, reconcile_jobs,
}
use career_spyder.Jobs.Save.{save_jobs-ok-eq}
use mathlib.Core.List.{append-nil}
use mathlib.Core.Path.{subst}
use career_spyder.Result.{ok}
use career_spyder.Jobs.Edits.{
  update_job, add_history, mark_job_removed, set_job_status, add_histories, bulk_set_status,
  set_job_notes, set_job_duplicate, clear_job_duplicate, clear_location_override,
  set_location_override,
}
use career_spyder.Jobs.Outcomes.{
  update_job-eq-ok, mark_job_removed-eq-ok, set_job_status-eq-ok, set_location_override-eq-ok,
}

-- What another user can see: the rows of `jobs` and of `job_status_history` with their id.
pub record SameFor (v : String) (a b : Database) : Type 0 where
  pub jobs :
      filter (λ (r : JobRow). r.user_id == v) b.jobs
      ≡ filter (λ (r : JobRow). r.user_id == v) a.jobs
  pub history :
      filter (λ (h : HistoryRow). h.user_id == v) b.history
      ≡ filter (λ (h : HistoryRow). h.user_id == v) a.history

-- The operations on jobs, each for the user `u`.
pub data JobStep (u : String) : Database → Database → Type 0 where
  saved :
      {db db' : Database} (now run_id : ℕ) (jobs : List Job)
      → save_jobs now jobs run_id u db ≡ ok db'
      → JobStep u db db'
  refreshed : {db : Database} (jobs : List Job) → JobStep u db (refresh_job_urls u jobs db).0
  cleared : {db : Database} → JobStep u db (clear_jobs u db)
  emailed :
      {db : Database} (now : ℕ) (keys : List String) → JobStep u db (mark_emailed now u keys db)
  reconciled :
      {db : Database} (now : ℕ) (configured succeeded : List String) (jobs : List Job)
      → JobStep u db (reconcile_jobs now u configured succeeded jobs db)
  removed :
      {db db' : Database} (now : ℕ) (key : String)
      → mark_job_removed now u key db ≡ ok db'
      → JobStep u db db'
  status_set :
      {db db' : Database} (now : ℕ) (key : String) (status : Option String)
      → set_job_status now u key status db ≡ ok db'
      → JobStep u db db'
  bulk_status_set :
      {db : Database} (now : ℕ) (keys : List String) (status : Option String)
      → JobStep u db (bulk_set_status now u keys status db).0
  notes_set :
      {db db' : Database} (key notes : String)
      → set_job_notes u key notes db ≡ ok db'
      → JobStep u db db'
  duplicate_set :
      {db db' : Database} (key : String) (of : Option String)
      → set_job_duplicate u key of db ≡ ok db'
      → JobStep u db db'
  duplicate_cleared :
      {db db' : Database} (key : String) → clear_job_duplicate u key db ≡ ok db' → JobStep u db db'
  override_set :
      {db db' : Database} (now : ℕ) (key location : String)
      (display_name city region country : Option String) (lat lng : Option ℤ)
      (provider : Option String)
      → set_location_override now u key location display_name city region country lat lng provider
          db
        ≡ ok db'
      → JobStep u db db'
  override_cleared :
      {db db' : Database} (key : String)
      → clear_location_override u key db ≡ ok db'
      → JobStep u db db'

-- Any number of operations for users other than `v`.
pub data OthersRun (v : String) : Database → Database → Type 0 where
  done : {db : Database} → OthersRun v db db
  next : {a b c : Database} (u : String) → u ≢ v → OthersRun v a b → JobStep u b c → OthersRun v a c

module _ (u v : String) (ne : u ≢ v) where
  other : (w : String) → w ≡ u → (w == v) ≡ false
  other w e = elim (Bool-cases (w == v)) [
    | inl same ↦ absurd (ne (sym e ∙ (eq_iff w v).0 same))
    | inr no_match ↦ no_match
  ]

  pub filter-update_where :
      (p : JobRow → Bool) (f : JobRow → JobRow) (rs : List JobRow)
      → ((r : JobRow) → p r ≡ true → r.user_id ≡ u)
      → ((r : JobRow) → (f r).user_id ≡ r.user_id)
      → filter (λ (r : JobRow). r.user_id == v) (update_where p f rs)
        ≡ filter (λ (r : JobRow). r.user_id == v) rs
  unfolding update_where
  filter-update_where p f [] hp hf = refl
  filter-update_where p f (r ∷ rs) hp hf = elim (Bool-cases (p r)) [
    | inl e ↦ rw e (rw (hf r, other r.user_id (hp r e)) (filter-update_where p f rs hp hf))
    | inr e ↦
        rw e (ap (λ t. if r.user_id == v then r ∷ t else t) (filter-update_where p f rs hp hf))
  ]

  filter-insert_jobs :
      (now run_id : ℕ) (jobs : List Job) (rs : List JobRow)
      → filter (λ (r : JobRow). r.user_id == v) (insert_jobs now run_id u jobs rs)
        ≡ filter (λ (r : JobRow). r.user_id == v) rs
  unfolding insert_jobs insert_unless new_row
  filter-insert_jobs now run_id [] rs = refl
  filter-insert_jobs now run_id (j ∷ jobs) rs =
      filter-insert_jobs now run_id jobs _ ∙ elim (Bool-cases (any (owned u j.key) rs)) [
        | inl e ↦ rw e
        | inr e ↦
            rw e (
              filter-append (λ (r : JobRow). r.user_id == v) rs _
              ∙ rw (other u refl) (append-nil _))
      ]

  pub owned→user : (k : String) (r : JobRow) → owned u k r ≡ true → r.user_id ≡ u
  owned→user k r h = (eq_iff r.user_id u).0 (ground arith)

  filter-refresh_rows :
      (jobs : List Job) (rs : List JobRow)
      → filter (λ (r : JobRow). r.user_id == v) (refresh_rows u jobs rs).0
        ≡ filter (λ (r : JobRow). r.user_id == v) rs
  unfolding refresh_rows
  filter-refresh_rows [] rs = refl
  filter-refresh_rows (j ∷ jobs) rs =
      filter-refresh_rows jobs _
      ∙ filter-update_where (stale u j) _ rs (λ r h. owned→user j.key r (ground arith)) (λ r. refl)

  filter-delete_where {ℓ} :
      {R : Type ℓ} (user : R → String) (rs : List R)
      → filter (λ r. user r == v) (delete_where (λ r. user r == u) rs)
        ≡ filter (λ r. user r == v) rs
  unfolding delete_where
  filter-delete_where user [] = refl
  filter-delete_where user (r ∷ rs) = elim (Bool-cases (user r == u)) [
    | inl e ↦ rw (e, other (user r) ((eq_iff (user r) u).0 e)) (filter-delete_where user rs)
    | inr e ↦ rw e (ap (λ t. if user r == v then r ∷ t else t) (filter-delete_where user rs))
  ]

  in_set→user : (c : Bool) (r : JobRow) → (r.user_id == u && c) ≡ true → r.user_id ≡ u
  in_set→user c r h = (eq_iff r.user_id u).0 (ground arith)

  pub jobs-SameFor :
      (db : Database) (rows : List JobRow)
      → filter (λ (r : JobRow). r.user_id == v) rows
        ≡ filter (λ (r : JobRow). r.user_id == v) db.jobs
      → SameFor v db (record db { jobs = rows })
  jobs-SameFor db rows h = record { jobs = h; history = refl }

  update_job-SameFor :
      (f : JobRow → JobRow) (k : String) (db db' : Database)
      → ((r : JobRow) → (f r).user_id ≡ r.user_id)
      → update_job f u k db ≡ ok db'
      → SameFor v db db'
  update_job-SameFor f k db db' hf h =
      subst (SameFor v db) (sym (update_job-eq-ok f u k db db' h))
        (jobs-SameFor db _ (filter-update_where (owned u k) f db.jobs (owned→user k) hf))

  add_history-SameFor :
      (now : ℕ) (k : String) (status : Option String) (a b : Database)
      → SameFor v a b
      → SameFor v a (add_history now u k status b)
  unfolding add_history
  add_history-SameFor now k status a b h = record {
    jobs = h.jobs;
    history =
        filter-append (λ (r : HistoryRow). r.user_id == v) b.history _
        ∙ rw (other u refl) (append-nil _ ∙ h.history);
  }

  add_histories-SameFor :
      (now : ℕ) (status : Option String) (keys : List String) (a b : Database)
      → SameFor v a b
      → SameFor v a (add_histories now u status keys b)
  unfolding add_histories
  add_histories-SameFor now status [] a b h = h
  add_histories-SameFor now status (k ∷ keys) a b h =
      add_histories-SameFor now status keys a _ (add_history-SameFor now k status a b h)

  set_job_status-SameFor :
      (now : ℕ) (k : String) (status : Option String) (db db' : Database)
      → set_job_status now u k status db ≡ ok db'
      → SameFor v db db'
  set_job_status-SameFor now k status db db' h =
      let (mid, changed, added) = set_job_status-eq-ok now u k status db db' h in
      subst (SameFor v db) added (
        add_history-SameFor now k status db mid (update_job-SameFor _ k db mid (λ r. refl) changed))

  put_jobs-SameFor :
      (now run_id : ℕ) (jobs : List Job) (db : Database)
      → SameFor v db (put_jobs now jobs run_id u db)
  unfolding put_jobs
  put_jobs-SameFor now run_id [] db = jobs-SameFor db db.jobs refl
  put_jobs-SameFor now run_id (j ∷ jobs) db = record {
    jobs = filter-insert_jobs now run_id (j ∷ jobs) db.jobs;
    history = refl;
  }

  -- One operation for another user changes nothing of `v`.
  pub JobStep-SameFor : {a b : Database} → JobStep u a b → SameFor v a b
  JobStep-SameFor {a} {b} (saved now run_id jobs h) =
      subst (SameFor v a) (sym (save_jobs-ok-eq now run_id u jobs a b h))
        (put_jobs-SameFor now run_id jobs a)
  JobStep-SameFor {a} (refreshed []) = unfold refresh_job_urls in jobs-SameFor a a.jobs refl
  JobStep-SameFor {a} (refreshed (j ∷ jobs)) =
      unfold refresh_job_urls in jobs-SameFor a _ (filter-refresh_rows (j ∷ jobs) a.jobs)
  JobStep-SameFor {a} cleared =
      unfold clear_jobs in
      record {
        jobs = filter-delete_where (λ (r : JobRow). r.user_id) a.jobs;
        history = filter-delete_where (λ (r : HistoryRow). r.user_id) a.history;
      }
  JobStep-SameFor {a} (emailed now []) = unfold mark_emailed in jobs-SameFor a a.jobs refl
  JobStep-SameFor {a} (emailed now (k ∷ keys)) =
      unfold mark_emailed in
      jobs-SameFor a _
        (filter-update_where _ _ a.jobs (λ r. in_set→user (elem r.key (k ∷ keys)) r) (λ r. refl))
  JobStep-SameFor {a} (reconciled now configured succeeded jobs) =
      unfold reconcile_jobs reactivate_rows mark_removed_rows in
      jobs-SameFor a _ (
        filter-update_where _ _ _ (λ r. in_set→user (elem r.key _) r) (λ r. refl)
        ∙ filter-update_where _ _ a.jobs (λ r. in_set→user (elem r.key _) r) (λ r. refl))
  JobStep-SameFor (removed {db = a} {db' = b} now k h) =
      subst (SameFor v a) (sym (mark_job_removed-eq-ok now u k a b h)) (
        jobs-SameFor a _
          (filter-update_where _ _ a.jobs (λ r e. owned→user k r (ground arith)) (λ r. refl)))
  JobStep-SameFor (status_set {db = a} {db' = b} now k status h) =
      set_job_status-SameFor now k status a b h
  JobStep-SameFor {a} (bulk_status_set now [] status) =
      unfold bulk_set_status in jobs-SameFor a a.jobs refl
  JobStep-SameFor {a} (bulk_status_set now (k ∷ keys) status) =
      unfold bulk_set_status in
      add_histories-SameFor now status _ a _ (
        jobs-SameFor a _
          (filter-update_where _ _ a.jobs (λ r. in_set→user (elem r.key (k ∷ keys)) r) (λ r. refl)))
  JobStep-SameFor (notes_set {db = a} {db' = b} k notes h) =
      update_job-SameFor (λ (r : JobRow). record r { notes = some notes }) k a b (λ r. refl)
        (unfold set_job_notes in h)
  JobStep-SameFor (duplicate_set {db = a} {db' = b} k of h) =
      update_job-SameFor (λ (r : JobRow). record r { is_duplicate = true; duplicate_of = of }) k a b
        (λ r. refl) (unfold set_job_duplicate in h)
  JobStep-SameFor (duplicate_cleared {db = a} {db' = b} k h) =
      update_job-SameFor (λ (r : JobRow). record r { is_duplicate = false; duplicate_of = none }) k
        a b (λ r. refl) (unfold clear_job_duplicate in h)
  JobStep-SameFor
        (override_set {db = a} {db' = b} now k location name city region country lat lng provider
          h) =
      subst (SameFor v a)
        (sym
          (set_location_override-eq-ok now u k location name city region country lat lng provider a
            b h).1)
        (record {
          jobs = filter-update_where (owned u k) _ a.jobs (owned→user k) (λ r. refl);
          history = refl;
        })
  JobStep-SameFor (override_cleared {db = a} {db' = b} k h) =
      update_job-SameFor (λ (r : JobRow). record r { location_override = none }) k a b (λ r. refl)
        (unfold clear_location_override in h)

-- Whatever operations run for other users, a user's own jobs and status history stay as they are.
pub OthersRun-SameFor : (v : String) {a b : Database} → OthersRun v a b → SameFor v a b
OthersRun-SameFor v done = record { jobs = refl; history = refl }
OthersRun-SameFor v (next u ne run step) =
    let before = OthersRun-SameFor v run in
    let here = JobStep-SameFor u v ne step in
    record { jobs = here.jobs ∙ before.jobs; history = here.history ∙ before.history }
