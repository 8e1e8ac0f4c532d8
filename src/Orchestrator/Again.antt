-- ===== src/Orchestrator/Again.antt =====
-- A run over the same results finds nothing new.
use career_spyder.Jobs.Save.{
  save_jobs-eq-ok, has_blank, is_new, find-put_jobs, get_new_jobs-eq-filter, get_new_jobs-put_jobs,
  save_jobs-nil, save_jobs-ok-eq,
}
use career_spyder.Prelude.{
  any, false, ◌⊎◌, inl, inr, length, ℕ, ◌≡◌, refl, ap, sym, ◌∙◌, String, Bool, Option, none, some,
  List, [], ◌∷◌, arith, filter, map_option, find, is_none,
}
use career_spyder.Orchestrator.{
  nothing, collect_all, World, Times, Collected, dedupe, store, settle, conclude, concluded,
  RunSummary, active, run_once,
}
use career_spyder.Models.{Job}
use career_spyder.Config.{Source}
use career_spyder.Database.{Database, JobRow, owned}
use career_spyder.Table.{update_where}
use career_spyder.Table.Laws.{find-update_where}
use career_spyder.Jobs.{
  get_new_jobs, save_jobs, put_jobs, is_blank, stale, refresh_rows, refresh_job_urls,
  mark_removed_rows, reactivate_rows, reconcile_jobs,
}
use career_spyder.Result.{Result, ok, err, ◌>>=◌}
use career_spyder.Runs.{start_run, finish_run}
use career_spyder.RunProgress
use career_spyder.RunProgress.{Progress}
use career_spyder.Geocoding.{geocode_pending}
use career_spyder.Orchestrator.Laws.{is_none-check_step}
use career_spyder.Orchestrator.Collect.{gathered, collect_all_lem}

is_none-map_option {ℓ} :
    {A : Type ℓ} (f : A → A) (o : Option A) → is_none (map_option f o) ≡ is_none o
is_none-map_option f none = refl
is_none-map_option f (some a) = refl

is_none-update_where :
    (u k : String) (p : JobRow → Bool) (f : JobRow → JobRow) (rows : List JobRow)
    → ((r : JobRow) → owned u k (f r) ≡ owned u k r)
    → is_none (find (owned u k) (update_where p f rows)) ≡ is_none (find (owned u k) rows)
is_none-update_where u k p f rows h =
    ap is_none (find-update_where (owned u k) p f rows h)
    ∙ is_none-map_option _ (find (owned u k) rows)

is_none-refresh_rows :
    (u k : String) (jobs : List Job) (rows : List JobRow)
    → is_none (find (owned u k) (refresh_rows u jobs rows).0) ≡ is_none (find (owned u k) rows)
unfolding refresh_rows
is_none-refresh_rows u k [] rows = refl
is_none-refresh_rows u k (j ∷ jobs) rows =
    is_none-refresh_rows u k jobs _ ∙ is_none-update_where u k (stale u j) _ rows (λ r. refl)

is_none-refresh_job_urls :
    (u k : String) (jobs : List Job) (db : Database)
    → is_none (find (owned u k) (refresh_job_urls u jobs db).0.jobs)
      ≡ is_none (find (owned u k) db.jobs)
unfolding refresh_job_urls
is_none-refresh_job_urls u k [] db = refl
is_none-refresh_job_urls u k (j ∷ jobs) db = is_none-refresh_rows u k (j ∷ jobs) db.jobs

is_none-reconcile_jobs :
    (now : ℕ) (u k : String) (configured succeeded : List String) (jobs : List Job) (db : Database)
    → is_none (find (owned u k) (reconcile_jobs now u configured succeeded jobs db).jobs)
      ≡ is_none (find (owned u k) db.jobs)
unfolding reconcile_jobs reactivate_rows mark_removed_rows
is_none-reconcile_jobs now u k configured succeeded jobs db =
    is_none-update_where u k _ _ _ (λ r. refl) ∙ is_none-update_where u k _ _ db.jobs (λ r. refl)

filter_congr {ℓ} :
    {A : Type ℓ} (p q : A → Bool) (xs : List A) → ((x : A) → p x ≡ q x) → filter p xs ≡ filter q xs
filter_congr p q [] h = refl
filter_congr p q (x ∷ xs) h = ground (arith, h x, filter_congr p q xs h)

-- A database in which the user has the same keys has the same new jobs.
get_new_jobs_congr :
    (u : String) (jobs : List Job) (a b : Database)
    → ((k : String) → is_none (find (owned u k) a.jobs) ≡ is_none (find (owned u k) b.jobs))
    → get_new_jobs u jobs a ≡ get_new_jobs u jobs b
get_new_jobs_congr u jobs a b h =
    get_new_jobs-eq-filter u jobs a
    ∙ filter_congr (is_new u a) (is_new u b) jobs (λ j. h j.key)
    ∙ sym (get_new_jobs-eq-filter u jobs b)

saved_known :
    (now run_id : ℕ) (u k : String) (jobs : List Job) (a b : Database)
    → a.jobs ≡ b.jobs
    → is_none (find (owned u k) (put_jobs now (get_new_jobs u jobs a) run_id u a).jobs)
      ≡ is_none (find (owned u k) (put_jobs now (get_new_jobs u jobs b) run_id u b).jobs)
saved_known now run_id u k jobs a b h =
    ap is_none (find-put_jobs now run_id u u k (get_new_jobs u jobs a) a)
    ∙ rw (get_new_jobs_congr u jobs a b (λ i. ap (λ rows. is_none (find (owned u i) rows)) h), h)
        (ap is_none (sym (find-put_jobs now run_id u u k (get_new_jobs u jobs b) b)))

settle_known :
    (times : Times) (u k : String) (sources : List Source) (c : Collected) (db : Database)
    → is_none (find (owned u k) (settle times u sources c db).jobs)
      ≡ is_none (find (owned u k) db.jobs)
unfolding settle
settle_known times u k sources c db =
    is_none-reconcile_jobs times.reconciled u k _ c.succeeded_source_ids _ _
    ∙ is_none-refresh_job_urls u k (dedupe c.all_raw_jobs) db

-- A run that returns knows the jobs that it saved.
concluded_known :
    (world : World) (times : Times) (u k : String) (sources : List Source) (run_id n : ℕ)
    (c : Collected) (fresh : List Job) (begun put : Database) (saved : Result Database)
    (s : RunSummary)
    → ((d : Database) → saved ≡ ok d → d ≡ put)
    → (concluded world times u run_id n c fresh begun
        (saved >>= (λ d. ok (settle times u sources c d)))).1
      ≡ ok s
    → is_none (
        find
          (owned u k)
          (concluded world times u run_id n c fresh begun
            (saved >>= (λ d. ok (settle times u sources c d)))).0.jobs)
      ≡ is_none (find (owned u k) put.jobs)
unfolding concluded conclude finish_run geocode_pending
concluded_known world times u k sources run_id n c fresh begun put (err e) s same h = cc
concluded_known world times u k sources run_id n c fresh begun put (ok d) s same h =
    is_none-check_step times.checked world.answer u u k (
      geocode_pending times.geocoded world.geocoder_name world.geocode (settle times u sources c d))
    ∙ settle_known times u k sources c d
    ∙ ap (λ (x : Database). is_none (find (owned u k) x.jobs)) (same d refl)

-- The new jobs that a run reports, if it returns.
abbrev pub reported : Result RunSummary → Result (List Job)
reported (err e) = err e
reported (ok s) = ok s.new_jobs

-- A run that finds no new job has nothing to save, and returns.
concluded_empty :
    (world : World) (times : Times) (u : String) (sources : List Source) (run_id n : ℕ)
    (c : Collected) (fresh : List Job) (begun : Database)
    → fresh ≡ []
    → reported
        (concluded world times u run_id n c fresh begun
          (save_jobs times.saved fresh run_id u begun >>= (λ d. ok (settle times u sources c d)))).1
      ≡ ok []
unfolding concluded
concluded_empty world times u sources run_id n c fresh begun h =
    rw h (rw (save_jobs-nil times.saved run_id u begun) refl)

-- What the sources of a run give, as the loop collects it.
abbrev collected : World → String → List Source → Progress → Collected
collected world u sources p =
    (collect_all world u 0 (active sources)
      (nothing, RunProgress.start u (length (active sources)) p)).0

abbrev pub found : World → List Source → List Job
found world sources = dedupe (gathered world (active sources)).all_jobs

found_jobs :
    (world : World) (u : String) (sources : List Source) (p : Progress)
    → dedupe (collected world u sources p).all_jobs ≡ found world sources
found_jobs world u sources p =
    ap (λ (c : Collected). dedupe c.all_jobs) (collect_all_lem world u 0 (active sources) _)

known-run_once :
    (world : World) (times : Times) (sources : List Source) (u k : String) (db : Database)
    (p : Progress) (s : RunSummary)
    → (run_once world times sources u (db, p)).1 ≡ ok s
    → is_none (find (owned u k) (run_once world times sources u (db, p)).0.0.jobs)
      ≡ is_none (
          find
            (owned u k)
            (put_jobs times.saved
              (get_new_jobs u (found world sources) db)
              (start_run times.started "scrape" (some u) db).1
              u
              db).jobs)
unfolding run_once store
known-run_once world times sources u k db p s h =
    let begun = (start_run times.started "scrape" (some u) db).0 in
    let run_id = (start_run times.started "scrape" (some u) db).1 in
    let c = collected world u sources p in
    let fresh = get_new_jobs u (dedupe c.all_jobs) begun in
    concluded_known world times u k sources run_id (length (active sources)) c fresh begun
      (put_jobs times.saved fresh run_id u begun) (save_jobs times.saved fresh run_id u begun) s
      (λ d e. save_jobs-ok-eq times.saved run_id u fresh begun d e) h
    ∙ ap
        (λ (jobs : List Job).
          is_none (
            find (owned u k)
              (put_jobs times.saved (get_new_jobs u jobs begun) run_id u begun).jobs))
        (found_jobs world u sources p)
    ∙ saved_known times.saved run_id u k (found world sources) begun db (unfold start_run in refl)

empty-run_once :
    (world : World) (times : Times) (sources : List Source) (u : String) (db : Database)
    (p : Progress)
    → get_new_jobs u (found world sources) db ≡ []
    → reported (run_once world times sources u (db, p)).1 ≡ ok []
unfolding run_once store
empty-run_once world times sources u db p h =
    let begun = (start_run times.started "scrape" (some u) db).0 in
    let c = collected world u sources p in
    concluded_empty world times u sources (start_run times.started "scrape" (some u) db).1
      (length (active sources)) c (get_new_jobs u (dedupe c.all_jobs) begun) begun
      (ap (λ (jobs : List Job). get_new_jobs u jobs begun) (found_jobs world u sources p)
        ∙ get_new_jobs_congr u (found world sources) begun db (λ k. unfold start_run in refl)
        ∙ h)

any-filter :
    (p q : Job → Bool) (jobs : List Job) → any p jobs ≡ false → any p (filter q jobs) ≡ false
any-filter p q [] h = refl
any-filter p q (j ∷ jobs) h = ground (arith, h, any-filter p q jobs)

concluded_ok :
    (world : World) (times : Times) (u : String) (sources : List Source) (run_id n : ℕ)
    (c : Collected) (fresh : List Job) (begun put : Database) (saved : Result Database)
    → saved ≡ ok put
    → (s : RunSummary) × ((concluded world times u run_id n c fresh begun
          (saved >>= (λ d. ok (settle times u sources c d)))).1
        ≡ ok s)
unfolding concluded
concluded_ok world times u sources run_id n c fresh begun put (err e) h = cc
concluded_ok world times u sources run_id n c fresh begun put (ok d) h = (_, refl)

-- A run returns where no row and no job that its sources give has the empty text for its location.
run_once-ok :
    (world : World) (times : Times) (sources : List Source) (u : String) (db : Database)
    (p : Progress)
    → any is_blank db.jobs ≡ false
    → has_blank (found world sources) ≡ false
    → (s : RunSummary) × ((run_once world times sources u (db, p)).1 ≡ ok s)
unfolding run_once store
run_once-ok world times sources u db p h b =
    let begun = (start_run times.started "scrape" (some u) db).0 in
    let run_id = (start_run times.started "scrape" (some u) db).1 in
    let c = collected world u sources p in
    let fresh = get_new_jobs u (dedupe c.all_jobs) begun in
    let plain : has_blank fresh ≡ false =
      ap has_blank (get_new_jobs-eq-filter u (dedupe c.all_jobs) begun)
      ∙ any-filter _ (is_new u begun) (dedupe c.all_jobs)
          (ap has_blank (found_jobs world u sources p) ∙ b) in
    concluded_ok world times u sources run_id (length (active sources)) c fresh begun _
      (save_jobs times.saved fresh run_id u begun)
      (save_jobs-eq-ok times.saved run_id u fresh begun (unfold start_run in h) plain)

known_again :
    (world : World) (first second : Times) (sources : List Source) (u : String) (db : Database)
    (p : Progress) (s : RunSummary)
    → (run_once world first sources u (db, p)).1 ≡ ok s
    → reported (run_once world second sources u (run_once world first sources u (db, p)).0).1
      ≡ ok []
known_again world first second sources u db p s h =
    let once = (run_once world first sources u (db, p)).0 in
    empty-run_once world second sources u once.0 once.1 (
      get_new_jobs_congr u (found world sources) _ _
        (λ k. known-run_once world first sources u k db p s h)
      ∙ get_new_jobs-put_jobs _ _ u (found world sources) db)

-- Two runs in a row over the same results of the same sources: both return, and the second one reports no
-- new job, whatever the geocoder and the checked addresses answer and whenever it runs, if no row of the jobs
-- and no job that the sources give has the empty text for its location, or else if the first one returns.
pub new_jobs-run_once_twice :
    (world : World) (first second : Times) (sources : List Source) (u : String) (db : Database)
    (p : Progress)
    → ((any is_blank db.jobs ≡ false) × (has_blank (found world sources) ≡ false)
        ⊎ ((s : RunSummary) × ((run_once world first sources u (db, p)).1 ≡ ok s)))
    → ((s : RunSummary) × ((run_once world first sources u (db, p)).1 ≡ ok s))
      × (reported (run_once world second sources u (run_once world first sources u (db, p)).0).1
          ≡ ok [])
new_jobs-run_once_twice world first second sources u db p (inl (h, b)) =
    let (s, e) = run_once-ok world first sources u db p h b in
    ((s, e), known_again world first second sources u db p s e)
new_jobs-run_once_twice world first second sources u db p (inr (s, e)) =
    ((s, e), known_again world first second sources u db p s e)
