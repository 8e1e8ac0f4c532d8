-- ===== src/Runs/Laws.antt =====
-- The run log: starting, finishing, and listing by pages.
use career_spyder.Prelude.{
  ℕ, suc, ◌-◌, ◌<◌, String, ◌≡◌, refl, ap, ◌∙◌, Option, some, List, [], ◌∷◌, map, length, find, All,
  min, nat_eq, if◌then◌else◌, Bool-cases, Option-cases, arith, inl, inr, find-append,
}
use career_spyder.Models.{FailedSource}
use career_spyder.Database.{Database, RunRow, full}
use career_spyder.Table.Laws.{find-update_where, count_where-eq-length-filter}
use career_spyder.Sort.{page, length-page, length-sort}
use career_spyder.Runs.{start_run, finish_run, deserialize_failed_sources, list_runs, count_runs}

length-map {ℓ κ} :
    {A : Type ℓ} {B : Type κ} (f : A → B) (xs : List A) → length (map f xs) ≡ length xs
length-map f [] = refl
length-map f (x ∷ xs) = ap suc (length-map f xs)

-- A page of runs has as many items as the limit and what `count_runs` counts after the offset
-- allow, for every filter and order.
pub length-list_runs :
    (limit offset : ℕ) (sort_by direction : String) (failures user_id : Option String)
    (db : Database)
    → length (list_runs limit offset sort_by direction failures user_id db)
      ≡ min limit (count_runs failures user_id db - offset)
unfolding list_runs count_runs
length-list_runs limit offset sort_by direction failures user_id db =
    length-map _ (page limit offset _)
    ∙ length-page limit offset _
    ∙ rw (length-sort, count_where-eq-length-filter)

deserialize-full :
    (failed : List FailedSource) → deserialize_failed_sources (map full failed) ≡ failed
unfolding deserialize_failed_sources
deserialize-full [] = refl
deserialize-full (f ∷ failed) = ap (λ t. f ∷ t) (deserialize-full failed)

-- Every id in the log is below the next one.
abbrev pub IsNumbered : Database → Type 0
IsNumbered db = All (λ (r : RunRow). r.id < db.next_run_id) db.runs

known_id :
    (i n : ℕ) (rs : List RunRow) (r : RunRow)
    → All (λ (x : RunRow). x.id < n) rs
    → find (λ (x : RunRow). nat_eq x.id i) rs ≡ some r
    → (r.id ≡ i) × (r.id < n)
known_id i n [] r h e = cc
known_id i n (x ∷ rs) r h e = elim (Bool-cases (nat_eq x.id i)) [
  | inl same ↦ ground (arith, h.0)
  | inr other ↦ known_id i n rs r h.1 (ground arith)
]

-- The row of a run that ended.
abbrev pub ended_row :
    (run_id now later : ℕ) (kind : String) (user_id : Option String)
    (new_job_count source_count : ℕ) (failed : List FailedSource)
    → RunRow
ended_row run_id now later kind user_id new_job_count source_count failed = record {
  id = run_id;
  started_at = now;
  finished_at = some later;
  new_job_count = new_job_count;
  failed_sources = map full failed;
  kind = kind;
  user_id = user_id;
  source_count = source_count;
}

-- In a log whose ids are below the next one, finishing the run that was just started leaves at its
-- id the row with its time and counts, and every other id as it was before the start; reading the
-- stored failures back gives exactly those of the run.
pub finish_run-start_run :
    (now later : ℕ) (kind : String) (user_id : Option String) (new_job_count source_count : ℕ)
    (failed : List FailedSource) (db : Database) (i : ℕ)
    → IsNumbered db
    → (find
          (λ (x : RunRow). nat_eq x.id i)
          (finish_run later
            (start_run now kind user_id db).1
            new_job_count
            failed
            source_count
            (start_run now kind user_id db).0).runs
        ≡ (if nat_eq i (start_run now kind user_id db).1
            then some
                (ended_row db.next_run_id now later kind user_id new_job_count source_count failed)
            else find (λ (x : RunRow). nat_eq x.id i) db.runs))
      × (deserialize_failed_sources
            (ended_row db.next_run_id now later kind user_id new_job_count source_count
              failed).failed_sources
          ≡ failed)
unfolding start_run finish_run
finish_run-start_run now later kind user_id new_job_count source_count failed db i numbered = (
  find-update_where (λ (x : RunRow). nat_eq x.id i) _ _ _ (λ r. refl)
      ∙ rw (find-append (λ (x : RunRow). nat_eq x.id i) db.runs _)
          elim (Option-cases (find (λ (x : RunRow). nat_eq x.id i) db.runs)) [
            | inl e ↦ rw e (ground arith)
            | inr (r, e) ↦
                let known = known_id i db.next_run_id db.runs r numbered e in rw e (ground arith)
          ],
  deserialize-full failed,
)
