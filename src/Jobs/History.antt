-- ===== src/Jobs/History.antt =====
-- Status changes and their history, and what a sent digest leaves to send.
use career_spyder.Prelude.{
  ℕ, suc, ℤ, String, ◌==◌, ◌≡◌, refl, sym, ap, ◌∙◌, Bool, true, false, not, ◌&&◌, Option, none,
  some, List, [], ◌∷◌, ◌++◌, map, filter, find, elem, is_none, if◌then◌else◌, length, map_option,
  arith, nat_eq,
}
use career_spyder.Models.{Job}
use career_spyder.Database.{Database, JobRow, HistoryRow, owned}
use career_spyder.Table.{update_where, count_where}
use career_spyder.Table.Laws.{
  any-eq-is_some-find, find-update_where, count_where-eq-zero, count_where-eq-length-filter,
}
use career_spyder.Jobs.{mark_emailed, row_to_job, get_unemailed_jobs}
use mathlib.Core.List.{append-nil, append_assoc}
use career_spyder.Result.{ok, err, key_error}
use career_spyder.Jobs.Edits.{
  add_history, set_job_status, add_histories, bulk_set_status, update_job, mark_job_removed,
  set_job_notes, clear_job_duplicate, set_job_duplicate, set_location_override,
  clear_location_override,
}

pub count_where-pos {ℓ} :
    {R : Type ℓ} (p : R → Bool) (rs : List R) (r : R)
    → find p rs ≡ some r
    → nat_eq (count_where p rs) 0 ≡ false
unfolding count_where
count_where-pos p [] r h = cc
count_where-pos p (x ∷ rs) r h = ground (arith, count_where-pos p rs r)

-- The entry that a status change writes.
abbrev pub entry : ℕ → ℕ → String → String → Option String → HistoryRow
entry n now u k status = record {
  id = n;
  user_id = u;
  job_key = k;
  status = status;
  changed_at = now;
}

-- Setting the status of a job the user has succeeds: that row alone changes, and only in its
-- status, and one entry is added to the history.
pub set_job_status_lem :
    (now : ℕ) (u k : String) (status : Option String) (db : Database) (r : JobRow)
    → find (owned u k) db.jobs ≡ some r
    → (db' : Database) × (set_job_status now u k status db ≡ ok db')
      × ((v j : String)
          → find (owned v j) db'.jobs
            ≡ map_option
                (λ (s : JobRow). if owned u k s then record s { status = status } else s)
                (find (owned v j) db.jobs))
      × (db'.history ≡ db.history ++ entry db.next_history_id now u k status ∷ [])
unfolding set_job_status add_history
set_job_status_lem now u k status db r h = (
  add_history now u k status (record db {
    jobs = update_where (owned u k) (λ (s : JobRow). record s { status = status }) db.jobs;
  }),
  rw (count_where-pos (owned u k) db.jobs r h) refl,
  λ v j. find-update_where (owned v j) (owned u k) _ db.jobs (λ s. refl),
  refl,
)

-- Where the user has no job of the key, each of the seven edits of a single job fails with `KeyError` on it.
pub edits-key_error :
    (now : ℕ) (u k text : String) (status of : Option String)
    (name city region country : Option String) (lat lng : Option ℤ) (provider : Option String)
    (db : Database)
    → find (owned u k) db.jobs ≡ none
    → (mark_job_removed now u k db ≡ err (key_error k))
      × (set_job_status now u k status db ≡ err (key_error k))
      × (set_job_notes u k text db ≡ err (key_error k))
      × (set_job_duplicate u k of db ≡ err (key_error k))
      × (clear_job_duplicate u k db ≡ err (key_error k))
      × (set_location_override now u k text name city region country lat lng provider db
          ≡ err (key_error k))
      × (clear_location_override u k db ≡ err (key_error k))
unfolding mark_job_removed set_job_status set_job_notes set_job_duplicate clear_job_duplicate
    set_location_override clear_location_override update_job
edits-key_error now u k text status of name city region country lat lng provider db h =
    let zero_rows = count_where-eq-zero (owned u k) db.jobs h in
    (
      rw (any-eq-is_some-find (owned u k) db.jobs, h) refl,
      rw zero_rows refl,
      rw zero_rows refl,
      rw zero_rows refl,
      rw zero_rows refl,
      rw (any-eq-is_some-find (owned u k) db.jobs, h) refl,
      rw zero_rows refl,
    )

-- The entries that a change of several jobs writes, with the next ids in turn.
abbrev pub entries : ℕ → ℕ → String → Option String → List String → List HistoryRow
entries n now u status [] = []
entries n now u status (k ∷ keys) = entry n now u k status ∷ entries (suc n) now u status keys

history-add_histories :
    (now : ℕ) (u : String) (status : Option String) (keys : List String) (db : Database)
    → (add_histories now u status keys db).history
      ≡ db.history ++ entries db.next_history_id now u status keys
unfolding add_histories add_history
history-add_histories now u status [] db = sym (append-nil _)
history-add_histories now u status (k ∷ keys) db =
    history-add_histories now u status keys _
    ∙ append_assoc db.history (entry db.next_history_id now u k status ∷ []) _

jobs-add_histories :
    (now : ℕ) (u : String) (status : Option String) (keys : List String) (db : Database)
    → (add_histories now u status keys db).jobs ≡ db.jobs
unfolding add_histories add_history
jobs-add_histories now u status [] db = refl
jobs-add_histories now u status (k ∷ keys) db = jobs-add_histories now u status keys _

length-map-filter :
    (p : JobRow → Bool) (rs : List JobRow)
    → length (map (λ (r : JobRow). r.key) (filter p rs)) ≡ count_where p rs
unfolding count_where
length-map-filter p [] = refl
length-map-filter p (r ∷ rs) = ground (arith, length-map-filter p rs)

no_keys-filter :
    (u : String) (rs : List JobRow) → filter (λ (r : JobRow). r.user_id == u && false) rs ≡ []
no_keys-filter u [] = refl
no_keys-filter u (r ∷ rs) = ground (arith, no_keys-filter u rs)

no_keys-map :
    (u : String) (status : Option String) (o : Option JobRow)
    → o
      ≡ map_option
          (λ (s : JobRow). if s.user_id == u && false then record s { status = status } else s)
          o
no_keys-map u status o = ground arith

-- A bulk change sets the status of exactly the user's rows among the chosen keys, returns their
-- number, and appends one history entry for each of them, in the order of the rows: with the next ids,
-- the user, the key, the new status and the time.
pub bulk_set_status_lem :
    (now : ℕ) (u : String) (keys : List String) (status : Option String) (db : Database)
    → ((v j : String)
        → find (owned v j) (bulk_set_status now u keys status db).0.jobs
          ≡ map_option
              (λ (s : JobRow).
                if s.user_id == u && elem s.key keys then record s { status = status } else s)
              (find (owned v j) db.jobs))
      × ((bulk_set_status now u keys status db).1
          ≡ count_where (λ (r : JobRow). r.user_id == u && elem r.key keys) db.jobs)
      × ((bulk_set_status now u keys status db).0.history
          ≡ db.history
            ++ entries db.next_history_id now u status (
                map
                  (λ (r : JobRow). r.key)
                  (filter (λ (r : JobRow). r.user_id == u && elem r.key keys) db.jobs)))
unfolding bulk_set_status
bulk_set_status_lem now u [] status db = (
  λ v j. no_keys-map u status (find (owned v j) db.jobs),
  sym (count_where-eq-length-filter _ db.jobs ∙ rw (no_keys-filter u db.jobs)),
  rw (no_keys-filter u db.jobs) (sym (append-nil _)),
)
bulk_set_status_lem now u (k ∷ keys) status db = (
  λ v j.
      rw (jobs-add_histories now u status _ _)
        (find-update_where (owned v j) _ _ db.jobs (λ s. refl)),
  length-map-filter _ db.jobs,
  history-add_histories now u status _ _,
)

filter_unemailed :
    (now : ℕ) (u : String) (keys : List String) (rs : List JobRow)
    → map row_to_job (
        filter
          (λ (r : JobRow). is_none r.emailed_at && is_none r.removed_at && r.user_id == u)
          (update_where
            (λ (r : JobRow). r.user_id == u && elem r.key keys)
            (λ (r : JobRow). record r { emailed_at = some now })
            rs))
      ≡ filter
          (λ (j : Job). not (elem j.key keys))
          (map row_to_job (
            filter
              (λ (r : JobRow). is_none r.emailed_at && is_none r.removed_at && r.user_id == u)
              rs))
unfolding update_where row_to_job
filter_unemailed now u keys [] = refl
filter_unemailed now u keys (r ∷ rs) = ground (arith, filter_unemailed now u keys rs)

filter_all {ℓ} : {A : Type ℓ} (xs : List A) → filter (λ x. true) xs ≡ xs
filter_all [] = refl
filter_all (x ∷ xs) = ap (λ t. x ∷ t) (filter_all xs)

-- Once a digest with `keys` is sent, the jobs still waiting to be mailed are those that waited
-- before and are not among the keys: none is mailed twice as a rescue, and none is lost.
pub get_unemailed_jobs-mark_emailed :
    (now : ℕ) (u : String) (keys : List String) (db : Database)
    → get_unemailed_jobs (some u) (mark_emailed now u keys db)
      ≡ filter (λ (j : Job). not (elem j.key keys)) (get_unemailed_jobs (some u) db)
unfolding get_unemailed_jobs mark_emailed
get_unemailed_jobs-mark_emailed now u [] db = sym (filter_all _)
get_unemailed_jobs-mark_emailed now u (k ∷ keys) db = filter_unemailed now u (k ∷ keys) db.jobs
