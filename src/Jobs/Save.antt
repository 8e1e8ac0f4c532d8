-- ===== src/Jobs/Save.antt =====
-- `get_new_jobs` and `save_jobs`: which jobs are new, and which rows saving adds.
use career_spyder.Result.{ok}
use career_spyder.Prelude.{
  zero, suc, length, drop, drop-all, opt_eq, some, any-append, ℕ, String, ◌==◌, ◌≡◌, refl, ◌∙◌,
  Bool, true, false, not, ◌&&◌, Option, none, List, [], ◌∷◌, map, any, filter, find, elem, is_none,
  is_some, if◌then◌else◌, map_option, arith, eq_iff, eq_refl, All,
}
use career_spyder.Models.{Job}
use career_spyder.Database.{Database, JobRow, owned}
use career_spyder.Table.{insert_unless}
use career_spyder.Table.Laws.{find-insert_unless, any-eq-is_some-find}
use career_spyder.Jobs.{get_new_jobs, new_row, insert_jobs, put_jobs, save_jobs, is_blank}
use career_spyder.Jobs.Rows.{IsKeyed, insert_unless-IsKeyed, elem-map-filter}

-- The row that saving `jobs` for `user_id` puts at a free key: that of the first job with it.
abbrev pub saved_row : ℕ → ℕ → String → List Job → String → String → Option JobRow
saved_row now run_id user_id jobs v k =
    if user_id == v
    then map_option (new_row now run_id user_id) (find (λ (j : Job). j.key == k) jobs)
    else none

find-insert_jobs :
    (now run_id : ℕ) (u v k : String) (jobs : List Job) (rows : List JobRow)
    → find (owned v k) (insert_jobs now run_id u jobs rows) ≡ (
        if is_none (find (owned v k) rows)
        then saved_row now run_id u jobs v k
        else find (owned v k) rows)
unfolding insert_jobs new_row
find-insert_jobs now run_id u v k [] rows = ground arith
find-insert_jobs now run_id u v k (j ∷ jobs) rows =
    let s = new_row now run_id u j in
    let rows' = insert_unless (owned u j.key) s rows in
    ground (
      arith,
      find-insert_jobs now run_id u v k jobs rows',
      find-insert_unless (owned v k) (owned u j.key) s rows,
      any-eq-is_some-find (owned u j.key) rows,
      eq_iff u v,
      eq_iff j.key k,
    )

-- The rows after the two statements.
pub find-put_jobs :
    (now run_id : ℕ) (u v k : String) (jobs : List Job) (db : Database)
    → find (owned v k) (put_jobs now jobs run_id u db).jobs ≡ (
        if is_none (find (owned v k) db.jobs)
        then saved_row now run_id u jobs v k
        else find (owned v k) db.jobs)
unfolding put_jobs
find-put_jobs now run_id u v k [] db = ground arith
find-put_jobs now run_id u v k (j ∷ jobs) db = find-insert_jobs now run_id u v k (j ∷ jobs) db.jobs

insert_jobs-IsKeyed :
    (now run_id : ℕ) (u : String) (jobs : List Job) (rows : List JobRow)
    → IsKeyed rows
    → IsKeyed (insert_jobs now run_id u jobs rows)
unfolding insert_jobs new_row
insert_jobs-IsKeyed now run_id u [] rows h = h
insert_jobs-IsKeyed now run_id u (j ∷ jobs) rows h =
    insert_jobs-IsKeyed now run_id u jobs _ (insert_unless-IsKeyed (new_row now run_id u j) rows h)

-- The statements keep the primary key.
pub put_jobs-IsKeyed :
    (now run_id : ℕ) (u : String) (jobs : List Job) (db : Database)
    → IsKeyed db.jobs
    → IsKeyed (put_jobs now jobs run_id u db).jobs
unfolding put_jobs
put_jobs-IsKeyed now run_id u [] db h = h
put_jobs-IsKeyed now run_id u (j ∷ jobs) db h =
    insert_jobs-IsKeyed now run_id u (j ∷ jobs) db.jobs h

-- Whether the user has no row for the job.
abbrev pub is_new : String → Database → Job → Bool
is_new u db j = is_none (find (owned u j.key) db.jobs)

any-owned_and :
    (u k : String) (keys : List String) (rs : List JobRow)
    → elem k keys ≡ true
    → any (λ r. owned u k r && elem r.key keys) rs ≡ is_some (find (owned u k) rs)
any-owned_and u k keys [] h = refl
any-owned_and u k keys (r ∷ rs) h =
    let same : (r.key == k) ≡ true → elem r.key keys ≡ true = λ e. rw ((eq_iff r.key k).0 e) h in
    ground (arith, same, any-owned_and u k keys rs h)

filter_known :
    (u : String) (db : Database) (keys : List String) (jobs : List Job)
    → All (λ (j : Job). elem j.key keys ≡ true) jobs
    → filter
        (λ (j : Job). not (
          elem j.key (
            map
              (λ (r : JobRow). r.key)
              (filter (λ (r : JobRow). r.user_id == u && elem r.key keys) db.jobs))))
        jobs
      ≡ filter (is_new u db) jobs
filter_known u db keys [] h = refl
filter_known u db keys (j ∷ jobs) h =
    rw (elem-map-filter u j.key (λ r. elem r.key keys) db.jobs) (
      rw (any-owned_and u j.key keys db.jobs h.0) (ground (arith, filter_known u db keys jobs h.1)))

All-elem_cons :
    (x : String) (keys : List String) (jobs : List Job)
    → All (λ (j : Job). elem j.key keys ≡ true) jobs
    → All (λ (j : Job). elem j.key (x ∷ keys) ≡ true) jobs
All-elem_cons x keys [] h = tt
All-elem_cons x keys (j ∷ jobs) h = (ground (arith, h.0), All-elem_cons x keys jobs h.1)

All-elem_keys :
    (jobs : List Job) → All (λ (j : Job). elem j.key (map (λ (i : Job). i.key) jobs) ≡ true) jobs
All-elem_keys [] = tt
All-elem_keys (j ∷ jobs) = (
  rw (eq_refl j.key),
  All-elem_cons j.key (map (λ (i : Job). i.key) jobs) jobs (All-elem_keys jobs),
)

-- The new jobs are those that the user has no row for, in the order found.
pub get_new_jobs-eq-filter :
    (u : String) (jobs : List Job) (db : Database)
    → get_new_jobs u jobs db ≡ filter (is_new u db) jobs
unfolding get_new_jobs
get_new_jobs-eq-filter u [] db = refl
get_new_jobs-eq-filter u (j ∷ jobs) db =
    filter_known u db (map (λ (i : Job). i.key) (j ∷ jobs)) (j ∷ jobs) (All-elem_keys (j ∷ jobs))

find_new :
    (u k : String) (db : Database) (jobs : List Job)
    → is_none (find (owned u k) db.jobs) ≡ true
    → find (λ (j : Job). j.key == k) (filter (is_new u db) jobs)
      ≡ find (λ (j : Job). j.key == k) jobs
find_new u k db [] h = refl
find_new u k db (j ∷ jobs) h =
    let same : (j.key == k) ≡ true → is_new u db j ≡ true = λ e. rw ((eq_iff j.key k).0 e) h in
    ground (arith, same, find_new u k db jobs h)

filter_none {ℓ} :
    {A : Type ℓ} (p : A → Bool) (xs : List A) → All (λ x. p x ≡ false) xs → filter p xs ≡ []
filter_none p [] h = refl
filter_none p (x ∷ xs) h = rw h.0 (filter_none p xs h.1)

-- The run's jobs, a list that the tail of `jobs` is searched in.
find_of_elem :
    (k : String) (jobs : List Job)
    → elem k (map (λ (j : Job). j.key) jobs) ≡ true
    → is_some (find (λ (j : Job). j.key == k) jobs) ≡ true
find_of_elem k [] h = cc
find_of_elem k (j ∷ jobs) h = ground (arith, find_of_elem k jobs)

none_new :
    (now run_id : ℕ) (u : String) (db : Database) (found jobs : List Job)
    → All (λ (j : Job). elem j.key (map (λ (i : Job). i.key) found) ≡ true) jobs
    → All
        (λ (j : Job). is_new u (put_jobs now (filter (is_new u db) found) run_id u db) j ≡ false)
        jobs
none_new now run_id u db found [] h = tt
none_new now run_id u db found (j ∷ jobs) h = (
  rw (find-put_jobs now run_id u u j.key (filter (is_new u db) found) db)
      (ground (arith, find_new u j.key db found, find_of_elem j.key found h.0, eq_refl u)),
  none_new now run_id u db found jobs h.1,
)

-- Once the new jobs of a list are stored, none of the list is new.
pub get_new_jobs-put_jobs :
    (now run_id : ℕ) (u : String) (jobs : List Job) (db : Database)
    → get_new_jobs u jobs (put_jobs now (get_new_jobs u jobs db) run_id u db) ≡ []
get_new_jobs-put_jobs now run_id u jobs db = rw (get_new_jobs-eq-filter u jobs db) (
    get_new_jobs-eq-filter u jobs _
    ∙ filter_none _ jobs (none_new now run_id u db jobs jobs (All-elem_keys jobs)))

-- No job of a list has the empty text for its location.
abbrev pub has_blank : List Job → Bool
has_blank jobs = any (λ (j : Job). opt_eq j.location (some "")) jobs

any-insert_unless :
    (p q : JobRow → Bool) (s : JobRow) (rows : List JobRow)
    → any p rows ≡ false
    → p s ≡ false
    → any p (insert_unless q s rows) ≡ false
unfolding insert_unless
any-insert_unless p q s rows h k = ground (arith, any-append p rows (s ∷ []))

any-insert_jobs :
    (now run_id : ℕ) (u : String) (jobs : List Job) (rows : List JobRow)
    → any is_blank rows ≡ false
    → has_blank jobs ≡ false
    → any is_blank (insert_jobs now run_id u jobs rows) ≡ false
unfolding insert_jobs new_row
any-insert_jobs now run_id u [] rows h k = h
any-insert_jobs now run_id u (j ∷ jobs) rows h k =
    any-insert_jobs now run_id u jobs _
      (any-insert_unless is_blank (owned u j.key) (new_row now run_id u j) rows h
        (ground (arith, k)))
      (ground (arith, k))

any-drop :
    (p : JobRow → Bool) (n : ℕ) (rows : List JobRow)
    → any p rows ≡ false
    → any p (drop n rows) ≡ false
any-drop p zero rows h = h
any-drop p (suc n) [] h = refl
any-drop p (suc n) (r ∷ rows) h = any-drop p n rows (ground (arith, h))

-- Jobs none of which has the empty location are saved.
pub save_jobs-eq-ok :
    (now run_id : ℕ) (u : String) (jobs : List Job) (db : Database)
    → any is_blank db.jobs ≡ false
    → has_blank jobs ≡ false
    → save_jobs now jobs run_id u db ≡ ok (put_jobs now jobs run_id u db)
unfolding save_jobs put_jobs
save_jobs-eq-ok now run_id u [] db h k = rw (any-drop is_blank (length db.jobs) db.jobs h) refl
save_jobs-eq-ok now run_id u (j ∷ jobs) db h k =
    rw (any-drop is_blank (length db.jobs) _ (any-insert_jobs now run_id u (j ∷ jobs) db.jobs h k))
      refl

-- Where saving returns, it has made its two statements.
pub save_jobs-ok-eq :
    (now run_id : ℕ) (u : String) (jobs : List Job) (db db' : Database)
    → save_jobs now jobs run_id u db ≡ ok db'
    → db' ≡ put_jobs now jobs run_id u db
unfolding save_jobs
save_jobs-ok-eq now run_id u jobs db db' h = ground (arith, h)

-- Saving no jobs returns.
pub save_jobs-nil :
    (now run_id : ℕ) (u : String) (db : Database) → save_jobs now [] run_id u db ≡ ok db
unfolding save_jobs put_jobs
save_jobs-nil now run_id u db = rw (drop-all (length db.jobs) db.jobs (omega arith)) refl

-- Where no row and no job has the empty text for its location, saving returns a database that keeps every
-- row that is there, and has at each free key of the user the row of the first job with that key; no other
-- row appears.
pub find-save_jobs :
    (now run_id : ℕ) (u v k : String) (jobs : List Job) (db : Database)
    → any is_blank db.jobs ≡ false
    → has_blank jobs ≡ false
    → (db' : Database) × (save_jobs now jobs run_id u db ≡ ok db')
      × (find (owned v k) db'.jobs ≡ (
          if is_none (find (owned v k) db.jobs)
          then saved_row now run_id u jobs v k
          else find (owned v k) db.jobs))
find-save_jobs now run_id u v k jobs db h b =
    (_, save_jobs-eq-ok now run_id u jobs db h b, find-put_jobs now run_id u v k jobs db)

-- Saving the new jobs of a list, none of which has the empty text for its location, returns and leaves none
-- of the list new, so a second run over the same jobs reports nothing. No row is assumed to have that
-- location.
pub get_new_jobs-save_jobs :
    (now run_id : ℕ) (u : String) (jobs : List Job) (db : Database)
    → any is_blank db.jobs ≡ false
    → has_blank (get_new_jobs u jobs db) ≡ false
    → (db' : Database) × (save_jobs now (get_new_jobs u jobs db) run_id u db ≡ ok db')
      × (get_new_jobs u jobs db' ≡ [])
get_new_jobs-save_jobs now run_id u jobs db h b = (
  _,
  save_jobs-eq-ok now run_id u (get_new_jobs u jobs db) db h b,
  get_new_jobs-put_jobs now run_id u jobs db,
)
