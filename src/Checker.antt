-- ===== src/Checker.antt =====
-- app/checker.py. `answer` stands for the HEAD requests of one pass: what each address answered by
-- the deadline, or `none`. The thread pool's order does not show, since the updates commute.
pub mod Laws
use career_spyder.Prelude.{
  any, ℕ, String, ◌==◌, Bool, true, false, not, ◌&&◌, ◌||◌, Option, none, some, List, [], ◌∷◌, map,
  filter, is_none, nat_eq, length, if◌then◌else◌,
}
use career_spyder.Result.{Result, ok, err, other_error}
use career_spyder.Database.{Database, JobRow, owned}
use career_spyder.Table.{update_where}

-- The outcome of `http_head`.
pub data Answer : Type 0 where
  response : (status_code : ℕ) → Answer
  unsafe_url : Answer
  request_exception : Answer
  other_exception : Answer

unfoldable pub is_removed : Option Answer → Bool
is_removed none = false
is_removed (some (response status_code)) = nat_eq status_code 404 || nat_eq status_code 410
is_removed (some unsafe_url) = false
is_removed (some request_exception) = false
is_removed (some other_exception) = false

-- `f.result()` raises.
unfoldable pub raises : Option Answer → Bool
raises (some other_exception) = true
raises (some (response status_code)) = false
raises (some unsafe_url) = false
raises (some request_exception) = false
raises none = false

unfoldable pub rows_to_check : Option String → List JobRow → List JobRow
rows_to_check none rows = filter (λ (r : JobRow). is_none r.removed_at) rows
rows_to_check (some user_id) rows =
    filter (λ (r : JobRow). is_none r.removed_at && r.user_id == user_id) rows

-- The owner and key of each row found to be gone.
unfoldable pub removed_pairs : (String → Option Answer) → List JobRow → List (String × String)
unfolding is_removed
removed_pairs answer rows =
    map (λ (r : JobRow). (r.user_id, r.key))
      (filter (λ (r : JobRow). is_removed (answer r.url)) rows)

unfoldable pub mark_pairs : ℕ → List (String × String) → List JobRow → List JobRow
mark_pairs now [] rows = rows
mark_pairs now ((owner, key) ∷ pairs) rows =
    mark_pairs now pairs
      (update_where (owned owner key) (λ (r : JobRow). record r { removed_at = some now }) rows)

-- The end of a pass, with the number of rows found to be gone.
unfoldable pub mark_answers : ℕ → (String → Option Answer) → Option String → Database → Database × ℕ
unfolding rows_to_check removed_pairs mark_pairs
mark_answers now answer user_id db =
    let removed = removed_pairs answer (rows_to_check user_id db.jobs) in
    (record db { jobs = mark_pairs now removed db.jobs }, length removed)

-- An address is asked once for each of its rows; one that several rows share is taken to answer all of them
-- alike. A check that raises any other exception ends the pass before anything is marked.
unfoldable pub check_job_urls :
    ℕ → (String → Option Answer) → Option String → Database → Result (Database × ℕ)
unfolding raises rows_to_check mark_answers
check_job_urls now answer user_id db =
    if any (λ (r : JobRow). raises (answer r.url)) (rows_to_check user_id db.jobs)
    then err other_error
    else ok (mark_answers now answer user_id db)
