-- ===== src/Checker/Laws.antt =====
-- Which rows a check of addresses marks removed.
use career_spyder.Prelude.{
  sym, ℕ, ◌≡◌, ◌≢◌, refl, ap, ◌∙◌, String, ◌==◌, Bool, ◌&&◌, Option, some, List, [], ◌∷◌, arith,
  eq_iff, find, filter, map_option, Bool-cases, inl, inr, is_none, if◌then◌else◌, All, any, none,
  true, Option-cases,
}
use mathlib.Core.Path.{ap₂}
use career_spyder.Jobs.Rows.{IsKeyed, holds_of, any-owned}
use career_spyder.Result.{ok}
use career_spyder.Checker.{
  check_job_urls, rows_to_check, Answer, is_removed, removed_pairs, mark_pairs, mark_answers,
}
use career_spyder.Database.{Database, JobRow, owned}
use career_spyder.Table.Laws.{find-update_where}
use career_spyder.Jobs.Isolation.{SameFor, filter-update_where, owned→user, jobs-SameFor}

owners :
    (answer : String → Option Answer) (u : String) (rows : List JobRow)
    → All
        (λ (p : String × String). p.0 ≡ u)
        (removed_pairs answer
          (filter (λ (r : JobRow). is_none r.removed_at && r.user_id == u) rows))
unfolding removed_pairs
owners answer u [] = tt
owners answer u (r ∷ rows) = elim (Bool-cases (is_none r.removed_at && r.user_id == u)) [
  | inl e ↦ rw e (elim (Bool-cases (is_removed (answer r.url))) [
    | inl gone ↦ rw gone ((eq_iff r.user_id u).0 (ground arith), owners answer u rows)
    | inr kept ↦ rw kept (owners answer u rows)
  ])
  | inr e ↦ rw e (owners answer u rows)
]

filter-mark_pairs :
    (now : ℕ) (u v : String) (pairs : List (String × String)) (rows : List JobRow)
    → u ≢ v
    → All (λ (p : String × String). p.0 ≡ u) pairs
    → filter (λ (r : JobRow). r.user_id == v) (mark_pairs now pairs rows)
      ≡ filter (λ (r : JobRow). r.user_id == v) rows
unfolding mark_pairs
filter-mark_pairs now u v [] rows ne h = refl
filter-mark_pairs now u v ((owner, key) ∷ pairs) rows ne h =
    filter-mark_pairs now u v pairs _ ne h.1
    ∙ filter-update_where u v ne (owned owner key) _ rows
        (λ r e. owned→user owner v (rw h.0 ne) key r e ∙ h.0) (λ r. refl)

-- A check of one user's addresses changes nothing of another user.
pub mark_answers-SameFor :
    (now : ℕ) (answer : String → Option Answer) (u v : String) (db : Database)
    → u ≢ v
    → SameFor v db (mark_answers now answer (some u) db).0
unfolding mark_answers
mark_answers-SameFor now answer u v db ne =
    jobs-SameFor u v ne db _ (filter-mark_pairs now u v _ db.jobs ne (owners answer u db.jobs))

-- Whether a pair names the row.
abbrev named : List (String × String) → JobRow → Bool
named pairs r = any (λ (p : String × String). owned p.0 p.1 r) pairs

abbrev mark : ℕ → List (String × String) → JobRow → JobRow
mark now pairs r = if named pairs r then record r { removed_at = some now } else r

find-mark_pairs :
    (now : ℕ) (v k : String) (pairs : List (String × String)) (rows : List JobRow)
    → find (owned v k) (mark_pairs now pairs rows)
      ≡ map_option (mark now pairs) (find (owned v k) rows)
unfolding mark_pairs
find-mark_pairs now v k [] rows = ground arith
find-mark_pairs now v k ((owner, key) ∷ pairs) rows =
    find-mark_pairs now v k pairs _
    ∙ ap (map_option (mark now pairs))
        (find-update_where (owned v k) (owned owner key) _ rows (λ r. refl))
    ∙ again (find (owned v k) rows)
  where
    again :
        (o : Option JobRow)
        → map_option (mark now pairs) (
            map_option
              (λ (r : JobRow). if owned owner key r then record r { removed_at = some now } else r)
              o)
          ≡ map_option (mark now ((owner, key) ∷ pairs)) o
    again o = ground arith

named-removed_pairs :
    (answer : String → Option Answer) (t : JobRow) (rows : List JobRow)
    → named (removed_pairs answer rows) t
      ≡ any (λ (r : JobRow). owned t.user_id t.key r && is_removed (answer r.url)) rows
unfolding removed_pairs
named-removed_pairs answer t [] = refl
named-removed_pairs answer t (r ∷ rows) = ground (
  arith,
  named-removed_pairs answer t rows,
  eq_iff t.user_id r.user_id,
  eq_iff r.user_id t.user_id,
  eq_iff t.key r.key,
  eq_iff r.key t.key,
)

any-filter-owned :
    (u k : String) (p c : JobRow → Bool) (rows : List JobRow)
    → any (λ (r : JobRow). owned u k r && c r) (filter p rows)
      ≡ any (λ (r : JobRow). owned u k r && (p r && c r)) rows
any-filter-owned u k p c [] = refl
any-filter-owned u k p c (r ∷ rows) = ground (arith, any-filter-owned u k p c rows)

-- The rows that a pass over `who` looks at.
abbrev pub looked_at : Option String → JobRow → Bool
looked_at none r = is_none r.removed_at
looked_at (some user_id) r = is_none r.removed_at && r.user_id == user_id

rows_to_check-eq-filter :
    (who : Option String) (rows : List JobRow)
    → rows_to_check who rows ≡ filter (looked_at who) rows
unfolding rows_to_check
rows_to_check-eq-filter none rows = refl
rows_to_check-eq-filter (some user_id) rows = refl

find_self :
    (v k : String) (rows : List JobRow) (r : JobRow)
    → find (owned v k) rows ≡ some r
    → owned v k r ≡ true
find_self v k [] r h = cc
find_self v k (x ∷ rows) r h = ground (arith, find_self v k rows r)

named_row :
    (answer : String → Option Answer) (who : Option String) (v k : String) (rows : List JobRow)
    (r : JobRow)
    → IsKeyed rows
    → find (owned v k) rows ≡ some r
    → named (removed_pairs answer (rows_to_check who rows)) r
      ≡ looked_at who r && is_removed (answer r.url)
named_row answer who v k rows r keyed h =
    let own = find_self v k rows r h in
    let user_is : r.user_id ≡ v = (eq_iff r.user_id v).0 (ground arith) in
    let key_is : r.key ≡ k = (eq_iff r.key k).0 (ground arith) in
    rw (rows_to_check-eq-filter who rows) (
      named-removed_pairs answer r (filter (looked_at who) rows)
      ∙ any-filter-owned r.user_id r.key (looked_at who) (λ s. is_removed (answer s.url)) rows
      ∙ any-owned r.user_id r.key (λ s. looked_at who s && is_removed (answer s.url)) rows keyed
      ∙ ap (holds_of (λ s. looked_at who s && is_removed (answer s.url)))
          (ap (λ q. find q rows) (ap₂ owned user_is key_is) ∙ h))

find-mark_answers :
    (now : ℕ) (answer : String → Option Answer) (who : Option String) (v k : String) (db : Database)
    → IsKeyed db.jobs
    → find (owned v k) (mark_answers now answer who db).0.jobs
      ≡ map_option
          (λ (r : JobRow).
            if looked_at who r && is_removed (answer r.url)
            then record r { removed_at = some now }
            else r)
          (find (owned v k) db.jobs)
unfolding mark_answers
find-mark_answers now answer who v k db keyed =
    find-mark_pairs now v k (removed_pairs answer (rows_to_check who db.jobs)) db.jobs
    ∙ elim (Option-cases (find (owned v k) db.jobs)) [
      | inl e ↦ rw e
      | inr (r, e) ↦ rw e (rw (named_row answer who v k db.jobs r keyed e))
    ]

is_none-map_option {ℓ} :
    {A : Type ℓ} (f : A → A) (o : Option A) → is_none (map_option f o) ≡ is_none o
is_none-map_option f none = refl
is_none-map_option f (some a) = refl

-- A check neither adds nor drops a row.
pub is_none-mark_answers :
    (now : ℕ) (answer : String → Option Answer) (who : Option String) (v k : String) (db : Database)
    → is_none (find (owned v k) (mark_answers now answer who db).0.jobs)
      ≡ is_none (find (owned v k) db.jobs)
unfolding mark_answers
is_none-mark_answers now answer who v k db =
    ap is_none (find-mark_pairs now v k (removed_pairs answer (rows_to_check who db.jobs)) db.jobs)
    ∙ is_none-map_option _ (find (owned v k) db.jobs)

-- A pass that no other exception ends marks removed exactly the rows that it looks at (active, and of
-- the user asked for) whose address answered 404 or 410 by the deadline; every other row stays.
pub find-check_job_urls :
    (now : ℕ) (answer : String → Option Answer) (who : Option String) (v k : String)
    (db db' : Database) (n : ℕ)
    → IsKeyed db.jobs
    → check_job_urls now answer who db ≡ ok (db', n)
    → find (owned v k) db'.jobs
      ≡ map_option
          (λ (r : JobRow).
            if looked_at who r && is_removed (answer r.url)
            then record r { removed_at = some now }
            else r)
          (find (owned v k) db.jobs)
unfolding check_job_urls
find-check_job_urls now answer who v k db db' n keyed h =
    let done : mark_answers now answer who db ≡ (db', n) = ground arith in
    ap (λ (d : Database × ℕ). find (owned v k) d.0.jobs) (sym done)
    ∙ find-mark_answers now answer who v k db keyed
