-- ===== src/Jobs/Reconcile.antt =====
-- `reconcile_jobs`: what a run does to each stored row.
use career_spyder.Prelude.{
  ℕ, String, ◌==◌, ◌≡◌, refl, sym, ap, ◌∙◌, Bool, true, false, ◌&&◌, ◌||◌, Option, none, some, List,
  [], ◌∷◌, map, filter, find, elem, is_none, is_some, if◌then◌else◌, map_option, Bool-cases, arith,
  eq_iff, inl, inr,
}
use mathlib.Core.Path.{ap₂}
use career_spyder.Models.{Job}
use career_spyder.Database.{Database, JobRow, owned}
use career_spyder.Table.Laws.{find-update_where}
use career_spyder.Jobs.{
  is_gone, remove_keys, mark_removed_rows, reactivate_keys, reactivate_rows, reconcile_jobs,
}
use career_spyder.Jobs.Rows.{IsKeyed, holds_of, any-owned, elem-map-filter, update_where-IsKeyed}

-- The row after a run, by the row alone: `gone` is the first UPDATE, and a row that is removed
-- by then and was found is reactivated by the second.
unfoldable pub reconciled : ℕ → String → List String → List String → List String → JobRow → JobRow
reconciled now u configured succeeded found r =
    let gone = is_none r.removed_at && is_gone configured succeeded found r in
    if r.user_id == u
    then (if elem r.key found && (gone || is_some r.removed_at)
        then record r { removed_at = none; emailed_at = none }
        else if gone
        then record r { removed_at = some now }
        else r)
    else r

find-eq-some {ℓ} :
    {A : Type ℓ} (p : A → Bool) (xs : List A) (x : A) → find p xs ≡ some x → p x ≡ true
find-eq-some p [] x h = cc
find-eq-some p (y ∷ xs) x h = ground (arith, find-eq-some p xs x)

filter_twice {ℓ} :
    {A : Type ℓ} (p d c : A → Bool) (xs : List A)
    → filter c (filter (λ x. p x && d x) xs) ≡ filter (λ x. p x && (d x && c x)) xs
filter_twice p d c [] = refl
filter_twice p d c (x ∷ xs) = ground (arith, filter_twice p d c xs)

elem-filter :
    (k : String) (q : String → Bool) (ks : List String) → elem k (filter q ks) ≡ elem k ks && q k
elem-filter k q [] = refl
elem-filter k q (x ∷ ks) =
    let same : (x == k) ≡ true → q x ≡ q k = λ e. rw ((eq_iff x k).0 e) in
    ground (arith, same, elem-filter k q ks)

elem-remove_keys :
    (u k : String) (configured succeeded found : List String) (rows : List JobRow)
    → IsKeyed rows
    → elem k (remove_keys u configured succeeded found rows)
      ≡ holds_of
          (λ r.
            (is_none r.removed_at && is_some r.source_id) && is_gone configured succeeded found r)
          (find (owned u k) rows)
unfolding remove_keys
elem-remove_keys u k configured succeeded found rows h =
    rw
      (filter_twice (λ (r : JobRow). r.user_id == u)
        (λ (r : JobRow). is_none r.removed_at && is_some r.source_id)
        (is_gone configured succeeded found) rows)
      (elem-map-filter u k _ rows ∙ any-owned u k _ rows h)

elem-reactivate_keys :
    (u k : String) (found : List String) (rows : List JobRow)
    → IsKeyed rows
    → elem k (reactivate_keys u found rows)
      ≡ holds_of (λ r. is_some r.removed_at) (find (owned u k) rows) && elem k found
unfolding reactivate_keys
elem-reactivate_keys u k found rows h =
    elem-filter k (λ x. elem x found) _
    ∙ ap (λ b. b && elem k found) (elem-map-filter u k _ rows ∙ any-owned u k _ rows h)

mark_removed_rows-IsKeyed :
    (now : ℕ) (u : String) (keys : List String) (rows : List JobRow)
    → IsKeyed rows
    → IsKeyed (mark_removed_rows now u keys rows)
unfolding mark_removed_rows
mark_removed_rows-IsKeyed now u keys rows h =
    update_where-IsKeyed _ _ rows (λ r. refl) (λ r. refl) h

-- Reconciling keeps the primary key.
pub reconcile_jobs-IsKeyed :
    (now : ℕ) (u : String) (configured succeeded : List String) (jobs : List Job) (db : Database)
    → IsKeyed db.jobs
    → IsKeyed (reconcile_jobs now u configured succeeded jobs db).jobs
unfolding reconcile_jobs reactivate_rows
reconcile_jobs-IsKeyed now u configured succeeded jobs db h =
    update_where-IsKeyed _ _ _ (λ r. refl) (λ r. refl) (mark_removed_rows-IsKeyed now u _ db.jobs h)

find-mark_removed_rows :
    (now : ℕ) (u v k : String) (keys : List String) (rows : List JobRow)
    → find (owned v k) (mark_removed_rows now u keys rows)
      ≡ map_option
          (λ (r : JobRow).
            if r.user_id == u && elem r.key keys then record r { removed_at = some now } else r)
          (find (owned v k) rows)
unfolding mark_removed_rows
find-mark_removed_rows now u v k keys rows = find-update_where (owned v k) _ _ rows (λ r. refl)

find-reactivate_rows :
    (u v k : String) (keys : List String) (rows : List JobRow)
    → find (owned v k) (reactivate_rows u keys rows)
      ≡ map_option
          (λ (r : JobRow).
            if r.user_id == u && elem r.key keys
            then record r { removed_at = none; emailed_at = none }
            else r)
          (find (owned v k) rows)
unfolding reactivate_rows
find-reactivate_rows u v k keys rows = find-update_where (owned v k) _ _ rows (λ r. refl)

module _ (now : ℕ) (u : String) (configured succeeded found : List String) (rows : List JobRow)
    (keyed : IsKeyed rows) where
  abbrev marked : List JobRow
  marked = mark_removed_rows now u (remove_keys u configured succeeded found rows) rows

  abbrev again_row : JobRow → JobRow
  again_row s =
      if s.user_id == u && elem s.key (reactivate_keys u found marked)
      then record s { removed_at = none; emailed_at = none }
      else s

  find-marked :
      (r : JobRow)
      → find (owned u r.key) rows ≡ some r
      → find (owned u r.key) marked
        ≡ some (
            if r.user_id == u && elem r.key (remove_keys u configured succeeded found rows)
            then record r { removed_at = some now }
            else r)
  find-marked r e = find-mark_removed_rows now u u r.key _ rows ∙ rw e

  own_row :
      (r : JobRow)
      → find (owned u r.key) rows ≡ some r
      → (r.user_id == u) ≡ true
      → map_option again_row (find (owned u r.key) marked)
        ≡ some (reconciled now u configured succeeded found r)
  unfolding reconciled is_gone
  own_row r e own =
      let gone = elem-remove_keys u r.key configured succeeded found rows keyed in
      let again =
        elem-reactivate_keys u r.key found marked (mark_removed_rows-IsKeyed now u _ rows keyed) in
      rw (find-marked r e) (ground (arith, gone, again, find-marked r e))

  other_row :
      (r : JobRow) (keys : List String)
      → (r.user_id == u) ≡ false
      → map_option
          (λ (s : JobRow).
            if s.user_id == u && elem s.key keys
            then record s { removed_at = none; emailed_at = none }
            else s)
          (some (
            if r.user_id == u && elem r.key (remove_keys u configured succeeded found rows)
            then record r { removed_at = some now }
            else r))
        ≡ some (reconciled now u configured succeeded found r)
  unfolding reconciled
  other_row r keys other = rw (other, other)

  find_reconciled :
      (v k : String) (o : Option JobRow)
      → find (owned v k) rows ≡ o
      → find (owned v k) (reactivate_rows u (reactivate_keys u found marked) marked)
        ≡ map_option (reconciled now u configured succeeded found) o
  find_reconciled v k none e =
      find-reactivate_rows u v k _ marked ∙ rw (find-mark_removed_rows now u v k _ rows) (rw e)
  find_reconciled v k (some r) e =
      let here = find-eq-some (owned v k) rows r e in
      let same_user : r.user_id ≡ v = (eq_iff r.user_id v).0 (ground arith) in
      let same_key : r.key ≡ k = (eq_iff r.key k).0 (ground arith) in
      find-reactivate_rows u v k _ marked ∙ elim (Bool-cases (r.user_id == u)) [
        | inl own ↦
            let same : u ≡ v = sym ((eq_iff r.user_id u).0 own) ∙ same_user in
            let key : owned v k ≡ owned u r.key = ap₂ owned (sym same) (sym same_key) in
            ap (λ q. map_option again_row (find q marked)) key
            ∙ own_row r (ap (λ q. find q rows) (sym key) ∙ e) own
        | inr other ↦ rw (find-mark_removed_rows now u v k _ rows) (rw e (other_row r _ other))
      ]

-- After a run each row is the one of before, changed by its own columns alone: a row of the user
-- that is gone is removed, one that is removed by then and was found is active again and waits
-- for its next mail, and all others stay as they are.
pub find-reconcile_jobs :
    (now : ℕ) (u v k : String) (configured succeeded : List String) (jobs : List Job)
    (db : Database)
    → IsKeyed db.jobs
    → find (owned v k) (reconcile_jobs now u configured succeeded jobs db).jobs
      ≡ map_option
          (reconciled now u configured succeeded (map (λ (j : Job). j.key) jobs))
          (find (owned v k) db.jobs)
unfolding reconcile_jobs
find-reconcile_jobs now u v k configured succeeded jobs db keyed =
    find_reconciled now u configured succeeded (map (λ (j : Job). j.key) jobs) db.jobs keyed v k _
      refl

-- An active job whose source is configured but did not succeed in this run, because it is disabled or
-- failed, comes out of it unchanged.
pub reconcile_jobs_keeps :
    (now : ℕ) (u k sid : String) (configured succeeded : List String) (jobs : List Job)
    (db : Database) (r : JobRow)
    → IsKeyed db.jobs
    → find (owned u k) db.jobs ≡ some r
    → r.removed_at ≡ none
    → r.source_id ≡ some sid
    → elem sid configured ≡ true
    → elem sid succeeded ≡ false
    → find (owned u k) (reconcile_jobs now u configured succeeded jobs db).jobs ≡ some r
unfolding reconciled is_gone
reconcile_jobs_keeps now u k sid configured succeeded jobs db r keyed h active source known failed =
    find-reconcile_jobs now u u k configured succeeded jobs db keyed ∙ rw h (ground arith)
