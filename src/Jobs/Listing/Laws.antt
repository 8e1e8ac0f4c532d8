-- ===== src/Jobs/Listing/Laws.antt =====
-- Whose jobs a listing shows, and how many.
use career_spyder.Prelude.{
  ℕ, zero, suc, ap, ◌-◌, String, ◌≡◌, refl, ◌∙◌, Bool, true, ◌&&◌, Option, some, List, [], ◌∷◌, map,
  filter, All, All-filter, take, drop, length, min, arith, eq_iff,
}
use career_spyder.Database.{Database, JobRow, LocationRow}
use career_spyder.Table.Laws.{count_where-eq-length-filter}
use career_spyder.Sort.{page, sort, sort-All, length-sort, length-page}
use career_spyder.Jobs.Listing.{
  Sql, Filters, JobItem, job_filters, user_clause, place_of, job_item, job_order, selected_jobs,
  list_jobs, count_jobs,
}
use career_spyder.Jobs.Listing.Mappable.{MapItem, map_place, is_mappable, list_mappable_jobs}

All-take {ℓ} : {A : Type ℓ} (P : A → Type 0) (n : ℕ) (xs : List A) → All P xs → All P (take n xs)
All-take P zero xs h = tt
All-take P (suc n) [] h = tt
All-take P (suc n) (x ∷ xs) h = (h.0, All-take P n xs h.1)

All-drop {ℓ} : {A : Type ℓ} (P : A → Type 0) (n : ℕ) (xs : List A) → All P xs → All P (drop n xs)
All-drop P zero xs h = h
All-drop P (suc n) [] h = tt
All-drop P (suc n) (x ∷ xs) h = All-drop P n xs h.1

pub All-map {ℓ κ} :
    {A : Type ℓ} {B : Type κ} (P : B → Type 0) (f : A → B) (xs : List A)
    → All (λ x. P (f x)) xs
    → All P (map f xs)
All-map P f [] h = tt
All-map P f (x ∷ xs) h = (h.0, All-map P f xs h.1)

and_last : (a b : Bool) → (a && b) ≡ true → b ≡ true
and_last a b h = ground (arith, h)

and_first : (a b : Bool) → (a && b) ≡ true → a ≡ true
and_first a b h = ground (arith, h)

kept_user :
    (sql : Sql) (f : Filters) (u : String) (r : JobRow) (place : Option LocationRow)
    → f.user_id ≡ some u
    → job_filters sql f r place ≡ true
    → r.user_id ≡ u
unfolding job_filters
kept_user sql f u r place whose h =
    let own = and_last _ (user_clause f.user_id r) h in
    ground (arith, own, whose, eq_iff r.user_id u)

kept_mappable :
    (sql : Sql) (f : Filters) (exclude_status : Option String) (u : String) (r : JobRow)
    (place : Option LocationRow)
    → f.user_id ≡ some u
    → is_mappable sql f exclude_status r place ≡ true
    → r.user_id ≡ u
unfolding is_mappable
kept_mappable sql f exclude_status u r place whose h =
    kept_user sql f u r place whose (and_first _ _ (and_first _ _ h))

length-map {ℓ κ} :
    {A : Type ℓ} {B : Type κ} (f : A → B) (xs : List A) → length (map f xs) ≡ length xs
length-map f [] = refl
length-map f (x ∷ xs) = ap suc (length-map f xs)

-- A listing that is narrowed to a user shows rows of that user only, on every page and in every order, and
-- so does the map.
pub list_jobs-owned :
    (sql : Sql) (now limit offset : ℕ) (sort_by direction : String) (f : Filters)
    (exclude_status : Option String) (db : Database) (u : String)
    → f.user_id ≡ some u
    → All
        (λ (item : JobItem). item.row.user_id ≡ u)
        (list_jobs sql now limit offset sort_by direction f db)
      × All (λ (item : MapItem). item.row.user_id ≡ u) (list_mappable_jobs sql f exclude_status db)
unfolding list_jobs selected_jobs list_mappable_jobs job_item page
list_jobs-owned sql now limit offset sort_by direction f exclude_status db u whose = (
  All-map (λ (item : JobItem). item.row.user_id ≡ u) (job_item db) _
      (All-take _ limit _ (
        All-drop _ offset _ (
          sort-All (job_order sql now sort_by direction) (λ (r : JobRow). r.user_id ≡ u) _
            (All-filter _ _ db.jobs
              (λ r h. kept_user sql f u r (place_of r.location db) whose h))))),
  All-map (λ (item : MapItem). item.row.user_id ≡ u) _ _
      (All-filter (λ (r : JobRow). r.user_id ≡ u) _ db.jobs
        (λ r h. kept_mappable sql f exclude_status u r (map_place db r) whose h)),
)

-- The count that the pages are computed from is the number of rows there are: a page shows as many rows as
-- its limit, or those that the count leaves after its offset.
pub length-list_jobs :
    (sql : Sql) (now limit offset : ℕ) (sort_by direction : String) (f : Filters) (db : Database)
    → length (list_jobs sql now limit offset sort_by direction f db)
      ≡ min limit (count_jobs sql f db - offset)
unfolding list_jobs selected_jobs count_jobs
length-list_jobs sql now limit offset sort_by direction f db =
    let kept = λ (r : JobRow). job_filters sql f r (place_of r.location db) in
    length-map (job_item db) _
    ∙ length-page limit offset (sort (job_order sql now sort_by direction) (filter kept db.jobs))
    ∙ rw (length-sort (job_order sql now sort_by direction) (filter kept db.jobs))
        (rw (count_where-eq-length-filter kept db.jobs) refl)
