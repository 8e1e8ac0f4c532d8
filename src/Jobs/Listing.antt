-- ===== src/Jobs/Listing.antt =====
-- app/db.py: the queries on jobs that the pages show. A row of `jobs` is joined to at most one place, since
-- `location` is the key of `geocoded_locations`.
pub mod Mappable
pub mod Choices
pub mod Laws
use career_spyder.Prelude.{
  ℕ, ℤ, ◌+◌, String, ◌==◌, Bool, true, false, not, ◌&&◌, ◌||◌, Option, none, some, List, [], ◌∷◌,
  map, filter, find, elem, any, is_none, is_some, if◌then◌else◌, leb, nonempty, truthy, opt_eq,
}
use career_spyder.Database.{Database, JobRow, LocationRow, HistoryRow, UserRow, SourceRow, RunRow}
use career_spyder.Table.{count_where}
use career_spyder.Sort.{sort, page}
use career_spyder.Sources.{distinct}

-- The database's own: `text ILIKE '%pattern%'`, the order of `LOWER(text)`, the order of keys, and
-- `haversine_miles(lat, lng, at_lat, at_lng) <= radius`.
pub record Sql : Type 0 where
  pub ilike : (text pattern : String) → Bool
  pub lower_le : String → String → Bool
  pub key_le : String → String → Bool
  pub within : (lat lng at_lat at_lng : ℤ) → (radius : ℕ) → Bool

pub record Near : Type 0 where
  pub lat : ℤ
  pub lng : ℤ
  pub radius : ℕ

-- The arguments of `_job_filters_sql`; an empty list stands for `None` too.
pub record Filters : Type 0 where
  pub company : Option String
  pub search : Option String
  pub source_name : List String
  pub removed : Option String
  pub emailed : Option String
  pub status : List String
  pub location : Option String
  pub duplicates : Option String
  pub state : List String
  pub near : Option Near
  pub user_id : Option String

abbrev is_empty : List String → Bool
is_empty [] = true
is_empty (x ∷ xs) = false

-- `column ILIKE '%pattern%'`, which a NULL fails.
abbrev like : Sql → Option String → String → Bool
like sql none pattern = false
like sql (some text) pattern = sql.ilike text pattern

abbrev is_one_of : List String → Option String → Bool
is_one_of chosen none = false
is_one_of chosen (some text) = elem text chosen

-- A clause that a text which is missing or empty leaves out.
abbrev pub when_given : Option String → (String → Bool) → Bool
when_given none test = true
when_given (some text) test = if nonempty text then test text else true

unfoldable pub status_clause : List String → Option String → Bool
status_clause status actual =
    let real = filter (λ s. not (s == "none")) status in
    if is_empty status
    then true
    else if elem "none" status
    then is_none actual || is_one_of real actual
    else is_one_of real actual

abbrev pub place_status : Option LocationRow → Option String
place_status none = none
place_status (some place) = some place.status

abbrev pub place_name : Option LocationRow → Option String
place_name none = none
place_name (some place) = place.display_name

abbrev pub place_region : Option LocationRow → Option String
place_region none = none
place_region (some place) = place.region

unfoldable pub location_clause : Option String → Option LocationRow → Bool
location_clause location place =
    if opt_eq location (some "__unresolved__")
    then not (opt_eq (place_status place) (some "resolved"))
    else when_given location (λ name. opt_eq (place_name place) (some name))

abbrev within_of : Sql → Near → Option ℤ → Option ℤ → Bool
within_of sql near none lng = false
within_of sql near (some lat) none = false
within_of sql near (some lat) (some lng) = sql.within lat lng near.lat near.lng near.radius

unfoldable pub near_clause : Sql → Option Near → Option LocationRow → Bool
near_clause sql none place = true
near_clause sql (some near) none = false
near_clause sql (some near) (some place) = within_of sql near place.lat place.lng

abbrev pub user_clause : Option String → JobRow → Bool
user_clause none r = true
user_clause (some user_id) r = r.user_id == user_id

-- The WHERE clause as the joined rows that it keeps.
unfoldable pub job_filters : Sql → Filters → JobRow → Option LocationRow → Bool
unfolding status_clause location_clause near_clause
job_filters sql f r place =
    when_given f.company (λ company. like sql r.company company)
    && when_given f.search (λ search. sql.ilike r.title search || like sql r.company search)
    && (is_empty f.source_name || elem r.source_name f.source_name)
    && (if opt_eq f.removed (some "active")
        then is_none r.removed_at
        else if opt_eq f.removed (some "removed")
        then is_some r.removed_at
        else true)
    && (if opt_eq f.emailed (some "sent")
        then is_some r.emailed_at
        else if opt_eq f.emailed (some "not_sent")
        then is_none r.emailed_at
        else true)
    && status_clause f.status r.status
    && location_clause f.location place
    && (if opt_eq f.duplicates (some "only")
        then r.is_duplicate
        else if opt_eq f.duplicates (some "include")
        then true
        else not r.is_duplicate)
    && (is_empty f.state || is_one_of f.state (place_region place))
    && near_clause sql f.near place
    && user_clause f.user_id r

-- The place that a name is joined to.
unfoldable pub place_of : Option String → Database → Option LocationRow
place_of none db = none
place_of (some name) db = find (λ (p : LocationRow). p.location == name) db.locations

-- NULL comes after every value.
abbrev null_last : (String → String → Bool) → Option String → Option String → Bool
null_last le a none = true
null_last le none (some b) = false
null_last le (some a) (some b) = le a b

abbrev end_of : ℕ → JobRow → ℕ
end_of now r = elim r.removed_at [ none ↦ now | some t ↦ t ]

-- A column that jobs are sorted by. The age is the time from the first sight to the end.
unfoldable pub column_le : Sql → (now : ℕ) → (sort_by : String) → JobRow → JobRow → Bool
column_le sql now sort_by a b =
    if sort_by == "company"
    then null_last sql.lower_le a.company b.company
    else if sort_by == "title"
    then sql.lower_le a.title b.title
    else if sort_by == "age_days"
    then leb (end_of now a + b.first_seen_at) (end_of now b + a.first_seen_at)
    else leb a.first_seen_at b.first_seen_at

-- `ORDER BY column ASC, jobs.key ASC`
unfoldable pub job_le : Sql → ℕ → String → JobRow → JobRow → Bool
unfolding column_le
job_le sql now sort_by a b =
    if column_le sql now sort_by a b
    then (if column_le sql now sort_by b a then sql.key_le a.key b.key else true)
    else false

unfoldable pub job_order : Sql → ℕ → (sort_by direction : String) → JobRow → JobRow → Bool
unfolding job_le
job_order sql now sort_by direction a b =
    if direction == "asc" then job_le sql now sort_by a b else job_le sql now sort_by b a

-- `a or b` for optional texts.
abbrev or_text : Option String → Option String → Option String
or_text a b = if truthy a then a else b

-- A job as it is listed: its row with the names that are joined to it.
pub record JobItem : Type 0 where
  pub row : JobRow
  pub location : Option String
  pub base_location : Option String
  pub is_overridden : Bool
  pub username : Option String

unfoldable pub job_item : Database → JobRow → JobItem
unfolding place_of
job_item db r =
    let base = or_text (place_name (place_of r.location db)) r.location in
    record {
      row = r;
      location =
          or_text (place_name (place_of r.location_override db)) (or_text r.location_override base);
      base_location = base;
      is_overridden = is_some r.location_override;
      username = elim (find (λ (u : UserRow). u.id == r.user_id) db.users) [
        | none ↦ none
        | some user ↦ some user.username
      ];
    }

unfoldable pub selected_jobs : Sql → Filters → Database → List JobRow
unfolding job_filters place_of
selected_jobs sql f db =
    filter (λ (r : JobRow). job_filters sql f r (place_of r.location db)) db.jobs

unfoldable pub list_jobs :
    Sql → (now limit offset : ℕ) → (sort_by direction : String) → Filters → Database → List JobItem
unfolding selected_jobs job_item
list_jobs sql now limit offset sort_by direction f db =
    map (job_item db)
      (page limit offset (sort (job_order sql now sort_by direction) (selected_jobs sql f db)))

unfoldable pub count_jobs : Sql → Filters → Database → ℕ
count_jobs sql f db =
    count_where (λ (r : JobRow). job_filters sql f r (place_of r.location db)) db.jobs

-- The history of one pair of a user and a key: newest first.
unfoldable pub get_job_status_history : (user_id key : String) → Database → List HistoryRow
get_job_status_history user_id key db =
    sort
      (λ (a b : HistoryRow).
        if leb b.changed_at a.changed_at
        then (if leb a.changed_at b.changed_at then leb b.id a.id else true)
        else false)
      (filter (λ (h : HistoryRow). h.user_id == user_id && h.job_key == key) db.history)
