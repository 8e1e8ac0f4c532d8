-- ===== src/Adapters/Findly.antt =====
-- app/adapters/findly.py.
pub mod Laws
use Prim.Native.String
use career_spyder.Prelude.{
  ℕ, zero, suc, ◌+◌, ◌*◌, String, Bool, Option, none, some, List, [], ◌∷◌, ◌++◌, if◌then◌else◌, ltb,
  length, truthy, filter, map, nonempty,
}
use career_spyder.Result.{Result, ok, err}
use career_spyder.Text.{join}
use career_spyder.Html.{cat}
use career_spyder.Models.{Job}
use career_spyder.Config.{Source}

abbrev pub page_size : ℕ
page_size = 500

-- A record whose fields have the types that are read; `none` for a key that is missing.
pub record Record : Type 0 where
  pub id : Option String
  pub title : Option String
  pub url : Option String
  pub company_name : Option String
  pub location_type : Option String
  pub primary_city : Option String
  pub primary_state : Option String
  pub open_date : Option String

abbrev present : Option String → List String
present none = []
present (some text) = if nonempty text then text ∷ [] else []

abbrev some_joined : List String → Option String
some_joined [] = none
some_joined (p ∷ parts) = some (join ", " (p ∷ parts))

unfoldable pub location : Record → Option String
location r =
    if truthy r.location_type
    then r.location_type
    else some_joined (present r.primary_city ++ present r.primary_state)

-- A record without an id, a title or an address is skipped, and so is one that is no object.
unfoldable pub parse_record : Source → Option Record → List Job
unfolding location
parse_record source none = []
parse_record source (some r) = elim r.id [
  | none ↦ []
  | some id ↦ elim r.title [
    | none ↦ []
    | some title ↦ elim r.url [
      | none ↦ []
      | some url ↦
          record {
            key = cat ("findly:" ∷ id ∷ []);
            title = title;
            url = url;
            company = if truthy r.company_name then r.company_name else source.company;
            location = location r;
            posted_date = r.open_date;
            source_name = source.name;
            source_id = some source.id;
            summary = none;
          }
          ∷ []
    ]
  ]
]

unfoldable pub parse_records : Source → List (Option Record) → List Job
unfolding parse_record
parse_records source [] = []
parse_records source (r ∷ records) = parse_record source r ++ parse_records source records

module _ (http_get : ℕ → Result (List (Option Record))) (source : Source) where
  -- A page, before the pages that follow it: none follow a short page.
  unfoldable pub extend : Result (List (Option Record)) → Result (List Job) → Result (List Job)
  unfolding parse_records
  extend (err e) rest = err e
  extend (ok records) rest =
      if ltb (length records) page_size
      then ok (parse_records source records)
      else (elim rest [ err e ↦ err e | ok jobs ↦ ok (parse_records source records ++ jobs) ])

  -- `for page in range(max_pages)`, from a page on.
  unfoldable pub fetch_from : (left page : ℕ) → Result (List Job)
  unfolding extend
  fetch_from zero page = ok []
  fetch_from (suc left) page =
      let rest = fetch_from left (page + 1) in extend (http_get (page * page_size + 1)) rest

  unfoldable pub fetch : (max_pages : ℕ) → Result (List Job)
  unfolding fetch_from
  fetch max_pages = fetch_from max_pages 0
