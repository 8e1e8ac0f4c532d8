-- ===== src/Adapters/Workday.antt =====
-- app/adapters/workday.py.
pub mod Laws
use Prim.Native.String
use career_spyder.Prelude.{
  ℕ, zero, suc, ◌+◌, ◌*◌, min, String, Bool, Option, none, some, List, [], ◌∷◌, ◌++◌, if◌then◌else◌,
  ltb, or_else,
}
use career_spyder.Result.{Result, ok, err}
use career_spyder.Html.{cat}
use career_spyder.Models.{Job}
use career_spyder.Config.{Source}

abbrev pub page_size : ℕ
page_size = 20

-- A posting whose fields have the types that are read, with its `bulletFields`. One that has not is skipped.
pub record Posting : Type 0 where
  pub title : Option String
  pub external_path : String
  pub bullet_fields : List String
  pub location : Option String
  pub posted_on : Option String

pub record Page : Type 0 where
  pub total : ℕ
  pub postings : List (Option Posting)

abbrev requisition_id : Posting → String
requisition_id p = elim p.bullet_fields [
  | [] ↦ p.external_path
  | first ∷ rest ↦ elim rest [ [] ↦ p.external_path | second ∷ more ↦ second ]
]

abbrev job_of : Source → (site_base title : String) → Posting → Job
job_of source site_base title p = record {
  key = cat ("workday:" ∷ requisition_id p ∷ []);
  title = title;
  url = cat (site_base ∷ p.external_path ∷ []);
  company = source.company;
  location = p.location;
  posted_date = p.posted_on;
  source_name = source.name;
  source_id = some source.id;
  summary = none;
}

unfoldable pub parse_posting : Source → (site_base : String) → Option Posting → List Job
parse_posting source site_base none = []
parse_posting source site_base (some p) = elim p.title [
  | none ↦ []
  | some title ↦ job_of source site_base title p ∷ []
]

unfoldable pub parse_postings : Source → (site_base : String) → List (Option Posting) → List Job
unfolding parse_posting
parse_postings source site_base [] = []
parse_postings source site_base (p ∷ postings) =
    parse_posting source site_base p ++ parse_postings source site_base postings

module _ (fetch_page : ℕ → Result Page) (source : Source) (site_base : String) where
  -- A page of the loop, before the pages that follow.
  unfoldable pub extend : Result Page → Option (Result (List Job)) → Option (Result (List Job))
  unfolding parse_postings
  extend (err e) rest = some (err e)
  extend (ok page) none = none
  extend (ok page) (some (err e)) = some (err e)
  extend (ok page) (some (ok jobs)) =
      some (ok (parse_postings source site_base page.postings ++ jobs))

  -- `while offset < max_offset`; `none` where the fuel runs out.
  unfoldable pub fetch_from : (fuel offset max_offset : ℕ) → Option (Result (List Job))
  unfolding extend
  fetch_from zero offset max_offset = if ltb offset max_offset then none else some (ok [])
  fetch_from (suc fuel) offset max_offset =
      let rest = fetch_from fuel (offset + page_size) max_offset in
      if ltb offset max_offset then extend (fetch_page offset) rest else some (ok [])

  -- The bound is read from the first page only.
  unfoldable pub fetch_after : (max_pages : ℕ) → Result Page → Option (Result (List Job))
  unfolding fetch_from
  fetch_after max_pages (err e) = some (err e)
  fetch_after max_pages (ok first) =
      extend (ok first) (fetch_from max_pages page_size (min first.total (max_pages * page_size)))

  unfoldable pub fetch : (max_pages : ℕ) → Option (Result (List Job))
  unfolding fetch_after
  fetch max_pages = fetch_after max_pages (fetch_page 0)
