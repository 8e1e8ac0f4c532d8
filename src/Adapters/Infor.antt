-- ===== src/Adapters/Infor.antt =====
-- app/adapters/infor.py: what is made of the pages that the browser yields.
use career_spyder.Prelude.{
  String, not, Option, none, some, List, [], ◌∷◌, ◌++◌, if◌then◌else◌, is_none, nonempty,
}
use career_spyder.Result.{Result, ok, err}
use career_spyder.Text.{contains}
use career_spyder.Html.{cat}
use career_spyder.Models.{Job}
use career_spyder.Config.{Source}
use career_spyder.Orchestrator.{dedupe}

-- A card of one of the two generations, by the texts that its selectors find.
pub data Card : Type 0 where
  stacked : (heading posted location : Option String) → Card
  listed : (heading : Option String) → (spans : List String) → Card

abbrev named : Option String → String
named none = "None"
named (some text) = text

unfoldable pub job_of : Source → (url title : String) → (location posted_date : Option String) → Job
job_of source url title location posted_date = record {
  key = cat ("infor:" ∷ named source.company ∷ ":" ∷ title ∷ ":" ∷ named location ∷ []);
  title = title;
  url = url;
  company = source.company;
  location = location;
  posted_date = posted_date;
  source_name = source.name;
  source_id = some source.id;
  summary = none;
}

-- The first span without a colon is the location, the last one with a colon the date.
unfoldable pub read_spans :
    Option String → Option String → List String → Option String × Option String
read_spans location posted_date [] = (location, posted_date)
read_spans location posted_date (text ∷ spans) =
    if not (nonempty text)
    then read_spans location posted_date spans
    else if contains text ":"
    then read_spans location (some text) spans
    else if is_none location
    then read_spans (some text) posted_date spans
    else read_spans location posted_date spans

unfoldable pub parse_card : Source → (url : String) → Card → List Job
unfolding job_of read_spans
parse_card source url (stacked none posted location) = []
parse_card source url (stacked (some title) posted location) =
    job_of source url title location posted ∷ []
parse_card source url (listed none spans) = []
parse_card source url (listed (some title) spans) =
    let found = read_spans none none spans in job_of source url title found.0 found.1 ∷ []

unfoldable pub parse_page : Source → (url : String) → List Card → List Job
unfolding parse_card
parse_page source url [] = []
parse_page source url (c ∷ cards) = parse_card source url c ++ parse_page source url cards

-- The pages up to the first one without jobs. A failure gives no part of the pages.
unfoldable pub read_pages : Source → (url : String) → List (Result (List Card)) → Result (List Job)
unfolding parse_page
read_pages source url [] = ok []
read_pages source url (err e ∷ pages) = err e
read_pages source url (ok cards ∷ pages) =
    let rest = read_pages source url pages in
    elim (parse_page source url cards) [
      | [] ↦ ok []
      | job ∷ jobs ↦ elim rest [ err e ↦ err e | ok more ↦ ok ((job ∷ jobs) ++ more) ]
    ]

unfoldable pub fetch : Source → (url : String) → List (Result (List Card)) → Result (List Job)
unfolding read_pages
fetch source url pages = elim (read_pages source url pages) [
  | err e ↦ err e
  | ok all_jobs ↦ ok (dedupe all_jobs)
]
