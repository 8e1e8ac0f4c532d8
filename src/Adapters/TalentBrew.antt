-- ===== src/Adapters/TalentBrew.antt =====
-- app/adapters/talentbrew.py.
use career_spyder.Prelude.{
  ℕ, zero, suc, ◌+◌, String, Bool, true, Option, none, some, List, [], ◌∷◌, ◌++◌, if◌then◌else◌,
  leb, or_else,
}
use career_spyder.Result.{Result, ok, err}
use career_spyder.Html.{cat}
use career_spyder.Models.{Job}
use career_spyder.Config.{Source}

-- A card with a link and a heading; one without is skipped.
pub record Card : Type 0 where
  pub job_id : Option String
  pub href : String
  pub heading : String
  pub location : Option String

-- The marker of the number of pages, and the cards.
pub record Page : Type 0 where
  pub marker : Option ℕ
  pub cards : List (Option Card)

-- An attribute that is missing is written as `None`.
unfoldable pub parse_card : Source → (base_url : String) → Option Card → List Job
parse_card source base_url none = []
parse_card source base_url (some c) =
    record {
      key = cat ("talentbrew:" ∷ or_else c.job_id "None" ∷ []);
      title = c.heading;
      url = cat (base_url ∷ c.href ∷ []);
      company = source.company;
      location = c.location;
      posted_date = none;
      source_name = source.name;
      source_id = some source.id;
      summary = none;
    }
    ∷ []

unfoldable pub parse_page : Source → (base_url : String) → List (Option Card) → List Job
unfolding parse_card
parse_page source base_url [] = []
parse_page source base_url (c ∷ cards) =
    parse_card source base_url c ++ parse_page source base_url cards

-- Without a marker the first page is the only one.
abbrev pages_of : Option ℕ → Page → ℕ
pages_of none page = or_else page.marker 1
pages_of (some n) page = n

abbrev may_read : Option ℕ → ℕ → Bool
may_read none page = true
may_read (some total_pages) page = leb page total_pages

module _ (http_get : ℕ → Result Page) (source : Source) (base_url : String) where
  abbrev prepend : List Job → Result (List Job) → Result (List Job)
  prepend jobs (err e) = err e
  prepend jobs (ok more) = ok (jobs ++ more)

  -- The loop from a page on, with `left` pages up to `max_pages`.
  unfoldable pub fetch_from : (left page : ℕ) → (total_pages : Option ℕ) → Result (List Job)
  unfolding parse_page
  fetch_from zero page total_pages = ok []
  fetch_from (suc left) page total_pages =
      if may_read total_pages page
      then (elim (http_get page) [
        | err e ↦ err e
        | ok answer ↦ elim (parse_page source base_url answer.cards) [
          | [] ↦ ok []
          | job ∷ jobs ↦
              prepend (job ∷ jobs) (fetch_from left (page + 1) (some (pages_of total_pages answer)))
        ]
      ])
      else ok []

  unfoldable pub fetch : (max_pages : ℕ) → Result (List Job)
  unfolding fetch_from
  fetch max_pages = fetch_from max_pages 1 none
