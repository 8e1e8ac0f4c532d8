-- ===== src/Filters.antt =====
-- app/filters.py. `lower` stands for `str.lower`, whose Unicode tables the interpreter ships.
pub mod Laws
use career_spyder.Prelude.{
  String, Bool, true, false, not, Option, List, [], ◌∷◌, map, any, filter, text_or,
}
use career_spyder.Models.{Job}
use career_spyder.Text.{join, contains}

module _ (lower : String → String) where
  unfoldable pub fields : Job → String
  fields j = lower (join " " (j.title ∷ text_or j.company "" ∷ text_or j.location "" ∷ []))

  -- `any(n in _fields(j) for n in needles)`
  unfoldable pub mentions : List String → Job → Bool
  unfolding fields
  mentions needles j = any (contains (fields j)) needles

  unfoldable pub keep_included : List String → List Job → List Job
  keep_included [] jobs = jobs
  keep_included (k ∷ ks) jobs = filter (mentions (map lower (k ∷ ks))) jobs

  unfoldable pub drop_excluded : List String → List Job → List Job
  drop_excluded [] jobs = jobs
  drop_excluded (k ∷ ks) jobs = filter (λ j. not (mentions (map lower (k ∷ ks)) j)) jobs

  unfoldable pub apply_keyword_filters : List Job → List String → List String → List Job
  unfolding keep_included drop_excluded
  apply_keyword_filters jobs include exclude = drop_excluded exclude (keep_included include jobs)
