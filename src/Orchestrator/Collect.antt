-- ===== src/Orchestrator/Collect.antt =====
-- The loop over the sources: one source's failure costs only its own jobs.
use career_spyder.Prelude.{
  ℕ, suc, ◌≡◌, refl, ◌∙◌, String, Bool, true, false, not, some, List, [], ◌∷◌, ◌++◌, filter, map,
}
use mathlib.Core.List.{append-nil, append_assoc}
use career_spyder.Models.{Job, FailedSource}
use career_spyder.Config.{Source, get_source_url}
use career_spyder.Result.{Result, ok, err}
use career_spyder.Filters.{apply_keyword_filters}
use career_spyder.RunProgress.{Progress}
use career_spyder.Orchestrator.{World, Collected, collect, collect_all, nothing}

abbrev pub is_ok {ℓ} : {A : Type ℓ} → Result A → Bool
is_ok (ok a) = true
is_ok (err e) = false

abbrev pub jobs_of : Result (List Job) → List Job
jobs_of (ok jobs) = jobs
jobs_of (err e) = []

abbrev pub failure_of : Source → FailedSource
failure_of source = record {
  name = source.name;
  url = get_source_url source;
  source_id = some source.id;
}

abbrev pub concat_map {ℓ κ} : {A : Type ℓ} {B : Type κ} → (A → List B) → List A → List B
concat_map f [] = []
concat_map f (x ∷ xs) = f x ++ concat_map f xs

-- What the loop should gather, source by source.
abbrev pub gathered : World → List Source → Collected
gathered world sources = record {
  all_jobs =
      concat_map
        (λ (s : Source).
          apply_keyword_filters world.lower (jobs_of (world.adapter s)) s.include_keywords
            s.exclude_keywords)
        sources;
  all_raw_jobs = concat_map (λ (s : Source). jobs_of (world.adapter s)) sources;
  succeeded_source_ids =
      map (λ (s : Source). s.id) (filter (λ (s : Source). is_ok (world.adapter s)) sources);
  failed_sources = map failure_of (filter (λ (s : Source). not (is_ok (world.adapter s))) sources);
}

abbrev joined : Collected → Collected → Collected
joined a b = record {
  all_jobs = a.all_jobs ++ b.all_jobs;
  all_raw_jobs = a.all_raw_jobs ++ b.all_raw_jobs;
  succeeded_source_ids = a.succeeded_source_ids ++ b.succeeded_source_ids;
  failed_sources = a.failed_sources ++ b.failed_sources;
}

filters_nothing :
    (lower : String → String) (include exclude : List String)
    → apply_keyword_filters lower [] include exclude ≡ []
unfolding apply_keyword_filters
filters_nothing lower [] [] = refl
filters_nothing lower [] (x ∷ xs) = refl
filters_nothing lower (k ∷ ks) [] = refl
filters_nothing lower (k ∷ ks) (x ∷ xs) = refl

collect_step :
    (world : World) (source : Source) (c : Collected) (rest : List Source) (r : Result (List Job))
    → world.adapter source ≡ r
    → joined (collect world.lower source r c) (gathered world rest)
      ≡ joined c (gathered world (source ∷ rest))
unfolding collect
collect_step world source c rest (ok found) e = rw e (simp append_assoc)
collect_step world source c rest (err x) e =
    rw (e, filters_nothing world.lower source.include_keywords source.exclude_keywords)
      (simp append_assoc)

collect_all-eq-joined :
    (world : World) (user_id : String) (i : ℕ) (sources : List Source) (c : Collected)
    (p : Progress)
    → (collect_all world user_id i sources (c, p)).0 ≡ joined c (gathered world sources)
unfolding collect_all
collect_all-eq-joined world user_id i [] c p = simp append-nil
collect_all-eq-joined world user_id i (source ∷ rest) c p =
    collect_all-eq-joined world user_id (suc i) rest _ _
    ∙ collect_step world source c rest (world.adapter source) refl

-- The loop gathers, in the order of the sources, the filtered and the raw jobs of every source whose
-- adapter returns, with its id, and a failure record for every other one; none stops the loop.
pub collect_all_lem :
    (world : World) (user_id : String) (i : ℕ) (sources : List Source) (p : Progress)
    → (collect_all world user_id i sources (nothing, p)).0 ≡ gathered world sources
collect_all_lem world user_id i sources p = collect_all-eq-joined world user_id i sources nothing p
