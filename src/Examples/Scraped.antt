-- ===== src/Examples/Scraped.antt =====
-- Runs, deduplication, progress and the filters at concrete sources.
use career_spyder.Orchestrator.{RunSummary, run_once, collect_all, nothing, dedupe}
use career_spyder.Prelude.{inl, refl, ◌==◌, ◌≡◌, none, [], ◌∷◌, find}
use career_spyder.Models.{Job}
use career_spyder.Orchestrator.Dedupe.{HasDistinctKeys, last_with, dedupe_lem}
use career_spyder.Orchestrator.Collect.{gathered, collect_all_lem}
use career_spyder.Orchestrator.Laws.{run_once-SameFor}
use career_spyder.Orchestrator.Again.{reported, new_jobs-run_once_twice}
use career_spyder.Result.{ok}
use career_spyder.Filters.{apply_keyword_filters}
use career_spyder.Jobs.Isolation.{SameFor}
use career_spyder.RunProgress
use career_spyder.Examples.{
  db, world, times_from, board, other_board, found_jobs, no_progress, alice_is_not_bob,
}

new_jobs-run_once_twice_example :
    ((s : RunSummary) × ((run_once world
          (times_from 10)
          (board ∷ other_board ∷ [])
          "alice"
          (db, no_progress)).1
        ≡ ok s))
    × (reported
          (run_once world
            (times_from 20)
            (board ∷ other_board ∷ [])
            "alice"
            (run_once world
              (times_from 10)
              (board ∷ other_board ∷ [])
              "alice"
              (db, no_progress)).0).1
        ≡ ok [])
unfolding apply_keyword_filters dedupe
new_jobs-run_once_twice_example =
    new_jobs-run_once_twice world (times_from 10) (times_from 20) (board ∷ other_board ∷ []) "alice"
      db no_progress (inl (refl, refl))

run_once-SameFor_example :
    SameFor "bob" db
      (run_once world (times_from 10) (board ∷ other_board ∷ []) "alice" (db, no_progress)).0.0
    × (RunProgress.get "alice"
          (run_once world (times_from 10) (board ∷ other_board ∷ []) "alice" (db, no_progress)).0.1
        ≡ none)
run_once-SameFor_example =
    run_once-SameFor world (times_from 10) (board ∷ other_board ∷ []) "alice" "bob" db no_progress
      alice_is_not_bob

collect_all_lem_example :
    (collect_all world "alice" 0 (board ∷ other_board ∷ []) (nothing, no_progress)).0
    ≡ gathered world (board ∷ other_board ∷ [])
collect_all_lem_example = collect_all_lem world "alice" 0 (board ∷ other_board ∷ []) no_progress

dedupe_lem_example :
    HasDistinctKeys (dedupe found_jobs)
    × (find (λ (j : Job). j.key == "c") (dedupe found_jobs) ≡ last_with "c" none found_jobs)
dedupe_lem_example = dedupe_lem "c" found_jobs
