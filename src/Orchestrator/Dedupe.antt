-- ===== src/Orchestrator/Dedupe.antt =====
-- The jobs of a run without repeated keys.
use career_spyder.Prelude.{
  ◌≡◌, refl, ap, ◌∙◌, String, ◌==◌, Bool, false, ◌||◌, Option, none, some, List, [], ◌∷◌, arith,
  eq_iff, find, map, if◌then◌else◌, Bool-cases, inl, inr, elem,
}
use career_spyder.Models.{Job}
use career_spyder.Orchestrator.{put_job, dedupe_from, dedupe}

abbrev by_key : String → Job → Bool
by_key k j = j.key == k

-- The last job of the list with the key, or `o`.
abbrev pub last_with : String → Option Job → List Job → Option Job
last_with k o [] = o
last_with k o (j ∷ jobs) = last_with k (if j.key == k then some j else o) jobs

-- No two jobs have one key.
abbrev pub HasDistinctKeys : List Job → Type 0
HasDistinctKeys [] = Unit
HasDistinctKeys (j ∷ jobs) =
    (elem j.key (map (λ (i : Job). i.key) jobs) ≡ false) × HasDistinctKeys jobs

find-put_job :
    (k : String) (j : Job) (jobs : List Job)
    → find (by_key k) (put_job j jobs) ≡ (if j.key == k then some j else find (by_key k) jobs)
unfolding put_job
find-put_job k j [] = refl
find-put_job k j (i ∷ jobs) =
    ground (arith, find-put_job k j jobs, eq_iff i.key j.key, eq_iff i.key k, eq_iff j.key k)

elem-put_job :
    (k : String) (j : Job) (jobs : List Job)
    → elem k (map (λ (i : Job). i.key) (put_job j jobs))
      ≡ (j.key == k || elem k (map (λ (i : Job). i.key) jobs))
unfolding put_job
elem-put_job k j [] = refl
elem-put_job k j (i ∷ jobs) =
    ground (arith, elem-put_job k j jobs, eq_iff i.key j.key, eq_iff i.key k, eq_iff j.key k)

put_job-HasDistinctKeys :
    (j : Job) (jobs : List Job) → HasDistinctKeys jobs → HasDistinctKeys (put_job j jobs)
unfolding put_job
put_job-HasDistinctKeys j [] h = (refl, tt)
put_job-HasDistinctKeys j (i ∷ jobs) h = elim (Bool-cases (i.key == j.key)) [
  | inl e ↦ rw e (rw (← (eq_iff i.key j.key).0 e) h.0, h.1)
  | inr e ↦ rw e (
    rw (elem-put_job i.key j jobs) (ground (arith, h.0, eq_iff i.key j.key, eq_iff j.key i.key)),
    put_job-HasDistinctKeys j jobs h.1,
  )
]

find-dedupe_from :
    (k : String) (kept jobs : List Job)
    → find (by_key k) (dedupe_from kept jobs) ≡ last_with k (find (by_key k) kept) jobs
unfolding dedupe_from
find-dedupe_from k kept [] = refl
find-dedupe_from k kept (j ∷ jobs) =
    find-dedupe_from k (put_job j kept) jobs ∙ ap (λ o. last_with k o jobs) (find-put_job k j kept)

dedupe_from-HasDistinctKeys :
    (kept jobs : List Job) → HasDistinctKeys kept → HasDistinctKeys (dedupe_from kept jobs)
unfolding dedupe_from
dedupe_from-HasDistinctKeys kept [] h = h
dedupe_from-HasDistinctKeys kept (j ∷ jobs) h =
    dedupe_from-HasDistinctKeys (put_job j kept) jobs (put_job-HasDistinctKeys j kept h)

-- Deduplication keeps one job for each key, the last one found with it, and no other key.
pub dedupe_lem :
    (k : String) (jobs : List Job)
    → HasDistinctKeys (dedupe jobs)
      × (find (λ (j : Job). j.key == k) (dedupe jobs) ≡ last_with k none jobs)
unfolding dedupe
dedupe_lem k jobs = (dedupe_from-HasDistinctKeys [] jobs tt, find-dedupe_from k [] jobs)
