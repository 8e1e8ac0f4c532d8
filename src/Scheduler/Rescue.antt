-- ===== src/Scheduler/Rescue.antt =====
-- Which jobs a mail collects, and which users the reconcile at the end of a run leaves alone.
use career_spyder.Prelude.{
  ℕ, ◌≡◌, refl, ◌∙◌, arith, eq_iff, String, ◌==◌, Bool, false, ◌||◌, List, [], ◌∷◌, ◌++◌, elem,
  Bool-cases, inl, inr,
}
use career_spyder.Models.{Job}
use career_spyder.Config.{Source}
use career_spyder.Database.{Database}
use career_spyder.Jobs.{reconcile_jobs}
use career_spyder.Jobs.Isolation.{SameFor}
use career_spyder.Orchestrator.Dedupe.{HasDistinctKeys}
use career_spyder.Orchestrator.Laws.{SameFor-trans}
use career_spyder.Sources.{list_sources, list_users_with_active_jobs}
use career_spyder.UserRun.{rescue, keys_of}
use career_spyder.Scheduler.{
  reconcile_unless, reconcile_if_no_sources, reconcile_users, reconcile_users_with_no_sources,
}
use career_spyder.Scheduler.Laws.{SameFor-refl, reconcile_if_no_sources-SameFor}

elem-keys_of-append :
    (k : String) (js : List Job) (j : Job)
    → elem k (keys_of (js ++ j ∷ [])) ≡ (elem k (keys_of js) || (j.key == k || false))
elem-keys_of-append k [] j = refl
elem-keys_of-append k (i ∷ js) j = ground (arith, elem-keys_of-append k js j)

append-HasDistinctKeys :
    (js : List Job) (j : Job)
    → elem j.key (keys_of js) ≡ false
    → HasDistinctKeys js
    → HasDistinctKeys (js ++ j ∷ [])
append-HasDistinctKeys [] j e h = (refl, tt)
append-HasDistinctKeys (i ∷ js) j e h = (
  elem-keys_of-append i.key js j ∙ ground (arith, h.0, eq_iff i.key j.key, eq_iff j.key i.key),
  append-HasDistinctKeys js j (ground arith) h.1,
)

-- Every job that still waits for its mail is added to those of the run, once: the keys of the result
-- are those of both lists, and where no key was there twice, none is afterwards.
pub rescue_lem :
    (k : String) (jobs_to_send unemailed : List Job)
    → HasDistinctKeys jobs_to_send
    → HasDistinctKeys (rescue jobs_to_send unemailed)
      × (elem k (keys_of (rescue jobs_to_send unemailed))
          ≡ elem k (keys_of jobs_to_send) || elem k (keys_of unemailed))
unfolding rescue
rescue_lem k js [] h = (h, ground arith)
rescue_lem k js (j ∷ unemailed) h = elim (Bool-cases (elem j.key (keys_of js))) [
  | inl e ↦
      let rest = rescue_lem k js unemailed h in
      rw e (rest.0, rest.1 ∙ ground (arith, eq_iff j.key k))
  | inr e ↦
      let rest = rescue_lem k (js ++ j ∷ []) unemailed (append-HasDistinctKeys js j e h) in
      rw e (rest.0, rest.1 ∙ ground (arith, elem-keys_of-append k js j))
]

sources-reconcile_unless :
    (sources : List Source) (now : ℕ) (u : String) (db : Database)
    → (reconcile_unless sources now u db).sources ≡ db.sources
unfolding reconcile_unless reconcile_jobs
sources-reconcile_unless [] now u db = refl
sources-reconcile_unless (s ∷ ss) now u db = refl

module _ (text_le : String → String → Bool) (now : ℕ) (in_snapshot : List String) (v : String) where
  list_sources-reconcile_if_no_sources :
      (u : String) (db : Database)
      → list_sources text_le v (reconcile_if_no_sources text_le now u db)
        ≡ list_sources text_le v db
  unfolding list_sources reconcile_if_no_sources
  list_sources-reconcile_if_no_sources u db =
      rw (sources-reconcile_unless (list_sources text_le u db) now u db) refl

  -- One round keeps the rows and the sources of a user who has some.
  round_keeps :
      (u : String) (db : Database) (s : Source) (ss : List Source)
      → list_sources text_le v db ≡ s ∷ ss
      → SameFor v db (reconcile_if_no_sources text_le now u db)
  unfolding reconcile_if_no_sources reconcile_unless
  round_keeps u db s ss h = elim (Bool-cases (u == v)) [
    | inl e ↦ rw ((eq_iff u v).0 e) (rw h (SameFor-refl v db))
    | inr e ↦ reconcile_if_no_sources-SameFor text_le now u v db (λ same. cc ((eq_iff u v).1 same))
  ]

  reconcile_users-SameFor :
      (users : List String) (db : Database) (s : Source) (ss : List Source)
      → list_sources text_le v db ≡ s ∷ ss
      → SameFor v db (reconcile_users text_le now in_snapshot users db)
  unfolding reconcile_users
  reconcile_users-SameFor [] db s ss h = SameFor-refl v db
  reconcile_users-SameFor (u ∷ users) db s ss h = elim (Bool-cases (elem u in_snapshot)) [
    | inl e ↦ rw e (reconcile_users-SameFor users db s ss h)
    | inr e ↦
        let next = reconcile_if_no_sources text_le now u db in
        rw e (
          SameFor-trans v db next _ (round_keeps u db s ss h) (
            reconcile_users-SameFor users next s ss
              (list_sources-reconcile_if_no_sources u db ∙ h)))
  ]

-- The reconcile of users without sources never touches the jobs or the history of a user who has a
-- source by then, however old the snapshot of the users with sources is.
pub reconcile_users_with_no_sources-SameFor :
    (text_le : String → String → Bool) (now : ℕ) (in_snapshot : List String) (v : String)
    (db : Database) (s : Source) (ss : List Source)
    → list_sources text_le v db ≡ s ∷ ss
    → SameFor v db (reconcile_users_with_no_sources text_le now in_snapshot db)
unfolding reconcile_users_with_no_sources
reconcile_users_with_no_sources-SameFor text_le now in_snapshot v db s ss h =
    reconcile_users-SameFor text_le now in_snapshot v (list_users_with_active_jobs db) db s ss h
