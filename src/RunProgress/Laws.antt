-- ===== src/RunProgress/Laws.antt =====
-- What a user sees of the progress of runs.
use career_spyder.Prelude.{
  ℕ, ◌≡◌, ◌∙◌, refl, String, ◌==◌, none, some, if◌then◌else◌, arith, eq_iff, eq_refl, List, [], ◌∷◌,
}
use career_spyder.RunProgress.{Entry, Progress, start, update, finish, get}

-- The updates of one run, each with the source's name and the number of sources done before it.
abbrev pub updates : String → List (String × ℕ) → Progress → Progress
updates user_id [] p = p
updates user_id ((name, done) ∷ rest) p = updates user_id rest (update user_id name done p)

-- What the last of the updates leaves of an entry.
abbrev pub shown : List (String × ℕ) → Entry → Entry
shown [] entry = entry
shown ((name, done) ∷ rest) entry = shown rest (record entry { source = some name; done = done })

updates-some :
    (u v : String) (steps : List (String × ℕ)) (p : Progress) (entry : Entry)
    → p u ≡ some entry
    → updates u steps p v ≡ (if v == u then some (shown steps entry) else p v)
unfolding update
updates-some u v [] p entry h = ground (arith, eq_iff v u)
updates-some u v ((name, done) ∷ rest) p entry h =
    let here : update u name done p u ≡ some (record entry { source = some name; done = done }) =
      rw (eq_refl u, h) refl in
    updates-some u v rest (update u name done p) _ here ∙ ground arith

-- A user who looks during a run sees the count of its sources with the last update made, whatever
-- was there before the start; after the end there is nothing to see, and at no time does the run
-- change what is shown to another user.
pub get-finish-updates-start :
    (u v : String) (total : ℕ) (steps : List (String × ℕ)) (p : Progress)
    → (get v (updates u steps (start u total p)) ≡ (
        if v == u
        then some (shown steps (record { source = none; done = 0; total = total }))
        else get v p))
      × (get v (finish u (updates u steps (start u total p))) ≡ (if v == u then none else get v p))
unfolding get start finish
get-finish-updates-start u v total steps p =
    let begun : start u total p u ≡ some (record { source = none; done = 0; total = total }) =
      rw (eq_refl u) refl in
    let seen = updates-some u v steps (start u total p) _ begun in
    (ground (arith, seen), ground (arith, seen))
