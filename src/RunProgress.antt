-- ===== src/RunProgress.antt =====
-- app/run_progress.py: the progress of each user's run, as a function from the user. `_lock`
-- makes each operation one step.
pub mod Laws
use career_spyder.Prelude.{ℕ, String, ◌==◌, Option, none, some, if◌then◌else◌}

pub record Entry : Type 0 where
  pub source : Option String
  pub done : ℕ
  pub total : ℕ

abbrev pub Progress : Type 0
Progress = String → Option Entry

unfoldable pub start : String → ℕ → Progress → Progress
start user_id total p u =
    if u == user_id then some (record { source = none; done = 0; total = total }) else p u

-- One key of `update`.
unfoldable pub advance : String → ℕ → Option Entry → Option Entry
advance source_name done none = none
advance source_name done (some entry) =
    some (record entry { source = some source_name; done = done })

unfoldable pub update : String → String → ℕ → Progress → Progress
unfolding advance
update user_id source_name done p u = if u == user_id then advance source_name done (p u) else p u

unfoldable pub finish : String → Progress → Progress
finish user_id p u = if u == user_id then none else p u

unfoldable pub get : String → Progress → Option Entry
get user_id p = p user_id
