-- ===== src/Sources.antt =====
-- app/db.py, the `sources` table. `name_le` stands for the order of names that the database sorts
-- by. Ids that an import draws are arguments, one for each imported source.
pub mod Laws
use career_spyder.Prelude.{
  ℕ, zero, suc, ◌+◌, String, ◌==◌, Bool, true, false, not, ◌&&◌, Option, none, some, List, [], ◌∷◌,
  ◌++◌, map, any, filter, find, elem, is_none, if◌then◌else◌, nat_eq,
}
use career_spyder.Result.{Result, ok, err, key_error, other_error}
use career_spyder.Config.{Source, type_name}
use career_spyder.Database.{Database, SourceRow, JobRow}
use career_spyder.Table.{update_where, delete_where, count_where}
use career_spyder.Sort.{sort}

abbrev pub source_key : String → String → SourceRow → Bool
source_key user_id source_id r = r.id == source_id && r.user_id == user_id

module _ (name_le : String → String → Bool) where
  unfoldable pub list_sources : String → Database → List Source
  list_sources user_id db =
      map (λ (r : SourceRow). r.config)
        (sort (λ (a b : SourceRow). name_le a.name b.name)
          (filter (λ (r : SourceRow). r.user_id == user_id) db.sources))

  -- `result.setdefault(user_id, []).append(source)`
  unfoldable pub append_to :
      String → Source → List (String × List Source) → List (String × List Source)
  append_to user_id source [] = (user_id, source ∷ []) ∷ []
  append_to user_id source ((u, sources) ∷ rest) =
      if u == user_id
      then (u, sources ++ source ∷ []) ∷ rest
      else (u, sources) ∷ append_to user_id source rest

  unfoldable pub group_by_user :
      List (String × List Source) → List SourceRow → List (String × List Source)
  unfolding append_to
  group_by_user result [] = result
  group_by_user result (r ∷ rows) = group_by_user (append_to r.user_id r.config result) rows

  -- `ORDER BY user_id, name`
  unfoldable pub list_all_sources_by_user : Database → List (String × List Source)
  unfolding group_by_user
  list_all_sources_by_user db = group_by_user [] (
      sort
        (λ (a b : SourceRow).
          if a.user_id == b.user_id then name_le a.name b.name else name_le a.user_id b.user_id)
        db.sources)

abbrev add_once : String → List String → List String
add_once u us = if elem u us then us else u ∷ us

unfoldable pub distinct : List String → List String
distinct [] = []
distinct (u ∷ us) = add_once u (distinct us)

unfoldable pub list_users_with_active_jobs : Database → List String
unfolding distinct
list_users_with_active_jobs db =
    distinct
      (map (λ (r : JobRow). r.user_id) (filter (λ (r : JobRow). is_none r.removed_at) db.jobs))

unfoldable pub get_source : String → String → Database → Option Source
get_source user_id source_id db = elim (find (source_key user_id source_id) db.sources) [
  | none ↦ none
  | some r ↦ some r.config
]

abbrev pub source_row : ℕ → String → Source → SourceRow
source_row now user_id source = record {
  id = source.id;
  user_id = user_id;
  type = type_name source.kind;
  name = source.name;
  secondary = source.secondary;
  config = source;
  updated_at = now;
}

-- The id is the table's primary key, over all users.
unfoldable pub add_source : ℕ → String → Source → Database → Result Database
add_source now user_id source db =
    if any (λ (r : SourceRow). r.id == source.id) db.sources
    then err other_error
    else ok (record db { sources = db.sources ++ source_row now user_id source ∷ [] })

abbrev pub write_source : ℕ → Source → SourceRow → SourceRow
write_source now source r = record r {
  type = type_name source.kind;
  name = source.name;
  secondary = source.secondary;
  config = source;
  updated_at = now;
}

unfoldable pub update_source : ℕ → String → String → Source → Database → Result Database
update_source now user_id source_id source db =
    if nat_eq (count_where (source_key user_id source_id) db.sources) 0
    then err (key_error source_id)
    else ok (record db {
      sources = update_where (source_key user_id source_id) (write_source now source) db.sources;
    })

unfoldable pub delete_source : String → String → Database → Result Database
delete_source user_id source_id db =
    if nat_eq (count_where (source_key user_id source_id) db.sources) 0
    then err (key_error source_id)
    else ok (record db { sources = delete_where (source_key user_id source_id) db.sources })

unfoldable pub bulk_set_enabled : ℕ → String → List String → Bool → Database → Database × ℕ
bulk_set_enabled now user_id [] enabled db = (db, 0)
bulk_set_enabled now user_id (first ∷ others) enabled db =
    let chosen = λ (r : SourceRow). r.user_id == user_id && elem r.id (first ∷ others) in
    (
      record db {
        sources =
            update_where chosen
              (λ (r : SourceRow). record r {
                config = record (r.config) { enabled = enabled };
                updated_at = now;
              })
              db.sources;
      },
      count_where chosen db.sources,
    )

-- The id under which an imported source is stored: a drawn one where another user owns its own.
unfoldable pub import_id : String → Source → String → List SourceRow → String
import_id user_id source drawn rows = elim (find (λ (r : SourceRow). r.id == source.id) rows) [
  | none ↦ source.id
  | some r ↦ if r.user_id == user_id then source.id else drawn
]

-- `INSERT ... ON CONFLICT (id) DO UPDATE ... WHERE sources.user_id = excluded.user_id`, with the
-- rows that it counts.
unfoldable pub upsert_source : ℕ → String → Source → List SourceRow → List SourceRow × ℕ
upsert_source now user_id source rows =
    if any (λ (r : SourceRow). r.id == source.id) rows
    then (
      update_where (source_key user_id source.id) (write_source now source) rows,
      count_where (source_key user_id source.id) rows,
    )
    else (rows ++ source_row now user_id source ∷ [], 1)

unfoldable pub import_rows :
    ℕ → String → List (Source × String) → List SourceRow → List SourceRow × ℕ
unfolding import_id upsert_source
import_rows now user_id [] rows = (rows, 0)
import_rows now user_id ((source, drawn) ∷ rest) rows =
    let stored = record source { id = import_id user_id source drawn rows } in
    let one = upsert_source now user_id stored rows in
    let others = import_rows now user_id rest one.0 in (others.0, one.1 + others.1)

unfoldable pub import_sources : ℕ → String → List (Source × String) → Database → Database × ℕ
unfolding import_rows
import_sources now user_id sources db =
    let done = import_rows now user_id sources db.sources in
    (record db { sources = done.0 }, done.1)
