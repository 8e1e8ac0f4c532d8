-- ===== src/Sources/Laws.antt =====
-- An import and a change of one's own sources leave those of others alone.
use career_spyder.Prelude.{
  ℕ, ◌≡◌, ◌≢◌, refl, ap, sym, ◌∙◌, String, ◌==◌, Bool, true, false, ◌&&◌, Option, none, some, List,
  [], ◌∷◌, arith, eq_iff, eq_refl, find, filter, map_option, Bool-cases, inl, inr, if◌then◌else◌,
  any, elem, filter-append,
}
use mathlib.Core.List.{append-nil}
use career_spyder.Config.{Source}
use career_spyder.Result.{ok}
use career_spyder.Database.{Database, SourceRow}
use career_spyder.Table.{update_where, delete_where, count_where}
use career_spyder.Table.Laws.{find-update_where, find-delete_where, find-delete_where_ne}
use career_spyder.Sources.{
  source_key, get_source, delete_source, bulk_set_enabled, upsert_source, import_rows,
  import_sources,
}

-- The sources of one user, as rows.
abbrev pub rows_of : String → List SourceRow → List SourceRow
rows_of v rows = filter (λ (r : SourceRow). r.user_id == v) rows

module _ (u v : String) (ne : u ≢ v) where
  pub not_mine : (w : String) → (w == u) ≡ true → (w == v) ≡ false
  not_mine w e = elim (Bool-cases (w == v)) [
    | inl same ↦ absurd (ne (sym ((eq_iff w u).0 e) ∙ (eq_iff w v).0 same))
    | inr other ↦ other
  ]

  pub rows_of-update_where :
      (p : SourceRow → Bool) (f : SourceRow → SourceRow) (rows : List SourceRow)
      → ((r : SourceRow) → p r ≡ true → (r.user_id == u) ≡ true)
      → ((r : SourceRow) → (f r).user_id ≡ r.user_id)
      → rows_of v (update_where p f rows) ≡ rows_of v rows
  unfolding update_where
  rows_of-update_where p f [] hp hf = refl
  rows_of-update_where p f (r ∷ rows) hp hf = elim (Bool-cases (p r)) [
    | inl e ↦ rw e (rw (hf r, not_mine r.user_id (hp r e)) (rows_of-update_where p f rows hp hf))
    | inr e ↦
        rw e (ap (λ t. if r.user_id == v then r ∷ t else t) (rows_of-update_where p f rows hp hf))
  ]

  rows_of-upsert_source :
      (now : ℕ) (source : Source) (rows : List SourceRow)
      → rows_of v (upsert_source now u source rows).0 ≡ rows_of v rows
  unfolding upsert_source
  rows_of-upsert_source now source rows =
      elim (Bool-cases (any (λ (r : SourceRow). r.id == source.id) rows)) [
        | inl e ↦ rw e (rows_of-update_where _ _ rows (λ r h. ground arith) (λ r. refl))
        | inr e ↦ rw e (
            filter-append (λ (r : SourceRow). r.user_id == v) rows _
            ∙ rw (not_mine u (eq_refl u)) (append-nil _))
      ]

  rows_of-import_rows :
      (now : ℕ) (sources : List (Source × String)) (rows : List SourceRow)
      → rows_of v (import_rows now u sources rows).0 ≡ rows_of v rows
  unfolding import_rows
  rows_of-import_rows now [] rows = refl
  rows_of-import_rows now ((source, drawn) ∷ rest) rows =
      rows_of-import_rows now rest _ ∙ rows_of-upsert_source now _ rows

-- An import never changes, adds or removes a source of another user, whatever ids the file holds
-- and whatever ids are drawn.
pub rows_of-import_sources :
    (now : ℕ) (u v : String) (sources : List (Source × String)) (db : Database)
    → u ≢ v
    → rows_of v (import_sources now u sources db).0.sources ≡ rows_of v db.sources
unfolding import_sources
rows_of-import_sources now u v sources db ne = rows_of-import_rows u v ne now sources db.sources

find_own {ℓ} : {R : Type ℓ} (p : R → Bool) (rs : List R) (r : R) → find p rs ≡ some r → p r ≡ true
find_own p [] r h = cc
find_own p (x ∷ rs) r h = ground (arith, find_own p rs r)

no_ids-count :
    (u : String) (rows : List SourceRow)
    → count_where (λ (r : SourceRow). r.user_id == u && false) rows ≡ 0
unfolding count_where
no_ids-count u [] = refl
no_ids-count u (r ∷ rows) = ground (arith, no_ids-count u rows)

enable_row :
    (now : ℕ) (u v i : String) (ids : List String) (enabled : Bool) (db : Database)
    (o : Option SourceRow)
    → find (source_key v i) db.sources ≡ o
    → map_option
        (λ (r : SourceRow). r.config)
        (map_option
          (λ (r : SourceRow).
            if r.user_id == u && elem r.id ids
            then record r { config = record (r.config) { enabled = enabled }; updated_at = now }
            else r)
          o)
      ≡ map_option
          (λ (s : Source). if v == u && elem i ids then record s { enabled = enabled } else s)
          (map_option (λ (r : SourceRow). r.config) o)
enable_row now u v i ids enabled db none h = refl
enable_row now u v i ids enabled db (some r) h =
    let own = find_own (source_key v i) db.sources r h in
    let id_is : r.id ≡ i = (eq_iff r.id i).0 (ground arith) in
    let user_is : r.user_id ≡ v = (eq_iff r.user_id v).0 (ground arith) in
    elim (Bool-cases (v == u && elem i ids)) [
      | inl e ↦ rw e (rw (user_is, id_is, e))
      | inr e ↦ rw e (rw (user_is, id_is, e))
    ]

get_source-eq-map :
    (v i : String) (db : Database)
    → get_source v i db
      ≡ map_option (λ (r : SourceRow). r.config) (find (source_key v i) db.sources)
unfolding get_source
get_source-eq-map v i db = ground arith

-- Disabling or enabling a selection writes that flag of the user's chosen sources, nothing else of
-- any source, and returns their number.
pub bulk_set_enabled_lem :
    (now : ℕ) (u v i : String) (ids : List String) (enabled : Bool) (db : Database)
    → (get_source v i (bulk_set_enabled now u ids enabled db).0
        ≡ map_option
            (λ (s : Source). if v == u && elem i ids then record s { enabled = enabled } else s)
            (get_source v i db))
      × ((bulk_set_enabled now u ids enabled db).1
          ≡ count_where (λ (r : SourceRow). r.user_id == u && elem r.id ids) db.sources)
unfolding bulk_set_enabled
bulk_set_enabled_lem now u v i [] enabled db = (ground arith, sym (no_ids-count u db.sources))
bulk_set_enabled_lem now u v i (k ∷ ids) enabled db = (
  get_source-eq-map v i _
      ∙ ap (map_option (λ (r : SourceRow). r.config))
          (find-update_where (source_key v i) _ _ db.sources (λ r. refl))
      ∙ (enable_row now u v i (k ∷ ids) enabled db _ refl ∙ rw (get_source-eq-map v i db)),
  refl,
)

delete_source-eq-ok :
    (u i : String) (db db' : Database)
    → delete_source u i db ≡ ok db'
    → db' ≡ record db { sources = delete_where (source_key u i) db.sources }
unfolding delete_source
delete_source-eq-ok u i db db' h = ground arith

-- After a deletion that succeeds the source cannot be found, and every other one is as before.
pub get_source-delete_source :
    (u v i j : String) (db db' : Database)
    → delete_source u i db ≡ ok db'
    → get_source v j db' ≡ (if i == j && u == v then none else get_source v j db)
get_source-delete_source u v i j db db' h = rw (delete_source-eq-ok u i db db' h) (
    get_source-eq-map v j _ ∙ elim (Bool-cases (i == j && u == v)) [
      | inl e ↦
          let ids : i ≡ j = (eq_iff i j).0 (ground arith) in
          let users : u ≡ v = (eq_iff u v).0 (ground arith) in
          rw e (
            rw (
              find-delete_where (source_key v j) (source_key u i) db.sources
                (λ r k. rw (ids, users) k)))
      | inr e ↦ rw e (
          rw
            (find-delete_where_ne (source_key v j) (source_key u i) db.sources (λ r k. ground (
              arith,
              eq_iff r.id i,
              eq_iff r.id j,
              eq_iff r.user_id u,
              eq_iff r.user_id v,
              eq_iff i j,
              eq_iff u v,
            )))
            (sym (get_source-eq-map v j db)))
    ])
