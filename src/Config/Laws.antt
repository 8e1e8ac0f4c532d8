-- ===== src/Config/Laws.antt =====
-- The sources file and the import preview.
use career_spyder.Prelude.{
  ◌≡◌, refl, sym, ◌∙◌, String, ◌==◌, Bool, false, not, Option, none, some, List, [], ◌∷◌, ◌++◌,
  arith, eq_iff, filter, find, if◌then◌else◌, is_none, Bool-cases, inl, inr, map,
}
use mathlib.Core.List.{append-nil, append_assoc, map-append}
use career_spyder.Result.{ok, err, key_error}
use career_spyder.Config.{
  Source, SourcesFile, ImportDiff, last_by_id, dump_eq, classify, diff_from, diff_import,
  load_sources, delete_source, get_source,
}

-- What an import would do with a source, by the current source with its id.
abbrev pub is_added : List Source → Source → Bool
is_added existing s = is_none (last_by_id s.id existing)

abbrev same_as : Option Source → Source → Bool
same_as none s = false
same_as (some old) s = dump_eq old s

abbrev pub is_unchanged : List Source → Source → Bool
is_unchanged existing s = same_as (last_by_id s.id existing) s

abbrev differs_from : Option Source → Source → Bool
differs_from none s = false
differs_from (some old) s = not (dump_eq old s)

abbrev pub is_updated : List Source → Source → Bool
is_updated existing s = differs_from (last_by_id s.id existing) s

abbrev pub new_side : List (Source × Source) → List Source
new_side = map (λ (p : Source × Source). p.1)

-- The three lists after the new sources `new`, from those before.
abbrev Extends : List Source → ImportDiff → List Source → ImportDiff → Type 0
Extends existing d new d' =
    (d'.added ≡ d.added ++ filter (is_added existing) new)
    × (new_side d'.updated ≡ new_side d.updated ++ filter (is_updated existing) new)
    × (d'.unchanged ≡ d.unchanged ++ filter (is_unchanged existing) new)

cons_append {ℓ} :
    {A : Type ℓ} (xs : List A) (x : A) (ys : List A) → (xs ++ x ∷ []) ++ ys ≡ xs ++ x ∷ ys
cons_append xs x ys = rw append_assoc

classify-Extends :
    (existing : List Source) (source : Source) (new : List Source) (d d' : ImportDiff)
    (o : Option Source)
    → last_by_id source.id existing ≡ o
    → Extends existing (classify o source d) new d'
    → Extends existing d (source ∷ new) d'
unfolding classify
classify-Extends existing source new d d' none e h =
    (h.0 ∙ rw e (cons_append d.added source _), h.1 ∙ rw e, h.2 ∙ rw e)
classify-Extends existing source new d d' (some old) e h = elim (Bool-cases (dump_eq old source)) [
  | inl q ↦ (
    rw (q, classify) at h.0 ∙ rw e,
    rw (q, classify) at h.1 ∙ rw (e, q),
    rw (q, classify) at h.2 ∙ rw (e, q) (cons_append d.unchanged source _),
  )
  | inr q ↦ (
    rw (q, classify) at h.0 ∙ rw e,
    rw (q, classify) at h.1
        ∙ rw (map-append) (rw (e, q) (cons_append (new_side d.updated) source _)),
    rw (q, classify) at h.2 ∙ rw (e, q),
  )
]

diff_from-Extends :
    (existing : List Source) (new : List Source) (d : ImportDiff)
    → Extends existing d new (diff_from existing d new)
unfolding diff_from
diff_from-Extends existing [] d =
    (sym (append-nil d.added), sym (append-nil (new_side d.updated)), sym (append-nil d.unchanged))
diff_from-Extends existing (source ∷ new) d =
    classify-Extends existing source new d _ (last_by_id source.id existing) refl
      (diff_from-Extends existing new _)

-- The preview of an import sorts every source of the file, in the file's order, into exactly one
-- list by the current source with its id: added where there is none, unchanged where its dump is
-- equal, updated otherwise.
pub diff_import_lem :
    (existing new : List Source)
    → ((diff_import existing new).added ≡ filter (is_added existing) new)
      × (new_side (diff_import existing new).updated ≡ filter (is_updated existing) new)
      × ((diff_import existing new).unchanged ≡ filter (is_unchanged existing) new)
unfolding diff_import
diff_import_lem existing new = diff_from-Extends existing new _

find-filter-not :
    (i j : String) (sources : List Source)
    → find (λ (s : Source). s.id == j) (filter (λ (s : Source). not (s.id == i)) sources)
      ≡ (if i == j then none else find (λ (s : Source). s.id == j) sources)
find-filter-not i j [] = ground arith
find-filter-not i j (s ∷ sources) =
    ground (arith, find-filter-not i j sources, eq_iff s.id i, eq_iff s.id j, eq_iff i j)

delete_result :
    (i : String) (file f' : SourcesFile)
    → delete_source i file ≡ ok f'
    → load_sources f' ≡ filter (λ (s : Source). not (s.id == i)) (load_sources file)
unfolding delete_source
delete_result i file f' h = ground arith

-- A source deleted from the file cannot be read any more, and every other one reads as before.
pub get_source-delete_source_file :
    (i j : String) (file f' : SourcesFile)
    → delete_source i file ≡ ok f'
    → get_source j f' ≡ (if i == j then err (key_error j) else get_source j file)
unfolding get_source
get_source-delete_source_file i j file f' h =
    rw (delete_result i file f' h, get_source)
      (rw (find-filter-not i j (load_sources file)) (ground arith))
