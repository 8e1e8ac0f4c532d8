-- ===== src/Web/SourceRoutes/Laws.antt =====
-- The pages of sources change only the sources of the user who asked (app/web/routes_sources.py).
use career_spyder.Prelude.{
  ℕ, String, ◌==◌, ◌≡◌, ◌≢◌, refl, ap, opt_eq, ◌++◌, ◌∙◌, Bool, true, false, Option, some, List, [],
  ◌∷◌, Option-cases, Bool-cases, inl, inr, arith, eq_refl, filter-append, if◌then◌else◌, length,
  ltb,
}
use mathlib.Core.List.{append-nil}
use career_spyder.Result.{Result, ok, err}
use career_spyder.Config.{Source}
use career_spyder.Database.{Database, UserRow, SourceRow}
use career_spyder.Sources
use career_spyder.Table.{update_where, delete_where}
use career_spyder.Sources.{source_row, write_source, source_key}
use career_spyder.Sources.Laws.{rows_of, not_mine, rows_of-update_where}
use career_spyder.Accounts.Session.{Session, load_session_user, require_user}
use career_spyder.Web.{Form, Response, Site, Reply, Host}
use career_spyder.Web.Guard.{as_user, guarded}
use career_spyder.Web.SourceForm.{Draft, Validated, valid, invalid}
use career_spyder.Web.SourceRoutes.{
  edited, added, submitted, bulk_toggle_sources, toggle_sources, delete_source, create_source,
  update_source, SourceRequest, toggle_post, delete_post, new_post, edit_post, serve_sources,
  sources_route,
}

-- The sources of `v` are as they were.
abbrev pub IsKeptFor : String → Database → Database → Type 0
IsKeptFor v old new = rows_of v new.sources ≡ rows_of v old.sources

add_source-eq-ok :
    (now : ℕ) (u : String) (source : Source) (db new : Database)
    → Sources.add_source now u source db ≡ ok new
    → new.sources ≡ db.sources ++ source_row now u source ∷ []
unfolding Sources.add_source
add_source-eq-ok now u source db new h = ground arith

update_source-eq-ok :
    (now : ℕ) (u source_id : String) (source : Source) (db new : Database)
    → Sources.update_source now u source_id source db ≡ ok new
    → new.sources ≡ update_where (source_key u source_id) (write_source now source) db.sources
unfolding Sources.update_source
update_source-eq-ok now u source_id source db new h = ground arith

delete_source-eq-ok :
    (u source_id : String) (db new : Database)
    → Sources.delete_source u source_id db ≡ ok new
    → new.sources ≡ delete_where (source_key u source_id) db.sources
unfolding Sources.delete_source
delete_source-eq-ok u source_id db new h = ground arith

module _ (u v : String) (ne : u ≢ v) (db : Database) where
  add_source-IsKeptFor :
      (now : ℕ) (source : Source) (new : Database)
      → Sources.add_source now u source db ≡ ok new
      → IsKeptFor v db new
  add_source-IsKeptFor now source new h = rw (add_source-eq-ok now u source db new h) (
      filter-append (λ (r : SourceRow). r.user_id == v) db.sources _
      ∙ rw (not_mine u v ne u (eq_refl u)) (append-nil _))

  update_source-IsKeptFor :
      (now : ℕ) (source_id : String) (source : Source) (new : Database)
      → Sources.update_source now u source_id source db ≡ ok new
      → IsKeptFor v db new
  update_source-IsKeptFor now source_id source new h =
      rw (update_source-eq-ok now u source_id source db new h)
        (rows_of-update_where u v ne _ _ db.sources (λ r e. ground arith) (λ r. refl))

  rows_of-delete_where :
      (source_id : String) (rows : List SourceRow)
      → rows_of v (delete_where (source_key u source_id) rows) ≡ rows_of v rows
  unfolding delete_where
  rows_of-delete_where source_id [] = refl
  rows_of-delete_where source_id (r ∷ rows) = elim (Bool-cases (source_key u source_id r)) [
    | inl e ↦
        rw e
          (rw (not_mine u v ne r.user_id (ground (arith, e))) (rows_of-delete_where source_id rows))
    | inr e ↦
        rw e (ap (λ t. if r.user_id == v then r ∷ t else t) (rows_of-delete_where source_id rows))
  ]

  delete_source-IsKeptFor :
      (source_id : String) (new : Database)
      → Sources.delete_source u source_id db ≡ ok new
      → IsKeptFor v db new
  delete_source-IsKeptFor source_id new h =
      rw (delete_source-eq-ok u source_id db new h) (rows_of-delete_where source_id db.sources)

  bulk-IsKeptFor :
      (now : ℕ) (ids : List String) (enabled : Bool)
      → IsKeptFor v db (Sources.bulk_set_enabled now u ids enabled db).0
  unfolding Sources.bulk_set_enabled
  bulk-IsKeptFor now [] enabled = refl
  bulk-IsKeptFor now (first ∷ others) enabled =
      rows_of-update_where u v ne _ _ db.sources (λ r e. ground arith) (λ r. refl)

module _ (v : String) (current : UserRow) (ne : current.id ≢ v) (site : Site)
    (session : Session) where
  edited-IsKeptFor :
      (response : Response) (r : Result Database)
      → ((new : Database) → r ≡ ok new → IsKeptFor v site.db new)
      → IsKeptFor v site.db (edited site session response r).site.db
  unfolding edited
  edited-IsKeptFor response (ok new) kept = kept new refl
  edited-IsKeptFor response (err e) kept = refl

  added-IsKeptFor :
      (r : Result Database)
      → ((new : Database) → r ≡ ok new → IsKeptFor v site.db new)
      → IsKeptFor v site.db (added site session r).site.db
  unfolding added
  added-IsKeptFor (ok new) kept = kept new refl
  added-IsKeptFor (err e) kept = refl

  submitted-IsKeptFor :
      (form : Form) (action : String) (store : Source → Reply) (draft : Result Validated)
      → ((source : Source) → IsKeptFor v site.db (store source).site.db)
      → IsKeptFor v site.db (submitted form action store draft site session).site.db
  unfolding submitted
  submitted-IsKeptFor form action store (err e) kept = refl
  submitted-IsKeptFor form action store (ok (invalid message)) kept = refl
  submitted-IsKeptFor form action store (ok (valid source)) kept = kept source

  toggle_all-IsKeptFor :
      (now : ℕ) (ids : List String) (enabled : Bool) (verb : String)
      → IsKeptFor v site.db (toggle_sources now ids enabled verb current site session).site.db
  unfolding toggle_sources
  toggle_all-IsKeptFor now ids enabled verb = elim (Bool-cases (ltb 200 (length ids))) [
    | inl e ↦ rw e refl
    | inr e ↦ rw e (bulk-IsKeptFor current.id v ne site.db now ids enabled)
  ]

  toggled-IsKeptFor :
      (now : ℕ) (ids : List String) (raw_enabled : Option String)
      → IsKeptFor v site.db (bulk_toggle_sources now ids raw_enabled current site session).site.db
  unfolding bulk_toggle_sources
  toggled-IsKeptFor now ids raw_enabled = elim (Bool-cases (opt_eq raw_enabled (some "true"))) [
    | inl e ↦ rw e (toggle_all-IsKeptFor now ids true "Enabled")
    | inr e ↦ rw e (elim (Bool-cases (opt_eq raw_enabled (some "false"))) [
      | inl f ↦ rw f (toggle_all-IsKeptFor now ids false "Disabled")
      | inr f ↦ rw f refl
    ])
  ]

  served-IsKeptFor :
      (now : ℕ) (validate : String → Draft → Validated) (request : SourceRequest)
      → IsKeptFor v site.db (serve_sources now validate request current site session).site.db
  unfolding serve_sources delete_source create_source update_source
  served-IsKeptFor now validate (toggle_post ids raw_enabled) =
      toggled-IsKeptFor now ids raw_enabled
  served-IsKeptFor now validate (delete_post source_id) =
      edited-IsKeptFor _ _ (delete_source-IsKeptFor current.id v ne site.db source_id)
  served-IsKeptFor now validate (new_post form) =
      submitted-IsKeptFor _ _ _ _
        (λ source. added-IsKeptFor _ (add_source-IsKeptFor current.id v ne site.db now source))
  served-IsKeptFor now validate (edit_post source_id form) = submitted-IsKeptFor _ _ _ _ (λ source.
      edited-IsKeptFor _ _ (
        update_source-IsKeptFor current.id v ne site.db now source_id
          (record source { id = source_id })))

-- A request to a page of sources leaves a user's sources as they are, unless its session is that user's:
-- whatever ids the address and the form name, and whatever the models make of the form.
pub sources_route-IsKeptFor :
    (host : Host) (now : ℕ) (validate : String → Draft → Validated) (request : SourceRequest)
    (site : Site) (session : Session) (v : String)
    → ((user : UserRow)
        → (load_session_user host.crypto session site.db).0 ≡ some user
        → user.id ≢ v)
    → IsKeptFor v site.db (sources_route host now validate request site session).site.db
unfolding sources_route as_user guarded require_user
sources_route-IsKeptFor host now validate request site session v whose =
    elim (Option-cases (load_session_user host.crypto session site.db).0) [
      | inl e ↦ rw e refl
      | inr (user, e) ↦ rw e (served-IsKeptFor v user (whose user e) site _ now validate request)
    ]
