-- ===== src/Web/SourceRoutes.antt =====
-- app/web/routes_sources.py: the pages of a user's sources. What `detect` and `report_unsupported` ask of
-- other sites is not here.
pub mod Laws
use Prim.Native.String
use career_spyder.Prelude.{
  ℕ, ℤ, ◌+◌, String, ◌==◌, Bool, true, false, not, Option, none, some, List, [], ◌∷◌, ◌++◌, map,
  filter, if◌then◌else◌, nonempty, opt_eq, text_or, length, ltb,
}
use career_spyder.Result.{
  Result, ok, err, Error, key_error, runtime_error, unsafe_url, request_failed, other_error,
}
use career_spyder.Html.{cat, str}
use career_spyder.Models.{Job}
use career_spyder.Config.{Source, type_name}
use career_spyder.Database.{Database, UserRow}
use career_spyder.Digest.{safe_url_scheme}
use career_spyder.Sort.{sort, page}
use career_spyder.Sources.{distinct}
use career_spyder.Sources
use career_spyder.Runs.{source_last_run_status}
use career_spyder.Pagination.{Pagination, paginate}
use career_spyder.Accounts.Session.{Session}
use career_spyder.Web.{
  Form, Value, label, source_of, echo, previews, flashed, failure, json, Response, Site, Reply,
  answer, Host,
}
use career_spyder.Web
use career_spyder.Web.Guard.{as_user}
use career_spyder.Web.QueryParams.{Pairs, remove_filter_url}
use career_spyder.Web.SourceForm.{Draft, Validated, valid, invalid, source_from_form, echo_source}

-- The database's order of names, the order of Python's texts, `str.lower`, and `urlencode`.
pub record Orders : Type 0 where
  pub name_le : String → String → Bool
  pub text_le : String → String → Bool
  pub lower : String → String
  pub urlencode : Pairs → String

pub record Chip : Type 0 where
  pub name : String
  pub remove_url : String

pub record SourcesView : Type 0 where
  pub sources : List Source
  pub pagination : Pagination
  pub available_types : List String
  pub active_filters : List Chip
  pub health : List (String × String)

abbrev sort_key : String → Source → Option String
sort_key sort_by s =
    if sort_by == "name"
    then some s.name
    else if sort_by == "type"
    then some (type_name s.kind)
    else if sort_by == "company"
    then some (text_or s.company "")
    else none

abbrev key_le : (String → String → Bool) → (String → String) → Option String → Option String → Bool
key_le le lower (some a) (some b) = le (lower a) (lower b)
key_le le lower (some a) none = true
key_le le lower none b = true

-- `sorted(sources, key=..., reverse=...)`: equal keys keep their order both ways.
unfoldable pub source_order : Orders → (sort_by direction : String) → Source → Source → Bool
source_order o sort_by direction a b =
    if direction == "desc"
    then key_le o.text_le o.lower (sort_key sort_by b) (sort_key sort_by a)
    else key_le o.text_le o.lower (sort_key sort_by a) (sort_key sort_by b)

unfoldable pub shown_sources : (source_type enabled : String) → List Source → List Source
shown_sources source_type enabled all_sources =
    let typed =
      if nonempty source_type
      then filter (λ (s : Source). type_name s.kind == source_type) all_sources
      else all_sources in
    if enabled == "true"
    then filter (λ (s : Source). s.enabled) typed
    else if enabled == "false"
    then filter (λ (s : Source). not s.enabled) typed
    else typed

abbrev chip : Orders → Pairs → Bool → (name key : String) → List Chip
chip o pairs false name key = []
chip o pairs true name key =
    record { name = name; remove_url = remove_filter_url o.urlencode pairs "/sources" (key ∷ []) }
    ∷ []

unfoldable pub list_sources :
    Orders
    → (page_number : Option ℤ) → (sort_by direction source_type enabled : String) → Pairs
    → UserRow
    → Database
    → SourcesView
unfolding source_order shown_sources
list_sources o page_number sort_by direction source_type enabled pairs current db =
    let all_sources = Sources.list_sources o.name_le current.id db in
    let shown = shown_sources source_type enabled all_sources in
    let pagination = paginate (length shown) page_number 25 in
    record {
      sources = page 25 pagination.offset (sort (source_order o sort_by direction) shown);
      pagination = pagination;
      available_types =
          sort o.text_le (distinct (map (λ (s : Source). type_name s.kind) all_sources));
      active_filters =
          chip o pairs (nonempty source_type) (cat ("Type: " ∷ source_type ∷ [])) "type"
          ++ chip o pairs (nonempty enabled)
              (if enabled == "true" then "Status: Enabled only" else "Status: Disabled only")
              "enabled";
      health = source_last_run_status (map (λ (s : Source). s.name) all_sources) current.id db;
    }

-- After the choice has been read.
unfoldable pub toggle_sources :
    ℕ → (ids : List String) → (enabled : Bool) → (verb : String) → UserRow → Site → Session → Reply
toggle_sources now ids enabled verb current site session =
    if ltb 200 (length ids)
    then answer site session (failure 400 "Too many sources selected (max 200).")
    else (let done = Sources.bulk_set_enabled now current.id ids enabled site.db in
        answer (record site { db = done.0 }) session
          (flashed "/sources" (cat (verb ∷ " " ∷ str done.1 ∷ " source(s)." ∷ []))))

-- `ids` are the texts of `form.getlist("ids")`.
unfoldable pub bulk_toggle_sources :
    ℕ → (ids : List String) → (raw_enabled : Option String) → UserRow → Site → Session → Reply
unfolding toggle_sources
bulk_toggle_sources now ids raw_enabled current site session =
    if opt_eq raw_enabled (some "true")
    then toggle_sources now ids true "Enabled" current site session
    else if opt_eq raw_enabled (some "false")
    then toggle_sources now ids false "Disabled" current site session
    else answer site session (failure 400 "Choose enable or disable")

abbrev error_response : Error → Response
error_response (key_error key) = failure 404 "Source not found"
error_response runtime_error = failure 500 "Internal Server Error"
error_response unsafe_url = failure 500 "Internal Server Error"
error_response request_failed = failure 500 "Internal Server Error"
error_response other_error = failure 500 "Internal Server Error"

-- An edit whose `KeyError` is a 404.
unfoldable pub edited : Site → Session → Response → Result Database → Reply
edited site session response (ok db) = answer (record site { db = db }) session response
edited site session response (err error) = answer site session (error_response error)

unfoldable pub delete_source : (source_id : String) → UserRow → Site → Session → Reply
unfolding edited
delete_source source_id current site session =
    edited site session (flashed "/sources" "Source deleted.")
      (Sources.delete_source current.id source_id site.db)

unfoldable pub source_page : (status : ℕ) → Form → (action message : String) → Response
source_page status form action message =
    Web.page "source_form.html" status (
      ("source", echo (echo_source form))
      ∷ ("action", label action)
      ∷ ("error", label message)
      ∷ [])

-- What a submitted source leads to: `store` writes one that is good. A missing field or an unknown type
-- raises.
unfoldable pub submitted :
    Form → (action : String) → (store : Source → Reply) → Result Validated → Site → Session → Reply
unfolding source_page
submitted form action store (err e) site session =
    answer site session (failure 500 "Internal Server Error")
submitted form action store (ok (invalid message)) site session =
    answer site session (source_page 400 form action message)
submitted form action store (ok (valid source)) site session = store source

-- `form.pop("id", None)`
abbrev pub without_id : Form → Form
without_id form key = if key == "id" then none else form key

unfoldable pub added : Site → Session → Result Database → Reply
added site session (ok db) =
    answer (record site { db = db }) session (flashed "/sources" "Source added.")
added site session (err e) = answer site session (failure 500 "Internal Server Error")

unfoldable pub create_source :
    ℕ → (validate : String → Draft → Validated) → Form → UserRow → Site → Session → Reply
unfolding submitted source_from_form added
create_source now validate form current site session =
    let own = without_id form in
    submitted own "/sources/new"
      (λ source. added site session (Sources.add_source now current.id source site.db))
      (source_from_form validate own) site session

unfoldable pub edit_source_form : (source_id : String) → UserRow → Site → Session → Reply
edit_source_form source_id current site session =
    elim (Sources.get_source current.id source_id site.db) [
      | none ↦ answer site session (failure 404 "Source not found")
      | some source ↦ answer site session (
          Web.page "source_form.html" 200 (
            ("source", source_of (some source))
            ∷ ("action", label (cat ("/sources/" ∷ source_id ∷ "/edit" ∷ [])))
            ∷ []))
    ]

unfoldable pub update_source :
    ℕ
    → (validate : String → Draft → Validated) → (source_id : String) → Form
    → UserRow
    → Site
    → Session
    → Reply
unfolding submitted source_from_form edited
update_source now validate source_id form current site session =
    submitted form (cat ("/sources/" ∷ source_id ∷ "/edit" ∷ []))
      (λ source.
        edited site session (flashed "/sources" "Source saved.") (
          Sources.update_source now current.id source_id (record source { id = source_id })
            site.db))
      (source_from_form validate form) site session

abbrev preview_error : String → Response
preview_error message = json (("error", label message) ∷ [])

-- `fetch` is the adapter of the source's type.
unfoldable pub preview : (scheme : String → Option String) → Result (List Job) → Response
preview scheme (err e) = elim e [
  | unsafe_url ↦
      preview_error "That URL points to a private or internal network address, which isn't allowed."
  | key_error key ↦
      preview_error "Could not fetch this source — check the URL and settings, then try again."
  | runtime_error ↦
      preview_error "Could not fetch this source — check the URL and settings, then try again."
  | request_failed ↦
      preview_error "Could not fetch this source — check the URL and settings, then try again."
  | other_error ↦
      preview_error "Could not fetch this source — check the URL and settings, then try again."
]
preview scheme (ok jobs) =
    json (("jobs", previews (map (λ (j : Job). (j.title, safe_url_scheme scheme j.url)) jobs)) ∷ [])

unfoldable pub test_source_preview :
    (scheme : String → Option String)
    → (fetch : Source → Result (List Job)) → Result Validated
    → Response
unfolding preview
test_source_preview scheme fetch (err e) = failure 500 "Internal Server Error"
test_source_preview scheme fetch (ok (invalid message)) = preview_error message
test_source_preview scheme fetch (ok (valid source)) = preview scheme (fetch source)

-- The routes that write.
pub data SourceRequest : Type 0 where
  toggle_post : (ids : List String) → (raw_enabled : Option String) → SourceRequest
  delete_post : (source_id : String) → SourceRequest
  new_post : Form → SourceRequest
  edit_post : (source_id : String) → Form → SourceRequest

unfoldable pub serve_sources :
    ℕ → (validate : String → Draft → Validated) → SourceRequest → UserRow → Site → Session → Reply
unfolding bulk_toggle_sources delete_source create_source update_source
serve_sources now validate (toggle_post ids raw_enabled) = bulk_toggle_sources now ids raw_enabled
serve_sources now validate (delete_post source_id) = delete_source source_id
serve_sources now validate (new_post form) = create_source now validate form
serve_sources now validate (edit_post source_id form) = update_source now validate source_id form

unfoldable pub sources_route :
    Host → ℕ → (validate : String → Draft → Validated) → SourceRequest → Site → Session → Reply
unfolding as_user serve_sources
sources_route host now validate request = as_user host (serve_sources now validate request)
