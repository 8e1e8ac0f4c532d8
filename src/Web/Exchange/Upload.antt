-- ===== src/Web/Exchange/Upload.antt =====
-- app/web/routes_settings.py: the import of a file of sources and preferences.
use Prim.Native.String.{len}
use career_spyder.Prelude.{
  ℕ, String, Bool, not, ◌&&◌, Option, none, some, List, [], ◌∷◌, map, if◌then◌else◌, nonempty, ltb,
  length,
}
use career_spyder.Result.{ok, err}
use career_spyder.Html.{cat, str}
use career_spyder.Config.{Source, diff_import}
use career_spyder.Database.{UserRow}
use career_spyder.Accounts.{get_settings, save_preferences}
use career_spyder.Accounts.Session.{Session}
use career_spyder.Sources.{list_sources, import_sources}
use career_spyder.Web.{
  Value, label, count, sources_diff, changes, page, flashed, failure, Response, Site, Reply, answer,
}
use career_spyder.Web.Exchange.{
  Section, Parsed, parse_preferences_import, preference_diff, whole, truth,
}

-- What reading the file gives: it is not JSON, not in UTF-8, or refused by the model, or its sources,
-- each with the id that replaces one that somebody else's source has, its preferences and what
-- `json.dumps` writes of it.
pub data Loaded : Type 0 where
  not_json : (message : String) → Loaded
  not_unicode : Loaded
  invalid : (message : String) → Loaded
  loaded : List (Source × String) → Section → (dumped : String) → Loaded

-- The file, or what the confirmed form repeats of it.
pub record ImportRequest : Type 0 where
  pub force : Bool
  pub confirmed : Bool
  pub sources_json : String
  -- The name and the content of the uploaded file.
  pub upload : Option (String × String)

abbrev data_page : ℕ → List (String × Value) → Response
data_page status context = page "settings_data.html" status context

-- A truth value is refused by the integer column, as is a number beyond its range, after the sources have been committed.
unfoldable pub import_parsed : String → Option Parsed → (sources : ℕ) → Site → Session → Reply
import_parsed user_id none n site session =
    answer site session (flashed "/settings/data" (cat ("Imported " ∷ str n ∷ " source(s)." ∷ [])))
import_parsed user_id (some p) n site session = elim p.digest_max_per_company [
  | truth b ↦ answer site session (failure 500 "Internal Server Error")
  | whole most ↦
      elim (save_preferences user_id p.email_days p.resend_jobs p.email_to
        p.hide_not_interested_on_map most p.digest_exclude_statuses p.send_weekly_checkin site.db) [
          | err e ↦ answer site session (failure 500 "Internal Server Error")
          | ok db ↦
              answer (record site { db = db }) session
                (flashed "/settings/data"
                  (cat ("Imported " ∷ str n ∷ " source(s) and preferences." ∷ [])))
        ]
]

abbrev preview :
    (name_le : String → String → Bool)
    → List (Source × String)
    → Option Parsed
    → (dumped : String) → UserRow
    → Site
    → Session
    → Reply
preview name_le sources parsed dumped current site session =
    let diff = diff_import (list_sources name_le current.id site.db) (map (λ s. s.0) sources) in
    answer site session (
      data_page 200 (
        ("diff", sources_diff diff)
        ∷ ("pref_diff", changes (preference_diff (get_settings current.id site.db) parsed))
        ∷ ("sources_json", label dumped)
        ∷ ("added_count", count (length diff.added))
        ∷ ("updated_count", count (length diff.updated))
        ∷ ("unchanged_count", count (length diff.unchanged))
        ∷ []))

unfoldable pub import_loaded :
    (name_le : String → String → Bool)
    → ℕ
    → (previews : Bool) → Loaded
    → UserRow
    → Site
    → Session
    → Reply
unfolding import_parsed parse_preferences_import preference_diff
import_loaded name_le now previews (not_json message) current site session =
    answer site session
      (data_page 400 (("error", label (cat ("Import failed: " ∷ message ∷ []))) ∷ []))
import_loaded name_le now previews not_unicode current site session =
    answer site session (failure 500 "Internal Server Error")
import_loaded name_le now previews (invalid message) current site session =
    answer site session
      (data_page 400 (("error", label (cat ("Import failed: " ∷ message ∷ []))) ∷ []))
import_loaded name_le now previews (loaded sources section dumped) current site session =
    elim (parse_preferences_import section) [
      | err e ↦ answer site session (failure 500 "Internal Server Error")
      | ok parsed ↦
          if previews
          then preview name_le sources parsed dumped current site session
          else (let done = import_sources now current.id sources site.db in
              import_parsed current.id parsed done.1 (record site { db = done.0 }) session)
    ]

abbrev raw_of : ImportRequest → Option String
raw_of request = if request.confirmed then some request.sources_json else (elim request.upload [
  | none ↦ none
  | some (filename, content) ↦ if nonempty filename then some content else none
])

-- `load` stands for `json.loads` and the validation by the model of the sources file; `len` counts bytes.
unfoldable pub import_settings :
    (name_le : String → String → Bool)
    → ℕ
    → (load : String → Loaded) → ImportRequest
    → UserRow
    → Site
    → Session
    → Reply
unfolding import_loaded
import_settings name_le now load request current site session = elim (raw_of request) [
  | none ↦ answer site session (data_page 400 (("error", label "Choose a file to import.") ∷ []))
  | some raw ↦
      if ltb 1_048_576 (len raw)
      then answer site session
          (data_page 413 (("error", label "Import file is too large (max 1 MB).") ∷ []))
      else import_loaded name_le now (not request.force && not request.confirmed) (load raw) current
          site session
]
