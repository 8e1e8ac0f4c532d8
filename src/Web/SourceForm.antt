-- ===== src/Web/SourceForm.antt =====
-- app/web/source_form.py: a source from the fields of its form. A field is a text; `validate` stands for the
-- models' `model_validate`, on the fields gathered.
use career_spyder.Prelude.{
  String, ◌==◌, Bool, ◌||◌, Option, none, some, List, [], ◌∷◌, ◌++◌, map, filter, elem,
  if◌then◌else◌, nonempty, truthy, or_else, opt_eq,
}
use career_spyder.Result.{Result, ok, err, key_error, ◌>>=◌}
use career_spyder.Text.{strip, split}
use career_spyder.Config.{Source}
use career_spyder.Web.{Form, Echo}

-- A value that `model_validate` is given.
pub data FieldValue : Type 0 where
  text_field : String → FieldValue
  optional_field : Option String → FieldValue
  flag_field : Bool → FieldValue
  words_field : List String → FieldValue
  selectors_field : (job_card title link : String) → (location : Option String) → FieldValue

abbrev pub Draft : Type 0
Draft = List (String × FieldValue)

pub data Validated : Type 0 where
  valid : Source → Validated
  invalid : (message : String) → Validated

-- `form.get(key, "")`
abbrev pub got : Form → String → String
got form key = or_else (form key) ""

abbrev or_none : String → Option String
or_none text = if nonempty text then some text else none

unfoldable pub keywords : String → List String
keywords raw = filter nonempty (map strip (split 44 raw))

abbrev pub is_on : Form → String → Bool
is_on form key = opt_eq (form key) (some "on")

-- `form[key]`
abbrev required : Form → String → Result String
required form key = elim (form key) [ none ↦ err (key_error key) | some value ↦ ok value ]

-- `if key in form: common[name] = _strip(form[key])`
abbrev if_in : Form → (key name : String) → Draft
if_in form key name = elim (form key) [
  | none ↦ []
  | some value ↦ (name, text_field (strip value)) ∷ []
]

-- `if form.get("max_pages"): common["max_pages"] = form["max_pages"]`
abbrev max_pages_of : Form → Draft
max_pages_of form = elim (form "max_pages") [
  | none ↦ []
  | some value ↦ if nonempty value then ("max_pages", text_field value) ∷ [] else []
]

abbrev selectors_of : Form → FieldValue
selectors_of form =
    selectors_field (strip (got form "selector_job_card")) (strip (got form "selector_title"))
      (strip (got form "selector_link")) (or_none (strip (got form "selector_location")))

-- The fields of a type.
unfoldable pub type_fields : String → Form → Draft
type_fields source_type form =
    if source_type == "greenhouse" || source_type == "lever"
    then if_in form "board_token" "board_token"
    else if source_type == "generic_html"
    then if_in form "url" "url"
      ++ ("render_js", flag_field (is_on form "render_js")) ∷ ("selectors", selectors_of form) ∷ []
    else if source_type == "infor"
    then if_in form "infor_url" "url" ++ max_pages_of form
    else if source_type == "healthcaresource"
    then if_in form "site_id" "site_id"
    else if source_type == "talentbrew"
    then if_in form "base_url" "base_url" ++ max_pages_of form
    else if source_type == "workday"
    then if_in form "career_site_url" "career_site_url" ++ max_pages_of form
    else if source_type == "phenompeople"
    then if_in form "phenompeople_career_site_url" "career_site_url"
      ++ (if truthy (form "state")
          then ("state", text_field (strip (got form "state"))) ∷ []
          else [])
    else if source_type == "findly"
    then if_in form "org_id" "org_id"
      ++ if_in form "findly_career_site_url" "career_site_url"
      ++ max_pages_of form
    else if_in form "url" "url"

-- The keys of `TYPE_MODELS`.
abbrev pub type_models : List String
type_models =
    "greenhouse" ∷ "lever" ∷ "generic_html" ∷ "linkedin" ∷ "indeed" ∷ "infor" ∷ "healthcaresource"
    ∷ "talentbrew" ∷ "workday" ∷ "phenompeople" ∷ "findly" ∷ []

unfoldable pub common_fields : (name source_type : String) → Form → Draft
unfolding keywords
common_fields name source_type form =
    ("name", text_field (strip name))
    ∷ ("company", optional_field (or_none (strip (got form "company"))))
    ∷ ("secondary", flag_field (is_on form "secondary"))
    ∷ ("enabled", flag_field (is_on form "enabled"))
    ∷ ("include_keywords", words_field (keywords (got form "include_keywords")))
    ∷ ("exclude_keywords", words_field (keywords (got form "exclude_keywords")))
    ∷ ("type", text_field source_type)
    ∷ (if truthy (form "id") then ("id", text_field (got form "id")) ∷ [] else [])

abbrev model_of : (validate : String → Draft → Validated) → String → Draft → Result Validated
model_of validate source_type common =
    if elem source_type type_models
    then ok (validate source_type common)
    else err (key_error source_type)

unfoldable pub source_from_form : (validate : String → Draft → Validated) → Form → Result Validated
unfolding common_fields type_fields
source_from_form validate form = do
  name ← required form "name"
  source_type ← required form "type"
  model_of validate source_type
      (common_fields name source_type form ++ type_fields source_type form)

unfoldable pub echo_source : Form → Echo
unfolding keywords
echo_source form = record {
  id = got form "id";
  name = got form "name";
  company = or_none (got form "company");
  secondary = is_on form "secondary";
  enabled = is_on form "enabled";
  type = got form "type";
  board_token = got form "board_token";
  url = if opt_eq (form "type") (some "infor") then got form "infor_url" else got form "url";
  render_js = is_on form "render_js";
  job_card = got form "selector_job_card";
  title = got form "selector_title";
  link = got form "selector_link";
  location = or_none (got form "selector_location");
  max_pages = got form "max_pages";
  site_id = got form "site_id";
  base_url = got form "base_url";
  career_site_url =
      if opt_eq (form "type") (some "phenompeople")
      then got form "phenompeople_career_site_url"
      else if opt_eq (form "type") (some "findly")
      then got form "findly_career_site_url"
      else got form "career_site_url";
  state = got form "state";
  org_id = got form "org_id";
  include_keywords = keywords (got form "include_keywords");
  exclude_keywords = keywords (got form "exclude_keywords");
}
