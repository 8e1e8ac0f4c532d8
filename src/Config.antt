-- ===== src/Config.antt =====
-- app/config.py: the configured sources and the sources file. A source is the base fields with
-- the fields of its type. The file is its list of sources, `none` where it does not exist;
-- `_sources_lock` makes each operation one step.
pub mod Laws
use career_spyder.Prelude.{
  ℕ, zero, suc, String, ◌==◌, Bool, true, false, not, ◌&&◌, Option, none, some, List, [], ◌∷◌, ◌++◌,
  filter, find, length, nat_eq, opt_eq, any, if◌then◌else◌,
}
use career_spyder.Result.{Result, ok, err, Error, key_error}
use Prim.Native.String

pub record Selectors : Type 0 where
  pub job_card : String
  pub title : String
  pub link : String
  pub location : Option String

pub data SourceType : Type 0 where
  greenhouse : (board_token : String) → SourceType
  lever : (board_token : String) → SourceType
  generic_html : (url : String) (render_js : Bool) (selectors : Selectors) → SourceType
  linkedin : (url : String) → SourceType
  indeed : (url : String) → SourceType
  infor : (url : String) (max_pages : ℕ) → SourceType
  healthcaresource : (site_id : String) → SourceType
  talentbrew : (base_url : String) (max_pages : ℕ) → SourceType
  workday : (career_site_url : String) (max_pages : ℕ) → SourceType
  phenompeople : (career_site_url : String) (state : Option String) → SourceType
  findly : (org_id : String) (career_site_url : String) (max_pages : ℕ) → SourceType

pub record Source : Type 0 where
  pub id : String
  pub name : String
  pub company : Option String
  pub secondary : Bool
  pub enabled : Bool
  pub include_keywords : List String
  pub exclude_keywords : List String
  pub kind : SourceType

-- The discriminator, `source.type`.
unfoldable pub type_name : SourceType → String
type_name (greenhouse _) = "greenhouse"
type_name (lever _) = "lever"
type_name (generic_html _ _ _) = "generic_html"
type_name (linkedin _) = "linkedin"
type_name (indeed _) = "indeed"
type_name (infor _ _) = "infor"
type_name (healthcaresource _) = "healthcaresource"
type_name (talentbrew _ _) = "talentbrew"
type_name (workday _ _) = "workday"
type_name (phenompeople _ _) = "phenompeople"
type_name (findly _ _ _) = "findly"

abbrev pub concat : String → String → String
concat = String.◌++◌

unfoldable pub get_source_url : Source → Option String
get_source_url source = elim source.kind [
  | greenhouse board_token ↦ some (concat "https://boards.greenhouse.io/" board_token)
  | lever board_token ↦ some (concat "https://jobs.lever.co/" board_token)
  | generic_html url render_js selectors ↦ some url
  | linkedin url ↦ some url
  | indeed url ↦ some url
  | infor url max_pages ↦ some url
  | healthcaresource site_id ↦ some (concat "https://pm.healthcaresource.com/CS/" site_id)
  | talentbrew base_url max_pages ↦ some base_url
  | workday career_site_url max_pages ↦ some career_site_url
  | phenompeople career_site_url state ↦ some career_site_url
  | findly org_id career_site_url max_pages ↦ some career_site_url
]

-- Equality of lists of texts, of selectors, of the fields of a type, of two dumps.
unfoldable pub texts_eq : List String → List String → Bool
texts_eq [] [] = true
texts_eq (x ∷ xs) (y ∷ ys) = x == y && texts_eq xs ys
texts_eq _ _ = false

abbrev pub bool_eq : Bool → Bool → Bool
bool_eq true b = b
bool_eq false b = not b

unfoldable pub selectors_eq : Selectors → Selectors → Bool
selectors_eq a b =
    a.job_card == b.job_card
    && a.title == b.title
    && a.link == b.link
    && opt_eq a.location b.location

unfoldable pub type_eq : SourceType → SourceType → Bool
unfolding selectors_eq
type_eq (greenhouse a) (greenhouse b) = a == b
type_eq (lever a) (lever b) = a == b
type_eq (generic_html a r s) (generic_html b q t) = a == b && bool_eq r q && selectors_eq s t
type_eq (linkedin a) (linkedin b) = a == b
type_eq (indeed a) (indeed b) = a == b
type_eq (infor a m) (infor b n) = a == b && nat_eq m n
type_eq (healthcaresource a) (healthcaresource b) = a == b
type_eq (talentbrew a m) (talentbrew b n) = a == b && nat_eq m n
type_eq (workday a m) (workday b n) = a == b && nat_eq m n
type_eq (phenompeople a s) (phenompeople b t) = a == b && opt_eq s t
type_eq (findly a c m) (findly b d n) = a == b && c == d && nat_eq m n
type_eq _ _ = false

-- `old.model_dump() == source.model_dump()`
unfoldable pub dump_eq : Source → Source → Bool
dump_eq a b =
    a.id == b.id
    && a.name == b.name
    && opt_eq a.company b.company
    && bool_eq a.secondary b.secondary
    && bool_eq a.enabled b.enabled
    && texts_eq a.include_keywords b.include_keywords
    && texts_eq a.exclude_keywords b.exclude_keywords
    && type_eq a.kind b.kind

-- `{s.id: s for s in existing}.get(id)`: the last source with the id.
unfoldable pub last_by_id : String → List Source → Option Source
last_by_id i [] = none
last_by_id i (s ∷ rest) = elim (last_by_id i rest) [
  | some t ↦ some t
  | none ↦ if s.id == i then some s else none
]

pub record ImportDiff : Type 0 where
  pub added : List Source
  pub updated : List (Source × Source)
  pub unchanged : List Source

-- One round of the loop of `diff_import`.
unfoldable pub classify : Option Source → Source → ImportDiff → ImportDiff
classify none source d = record d { added = d.added ++ source ∷ [] }
classify (some old) source d =
    if dump_eq old source
    then record d { unchanged = d.unchanged ++ source ∷ [] }
    else record d { updated = d.updated ++ (old, source) ∷ [] }

unfoldable pub diff_from : List Source → ImportDiff → List Source → ImportDiff
diff_from existing d [] = d
diff_from existing d (source ∷ new) =
    diff_from existing (classify (last_by_id source.id existing) source d) new

unfoldable pub diff_import : List Source → List Source → ImportDiff
unfolding diff_from classify last_by_id
diff_import existing new =
    diff_from existing (record { added = []; updated = []; unchanged = [] }) new

-- The sources file.
abbrev pub SourcesFile : Type 0
SourcesFile = Option (List Source)

unfoldable pub load_sources : SourcesFile → List Source
load_sources none = []
load_sources (some sources) = sources

unfoldable pub save_sources : List Source → SourcesFile
save_sources sources = some sources

unfoldable pub add_source : Source → SourcesFile → SourcesFile
unfolding load_sources save_sources
add_source source file = save_sources (load_sources file ++ source ∷ [])

-- `sources[i] = updated` at the first match; `none` where the loop ends without one.
unfoldable pub replace_first : String → Source → List Source → Option (List Source)
replace_first i updated [] = none
replace_first i updated (s ∷ rest) =
    if s.id == i
    then some (updated ∷ rest)
    else elim (replace_first i updated rest) [ none ↦ none | some r ↦ some (s ∷ r) ]

unfoldable pub update_source : String → Source → SourcesFile → Result SourcesFile
unfolding load_sources save_sources replace_first
update_source source_id updated file = elim (replace_first source_id updated (load_sources file)) [
  | none ↦ err (key_error source_id)
  | some sources ↦ ok (save_sources sources)
]

unfoldable pub delete_source : String → SourcesFile → Result SourcesFile
unfolding load_sources save_sources
delete_source source_id file =
    let sources = load_sources file in
    let remaining = filter (λ s. not (s.id == source_id)) sources in
    if nat_eq (length remaining) (length sources)
    then err (key_error source_id)
    else ok (save_sources remaining)

unfoldable pub get_source : String → SourcesFile → Result Source
unfolding load_sources
get_source source_id file = elim (find (λ s. s.id == source_id) (load_sources file)) [
  | none ↦ err (key_error source_id)
  | some s ↦ ok s
]
