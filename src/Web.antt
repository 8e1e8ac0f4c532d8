-- ===== src/Web.antt =====
-- What the handlers of app/web share: forms, responses, the state that a request may change, and what
-- lies outside (`Host`). A handler takes the times it reads; what other requests commit between two of
-- its connections is an argument `meanwhile`.
pub mod Login
pub mod Reset
pub mod Register
pub mod Guard
pub mod Users
pub mod JobRoutes
pub mod Preferences
pub mod Exchange
pub mod Account
pub mod QueryParams
pub mod JobPages
pub mod Dashboard
pub mod SourceForm
pub mod SourceRoutes
use Prim.Native.Char.{code}
use Prim.Native.String
use career_spyder.Prelude.{ℕ, ◌*◌, String, Bool, Option, none, some, List, [], ◌∷◌, nonempty}
use career_spyder.Text.{strip}
use career_spyder.Database.{Database, InviteRow, SettingsRow}
use career_spyder.Config.{ImportDiff, Source}
use career_spyder.RateLimit.{Buckets}
use career_spyder.Accounts.{Smtp, UserItem}
use career_spyder.Invites.{InviteStatus}
use career_spyder.Accounts.Session.{Session, Crypto, ResetPayload}
use career_spyder.Password.{Text, Policy, Message}

-- The last value of each field. An uploaded file is not text and is no field here.
abbrev pub Form : Type 0
Form = String → Option String

-- `str(form.get(key) or "")`
unfoldable pub field : Form → String → String
field form key = elim (form key) [ none ↦ "" | some value ↦ value ]

-- The code points of a text, which the password policy reads.
unfoldable pub text_of : String → Text
text_of String.[] = []
text_of (String.◌∷◌ c s) = code c ∷ text_of s

-- An invite as the admin's page lists it, with its link if it is pending.
pub record InviteItem : Type 0 where
  pub invite : InviteRow
  pub status : InviteStatus
  pub url : Option String

-- A preference that an import would change: its label, the stored value and the new one.
pub data Shown : Type 0 where
  nothing : Shown
  shown_text : String → Shown
  shown_flag : Bool → Shown
  shown_count : ℕ → Shown

pub record Change : Type 0 where
  pub name : String
  pub old : Shown
  pub new : Shown

-- A submitted source as the form shows it again, with nothing checked.
pub record Echo : Type 0 where
  pub id : String
  pub name : String
  pub company : Option String
  pub secondary : Bool
  pub enabled : Bool
  pub type : String
  pub board_token : String
  pub url : String
  pub render_js : Bool
  pub job_card : String
  pub title : String
  pub link : String
  pub location : Option String
  pub max_pages : String
  pub site_id : String
  pub base_url : String
  pub career_site_url : String
  pub state : String
  pub org_id : String
  pub include_keywords : List String
  pub exclude_keywords : List String

-- A value of a page's context.
pub data Value : Type 0 where
  label : String → Value
  flag : Bool → Value
  policy_error : Message → Value
  missing : Value
  moment : Option ℕ → Value
  user_items : List UserItem → Value
  invite_items : List InviteItem → Value
  texts : List String → Value
  count : ℕ → Value
  settings_of : Option SettingsRow → Value
  sources_diff : ImportDiff → Value
  changes : List Change → Value
  source_of : Option Source → Value
  echo : Echo → Value
  previews : List (String × String) → Value

-- `page` is a template with the status and the context that the handler gives, `flashed` is
-- `flash_redirect(path, message)`, `failure` an HTTPException.
pub data Response : Type 0 where
  page : (template : String) (status : ℕ) (context : List (String × Value)) → Response
  redirect : (url : String) → Response
  flashed : (path message : String) → Response
  failure : (status : ℕ) (detail : String) → Response
  json : List (String × Value) → Response

-- A task that runs after the response.
pub data Task : Type 0 where
  recovery_email : Smtp → (to username reset_url : String) → Task
  run_task : (only_user_id : Option String) → Task
  url_check_task : (run_id : ℕ) → (user_id : Option String) → Task

pub record Site : Type 0 where
  pub db : Database
  pub buckets : Buckets

pub record Reply : Type 0 where
  pub response : Response
  pub site : Site
  pub session : Session
  pub tasks : List Task

-- A reply that changes neither the database nor the session.
abbrev pub answer : Site → Session → Response → Reply
answer site session response = record {
  response = response;
  site = site;
  session = session;
  tasks = [];
}

pub record Host : Type 0 where
  pub trusted_proxies : List String
  pub crypto : Crypto
  pub hash_password : String → String
  pub dummy_hash : String
  pub policy : Policy
  -- `urlparse(url).path`
  pub url_path : String → String
  pub is_uuid : String → Bool
  pub matches_username : String → Bool
  pub public_base_url : Option String
  -- The signed token of a payload, and the payload of a token that is good.
  pub sign : ResetPayload crypto → String
  pub unsign : String → Option (ResetPayload crypto)

abbrev pub seconds : ℕ → ℕ
seconds n = n * 1_000_000
