-- ===== src/Web/Login.antt =====
-- app/web/routes_auth.py: login and logout.
pub mod Laws
use text.Mathlib.Text.{starts_with}
use career_spyder.Prelude.{
  ℕ, String, ◌==◌, Bool, true, false, not, ◌&&◌, ◌||◌, Option, none, some, List, [], ◌∷◌,
  if◌then◌else◌, nonempty,
}
use career_spyder.Text.{strip}
use career_spyder.Database.{Database, UserRow}
use career_spyder.RateLimit.{Request, rate_limit}
use career_spyder.Accounts.{get_user_by_username}
use career_spyder.Accounts.Session.{Session, empty_session, start_session, verify_password}
use career_spyder.Web.{
  Form, field, label, page, redirect, Response, Site, Reply, answer, Host, seconds,
}

-- `str(form.get("next") or "/").strip() or "/"`
unfoldable pub next_field : Form → String
unfolding field
next_field form =
    let raw = field form "next" in
    let stripped = strip (if nonempty raw then raw else "/") in
    if nonempty stripped then stripped else "/"

-- The path alone, where it starts with one slash.
unfoldable pub safe_next : Host → String → String
safe_next host next_url =
    let path = host.url_path next_url in
    if starts_with path "/" && not (starts_with path "//") then path else "/"

abbrev error_page : ℕ → String → String → Response
error_page status message next_url =
    page "login.html" status (("error", label message) ∷ ("next", label next_url) ∷ [])

-- The user found, if it is active and the password is its own. An unknown name is checked against
-- the dummy hash.
unfoldable pub authenticated : Host → String → Option UserRow → Option UserRow
authenticated host password none = none
authenticated host password (some user) =
    if user.is_active && verify_password host.crypto password user.password_hash
    then some user
    else none

unfoldable pub log_in : Host → String → Option UserRow → Site → Session → Reply
unfolding safe_next
log_in host next_url none site session =
    answer site session (error_page 401 "Invalid username or password." next_url)
log_in host next_url (some user) site session =
    answer site (start_session host.crypto user session) (redirect (safe_next host next_url))

-- After the rate limit.
unfoldable pub login_form : Host → Form → Site → Session → Reply
unfolding authenticated log_in next_field
login_form host form site session =
    let username = strip (field form "username") in
    let password = field form "password" in
    let next_url = next_field form in
    if not (nonempty username) || not (nonempty password)
    then answer site session (error_page 400 "Username and password are required." next_url)
    else log_in host next_url (authenticated host password (get_user_by_username username site.db))
        site session

unfoldable pub login : Host → ℕ → Request → Form → Site → Session → Reply
unfolding login_form
login host now request form site session =
    let limited =
      rate_limit now host.trusted_proxies request "login" 10 (seconds 900) site.buckets in
    let counted = record site { buckets = limited.0 } in
    if limited.1
    then login_form host form counted session
    else answer counted session (
        page "login.html" 429 (
          ("error", label "Too many login attempts. Please wait a few minutes before trying again.")
          ∷ []))

unfoldable pub logout : Site → Session → Reply
logout site session = answer site empty_session (redirect "/login")
