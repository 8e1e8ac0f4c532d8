-- ===== src/Web/Reset.antt =====
-- app/web/routes_auth.py: account recovery by mail, and the password reset.
pub mod Laws
use Prim.Native.String
use career_spyder.Prelude.{
  ℕ, String, ◌==◌, Bool, true, false, not, ◌&&◌, ◌||◌, Option, none, some, List, [], ◌∷◌,
  if◌then◌else◌, nonempty, truthy,
}
use career_spyder.Text.{strip}
use career_spyder.Html.{cat, escape}
use career_spyder.Database.{Database, UserRow}
use career_spyder.RateLimit.{Request, rate_limit}
use career_spyder.Password.{check_new_password, Message}
use career_spyder.Accounts.{
  Smtp, get_user_by_email, get_user_by_id, get_admin_smtp_settings, update_password,
}
use career_spyder.Accounts.Session.{
  Session, empty_session, reset_payload, verify_reset_token, ResetPayload,
}
use career_spyder.Web.{
  Form, field, label, policy_error, flag, page, redirect, flashed, Response, Task, recovery_email,
  Site, Reply, answer, Host, seconds, text_of,
}

abbrev submitted : Response
submitted = page "account_recovery.html" 200 (("submitted", flag true) ∷ [])

-- The user that a mail goes to, if the address is an active user's.
unfoldable pub recovery_user : String → Database → Option UserRow
recovery_user email db = elim (get_user_by_email email db) [
  | none ↦ none
  | some user ↦ if user.is_active then get_user_by_id user.id db else none
]

unfoldable pub reset_url : Host → String → UserRow → String
reset_url host base_url user =
    cat (base_url ∷ "/reset-password?token=" ∷ host.sign (reset_payload host.crypto user) ∷ [])

-- The tasks that the request queues: none without a base URL, a user and a mail server.
unfoldable pub recovery_tasks :
    Host → String → Option String → Option UserRow → Option Smtp → List Task
unfolding reset_url
recovery_tasks host email (some base_url) (some user) (some smtp) =
    if truthy smtp.0
    then recovery_email smtp email user.username (reset_url host base_url user) ∷ []
    else []
recovery_tasks host email none user smtp = []
recovery_tasks host email (some base_url) none smtp = []
recovery_tasks host email (some base_url) (some user) none = []

-- `lower` stands for `str.lower`.
unfoldable pub recovery_form : Host → (String → String) → Form → Site → Session → Reply
unfolding recovery_user recovery_tasks field
recovery_form host lower form site session =
    let email = lower (strip (field form "email")) in
    if nonempty email
    then record {
      response = submitted;
      site = site;
      session = session;
      tasks =
          recovery_tasks host email host.public_base_url (recovery_user email site.db)
            (get_admin_smtp_settings site.db);
    }
    else answer site session
        (page "account_recovery.html" 400 (("error", label "Email address is required.") ∷ []))

unfoldable pub account_recovery :
    Host → (String → String) → ℕ → Request → Form → Site → Session → Reply
unfolding recovery_form
account_recovery host lower now request form site session =
    let limited =
      rate_limit now host.trusted_proxies request "account-recovery" 5 (seconds 3600)
        site.buckets in
    let counted = record site { buckets = limited.0 } in
    if limited.1
    then recovery_form host lower form counted session
    else answer counted session submitted

unfoldable pub recovery_email_html : (username reset_url : String) → String
unfolding escape
recovery_email_html username reset_url = cat (
    "<p>Your username is: <strong>"
    ∷ escape username
    ∷ "</strong></p>"
    ∷ "<p>To reset your password, click the link below. It expires in 1 hour.</p>"
    ∷ "<p><a href=\""
    ∷ escape reset_url
    ∷ "\">Reset my password</a></p>"
    ∷ "<p>If you didn't request this, you can safely ignore this email.</p>"
    ∷ [])

abbrev token_error : Response
token_error = page "reset_password.html" 400 (
    ("error", label "This link is invalid or has expired.")
    ∷ ("show_recovery_link", flag true)
    ∷ [])

unfoldable pub token_user : Host → String → Database → Option UserRow
token_user host token db =
    if nonempty token then verify_reset_token host.crypto (host.unsign token) db else none

unfoldable pub reset_password_form : Host → String → Site → Session → Reply
unfolding token_user
reset_password_form host query_token site session =
    let token = strip query_token in
    elim (token_user host token site.db) [
      | none ↦ answer site session token_error
      | some user ↦ answer site session (
          page "reset_password.html" 200
            (("token", label token) ∷ ("username", label user.username) ∷ []))
    ]

-- The answer of the policy to the new password. `meanwhile` is what other requests commit while the
-- password is checked and hashed.
unfoldable pub store_password :
    Host
    → (Database → Database)
    → (token password : String) → UserRow
    → Option Message
    → Site
    → Session
    → Reply
store_password host meanwhile token password user (some problem) site session =
    answer site session (
      page "reset_password.html" 400
        (("error", policy_error problem) ∷ ("token", label token) ∷ []))
store_password host meanwhile token password user none site session = record {
  response = flashed "/login" "Password reset. Please sign in with your new password.";
  site = record site {
    db = update_password user.id (host.hash_password password) (meanwhile site.db);
  };
  session = empty_session;
  tasks = [];
}

abbrev pub check_for : Host → (password confirm : String) → UserRow → Option Message
check_for host password confirm user =
    check_new_password host.policy (text_of password) (text_of confirm) (text_of user.username)
      (text_of user.email)

-- After the token has been verified.
unfoldable pub set_new_password :
    Host
    → (Database → Database)
    → (token password confirm : String) → Option UserRow
    → Site
    → Session
    → Reply
unfolding store_password
set_new_password host meanwhile token password confirm none site session =
    answer site session token_error
set_new_password host meanwhile token password confirm (some user) site session =
    store_password host meanwhile token password user (check_for host password confirm user) site
      session

unfoldable pub reset_form : Host → (Database → Database) → Form → Site → Session → Reply
unfolding set_new_password token_user field
reset_form host meanwhile form site session =
    let token = strip (field form "token") in
    set_new_password host meanwhile token (field form "password") (field form "password_confirm")
      (token_user host token site.db) site session

unfoldable pub reset_password :
    Host → (Database → Database) → ℕ → Request → Form → Site → Session → Reply
unfolding reset_form
reset_password host meanwhile now request form site session =
    let limited =
      rate_limit now host.trusted_proxies request "reset-password" 10 (seconds 900) site.buckets in
    let counted = record site { buckets = limited.0 } in
    if limited.1
    then reset_form host meanwhile form counted session
    else answer counted session (
        page "reset_password.html" 429
          (("error", label "Too many attempts. Please wait a few minutes and try again.") ∷ []))
