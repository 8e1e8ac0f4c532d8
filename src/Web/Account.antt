-- ===== src/Web/Account.antt =====
-- app/web/routes_settings.py: the password of the user who is logged in, and the job cache.
pub mod Laws
use career_spyder.Prelude.{ℕ, String, ◌==◌, Bool, false, Option, none, some, [], ◌∷◌, if◌then◌else◌}
use career_spyder.Html.{cat}
use career_spyder.Database.{Database, UserRow}
use career_spyder.Jobs.{clear_jobs}
use career_spyder.RateLimit.{check}
use career_spyder.Password.{check_new_password, Message}
use career_spyder.Accounts.{get_user_by_id, update_password}
use career_spyder.Accounts.Session.{Session, start_session, verify_password}
use career_spyder.Web.{
  Form, field, Value, label, policy_error, page, redirect, flashed, Response, Site, Reply, answer,
  Host, seconds, text_of,
}

unfoldable pub settings_redirect : UserRow → Response
settings_redirect current =
    if current.role == "admin" then redirect "/settings/email" else redirect "/settings/preferences"

unfoldable pub clear_cache : UserRow → Site → Session → Reply
clear_cache current site session =
    answer (record site { db = clear_jobs current.id site.db }) session
      (flashed "/settings/data"
        "Job cache cleared. The next run will re-report every currently known job as new.")

abbrev account_error : Value → Response
account_error message = page "settings_account.html" 400 (("error", message) ∷ [])

abbrev restarted : Host → Option UserRow → Session → Session
restarted host none session = session
restarted host (some user) session = start_session host.crypto user session

-- The answer of the policy, and the new password. `later` is the database that the second connection finds.
unfoldable pub put_password :
    Host
    → (later : Database) → (password : String) → UserRow
    → Option Message
    → Site
    → Session
    → Reply
put_password host later password current (some problem) site session =
    answer site session (account_error (policy_error problem))
put_password host later password current none site session =
    let db = update_password current.id (host.hash_password password) later in
    answer (record site { db = db }) (restarted host (get_user_by_id current.id db) session)
      (flashed "/settings/account" "Password updated.")

unfoldable pub current_ok : Host → (password : String) → Option UserRow → Bool
current_ok host password none = false
current_ok host password (some user) = verify_password host.crypto password user.password_hash

-- After the rate limit.
unfoldable pub change_password_form :
    Host → (Database → Database) → Form → UserRow → Site → Session → Reply
unfolding put_password current_ok
change_password_form host meanwhile form current site session =
    if current_ok host (field form "current_password") (get_user_by_id current.id site.db)
    then (let password = field form "new_password" in
        put_password host (meanwhile site.db) password current
          (check_new_password host.policy (text_of password)
            (text_of (field form "new_password_confirm")) (text_of current.username)
            (text_of current.email))
          site session)
    else answer site session (account_error (label "Current password is incorrect."))

unfoldable pub change_password :
    Host → (Database → Database) → ℕ → Form → UserRow → Site → Session → Reply
unfolding change_password_form
change_password host meanwhile now form current site session =
    let limited =
      check now (cat ("change-password:" ∷ current.id ∷ [])) 10 (seconds 900) site.buckets in
    let counted = record site { buckets = limited.0 } in
    if limited.1
    then change_password_form host meanwhile form current counted session
    else answer counted session (
        page "settings_account.html" 429
          (("error", label "Too many attempts. Please wait a few minutes and try again.") ∷ []))
