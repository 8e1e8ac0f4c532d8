-- ===== src/Web/Login/Laws.antt =====
-- Who is logged in after a login, and where the login leads.
use text.Mathlib.Text.{starts_with}
use Prim.Native.String.{len}
use career_spyder.Prelude.{
  leb, ℕ, ◌≡◌, refl, String, true, false, not, ◌&&◌, ◌||◌, Option, none, some, arith, eq_refl,
  Bool-cases, inl, inr, ◌∙◌, if◌then◌else◌, nonempty,
}
use career_spyder.Text.{strip}
use career_spyder.Database.{Database, UserRow}
use career_spyder.RateLimit.{Request, rate_limit}
use career_spyder.Accounts.{get_user_by_id, get_user_by_username}
use career_spyder.Accounts.Session.{
  empty_session, load_session_user, start_session, verify_password, password_too_long,
}
use career_spyder.Web.{Form, field, Site, Host, seconds}
use career_spyder.Web.Login.{safe_next, next_field, authenticated, log_in, login_form, login}

-- A login never leads to another site: the redirect goes to a path with exactly one leading slash.
pub safe_next_lem :
    (host : Host) (next_url : String)
    → (starts_with (safe_next host next_url) "/" ≡ true)
      × (starts_with (safe_next host next_url) "//" ≡ false)
unfolding safe_next
safe_next_lem host next_url =
    elim (Bool-cases (
      starts_with (host.url_path next_url) "/"
      && not (starts_with (host.url_path next_url) "//"))) [
        | inl e ↦ rw e (ground arith, ground arith)
        | inr e ↦ rw e (refl, refl)
      ]

-- The active user with a name whose password is the given one, of at most 72 bytes.
abbrev pub holder_of : Host → String → Option UserRow → Option UserRow
holder_of host password none = none
holder_of host password (some user) =
    if user.is_active
      && leb (len password) 72
      && host.crypto.check_password password user.password_hash
    then some user
    else none

-- The one whom a form gives with a name and a password, neither of them empty.
abbrev pub credentials : Host → Form → Database → Option UserRow
credentials host form db =
    if not (nonempty (strip (field form "username"))) || not (nonempty (field form "password"))
    then none
    else holder_of host (field form "password")
        (get_user_by_username (strip (field form "username")) db)

authenticated_lem :
    (host : Host) (password : String) (o : Option UserRow)
    → authenticated host password o ≡ holder_of host password o
unfolding authenticated verify_password password_too_long
authenticated_lem host password none = refl
authenticated_lem host password (some user) = ground arith

-- Each user can be found by its id.
abbrev pub IsFound : Database → UserRow → Type 0
IsFound db user = (get_user_by_id user.id db ≡ some user) × (nonempty user.id ≡ true)

load_started :
    (host : Host) (user : UserRow) (db : Database)
    → IsFound db user
    → (load_session_user host.crypto (start_session host.crypto user empty_session) db).0
      ≡ (if user.is_active then some user else none)
unfolding load_session_user start_session
load_started host user db found =
    rw (found.1)
      (rw (found.0) (rw (eq_refl (host.crypto.fingerprint user.password_hash)) (ground arith)))

nobody :
    (host : Host) (site : Site) → (load_session_user host.crypto empty_session site.db).0 ≡ none
unfolding load_session_user
nobody host site = refl

logged_in_user :
    (host : Host) (password : String) (o : Option UserRow) (next_url : String) (site : Site)
    → ((user : UserRow) → o ≡ some user → IsFound site.db user)
    → (load_session_user host.crypto
        (log_in host next_url (authenticated host password o) site empty_session).session
        site.db).0
      ≡ authenticated host password o
unfolding log_in authenticated
logged_in_user host password none next_url site known = nobody host site
logged_in_user host password (some user) next_url site known =
    elim (Bool-cases (user.is_active && verify_password host.crypto password user.password_hash)) [
      | inl e ↦ rw e (load_started host user site.db (known user refl) ∙ ground arith)
      | inr e ↦ rw e (nobody host site)
    ]

-- A request without a session that logs in is afterwards the user whose name it gave, if the hashing
-- library takes the password it gave, of at most 72 bytes, for that user's, that user is active and the rate limit let it through, and nobody otherwise. Users are assumed to be
-- found by their ids.
pub load_session_user-login :
    (host : Host) (now : ℕ) (request : Request) (form : Form) (site : Site)
    → ((user : UserRow)
        → get_user_by_username (strip (field form "username")) site.db ≡ some user
        → IsFound site.db user)
    → (load_session_user host.crypto
        (login host now request form site empty_session).session
        site.db).0
      ≡ (if (rate_limit now host.trusted_proxies request "login" 10 (seconds 900) site.buckets).1
          then credentials host form site.db
          else none)
unfolding login login_form
load_session_user-login host now request form site known =
    elim (Bool-cases
      (rate_limit now host.trusted_proxies request "login" 10 (seconds 900) site.buckets).1) [
        | inr e ↦ rw e (nobody host site)
        | inl e ↦
            rw e
              (elim (Bool-cases (
                not (nonempty (strip (field form "username")))
                || not (nonempty (field form "password")))) [
                  | inl f ↦ rw f (nobody host site)
                  | inr f ↦ rw f (
                      logged_in_user host (field form "password")
                        (get_user_by_username (strip (field form "username")) site.db)
                        (next_field form)
                        (record site {
                          buckets =
                              (rate_limit now host.trusted_proxies request "login" 10 (seconds 900)
                                site.buckets).0;
                        })
                        known
                      ∙ authenticated_lem host (field form "password")
                          (get_user_by_username (strip (field form "username")) site.db))
                ])
      ]
