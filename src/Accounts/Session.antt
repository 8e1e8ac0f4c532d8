-- ===== src/Accounts/Session.antt =====
-- app/web/auth.py: the session cookie, the guards of a route, and password-reset tokens.
-- `digest` stands for the SHA-256 of a text in hexadecimal, `check_password` for bcrypt, and `signed`
-- for the payload that the signing library reads back from a token of at most an hour.
use career_spyder.Prelude.{
  ℕ, String, ◌==◌, Bool, false, ◌&&◌, Option, none, some, if◌then◌else◌, opt_eq, ltb, nonempty,
}
use career_spyder.Database.{Database, UserRow}
use career_spyder.Accounts.{get_user_by_id}
use Prim.Native.String.{len}

-- `request.session`
pub record Session : Type 0 where
  pub user_id : Option String
  pub pw_fp : Option String

abbrev pub empty_session : Session
empty_session = record { user_id = none; pw_fp = none }

-- `digest(text)[:n]`
pub record Crypto : Type 0 where
  pub fingerprint : String → String
  pub reset_fingerprint : String → String
  pub check_password : String → String → Bool

-- The UTF-8 length in bytes is `len`.
unfoldable pub password_too_long : String → Bool
password_too_long plaintext = ltb 72 (len plaintext)

module _ (crypto : Crypto) where
  unfoldable pub verify_password : String → String → Bool
  unfolding password_too_long
  verify_password plaintext hashed =
      if password_too_long plaintext then false else crypto.check_password plaintext hashed

  unfoldable pub start_session : UserRow → Session → Session
  start_session user session = record {
    user_id = some user.id;
    pw_fp = some (crypto.fingerprint user.password_hash);
  }

  unfoldable pub session_valid : Session → UserRow → Bool
  session_valid session user =
      user.is_active && opt_eq session.pw_fp (some (crypto.fingerprint user.password_hash))

  -- The user, if the session names an active one whose password has not changed since; otherwise
  -- the session is cleared. A session that names nobody stays as it is.
  unfoldable pub load_found : Session → Option UserRow → Option UserRow × Session
  unfolding session_valid
  load_found session none = (none, empty_session)
  load_found session (some user) =
      if session_valid session user then (some user, session) else (none, empty_session)

  unfoldable pub load_named : Session → Option String → Database → Option UserRow × Session
  unfolding load_found
  load_named session none db = (none, session)
  load_named session (some user_id) db =
      if nonempty user_id then load_found session (get_user_by_id user_id db) else (none, session)

  unfoldable pub load_session_user : Session → Database → Option UserRow × Session
  unfolding load_named
  load_session_user session db = load_named session session.user_id db

  -- What a route that depends on `require_user` or `require_admin` answers: the user, or a status.
  pub data Guarded : Type 0 where
    admitted : UserRow → Guarded
    status : ℕ → Guarded

  unfoldable pub require_user : Option UserRow → Guarded
  require_user none = status 401
  require_user (some user) = admitted user

  unfoldable pub require_admin : Option UserRow → Guarded
  require_admin none = status 401
  require_admin (some user) = if user.role == "admin" then admitted user else status 403

  -- The payload of a reset token.
  pub record ResetPayload : Type 0 where
    pub user_id : String
    pub email : String
    pub pw_fp : Option String

  unfoldable pub reset_payload : UserRow → ResetPayload
  reset_payload user = record {
    user_id = user.id;
    email = user.email;
    pw_fp = some (crypto.reset_fingerprint user.password_hash);
  }

  unfoldable pub reset_found : ResetPayload → Option UserRow → Option UserRow
  reset_found payload none = none
  reset_found payload (some user) =
      if user.is_active && opt_eq payload.pw_fp (some (crypto.reset_fingerprint user.password_hash))
      then some user
      else none

  -- `none` for a token that the library refuses.
  unfoldable pub verify_reset_token : Option ResetPayload → Database → Option UserRow
  unfolding reset_found
  verify_reset_token none db = none
  verify_reset_token (some payload) db = reset_found payload (get_user_by_id payload.user_id db)
