-- ===== src/Web/Account/Laws.antt =====
-- What a change of the password does to sessions (app/web/routes_settings.py and app/web/auth.py).
use career_spyder.Prelude.{
  ℕ, ◌≡◌, refl, String, ◌==◌, Bool, true, false, ◌&&◌, Option, none, some, eq_refl, Bool-cases, inl,
  inr, if◌then◌else◌, nonempty, is_none, ap, [], ◌∷◌,
}
use career_spyder.Html.{cat}
use career_spyder.Database.{Database, UserRow}
use career_spyder.RateLimit.{check}
use career_spyder.Password.{check_new_password, Message}
use career_spyder.Accounts.{get_user_by_id, update_password}
use career_spyder.Accounts.Laws.{
  logged_in, found-update_password, load_session_user-update_password,
}
use career_spyder.Accounts.Session.{Session, load_session_user, start_session}
use career_spyder.Web.{Form, field, Site, Host, Reply, seconds, text_of}
use career_spyder.Web.Account.{put_password, current_ok, change_password_form, change_password}

-- Whom a session finds.
abbrev whose : Host → Session → Database → Option UserRow
whose host session db = (load_session_user host.crypto session db).0

-- A session elsewhere finds nobody any more and the one of the request finds the user with the new
-- password, or both find whom they found.
abbrev pub IsMoved : Host → (elsewhere here : Session) → Site → UserRow → Bool → Reply → Type 0
IsMoved host elsewhere here site renewed moved reply =
    (whose host elsewhere reply.site.db ≡ (if moved then none else whose host elsewhere site.db))
    × (whose host reply.session reply.site.db
        ≡ (if moved then some renewed else whose host here site.db))

-- The password passes the policy.
abbrev pub passes : Host → Form → UserRow → Bool
passes host form current = is_none (
    check_new_password host.policy (text_of (field form "new_password"))
      (text_of (field form "new_password_confirm")) (text_of current.username)
      (text_of current.email))

load_session_user-start_session :
    (host : Host) (user : UserRow) (session : Session) (db : Database)
    → nonempty user.id ≡ true
    → user.is_active ≡ true
    → get_user_by_id user.id db ≡ some user
    → load_session_user host.crypto (start_session host.crypto user session) db
      ≡ (some user, start_session host.crypto user session)
unfolding load_session_user start_session
load_session_user-start_session host user session db named active h =
    rw named (rw h (rw (active, eq_refl (host.crypto.fingerprint user.password_hash)) refl))

put_password-IsMoved :
    (host : Host) (later : Database) (password : String) (user : UserRow) (problem : Option Message)
    (site : Site) (session : Session)
    → nonempty user.id ≡ true
    → user.is_active ≡ true
    → get_user_by_id user.id later ≡ some user
    → (host.crypto.fingerprint user.password_hash
        == host.crypto.fingerprint (host.hash_password password))
      ≡ false
    → (current : UserRow) → current.id ≡ user.id
    → IsMoved host
        (logged_in host.crypto user)
        session
        site
        (record user { password_hash = host.hash_password password })
        (is_none problem)
        (put_password host later password current problem site session)
unfolding put_password
put_password-IsMoved host later password user (some problem) site session named active h other
      current same =
    (refl, refl)
put_password-IsMoved host later password user none site session named active h other current same =
    let found = found-update_password user (host.hash_password password) later h in
    (
      rw same (
          rw
            (ap (λ r. r.0)
              (load_session_user-update_password host.crypto user (host.hash_password password)
                later named h))
            (rw (active, other) refl)),
      rw same (
          rw found (
            ap (λ r. r.0)
              (load_session_user-start_session host
                (record user { password_hash = host.hash_password password }) session
                (update_password user.id (host.hash_password password) later) named active found))),
    )

change_password_form-IsMoved :
    (host : Host) (meanwhile : Database → Database) (form : Form) (current user : UserRow)
    (site : Site) (session : Session)
    → current.id ≡ user.id
    → nonempty user.id ≡ true
    → user.is_active ≡ true
    → get_user_by_id user.id (meanwhile site.db) ≡ some user
    → (host.crypto.fingerprint user.password_hash
        == host.crypto.fingerprint (host.hash_password (field form "new_password")))
      ≡ false
    → IsMoved host
        (logged_in host.crypto user)
        session
        site
        (record user { password_hash = host.hash_password (field form "new_password") })
        (current_ok host (field form "current_password") (get_user_by_id current.id site.db)
          && passes host form current)
        (change_password_form host meanwhile form current site session)
unfolding change_password_form
change_password_form-IsMoved host meanwhile form current user site session same named active h
      other =
    elim (Bool-cases
      (current_ok host (field form "current_password") (get_user_by_id current.id site.db))) [
        | inl e ↦ rw e (
            put_password-IsMoved host (meanwhile site.db) (field form "new_password") user _ site
              session named active h other current same)
        | inr e ↦ rw e (refl, refl)
      ]

abbrev pub change_limit : ℕ → UserRow → Site → Bool
change_limit now current site =
    (check now (cat ("change-password:" ∷ current.id ∷ [])) 10 (seconds 900) site.buckets).1

-- A change of the password that the rate limit, the current password and the policy let through ends
-- every session opened with the old password and keeps the request's own, which is restarted with the
-- new one; any other answer leaves whom the two find as it was. `user` is the active row of the one who
-- is logged in as the second connection finds it, and the new hash has another fingerprint.
pub load_session_user-change_password :
    (host : Host) (meanwhile : Database → Database) (now : ℕ) (form : Form) (current user : UserRow)
    (site : Site) (session : Session)
    → current.id ≡ user.id
    → nonempty user.id ≡ true
    → user.is_active ≡ true
    → get_user_by_id user.id (meanwhile site.db) ≡ some user
    → (host.crypto.fingerprint user.password_hash
        == host.crypto.fingerprint (host.hash_password (field form "new_password")))
      ≡ false
    → IsMoved host
        (logged_in host.crypto user)
        session
        site
        (record user { password_hash = host.hash_password (field form "new_password") })
        (change_limit now current site
          && current_ok host (field form "current_password") (get_user_by_id current.id site.db)
          && passes host form current)
        (change_password host meanwhile now form current site session)
unfolding change_password
load_session_user-change_password host meanwhile now form current user site session same named
      active h other =
    elim (Bool-cases (change_limit now current site)) [
      | inl e ↦ rw e (
          change_password_form-IsMoved host meanwhile form current user
            (record site {
              buckets =
                  (check now (cat ("change-password:" ∷ current.id ∷ [])) 10 (seconds 900)
                    site.buckets).0;
            })
            session same named active h other)
      | inr e ↦ rw e (refl, refl)
    ]
