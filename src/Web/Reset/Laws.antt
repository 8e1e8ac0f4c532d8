-- ===== src/Web/Reset/Laws.antt =====
-- What a recovery request gives away, and how often a reset link works.
use career_spyder.Password.{Message}
use career_spyder.Accounts.Session.{
  empty_session, Session, verify_reset_token, reset_found, ResetPayload,
}
use career_spyder.Prelude.{
  is_none, ℕ, ◌≡◌, refl, ◌∙◌, String, ◌==◌, Bool, true, false, Option, none, some, arith, eq_iff,
  if◌then◌else◌, nonempty, opt_eq,
}
use career_spyder.Database.{Database, UserRow}
use career_spyder.Table.Laws.{find-update_where}
use career_spyder.RateLimit.{Request}
use career_spyder.Accounts.{get_user_by_id, update_password}
use career_spyder.Web.{Form, Site, Host}
use career_spyder.Web.Reset.{
  account_recovery, recovery_form, token_user, set_new_password, store_password, check_for,
}

-- Asking for a recovery mail tells nothing about the accounts: whatever users, settings and other
-- data two databases hold, the response, the session and the attempts counted are the same, and
-- neither database changes.
pub account_recovery-same :
    (host : Host) (lower : String → String) (now : ℕ) (request : Request) (form : Form)
    (site : Site) (other : Database) (session : Session)
    → let here = account_recovery host lower now request form site session in
      let there =
        account_recovery host lower now request form (record site { db = other }) session in
      (here.response ≡ there.response)
      × (here.session ≡ there.session)
      × (here.site.buckets ≡ there.site.buckets)
      × (here.site.db ≡ site.db)
unfolding account_recovery recovery_form
account_recovery-same host lower now request form site other session = ground arith

found_hash :
    (u : UserRow) (h i : String) (db : Database)
    → get_user_by_id i db ≡ some u
    → get_user_by_id i (update_password u.id h db) ≡ some (record u { password_hash = h })
unfolding get_user_by_id update_password
found_hash u h i db e =
    find-update_where (λ (x : UserRow). x.id == i) (λ (x : UserRow). x.id == u.id) _ db.users
      (λ x. refl)
    ∙ rw e (ground (arith, eq_iff u.id u.id))

if_some :
    {A : Type 0} (b : Bool) (o : Option A) (v : A)
    → (if b then o else none) ≡ some v
    → (b ≡ true) × (o ≡ some v)
if_some true o v e = (refl, e)
if_some false o v e = cc

matched_user :
    (host : Host) (payload : ResetPayload host.crypto) (o : Option UserRow) (user : UserRow)
    → reset_found host.crypto payload o ≡ some user
    → (o ≡ some user)
      × (opt_eq payload.pw_fp (some (host.crypto.reset_fingerprint user.password_hash)) ≡ true)
unfolding reset_found
matched_user host payload none user e = cc
matched_user host payload (some u) user e =
    let cases = if_some _ (some u) user e in (cases.1, ground (arith, cases.0, cases.1))

other_hash :
    (fp : Option String) (one two : String)
    → opt_eq fp (some one) ≡ true
    → (one == two) ≡ false
    → opt_eq fp (some two) ≡ false
other_hash none one two m d = cc
other_hash (some s) one two m d = ground (arith, eq_iff s one)

spent_payload :
    (host : Host) (payload : ResetPayload host.crypto) (user : UserRow) (h : String) (db : Database)
    → verify_reset_token host.crypto (some payload) db ≡ some user
    → (host.crypto.reset_fingerprint user.password_hash == host.crypto.reset_fingerprint h) ≡ false
    → verify_reset_token host.crypto (some payload) (update_password user.id h db) ≡ none
unfolding verify_reset_token reset_found
spent_payload host payload user h db e other =
    let found = matched_user host payload (get_user_by_id payload.user_id db) user e in
    rw (found_hash user h payload.user_id db found.0) (
      rw (other_hash payload.pw_fp _ (host.crypto.reset_fingerprint h) found.1 other)
        (ground arith))

spent_token :
    (host : Host) (token : String) (o : Option (ResetPayload host.crypto)) (user : UserRow)
    (h : String) (db : Database)
    → (if nonempty token then verify_reset_token host.crypto o db else none) ≡ some user
    → (host.crypto.reset_fingerprint user.password_hash == host.crypto.reset_fingerprint h) ≡ false
    → (if nonempty token
        then verify_reset_token host.crypto o (update_password user.id h db)
        else none)
      ≡ none
unfolding verify_reset_token
spent_token host token none user h db e other = ground arith
spent_token host token (some payload) user h db e other =
    let good = if_some (nonempty token) (verify_reset_token host.crypto (some payload) db) user e in
    rw good.0 (spent_payload host payload user h db good.1 other)

stored_password :
    (host : Host) (meanwhile : Database → Database) (token password : String) (user : UserRow)
    (problem : Option Message) (site : Site) (session : Session)
    → token_user host token (meanwhile site.db) ≡ some user
    → (host.crypto.reset_fingerprint user.password_hash
        == host.crypto.reset_fingerprint (host.hash_password password))
      ≡ false
    → let reply = store_password host meanwhile token password user problem site session in
      (token_user host token reply.site.db
        ≡ (if is_none problem then none else token_user host token site.db))
      × (reply.session ≡ (if is_none problem then empty_session else session))
      × (reply.site ≡ (
          if is_none problem
          then record site {
            db = update_password user.id (host.hash_password password) (meanwhile site.db);
          }
          else site))
unfolding token_user store_password
stored_password host meanwhile token password user none site session h other =
    (spent_token host token (host.unsign token) user _ (meanwhile site.db) h other, refl, refl)
stored_password host meanwhile token password user (some problem) site session h other =
    (refl, refl, refl)

-- A reset link works once: a new password that the policy takes is all that is stored, ends the session and
-- leaves the link standing for nobody, whatever `meanwhile` committed before it, as long as the new password's hash has
-- another fingerprint and the link stood for the user when the password was written. A password that
-- the policy refuses leaves the site and the session as they were.
pub token_user-set_new_password :
    (host : Host) (meanwhile : Database → Database) (token password confirm : String)
    (user : UserRow) (site : Site) (session : Session)
    → token_user host token (meanwhile site.db) ≡ some user
    → (host.crypto.reset_fingerprint user.password_hash
        == host.crypto.reset_fingerprint (host.hash_password password))
      ≡ false
    → let reply = set_new_password host meanwhile token password confirm (some user) site session in
      (token_user host token reply.site.db ≡ (
        if is_none (check_for host password confirm user)
        then none
        else token_user host token site.db))
      × (reply.session
          ≡ (if is_none (check_for host password confirm user) then empty_session else session))
      × (reply.site ≡ (
          if is_none (check_for host password confirm user)
          then record site {
            db = update_password user.id (host.hash_password password) (meanwhile site.db);
          }
          else site))
unfolding set_new_password
token_user-set_new_password host meanwhile token password confirm user site session h other =
    stored_password host meanwhile token password user (check_for host password confirm user) site
      session h other
