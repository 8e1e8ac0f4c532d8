-- ===== src/Accounts/Laws.antt =====
-- Sessions and reset tokens end with the password they were made for, and settings keep to the
-- columns of their page.
use career_spyder.Prelude.{
  ℕ, ◌≡◌, ◌≢◌, refl, ap, sym, ◌∙◌, String, ◌==◌, Bool, true, false, ◌&&◌, Option, none, some, List,
  [], ◌∷◌, arith, eq_iff, eq_refl, find, map_option, Option-cases, Bool-cases, inl, inr,
  if◌then◌else◌, find-append, any, nonempty, or_else,
}
use mathlib.Core.Path.{subst}
use mathlib.Core.Bool.{false≢true}
use career_spyder.Database.{Database, UserRow, SettingsRow}
use career_spyder.Table.Laws.{find-update_where, any-eq-is_some-find}
use career_spyder.Accounts.{
  get_user_by_id, update_password, deactivate_user, get_settings, default_settings, upsert_settings,
  save_settings, put_preferences,
}
use career_spyder.Accounts.Session.{
  Session, empty_session, Crypto, load_session_user, start_session, verify_reset_token,
  reset_payload,
}

-- The session after a user has logged in.
abbrev pub logged_in : Crypto → UserRow → Session
logged_in crypto user = start_session crypto user empty_session

pub found-update_password :
    (user : UserRow) (new_hash : String) (db : Database)
    → get_user_by_id user.id db ≡ some user
    → get_user_by_id user.id (update_password user.id new_hash db)
      ≡ some (record user { password_hash = new_hash })
unfolding get_user_by_id update_password
found-update_password user new_hash db h =
    find-update_where (λ (u : UserRow). u.id == user.id) _ _ db.users (λ u. refl)
    ∙ rw h (rw (eq_refl user.id))

-- A session opened with a stored password still finds its user after the password changes only if
-- the user is active and the new hash has the fingerprint of the old one; otherwise it finds
-- nobody and is cleared.
pub load_session_user-update_password :
    (crypto : Crypto) (user : UserRow) (new_hash : String) (db : Database)
    → nonempty user.id ≡ true
    → get_user_by_id user.id db ≡ some user
    → load_session_user crypto (logged_in crypto user) (update_password user.id new_hash db) ≡ (
        if user.is_active && crypto.fingerprint user.password_hash == crypto.fingerprint new_hash
        then (some (record user { password_hash = new_hash }), logged_in crypto user)
        else (none, empty_session))
unfolding load_session_user start_session
load_session_user-update_password crypto user new_hash db named h =
    rw named (rw (found-update_password user new_hash db h) refl)

-- A deactivated user's session finds nobody and is cleared.
pub load_session_user-deactivate_user :
    (crypto : Crypto) (user : UserRow) (session : Session) (db : Database)
    → nonempty user.id ≡ true
    → session.user_id ≡ some user.id
    → get_user_by_id user.id db ≡ some user
    → load_session_user crypto session (deactivate_user user.id db) ≡ (none, empty_session)
unfolding load_session_user deactivate_user get_user_by_id
load_session_user-deactivate_user crypto user session db named whose h =
    rw (whose, named)
      (rw
        (find-update_where (λ (u : UserRow). u.id == user.id) (λ (u : UserRow). u.id == user.id)
          (λ (u : UserRow). record u { is_active = false }) db.users (λ u. refl))
        (rw h (rw (eq_refl user.id))))

-- A reset token made for a user is worth nothing once it was used to set a password whose hash has
-- another fingerprint, or once the user is inactive; until then it finds that user.
pub verify_reset_token-update_password :
    (crypto : Crypto) (user : UserRow) (new_hash : String) (db : Database)
    → get_user_by_id user.id db ≡ some user
    → (verify_reset_token crypto (some (reset_payload crypto user)) db
        ≡ (if user.is_active then some user else none))
      × (verify_reset_token crypto
            (some (reset_payload crypto user))
            (update_password user.id new_hash db)
          ≡ (if user.is_active
                && crypto.reset_fingerprint user.password_hash == crypto.reset_fingerprint new_hash
              then some (record user { password_hash = new_hash })
              else none))
unfolding verify_reset_token reset_payload
verify_reset_token-update_password crypto user new_hash db h = (
  rw h (rw (eq_refl (crypto.reset_fingerprint user.password_hash)) (ground arith)),
  rw (found-update_password user new_hash db h) refl,
)

pub find_own {ℓ} :
    {R : Type ℓ} (p : R → Bool) (rs : List R) (r : R) → find p rs ≡ some r → p r ≡ true
find_own p [] r h = cc
find_own p (x ∷ rs) r h = ground (arith, find_own p rs r)

module _ (u : String) (set : SettingsRow → SettingsRow)
    (keeps : (s : SettingsRow) → (set s).user_id ≡ s.user_id) (db : Database) where
  abbrev row_of : String → SettingsRow → Bool
  row_of w s = s.user_id == w

  upsert_own :
      get_settings u (upsert_settings u set db)
      ≡ some (set (or_else (get_settings u db) (default_settings u)))
  unfolding get_settings upsert_settings
  upsert_own = elim (Option-cases (find (row_of u) db.settings)) [
    | inl e ↦ rw (any-eq-is_some-find (row_of u) db.settings) (
        rw (e, find-append (row_of u) db.settings)
          (rw e (rw (keeps (default_settings u)) (rw (eq_refl u)))))
    | inr (s, e) ↦ rw (any-eq-is_some-find (row_of u) db.settings) (
        rw e (
          find-update_where (row_of u) (row_of u) set db.settings (λ t. ap (λ w. w == u) (keeps t))
          ∙ rw e (rw (find_own (row_of u) db.settings s e))))
  ]

  upsert_other :
      (v : String) → u ≢ v → get_settings v (upsert_settings u set db) ≡ get_settings v db
  unfolding get_settings upsert_settings
  upsert_other v ne = elim (Bool-cases (any (row_of u) db.settings)) [
    | inl e ↦ rw e (
        find-update_where (row_of v) (row_of u) set db.settings (λ t. ap (λ w. w == v) (keeps t))
        ∙ kept v ne (find (row_of v) db.settings) refl)
    | inr e ↦
        rw (e, find-append (row_of v) db.settings)
          (rw (keeps (default_settings u)) (ground (arith, eq_iff u v)))
  ]
    where
      kept :
          (w : String)
          → u ≢ w
          → (o : Option SettingsRow) → find (row_of w) db.settings ≡ o
          → map_option (λ (s : SettingsRow). if row_of u s then set s else s) o ≡ o
      kept w d none h = refl
      kept w d (some s) h =
          let own = (eq_iff s.user_id w).0 (find_own (row_of w) db.settings s h) in
          ground (arith, eq_iff s.user_id u)

  get_settings-upsert :
      (v : String)
      → get_settings v (upsert_settings u set db) ≡ (
          if u == v
          then some (set (or_else (get_settings v db) (default_settings v)))
          else get_settings v db)
  get_settings-upsert v = elim (Bool-cases (u == v)) [
    | inl e ↦ rw e (
        let same = (eq_iff u v).0 e in
        subst
          (λ w.
            get_settings w (upsert_settings u set db)
            ≡ some (set (or_else (get_settings w db) (default_settings w))))
          same upsert_own)
    | inr e ↦ rw e (upsert_other v (λ p. false≢true (sym e ∙ (eq_iff u v).1 p)))
  ]

-- Saving the mail server never touches the preferences, and saving the preferences never touches
-- the mail server; other users' settings stay. `before` is the row or the defaults of a new one.
pub get_settings-save :
    (user_id v host : String) (port : ℕ) (user from days : String) (resend : Bool) (to : String)
    (hide : Bool) (most : ℕ) (exclude : String) (checkin : Bool) (db : Database)
    → (get_settings v (save_settings user_id host port user from db) ≡ (
        if user_id == v
        then some (record (or_else (get_settings v db) (default_settings v)) {
          smtp_host = some host;
          smtp_port = some port;
          smtp_user = some user;
          email_from = some from;
        })
        else get_settings v db))
      × (get_settings v (put_preferences user_id days resend to hide most exclude checkin db) ≡ (
          if user_id == v
          then some (record (or_else (get_settings v db) (default_settings v)) {
            email_days = some days;
            resend_jobs = resend;
            email_to = some to;
            hide_not_interested_on_map = hide;
            digest_max_per_company = most;
            digest_exclude_statuses = exclude;
            send_weekly_checkin = checkin;
          })
          else get_settings v db))
unfolding get_settings save_settings put_preferences
get_settings-save user_id v host port user from days resend to hide most exclude checkin db =
    (get_settings-upsert user_id _ (λ s. refl) db v, get_settings-upsert user_id _ (λ s. refl) db v)
