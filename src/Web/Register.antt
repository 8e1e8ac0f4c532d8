-- ===== src/Web/Register.antt =====
-- app/web/routes_auth.py: registration with an invite.
pub mod Race
pub mod Steps
use career_spyder.Prelude.{
  ℕ, String, ◌==◌, Bool, true, false, not, Option, none, some, List, [], ◌∷◌, if◌then◌else◌,
  nonempty, is_some, ltb,
}
use career_spyder.Result.{Result, ok, err}
use career_spyder.Text.{strip}
use career_spyder.Database.{Database, UserRow, InviteRow}
use career_spyder.RateLimit.{Request, rate_limit}
use career_spyder.Password.{check_new_password}
use career_spyder.Accounts.{
  create_user, get_user_by_id, get_user_by_username, get_user_by_email, seed_settings,
}
use career_spyder.Accounts.Session.{Session, start_session}
use career_spyder.Invites.{get_invite, claim_invite, release_invite}
use career_spyder.Web.{
  Form, field, label, policy_error, Value, page, redirect, Response, Site, Reply, answer, Host,
  seconds, text_of,
}

-- A row's `expires_at` is a time, so the branch for a malformed one does not show.
unfoldable pub validate_invite : ℕ → Option InviteRow → Option String
validate_invite now none = some "Invite token not found."
validate_invite now (some invite) = elim invite.used_at [
  | some t ↦ some "This invite link has already been used."
  | none ↦ if ltb invite.expires_at now then some "This invite link has expired." else none
]

unfoldable pub register_form : Host → ℕ → String → Site → Session → Reply
unfolding validate_invite
register_form host now query_token site session =
    let token = strip query_token in
    if nonempty token
    then (let invite = get_invite host.is_uuid token site.db in
        elim (validate_invite now invite) [
          | some problem ↦
              answer site session (page "register.html" 400 (("error", label problem) ∷ []))
          | none ↦ answer site session (
              page "register.html" 200 (
                ("token", label token)
                ∷ ("email", label (elim invite [ none ↦ "" | some i ↦ i.email ]))
                ∷ []))
        ])
    else answer site session (
        page "register.html" 400
          (("error", label "A valid invite token is required to register.") ∷ []))

-- The fields of the form, and what the request draws: the hash is salted, the id is generated.
pub record Applicant : Type 0 where
  pub token : String
  pub username : String
  pub password : String
  pub confirm : String
  pub id : String

abbrev refused : Applicant → Value → Response
refused a message =
    page "register.html" 400
      (("error", message) ∷ ("token", label a.token) ∷ ("username", label a.username) ∷ [])

abbrev refuse : Applicant → String → Site → Session → Reply
refuse a message site session = answer site session (refused a (label message))

-- What follows the creation of the account: the settings, and the session.
unfoldable pub welcome : Host → UserRow → Database → Site → Session → Reply
welcome host user db site session =
    let seeded = seed_settings user.id "" 587 "" "" "" db in
    record {
      response = redirect "/";
      site = record site { db = seeded };
      session = elim (get_user_by_id user.id seeded) [
        | none ↦ session
        | some stored ↦ start_session host.crypto stored session
      ];
      tasks = [];
    }

-- The insert. Where a name or an address has been taken since it was looked up, the invite is
-- released; `db` is the state committed before the insert.
unfoldable pub admit_user :
    Host → Applicant → Result (Database × UserRow) → Database → Site → Session → Reply
unfolding welcome
admit_user host a (err e) db site session =
    refuse a "That username or email is already taken."
      (record site { db = release_invite a.token db }) session
admit_user host a (ok (created, user)) db site session = welcome host user created site session

-- The second connection. `racing` is what other requests commit between the claim and the insert.
unfoldable pub enroll :
    Host → ℕ → (Database → Database) → Applicant → (email : String) → Site → Session → Reply
unfolding admit_user
enroll host now racing a email site session =
    if is_some (get_user_by_username a.username site.db)
    then refuse a "That username is already taken." site session
    else if is_some (get_user_by_email email site.db)
    then refuse a "An account with that email already exists." site session
    else (let claimed = claim_invite now a.token site.db in
        if claimed.1
        then (let db = racing claimed.0 in
            admit_user host a
              (create_user now a.id a.username email (host.hash_password a.password) "member" db) db
              site session)
        else refuse a "This invite link has already been used." (record site { db = claimed.0 })
            session)

-- The checks of the name and the password, after the invite was found good. `meanwhile` is what other
-- requests commit while the password is checked and hashed.
unfoldable pub apply :
    Host
    → ℕ
    → (meanwhile racing : Database → Database) → Applicant
    → InviteRow
    → Site
    → Session
    → Reply
unfolding enroll
apply host now meanwhile racing a invite site session =
    if host.matches_username a.username
    then (elim (check_new_password host.policy (text_of a.password) (text_of a.confirm)
        (text_of a.username) (text_of invite.email)) [
          | some problem ↦ answer site session (refused a (policy_error problem))
          | none ↦
              enroll host now racing a invite.email (record site { db = meanwhile site.db }) session
        ])
    else refuse a "Username must be 3–32 characters: letters, digits, '.', '_' or '-'." site session

-- The invite that was read, if it is good.
unfoldable pub consider :
    Host
    → ℕ
    → (meanwhile racing : Database → Database) → Applicant
    → Option InviteRow
    → Site
    → Session
    → Reply
unfolding apply validate_invite
consider host now meanwhile racing a none site session =
    refuse a "Invite token not found." site session
consider host now meanwhile racing a (some invite) site session =
    elim (validate_invite now (some invite)) [
      | some problem ↦ refuse a problem site session
      | none ↦ apply host now meanwhile racing a invite site session
    ]

-- After the rate limit.
unfoldable pub register_with :
    Host → ℕ → (meanwhile racing : Database → Database) → Applicant → Site → Session → Reply
unfolding consider
register_with host now meanwhile racing a site session =
    if nonempty a.token
    then consider host now meanwhile racing a (get_invite host.is_uuid a.token site.db) site session
    else refuse a "Invalid or missing invite token." site session

unfoldable pub applicant : Form → (id : String) → Applicant
unfolding field
applicant form id = record {
  token = strip (field form "token");
  username = strip (field form "username");
  password = field form "password";
  confirm = field form "password_confirm";
  id = id;
}

unfoldable pub register :
    Host
    → (now db_now : ℕ) → (meanwhile racing : Database → Database) → (id : String) → Request
    → Form
    → Site
    → Session
    → Reply
unfolding register_with applicant
register host now db_now meanwhile racing id request form site session =
    let limited =
      rate_limit now host.trusted_proxies request "register" 10 (seconds 3600) site.buckets in
    let counted = record site { buckets = limited.0 } in
    if limited.1
    then register_with host db_now meanwhile racing (applicant form id) counted session
    else answer counted session (
        page "register.html" 429
          (("error", label "Too many attempts. Please wait and try again.") ∷ []))
