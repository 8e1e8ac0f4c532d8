-- ===== src/Web/Users/Laws.antt =====
-- Who may change the users through the page of users (app/web/routes_users.py).
use career_spyder.Accounts.Laws.{find_own}
use career_spyder.Accounts.Session.{load_session_user, require_admin, Session}
use career_spyder.Web.Guard.{as_admin, guarded}
use career_spyder.Web.Users.{
  serve_users, users_route, deactivate, send_again, users_page, send_invite, resent, revoke,
  deactivate_found, deactivate_read, UsersRequest, users_list, invite_user, resend_invite_for,
  revoke_invite_of, deactivate_user_of,
}
use career_spyder.Text.{strip}
use career_spyder.Prelude.{
  opt_eq, not, ◌&&◌, eq_iff, if◌then◌else◌, Option-cases, inl, inr, map_option, find, ◌∙◌, false,
  List, ℕ, String, ◌==◌, ◌≡◌, refl, Bool, Option, none, some, Bool-cases, arith,
}
use career_spyder.Database.{Database, UserRow, InviteRow}
use career_spyder.Table.Laws.{find-update_where}
use career_spyder.Accounts.{get_user_by_id, deactivate_user}
use career_spyder.Invites.{create_invite, resend_invite, revoke_invite}
use career_spyder.Web.{Site, Host}

-- Whether a request asks to deactivate the user with an id: the database reads that id from the text of
-- the address.
abbrev pub is_target : (uuid : String → Option String) → UsersRequest → String → Bool
is_target uuid users_list id = false
is_target uuid (invite_user fresh email) id = false
is_target uuid (resend_invite_for fresh token) id = false
is_target uuid (revoke_invite_of token) id = false
is_target uuid (deactivate_user_of user_id) id = opt_eq (uuid user_id) (some id)

-- Whether the text in the address is the id of a user.
abbrev pub names : UsersRequest → String → Bool
names users_list id = false
names (invite_user fresh email) id = false
names (resend_invite_for fresh token) id = false
names (revoke_invite_of token) id = false
names (deactivate_user_of user_id) id = user_id == id

-- Whether the user of a session is an admin whose own id is not the text of the address.
abbrev pub may_deactivate : Option UserRow → UsersRequest → Bool
may_deactivate none request = false
may_deactivate (some user) request = user.role == "admin" && not (names request user.id)

abbrev pub inactive : UserRow → UserRow
inactive u = record u { is_active = false }

resend_users :
    (is_uuid : String → Bool) (now : ℕ) (fresh created_by token : String) (db : Database)
    → (resend_invite is_uuid now fresh created_by token db).0.users ≡ db.users
unfolding resend_invite create_invite
resend_users is_uuid now fresh created_by token db = elim (Bool-cases (is_uuid token)) [
  | inl e ↦ rw e (ground arith)
  | inr e ↦ rw e refl
]

resent_users :
    (now : ℕ) (current : UserRow) (base : String) (made : Database × Option InviteRow) (site : Site)
    (session : Session)
    → made.0.users ≡ site.db.users
    → (resent now current base made site session).site.db.users ≡ site.db.users
unfolding resent users_page
resent_users now current base (db, none) site session h = refl
resent_users now current base (db, some fresh) site session h = h

deactivated_row :
    (id target : String) (rows : List UserRow) (o : Option UserRow)
    → find (λ (x : UserRow). x.id == id) rows ≡ o
    → map_option (λ (r : UserRow). if r.id == target then inactive r else r) o
      ≡ (if target == id then map_option inactive o else o)
deactivated_row id target rows none h = ground arith
deactivated_row id target rows (some r) h =
    let own = find_own (λ (x : UserRow). x.id == id) rows r h in
    ground (arith, eq_iff r.id id, eq_iff r.id target, eq_iff target id)

deactivated_user :
    (id target : String) (o : Option UserRow) (site : Site) (session : Session)
    → get_user_by_id target site.db ≡ o
    → get_user_by_id id (deactivate_found target o site session).site.db ≡ (
        if target == id
        then map_option inactive (get_user_by_id id site.db)
        else get_user_by_id id site.db)
unfolding deactivate_found get_user_by_id deactivate_user
deactivated_user id target none site session h = ground (arith, h, eq_iff target id)
deactivated_user id target (some u) site session h =
    find-update_where (λ (x : UserRow). x.id == id) (λ (x : UserRow). x.id == target) inactive
      site.db.users (λ x. refl)
    ∙ deactivated_row id target site.db.users _ refl

send_invite_users :
    (lower : String → String) (now : ℕ) (fresh base email : String) (current : UserRow)
    (site : Site) (session : Session)
    → (send_invite lower now fresh base email current site session).site.db.users ≡ site.db.users
unfolding send_invite users_page create_invite
send_invite_users lower now fresh base email current site session = ground arith

revoke_users :
    (host : Host) (now : ℕ) (token : String) (current : UserRow) (site : Site) (session : Session)
    → (revoke host now token current site session).site.db.users ≡ site.db.users
unfolding revoke revoke_invite
revoke_users host now token current site session = ground arith

same_user :
    (id : String) (a b : Database) → a.users ≡ b.users → get_user_by_id id a ≡ get_user_by_id id b
unfolding get_user_by_id
same_user id a b h = rw h

read_user :
    (id : String) (read : Option String) (site : Site) (session : Session)
    → get_user_by_id id (deactivate_read read site session).site.db ≡ (
        if opt_eq read (some id)
        then map_option inactive (get_user_by_id id site.db)
        else get_user_by_id id site.db)
unfolding deactivate_read
read_user id none site session = refl
read_user id (some target) site session = deactivated_user id target _ site session refl

-- The user's own part of `serve_users`, for an admin.
served_user :
    (host : Host) (lower : String → String) (uuid : String → Option String) (now : ℕ)
    (base : String) (request : UsersRequest) (current : UserRow) (site : Site) (session : Session)
    (id : String)
    → get_user_by_id id (serve_users host lower uuid now base request current site session).site.db
      ≡ (if is_target uuid request id && not (names request current.id)
          then map_option inactive (get_user_by_id id site.db)
          else get_user_by_id id site.db)
unfolding serve_users
served_user host lower uuid now base users_list current site session id = unfold users_page in refl
served_user host lower uuid now base (invite_user fresh email) current site session id =
    same_user id _ site.db (send_invite_users lower now fresh base email current site session)
served_user host lower uuid now base (resend_invite_for fresh token) current site session id =
    unfold send_again in
    same_user id _ site.db (
      resent_users now current base _ site session
        (resend_users host.is_uuid now fresh current.id (strip token) site.db))
served_user host lower uuid now base (revoke_invite_of token) current site session id =
    same_user id _ site.db (revoke_users host now token current site session)
served_user host lower uuid now base (deactivate_user_of user_id) current site session id =
    unfold deactivate users_page in
    elim (Bool-cases (user_id == current.id)) [
      | inl e ↦ rw e (ground arith)
      | inr e ↦ rw e (read_user id (uuid user_id) site session ∙ ground arith)
    ]

-- A request to the page of users changes at most whether one user is active: the one whose id the database
-- reads from the address, and only if its session is an admin's whose own id is not the text of the
-- address. So nobody but an admin locks anybody out.
pub get_user_by_id-users_route :
    (host : Host) (lower : String → String) (uuid : String → Option String) (now : ℕ)
    (request_base : String) (request : UsersRequest) (site : Site) (session : Session) (id : String)
    → let user = (load_session_user host.crypto session site.db).0 in
      get_user_by_id id (users_route host lower uuid now request_base request site session).site.db
      ≡ (if is_target uuid request id && may_deactivate user request
          then map_option inactive (get_user_by_id id site.db)
          else get_user_by_id id site.db)
unfolding users_route as_admin guarded require_admin
get_user_by_id-users_route host lower uuid now request_base request site session id =
    elim (Option-cases (load_session_user host.crypto session site.db).0) [
      | inl e ↦ rw e (ground arith)
      | inr (user, e) ↦ rw e (elim (Bool-cases (user.role == "admin")) [
        | inl f ↦ rw f (served_user host lower uuid now _ request user site _ id)
        | inr f ↦ rw f (ground arith)
      ])
    ]
